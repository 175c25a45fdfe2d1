-- ===== src/Books/Calls.antt =====
-- Any sequence of calls of the services keeps the books.
use meal.Prelude.{ℕ, ◌≡◌, true, Option, List, [], ◌∷◌, All}
use meal.Prelude.Int.{pos}
use meal.Bank.{Bank}
use meal.Ledger.{compute_and_report}
use meal.Ledger.Drift.{drift}
use meal.Ledger.Validity.{IsLedger}
use meal.Ledger.Balanced.{compute_and_report-balanced}
use meal.Transfers.Requests.{Env, InitiateTransfer}
use meal.Transfers.Initiate.{initiate}
use meal.Transfers.Settlement.{process, on_failed}
use meal.Transfers.Rescue.{force_settle, force_settle_own}
use meal.Admin.Review.{Decision, decide}
use meal.Admin.Wires.{approve_wire, reverse}
use meal.PaymentRequests.{pay, decline}
use meal.Books.Payments.{pay-KeptBy, decline-KeptBy}
use meal.Books.Rules.{AllPriced, Solvent, Keeps, Keeps-trans}
use meal.Books.Combine.{Keeps-refl}
use meal.Books.Initiations.{IsSane, initiate-KeptBy}
use meal.Books.Settlements.{
  process-KeptBy, on_failed-KeptBy, force_settle-KeptBy, force_settle_own-KeptBy,
}
use meal.Books.Decisions.{decide-KeptBy, approve_wire-KeptBy, reverse-KeptBy}

-- What may happen to the bank next, with what the call takes from outside.
pub data Call : Type 0 where
  initiates : Env → (user : ℕ) → (key : Option ℕ) → InitiateTransfer → Call
  job_runs : Env → (transfer : ℕ) → Call
  job_fails : Env → (made attempts transfer : ℕ) → Call
  settles_own : Env → (user transfer : ℕ) → Call
  settles : Env → (transfer : ℕ) → Call
  decides : Env → (actor transfer : ℕ) → Decision → Call
  approves_wire : Env → (actor transfer : ℕ) → Call
  reverses : Env → (transfer : ℕ) → Call
  pays_request : Env → (user request : ℕ) → (key : Option ℕ) → (source : ℕ) → Call
  declines_request : Env → (user request : ℕ) → Call

-- The state after a call, also after one that throws.
abbrev pub after : Call → Bank → Bank
after (initiates env user key dto) b = (initiate env user key dto b).1
after (job_runs env k) b = (process env k b).1
after (job_fails env made attempts k) b = (on_failed env made attempts k b).1
after (settles_own env user k) b = (force_settle_own env user k b).1
after (settles env k) b = (force_settle env k b).1
after (decides env actor k dto) b = (decide env actor k dto b).1
after (approves_wire env actor k) b = (approve_wire env actor k b).1
after (reverses env k) b = (reverse env k b).1
after (pays_request env user k key source) b = (pay env user k key source b).1
after (declines_request env user k) b = (decline user k b).1

abbrev pub run : List Call → Bank → Bank
run [] b = b
run (c ∷ cs) b = run cs (after c b)

abbrev pub env_of : Call → Env
env_of (initiates env _ _ _) = env
env_of (job_runs env _) = env
env_of (job_fails env _ _ _) = env
env_of (settles_own env _ _) = env
env_of (settles env _) = env
env_of (decides env _ _ _) = env
env_of (approves_wire env _ _) = env
env_of (reverses env _) = env
env_of (pays_request env _ _ _ _) = env
env_of (declines_request env _ _) = env

abbrev pub Configured : List Call → Type 0
Configured = All (λ c. IsSane (env_of c).config)

after-Keeps : (c : Call) (b : Bank) → IsSane (env_of c).config → Keeps b (after c b)
after-Keeps (initiates env user key dto) b s = initiate-KeptBy env user key dto b s
after-Keeps (job_runs env k) b s = process-KeptBy env k b
after-Keeps (job_fails env made attempts k) b s = on_failed-KeptBy env made attempts k b
after-Keeps (settles_own env user k) b s = force_settle_own-KeptBy env user k b
after-Keeps (settles env k) b s = force_settle-KeptBy env k b
after-Keeps (decides env actor k dto) b s = decide-KeptBy env actor k dto b
after-Keeps (approves_wire env actor k) b s = approve_wire-KeptBy env actor k b
after-Keeps (reverses env k) b s = reverse-KeptBy env k b
after-Keeps (pays_request env user k key source) b s = pay-KeptBy env user k key source b s
after-Keeps (declines_request env user k) b s = decline-KeptBy user k b

pub run-Keeps : (cs : List Call) (b : Bank) → Configured cs → Keeps b (run cs b)
run-Keeps [] b s = Keeps-refl b
run-Keeps (c ∷ cs) b s =
    Keeps-trans b (after c b) (run cs (after c b)) (after-Keeps c b s.0)
      (run-Keeps cs (after c b) s.1)

-- Over any sequence of calls, successful or not, that run with limits and a minimal fee that are not
-- negative, the distance between each account's balance and the net of the postings to its ledger
-- code stays what it was, if no stored transfer had a negative amount or fee at the start.
pub run-drift :
    (cs : List Call) (b : Bank)
    → Configured cs
    → AllPriced b
    → (j : ℕ) → drift j (run cs b) ≡ drift j b
run-drift cs b s p = (run-Keeps cs b s).same_drift p

-- Over any sequence of calls, successful or not, that run with limits and a minimal fee that are not
-- negative, no balance becomes negative, if none was at the start and no stored transfer had a
-- negative amount or fee.
pub run-Solvent :
    (cs : List Call) (b : Bank) → Configured cs → AllPriced b → Solvent b → Solvent (run cs b)
run-Solvent cs b s p solvent = (run-Keeps cs b s).solvent p solvent

-- From a valid ledger, the trial balance is 0 and is reported as balanced after any sequence of
-- calls, successful or not, that run with limits and a minimal fee that are not negative.
pub run-balanced :
    (cs : List Call) (b : Bank)
    → Configured cs
    → IsLedger b
    → ((compute_and_report (run cs b)).delta ≡ pos 0)
      × ((compute_and_report (run cs b)).balanced ≡ true)
run-balanced cs b s v = compute_and_report-balanced (run cs b) ((run-Keeps cs b s).ledger v)
