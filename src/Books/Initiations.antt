-- ===== src/Books/Initiations.antt =====
-- `initiate` keeps the books, however it ends.
use meal.Prelude.{ℕ, ◌≡◌, true, Option, none, some, arith}
use meal.Prelude.Int.{pos, ◌≤ℤ◌}
use meal.Bank.{Bank, Transfer}
use meal.Quote.{QuoteParams, compute_quote}
use meal.Transfers.Requests.{Config, Env, InitiateTransfer}
use meal.Transfers.Initiate.{prepare, commit, initiate_new, replay, replay_or_new, initiate}
use meal.Transfers.Initiate.Checks.{prepare-Reads, prepare-ok}
use meal.Transfers.Initiate.Effect.{commit-ok}
use meal.Books.Moves.{Committed-Keeps}
use meal.Books.Combine.{
  KeptBy, Keeps-refl, Reads-KeptBy, >>=-KeptBy, >>-KeptBy, transaction-KeptBy, guard-KeptBy,
}
use meal.Books.Quiet.{Quiet-Keeps, schedule-Quiet, emit-KeptBy}

-- The limits and the minimal fee that are configured are not negative.
abbrev pub IsSane : Config → Type 0
IsSane c = (pos 0 ≤ℤ c.min_cents) × (pos 0 ≤ℤ c.fee_min)

quoted_priced :
    (p : QuoteParams)
    → pos 0 ≤ℤ p.min_cents
    → pos 0 ≤ℤ p.instant_fee_min_cents
    → (compute_quote p).valid ≡ true
    → (pos 0 ≤ℤ p.amount_cents) × (pos 0 ≤ℤ (compute_quote p).fee_cents)
unfolding compute_quote
quoted_priced p lo fee v = ground arith

initiate_new-KeptBy :
    (env : Env) (user key : ℕ) (dto : InitiateTransfer) (b : Bank)
    → IsSane env.config
    → KeptBy (initiate_new env user key dto) b
unfolding initiate_new
initiate_new-KeptBy env user key dto b sane =
    >>=-KeptBy _ _ b (Reads-KeptBy (prepare env user dto) b (prepare-Reads env user dto b))
      (λ plan e.
        let (_, planned) = prepare-ok env user dto b (λ i. (e i, (prepare env user dto b).1)) in
        let (amount, fee) = quoted_priced _ sane.0 sane.1 planned.valid in
        >>=-KeptBy _ _ _
          (transaction-KeptBy (commit env user key dto plan) _ (λ t b' done.
            let (_, effect, kept) = commit-ok env user key dto plan _ done in
            Committed-Keeps env user key dto plan _ b' amount (rw planned.fee fee) effect kept))
          (λ t _.
            >>-KeptBy _ _ _ (emit-KeptBy _ _)
              (>>-KeptBy _ _ _ (Quiet-Keeps _ _ (schedule-Quiet env t _)) (Keeps-refl _))))

replay-KeptBy : (env : Env) (user : ℕ) (t : Transfer) (b : Bank) → KeptBy (replay env user t) b
unfolding replay
replay-KeptBy env user t b = guard-KeptBy _ _ _ b (Keeps-refl b)

replay_or_new-KeptBy :
    (env : Env) (user key : ℕ) (dto : InitiateTransfer) (o : Option Transfer) (b : Bank)
    → IsSane env.config
    → KeptBy (replay_or_new env user key dto o) b
unfolding replay_or_new
replay_or_new-KeptBy env user key dto none b sane = initiate_new-KeptBy env user key dto b sane
replay_or_new-KeptBy env user key dto (some t) b sane = replay-KeptBy env user t b

-- `initiate` keeps the books, whether it answers, replays or throws.
pub initiate-KeptBy :
    (env : Env) (user : ℕ) (key : Option ℕ) (dto : InitiateTransfer) (b : Bank)
    → IsSane env.config
    → KeptBy (initiate env user key dto) b
unfolding initiate
initiate-KeptBy env user none dto b sane = Keeps-refl b
initiate-KeptBy env user (some key) dto b sane = >>=-KeptBy _ _ b (Keeps-refl b) (λ c _.
    >>-KeptBy _ _ b (Keeps-refl b)
      (>>=-KeptBy _ _ b (Keeps-refl b) (λ o _. replay_or_new-KeptBy env user key dto o b sane)))
