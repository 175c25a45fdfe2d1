-- ===== src/Books/Quiet.antt =====
-- The steps that only announce: they leave the queue, the timers and the events different, and keep
-- the books.
use meal.Prelude.{ℕ, ◌≡◌, refl, ◌∷◌, Option, none, some, arith, Option-cases}
use meal.Bank.{Bank, Transfer}
use meal.Bank.Action.{emit}
use meal.Bank.Balance.{account_of}
use meal.Transfers.Requests.{Env}
use meal.Transfers.Rows.{when_some}
use meal.Transfers.Initiate.{schedule}
use meal.Transfers.Settlement.{notify_account, notify_recipient, announce, destination}
use meal.Admin.Wires.{announce_reversal}
use meal.Books.Rules.{Keeps, Keeps-same}
use meal.Books.Combine.{KeptBy, Keeps-refl, >>-KeptBy}

-- Only the queue, the timers and the events differ.
unfoldable pub Quiet : Bank → Bank → Type 0
Quiet b b' = b' ≡ record b { jobs = b'.jobs; timers = b'.timers; events = b'.events }

pub Quiet-Keeps : (b b' : Bank) → Quiet b b' → Keeps b b'
unfolding Quiet
Quiet-Keeps b b' q =
    let same : b'.transfers ≡ b.transfers = ground (arith, q) in
    Keeps-same b b' (ground (arith, q)) (ground (arith, q)) (ground (arith, q)) same

pub schedule-Quiet : (env : Env) (t : Transfer) (b : Bank) → Quiet b (schedule env t b).1
unfolding Quiet schedule
schedule-Quiet env t b = ground arith

pub notify_account-Quiet : (k : ℕ) (b : Bank) → Quiet b (notify_account k b).1
unfolding Quiet notify_account
notify_account-Quiet k b = ground (arith, Option-cases (account_of k b))

pub notify_recipient-Quiet :
    (env : Env) (t : Transfer) (k : ℕ) (b : Bank) → Quiet b (notify_recipient env t k b).1
unfolding Quiet notify_recipient
notify_recipient-Quiet env t k b = ground (arith, Option-cases (account_of k b))

pub announce_reversal-Quiet :
    (env : Env) (t : Transfer) (b : Bank) → Quiet b (announce_reversal env t b).1
unfolding Quiet announce_reversal
announce_reversal-Quiet env t b =
    ground
      (arith, Option-cases (account_of t.from_account_id b), Option-cases t.pending_transaction_id)

pub emit-KeptBy : (e : _) (b : Bank) → KeptBy (emit e) b
emit-KeptBy e b = Keeps-same b (record b { events = e ∷ b.events }) refl refl refl refl

pub when_some-KeptBy :
    (k : Option ℕ) (f : ℕ → _) (b : Bank) → ((i : ℕ) → KeptBy (f i) b) → KeptBy (when_some k f) b
when_some-KeptBy none f b h = Keeps-refl b
when_some-KeptBy (some i) f b h = h i

pub announce-KeptBy : (env : Env) (t : Transfer) (b : Bank) → KeptBy (announce env t) b
unfolding announce
announce-KeptBy env t b =
    >>-KeptBy _ _ b (Quiet-Keeps b _ (notify_account-Quiet t.from_account_id b)) (
      >>-KeptBy _ _ _ (emit-KeptBy _ _) (
        >>-KeptBy _ _ _
          (when_some-KeptBy (destination t.kind t.to_account_id) _ _
            (λ k. Quiet-Keeps _ _ (notify_recipient-Quiet env t k _)))
          (emit-KeptBy _ _)))
