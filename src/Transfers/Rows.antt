-- ===== src/Transfers/Rows.antt =====
-- The transaction and transfer tables, and the job queue, as the services use them.
use meal.Prelude.{
  ℕ, ◌≡◌, inl, inr, Option-cases, arith, Bool, true, false, Option, none, some, List, [], ◌∷◌, ◌==◌,
  if◌then◌else◌,
}
use meal.Prelude.Table.{find, modify}
use meal.Bank.{Bank, Transaction, TransactionStatus, Transfer, User}
use meal.Bank.Action.{
  Action, ok, err, gets, or_throw, modify_bank, ◌>>=◌, ◌>>◌, record_not_found, unique_violation,
}

abbrev pub transaction_key : Transaction → ℕ
transaction_key t = t.id

abbrev pub transfer_key : Transfer → ℕ
transfer_key t = t.id

abbrev pub transfer_of : ℕ → Bank → Option Transfer
transfer_of k b = find transfer_key k b.transfers

abbrev pub transaction_of : ℕ → Bank → Option Transaction
transaction_of k b = find transaction_key k b.transactions

-- `findUnique({ where: { idempotencyKey } })`
abbrev pub transfer_by_key : ℕ → Bank → Option Transfer
transfer_by_key k b = find (λ (t : Transfer). t.idempotency_key) k b.transfers

abbrev pub is_some {ℓ} : {A : Type ℓ} → Option A → Bool
is_some none = false
is_some (some a) = true

-- `transaction.create`: the id is the primary key.
unfoldable pub create_transaction : Transaction → Action Unit
create_transaction t b =
    if is_some (transaction_of t.id b)
    then (err unique_violation, b)
    else (ok tt, record b { transactions = t ∷ b.transactions })

abbrev pub with_status : TransactionStatus → ℕ → Transaction → Transaction
with_status s now t = record t { status = s; posted_at = some now }

abbrev pub stamp_transaction : ℕ → TransactionStatus → ℕ → Bank → Bank
stamp_transaction k s now b = record b {
  transactions = modify transaction_key k (with_status s now) b.transactions;
}

-- `transaction.update` with a status and a date, which throws on a missing row.
unfoldable pub update_transaction : ℕ → TransactionStatus → ℕ → Action Unit
update_transaction k s now = do
  or_throw (← gets (transaction_of k)) record_not_found
  modify_bank (stamp_transaction k s now)

-- `transfer.create`: the id and the idempotency key are unique.
unfoldable pub create_transfer : Transfer → Action Unit
create_transfer t b =
    if is_some (transfer_of t.id b)
    then (err unique_violation, b)
    else if is_some (transfer_by_key t.idempotency_key b)
    then (err unique_violation, b)
    else (ok tt, record b { transfers = t ∷ b.transfers })

abbrev pub change_transfer : ℕ → (Transfer → Transfer) → Bank → Bank
change_transfer k f b = record b { transfers = modify transfer_key k f b.transfers }

-- `transfer.update`, which throws on a missing row.
unfoldable pub update_transfer : ℕ → (Transfer → Transfer) → Action Unit
update_transfer k f = do
  or_throw (← gets (transfer_of k)) record_not_found
  modify_bank (change_transfer k f)

abbrev pub user_locked : ℕ → List User → Bool
user_locked k [] = false
user_locked k (u ∷ us) = if u.id == k then u.transfers_disabled else user_locked k us

abbrev pub remove_job : ℕ → List ℕ → List ℕ
remove_job k [] = []
remove_job k (j ∷ js) = if j == k then js else j ∷ remove_job k js

-- The part of an optional step that is there.
abbrev pub when_some : Option ℕ → (ℕ → Action Unit) → Action Unit
when_some none f b = (ok tt, b)
when_some (some k) f b = f k b

pub create_transaction-ok :
    (t : Transaction) (b : Bank) {u : Unit} {b' : Bank}
    → create_transaction t b ≡ (ok u, b')
    → b' ≡ record b { transactions = t ∷ b.transactions }
unfolding create_transaction
create_transaction-ok t b h = ground arith

pub create_transfer-ok :
    (t : Transfer) (b : Bank) {u : Unit} {b' : Bank}
    → create_transfer t b ≡ (ok u, b')
    → (b' ≡ record b { transfers = t ∷ b.transfers })
      × (transfer_of t.id b ≡ none)
      × (transfer_by_key t.idempotency_key b ≡ none)
unfolding create_transfer
create_transfer-ok t b h =
    ground
      (arith, Option-cases (transfer_of t.id b), Option-cases (transfer_by_key t.idempotency_key b))

pub update_transaction-ok :
    (k : ℕ) (s : TransactionStatus) (now : ℕ) (b : Bank) {u : Unit} {b' : Bank}
    → update_transaction k s now b ≡ (ok u, b')
    → b' ≡ stamp_transaction k s now b
unfolding update_transaction ◌>>=◌ ◌>>◌
update_transaction-ok k s now b h = elim (Option-cases (transaction_of k b)) [
  | inl missing ↦ ground arith
  | inr (a, e) ↦ ground (arith, e)
]

pub update_transfer-ok :
    (k : ℕ) (f : Transfer → Transfer) (b : Bank) {u : Unit} {b' : Bank}
    → update_transfer k f b ≡ (ok u, b')
    → b' ≡ change_transfer k f b
unfolding update_transfer ◌>>=◌ ◌>>◌
update_transfer-ok k f b h = elim (Option-cases (transfer_of k b)) [
  | inl missing ↦ ground arith
  | inr (a, e) ↦ ground (arith, e)
]
