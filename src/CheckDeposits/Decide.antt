-- ===== src/CheckDeposits/Decide.antt =====
-- What an approval and a rejection have checked and done, and that a failed one changes nothing.
use meal.Prelude.{ℕ, ◌≡◌, inl, inr, true, some, ◌∷◌, arith, Option-cases}
use meal.Prelude.Int.{◌+ℤ◌}
use meal.Prelude.Table.{find-key}
use meal.Bank.{Bank, Account}
use meal.Bank.Action.{ok, err, Error, transaction, or_throw-ok, >>=-ok, >>-ok, ◌>>=◌, ◌>>◌}
use meal.Bank.Balance.{account_key, account_of, set_balance, update_balance-ok}
use meal.Bank.Flow.{>>=-err, >>-err, transaction-err, transaction-ok}
use meal.Transfers.Rows.{create_transaction-ok}
use meal.CheckDeposits.Rows.{CheckDeposit}
use meal.CheckDeposits.{
  DepositEnv, deposit_of, is_pending, change_deposit, update_deposit, deposit_transaction,
  approved_deposit, rejected_deposit, credit_deposit, load_pending, announce_deposit,
  approve_deposit, reject_deposit,
}

update_deposit-ok :
    (k : ℕ) (f : CheckDeposit → CheckDeposit) (b : Bank) {u : Unit} {b' : Bank}
    → update_deposit k f b ≡ (ok u, b')
    → b' ≡ change_deposit k f b
unfolding update_deposit ◌>>=◌ ◌>>◌
update_deposit-ok k f b h = elim (Option-cases (deposit_of k b)) [
  | inl e ↦ ground (arith, e)
  | inr (x, e) ↦ ground (arith, e)
]

update_deposit-err :
    (k : ℕ) (f : CheckDeposit → CheckDeposit) (b : Bank) {x : Error} {b' : Bank}
    → update_deposit k f b ≡ (err x, b')
    → b' ≡ b
unfolding update_deposit ◌>>=◌ ◌>>◌
update_deposit-err k f b h = elim (Option-cases (deposit_of k b)) [
  | inl e ↦ ground (arith, e)
  | inr (x, e) ↦ ground (arith, e)
]

load_pending-ok :
    (k : ℕ) (b : Bank) {row : CheckDeposit} {b' : Bank}
    → load_pending k b ≡ (ok row, b')
    → (b' ≡ b) × (deposit_of k b ≡ some row) × (is_pending row.status ≡ true)
unfolding load_pending ◌>>=◌ ◌>>◌
load_pending-ok k b h = elim (Option-cases (deposit_of k b)) [
  | inl e ↦ ground (arith, e, h)
  | inr (x, e) ↦ ground (arith, e, h)
]

load_pending-err :
    (k : ℕ) (b : Bank) {x : Error} {b' : Bank} → load_pending k b ≡ (err x, b') → b' ≡ b
unfolding load_pending ◌>>=◌ ◌>>◌
load_pending-err k b h = elim (Option-cases (deposit_of k b)) [
  | inl e ↦ ground (arith, e, h)
  | inr (y, e) ↦ ground (arith, e, h)
]

-- The state that an approval's database transaction leaves.
abbrev pub credited : DepositEnv → (admin deposit : ℕ) → CheckDeposit → Bank → Bank
credited env admin k row b = change_deposit k (approved_deposit env admin) (
    set_balance row.account_id (λ x. x +ℤ row.amount_cents)
      (record b { transactions = deposit_transaction env row row.account_id ∷ b.transactions }))

credit_deposit-ok :
    (env : DepositEnv) (admin k : ℕ) (row : CheckDeposit) (b : Bank) {u : Unit} {b' : Bank}
    → credit_deposit env admin k row row.account_id b ≡ (ok u, b')
    → b' ≡ credited env admin k row b
unfolding credit_deposit
credit_deposit-ok env admin k row b h =
    let (_, b₁, e₁, h₁) = >>-ok _ _ b h in
    let (_, b₂, e₂, h₂) = >>-ok _ _ b₁ h₁ in
    let made = create_transaction-ok (deposit_transaction env row row.account_id) b e₁ in
    let (paid, _, _) = update_balance-ok row.account_id (λ x. x +ℤ row.amount_cents) b₁ e₂ in
    let marked = update_deposit-ok k (approved_deposit env admin) b₂ h₂ in
    ground (arith, made, paid, marked)

-- The pending deposit that is approved, and its account.
pub record Approved (env : DepositEnv) (admin k : ℕ) (b b' : Bank) : Type 0 where
  pub row : CheckDeposit
  pub account : Account
  pub stored : deposit_of k b ≡ some row
  pub was_pending : is_pending row.status ≡ true
  pub has_account : account_of row.account_id b ≡ some account
  pub done : b' ≡ announce_deposit env row row.account_id (credited env admin k row b)

credit_at :
    (env : DepositEnv) (admin k : ℕ) (row : CheckDeposit) (account : Account) (b : Bank) {u : Unit}
    {b' : Bank}
    → account.id ≡ row.account_id
    → transaction (credit_deposit env admin k row account.id) b ≡ (ok u, b')
    → b' ≡ credited env admin k row b
credit_at env admin k row account b {u = u} {b' = b'} id h =
    let h' : transaction (credit_deposit env admin k row row.account_id) b ≡ (ok u, b') =
      rw id at h in
    credit_deposit-ok env admin k row b
      (transaction-ok (credit_deposit env admin k row row.account_id) b h')

-- A deposit that is approved was pending and its account exists; the amount is added to the balance,
-- a posted line enters the feed, and the deposit is marked with it.
pub approve_deposit-ok :
    (env : DepositEnv) (admin k : ℕ) (b : Bank) {u : Unit} {b' : Bank}
    → approve_deposit env admin k b ≡ (ok u, b')
    → Approved env admin k b b'
unfolding approve_deposit
approve_deposit-ok env admin k b h =
    let (row, b₁, e₁, h₁) = >>=-ok _ _ b h in
    let (same, stored, open_) = load_pending-ok k b e₁ in
    let (o, b₂, e₂, h₂) = >>=-ok _ _ b₁ h₁ in
    let (account, b₃, e₃, h₃) = >>=-ok _ _ b₂ h₂ in
    let (_, b₄, e₄, h₄) = >>-ok _ _ b₃ h₃ in
    let from_b : b₃ ≡ b = ground (arith, same, e₂, e₃) in
    let found : account_of row.account_id b ≡ some account =
      ground (arith, (or_throw-ok _ _ b₂ e₃).0, same, e₂) in
    let id = find-key account_key row.account_id b.accounts account found in
    let paid = credit_at env admin k row account b₃ id e₄ in
    record {
      row = row;
      account = account;
      stored = stored;
      was_pending = open_;
      has_account = found;
      done = ground (arith, h₄, paid, from_b, id);
    }

-- The pending deposit that is rejected.
pub record Rejected (env : DepositEnv) (admin k : ℕ) (b b' : Bank) : Type 0 where
  pub row : CheckDeposit
  pub stored : deposit_of k b ≡ some row
  pub was_pending : is_pending row.status ≡ true
  pub done : b' ≡ change_deposit k (rejected_deposit env admin) b

pub reject_deposit-ok :
    (env : DepositEnv) (admin k : ℕ) (b : Bank) {u : Unit} {b' : Bank}
    → reject_deposit env admin k b ≡ (ok u, b')
    → Rejected env admin k b b'
unfolding reject_deposit
reject_deposit-ok env admin k b h =
    let (row, b₁, e₁, h₁) = >>-ok _ _ b h in
    let (same, stored, open_) = load_pending-ok k b e₁ in
    let marked = update_deposit-ok k (rejected_deposit env admin) b₁ h₁ in
    record { row = row; stored = stored; was_pending = open_; done = ground (arith, marked, same) }

pub approve_deposit-err :
    (env : DepositEnv) (admin k : ℕ) (b : Bank) {x : Error} {b' : Bank}
    → approve_deposit env admin k b ≡ (err x, b')
    → b' ≡ b
unfolding approve_deposit
approve_deposit-err env admin k b h = elim (>>=-err _ _ b h) [
  | inl e ↦ load_pending-err k b e
  | inr (row, b₁, e₁, h₁) ↦
      let (same, stored, open_) = load_pending-ok k b e₁ in
      elim (>>=-err _ _ b₁ h₁) [
        | inl e ↦ ground (arith, e)
        | inr (o, b₂, e₂, h₂) ↦ elim (>>=-err _ _ b₂ h₂) [
          | inl e ↦ ground (arith, e, e₂, same, Option-cases o)
          | inr (account, b₃, e₃, h₃) ↦
              let found = or_throw-ok _ _ b₂ e₃ in
              elim (>>-err _ _ b₃ h₃) [
                | inl e ↦
                    let back = transaction-err (credit_deposit env admin k row account.id) b₃ e in
                    ground (arith, back, found, e₂, same)
                | inr (_, b₄, e₄, h₄) ↦ ground (arith, h₄)
              ]
        ]
      ]
]

pub reject_deposit-err :
    (env : DepositEnv) (admin k : ℕ) (b : Bank) {x : Error} {b' : Bank}
    → reject_deposit env admin k b ≡ (err x, b')
    → b' ≡ b
unfolding reject_deposit
reject_deposit-err env admin k b h = elim (>>-err _ _ b h) [
  | inl e ↦ load_pending-err k b e
  | inr (row, b₁, e₁, h₁) ↦
      let (same, stored, open_) = load_pending-ok k b e₁ in
      ground (arith, same, update_deposit-err k (rejected_deposit env admin) b₁ h₁)
]
