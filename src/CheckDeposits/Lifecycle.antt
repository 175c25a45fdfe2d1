-- ===== src/CheckDeposits/Lifecycle.antt =====
-- What check deposits promise, as an abstract machine: a deposit is filed, and then paid in once or
-- turned down; and the service as an implementation of it.
use meal.Prelude.{
  ℕ, ◌≡◌, inl, inr, refl, some, none, Option, List, [], ◌∷◌, arith, ◌==◌, if◌then◌else◌,
}
use meal.Prelude.Int.{ℤ, ◌+ℤ◌}
use meal.Prelude.Table.{find-modify}
use meal.Bank.{Bank}
use meal.Bank.Balance.{balance_of, account_of-set_balance}
use meal.Bank.Flow.{Ended-of}
use meal.CheckDeposits.Rows.{pending, approved, rejected, CheckDeposit, SubmitCheckInput}
use meal.CheckDeposits.{
  DepositEnv, deposit_key, deposit_of, approved_deposit, rejected_deposit, approve_deposit,
  reject_deposit, submit_deposit,
}
use meal.CheckDeposits.Submit.{Submitted, submit_deposit-ok, submit_deposit-err}
use meal.CheckDeposits.Decide.{
  Approved, Rejected, approve_deposit-ok, approve_deposit-err, reject_deposit-ok,
  reject_deposit-err,
}
use meal.CheckDeposits.Credits.{DepositCall, submits, approves, rejects, after, run}

-- Where a deposit of an amount to an account stands.
pub data Phase : Type 0 where
  absent : Phase
  in_review paid_in turned_down : (account : ℕ) → ℤ → Phase

-- The abstract state: the deposits by number, and the money of the accounts.
pub record View : Type 0 where
  pub phase : ℕ → Phase
  pub money : ℕ → ℤ

-- One deposit enters a phase, and the others stay.
abbrev pub Enters : ℕ → Phase → View → View → Type 0
Enters k p v v' = (j : ℕ) → v'.phase j ≡ (if j == k then p else v.phase j)

abbrev pub SameMoney : View → View → Type 0
SameMoney v v' = (j : ℕ) → v'.money j ≡ v.money j

-- The amount is added to one account, and the others stay.
abbrev pub Adds : ℕ → ℤ → View → View → Type 0
Adds account amount v v' =
    (j : ℕ) → v'.money j ≡ (if j == account then v.money j +ℤ amount else v.money j)

pub data Step (v v' : View) : Type 0 where
  stays : v' ≡ v → Step v v'
  files :
      (k account : ℕ) (amount : ℤ)
      → v.phase k ≡ absent
      → Enters k (in_review account amount) v v'
      → SameMoney v v'
      → Step v v'
  pays_in :
      (k account : ℕ) (amount : ℤ)
      → v.phase k ≡ in_review account amount
      → Enters k (paid_in account amount) v v'
      → Adds account amount v v'
      → Step v v'
  turns_down :
      (k account : ℕ) (amount : ℤ)
      → v.phase k ≡ in_review account amount
      → Enters k (turned_down account amount) v v'
      → SameMoney v v'
      → Step v v'

pub data Steps : View → View → Type 0 where
  here : {v : View} → Steps v v
  next : {v v' v'' : View} → Step v v' → Steps v' v'' → Steps v v''

abbrev pub phase_of_row : CheckDeposit → Phase
phase_of_row row = elim row.status [
  | pending ↦ in_review row.account_id row.amount_cents
  | approved ↦ paid_in row.account_id row.amount_cents
  | rejected ↦ turned_down row.account_id row.amount_cents
]

abbrev pub phase_of : Option CheckDeposit → Phase
phase_of none = absent
phase_of (some row) = phase_of_row row

-- What of the bank's state the promise is about.
abbrev pub view : Bank → View
view b = record { phase = λ k. phase_of (deposit_of k b); money = λ j. balance_of j b }

Submitted-Step :
    (env : DepositEnv) (input : SubmitCheckInput) (b b' : Bank)
    → Submitted env input b b'
    → Step (view b) (view b')
Submitted-Step env input b b' s =
    files env.id s.account.id input.amount_cents (ground (arith, s.fresh))
      (λ j. ground (arith, s.done)) (λ j. ground (arith, s.done))

Approved-Step :
    (env : DepositEnv) (admin k : ℕ) (b b' : Bank)
    → Approved env admin k b b'
    → Step (view b) (view b')
Approved-Step env admin k b b' a =
    let row = a.row in
    pays_in k row.account_id row.amount_cents (ground (arith, a.stored, a.was_pending))
      (λ j.
        let at = find-modify deposit_key j k (approved_deposit env admin) b.deposits (λ r. refl) in
        ground (arith, a.done, at, a.stored))
      (λ j.
        let at = account_of-set_balance j row.account_id (λ x. x +ℤ row.amount_cents) b in
        ground (arith, a.done, at, a.has_account))

Rejected-Step :
    (env : DepositEnv) (admin k : ℕ) (b b' : Bank)
    → Rejected env admin k b b'
    → Step (view b) (view b')
Rejected-Step env admin k b b' a =
    let row = a.row in
    turns_down k row.account_id row.amount_cents (ground (arith, a.stored, a.was_pending))
      (λ j.
        let at = find-modify deposit_key j k (rejected_deposit env admin) b.deposits (λ r. refl) in
        ground (arith, a.done, at, a.stored))
      (λ j. ground (arith, a.done))

-- A call that fails is a step of the machine that changes nothing.
failed-Step : (b b' : Bank) → b' ≡ b → Step (view b) (view b')
failed-Step b b' e = stays (rw e refl)

after-Step : (c : DepositCall) (b : Bank) → Step (view b) (view (after c b))
after-Step (submits env input) b = elim (Ended-of (submit_deposit env input) b) [
  | inl (k, e) ↦ Submitted-Step env input b _ (submit_deposit-ok env input b e).1
  | inr (x, e) ↦ failed-Step b _ (submit_deposit-err env input b x _ e)
]
after-Step (approves env admin k) b = elim (Ended-of (approve_deposit env admin k) b) [
  | inl (u, e) ↦ Approved-Step env admin k b _ (approve_deposit-ok env admin k b e)
  | inr (x, e) ↦ failed-Step b _ (approve_deposit-err env admin k b e)
]
after-Step (rejects env admin k) b = elim (Ended-of (reject_deposit env admin k) b) [
  | inl (u, e) ↦ Rejected-Step env admin k b _ (reject_deposit-ok env admin k b e)
  | inr (x, e) ↦ failed-Step b _ (reject_deposit-err env admin k b e)
]

-- Every sequence of calls of the service is a run of the abstract machine, in which each deposit is
-- filed under a number that was not in use, is paid in to its account or turned down only from review,
-- and nothing else moves the money of an account.
pub run-Steps : (cs : List DepositCall) (b : Bank) → Steps (view b) (view (run cs b))
run-Steps [] b = here
run-Steps (c ∷ cs) b = next (after-Step c b) (run-Steps cs (after c b))
