-- ===== src/CheckDeposits/Credits.antt =====
-- Each approved deposit is credited once, and to no other account.
use meal.Prelude.{
  ℕ, ◌≡◌, inl, inr, refl, ◌∙◌, Bool, true, false, ◌&&◌, some, List, [], ◌∷◌, arith, ◌==◌,
  if◌then◌else◌, Bool-cases,
}
use meal.Prelude.Int.{ℤ, pos, ◌+ℤ◌, ◌-ℤ◌, int_laws}
use meal.Prelude.Table.{modify, find}
use meal.Bank.{Bank}
use meal.Bank.Balance.{balance_of, account_of-set_balance}
use meal.Bank.Flow.{Ended-of}
use meal.CheckDeposits.Submit.{Submitted, submit_deposit-ok, submit_deposit-err}
use meal.CheckDeposits.Rows.{CheckDepositStatus, approved, CheckDeposit, SubmitCheckInput}
use meal.CheckDeposits.{
  DepositEnv, deposit_key, is_pending, approved_deposit, rejected_deposit, approve_deposit,
  reject_deposit, submit_deposit,
}
use meal.CheckDeposits.Decide.{
  Approved, Rejected, approve_deposit-ok, approve_deposit-err, reject_deposit-ok,
  reject_deposit-err,
}

abbrev pub is_approved : CheckDepositStatus → Bool
is_approved approved = true
is_approved _ = false

-- The approved deposits to an account, added up.
abbrev pub credits : ℕ → List CheckDeposit → ℤ
credits j [] = pos 0
credits j (d ∷ ds) =
    if is_approved d.status && d.account_id == j
    then d.amount_cents +ℤ credits j ds
    else credits j ds

credits-approved :
    (env : DepositEnv) (admin k j : ℕ) (ds : List CheckDeposit) (row : CheckDeposit)
    → find deposit_key k ds ≡ some row
    → is_pending row.status ≡ true
    → credits j (modify deposit_key k (approved_deposit env admin) ds)
      ≡ (if j == row.account_id then credits j ds +ℤ row.amount_cents else credits j ds)
credits-approved env admin k j [] row e p = ground arith
credits-approved env admin k j (d ∷ ds) row e p = elim (Bool-cases (d.id == k)) [
  | inl here ↦ grind (int_laws, e, p, here)
  | inr there ↦ grind (int_laws, e, p, there, credits-approved env admin k j ds row)
]

credits-rejected :
    (env : DepositEnv) (admin k j : ℕ) (ds : List CheckDeposit) (row : CheckDeposit)
    → find deposit_key k ds ≡ some row
    → is_pending row.status ≡ true
    → credits j (modify deposit_key k (rejected_deposit env admin) ds) ≡ credits j ds
credits-rejected env admin k j [] row e p = ground arith
credits-rejected env admin k j (d ∷ ds) row e p = elim (Bool-cases (d.id == k)) [
  | inl here ↦ ground (arith, e, p, here)
  | inr there ↦ ground (arith, e, there, credits-rejected env admin k j ds row, p)
]

-- The balance that does not come from approved deposits.
abbrev pub other_money : ℕ → Bank → ℤ
other_money j b = balance_of j b -ℤ credits j b.deposits

pub data DepositCall : Type 0 where
  submits : DepositEnv → SubmitCheckInput → DepositCall
  approves : DepositEnv → (admin deposit : ℕ) → DepositCall
  rejects : DepositEnv → (admin deposit : ℕ) → DepositCall

abbrev pub after : DepositCall → Bank → Bank
after (submits env input) b = (submit_deposit env input b).1
after (approves env admin k) b = (approve_deposit env admin k b).1
after (rejects env admin k) b = (reject_deposit env admin k b).1

abbrev pub run : List DepositCall → Bank → Bank
run [] b = b
run (c ∷ cs) b = run cs (after c b)

Approved-other_money :
    (env : DepositEnv) (admin k j : ℕ) (b b' : Bank)
    → Approved env admin k b b'
    → other_money j b' ≡ other_money j b
Approved-other_money env admin k j b b' a =
    let credit = credits-approved env admin k j b.deposits a.row a.stored a.was_pending in
    let balance = account_of-set_balance j a.row.account_id (λ x. x +ℤ a.row.amount_cents) b in
    grind (int_laws, a.done, credit, balance, a.has_account)

approve-other_money :
    (env : DepositEnv) (admin k j : ℕ) (b : Bank)
    → other_money j (approve_deposit env admin k b).1 ≡ other_money j b
approve-other_money env admin k j b = elim (Ended-of (approve_deposit env admin k) b) [
  | inl (u, e) ↦
      Approved-other_money env admin k j b (approve_deposit env admin k b).1
        (approve_deposit-ok env admin k b e)
  | inr (x, e) ↦ rw (approve_deposit-err env admin k b e) refl
]

Rejected-other_money :
    (env : DepositEnv) (admin k j : ℕ) (b b' : Bank)
    → Rejected env admin k b b'
    → other_money j b' ≡ other_money j b
Rejected-other_money env admin k j b b' a =
    let credit = credits-rejected env admin k j b.deposits a.row a.stored a.was_pending in
    ground (arith, a.done, credit)

reject-other_money :
    (env : DepositEnv) (admin k j : ℕ) (b : Bank)
    → other_money j (reject_deposit env admin k b).1 ≡ other_money j b
reject-other_money env admin k j b = elim (Ended-of (reject_deposit env admin k) b) [
  | inl (u, e) ↦
      Rejected-other_money env admin k j b (reject_deposit env admin k b).1
        (reject_deposit-ok env admin k b e)
  | inr (x, e) ↦ rw (reject_deposit-err env admin k b e) refl
]

Submitted-other_money :
    (env : DepositEnv) (input : SubmitCheckInput) (j : ℕ) (b b' : Bank)
    → Submitted env input b b'
    → other_money j b' ≡ other_money j b
Submitted-other_money env input j b b' a = ground (arith, a.done)

submit-other_money :
    (env : DepositEnv) (input : SubmitCheckInput) (j : ℕ) (b : Bank)
    → other_money j (submit_deposit env input b).1 ≡ other_money j b
submit-other_money env input j b = elim (Ended-of (submit_deposit env input) b) [
  | inl (u, e) ↦
      Submitted-other_money env input j b (submit_deposit env input b).1
        (submit_deposit-ok env input b e).1
  | inr (x, e) ↦ rw (submit_deposit-err env input b x _ e) refl
]

after-other_money :
    (c : DepositCall) (j : ℕ) (b : Bank) → other_money j (after c b) ≡ other_money j b
after-other_money (submits env input) j b = submit-other_money env input j b
after-other_money (approves env admin k) j b = approve-other_money env admin k j b
after-other_money (rejects env admin k) j b = reject-other_money env admin k j b

-- Any sequence of submissions, approvals and rejections moves the balance of every account by exactly
-- the amounts of the deposits to it that were approved in between.
pub run-other_money :
    (cs : List DepositCall) (j : ℕ) (b : Bank) → other_money j (run cs b) ≡ other_money j b
run-other_money [] j b = refl
run-other_money (c ∷ cs) j b = run-other_money cs j (after c b) ∙ after-other_money c j b
