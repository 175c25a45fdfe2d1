-- ===== src/CheckDeposits/Once.antt =====
-- A decision is final, and what an approval does to the books.
use meal.Prelude.{ℕ, ◌≡◌, inl, inr, refl, false, some, List, [], ◌∷◌, arith, ◌==◌, if◌then◌else◌}
use meal.Prelude.Int.{◌+ℤ◌, int_laws}
use meal.Prelude.Table.{find-modify}
use meal.Bank.{Bank}
use meal.Bank.Action.{ok, err, ◌>>=◌, ◌>>◌, deposit_not_pending}
use meal.Bank.Balance.{account_of-set_balance}
use meal.Ledger.Drift.{drift}
use meal.Bank.Flow.{Ended-of}
use meal.CheckDeposits.Rows.{CheckDeposit}
use meal.CheckDeposits.{
  DepositEnv, deposit_key, deposit_of, is_pending, load_pending, approved_deposit, rejected_deposit,
  approve_deposit, reject_deposit, submit_deposit,
}
use meal.CheckDeposits.Submit.{submit_deposit-ok, submit_deposit-err}
use meal.CheckDeposits.Decide.{
  approve_deposit-ok, approve_deposit-err, reject_deposit-ok, reject_deposit-err,
}
use meal.CheckDeposits.Credits.{DepositCall, submits, approves, rejects, after, run}

-- The deposit is stored, and not pending.
abbrev pub Decided : ℕ → CheckDeposit → Bank → Type 0
Decided k row b = (deposit_of k b ≡ some row) × (is_pending row.status ≡ false)

after-Decided :
    (c : DepositCall) (k : ℕ) (row : CheckDeposit) (b : Bank)
    → Decided k row b
    → Decided k row (after c b)
after-Decided (submits env input) k row b d = elim (Ended-of (submit_deposit env input) b) [
  | inl (n, e) ↦
      let s = (submit_deposit-ok env input b e).1 in (ground (arith, s.done, s.fresh, d.0), d.1)
  | inr (x, e) ↦ rw (submit_deposit-err env input b x _ e) d
]
after-Decided (approves env admin i) k row b d = elim (Ended-of (approve_deposit env admin i) b) [
  | inl (u, e) ↦
      let a = approve_deposit-ok env admin i b e in
      let at = find-modify deposit_key k i (approved_deposit env admin) b.deposits (λ r. refl) in
      (ground (arith, a.done, at, d.0, d.1, a.stored, a.was_pending), d.1)
  | inr (x, e) ↦ rw (approve_deposit-err env admin i b e) d
]
after-Decided (rejects env admin i) k row b d = elim (Ended-of (reject_deposit env admin i) b) [
  | inl (u, e) ↦
      let a = reject_deposit-ok env admin i b e in
      let at = find-modify deposit_key k i (rejected_deposit env admin) b.deposits (λ r. refl) in
      (ground (arith, a.done, at, d.0, d.1, a.stored, a.was_pending), d.1)
  | inr (x, e) ↦ rw (reject_deposit-err env admin i b e) d
]

run-Decided :
    (cs : List DepositCall) (k : ℕ) (row : CheckDeposit) (b : Bank)
    → Decided k row b
    → Decided k row (run cs b)
run-Decided [] k row b d = d
run-Decided (c ∷ cs) k row b d = run-Decided cs k row (after c b) (after-Decided c k row b d)

-- Whether it was approved or rejected, a decided deposit keeps its row through any further calls, and
-- another approval and another rejection are refused and change nothing.
pub run-decided_refused :
    (cs : List DepositCall) (env : DepositEnv) (admin k : ℕ) (row : CheckDeposit) (b : Bank)
    → deposit_of k b ≡ some row
    → is_pending row.status ≡ false
    → (deposit_of k (run cs b) ≡ some row)
      × (approve_deposit env admin k (run cs b) ≡ (err deposit_not_pending, run cs b))
      × (reject_deposit env admin k (run cs b) ≡ (err deposit_not_pending, run cs b))
unfolding approve_deposit reject_deposit load_pending ◌>>=◌ ◌>>◌
run-decided_refused cs env admin k row b e shut =
    let (at, closed) = run-Decided cs k row b (e, shut) in
    (at, ground (arith, at, closed), ground (arith, at, closed))

-- An approval moves the account's balance away from its ledger by the amount, since nothing is posted;
-- the other accounts keep the distance.
pub approve_deposit-drift :
    (env : DepositEnv) (admin k j : ℕ) (row : CheckDeposit) (b : Bank) {u : Unit} {b' : Bank}
    → approve_deposit env admin k b ≡ (ok u, b')
    → deposit_of k b ≡ some row
    → drift j b' ≡ (if j == row.account_id then drift j b +ℤ row.amount_cents else drift j b)
approve_deposit-drift env admin k j row b {b' = b'} h e =
    let a = approve_deposit-ok env admin k b h in
    let same : a.row ≡ row = ground (arith, a.stored, e) in
    let at = account_of-set_balance j a.row.account_id (λ x. x +ℤ a.row.amount_cents) b in
    grind (int_laws, a.done, same, at, a.has_account)
