-- ===== src/Bank/Balance.antt =====
-- The account table: `account.findUnique`, and `account.update` with a new balance.
use mathlib.Core.Option
use meal.Prelude.{
  ℕ, ◌≡◌, inl, inr, Option-cases, refl, Option, none, some, arith, ◌==◌, if◌then◌else◌,
}
use meal.Prelude.Int.{ℤ, pos}
use meal.Prelude.Table.{find, modify, find-modify}
use meal.Bank.{Bank, Account}
use meal.Bank.Action.{Action, ok, record_not_found, gets, or_throw, modify_bank, ◌>>=◌, ◌>>◌}

abbrev pub account_key : Account → ℕ
account_key a = a.id

abbrev pub account_of : ℕ → Bank → Option Account
account_of k b = find account_key k b.accounts

abbrev pub balance_in : Option Account → ℤ
balance_in none = pos 0
balance_in (some a) = a.balance_cents

abbrev pub balance_of : ℕ → Bank → ℤ
balance_of k b = balance_in (account_of k b)

abbrev pub with_balance : (ℤ → ℤ) → Account → Account
with_balance f a = record a { balance_cents = f a.balance_cents }

abbrev pub set_balance : ℕ → (ℤ → ℤ) → Bank → Bank
set_balance k f b = record b { accounts = modify account_key k (with_balance f) b.accounts }

-- `account.update({ where: { id }, data: { balanceCents: … } })`, which throws on a missing row.
unfoldable pub update_balance : ℕ → (ℤ → ℤ) → Action Unit
update_balance k f = do
  or_throw (← gets (account_of k)) record_not_found
  modify_bank (set_balance k f)

pub account_of-set_balance :
    (j k : ℕ) (f : ℤ → ℤ) (b : Bank)
    → account_of j (set_balance k f b)
      ≡ (if j == k then Option.map (with_balance f) (account_of j b) else account_of j b)
account_of-set_balance j k f b = find-modify account_key j k (with_balance f) b.accounts (λ r. refl)

pub update_balance-ok :
    (k : ℕ) (f : ℤ → ℤ) (b : Bank) {u : Unit} {b' : Bank}
    → update_balance k f b ≡ (ok u, b')
    → (b' ≡ set_balance k f b) × (a : Account) × (account_of k b ≡ some a)
unfolding update_balance ◌>>=◌ ◌>>◌
update_balance-ok k f b h = elim (Option-cases (account_of k b)) [
  | inl missing ↦ ground arith
  | inr (a, e) ↦ (ground (arith, e), a, e)
]

pub balance_of-update_balance :
    (j k : ℕ) (f : ℤ → ℤ) (b : Bank) {u : Unit} {b' : Bank}
    → update_balance k f b ≡ (ok u, b')
    → balance_of j b' ≡ (if j == k then f (balance_of j b) else balance_of j b)
balance_of-update_balance j k f b h =
    let (e, a, found) = update_balance-ok k f b h in
    rw e (ground (arith, account_of-set_balance j k f b, found))
