-- ===== src/Ledger/Drift.antt =====
-- The distance between an account's balance and what the ledger says of it.
use meal.Prelude.{ℕ}
use meal.Prelude.Int.{ℤ, ◌-ℤ◌}
use meal.Bank.{Bank, sub_ledger}
use meal.Bank.Balance.{balance_of}
use meal.Ledger.Net.{journal_net}

-- The balance less the credits, plus the debits, posted to the account's own code.
abbrev pub drift : ℕ → Bank → ℤ
drift j b = balance_of j b -ℤ journal_net (sub_ledger j) b.journal
