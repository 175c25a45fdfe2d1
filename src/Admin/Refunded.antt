-- ===== src/Admin/Refunded.antt =====
-- What a refund to the sender of a transfer changes.
use meal.Prelude.{ℕ, ◌≡◌, ◌∷◌, ◌==◌, if◌then◌else◌}
use meal.Prelude.Int.{◌+ℤ◌}
use meal.Prelude.Table.{modify}
use meal.Bank.{Bank, Transfer}
use meal.Bank.Balance.{balance_of}
use meal.Ledger.{JournalInput, journal_entry}
use meal.Ledger.Validity.{IsLedger}
use meal.Transfers.Rows.{transfer_key}

-- The sender's balance grows by the amount and the fee, one entry is posted, and the transfer's row
-- is changed; the queue and the events are left alone.
pub record Refunded (t : Transfer) (entry : JournalInput) (f : Transfer → Transfer) (b b' : Bank)
    : Type 0 where
  pub balances :
      (j : ℕ)
      → balance_of j b' ≡ (
          if j == t.from_account_id
          then balance_of j b +ℤ (t.amount_cents +ℤ t.fee_cents)
          else balance_of j b)
  pub journal : b'.journal ≡ journal_entry entry ∷ b.journal
  pub transfers : b'.transfers ≡ modify transfer_key t.id f b.transfers
  pub ledger : IsLedger b → IsLedger b'
  pub same_jobs : b'.jobs ≡ b.jobs
