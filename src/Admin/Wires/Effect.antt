-- ===== src/Admin/Wires/Effect.antt =====
-- What a wire's reversal writes.
use meal.Prelude.{ℕ, ◌≡◌, Option, none, some, ◌∷◌, ◌==◌, if◌then◌else◌, arith}
use meal.Prelude.Int.{◌+ℤ◌}
use meal.Prelude.Table.{find-key}
use meal.Bank.{Bank, Transfer}
use meal.Bank.Action.{ok, >>-ok, >>=-ok, or_throw-ok}
use meal.Bank.Balance.{
  account_key, account_of, balance_of, set_balance, update_balance-ok, balance_of-update_balance,
}
use meal.Ledger.{journal_entry}
use meal.Ledger.Net.{OnlyLedgerAccounts, ensure_account_ledger-only, post-ok}
use meal.Ledger.Validity.{IsLedger, IsLedger-same, ensure_account_ledger-IsLedger, post-IsLedger}
use meal.Transfers.Requests.{Env}
use meal.Transfers.Rows.{when_some, change_transfer, create_transaction-ok, update_transfer-ok}
use meal.Admin.Refunded.{Refunded}
use meal.Admin.Review.{refund_of}
use meal.Admin.Wires.{
  take_back, reverse_entry, reversed_transfer, reversal_transaction, mark_reversed,
  mark_settled_reversed,
}

marked :
    (k : Option ℕ) (env : Env) (b : Bank) {u : Unit} {b' : Bank}
    → when_some k (mark_reversed env.now) b ≡ (ok u, b')
    → b' ≡ record b { transactions = b'.transactions }
unfolding mark_reversed
marked none env b h = ground arith
marked (some i) env b h = ground arith

settled_marked :
    (k : Option ℕ) (b : Bank) {u : Unit} {b' : Bank}
    → when_some k mark_settled_reversed b ≡ (ok u, b')
    → b' ≡ record b { transactions = b'.transactions }
unfolding mark_settled_reversed
settled_marked none b h = ground arith
settled_marked (some i) b h = ground arith

-- The states between the steps of `take_back`, and what each step is known to do.
module _ (env : Env) (t : Transfer) (k : ℕ) (b b₁ b₂ b₃ b₄ b₅ b₆ b₇ b' : Bank)
    (id : k ≡ t.from_account_id) (e₁ : b₁ ≡ b) (e₂ : OnlyLedgerAccounts b₁ b₂)
    (v₂ : IsLedger b₁ → IsLedger b₂) (e₃ : b₃ ≡ set_balance k (λ x. x +ℤ refund_of t) b₂)
    (moved : (j : ℕ)
      → balance_of j b₃ ≡ (if j == k then balance_of j b₂ +ℤ refund_of t else balance_of j b₂))
    (e₄ : b₄ ≡ record b₃ {
      ledger_accounts = b₄.ledger_accounts;
      journal = journal_entry (reverse_entry env t k) ∷ b₃.journal;
    })
    (v₄ : IsLedger b₃ → IsLedger b₄)
    (e₅ : b₅ ≡ record b₄ { transactions = reversal_transaction env t k ∷ b₄.transactions })
    (e₆ : b₆ ≡ record b₅ { transactions = b₆.transactions })
    (e₇ : b₇ ≡ record b₆ { transactions = b₇.transactions })
    (e₈ : b' ≡ change_transfer t.id (reversed_transfer env) b₇) where
  same_accounts : b'.accounts ≡ b₃.accounts
  same_accounts = ground arith

  IsLedger-kept : IsLedger b → IsLedger b'
  IsLedger-kept v =
      IsLedger-same b₄ b' (ground arith) (ground arith)
        (v₄ (IsLedger-same b₂ b₃ (ground arith) (ground arith) (v₂ (rw e₁ v))))

  taken_back : Refunded t (reverse_entry env t t.from_account_id) (reversed_transfer env) b b'
  taken_back = record {
    balances = λ j. ground (arith, moved j, same_accounts);
    journal = ground arith;
    transfers = ground arith;
    ledger = IsLedger-kept;
    same_jobs = ground arith;
  }

pub take_back-ok :
    (env : Env) (t : Transfer) (b : Bank) {u : Unit} {b' : Bank}
    → take_back env t b ≡ (ok u, b')
    → Refunded t (reverse_entry env t t.from_account_id) (reversed_transfer env) b b'
unfolding take_back
take_back-ok env t b {b' = b'} h =
    let (o, b₀, e₀, h₀) = >>=-ok _ _ b h in
    let (sender, b₁, e₁, h₁) = >>=-ok _ _ b₀ h₀ in
    let (_, b₂, e₂, h₂) = >>-ok _ _ b₁ h₁ in
    let (_, b₃, e₃, h₃) = >>-ok _ _ b₂ h₂ in
    let (_, b₄, e₄, h₄) = >>-ok _ _ b₃ h₃ in
    let (_, b₅, e₅, h₅) = >>-ok _ _ b₄ h₄ in
    let (_, b₆, e₆, h₆) = >>-ok _ _ b₅ h₅ in
    let (_, b₇, e₇, h₇) = >>-ok _ _ b₆ h₆ in
    let (found, r₁) = or_throw-ok _ _ b₀ e₁ in
    let found_b : account_of t.from_account_id b ≡ some sender = ground (arith, found, e₀) in
    let entry = reverse_entry env t sender.id in
    taken_back env t sender.id b b₁ b₂ b₃ b₄ b₅ b₆ b₇ b'
      (find-key account_key t.from_account_id b.accounts sender found_b) (ground (arith, e₀, r₁))
      (ensure_account_ledger-only sender.id sender.user_id b₁ e₂)
      (λ v. ensure_account_ledger-IsLedger sender.id sender.user_id b₁ v e₂)
      (update_balance-ok sender.id _ b₂ e₃).0 (λ j. balance_of-update_balance j sender.id _ b₂ e₃)
      (post-ok entry b₃ e₄).0 (λ v. post-IsLedger entry b₃ v e₄) (create_transaction-ok _ b₄ e₅)
      (marked t.pending_transaction_id env b₅ e₆) (settled_marked t.settled_transaction_id b₆ e₇)
      (update_transfer-ok t.id (reversed_transfer env) b₇ h₇)
