-- ===== src/Admin/Review/Effect.antt =====
-- What a rejection writes.
use meal.Prelude.{ℕ, ◌≡◌, Option, none, some, arith}
use meal.Prelude.Table.{find-key}
use meal.Bank.{Bank, Transfer, reversed}
use meal.Bank.Action.{ok, >>-ok, >>=-ok, or_throw-ok}
use meal.Bank.Balance.{account_key, account_of, update_balance-ok, balance_of-update_balance}
use meal.Ledger.Net.{ensure_account_ledger-only, post-ok}
use meal.Ledger.Validity.{IsLedger-same, ensure_account_ledger-IsLedger, post-IsLedger}
use meal.Transfers.Requests.{Env}
use meal.Transfers.Rows.{when_some, update_transaction, update_transaction-ok, update_transfer-ok}
use meal.Admin.Refunded.{Refunded}
use meal.Admin.Review.{refund, reject_entry, rejected_transfer}

stamped :
    (k : Option ℕ) (env : Env) (b : Bank) {u : Unit} {b' : Bank}
    → when_some k (λ i. update_transaction i reversed env.now) b ≡ (ok u, b')
    → b' ≡ record b { transactions = b'.transactions }
stamped none env b h = ground arith
stamped (some i) env b h = ground (arith, update_transaction-ok i reversed env.now b h)

pub refund-ok :
    (env : Env) (actor : ℕ) (t : Transfer) (b : Bank) {u : Unit} {b' : Bank}
    → refund env actor t b ≡ (ok u, b')
    → Refunded t (reject_entry env t t.from_account_id) (rejected_transfer env actor) b b'
unfolding refund
refund-ok env actor t b {b' = b'} h =
    let (o, b₀, e₀, h₀) = >>=-ok _ _ b h in
    let (sender, b₁, e₁, h₁) = >>=-ok _ _ b₀ h₀ in
    let (_, b₂, e₂, h₂) = >>-ok _ _ b₁ h₁ in
    let (_, b₃, e₃, h₃) = >>-ok _ _ b₂ h₂ in
    let (_, b₄, e₄, h₄) = >>-ok _ _ b₃ h₃ in
    let (_, b₅, e₅, h₅) = >>-ok _ _ b₄ h₄ in
    let (found, r₁) = or_throw-ok _ _ b₀ e₁ in
    let found_b : account_of t.from_account_id b ≡ some sender = ground (arith, found, e₀) in
    let id : sender.id ≡ t.from_account_id =
      find-key account_key t.from_account_id b.accounts sender found_b in
    let same : b₁ ≡ b = ground (arith, e₀, r₁) in
    let only = ensure_account_ledger-only sender.id sender.user_id b₁ e₂ in
    let (moved, _, _) = update_balance-ok sender.id _ b₂ e₃ in
    let entry = (post-ok (reject_entry env t sender.id) b₃ e₄).0 in
    let stamp = stamped t.pending_transaction_id env b₄ e₅ in
    let done = update_transfer-ok t.id (rejected_transfer env actor) b₅ h₅ in
    record {
      balances = λ j. ground (
        arith,
        balance_of-update_balance j sender.id _ b₂ e₃,
        id,
        only,
        same,
        entry,
        stamp,
        done,
      );
      journal = ground (arith, id, moved, only, same, entry, stamp, done);
      transfers = ground (arith, moved, only, same, entry, stamp, done);
      ledger = λ v.
          let v₂ = ensure_account_ledger-IsLedger sender.id sender.user_id b₁ (rw same v) e₂ in
          IsLedger-same b₄ b' (ground (arith, stamp, done)) (ground (arith, stamp, done)) (
            post-IsLedger (reject_entry env t sender.id) b₃
              (IsLedger-same b₂ b₃ (ground (arith, moved)) (ground (arith, moved)) v₂) e₄);
      same_jobs = ground (arith, moved, only, same, entry, stamp, done);
    }
