-- ===== src/Transfers/Settlement.antt =====
-- SettlementWorker (transfers/settlement.worker.ts): the job that settles one transfer.
pub mod Effect
pub mod Once
use meal.Prelude.{
  ℕ, Bool, true, false, not, ◌&&◌, Option, none, some, List, [], ◌∷◌, leb, if◌then◌else◌,
}
use meal.Prelude.Int.{ℤ, ◌+ℤ◌}
use meal.Bank.{
  Bank, Account, Transaction, TransactionKind, TransactionStatus, Transfer, TransferKind,
  ReviewDecision, approved, pending, posted, declined, internal, ach_in, wire_in, p2p, p2p_in,
  adjustment, sub_ledger, pending_out, cash, debit, credit, settle_of, transaction_created,
  transaction_settled, account_balance_changed, admin_transfer_settled,
}
use meal.Bank.Action.{
  Action, ok, pure, gets, or_throw, transaction, emit, best_effort, ◌>>=◌, ◌>>◌, sender_vanished,
  destination_vanished,
}
use meal.Bank.Balance.{account_of, update_balance}
use meal.Ledger.{PostingInput, JournalInput, ensure_account_ledger, post}
use meal.Transfers.Requests.{Env}
use meal.Transfers.Rows.{
  transfer_of, create_transaction, update_transaction, update_transfer, when_some,
}
use meal.Transfers.Initiate.{posting}

-- `INFLOW_KINDS.includes(kind)`
abbrev pub is_inflow : TransferKind → Bool
is_inflow ach_in = true
is_inflow wire_in = true
is_inflow _ = false

abbrev pub is_pending : TransactionStatus → Bool
is_pending pending = true
is_pending _ = false

abbrev pub is_approved : Option ReviewDecision → Bool
is_approved (some approved) = true
is_approved _ = false

-- The account that a transfer inside the bank credits.
abbrev pub destination : TransferKind → Option ℕ → Option ℕ
destination internal k = k
destination p2p k = k
destination _ k = none

abbrev pub credit_kind : TransferKind → TransactionKind
credit_kind p2p = p2p_in
credit_kind _ = adjustment

-- The posted line in the feed of the account that is credited.
abbrev pub credit_transaction : Env → Transfer → ℕ → ℕ → TransactionKind → Transaction
credit_transaction env t id account kind = record {
  id = id;
  account_id = account;
  kind = kind;
  status = posted;
  amount_cents = t.amount_cents;
  occurred_at = env.now;
  posted_at = some env.now;
  transfer_id = some t.id;
}

-- Pays the destination of an internal or p2p transfer, and says what to post.
unfoldable pub credit_destination : Env → Transfer → ℕ → Action (List PostingInput)
credit_destination env t k = do
  dest ← or_throw (← gets (account_of k)) destination_vanished
  ensure_account_ledger dest.id dest.user_id
  update_balance dest.id (λ x. x +ℤ t.amount_cents)
  create_transaction (credit_transaction env t env.settled_tx_id dest.id (credit_kind t.kind))
  pure (
      posting pending_out debit t.amount_cents
      ∷ posting (sub_ledger dest.id) credit t.amount_cents
      ∷ [])

-- Pays the money that comes in to the transfer's own account.
unfoldable pub credit_inflow : Env → Transfer → Account → Action (List PostingInput)
credit_inflow env t sender = do
  update_balance sender.id (λ x. x +ℤ t.amount_cents)
  create_transaction (credit_transaction env t env.generated_tx_id sender.id TransactionKind.ach_in)
  pure (
      posting cash debit t.amount_cents ∷ posting (sub_ledger sender.id) credit t.amount_cents ∷ [])

abbrev pub outflow_postings : Transfer → List PostingInput
outflow_postings t =
    posting pending_out debit t.amount_cents ∷ posting cash credit t.amount_cents ∷ []

unfoldable pub pay_out : Env → Transfer → Account → Option ℕ → Action (List PostingInput)
pay_out env t sender (some k) = credit_destination env t k
pay_out env t sender none =
    if is_inflow t.kind then credit_inflow env t sender else pure (outflow_postings t)

abbrev pub settle_entry : Env → Transfer → List PostingInput → JournalInput
settle_entry env t ps = record {
  source = settle_of t.id;
  reference_id = t.id;
  occurred_at = env.now;
  postings = ps;
}

abbrev pub settled : Env → Transfer → Transfer
settled env t = record t {
  status = posted;
  settled_at = some env.now;
  settled_transaction_id = some env.settled_tx_id;
}

-- The database transaction of the worker.
unfoldable pub settle : Env → Transfer → Action Unit
settle env t = do
  sender ← or_throw (← gets (account_of t.from_account_id)) sender_vanished
  ensure_account_ledger sender.id sender.user_id
  postings ← pay_out env t sender (destination t.kind t.to_account_id)
  post (settle_entry env t postings)
  when_some t.pending_transaction_id (λ k. update_transaction k posted env.now)
  update_transfer t.id (settled env)

abbrev pub or_id : Option ℕ → ℕ → ℕ
or_id none k = k
or_id (some j) k = j

unfoldable pub notify_account : ℕ → Action Unit
notify_account k b = elim (account_of k b) [
  | none ↦ (ok tt, b)
  | some a ↦ emit (account_balance_changed a.user_id a.id a.balance_cents) b
]

unfoldable pub notify_recipient : Env → Transfer → ℕ → Action Unit
notify_recipient env t k b = elim (account_of k b) [
  | none ↦ (ok tt, b)
  | some a ↦ (
    ok tt,
    record b {
      events =
          transaction_created a.user_id a.id env.settled_tx_id t.amount_cents posted
          ∷ account_balance_changed a.user_id a.id a.balance_cents
          ∷ transaction_settled a.user_id a.id env.settled_tx_id t.id t.amount_cents
          ∷ b.events;
    },
  )
]

-- The events after the transaction has gone through.
unfoldable pub announce : Env → Transfer → Action Unit
announce env t = do
  notify_account t.from_account_id
  emit (
      transaction_settled t.initiated_by_user_id t.from_account_id
        (or_id t.pending_transaction_id env.settled_tx_id) t.id t.amount_cents)
  when_some (destination t.kind t.to_account_id) (notify_recipient env t)
  emit (admin_transfer_settled t.id t.initiated_by_user_id (is_inflow t.kind) t.amount_cents t.kind)

-- Whether the worker may settle the transfer that it has read.
abbrev pub may_settle : Transfer → Bool
may_settle t = is_pending t.status && not (t.requires_review && not (is_approved t.review_decision))

unfoldable pub settle_and_announce : Env → Transfer → Action Unit
settle_and_announce env t = do transaction (settle env t); announce env t

unfoldable pub process_found : Env → Option Transfer → Action Unit
process_found env none b = (ok tt, b)
process_found env (some t) b = if may_settle t then settle_and_announce env t b else (ok tt, b)

-- `process`: a transfer that is gone, not pending, or waiting for its review is skipped.
unfoldable pub process : Env → ℕ → Action Unit
process env k b = process_found env (transfer_of k b) b

-- TransfersRepository.markFailed
unfoldable pub mark_failed : Env → ℕ → Action Unit
mark_failed env k =
    update_transfer k (λ t. record t { status = declined; settled_at = some env.now })

-- `onFailed`: after the last attempt the transfer is marked as declined.
unfoldable pub on_failed : Env → ℕ → ℕ → ℕ → Action Unit
on_failed env attempts_made attempts k =
    if leb attempts attempts_made then best_effort (mark_failed env k) else pure tt
