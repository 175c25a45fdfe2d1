-- ===== src/Admin/Wires.antt =====
-- AdminWiresService.approve and reverse (admin/wires/admin-wires.service.ts).
pub mod Beneficiaries
pub mod Effect
pub mod Twice
use meal.Prelude.{ℕ, Bool, true, false, not, Option, none, some, ◌∷◌}
use meal.Prelude.Int.{pos, negsuc, ◌+ℤ◌, ◌-ℤ◌}
use meal.Prelude.Table.{modify}
use meal.Bank.{
  Transaction, TransactionStatus, Transfer, approved, reversed, posted, sub_ledger, cash, debit,
  credit, adjustment, admin_reverse_of, account_balance_changed, transaction_created,
  transaction_updated, transfer_review_delta,
}
use meal.Bank.Action.{
  Action, ok, gets, or_throw, throw_if, modify_bank, transaction, emit, best_effort, ◌>>=◌, ◌>>◌,
  transfer_not_found, only_wire_out, not_flagged, already_reviewed, already_reversed,
  sender_vanished,
}
use meal.Bank.Balance.{account_of, update_balance}
use meal.Ledger.{JournalInput, ensure_account_ledger, post}
use meal.Quote.{is_wire_out}
use meal.Transfers.Requests.{Env}
use meal.Transfers.Rows.{
  transfer_of, is_some, create_transaction, stamp_transaction, update_transfer, when_some,
  transaction_key,
}
use meal.Transfers.Initiate.{posting}
use meal.Transfers.Rescue.{force_settle}
use meal.Admin.Review.{reviewed, refund_of, fee_refund_postings}

unfoldable pub approve_wire : Env → ℕ → ℕ → Action Unit
approve_wire env actor k = do
  t ← or_throw (← gets (transfer_of k)) transfer_not_found
  throw_if (not (is_wire_out t.kind)) only_wire_out
  throw_if (not t.requires_review) not_flagged
  throw_if (is_some t.reviewed_at) already_reviewed
  update_transfer t.id (reviewed env actor approved)
  best_effort (force_settle env t.id)
  emit (transfer_review_delta (negsuc 0))

abbrev pub is_reversed : TransactionStatus → Bool
is_reversed reversed = true
is_reversed _ = false

abbrev pub reverse_entry : Env → Transfer → ℕ → JournalInput
reverse_entry env t account = record {
  source = admin_reverse_of t.id;
  reference_id = t.id;
  occurred_at = env.now;
  postings =
      posting cash debit t.amount_cents
      ∷ posting (sub_ledger account) credit t.amount_cents
      ∷ fee_refund_postings account t.fee_cents;
}

-- The line of the reversal in the sender's feed; its id is fresh.
abbrev pub reversal_transaction : Env → Transfer → ℕ → Transaction
reversal_transaction env t account = record {
  id = env.settled_tx_id;
  account_id = account;
  kind = adjustment;
  status = posted;
  amount_cents = refund_of t;
  occurred_at = env.now;
  posted_at = some env.now;
  transfer_id = some t.id;
}

abbrev pub or_now : Option ℕ → ℕ → ℕ
or_now none now = now
or_now (some at) now = at

abbrev pub reversed_transfer : Env → Transfer → Transfer
reversed_transfer env t = record t {
  status = reversed;
  settled_at = some (or_now t.settled_at env.now);
}

-- `transaction.updateMany` by id: no row, no error. The settled row keeps its date.
unfoldable pub mark_reversed : ℕ → ℕ → Action Unit
mark_reversed now k = modify_bank (stamp_transaction k reversed now)

abbrev pub only_status : Transaction → Transaction
only_status t = record t { status = reversed }

unfoldable pub mark_settled_reversed : ℕ → Action Unit
mark_settled_reversed k =
    modify_bank
      (λ b. record b { transactions = modify transaction_key k only_status b.transactions })

unfoldable pub take_back : Env → Transfer → Action Unit
take_back env t = do
  sender ← or_throw (← gets (account_of t.from_account_id)) sender_vanished
  ensure_account_ledger sender.id sender.user_id
  update_balance sender.id (λ x. x +ℤ refund_of t)
  post (reverse_entry env t sender.id)
  create_transaction (reversal_transaction env t sender.id)
  when_some t.pending_transaction_id (mark_reversed env.now)
  when_some t.settled_transaction_id mark_settled_reversed
  update_transfer t.id (reversed_transfer env)

-- The events after a reversal, if the account is still there.
unfoldable pub announce_reversal : Env → Transfer → Action Unit
announce_reversal env t b = elim (account_of t.from_account_id b) [
  | none ↦ (ok tt, b)
  | some a ↦
      let created = record b {
        events =
            transaction_created a.user_id t.from_account_id env.settled_tx_id (refund_of t) posted
            ∷ account_balance_changed a.user_id a.id a.balance_cents
            ∷ b.events;
      } in
      elim t.pending_transaction_id [
        | none ↦ (ok tt, created)
        | some k ↦
            emit (transaction_updated a.user_id t.from_account_id k (pos 0 -ℤ refund_of t) reversed)
              created
      ]
]

unfoldable pub reverse : Env → ℕ → Action Unit
reverse env k = do
  t ← or_throw (← gets (transfer_of k)) transfer_not_found
  throw_if (not (is_wire_out t.kind)) only_wire_out
  throw_if (is_reversed t.status) already_reversed
  transaction (take_back env t)
  announce_reversal env t
