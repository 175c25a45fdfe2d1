-- ===== src/Admin/Review.antt =====
-- AdminTransfersService.decide (admin/transfers/admin-transfers.service.ts).
pub mod Effect
pub mod Outcome
use meal.Prelude.{ℕ, Bool, true, false, not, ◌&&◌, some, List, [], ◌∷◌, if◌then◌else◌}
use meal.Prelude.Int.{ℤ, pos, negsuc, ◌+ℤ◌, ltb_ℤ}
use meal.Bank.{
  Transfer, ReviewDecision, approved, rejected, reversed, sub_ledger, pending_out, fee_revenue,
  debit, credit, reject_of, transaction_settled, transfer_review_delta,
}
use meal.Bank.Action.{
  Action, gets, or_throw, throw_if, transaction, emit, best_effort, ◌>>=◌, ◌>>◌, reason_required,
  transfer_not_found, not_flagged, already_reviewed, sender_vanished,
}
use meal.Bank.Balance.{account_of, update_balance}
use meal.Ledger.{PostingInput, JournalInput, ensure_account_ledger, post}
use meal.Transfers.Requests.{Env}
use meal.Transfers.Rows.{transfer_of, is_some, update_transaction, update_transfer, when_some}
use meal.Transfers.Initiate.{posting}
use meal.Transfers.Settlement.{notify_account}
use meal.Transfers.Rescue.{force_settle}

-- `has_reason` says whether the trimmed reason is non-empty.
pub record Decision : Type 0 where
  pub decision : ReviewDecision
  pub has_reason : Bool

abbrev pub is_rejection : ReviewDecision → Bool
is_rejection rejected = true
is_rejection approved = false

abbrev pub reviewed : Env → ℕ → ReviewDecision → Transfer → Transfer
reviewed env actor d t = record t {
  review_decision = some d;
  reviewed_at = some env.now;
  reviewed_by_user_id = some actor;
}

abbrev pub refund_of : Transfer → ℤ
refund_of t = t.amount_cents +ℤ t.fee_cents

abbrev pub fee_refund_postings : ℕ → ℤ → List PostingInput
fee_refund_postings account fee =
    if ltb_ℤ (pos 0) fee
    then posting fee_revenue debit fee ∷ posting (sub_ledger account) credit fee ∷ []
    else []

abbrev pub reject_entry : Env → Transfer → ℕ → JournalInput
reject_entry env t account = record {
  source = reject_of t.id;
  reference_id = t.id;
  occurred_at = env.now;
  postings =
      posting pending_out debit t.amount_cents
      ∷ posting (sub_ledger account) credit t.amount_cents
      ∷ fee_refund_postings account t.fee_cents;
}

abbrev pub rejected_transfer : Env → ℕ → Transfer → Transfer
rejected_transfer env actor t = record (reviewed env actor rejected t) { status = reversed }

-- The database transaction of a rejection: the debit is taken back.
unfoldable pub refund : Env → ℕ → Transfer → Action Unit
refund env actor t = do
  sender ← or_throw (← gets (account_of t.from_account_id)) sender_vanished
  ensure_account_ledger sender.id sender.user_id
  update_balance sender.id (λ x. x +ℤ refund_of t)
  post (reject_entry env t sender.id)
  when_some t.pending_transaction_id (λ k. update_transaction k reversed env.now)
  update_transfer t.id (rejected_transfer env actor)

-- The raw UPDATE of the row just found; no operation deletes a transfer.
unfoldable pub approve : Env → ℕ → Transfer → Action Unit
approve env actor t = do
  update_transfer t.id (reviewed env actor approved)
  emit (transfer_review_delta (negsuc 0))
  best_effort (force_settle env t.id)

unfoldable pub notify_pending : Transfer → ℕ → Action Unit
notify_pending t k =
    emit (transaction_settled t.initiated_by_user_id t.from_account_id k t.id t.amount_cents)

unfoldable pub reject : Env → ℕ → Transfer → Action Unit
reject env actor t = do
  transaction (refund env actor t)
  notify_account t.from_account_id
  when_some t.pending_transaction_id (notify_pending t)
  emit (transfer_review_delta (negsuc 0))

unfoldable pub carry_out : Env → ℕ → Transfer → ReviewDecision → Action Unit
carry_out env actor t approved = approve env actor t
carry_out env actor t rejected = reject env actor t

unfoldable pub decide : Env → ℕ → ℕ → Decision → Action Unit
decide env actor k dto = do
  throw_if (is_rejection dto.decision && not dto.has_reason) reason_required
  t ← or_throw (← gets (transfer_of k)) transfer_not_found
  throw_if (not t.requires_review) not_flagged
  throw_if (is_some t.reviewed_at) already_reviewed
  carry_out env actor t dto.decision
