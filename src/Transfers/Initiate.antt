-- ===== src/Transfers/Initiate.antt =====
-- TransfersService.initiate (transfers/transfers.service.ts), in the order of its checks.
pub mod Effect
pub mod Checks
pub mod Gates
pub mod Outcome
pub mod Replay
use meal.Prelude.{
  ℕ, Bool, true, false, not, ◌||◌, ◌&&◌, Option, none, some, List, [], ◌∷◌, ◌++◌, ◌==◌,
  if◌then◌else◌,
}
use meal.Prelude.Int.{ℤ, pos, ◌+ℤ◌, ◌-ℤ◌, ltb_ℤ, leb_ℤ}
use meal.Bank.{
  Bank, Account, AccountStatus, Transaction, TransactionKind, Transfer, TransferKind, active,
  WireBeneficiary, WireType, pending, posted, internal, ach_in, ach_out, wire_in, wire_out, p2p,
  LedgerCode, PostingDirection, sub_ledger, pending_out, fee_revenue, debit, credit, pending_of,
  transaction_created, transfer_review_delta, adjustment, p2p_out,
}
use meal.Bank.Action.{
  Action, Error, ok, err, pure, throw, gets, or_throw, throw_if, modify_bank, transaction, emit,
  ◌>>=◌, ◌>>◌, idempotency_key_required, transfers_disabled, key_of_other_user, invalid_transfer,
  wire_details_required, wire_details_incomplete, beneficiary_not_found, source_not_found,
  not_your_account, source_not_active, to_account_required, destination_not_found,
  cross_user_internal, insufficient_funds, unsupported_currency,
}
use meal.Bank.Balance.{account_of, update_balance}
use meal.Ledger.{PostingInput, JournalInput, ensure_account_ledger, post}
use meal.Quote.{QuoteResult, is_wire_out}
use meal.Transfers.Requests.{
  WireDetails, InitiateTransfer, Config, Env, InitiateResult, Plan, delay_ms, wire_scope, quote,
}
use meal.Transfers.Rows.{user_locked, transfer_by_key, create_transaction, create_transfer}

-- KIND_TO_TX_KIND
abbrev pub tx_kind_of : TransferKind → TransactionKind
tx_kind_of internal = adjustment
tx_kind_of ach_in = TransactionKind.ach_in
tx_kind_of ach_out = TransactionKind.ach_out
tx_kind_of wire_in = TransactionKind.ach_in
tx_kind_of wire_out = TransactionKind.ach_out
tx_kind_of p2p = p2p_out

abbrev pub is_internal : TransferKind → Bool
is_internal internal = true
is_internal _ = false

abbrev pub is_active : AccountStatus → Bool
is_active active = true
is_active _ = false

abbrev pub or_unsupported : Option ℤ → Action ℤ
or_unsupported r = or_throw r unsupported_currency

-- The amount that is settled in US cents: the converted send amount of a wire that names one.
unfoldable pub resolve_settlement : Env → InitiateTransfer → Action ℤ
resolve_settlement env dto =
    if is_wire_out dto.kind
    then elim dto.send_currency [
      | none ↦ pure dto.amount_cents
      | some c ↦ elim dto.send_amount_minor [
        | none ↦ pure dto.amount_cents
        | some x ↦ or_unsupported (env.convert x c)
      ]
    ]
    else pure dto.amount_cents

abbrev pub is_local : WireType → Bool
is_local WireType.local = true
is_local WireType.international = false

-- `wireBeneficiary.findFirst({ where: { archivedAt: null, type: 'local', iban } })`
abbrev pub is_approved : ℕ → List WireBeneficiary → Bool
is_approved iban [] = false
is_approved iban (w ∷ ws) =
    (not w.archived && (is_local w.wire_type && w.iban == iban)) || is_approved iban ws

unfoldable pub local_gate : Option ℕ → Action Unit
local_gate none b = throw wire_details_incomplete b
local_gate (some iban) b = throw_if (not (is_approved iban b.beneficiaries)) beneficiary_not_found b

-- Local wires go to an approved beneficiary; international ones need a SWIFT code and an IBAN.
unfoldable pub wire_gate : InitiateTransfer → Action Unit
unfolding local_gate
wire_gate dto =
    if is_wire_out dto.kind
    then elim dto.wire_details [
      | none ↦ throw wire_details_required
      | some w ↦
          if is_local w.wire_type
          then local_gate w.iban
          else throw_if (not (w.swift_given && w.iban_given)) wire_details_incomplete
    ]
    else pure tt

unfoldable pub load_source : ℕ → ℕ → Action Account
load_source user k = do
  a ← or_throw (← gets (account_of k)) source_not_found
  throw_if (not (a.user_id == user)) not_your_account
  throw_if (not (is_active a.status)) source_not_active
  pure a

unfoldable pub load_own : ℕ → Option ℕ → Action (Option Account)
load_own user k = do
  id ← or_throw k to_account_required
  a ← or_throw (← gets (account_of id)) destination_not_found
  throw_if (not (a.user_id == user)) cross_user_internal
  pure (some a)

-- Only an internal transfer looks its destination up here, and it must be the user's own.
unfoldable pub load_destination : ℕ → InitiateTransfer → Action (Option Account)
load_destination user dto =
    if is_internal dto.kind then load_own user dto.to_account_id else pure none

abbrev pub total_debit : Plan → ℤ
total_debit plan = plan.settlement_cents +ℤ plan.fee_cents

-- Every check before the database transaction. It writes nothing.
unfoldable pub prepare : Env → ℕ → InitiateTransfer → Action Plan
prepare env user dto = do
  settlement ← resolve_settlement env dto
  let q = quote env.config dto.kind settlement dto.instant (wire_scope dto)
  throw_if (not q.valid) invalid_transfer
  wire_gate dto
  from ← load_source user dto.from_account_id
  to ← load_destination user dto
  let plan : Plan = record {
    settlement_cents = settlement;
    fee_cents = q.fee_cents;
    from_account = from;
    to_account = to;
  }
  throw_if (ltb_ℤ from.balance_cents (total_debit plan)) insufficient_funds
  pure plan

abbrev pub posting : LedgerCode → PostingDirection → ℤ → PostingInput
posting c d x = record { code = c; direction = d; amount_cents = x; meta = none }

abbrev pub fee_postings : ℕ → ℤ → List PostingInput
fee_postings account fee =
    if ltb_ℤ (pos 0) fee
    then posting (sub_ledger account) debit fee ∷ posting fee_revenue credit fee ∷ []
    else []

abbrev pub pending_entry : Env → Plan → JournalInput
pending_entry env plan = record {
  source = pending_of env.transfer_id;
  reference_id = env.transfer_id;
  occurred_at = env.now;
  postings =
      posting (sub_ledger plan.from_account.id) debit plan.settlement_cents
      ∷ posting pending_out credit plan.settlement_cents
      ∷ fee_postings plan.from_account.id plan.fee_cents;
}

abbrev pub pending_transaction : Env → TransferKind → Plan → Transaction
pending_transaction env kind plan = record {
  id = env.pending_tx_id;
  account_id = plan.from_account.id;
  kind = tx_kind_of kind;
  status = pending;
  amount_cents = pos 0 -ℤ total_debit plan;
  occurred_at = env.now;
  posted_at = none;
  transfer_id = some env.transfer_id;
}

-- `isOutbound`
abbrev pub is_outbound : TransferKind → Bool
is_outbound p2p = true
is_outbound ach_out = true
is_outbound wire_out = true
is_outbound _ = false

-- The review gate: outbound wires and ACH always, other outbound transfers from the threshold up.
abbrev pub needs_review : Config → TransferKind → ℤ → Bool
needs_review c wire_out amount = true
needs_review c ach_out amount = true
needs_review c kind amount = is_outbound kind && leb_ℤ c.review_threshold_cents amount

abbrev pub id_or : Option Account → Option ℕ → Option ℕ
id_or none k = k
id_or (some a) k = some a.id

abbrev pub new_transfer : Env → ℕ → ℕ → InitiateTransfer → Plan → Transfer
new_transfer env user key dto plan = record {
  id = env.transfer_id;
  kind = dto.kind;
  status = pending;
  from_account_id = plan.from_account.id;
  to_account_id = id_or plan.to_account dto.to_account_id;
  amount_cents = plan.settlement_cents;
  fee_cents = plan.fee_cents;
  instant = dto.instant;
  initiated_by_user_id = user;
  settled_at = none;
  idempotency_key = key;
  pending_transaction_id = some env.pending_tx_id;
  settled_transaction_id = none;
  requires_review = needs_review env.config dto.kind plan.settlement_cents;
  review_decision = none;
  reviewed_at = none;
  reviewed_by_user_id = none;
}

-- `!fresh || fresh.balanceCents < totalDebit`
abbrev pub is_short : ℤ → Option Account → Bool
is_short total none = true
is_short total (some a) = ltb_ℤ a.balance_cents total

unfoldable pub ensure_destination : Option Account → Action Unit
ensure_destination none = pure tt
ensure_destination (some a) = ensure_account_ledger a.id a.user_id

-- The body of the database transaction. It reads the balance again under the row's lock.
unfoldable pub commit : Env → ℕ → ℕ → InitiateTransfer → Plan → Action Transfer
commit env user key dto plan = do
  throw_if (is_short (total_debit plan) (← gets (account_of plan.from_account.id)))
      insufficient_funds
  ensure_account_ledger plan.from_account.id plan.from_account.user_id
  ensure_destination plan.to_account
  post (pending_entry env plan)
  create_transaction (pending_transaction env dto.kind plan)
  update_balance plan.from_account.id (λ x. x -ℤ total_debit plan)
  create_transfer (new_transfer env user key dto plan)
  pure (new_transfer env user key dto plan)

-- Hands the transfer to an admin, to the queue, or, with the queue down, to a timer.
unfoldable pub schedule : Env → Transfer → Action Unit
schedule env t b =
    if t.requires_review
    then emit (transfer_review_delta (pos 1)) b
    else if env.queue_up
    then (ok tt, record b { jobs = t.id ∷ b.jobs })
    else (ok tt, record b { timers = t.id ∷ b.timers })

abbrev pub result_of : Env → Transfer → InitiateResult
result_of env t = record {
  transfer_id = t.id;
  status = t.status;
  pending_transaction_id = t.pending_transaction_id;
  fee_cents = t.fee_cents;
  estimated_settle_ms = delay_ms env.config t.instant;
}

unfoldable pub initiate_new : Env → ℕ → ℕ → InitiateTransfer → Action InitiateResult
initiate_new env user key dto = do
  plan ← prepare env user dto
  t ← transaction (commit env user key dto plan)
  emit (
      transaction_created user plan.from_account.id env.pending_tx_id (pos 0 -ℤ total_debit plan)
        pending)
  schedule env t
  pure (result_of env t)

-- A key that was used before: the stored transfer is the answer, to its own user.
unfoldable pub replay : Env → ℕ → Transfer → Action InitiateResult
replay env user t = do
  throw_if (not (t.initiated_by_user_id == user)) key_of_other_user
  pure (result_of env t)

unfoldable pub replay_or_new :
    Env → ℕ → ℕ → InitiateTransfer → Option Transfer → Action InitiateResult
replay_or_new env user key dto (some t) = replay env user t
replay_or_new env user key dto none = initiate_new env user key dto

-- `none` for a missing or empty Idempotency-Key header.
unfoldable pub initiate : Env → ℕ → Option ℕ → InitiateTransfer → Action InitiateResult
initiate env user none dto = throw idempotency_key_required
initiate env user (some key) dto = do
  throw_if (← gets (λ b. user_locked user b.users)) transfers_disabled
  stored ← gets (transfer_by_key key)
  replay_or_new env user key dto stored
