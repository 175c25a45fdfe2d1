-- ===== src/Transfers/Requests.antt =====
-- transfers/dto/initiate-transfer.dto.ts, the configured limits of TransfersService, and what a call
-- takes from outside: the clock, fresh uuids, the queue's state and the rate feed.
use meal.Prelude.{ℕ, Bool, Option, none, some, if◌then◌else◌}
use meal.Prelude.Int.{ℤ}
use meal.Bank.{Account, TransactionStatus, TransferKind, WireType}
use meal.Quote.{WireScope, QuoteResult, is_wire_out, compute_quote}

-- `iban` is the IBAN trimmed, in capitals and without spaces, if anything is left of it;
-- `iban_given` and `swift_given` say whether the raw fields are non-empty.
pub record WireDetails : Type 0 where
  pub wire_type : WireType
  pub iban : Option ℕ
  pub iban_given : Bool
  pub swift_given : Bool

pub record InitiateTransfer : Type 0 where
  pub from_account_id : ℕ
  pub to_account_id : Option ℕ
  pub kind : TransferKind
  pub amount_cents : ℤ
  pub instant : Bool
  pub wire_details : Option WireDetails
  pub send_currency : Option ℕ
  pub send_amount_minor : Option ℤ

pub record Config : Type 0 where
  pub min_cents : ℤ
  pub max_cents : ℤ
  pub wire_max_cents : ℤ
  pub fee_bps : ℕ
  pub fee_min : ℤ
  pub settle_instant_ms : ℕ
  pub settle_standard_ms : ℕ
  pub review_threshold_cents : ℤ

-- The uuids that the code draws, and `generated_tx_id`, which the database draws for a row that is
-- created without one. `convert` is the conversion of a send amount to US cents, `none` for an unsupported currency;
-- `queue_up` says whether the job queue takes a job during the call.
pub record Env : Type 0 where
  pub config : Config
  pub now : ℕ
  pub transfer_id : ℕ
  pub pending_tx_id : ℕ
  pub settled_tx_id : ℕ
  pub generated_tx_id : ℕ
  pub queue_up : Bool
  pub convert : ℤ → ℕ → Option ℤ

pub record InitiateResult : Type 0 where
  pub transfer_id : ℕ
  pub status : TransactionStatus
  pub pending_transaction_id : Option ℕ
  pub fee_cents : ℤ
  pub estimated_settle_ms : ℕ

-- What a checked request comes to: the settlement amount and the fee in US cents, and the accounts.
pub record Plan : Type 0 where
  pub settlement_cents : ℤ
  pub fee_cents : ℤ
  pub from_account : Account
  pub to_account : Option Account

abbrev pub delay_ms : Config → Bool → ℕ
delay_ms c instant = if instant then c.settle_instant_ms else c.settle_standard_ms

abbrev pub scope_of : WireType → WireScope
scope_of WireType.international = WireScope.international
scope_of WireType.local = WireScope.domestic

abbrev pub wire_scope : InitiateTransfer → Option WireScope
wire_scope dto =
    if is_wire_out dto.kind
    then elim dto.wire_details [ none ↦ none | some w ↦ some (scope_of w.wire_type) ]
    else none

-- `TransfersService.quote`
abbrev pub quote : Config → TransferKind → ℤ → Bool → Option WireScope → QuoteResult
quote c kind amount instant scope = compute_quote (record {
  kind = kind;
  amount_cents = amount;
  instant = instant;
  min_cents = c.min_cents;
  max_cents = if is_wire_out kind then c.wire_max_cents else c.max_cents;
  instant_fee_bps = c.fee_bps;
  instant_fee_min_cents = c.fee_min;
  wire_scope = scope;
})
