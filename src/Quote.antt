-- ===== src/Quote.antt =====
-- transfers/quote.util.ts: the limits, the fee and the arrival text of a transfer.
pub mod Fees
use meal.Prelude.{ℕ, Bool, true, false, not, ◌&&◌, Option, none, some, List, if◌then◌else◌}
use meal.Prelude.Int.{ℤ, pos, ◌*ℤ◌, div_ℤ, ltb_ℤ}
use meal.Bank.{TransferKind, internal, ach_in, ach_out, wire_in, wire_out, p2p}

pub data WireScope : Type 0 where
  domestic international : WireScope

-- `etaText`, by its wording.
pub data Eta : Type 0 where
  unset within_minutes three_days_international same_day_domestic three_days at_once : Eta

pub data Reason : Type 0 where
  below_minimum above_maximum instant_not_available : Reason

pub record QuoteParams : Type 0 where
  pub kind : TransferKind
  pub amount_cents : ℤ
  pub instant : Bool
  pub min_cents : ℤ
  pub max_cents : ℤ
  pub instant_fee_bps : ℕ
  pub instant_fee_min_cents : ℤ
  pub wire_scope : Option WireScope

pub record QuoteResult : Type 0 where
  pub valid : Bool
  pub fee_cents : ℤ
  pub eta : Eta
  pub min_amount_cents : ℤ
  pub max_amount_cents : ℤ
  pub reason : Option Reason

abbrev pub wire_fee_cents : WireScope → ℤ
wire_fee_cents domestic = pos 350
wire_fee_cents international = pos 460

-- `externalKinds.includes(kind)`
abbrev pub is_external : TransferKind → Bool
is_external internal = false
is_external _ = true

abbrev pub is_wire_out : TransferKind → Bool
is_wire_out wire_out = true
is_wire_out _ = false

abbrev pub scope_or_domestic : Option WireScope → WireScope
scope_or_domestic none = domestic
scope_or_domestic (some s) = s

abbrev pub wire_eta : WireScope → Eta
wire_eta international = three_days_international
wire_eta domestic = same_day_domestic

abbrev pub refused : QuoteParams → Reason → QuoteResult
refused p r = record {
  valid = false;
  fee_cents = pos 0;
  eta = unset;
  min_amount_cents = p.min_cents;
  max_amount_cents = p.max_cents;
  reason = some r;
}

abbrev pub instant_fee : QuoteParams → ℤ
instant_fee p =
    let calc = div_ℤ (p.amount_cents *ℤ pos p.instant_fee_bps) 10000 in
    if ltb_ℤ p.instant_fee_min_cents calc then calc else p.instant_fee_min_cents

-- The fee and the arrival of a transfer that is within the limits.
abbrev pub price : QuoteParams → ℤ × Eta
price p =
    if p.instant
    then (instant_fee p, within_minutes)
    else if is_wire_out p.kind
    then (
      wire_fee_cents (scope_or_domestic p.wire_scope),
      wire_eta (scope_or_domestic p.wire_scope),
    )
    else if is_external p.kind
    then (pos 0, three_days)
    else (pos 0, at_once)

abbrev pub accepted : QuoteParams → QuoteResult
accepted p = record {
  valid = true;
  fee_cents = (price p).0;
  eta = (price p).1;
  min_amount_cents = p.min_cents;
  max_amount_cents = p.max_cents;
  reason = none;
}

unfoldable pub compute_quote : QuoteParams → QuoteResult
compute_quote p =
    if ltb_ℤ p.amount_cents p.min_cents
    then refused p below_minimum
    else if ltb_ℤ p.max_cents p.amount_cents
    then refused p above_maximum
    else if p.instant && not (is_external p.kind)
    then refused p instant_not_available
    else accepted p
