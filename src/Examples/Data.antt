-- ===== src/Examples/Data.antt =====
-- A small bank: two customers, three accounts, the system's ledger accounts.
use meal.Prelude.{ℕ, ◌+◌, true, false, none, some, [], ◌∷◌}
use meal.Prelude.Int.{pos}
use meal.Bank.{
  Bank, checking, savings, active, Transfer, pending, posted, p2p, wire_out, WireType, rejected,
  approved,
}
use meal.Ledger.{system_ledger_seeds}
use meal.Transfers.Requests.{Config, Env, InitiateTransfer}
use meal.Transfers.Initiate.{initiate}
use meal.Transfers.Settlement.{process}
use meal.Transfers.Rescue.{force_settle_own}
use meal.Admin.Review.{Decision, decide}
use meal.Admin.Wires.{reverse}

-- The defaults of the service's configuration.
abbrev pub config : Config
config = record {
  min_cents = pos 500;
  max_cents = pos 2500000;
  wire_max_cents = pos 50000000;
  fee_bps = 175;
  fee_min = pos 25;
  settle_instant_ms = 5000;
  settle_standard_ms = 30000;
  review_threshold_cents = pos 100000;
}

-- The outside of a call that draws the ids from `k` on.
abbrev pub env_at : ℕ → Env
env_at k = record {
  config = config;
  now = 1000 + k;
  transfer_id = k;
  pending_tx_id = k + 1;
  settled_tx_id = k + 2;
  generated_tx_id = k + 3;
  queue_up = true;
  convert = λ x c. none;
}

abbrev pub bank : Bank
bank = record {
  users =
      record { id = 1; transfers_disabled = false }
      ∷ record { id = 2; transfers_disabled = false }
      ∷ [];
  accounts =
      record {
        id = 10;
        user_id = 1;
        account_type = checking;
        status = active;
        balance_cents = pos 1000000;
      }
      ∷ record {
        id = 11;
        user_id = 1;
        account_type = savings;
        status = active;
        balance_cents = pos 50000;
      }
      ∷ record {
        id = 20;
        user_id = 2;
        account_type = checking;
        status = active;
        balance_cents = pos 0;
      }
      ∷ [];
  ledger_accounts = system_ledger_seeds;
  journal = [];
  transactions = [];
  transfers = [];
  beneficiaries = [];
  requests = [];
  deposits = [];
  jobs = [];
  timers = [];
  events = [];
}

-- $200 to the other customer.
abbrev pub gift : InitiateTransfer
gift = record {
  from_account_id = 10;
  to_account_id = some 20;
  kind = p2p;
  amount_cents = pos 20000;
  instant = false;
  wire_details = none;
  send_currency = none;
  send_amount_minor = none;
}

-- $3,000 abroad, which an admin reviews.
abbrev pub wire : InitiateTransfer
wire = record {
  from_account_id = 10;
  to_account_id = none;
  kind = wire_out;
  amount_cents = pos 300000;
  instant = false;
  wire_details = some (record {
    wire_type = WireType.international;
    iban = some 77;
    iban_given = true;
    swift_given = true;
  });
  send_currency = none;
  send_amount_minor = none;
}

abbrev pub refusal : Decision
refusal = record { decision = rejected; has_reason = true }

abbrev pub approval : Decision
approval = record { decision = approved; has_reason = false }

abbrev pub gift_pending : Bank
gift_pending = (initiate (env_at 100) 1 (some 7) gift bank).1

abbrev pub gift_settled : Bank
gift_settled = (process (env_at 200) 100 gift_pending).1

abbrev pub gift_reset : Bank
gift_reset = (force_settle_own (env_at 300) 1 100 gift_settled).1

abbrev pub gift_repeated : Bank
gift_repeated = (process (env_at 400) 100 gift_reset).1

abbrev pub wire_pending : Bank
wire_pending = (initiate (env_at 100) 1 (some 8) wire bank).1

abbrev pub wire_rejected : Bank
wire_rejected = (decide (env_at 200) 9 100 refusal wire_pending).1

abbrev pub wire_reversed : Bank
wire_reversed = (reverse (env_at 200) 100 wire_pending).1

abbrev pub wire_refunded_twice : Bank
wire_refunded_twice = (decide (env_at 300) 9 100 refusal wire_reversed).1

-- The stored row of the gift, after its job has run.
abbrev pub settled_gift : Transfer
settled_gift = record {
  id = 100;
  kind = p2p;
  status = posted;
  from_account_id = 10;
  to_account_id = some 20;
  amount_cents = pos 20000;
  fee_cents = pos 0;
  instant = false;
  initiated_by_user_id = 1;
  settled_at = some 1200;
  idempotency_key = 7;
  pending_transaction_id = some 101;
  settled_transaction_id = some 202;
  requires_review = false;
  review_decision = none;
  reviewed_at = none;
  reviewed_by_user_id = none;
}

abbrev pub held_wire : Transfer
held_wire = record {
  id = 100;
  kind = wire_out;
  status = pending;
  from_account_id = 10;
  to_account_id = none;
  amount_cents = pos 300000;
  fee_cents = pos 460;
  instant = false;
  initiated_by_user_id = 1;
  settled_at = none;
  idempotency_key = 8;
  pending_transaction_id = some 101;
  settled_transaction_id = none;
  requires_review = true;
  review_decision = none;
  reviewed_at = none;
  reviewed_by_user_id = none;
}

abbrev pub pending_gift : Transfer
pending_gift = record settled_gift {
  status = pending;
  settled_at = none;
  settled_transaction_id = none;
}
