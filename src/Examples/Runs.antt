-- ===== src/Examples/Runs.antt =====
-- The runs of the example bank's transfers.
use meal.Prelude.{ℕ, ◌≡◌, refl, some}
use meal.Prelude.Int.{◌+ℤ◌, pos}
use meal.Bank.{pending}
use meal.Bank.Action.{ok, err, ◌>>=◌, ◌>>◌, insufficient_funds}
use meal.Bank.Balance.{update_balance}
use meal.Ledger.{ensure_account_ledger, ensure_code, create_missing, post}
use meal.Quote.{compute_quote}
use meal.Transfers.Requests.{InitiateResult}
use meal.Transfers.Rows.{
  transfer_of, create_transaction, update_transaction, create_transfer, update_transfer,
}
use meal.Transfers.Initiate.{
  resolve_settlement, local_gate, wire_gate, load_source, load_own, load_destination, prepare,
  ensure_destination, commit, schedule, initiate_new, replay, replay_or_new, initiate,
}
use meal.Transfers.Settlement.{
  credit_destination, credit_inflow, pay_out, settle, notify_account, notify_recipient, announce,
  settle_and_announce, process_found, process,
}
use meal.Transfers.Rescue.{reset, run_settlement, force_settle, get_for_user, force_settle_own}
use meal.Admin.Review.{refund, approve, notify_pending, reject, carry_out, decide}
use meal.Admin.Wires.{mark_reversed, mark_settled_reversed, take_back, announce_reversal, reverse}
use meal.Examples.Data.{
  settled_gift, pending_gift, held_wire, env_at, bank, gift, wire, refusal, gift_pending,
  gift_settled, gift_reset, gift_repeated, wire_pending, wire_rejected, wire_reversed,
  wire_refunded_twice,
}

abbrev pub answer : ℕ → InitiateResult
answer fee = record {
  transfer_id = 100;
  status = pending;
  pending_transaction_id = some 101;
  fee_cents = pos fee;
  estimated_settle_ms = 30000;
}

pub gift_starts : initiate (env_at 100) 1 (some 7) gift bank ≡ (ok (answer 0), gift_pending)
unfolding ◌+ℤ◌ ◌>>=◌ ◌>>◌ update_balance ensure_account_ledger ensure_code create_missing post
    compute_quote create_transaction create_transfer update_transaction update_transfer
    resolve_settlement local_gate wire_gate load_source load_own load_destination prepare
    ensure_destination commit schedule initiate_new replay replay_or_new initiate
gift_starts = refl

pub gift_is_pending : transfer_of 100 gift_pending ≡ some pending_gift
unfolding ◌+ℤ◌ ◌>>=◌ ◌>>◌ update_balance ensure_account_ledger ensure_code create_missing post
    compute_quote create_transaction create_transfer update_transaction update_transfer
    resolve_settlement local_gate wire_gate load_source load_own load_destination prepare
    ensure_destination commit schedule initiate_new replay replay_or_new initiate
gift_is_pending = refl

pub gift_settles : process (env_at 200) 100 gift_pending ≡ (ok tt, gift_settled)
unfolding ◌+ℤ◌ ◌>>=◌ ◌>>◌ update_balance ensure_account_ledger ensure_code create_missing post
    compute_quote create_transaction create_transfer update_transaction update_transfer
    resolve_settlement local_gate wire_gate load_source load_own load_destination prepare
    ensure_destination commit schedule initiate_new replay replay_or_new initiate credit_destination
    credit_inflow pay_out settle notify_account notify_recipient announce settle_and_announce
    process_found process
gift_settles = refl

pub gift_resets : force_settle_own (env_at 300) 1 100 gift_settled ≡ (ok tt, gift_reset)
unfolding ◌+ℤ◌ ◌>>=◌ ◌>>◌ update_balance ensure_account_ledger ensure_code create_missing post
    compute_quote create_transaction create_transfer update_transaction update_transfer
    resolve_settlement local_gate wire_gate load_source load_own load_destination prepare
    ensure_destination commit schedule initiate_new replay replay_or_new initiate credit_destination
    credit_inflow pay_out settle notify_account notify_recipient announce settle_and_announce
    process_found process reset run_settlement force_settle get_for_user force_settle_own
gift_resets = refl

pub gift_repeats : process (env_at 400) 100 gift_reset ≡ (ok tt, gift_repeated)
unfolding ◌+ℤ◌ ◌>>=◌ ◌>>◌ update_balance ensure_account_ledger ensure_code create_missing post
    compute_quote create_transaction create_transfer update_transaction update_transfer
    resolve_settlement local_gate wire_gate load_source load_own load_destination prepare
    ensure_destination commit schedule initiate_new replay replay_or_new initiate credit_destination
    credit_inflow pay_out settle notify_account notify_recipient announce settle_and_announce
    process_found process reset run_settlement force_settle get_for_user force_settle_own
gift_repeats = refl

pub wire_starts : initiate (env_at 100) 1 (some 8) wire bank ≡ (ok (answer 460), wire_pending)
unfolding ◌+ℤ◌ ◌>>=◌ ◌>>◌ update_balance ensure_account_ledger ensure_code create_missing post
    compute_quote create_transaction create_transfer update_transaction update_transfer
    resolve_settlement local_gate wire_gate load_source load_own load_destination prepare
    ensure_destination commit schedule initiate_new replay replay_or_new initiate
wire_starts = refl

pub wire_is_rejected : decide (env_at 200) 9 100 refusal wire_pending ≡ (ok tt, wire_rejected)
unfolding ◌+ℤ◌ ◌>>=◌ ◌>>◌ update_balance ensure_account_ledger ensure_code create_missing post
    compute_quote create_transaction create_transfer update_transaction update_transfer
    resolve_settlement local_gate wire_gate load_source load_own load_destination prepare
    ensure_destination commit schedule initiate_new replay replay_or_new initiate credit_destination
    credit_inflow pay_out settle notify_account notify_recipient announce settle_and_announce
    process_found process reset run_settlement force_settle get_for_user force_settle_own refund
    approve notify_pending reject carry_out decide
wire_is_rejected = refl

pub wire_is_reversed : reverse (env_at 200) 100 wire_pending ≡ (ok tt, wire_reversed)
unfolding ◌+ℤ◌ ◌>>=◌ ◌>>◌ update_balance ensure_account_ledger ensure_code create_missing post
    compute_quote create_transaction create_transfer update_transaction update_transfer
    resolve_settlement local_gate wire_gate load_source load_own load_destination prepare
    ensure_destination commit schedule initiate_new replay replay_or_new initiate credit_destination
    credit_inflow pay_out settle notify_account notify_recipient announce settle_and_announce
    process_found process reset run_settlement force_settle get_for_user force_settle_own refund
    approve notify_pending reject carry_out decide mark_reversed mark_settled_reversed take_back
    announce_reversal reverse
wire_is_reversed = refl

pub wire_is_refunded_again :
    decide (env_at 300) 9 100 refusal wire_reversed ≡ (ok tt, wire_refunded_twice)
unfolding ◌+ℤ◌ ◌>>=◌ ◌>>◌ update_balance ensure_account_ledger ensure_code create_missing post
    compute_quote create_transaction create_transfer update_transaction update_transfer
    resolve_settlement local_gate wire_gate load_source load_own load_destination prepare
    ensure_destination commit schedule initiate_new replay replay_or_new initiate credit_destination
    credit_inflow pay_out settle notify_account notify_recipient announce settle_and_announce
    process_found process reset run_settlement force_settle get_for_user force_settle_own refund
    approve notify_pending reject carry_out decide mark_reversed mark_settled_reversed take_back
    announce_reversal reverse
wire_is_refunded_again = refl

pub overdraft_fails :
    (initiate (env_at 100) 2 (some 9) (record gift { from_account_id = 20 }) bank).0
    ≡ err insufficient_funds
unfolding ◌+ℤ◌ ◌>>=◌ ◌>>◌ update_balance ensure_account_ledger ensure_code create_missing post
    compute_quote create_transaction create_transfer update_transaction update_transfer
    resolve_settlement local_gate wire_gate load_source load_own load_destination prepare
    ensure_destination commit schedule initiate_new replay replay_or_new initiate
overdraft_fails = refl

pub gift_is_settled : transfer_of 100 gift_settled ≡ some settled_gift
unfolding ◌+ℤ◌ ◌>>=◌ ◌>>◌ update_balance ensure_account_ledger ensure_code create_missing post
    compute_quote create_transaction create_transfer update_transaction update_transfer
    resolve_settlement local_gate wire_gate load_source load_own load_destination prepare
    ensure_destination commit schedule initiate_new replay replay_or_new initiate credit_destination
    credit_inflow pay_out settle notify_account notify_recipient announce settle_and_announce
    process_found process
gift_is_settled = refl

pub wire_is_held : transfer_of 100 wire_pending ≡ some held_wire
unfolding ◌+ℤ◌ ◌>>=◌ ◌>>◌ update_balance ensure_account_ledger ensure_code create_missing post
    compute_quote create_transaction create_transfer update_transaction update_transfer
    resolve_settlement local_gate wire_gate load_source load_own load_destination prepare
    ensure_destination commit schedule initiate_new replay replay_or_new initiate
wire_is_held = refl
