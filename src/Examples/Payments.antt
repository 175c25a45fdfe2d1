-- ===== src/Examples/Payments.antt =====
-- A payment request of the example bank, and shares of an amount.
use meal.Prelude.{◌≡◌, List, refl, some, none, [], ◌∷◌}
use meal.Prelude.Int.{pos, ◌+ℤ◌}
use meal.Bank.{Bank}
use meal.Bank.Action.{ok, err, ◌>>=◌, ◌>>◌, request_not_pending}
use meal.Bank.Balance.{update_balance}
use meal.Ledger.{ensure_account_ledger, ensure_code, create_missing, post}
use meal.Quote.{compute_quote}
use meal.Transfers.Rows.{create_transaction, create_transfer, update_transaction, update_transfer}
use meal.Transfers.Initiate.{
  resolve_settlement, local_gate, wire_gate, load_source, load_own, load_destination, prepare,
  ensure_destination, commit, schedule, initiate_new, replay, replay_or_new, initiate,
}
use meal.PaymentRequests.Rows.{pending}
use meal.PaymentRequests.{update_request, load_open, pay_open, pay_row, pay}
use meal.PaymentRequests.Once.{Paid, pay-ok, pay_once}
use meal.Splits.{GoalSplit, Scale}
use meal.Examples.Data.{env_at, bank}
use meal.Examples.Runs.{answer}

abbrev asked : Bank
asked = record bank {
  requests =
      record {
        id = 50;
        requester_user_id = 2;
        payer_user_id = some 1;
        amount_cents = pos 20000;
        status = pending;
        expires_at = 5000;
        paid_at = none;
        paid_transfer_id = none;
      }
      ∷ [];
}

abbrev request_paid : Bank
request_paid = (pay (env_at 100) 1 50 (some 7) 10 asked).1

request_is_paid : pay (env_at 100) 1 50 (some 7) 10 asked ≡ (ok (answer 0), request_paid)
unfolding ◌+ℤ◌ ◌>>=◌ ◌>>◌ update_balance ensure_account_ledger ensure_code create_missing post
    compute_quote create_transaction create_transfer update_transaction update_transfer
    resolve_settlement local_gate wire_gate load_source load_own load_destination prepare
    ensure_destination commit schedule initiate_new replay replay_or_new initiate update_request
    load_open pay_open pay_row pay
request_is_paid = refl

pay-ok_example : Paid (env_at 100) 1 50 (some 7) 10 asked (answer 0) request_paid
pay-ok_example = pay-ok (env_at 100) 1 50 (some 7) 10 asked request_is_paid

pay_once_example :
    pay (env_at 200) 1 50 (some 8) 11 request_paid ≡ (err request_not_pending, request_paid)
pay_once_example =
    pay_once (env_at 100) (env_at 200) 1 50 (some 7) (some 8) 10 11 asked request_is_paid

abbrev thirds : List GoalSplit
thirds =
    record { goal_id = 1; percent = pos 40 }
    ∷ record { goal_id = 2; percent = pos 40 }
    ∷ record { goal_id = 3; percent = pos 40 }
    ∷ []

abbrev third : Scale
third p total = pos 33
