-- ===== src/Examples/Savings.antt =====
-- A goal that is paid into twice under one key, and a day's round-ups.
use mathlib.Core.Option
use meal.Prelude.{ℕ, ◌≡◌, ◌+◌, refl, true, false, some, none, [], ◌∷◌}
use meal.Prelude.Int.{pos, ◌+ℤ◌, ◌-ℤ◌, ◌*ℤ◌, div_ℤ}
use meal.Bank.Action.{◌>>=◌, ◌>>◌}
use meal.Bank.Balance.{update_balance}
use meal.Ledger.{ensure_account_ledger, ensure_code, create_missing, post}
use meal.Quote.{compute_quote}
use meal.Transfers.Requests.{InitiateResult}
use meal.Transfers.Rows.{create_transaction, create_transfer, update_transaction, update_transfer}
use meal.Transfers.Initiate.{
  resolve_settlement, local_gate, wire_gate, load_source, load_own, load_destination, prepare,
  ensure_destination, commit, schedule, initiate_new, replay, replay_or_new, initiate,
}
use meal.Splits.{allocate_cents}
use meal.Savings.Rows.{
  AutoKey, round_up_key, weekly_key, Goal, Savings, SavingsEnv, done, goal_of, grown,
}
use meal.Savings.{contribute}
use meal.Savings.Sweeps.{apply_for_user}
use meal.Savings.Repeats.{contribute_again}
use meal.Savings.Swept.{SweptFor, apply_for_user-ok}
use meal.Examples.Data.{env_at, bank}
use meal.Examples.Runs.{answer}

abbrev number : AutoKey → ℕ
number (round_up_key user day) = 1000 + user + day
number (weekly_key user week) = 2000 + user + week

abbrev outside : ℕ → SavingsEnv
outside k = record { transfer = env_at k; day = 5; week = 1; number = number }

abbrev holiday : Goal
holiday = record {
  id = 90;
  user_id = 1;
  target_cents = some (pos 100000);
  current_cents = pos 0;
  contribute_per_week = none;
  is_default = false;
  archived_at = none;
}

abbrev saver : Savings
saver = record {
  bank = bank;
  goals = holiday ∷ [];
  configs =
      record {
        user_id = 1;
        enabled = true;
        round_up_enabled = true;
        round_up_source_account_id = none;
        splits = record { goal_id = 90; percent = pos 100 } ∷ [];
        weekly_contribution_cents = none;
        weekly_day = none;
      }
      ∷ [];
  round_ups =
      record { user_id = 1; transaction_id = 3; amount_cents = pos 600; applied_at = none } ∷ [];
}

abbrev once : Savings
once = (contribute (outside 100) 1 90 (some 7) 10 (pos 20000) saver).1

abbrev twice : Savings
twice = (contribute (outside 200) 1 90 (some 7) 10 (pos 20000) once).1

abbrev first_answer : InitiateResult
first_answer = answer 0

contributed_once :
    contribute (outside 100) 1 90 (some 7) 10 (pos 20000) saver ≡ (done first_answer, once)
unfolding ◌+ℤ◌ ◌-ℤ◌ ◌>>=◌ ◌>>◌ update_balance ensure_account_ledger ensure_code create_missing post
    compute_quote create_transaction create_transfer update_transaction update_transfer
    resolve_settlement local_gate wire_gate load_source load_own load_destination prepare
    ensure_destination commit schedule initiate_new replay replay_or_new initiate contribute
contributed_once = refl

contributed_twice :
    contribute (outside 200) 1 90 (some 7) 10 (pos 20000) once ≡ (done first_answer, twice)
unfolding ◌+ℤ◌ ◌-ℤ◌ ◌>>=◌ ◌>>◌ update_balance ensure_account_ledger ensure_code create_missing post
    compute_quote create_transaction create_transfer update_transaction update_transfer
    resolve_settlement local_gate wire_gate load_source load_own load_destination prepare
    ensure_destination commit schedule initiate_new replay replay_or_new initiate contribute
contributed_twice = refl

contribute_again_example :
    (first_answer.transfer_id ≡ first_answer.transfer_id)
    × (twice.bank ≡ once.bank)
    × (goal_of 90 twice ≡ Option.map (grown (pos 20000)) (goal_of 90 once))
contribute_again_example =
    contribute_again (outside 100) (outside 200) 1 90 7 10 10 (pos 20000) (pos 20000) saver
      contributed_once contributed_twice

abbrev swept : Savings
swept = (apply_for_user (outside 300) 1 (pos 600) saver).1

day_swept : apply_for_user (outside 300) 1 (pos 600) saver ≡ (done true, swept)
unfolding ◌+ℤ◌ ◌-ℤ◌ ◌*ℤ◌ div_ℤ ◌>>=◌ ◌>>◌ update_balance ensure_account_ledger ensure_code
    create_missing post compute_quote create_transaction create_transfer update_transaction
    update_transfer resolve_settlement local_gate wire_gate load_source load_own load_destination
    prepare ensure_destination commit schedule initiate_new replay replay_or_new initiate
    apply_for_user allocate_cents
day_swept = refl

apply_for_user-ok_example : SweptFor (outside 300) 1 (pos 600) saver swept
apply_for_user-ok_example = apply_for_user-ok (outside 300) 1 (pos 600) saver day_swept
