-- ===== src/Examples/Recurring.antt =====
-- A weekly rule that runs, and what monthly rules do at the end of a month.
use meal.Prelude.{◌≡◌, ◌+◌, ◌*◌, refl, false, true, some, none, [], ◌∷◌, arith}
use meal.Prelude.Int.{pos, ◌+ℤ◌, ◌-ℤ◌}
use meal.Bank.Action.{◌>>=◌, ◌>>◌}
use meal.Bank.Balance.{update_balance}
use meal.Ledger.{ensure_account_ledger, ensure_code, create_missing, post}
use meal.Quote.{compute_quote}
use meal.Transfers.Rows.{create_transaction, create_transfer, update_transaction, update_transfer}
use meal.Transfers.Initiate.{
  resolve_settlement, local_gate, wire_gate, load_source, load_own, load_destination, prepare,
  ensure_destination, commit, schedule, initiate_new, replay, replay_or_new, initiate,
}
use meal.Recurring.Calendar.{day_ms, month_start, civil}
use meal.Recurring.{
  weekly, monthly, RecurringTransfer, Standing, RunEnv, rule_of, advanced, is_due,
  compute_next_run_at, run_rule,
}
use meal.Recurring.Schedule.{run_rule-not_due}
use meal.Examples.Data.{env_at, bank}

abbrev rule : RecurringTransfer
rule = record {
  id = 5;
  user_id = 1;
  from_account_id = 10;
  to_account_id = 11;
  amount_cents = pos 20000;
  frequency = weekly;
  day_of = 1;
  active = true;
  next_run_at = 400;
  last_run_at = none;
}

abbrev standing : Standing
standing = record { bank = bank; rules = rule ∷ [] }

abbrev run_env : RunEnv
run_env = record { now = 1000; transfer = λ k. env_at 100; number = λ k at. 5000 + k + at }

abbrev after_run : Standing
after_run = (run_rule run_env rule standing).1

rule_ran : run_rule run_env rule standing ≡ (true, after_run)
unfolding ◌+ℤ◌ ◌-ℤ◌ ◌>>=◌ ◌>>◌ update_balance ensure_account_ledger ensure_code create_missing post
    compute_quote create_transaction create_transfer update_transaction update_transfer
    resolve_settlement local_gate wire_gate load_source load_own load_destination prepare
    ensure_destination commit schedule initiate_new replay replay_or_new initiate run_rule
rule_ran = refl

run_rule-not_due_example :
    (rule_of 5 after_run ≡ some (advanced 1000 rule rule))
    × (is_due 1000 (advanced 1000 rule rule) ≡ false)
run_rule-not_due_example =
    run_rule-not_due run_env rule standing (λ e. ground (arith, e)) refl rule_ran

-- A rule for the 31st that runs on January 31 goes on on March 31.
february_skipped : compute_next_run_at (30 * day_ms) monthly 31 ≡ 89 * day_ms + 32400000
unfolding compute_next_run_at civil month_start
february_skipped = refl

-- A rule for the day 0, which the input allows, that runs at ten on February 28 is due at once.
day_zero_due : compute_next_run_at (58 * day_ms + 36000000) monthly 0 ≡ 58 * day_ms + 32400000
unfolding compute_next_run_at civil month_start
day_zero_due = refl
