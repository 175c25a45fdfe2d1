-- ===== src/Examples/Deposits.antt =====
-- A check of $250 that a customer deposits and an admin approves.
use meal.Prelude.{ℕ, ◌≡◌, ◌+◌, refl, true, some, List, [], ◌∷◌}
use meal.Prelude.Int.{pos, ◌+ℤ◌}
use meal.Bank.{Bank}
use meal.Bank.Action.{ok, err, ◌>>=◌, ◌>>◌, deposit_not_pending}
use meal.Bank.Balance.{update_balance}
use meal.Ledger.Drift.{drift}
use meal.Transfers.Rows.{create_transaction}
use meal.CheckDeposits.Rows.{image_png, image_jpeg, SubmitCheckInput, CheckDeposit, front, back}
use meal.CheckDeposits.{
  DepositEnv, image_key, deposit_of, create_deposit, new_deposit, take_in, submit_deposit,
  update_deposit, credit_deposit, load_pending, approved_deposit, approve_deposit, reject_deposit,
}
use meal.CheckDeposits.Credits.{DepositCall, submits, approves, rejects, run}
use meal.CheckDeposits.Lifecycle.{Steps, view, run-Steps}
use meal.CheckDeposits.Once.{run-decided_refused, approve_deposit-drift}
use meal.Examples.Data.{bank}

abbrev env_at : ℕ → DepositEnv
env_at k = record { max_bytes = 8000; now = 1000 + k; id = k; storage_up = true }

abbrev check : SubmitCheckInput
check = record {
  user_id = 1;
  amount_cents = pos 25000;
  front = record { content_type = image_png; size = 700 };
  back = record { content_type = image_jpeg; size = 800 };
}

abbrev row : CheckDeposit
row =
    new_deposit (env_at 60) check 10 (image_key 1 60 front check.front)
      (image_key 1 60 back check.back)

abbrev submitted : Bank
submitted = (submit_deposit (env_at 60) check bank).1

abbrev credited : Bank
credited = (approve_deposit (env_at 61) 9 60 submitted).1

check_approved : approve_deposit (env_at 61) 9 60 submitted ≡ (ok tt, credited)
unfolding submit_deposit take_in create_deposit approve_deposit load_pending credit_deposit
    create_transaction update_balance update_deposit ◌>>=◌ ◌>>◌ ◌+ℤ◌
check_approved = refl

check_stored : deposit_of 60 submitted ≡ some row
unfolding submit_deposit take_in create_deposit ◌>>=◌ ◌>>◌
check_stored = refl

approve_deposit-drift_example : drift 10 credited ≡ drift 10 submitted +ℤ pos 25000
approve_deposit-drift_example =
    approve_deposit-drift (env_at 61) 9 60 10 row submitted check_approved check_stored

approved_stored : deposit_of 60 credited ≡ some (approved_deposit (env_at 61) 9 row)
unfolding submit_deposit take_in create_deposit approve_deposit load_pending credit_deposit
    create_transaction update_balance update_deposit ◌>>=◌ ◌>>◌ ◌+ℤ◌
approved_stored = refl

abbrev calls : List DepositCall
calls = submits (env_at 70) check ∷ rejects (env_at 71) 9 70 ∷ approves (env_at 72) 9 60 ∷ []

run-decided_refused_example :
    (deposit_of 60 (run calls credited) ≡ some (approved_deposit (env_at 61) 9 row))
    × (approve_deposit (env_at 73) 9 60 (run calls credited)
        ≡ (err deposit_not_pending, run calls credited))
    × (reject_deposit (env_at 73) 9 60 (run calls credited)
        ≡ (err deposit_not_pending, run calls credited))
run-decided_refused_example =
    run-decided_refused calls (env_at 73) 9 60 (approved_deposit (env_at 61) 9 row) credited
      approved_stored refl

run-Steps_example : Steps (view bank) (view (run calls bank))
run-Steps_example = run-Steps calls bank
