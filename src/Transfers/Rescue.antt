-- ===== src/Transfers/Rescue.antt =====
-- TransfersService.forceSettle (transfers/transfers.service.ts), and its endpoint for the owner of a
-- transfer (transfers/transfers.controller.ts).
pub mod Repeat
use meal.Prelude.{ℕ, Bool, true, false, not, Option, none, some, ◌∷◌, ◌==◌, if◌then◌else◌}
use meal.Bank.{Bank, Transfer, pending}
use meal.Bank.Action.{Action, ok, pure, gets, or_throw, throw_if, ◌>>=◌, ◌>>◌, transfer_not_found}
use meal.Transfers.Requests.{Env}
use meal.Transfers.Rows.{transfer_of, update_transfer, remove_job}
use meal.Transfers.Settlement.{is_pending, process}

abbrev pub to_pending : Transfer → Transfer
to_pending t = record t { status = pending; settled_at = none; settled_transaction_id = none }

-- A transfer that is not pending is made pending again.
unfoldable pub reset : Transfer → Action Unit
reset t = if is_pending t.status then pure tt else update_transfer t.id to_pending

-- Replaces the job, or runs the worker's code at once when the queue is down.
unfoldable pub run_settlement : Env → ℕ → Action Unit
run_settlement env k b =
    if env.queue_up then (ok tt, record b { jobs = k ∷ remove_job k b.jobs }) else process env k b

unfoldable pub force_settle : Env → ℕ → Action Unit
force_settle env k = do
  t ← or_throw (← gets (transfer_of k)) transfer_not_found
  reset t
  run_settlement env k

unfoldable pub get_for_user : ℕ → ℕ → Action Transfer
get_for_user user k = do
  t ← or_throw (← gets (transfer_of k)) transfer_not_found
  throw_if (not (t.initiated_by_user_id == user)) transfer_not_found
  pure t

-- `POST /transfers/:id/force-settle`
unfoldable pub force_settle_own : Env → ℕ → ℕ → Action Unit
force_settle_own env user k = do get_for_user user k; force_settle env k
