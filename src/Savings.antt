-- ===== src/Savings.antt =====
-- GoalsService (goals/goals.service.ts): the goals that a customer saves for.
pub mod Rows
pub mod Sweeps
pub mod Repeats
pub mod Swept
use meal.Prelude.{
  ℕ, Bool, true, false, not, ◌&&◌, Option, none, some, List, [], ◌∷◌, ◌==◌, if◌then◌else◌,
}
use meal.Prelude.Int.{ℤ, pos, ◌+ℤ◌}
use meal.Prelude.Table.{find, modify, find_first, update_where}
use meal.Bank.{Bank, Account}
use meal.Bank.Action.{Result, ok, err}
use meal.Bank.Balance.{account_of}
use meal.Transfers.Requests.{InitiateResult}
use meal.Transfers.Initiate.{initiate}
use meal.Transfers.Rows.{is_some}
use meal.Savings.Rows.{
  Goal, Savings, SavingsEnv, goal_not_found, goal_archived, no_savings_account, not_your_account,
  id_taken, transfer_failed, Reply, done, failed, goal_key, goal_of, own_goal, is_savings_of,
  save_transfer, grown, grow_goal,
}

-- What a customer gives of a goal; a field that is missing is `none`.
pub record GoalInput : Type 0 where
  pub target_cents : Option ℤ
  pub contribute_per_week : Option ℤ
  pub is_default : Option Bool

abbrev pub or_old : {A : Type 0} → Option A → Option A → Option A
or_old none old = old
or_old (some a) old = some a

abbrev pub or_default : {A : Type 0} → Option A → A → A
or_default none a = a
or_default (some b) a = b

abbrev pub not_default : Goal → Goal
not_default g = record g { is_default = false }

-- `{ userId, isDefault: true }`, less the goal itself in an update.
abbrev pub is_default_of : ℕ → Option ℕ → Goal → Bool
is_default_of user none g = g.user_id == user && g.is_default
is_default_of user (some k) g = g.user_id == user && (g.is_default && not (g.id == k))

-- The default is taken from the user's other goals, if this one is to be the default.
abbrev pub clear_default : ℕ → Option ℕ → Option Bool → Savings → Savings
clear_default user k wanted s =
    if or_default wanted false
    then record s { goals = update_where (is_default_of user k) not_default s.goals }
    else s

abbrev pub new_goal : (id user : ℕ) → GoalInput → Goal
new_goal id user input = record {
  id = id;
  user_id = user;
  target_cents = input.target_cents;
  current_cents = pos 0;
  contribute_per_week = input.contribute_per_week;
  is_default = or_default input.is_default false;
  archived_at = none;
}

abbrev pub add_goal : Goal → Savings → Reply Goal × Savings
add_goal g s =
    if is_some (goal_of g.id s)
    then (failed id_taken, s)
    else (done g, record s { goals = g ∷ s.goals })

unfoldable pub create_goal : (user id : ℕ) → GoalInput → Savings → Reply Goal × Savings
create_goal user id input s =
    add_goal (new_goal id user input) (clear_default user none input.is_default s)

abbrev pub with_input : GoalInput → Goal → Goal
with_input input g = record g {
  target_cents = or_old input.target_cents g.target_cents;
  contribute_per_week = or_old input.contribute_per_week g.contribute_per_week;
  is_default = or_default input.is_default g.is_default;
}

abbrev pub change_goal : ℕ → (Goal → Goal) → Savings → Savings
change_goal k f s = record s { goals = modify goal_key k f s.goals }

unfoldable pub update_goal : (user goal : ℕ) → GoalInput → Savings → Reply (Unit {0}) × Savings
update_goal user k input s = elim (own_goal user (goal_of k s)) [
  | none ↦ (failed goal_not_found, s)
  | some g ↦
      (done tt, change_goal k (with_input input) (clear_default user (some k) input.is_default s))
]

abbrev pub archived : ℕ → Goal → Goal
archived now g = record g { archived_at = some now }

unfoldable pub archive_goal : (user goal now : ℕ) → Savings → Reply (Unit {0}) × Savings
archive_goal user k now s = elim (own_goal user (goal_of k s)) [
  | none ↦ (failed goal_not_found, s)
  | some g ↦ (done tt, change_goal k (archived now) s)
]

abbrev pub own_account : ℕ → Option Account → Option Account
own_account user none = none
own_account user (some a) = if a.user_id == user then some a else none

-- After the transfer has been asked for.
abbrev pub contributed :
    ℕ → ℤ → Result InitiateResult × Bank → Savings → Reply InitiateResult × Savings
contributed k amount (err e, b) s = (failed (transfer_failed e), record s { bank = b })
contributed k amount (ok r, b) s = (done r, grow_goal k amount (record s { bank = b }))

abbrev pub contribute_to :
    SavingsEnv
    → ℕ
    → Option ℕ
    → (goal source : ℕ) → ℤ
    → Option Account
    → Option Account
    → Savings
    → Reply InitiateResult × Savings
contribute_to env user key k source amount none from s = (failed no_savings_account, s)
contribute_to env user key k source amount (some target) none s = (failed not_your_account, s)
contribute_to env user key k source amount (some target) (some from) s =
    contributed k amount
      (initiate env.transfer user key (save_transfer source target.id amount) s.bank) s

unfoldable pub contribute :
    SavingsEnv → (user goal : ℕ) → Option ℕ → ℕ → ℤ → Savings → Reply InitiateResult × Savings
contribute env user k key source amount s = elim (own_goal user (goal_of k s)) [
  | none ↦ (failed goal_not_found, s)
  | some g ↦
      if is_some g.archived_at
      then (failed goal_archived, s)
      else contribute_to env user key k source amount
          (find_first (is_savings_of user) s.bank.accounts)
          (own_account user (account_of source s.bank)) s
]
