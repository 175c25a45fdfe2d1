-- ===== src/Savings/Rows.antt =====
-- The rows of goals and of automatic saving (prisma/schema.prisma), beside the bank's state.
use meal.Prelude.{
  ℕ, Bool, false, true, Option, none, some, List, [], ◌∷◌, ◌==◌, ◌&&◌, if◌then◌else◌,
}
use meal.Prelude.Int.{ℤ, ◌+ℤ◌}
use meal.Prelude.Table.{find, modify}
use meal.Bank.{Bank, Account, AccountType, checking, savings, internal}
use meal.Bank.Action.{Error}
use meal.Transfers.Requests.{Env, InitiateTransfer}
use meal.Transfers.Initiate.{is_active}
use meal.Splits.{GoalSplit, Allocation}

-- Names, emojis and dates of display are left out.
pub record Goal : Type 0 where
  pub id : ℕ
  pub user_id : ℕ
  pub target_cents : Option ℤ
  pub current_cents : ℤ
  pub contribute_per_week : Option ℤ
  pub is_default : Bool
  pub archived_at : Option ℕ

pub record AutosaveConfig : Type 0 where
  pub user_id : ℕ
  pub enabled : Bool
  pub round_up_enabled : Bool
  pub round_up_source_account_id : Option ℕ
  pub splits : List GoalSplit
  pub weekly_contribution_cents : Option ℤ
  pub weekly_day : Option ℕ

pub record RoundUp : Type 0 where
  pub user_id : ℕ
  pub transaction_id : ℕ
  pub amount_cents : ℤ
  pub applied_at : Option ℕ

pub record Savings : Type 0 where
  pub bank : Bank
  pub goals : List Goal
  pub configs : List AutosaveConfig
  pub round_ups : List RoundUp

-- The keys that the sweeps make up: `roundup:<user>:<day>` and `autosave:weekly:<user>:<week>`.
pub data AutoKey : Type 0 where
  round_up_key weekly_key : (user stamp : ℕ) → AutoKey

-- The outside of a call of initiate, the stamps of the current day and week, and the numbering of the
-- keys' texts.
pub record SavingsEnv : Type 0 where
  pub transfer : Env
  pub day : ℕ
  pub week : ℕ
  pub number : AutoKey → ℕ

pub data SavingsError : Type 0 where
  goal_not_found goal_archived no_savings_account not_your_account source_not_yours : SavingsError
  row_missing id_taken : SavingsError
  transfer_failed : Error → SavingsError

pub data Reply (A : Type 0) : Type 0 where
  done : A → Reply A
  failed : SavingsError → Reply A

abbrev pub goal_key : Goal → ℕ
goal_key g = g.id

abbrev pub goal_of : ℕ → Savings → Option Goal
goal_of k s = find goal_key k s.goals

abbrev pub config_key : AutosaveConfig → ℕ
config_key c = c.user_id

abbrev pub config_of : ℕ → Savings → Option AutosaveConfig
config_of user s = find config_key user s.configs

abbrev pub own_goal : ℕ → Option Goal → Option Goal
own_goal user none = none
own_goal user (some g) = if g.user_id == user then some g else none

abbrev pub is_savings : AccountType → Bool
is_savings savings = true
is_savings checking = false

-- `{ userId, type: 'savings', status: 'active' }`
abbrev pub is_savings_of : ℕ → Account → Bool
is_savings_of user a = a.user_id == user && (is_savings a.account_type && is_active a.status)

-- The internal transfer of a sweep or a contribution.
abbrev pub save_transfer : (source target : ℕ) → ℤ → InitiateTransfer
save_transfer source target amount = record {
  from_account_id = source;
  to_account_id = some target;
  kind = internal;
  amount_cents = amount;
  instant = false;
  wire_details = none;
  send_currency = none;
  send_amount_minor = none;
}

abbrev pub grown : ℤ → Goal → Goal
grown amount g = record g { current_cents = g.current_cents +ℤ amount }

abbrev pub grow_goal : ℕ → ℤ → Savings → Savings
grow_goal k amount s = record s { goals = modify goal_key k (grown amount) s.goals }

-- One `goal.update` after another; the first missing row throws, and the earlier ones stay.
abbrev pub credit_goals : List Allocation → Savings → Reply (Unit {0}) × Savings
credit_goals [] s = (done tt, s)
credit_goals (a ∷ as') s =
    let rest = credit_goals as' (grow_goal a.goal_id a.cents s) in
    elim (goal_of a.goal_id s) [ none ↦ (failed row_missing, s) | some g ↦ rest ]
