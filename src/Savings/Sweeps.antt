-- ===== src/Savings/Sweeps.antt =====
-- AutosaveService (autosave/autosave.service.ts) and RoundUpsService (round-ups/round-ups.service.ts).
use meal.Prelude.{
  ℕ, suc, ◌-◌, ◌%◌, Bool, true, false, not, ◌&&◌, ◌||◌, Option, none, some, List, [], ◌∷◌, ◌==◌,
  if◌then◌else◌,
}
use meal.Prelude.Int.{ℤ, pos, neg_part, ◌+ℤ◌, ltb_ℤ, leb_ℤ}
use meal.Prelude.Table.{modify, find_first, update_where}
use meal.Bank.{Bank, TransactionKind, card_purchase}
use meal.Bank.Action.{ok, err}
use meal.Bank.Balance.{account_of}
use meal.Transfers.Requests.{InitiateResult}
use meal.Transfers.Initiate.{initiate}
use meal.Transfers.Rows.{is_some, transaction_of}
use meal.PaymentRequests.{checking_of}
use meal.Splits.{GoalSplit, Scale, normalize_splits, allocate_cents}
use meal.Savings.{or_old, or_default}
use meal.Savings.Rows.{
  AutosaveConfig, RoundUp, Savings, round_up_key, weekly_key, AutoKey, SavingsEnv, goal_not_found,
  source_not_yours, Reply, done, failed, goal_of, config_key, config_of, own_goal, is_savings_of,
  save_transfer, credit_goals,
}

-- What a customer sets; a field that is missing is `none`.
pub record AutosaveInput : Type 0 where
  pub enabled : Option Bool
  pub round_up_enabled : Option Bool
  pub round_up_source_account_id : Option ℕ
  pub splits : Option (List GoalSplit)
  pub weekly_contribution_cents : Option ℤ
  pub weekly_day : Option ℕ

abbrev pub all_own : ℕ → List GoalSplit → Savings → Bool
all_own user [] s = true
all_own user (p ∷ ps) s = is_some (own_goal user (goal_of p.goal_id s)) && all_own user ps s

abbrev pub splits_own : ℕ → Option (List GoalSplit) → Savings → Bool
splits_own user none s = true
splits_own user (some ps) s = all_own user ps s

abbrev pub source_own : ℕ → Option ℕ → Bank → Bool
source_own user none b = true
source_own user (some k) b = elim (account_of k b) [ none ↦ false | some a ↦ a.user_id == user ]

abbrev pub normalized : Scale → Option (List GoalSplit) → Option (List GoalSplit)
normalized scale none = none
normalized scale (some ps) = some (normalize_splits scale ps)

abbrev pub with_settings : Scale → AutosaveInput → AutosaveConfig → AutosaveConfig
with_settings scale dto c = record c {
  enabled = or_default dto.enabled c.enabled;
  round_up_enabled = or_default dto.round_up_enabled c.round_up_enabled;
  round_up_source_account_id = or_old dto.round_up_source_account_id c.round_up_source_account_id;
  splits = or_default (normalized scale dto.splits) c.splits;
  weekly_contribution_cents = or_old dto.weekly_contribution_cents c.weekly_contribution_cents;
  weekly_day = or_old dto.weekly_day c.weekly_day;
}

abbrev pub new_config : ℕ → AutosaveConfig
new_config user = record {
  user_id = user;
  enabled = false;
  round_up_enabled = false;
  round_up_source_account_id = none;
  splits = [];
  weekly_contribution_cents = none;
  weekly_day = none;
}

-- `upsert`: the row is changed, or made from the defaults.
abbrev pub store_config : Scale → ℕ → AutosaveInput → Savings → Savings
store_config scale user dto s = elim (config_of user s) [
  | none ↦ record s { configs = with_settings scale dto (new_config user) ∷ s.configs }
  | some c ↦ record s { configs = modify config_key user (with_settings scale dto) s.configs }
]

unfoldable pub upsert_autosave : Scale → ℕ → AutosaveInput → Savings → Reply (Unit {0}) × Savings
upsert_autosave scale user dto s =
    if not (splits_own user dto.splits s)
    then (failed goal_not_found, s)
    else if not (source_own user dto.round_up_source_account_id s.bank)
    then (failed source_not_yours, s)
    else (done tt, store_config scale user dto s)

-- The configured source, or the user's active checking account.
abbrev pub source_of : AutosaveConfig → Bank → Option ℕ
source_of c b = elim c.round_up_source_account_id [
  | some k ↦ some k
  | none ↦ elim (checking_of c.user_id b.accounts) [ none ↦ none | some a ↦ some a.id ]
]

-- A transfer to the user's savings; `none` where an account is missing or the transfer failed.
abbrev pub sweep :
    SavingsEnv → AutosaveConfig → AutoKey → ℤ → Savings → Option InitiateResult × Savings
sweep env c key amount s = elim (source_of c s.bank) [
  | none ↦ (none, s)
  | some source ↦ elim (find_first (is_savings_of c.user_id) s.bank.accounts) [
    | none ↦ (none, s)
    | some target ↦
        let (result, b) =
          initiate env.transfer c.user_id (some (env.number key))
            (save_transfer source target.id amount) s.bank in
        elim result [
          | err e ↦ (none, record s { bank = b })
          | ok r ↦ (some r, record s { bank = b })
        ]
  ]
]

abbrev pub allocate_swept :
    AutosaveConfig → ℤ → Option InitiateResult × Savings → Reply (Unit {0}) × Savings
allocate_swept c amount (none, s) = (done tt, s)
allocate_swept c amount (some r, s) = credit_goals (allocate_cents amount c.splits) s

abbrev pub has_splits : AutosaveConfig → Bool
has_splits c = elim c.splits [ [] ↦ false | _ ∷ _ ↦ true ]

unfoldable pub apply_weekly_contribution :
    SavingsEnv → AutosaveConfig → Savings → Reply (Unit {0}) × Savings
apply_weekly_contribution env c s = elim c.weekly_contribution_cents [
  | none ↦ (done tt, s)
  | some amount ↦
      if c.enabled && (ltb_ℤ (pos 0) amount && has_splits c)
      then allocate_swept c amount (sweep env c (weekly_key c.user_id env.week) amount s)
      else (done tt, s)
]

-- `roundUpCents`
unfoldable pub round_up_cents : ℕ → ℕ
round_up_cents amount = if amount % 100 == 0 then 0 else 100 - amount % 100

abbrev pub is_card_purchase : TransactionKind → Bool
is_card_purchase card_purchase = true
is_card_purchase _ = false

abbrev pub rounds_up : Option AutosaveConfig → Bool
rounds_up none = false
rounds_up (some c) = c.enabled && c.round_up_enabled

-- A settled card purchase, recorded with what is missing to a full dollar.
unfoldable pub on_settled : (user transaction : ℕ) → Savings → Savings
on_settled user k s = elim (transaction_of k s.bank) [
  | none ↦ s
  | some t ↦
      let missing = round_up_cents (neg_part t.amount_cents) in
      if is_card_purchase t.kind
        && (ltb_ℤ t.amount_cents (pos 0) && (rounds_up (config_of user s) && not (missing == 0)))
      then record s {
        round_ups =
            record {
              user_id = user;
              transaction_id = t.id;
              amount_cents = pos missing;
              applied_at = none;
            }
            ∷ s.round_ups;
      }
      else s
]

abbrev pub is_unapplied : ℕ → RoundUp → Bool
is_unapplied user r = r.user_id == user && not (is_some r.applied_at)

abbrev pub applied : ℕ → RoundUp → RoundUp
applied now r = record r { applied_at = some now }

abbrev pub mark_applied : ℕ → ℕ → Savings → Savings
mark_applied user now s = record s {
  round_ups = update_where (is_unapplied user) (applied now) s.round_ups;
}

-- What follows the transfer: the goals, and then the marks; a missing goal throws before the marks.
abbrev pub finish_sweep :
    SavingsEnv → AutosaveConfig → ℤ → Option InitiateResult × Savings → Reply Bool × Savings
finish_sweep env c amount (none, s) = (done false, s)
finish_sweep env c amount (some r, s) =
    let (credited, s') = credit_goals (allocate_cents amount c.splits) s in
    elim credited [
      | failed e ↦ (failed e, s')
      | done u ↦ (done true, mark_applied c.user_id env.transfer.now s')
    ]

unfoldable pub apply_for_user : SavingsEnv → ℕ → ℤ → Savings → Reply Bool × Savings
apply_for_user env user amount s = elim (config_of user s) [
  | none ↦ (done false, s)
  | some c ↦
      if c.enabled && c.round_up_enabled
      then finish_sweep env c amount (sweep env c (round_up_key user env.day) amount s)
      else (done false, s)
]

abbrev pub unapplied_sum : ℕ → List RoundUp → ℤ
unapplied_sum user [] = pos 0
unapplied_sum user (r ∷ rs) =
    if is_unapplied user r then r.amount_cents +ℤ unapplied_sum user rs else unapplied_sum user rs

abbrev pub seen : ℕ → List ℕ → Bool
seen user [] = false
seen user (u ∷ us) = u == user || seen user us

-- The users with entries that are not applied, once each.
abbrev pub waiting_users : List RoundUp → List ℕ
waiting_users [] = []
waiting_users (r ∷ rs) =
    let us = waiting_users rs in
    if is_some r.applied_at || seen r.user_id us then us else r.user_id ∷ us

abbrev pub add_swept : ℤ → Bool → ℕ × ℤ → ℕ × ℤ
add_swept amount false total = total
add_swept amount true (users, cents) = (suc users, amount +ℤ cents)

abbrev pub apply_group : SavingsEnv → ℕ → ℤ → Savings → Reply Bool × Savings
apply_group env user amount s =
    if leb_ℤ amount (pos 0) then (done false, s) else apply_for_user env user amount s

-- The loop over the groups, whose sums were read at the start; a throw ends it.
abbrev pub apply_groups : (ℕ → SavingsEnv) → List (ℕ × ℤ) → Savings → Reply (ℕ × ℤ) × Savings
apply_groups env [] s = (done (0, pos 0), s)
apply_groups env ((user, amount) ∷ groups) s =
    let (outcome, s') = apply_group (env user) user amount s in
    let (rest, s'') = apply_groups env groups s' in
    elim outcome [
      | failed e ↦ (failed e, s')
      | done swept ↦ elim rest [
        | failed e ↦ (failed e, s'')
        | done total ↦ (done (add_swept amount swept total), s'')
      ]
    ]

abbrev pub groups_of : List ℕ → List RoundUp → List (ℕ × ℤ)
groups_of [] rs = []
groups_of (u ∷ us) rs = (u, unapplied_sum u rs) ∷ groups_of us rs

-- `applyDaily`: the users swept and the amount; each call of initiate has an outside of its own.
unfoldable pub apply_daily : (ℕ → SavingsEnv) → Savings → Reply (ℕ × ℤ) × Savings
apply_daily env s = apply_groups env (groups_of (waiting_users s.round_ups) s.round_ups) s
