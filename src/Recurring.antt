-- ===== src/Recurring.antt =====
-- RecurringTransfersService (recurring-transfers/recurring-transfers.service.ts): transfers between a
-- customer's own accounts that are made each week, every other week or each month.
pub mod Calendar
pub mod Months
pub mod Schedule
use meal.Prelude.{
  ℕ, zero, suc, ◌+◌, ◌-◌, ◌*◌, ◌/◌, ◌%◌, Bool, true, false, not, ◌&&◌, ◌||◌, Option, none, some,
  List, [], ◌∷◌, leb, ltb, ◌==◌, if◌then◌else◌,
}
use meal.Prelude.Int.{ℤ}
use meal.Prelude.Table.{find, modify, select, delete_where}
use meal.Bank.{Bank, Account}
use meal.Bank.Action.{Result, ok, err}
use meal.Bank.Balance.{account_of}
use meal.Transfers.Requests.{Env}
use meal.Transfers.Initiate.{initiate}
use meal.Transfers.Rows.{is_some}
use meal.Savings.Rows.{save_transfer}
use meal.Savings.{or_default}
use meal.Recurring.Calendar.{day_ms, month_start, Civil, civil, week_day}

pub data RecurringFrequency : Type 0 where
  weekly biweekly monthly : RecurringFrequency

abbrev pub frequency_eq : RecurringFrequency → RecurringFrequency → Bool
frequency_eq weekly weekly = true
frequency_eq biweekly biweekly = true
frequency_eq monthly monthly = true
frequency_eq _ _ = false

pub record RecurringTransfer : Type 0 where
  pub id : ℕ
  pub user_id : ℕ
  pub from_account_id : ℕ
  pub to_account_id : ℕ
  pub amount_cents : ℤ
  pub frequency : RecurringFrequency
  pub day_of : ℕ
  pub active : Bool
  pub next_run_at : ℕ
  pub last_run_at : Option ℕ

pub record Standing : Type 0 where
  pub bank : Bank
  pub rules : List RecurringTransfer

-- `(dayOf - d.getUTCDay() + 7) % 7 || 7`
abbrev pub days_ahead : (day day_of : ℕ) → ℕ
days_ahead n day_of = let diff = (day_of + 7 - week_day n) % 7 in if diff == 0 then 7 else diff

-- `setUTCMonth(getUTCMonth() + 1)`: the same day of the next month, or what it runs over into.
abbrev pub next_month : ℕ → ℕ
next_month n = let c = civil n in month_start c.year (suc c.month) + (c.day - 1)

abbrev pub last_day : Civil → ℕ
last_day c = (civil (month_start c.year (suc c.month) - 1)).day

abbrev pub min : ℕ → ℕ → ℕ
min a b = if leb a b then a else b

-- `setUTCDate`; the day 0 is the last one of the month before.
abbrev pub on_day : ℕ → ℕ → ℕ
on_day n day_of = let c = civil n in month_start c.year c.month + min day_of (last_day c) - 1

abbrev pub next_day : RecurringFrequency → (day day_of : ℕ) → ℕ
next_day weekly n day_of = n + days_ahead n day_of
next_day biweekly n day_of = n + days_ahead n day_of + 7
next_day monthly n day_of = on_day (next_month n) day_of

-- `computeNextRunAt`, at nine o'clock.
unfoldable pub compute_next_run_at : ℕ → RecurringFrequency → ℕ → ℕ
compute_next_run_at from frequency day_of =
    next_day frequency (from / day_ms) day_of * day_ms + 32400000

pub data RecurringError : Type 0 where
  not_your_source not_your_destination recurring_not_found id_taken : RecurringError

pub data Reply (A : Type 0) : Type 0 where
  done : A → Reply A
  failed : RecurringError → Reply A

pub record CreateRecurring : Type 0 where
  pub from_account_id : ℕ
  pub to_account_id : ℕ
  pub amount_cents : ℤ
  pub frequency : RecurringFrequency
  pub day_of : ℕ

abbrev pub owns : ℕ → Option Account → Bool
owns user none = false
owns user (some a) = a.user_id == user

abbrev pub rule_key : RecurringTransfer → ℕ
rule_key r = r.id

abbrev pub rule_of : ℕ → Standing → Option RecurringTransfer
rule_of k s = find rule_key k s.rules

abbrev pub new_rule : (now user id : ℕ) → CreateRecurring → RecurringTransfer
new_rule now user id dto = record {
  id = id;
  user_id = user;
  from_account_id = dto.from_account_id;
  to_account_id = dto.to_account_id;
  amount_cents = dto.amount_cents;
  frequency = dto.frequency;
  day_of = dto.day_of;
  active = true;
  next_run_at = compute_next_run_at now dto.frequency dto.day_of;
  last_run_at = none;
}

unfoldable pub create_rule :
    (now user id : ℕ) → CreateRecurring → Standing → Reply RecurringTransfer × Standing
create_rule now user id dto s =
    if not (owns user (account_of dto.from_account_id s.bank))
    then (failed not_your_source, s)
    else if not (owns user (account_of dto.to_account_id s.bank))
    then (failed not_your_destination, s)
    else if is_some (rule_of id s)
    then (failed id_taken, s)
    else (done (new_rule now user id dto), record s { rules = new_rule now user id dto ∷ s.rules })

pub record UpdateRecurring : Type 0 where
  pub active : Option Bool
  pub amount_cents : Option ℤ
  pub frequency : Option RecurringFrequency
  pub day_of : Option ℕ

-- `dto.frequency !== undefined && dto.frequency !== existing.frequency`, or else the same of `dayOf`.
abbrev pub schedule_changed : UpdateRecurring → RecurringTransfer → Bool
schedule_changed dto r =
    not (frequency_eq (or_default dto.frequency r.frequency) r.frequency)
    || not (or_default dto.day_of r.day_of == r.day_of)

abbrev pub updated : ℕ → UpdateRecurring → RecurringTransfer → RecurringTransfer
updated now dto r =
    let frequency = or_default dto.frequency r.frequency in
    let day_of = or_default dto.day_of r.day_of in
    record r {
      active = or_default dto.active r.active;
      amount_cents = or_default dto.amount_cents r.amount_cents;
      frequency = frequency;
      day_of = day_of;
      next_run_at =
          if schedule_changed dto r
          then compute_next_run_at now frequency day_of
          else r.next_run_at;
    }

abbrev pub own_rule : ℕ → Option RecurringTransfer → Option RecurringTransfer
own_rule user none = none
own_rule user (some r) = if r.user_id == user then some r else none

abbrev pub change_rule : ℕ → (RecurringTransfer → RecurringTransfer) → Standing → Standing
change_rule k f s = record s { rules = modify rule_key k f s.rules }

unfoldable pub update_rule :
    (now user rule : ℕ) → UpdateRecurring → Standing → Reply (Unit {0}) × Standing
update_rule now user k dto s = elim (own_rule user (rule_of k s)) [
  | none ↦ (failed recurring_not_found, s)
  | some r ↦ (done tt, change_rule k (updated now dto) s)
]

unfoldable pub cancel_rule : (user rule : ℕ) → Standing → Reply (Unit {0}) × Standing
cancel_rule user k s = elim (own_rule user (rule_of k s)) [
  | none ↦ (failed recurring_not_found, s)
  | some r ↦
      (done tt, record s { rules = delete_where (λ (x : RecurringTransfer). x.id == k) s.rules })
]

-- What the loop takes from outside: for each rule the outside of its call of initiate, and the numbers
-- of the keys' texts, `recurring:<rule>:<time>`.
pub record RunEnv : Type 0 where
  pub now : ℕ
  pub transfer : ℕ → Env
  pub number : (rule at : ℕ) → ℕ

abbrev pub is_due : ℕ → RecurringTransfer → Bool
is_due now r = r.active && leb r.next_run_at now

abbrev pub advanced : ℕ → RecurringTransfer → RecurringTransfer → RecurringTransfer
advanced now r x = record x {
  last_run_at = some now;
  next_run_at = compute_next_run_at now r.frequency r.day_of;
}

-- One due rule, as it was read; whether it ran. A failed transfer is logged.
unfoldable pub run_rule : RunEnv → RecurringTransfer → Standing → Bool × Standing
run_rule env r s =
    let (outcome, b) =
      initiate (env.transfer r.id) r.user_id (some (env.number r.id r.next_run_at))
        (save_transfer r.from_account_id r.to_account_id r.amount_cents) s.bank in
    elim outcome [
      | err e ↦ (false, record s { bank = b })
      | ok answer ↦
          if is_some (rule_of r.id s)
          then (true, change_rule r.id (advanced env.now r) (record s { bank = b }))
          else (false, record s { bank = b })
    ]

abbrev pub run_all : RunEnv → List RecurringTransfer → Standing → ℕ × Standing
run_all env [] s = (0, s)
run_all env (r ∷ rs) s =
    let (ran, s') = run_rule env r s in
    let (count, s'') = run_all env rs s' in ((if ran then suc count else count), s'')

abbrev pub take {ℓ} : {A : Type ℓ} → ℕ → List A → List A
take zero xs = []
take (suc n) [] = []
take (suc n) (x ∷ xs) = x ∷ take n xs

-- `runDueNow`, on the first hundred due rules of the table.
unfoldable pub run_due_now : RunEnv → Standing → ℕ × Standing
run_due_now env s = run_all env (take 100 (select (is_due env.now) s.rules)) s
