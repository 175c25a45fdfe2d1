-- ===== src/Recurring/Schedule.antt =====
-- When the next run of a rule falls.
use meal.Prelude.{ℕ, suc, ◌+◌, ◌-◌, ◌*◌, ◌/◌, ◌%◌, ◌≡◌, ◌≤◌, ◌<◌, refl, true, false, arith, some}
use meal.Prelude.Table.{modify, find-modify}
use meal.Recurring.Calendar.{day_ms, week_day, month_start, civil, civil-number_of}
use meal.Recurring.Months.{IsDate, month_start-later, number-month_end}
use meal.Recurring.{
  RecurringFrequency, weekly, biweekly, monthly, days_ahead, next_month, last_day, min, on_day,
  next_day, compute_next_run_at, RecurringTransfer, Standing, RunEnv, rule_key, rule_of, is_due,
  advanced, run_rule,
}

min-positive : (a b : ℕ) → 0 < a → 0 < b → 0 < min a b
min-positive a b h k = ground arith

days_ahead-week_day :
    (n day_of : ℕ)
    → (week_day (n + days_ahead n day_of) ≡ day_of % 7)
      × (0 < days_ahead n day_of)
      × (days_ahead n day_of ≤ 7)
days_ahead-week_day n day_of = ground arith

nine_o_clock : (n : ℕ) → (n * day_ms + 32400000) / day_ms ≡ n
nine_o_clock n = omega arith

within_day : (from n : ℕ) → from / day_ms < n → from < n * day_ms + 32400000
within_day from n h = omega (arith, h)

-- The month of a day that is not before the first of the next month starts no earlier than that.
next_month-later : (n day_of : ℕ) → 0 < day_of → n < on_day (next_month n) day_of
next_month-later n day_of some_day =
    let c = civil n in
    let (c_at, c_month, c_some, c_fits) = civil-number_of n in
    let c_date : IsDate c = (c_month, c_some, c_fits) in
    let s = next_month n in
    let e = civil s in
    let (e_at, e_month, e_some, e_fits) = civil-number_of s in
    let e_date : IsDate e = (e_month, e_some, e_fits) in
    let next = month_start c.year (suc c.month) in
    let ends = number-month_end c c_date in
    let after = month_start-later c e c_date e_date (omega (arith, e_at)) in
    let (_, _, last_some, _) = civil-number_of (month_start e.year (suc e.month) - 1) in
    let some_date : 0 < min day_of (last_day e) =
      min-positive day_of (last_day e) some_day last_some in
    omega (arith, c_at, c_some, c_fits, ends, after, some_date)

-- The next run is later than now, if a monthly rule names a day from 1 on.
pub compute_next_run_at-later :
    (from : ℕ) (frequency : RecurringFrequency) (day_of : ℕ)
    → (frequency ≡ monthly → 0 < day_of)
    → from < compute_next_run_at from frequency day_of
unfolding compute_next_run_at
compute_next_run_at-later from weekly day_of h =
    let (_, some_days, _) = days_ahead-week_day (from / day_ms) day_of in
    within_day from (next_day weekly (from / day_ms) day_of) (omega (arith, some_days))
compute_next_run_at-later from biweekly day_of h =
    let (_, some_days, _) = days_ahead-week_day (from / day_ms) day_of in
    within_day from (next_day biweekly (from / day_ms) day_of) (omega (arith, some_days))
compute_next_run_at-later from monthly day_of h =
    within_day from (next_day monthly (from / day_ms) day_of)
      (next_month-later (from / day_ms) day_of (h refl))

-- The next run of a weekly rule is at nine on its day of the week, one to seven days from today.
pub compute_next_run_at-week_day :
    (from day_of : ℕ)
    → let next = compute_next_run_at from weekly day_of / day_ms in
      (week_day next ≡ day_of % 7) × (from / day_ms < next) × (next ≤ from / day_ms + 7)
unfolding compute_next_run_at
compute_next_run_at-week_day from day_of =
    let n = from / day_ms in
    let (day, some_days, few) = days_ahead-week_day n day_of in
    let at = nine_o_clock (next_day weekly n day_of) in
    (rw at day, omega (arith, at, some_days), omega (arith, at, few))

run_rule-ran :
    (env : RunEnv) (r : RecurringTransfer) (s : Standing) {s' : Standing}
    → run_rule env r s ≡ (true, s')
    → s'.rules ≡ modify rule_key r.id (advanced env.now r) s.rules
unfolding run_rule
run_rule-ran env r s h = ground (arith, h)

-- A rule that has run at a time is not due again at that time, if a monthly rule names a day from 1 on.
pub run_rule-not_due :
    (env : RunEnv) (r : RecurringTransfer) (s : Standing) {s' : Standing}
    → (r.frequency ≡ monthly → 0 < r.day_of)
    → rule_of r.id s ≡ some r
    → run_rule env r s ≡ (true, s')
    → (rule_of r.id s' ≡ some (advanced env.now r r))
      × (is_due env.now (advanced env.now r r) ≡ false)
run_rule-not_due env r s named stored h =
    let rules = run_rule-ran env r s h in
    let at = find-modify rule_key r.id r.id (advanced env.now r) s.rules (λ x. refl) in
    let later = compute_next_run_at-later env.now r.frequency r.day_of named in
    (ground (arith, rules, at, stored), ground (arith, later))
