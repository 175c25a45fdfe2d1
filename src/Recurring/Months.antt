-- ===== src/Recurring/Months.antt =====
-- A day has one date, and the first of the next month is where the month ends.
use meal.Prelude.{
  ℕ, zero, suc, ◌+◌, ◌-◌, ◌≡◌, ◌≤◌, ◌<◌, inl, inr, sym, ap, Bool, true, false, List, [], ◌∷◌,
  length, All, arith, ltb, if◌then◌else◌, Bool-cases,
}
use meal.Recurring.Calendar.{
  is_leap, month_lengths, year_length, year_start, days_before, month_start, Civil, total_days,
  length_at, number_of, year_days, same_year, same_month,
}

-- A month of the year, and a day of the month.
abbrev pub IsDate : Civil → Type 0
IsDate c =
    (c.month < 12) × (0 < c.day) × (c.day ≤ length_at c.month (month_lengths (is_leap c.year)))

days_before-suc :
    (m : ℕ) (ls : List ℕ)
    → m < length ls
    → days_before (suc m) ls ≡ days_before m ls + length_at m ls
days_before-suc m [] h = absurd (omega (arith, h))
days_before-suc zero (l ∷ ls) h = ground arith
days_before-suc (suc m) (l ∷ ls) h =
    let rest = days_before-suc m ls (omega (arith, h)) in omega (arith, rest)

days_before-total :
    (m : ℕ) (ls : List ℕ) → m < length ls → days_before m ls + length_at m ls ≤ total_days ls
days_before-total m [] h = absurd (omega (arith, h))
days_before-total zero (l ∷ ls) h = omega arith
days_before-total (suc m) (l ∷ ls) h =
    let rest = days_before-total m ls (omega (arith, h)) in omega (arith, rest)

-- The day of the year of a date.
abbrev in_year : Civil → ℕ
in_year c = days_before c.month (month_lengths (is_leap c.year)) + (c.day - 1)

in_year-fits : (c : Civil) → IsDate c → in_year c < year_length c.year
in_year-fits c (m, p, d) =
    let total = days_before-total c.month (month_lengths (is_leap c.year)) m in
    let days = year_days c.year in omega (arith, total, days, p, d)

number-in_year : (c : Civil) → IsDate c → number_of c ≡ year_start c.year + in_year c
unfolding month_start
number-in_year c (m, p, d) = ground (arith, m)

-- Two dates with one number are one date.
pub number_of-same :
    (c e : Civil)
    → IsDate c
    → IsDate e
    → number_of c ≡ number_of e
    → (c.year ≡ e.year) × (c.month ≡ e.month)
number_of-same c e v w h =
    let at = number-in_year c v in
    let at' = number-in_year e w in
    let years =
      same_year c.year e.year (in_year c) (in_year e) (omega (arith, h, at, at')) (in_year-fits c v)
        (in_year-fits e w) in
    let days : in_year c ≡ in_year e = same_rest years at at' h in (years, months years days v w)
  where
    same_rest :
        c.year ≡ e.year
        → number_of c ≡ year_start c.year + in_year c
        → number_of e ≡ year_start e.year + in_year e
        → number_of c ≡ number_of e
        → in_year c ≡ in_year e
    same_rest y a b h =
        let start : year_start c.year ≡ year_start e.year = ap year_start y in
        omega (arith, a, b, h, start)

    months : c.year ≡ e.year → in_year c ≡ in_year e → IsDate c → IsDate e → c.month ≡ e.month
    months y d (m, p, l) (n, q, k) =
        let ls = month_lengths (is_leap c.year) in
        let starts : days_before e.month (month_lengths (is_leap e.year)) ≡ days_before e.month ls =
          ap (λ z. days_before e.month (month_lengths (is_leap z))) (sym y) in
        let fits : length_at e.month (month_lengths (is_leap e.year)) ≡ length_at e.month ls =
          ap (λ z. length_at e.month (month_lengths (is_leap z))) (sym y) in
        same_month c.month e.month (c.day - 1) (e.day - 1) ls m n (omega (arith, d, starts))
          (omega (arith, p, l)) (omega (arith, q, k, fits))

-- The first of the next month.
abbrev first_after : Civil → Civil
first_after c =
    if ltb (suc c.month) 12
    then record { year = c.year; month = suc c.month; day = 1 }
    else record { year = suc c.year; month = 0; day = 1 }

first_day : (c : Civil) → (first_after c).day ≡ 1
first_day c = ground arith

length_at-positive :
    (m : ℕ) (ls : List ℕ) → All (λ l. 0 < l) ls → m < length ls → 0 < length_at m ls
length_at-positive m [] all h = absurd (omega (arith, h))
length_at-positive zero (l ∷ ls) all h = all.0
length_at-positive (suc m) (l ∷ ls) all h = length_at-positive m ls all.1 (omega (arith, h))

months_positive : (b : Bool) → All (λ l. 0 < l) (month_lengths b)
months_positive true = ground arith
months_positive false = ground arith

first_after-IsDate : (c : Civil) → IsDate (first_after c)
first_after-IsDate c = elim (Bool-cases (ltb (suc c.month) 12)) [
  | inl inside ↦
      let ls = month_lengths (is_leap c.year) in
      let some_days =
        length_at-positive (suc c.month) ls (months_positive (is_leap c.year))
          (ground (arith, inside)) in
      ground (arith, inside, some_days)
  | inr end ↦ ground (arith, end)
]

-- It is where the month ends.
number-first_after :
    (c : Civil)
    → IsDate c
    → (number_of (first_after c) ≡ month_start c.year (suc c.month))
      × (month_start c.year (suc c.month)
          ≡ month_start c.year c.month + length_at c.month (month_lengths (is_leap c.year)))
unfolding month_start
number-first_after c (m, p, d) = elim (Bool-cases (ltb (suc c.month) 12)) [
  | inl inside ↦
      let step = days_before-suc c.month (month_lengths (is_leap c.year)) m in
      (ground (arith, inside), ground (arith, inside, step, m))
  | inr end ↦
      let last : c.month ≡ 11 = ground (arith, end, m) in
      (ground (arith, end, last), rw last (ground arith))
]

-- A date that is not before the first of the month after another is in a month that starts after the other.
pub month_start-later :
    (c e : Civil)
    → IsDate c
    → IsDate e
    → month_start c.year (suc c.month) ≤ number_of e
    → month_start c.year (suc c.month) ≤ month_start e.year e.month
month_start-later c e v w h =
    elim (Bool-cases (ltb (month_start e.year e.month) (month_start c.year (suc c.month)))) [
      | inr fine ↦ ground (arith, fine)
      | inl early ↦
          let f = first_after c in
          let (at, _) = number-first_after c v in
          let x = month_start c.year (suc c.month) - month_start e.year e.month in
          let g : Civil = record { year = e.year; month = e.month; day = suc x } in
          let before : month_start e.year e.month < month_start c.year (suc c.month) =
            ground (arith, early) in
          let g_number : number_of g ≡ number_of f = omega (arith, at, before) in
          let g_date : IsDate g = (w.0, omega arith, omega (arith, w.1, w.2, h, before)) in
          let (years, months) = number_of-same g f g_date (first_after-IsDate c) g_number in
          let same : month_start e.year e.month ≡ month_start f.year f.month =
            (λ i. month_start (years i) (months i)) in
          absurd (omega (arith, at, same, before, first_day c))
    ]

-- The next month starts where the days of the month end.
pub number-month_end :
    (c : Civil)
    → IsDate c
    → month_start c.year (suc c.month)
      ≡ month_start c.year c.month + length_at c.month (month_lengths (is_leap c.year))
number-month_end c v = (number-first_after c v).1
