-- ===== src/Recurring/Calendar.antt =====
-- The UTC calendar of JavaScript's Date, from 1970 on: what computeNextRunAt asks of it
-- (recurring-transfers/recurring-transfers.service.ts). A year is counted from 1970, a month from 0, a
-- day of the month from 1, a day from the first one.
use meal.Prelude.{
  ℕ, zero, suc, ◌+◌, ◌-◌, ◌%◌, ◌≡◌, ◌≤◌, ◌<◌, inl, inr, refl, Bool, not, ◌&&◌, ◌||◌, List, [], ◌∷◌,
  length, arith, ltb, ◌==◌, if◌then◌else◌, Bool-cases,
}

abbrev pub day_ms : ℕ
day_ms = 86400000

abbrev pub divides : ℕ → ℕ → Bool
divides k n = n % k == 0

abbrev pub is_leap : ℕ → Bool
is_leap y = let year = 1970 + y in (divides 4 year && not (divides 100 year)) || divides 400 year

abbrev pub february : Bool → ℕ
february leap = if leap then 29 else 28

abbrev pub month_lengths : Bool → List ℕ
month_lengths leap = 31 ∷ february leap ∷ 31 ∷ 30 ∷ 31 ∷ 30 ∷ 31 ∷ 31 ∷ 30 ∷ 31 ∷ 30 ∷ 31 ∷ []

abbrev pub year_length : ℕ → ℕ
year_length y = if is_leap y then 366 else 365

-- The first day of a year.
abbrev pub year_start : ℕ → ℕ
year_start zero = 0
year_start (suc y) = year_start y + year_length y

-- The days of the first months of a list.
abbrev pub days_before : ℕ → List ℕ → ℕ
days_before zero ms = 0
days_before (suc m) [] = 0
days_before (suc m) (l ∷ ls) = l + days_before m ls

-- The first day of a month; the month after December is January of the next year.
unfoldable pub month_start : (year month : ℕ) → ℕ
month_start y m =
    if ltb m 12
    then year_start y + days_before m (month_lengths (is_leap y))
    else year_start (suc y) + days_before (m - 12) (month_lengths (is_leap (suc y)))

pub record Civil : Type 0 where
  pub year : ℕ
  pub month : ℕ
  pub day : ℕ

-- The month of a day of the year, by the lengths of the months that are left.
abbrev pub split_month : ℕ → List ℕ → ℕ → ℕ × ℕ
split_month m [] n = (m, n)
split_month m (l ∷ ls) n =
    let later = split_month (suc m) ls (n - l) in if ltb n l then (m, n) else later

-- The year of a day, and the day in it, by at most `fuel` years.
abbrev pub split_year : (fuel year day : ℕ) → ℕ × ℕ
split_year zero y n = (y, n)
split_year (suc fuel) y n =
    let later = split_year fuel (suc y) (n - year_length y) in
    if ltb n (year_length y) then (y, n) else later

-- The year, month and day of the month of a day; no day is more than `n` years after 1970.
unfoldable pub civil : ℕ → Civil
civil n =
    let (y, in_year) = split_year n 0 n in
    let (m, in_month) = split_month 0 (month_lengths (is_leap y)) in_year in
    record { year = y; month = m; day = suc in_month }

-- The first of January 1970 was a Thursday; Sunday is 0.
abbrev pub week_day : ℕ → ℕ
week_day n = (n + 4) % 7

split_year-start :
    (fuel y n : ℕ) → let (z, r) = split_year fuel y n in year_start z + r ≡ year_start y + n
split_year-start zero y n = refl
split_year-start (suc fuel) y n =
    let later = split_year-start fuel (suc y) (n - year_length y) in ground (arith, later)

-- With as much fuel as days, the search ends in the year of the day.
split_year-ends : (fuel y n : ℕ) → n ≤ fuel → let (z, r) = split_year fuel y n in r < year_length z
split_year-ends zero y n h = ground (arith, h)
split_year-ends (suc fuel) y n h =
    let later = split_year-ends fuel (suc y) (n - year_length y) in ground (arith, later, h)

abbrev pub total_days : List ℕ → ℕ
total_days [] = 0
total_days (l ∷ ls) = l + total_days ls

-- The length of a month of a list, by its index.
abbrev pub length_at : ℕ → List ℕ → ℕ
length_at m [] = 0
length_at zero (l ∷ ls) = l
length_at (suc m) (l ∷ ls) = length_at m ls

split_month-in :
    (m : ℕ) (ls : List ℕ) (n : ℕ)
    → n < total_days ls
    → let (k, r) = split_month m ls n in
      (m ≤ k) × (k < m + length ls) × (days_before (k - m) ls + r ≡ n) × (r < length_at (k - m) ls)
split_month-in m [] n h = omega (arith, h)
split_month-in m (l ∷ ls) n h = elim (Bool-cases (ltb n l)) [
  | inl here ↦ ground (arith, here)
  | inr later ↦
      let (lo, hi, at, fits) = split_month-in (suc m) ls (n - l) (ground (arith, h, later)) in
      let k = (split_month (suc m) ls (n - l)).0 in
      let e : k - m ≡ suc (k - suc m) = omega (arith, lo) in
      ground (arith, later, lo, hi, at, fits, e)
]

-- The number of a date, from the first day of its month.
abbrev pub number_of : Civil → ℕ
number_of c = month_start c.year c.month + (c.day - 1)

pub year_days : (y : ℕ) → total_days (month_lengths (is_leap y)) ≡ year_length y
year_days y = ground arith

-- The search for the year of a day ends within as many years as days, and what it gives is a date of the
-- calendar, with a month of the year and a day of that month, whose number is the day.
pub civil-number_of :
    (n : ℕ)
    → let c = civil n in
      (number_of c ≡ n)
      × (c.month < 12)
      × (0 < c.day)
      × (c.day ≤ length_at c.month (month_lengths (is_leap c.year)))
unfolding civil month_start
civil-number_of n =
    let (y, r) = split_year n 0 n in
    let start = split_year-start n 0 n in
    let ends = split_year-ends n 0 n (omega arith) in
    let days = year_days y in
    let (lo, hi, at, fits) = split_month-in 0 (month_lengths (is_leap y)) r (rw days ends) in
    ground (arith, start, lo, hi, at, fits)

-- A later year starts after the end of an earlier one.
year_start-later : (y z : ℕ) → y < z → year_start y + year_length y ≤ year_start z
year_start-later y zero h = absurd (omega (arith, h))
year_start-later y (suc z) h = elim (Bool-cases (y == z)) [
  | inl at ↦ let e : y ≡ z = ground (arith, at) in rw e (omega arith)
  | inr before ↦ let rest = year_start-later y z (ground (arith, h, before)) in omega (arith, rest)
]

-- A day is in one year.
pub same_year :
    (y z r q : ℕ)
    → year_start y + r ≡ year_start z + q
    → r < year_length y
    → q < year_length z
    → y ≡ z
same_year y z r q e h k = elim (Bool-cases (ltb y z)) [
  | inl before ↦
      let later = year_start-later y z (ground (arith, before)) in
      absurd (omega (arith, later, e, h))
  | inr not_before ↦ elim (Bool-cases (ltb z y)) [
    | inl after ↦
        let later = year_start-later z y (ground (arith, after)) in
        absurd (omega (arith, later, e, k))
    | inr not_after ↦ ground (arith, not_before, not_after)
  ]
]

-- A later month starts after the end of an earlier one.
days_before-later :
    (m n : ℕ) (ls : List ℕ)
    → m < n
    → n ≤ length ls
    → days_before m ls + length_at m ls ≤ days_before n ls
days_before-later m n [] h k = absurd (omega (arith, h, k))
days_before-later m zero (l ∷ ls) h k = absurd (omega (arith, h))
days_before-later zero (suc n) (l ∷ ls) h k = omega arith
days_before-later (suc m) (suc n) (l ∷ ls) h k =
    let rest = days_before-later m n ls (omega (arith, h)) (omega (arith, k)) in omega (arith, rest)

-- A day of the year is in one month.
pub same_month :
    (m n r q : ℕ) (ls : List ℕ)
    → m < length ls
    → n < length ls
    → days_before m ls + r ≡ days_before n ls + q
    → r < length_at m ls
    → q < length_at n ls
    → m ≡ n
same_month m n r q ls i j e h k = elim (Bool-cases (ltb m n)) [
  | inl before ↦
      let later = days_before-later m n ls (ground (arith, before)) (omega (arith, j)) in
      absurd (omega (arith, later, e, h))
  | inr not_before ↦ elim (Bool-cases (ltb n m)) [
    | inl after ↦
        let later = days_before-later n m ls (ground (arith, after)) (omega (arith, i)) in
        absurd (omega (arith, later, e, k))
    | inr not_after ↦ ground (arith, not_before, not_after)
  ]
]
