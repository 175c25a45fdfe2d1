-- ===== src/Splits.antt =====
-- autosave/splits.util.ts: how an amount is shared among goals.
pub mod Sums
use meal.Prelude.{ℕ, zero, suc, ◌+◌, List, [], ◌∷◌, map, if◌then◌else◌}
use meal.Prelude.Int.{ℤ, pos, ◌+ℤ◌, ◌-ℤ◌, ◌*ℤ◌, div_ℤ, ltb_ℤ, eqb_ℤ}

pub record GoalSplit : Type 0 where
  pub goal_id : ℕ
  pub percent : ℤ

pub record Allocation : Type 0 where
  pub goal_id : ℕ
  pub cents : ℤ

abbrev pub positive : List GoalSplit → List GoalSplit
positive [] = []
positive (s ∷ ss) = if ltb_ℤ (pos 0) s.percent then s ∷ positive ss else positive ss

abbrev pub total_percent : List GoalSplit → ℤ
total_percent [] = pos 0
total_percent (s ∷ ss) = s.percent +ℤ total_percent ss

-- `sort((a, b) => b.percent - a.percent)`, which is stable: the largest percentage first.
abbrev pub insert : GoalSplit → List GoalSplit → List GoalSplit
insert s [] = s ∷ []
insert s (t ∷ ts) = if ltb_ℤ s.percent t.percent then t ∷ insert s ts else s ∷ t ∷ ts

abbrev pub sort : List GoalSplit → List GoalSplit
sort [] = []
sort (s ∷ ss) = insert s (sort ss)

abbrev pub add_to_first : ℤ → List GoalSplit → List GoalSplit
add_to_first drift [] = []
add_to_first drift (s ∷ ss) = record s { percent = s.percent +ℤ drift } ∷ ss

-- The part of the total that a percentage is, as a whole percentage: the code computes it in floating
-- point, so it is any function here.
abbrev pub Scale : Type 0
Scale = ℤ → ℤ → ℤ

abbrev pub scaled : Scale → ℤ → List GoalSplit → List GoalSplit
scaled scale total [] = []
scaled scale total (s ∷ ss) = record s { percent = scale s.percent total } ∷ scaled scale total ss

abbrev pub correct : ℤ → List GoalSplit → List GoalSplit
correct drift ss = if eqb_ℤ drift (pos 0) then ss else add_to_first drift (sort ss)

abbrev pub rescale : Scale → List GoalSplit → List GoalSplit
rescale scale ss =
    let parts = scaled scale (total_percent ss) ss in
    if eqb_ℤ (total_percent ss) (pos 100)
    then ss
    else correct (pos 100 -ℤ total_percent parts) parts

unfoldable pub normalize_splits : Scale → List GoalSplit → List GoalSplit
normalize_splits scale ss = rescale scale (positive ss)

abbrev pub allocation : ℤ → GoalSplit → Allocation
allocation amount s = record { goal_id = s.goal_id; cents = div_ℤ (amount *ℤ s.percent) 100 }

abbrev pub sum_cents : List Allocation → ℤ
sum_cents [] = pos 0
sum_cents (a ∷ as') = a.cents +ℤ sum_cents as'

-- The loop for the index of the first largest percentage, from index i on.
abbrev pub largest_from : ℕ → ℤ → ℕ → List GoalSplit → ℕ
largest_from best percent i [] = best
largest_from best percent i (s ∷ ss) =
    if ltb_ℤ percent s.percent
    then largest_from i s.percent (i + 1) ss
    else largest_from best percent (i + 1) ss

abbrev pub add_at : ℕ → ℤ → List Allocation → List Allocation
add_at i x [] = []
add_at zero x (a ∷ as') = record a { cents = a.cents +ℤ x } ∷ as'
add_at (suc i) x (a ∷ as') = a ∷ add_at i x as'

unfoldable pub allocate_cents : ℤ → List GoalSplit → List Allocation
allocate_cents amount [] = []
allocate_cents amount (s ∷ ss) =
    let as' = map (allocation amount) (s ∷ ss) in
    let leftover = amount -ℤ sum_cents as' in
    if eqb_ℤ leftover (pos 0) then as' else add_at (largest_from 0 s.percent 1 ss) leftover as'
