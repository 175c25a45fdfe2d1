-- ===== src/Splits/Sums.antt =====
-- Nothing is lost in the sharing.
use meal.Prelude.{
  ℕ, zero, suc, ◌+◌, ◌≡◌, ◌≢◌, ◌<◌, refl, List, [], ◌∷◌, map, length, arith, inl, inr, Bool-cases,
  ◌∙◌,
}
use meal.Prelude.Int.{ℤ, pos, ◌+ℤ◌, ◌-ℤ◌, eqb_ℤ, eq_of_eqb, int_laws}
use meal.Splits.{
  GoalSplit, Allocation, positive, total_percent, insert, sort, add_to_first, Scale, scaled,
  correct, rescale, normalize_splits, allocation, sum_cents, largest_from, add_at, allocate_cents,
}

insert-total :
    (s : GoalSplit) (ss : List GoalSplit)
    → total_percent (insert s ss) ≡ s.percent +ℤ total_percent ss
insert-total s [] = refl
insert-total s (t ∷ ts) = grind (int_laws, insert-total s ts)

sort-total : (ss : List GoalSplit) → total_percent (sort ss) ≡ total_percent ss
sort-total [] = refl
sort-total (s ∷ ss) = grind (int_laws, insert-total s (sort ss), sort-total ss)

insert_nonempty : (s : GoalSplit) (ss : List GoalSplit) → insert s ss ≢ []
insert_nonempty s [] = λ e. ground arith
insert_nonempty s (t ∷ ts) = λ e. ground arith

add_to_first-total :
    (d : ℤ) (ss : List GoalSplit)
    → ss ≢ []
    → total_percent (add_to_first d ss) ≡ total_percent ss +ℤ d
add_to_first-total d [] ne = ground (arith, ne refl)
add_to_first-total d (s ∷ ss) ne = grind int_laws

correct-total :
    (s : GoalSplit) (ss : List GoalSplit)
    → total_percent (correct (pos 100 -ℤ total_percent (s ∷ ss)) (s ∷ ss)) ≡ pos 100
correct-total s ss =
    let d = pos 100 -ℤ total_percent (s ∷ ss) in
    let sum = add_to_first-total d (sort (s ∷ ss)) (insert_nonempty s (sort ss)) in
    elim (Bool-cases (eqb_ℤ d (pos 0))) [
      | inl zero_drift ↦ rw zero_drift (grind (int_laws, eq_of_eqb d (pos 0) zero_drift))
      | inr other ↦ rw other (grind (int_laws, sum, sort-total (s ∷ ss)))
    ]

rescale-total :
    (scale : Scale) (ss : List GoalSplit) → ss ≢ [] → total_percent (rescale scale ss) ≡ pos 100
rescale-total scale [] ne = ground (arith, ne refl)
rescale-total scale (s ∷ ss) ne = elim (Bool-cases (eqb_ℤ (total_percent (s ∷ ss)) (pos 100))) [
  | inl exact ↦ rw exact (eq_of_eqb (total_percent (s ∷ ss)) (pos 100) exact)
  | inr other ↦ rw other (
      correct-total (record s { percent = scale s.percent (total_percent (s ∷ ss)) })
        (scaled scale (total_percent (s ∷ ss)) ss))
]

-- The percentages after normalizeSplits are 100 together, however the code rounds, if one of the
-- percentages before was positive.
pub normalize_splits-total_percent :
    (scale : Scale) (ss : List GoalSplit)
    → positive ss ≢ []
    → total_percent (normalize_splits scale ss) ≡ pos 100
unfolding normalize_splits
normalize_splits-total_percent scale ss ne = rescale-total scale (positive ss) ne

largest_from-lt :
    (best : ℕ) (p : ℤ) (i : ℕ) (ss : List GoalSplit)
    → best < i
    → largest_from best p i ss < i + length ss
largest_from-lt best p i [] h = omega arith
largest_from-lt best p i (s ∷ ss) h = ground (
  arith,
  largest_from-lt i s.percent (i + 1) ss (omega arith),
  largest_from-lt best p (i + 1) ss (omega arith),
)

add_at-sum :
    (i : ℕ) (x : ℤ) (xs : List Allocation)
    → i < length xs
    → sum_cents (add_at i x xs) ≡ sum_cents xs +ℤ x
add_at-sum i x [] h = ground arith
add_at-sum zero x (a ∷ xs) h = grind int_laws
add_at-sum (suc i) x (a ∷ xs) h = grind (int_laws, add_at-sum i x xs (omega arith))

length-map : (amount : ℤ) (ss : List GoalSplit) → length (map (allocation amount) ss) ≡ length ss
length-map amount [] = refl
length-map amount (s ∷ ss) = ground (arith, length-map amount ss)

-- The cents that allocateCents hands out are the amount, to the cent, if there is a goal at all.
pub allocate_cents-sum_cents :
    (amount : ℤ) (ss : List GoalSplit) → ss ≢ [] → sum_cents (allocate_cents amount ss) ≡ amount
unfolding allocate_cents
allocate_cents-sum_cents amount [] ne = ground (arith, ne refl)
allocate_cents-sum_cents amount (s ∷ ss) ne =
    let xs = map (allocation amount) (s ∷ ss) in
    let left = amount -ℤ sum_cents xs in
    let i = largest_from 0 s.percent 1 ss in
    let within : i < length xs =
      ground (arith, largest_from-lt 0 s.percent 1 ss (omega arith), length-map amount ss) in
    elim (Bool-cases (eqb_ℤ left (pos 0))) [
      | inl even ↦ rw even (grind (int_laws, eq_of_eqb left (pos 0) even))
      | inr odd ↦ rw odd (add_at-sum i left xs within ∙ grind int_laws)
    ]
