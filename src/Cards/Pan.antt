-- ===== src/Cards/Pan.antt =====
-- cards/card-pan.util.ts: the card number and its check digit. A number is the list of its digits.
use meal.Prelude.{
  ℕ, ◌+◌, ◌-◌, ◌*◌, ◌%◌, ◌≡◌, refl, Bool, true, false, not, ◌&&◌, Option, none, some, List, [], ◌∷◌,
  ◌++◌, length, arith, leb, ◌==◌, if◌then◌else◌, ap,
}

abbrev pub doubled_digit : Bool → ℕ → ℕ
doubled_digit false d = d
doubled_digit true d = if leb (d * 2) 9 then d * 2 else d * 2 - 9

abbrev pub reverse_digits : List ℕ → List ℕ → List ℕ
reverse_digits acc [] = acc
reverse_digits acc (d ∷ ds) = reverse_digits (d ∷ acc) ds

-- The loop from the last digit to the first, which doubles every other one.
abbrev pub luhn_sum : Bool → List ℕ → ℕ
luhn_sum doubled [] = 0
luhn_sum doubled (d ∷ ds) = doubled_digit doubled d + luhn_sum (not doubled) ds

unfoldable pub luhn_check_digit : List ℕ → ℕ
luhn_check_digit partial = (10 - luhn_sum true (reverse_digits [] partial) % 10) % 10

abbrev pub all_digits : List ℕ → Bool
all_digits [] = true
all_digits (d ∷ ds) = leb d 9 && all_digits ds

-- `body` holds the nine random digits; `none` is the error on a BIN that is not six digits.
unfoldable pub generate_pan : List ℕ → List ℕ → Option (List ℕ)
generate_pan bin body =
    if length bin == 6 && all_digits bin
    then some (bin ++ body ++ luhn_check_digit (bin ++ body) ∷ [])
    else none

-- The test of a full number that the industry defines: from the last digit, which is not doubled, the
-- sum is a multiple of ten.
abbrev pub passes_luhn : List ℕ → Bool
passes_luhn pan = luhn_sum false (reverse_digits [] pan) % 10 == 0

reverse_digits-++ :
    (acc xs : List ℕ) (d : ℕ) → reverse_digits acc (xs ++ d ∷ []) ≡ d ∷ reverse_digits acc xs
reverse_digits-++ acc [] d = refl
reverse_digits-++ acc (x ∷ xs) d = reverse_digits-++ (x ∷ acc) xs d

check_digit-passes_luhn : (xs : List ℕ) → passes_luhn (xs ++ luhn_check_digit xs ∷ []) ≡ true
unfolding luhn_check_digit
check_digit-passes_luhn xs = rw (reverse_digits-++ [] xs (luhn_check_digit xs)) (ground arith)

++_assoc : (xs ys zs : List ℕ) → (xs ++ ys) ++ zs ≡ xs ++ ys ++ zs
++_assoc [] ys zs = refl
++_assoc (x ∷ xs) ys zs = ap (λ t. x ∷ t) (++_assoc xs ys zs)

-- Every card number that is generated passes the Luhn test.
pub generate_pan-passes_luhn :
    (bin body pan : List ℕ) → generate_pan bin body ≡ some pan → passes_luhn pan ≡ true
unfolding generate_pan
generate_pan-passes_luhn bin body pan h =
    let same : bin ++ body ++ luhn_check_digit (bin ++ body) ∷ [] ≡ pan = ground (arith, h) in
    rw (← same, ← ++_assoc bin body (luhn_check_digit (bin ++ body) ∷ []))
      (check_digit-passes_luhn (bin ++ body))
