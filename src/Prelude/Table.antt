-- ===== src/Prelude/Table.antt =====
-- A database table as the list of its rows, read and updated by a numeric key (a uuid).
use mathlib.Core.Option
use meal.Prelude.{
  ℕ, suc, ◌≡◌, ◌≤◌, inl, inr, Bool, true, Option, none, some, List, [], ◌∷◌, All, arith, ◌==◌,
  if◌then◌else◌, Bool-cases, subst,
}

module _ {ℓ} {A : Type ℓ} (key : A → ℕ) where
  -- The row with a key: `findUnique`.
  abbrev pub find : ℕ → List A → Option A
  find k [] = none
  find k (r ∷ rows) = if key r == k then some r else find k rows

  -- Changes the row with a key, if there is one.
  abbrev pub modify : ℕ → (A → A) → List A → List A
  modify k f [] = []
  modify k f (r ∷ rows) = if key r == k then f r ∷ rows else r ∷ modify k f rows

  pub find-modify :
      (j k : ℕ) (f : A → A) (rows : List A)
      → ((r : A) → key (f r) ≡ key r)
      → find j (modify k f rows) ≡ (if j == k then Option.map f (find j rows) else find j rows)
  find-modify j k f [] h = ground arith
  find-modify j k f (r ∷ rows) h = ground (arith, h r, find-modify j k f rows h)

  -- A row is found under its own key.
  pub find-key : (k : ℕ) (rows : List A) (r : A) → find k rows ≡ some r → key r ≡ k
  find-key k [] r h = ground arith
  find-key k (x ∷ rows) r h = ground (arith, find-key k rows r)

module _ {ℓ} {A : Type ℓ} (test : A → Bool) where
  -- The rows of a `where`: `findMany`.
  abbrev pub select : List A → List A
  select [] = []
  select (r ∷ rows) = if test r then r ∷ select rows else select rows

  -- `updateMany`.
  abbrev pub update_where : (A → A) → List A → List A
  update_where f [] = []
  update_where f (r ∷ rows) = (if test r then f r else r) ∷ update_where f rows

  -- `deleteMany`.
  abbrev pub delete_where : List A → List A
  delete_where [] = []
  delete_where (r ∷ rows) = if test r then delete_where rows else r ∷ delete_where rows

  abbrev pub count : List A → ℕ
  count [] = 0
  count (r ∷ rows) = if test r then suc (count rows) else count rows

  -- The first row of a `where`: `findFirst`.
  abbrev pub find_first : List A → Option A
  find_first [] = none
  find_first (r ∷ rows) = if test r then some r else find_first rows

-- Rows that stop passing the first test are not counted, and no others come in.
pub count-update_where {ℓ} :
    {A : Type ℓ} (p test : A → Bool) (f : A → A) (rows : List A)
    → ((r : A) → p (f r) ≡ true → p r ≡ true)
    → count p (update_where test f rows) ≤ count p rows
count-update_where p test f [] h = omega arith
count-update_where p test f (r ∷ rows) h =
    let rest = count-update_where p test f rows h in ground (arith, h r, rest)

pub count-modify {ℓ} :
    {A : Type ℓ} (p : A → Bool) (key : A → ℕ) (k : ℕ) (f : A → A) (rows : List A)
    → ((r : A) → p (f r) ≡ true → p r ≡ true)
    → count p (modify key k f rows) ≤ count p rows
count-modify p key k f [] h = omega arith
count-modify p key k f (r ∷ rows) h =
    let rest = count-modify p key k f rows h in ground (arith, h r, rest)

pub count-delete_where {ℓ} :
    {A : Type ℓ} (p test : A → Bool) (rows : List A)
    → count p (delete_where test rows) ≤ count p rows
count-delete_where p test [] = omega arith
count-delete_where p test (r ∷ rows) =
    let rest = count-delete_where p test rows in ground (arith, rest)

pub find-update_where {ℓ} :
    {A : Type ℓ} (key : A → ℕ) (k : ℕ) (test : A → Bool) (f : A → A) (rows : List A)
    → ((r : A) → key (f r) ≡ key r)
    → find key k (update_where test f rows)
      ≡ Option.map (λ r. if test r then f r else r) (find key k rows)
find-update_where key k test f [] h = ground arith
find-update_where key k test f (r ∷ rows) h =
    ground (arith, h r, find-update_where key k test f rows h)

-- A changed row passes, if the row that is found does.
pub All-modify {ℓ κ} :
    {A : Type ℓ} (P : A → Type κ) (key : A → ℕ) (k : ℕ) (f : A → A) (x : A) (rows : List A)
    → find key k rows ≡ some x
    → P (f x)
    → All P rows
    → All P (modify key k f rows)
All-modify P key k f x [] e h all = tt
All-modify P key k f x (r ∷ rows) e h all = elim (Bool-cases (key r == k)) [
  | inl here ↦ let same : r ≡ x = ground (arith, e, here) in rw (here, same) (h, all.1)
  | inr there ↦
      let rest : find key k rows ≡ some x = ground (arith, e, there) in
      rw there (all.0, All-modify P key k f x rows rest h all.1)
]

pub All-delete_where {ℓ κ} :
    {A : Type ℓ} (P : A → Type κ) (test : A → Bool) (rows : List A)
    → All P rows
    → All P (delete_where test rows)
All-delete_where P test [] all = tt
All-delete_where P test (r ∷ rows) all =
    let rest = All-delete_where P test rows all.1 in
    elim (Bool-cases (test r)) [ inl out ↦ rw out rest | inr kept ↦ rw kept (all.0, rest) ]

pub All-modify_any {ℓ κ} :
    {A : Type ℓ} (P : A → Type κ) (key : A → ℕ) (k : ℕ) (f : A → A) (rows : List A)
    → ((r : A) → P (f r))
    → All P rows
    → All P (modify key k f rows)
All-modify_any P key k f [] h all = tt
All-modify_any P key k f (r ∷ rows) h all = elim (Bool-cases (key r == k)) [
  | inl here ↦ rw here (h r, all.1)
  | inr there ↦ rw there (all.0, All-modify_any P key k f rows h all.1)
]

pub All-find {ℓ κ} :
    {A : Type ℓ} (P : A → Type κ) (key : A → ℕ) (k : ℕ) (x : A) (rows : List A)
    → find key k rows ≡ some x
    → All P rows
    → P x
All-find P key k x [] e all = ground (arith, e)
All-find P key k x (r ∷ rows) e all = elim (Bool-cases (key r == k)) [
  | inl here ↦ let same : r ≡ x = ground (arith, e, here) in subst P same all.0
  | inr there ↦ All-find P key k x rows (ground (arith, e, there)) all.1
]
