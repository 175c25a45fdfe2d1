-- ===== src/Books/Combine.antt =====
-- The rules of the books through the combinators of the methods.
use meal.Prelude.{◌≡◌, refl, Option, some, Bool, ℕ, Option-cases, inl, inr}
use meal.Bank.{Bank, Transfer}
use meal.Bank.Action.{Action, Error, ok, transaction, gets, or_throw, throw_if, ◌>>=◌, ◌>>◌}
use meal.Bank.Flow.{Reads}
use meal.Bank.Related.{>>=-related, >>-related, transaction-related, found-related}
use meal.Transfers.Rows.{update_transfer, transfer_of}
use meal.Books.Rules.{Keeps, Keeps-trans, Keeps-same, Keeps-modify, IsHarmless}

-- The step keeps the books from this state on, however it ends.
abbrev pub KeptBy : {A : Type 0} → Action A → Bank → Type 0
KeptBy m b = Keeps b (m b).1

pub Keeps-refl : (b : Bank) → Keeps b b
Keeps-refl b = Keeps-same b b refl refl refl refl

pub Reads-KeptBy : {A : Type 0} (m : Action A) (b : Bank) → Reads m b → KeptBy m b
Reads-KeptBy m b r = rw r (Keeps-refl b)

pub >>=-KeptBy :
    {A B : Type 0} (m : Action A) (f : A → Action B) (b : Bank)
    → KeptBy m b
    → ((a : A) → (m b).0 ≡ ok a → KeptBy (f a) (m b).1)
    → KeptBy (m >>= f) b
>>=-KeptBy = >>=-related Keeps Keeps-refl Keeps-trans

pub >>-KeptBy :
    {A B : Type 0} (m : Action A) (n : Action B) (b : Bank)
    → KeptBy m b
    → KeptBy n (m b).1
    → KeptBy (m >> n) b
>>-KeptBy = >>-related Keeps Keeps-refl Keeps-trans

-- A transaction keeps the books if it does so where it goes through.
pub transaction-KeptBy :
    {A : Type 0} (m : Action A) (b : Bank)
    → ((a : A) (b' : Bank) → m b ≡ (ok a, b') → Keeps b b')
    → KeptBy (transaction m) b
transaction-KeptBy = transaction-related Keeps Keeps-refl Keeps-trans

pub found-KeptBy :
    {A B : Type 0} (f : Bank → Option A) (e : Error) (n : A → Action B) (b : Bank)
    → ((a : A) → f b ≡ some a → KeptBy (n a) b)
    → KeptBy (gets f >>= (λ o. or_throw o e >>= n)) b
found-KeptBy = found-related Keeps Keeps-refl Keeps-trans

pub guard-KeptBy :
    {B : Type 0} (c : Bool) (e : Error) (n : Action B) (b : Bank)
    → KeptBy n b
    → KeptBy (throw_if c e >> n) b
guard-KeptBy c e n b h = >>-KeptBy _ _ b (Keeps-refl b) h

-- A change of a transfer's row that leaves amounts and fees alone.
pub update_transfer-KeptBy :
    (k : ℕ) (f : Transfer → Transfer) (b : Bank) → IsHarmless f → KeptBy (update_transfer k f) b
unfolding update_transfer ◌>>=◌ ◌>>◌
update_transfer-KeptBy k f b h = elim (Option-cases (transfer_of k b)) [
  | inl e ↦ rw e (Keeps-refl b)
  | inr (t, e) ↦ rw e (Keeps-modify k f b h)
]
