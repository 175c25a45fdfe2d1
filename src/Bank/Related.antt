-- ===== src/Bank/Related.antt =====
-- A relation of the states before and after a step, through the combinators of the methods: it holds of
-- a method if it holds of each of its steps.
use meal.Prelude.{◌≡◌, refl, arith, Option, some}
use meal.Bank.{Bank}
use meal.Bank.Action.{Action, Error, Result, ok, err, transaction, gets, or_throw, ◌>>=◌, ◌>>◌}

module _ (R : Bank → Bank → Type 0) (same : (b : Bank) → R b b)
    (join : (b b' b'' : Bank) → R b b' → R b' b'' → R b b'') where
  bind_at :
      {A B : Type 0} (m : Action A) (f : A → Action B) (b : Bank) (r : Result A) (b' : Bank)
      → m b ≡ (r, b')
      → R b b'
      → ((a : A) → r ≡ ok a → R b' (f a b').1)
      → R b ((m >>= f) b).1
  unfolding ◌>>=◌
  bind_at m f b (ok a) b' e k h =
      let to : (m >>= f) b ≡ f a b' = ground (arith, e) in rw to (join b b' (f a b').1 k (h a refl))
  bind_at m f b (err x) b' e k h = let to : (m >>= f) b ≡ (err x, b') = ground (arith, e) in rw to k

  pub >>=-related :
      {A B : Type 0} (m : Action A) (f : A → Action B) (b : Bank)
      → R b (m b).1
      → ((a : A) → (m b).0 ≡ ok a → R (m b).1 (f a (m b).1).1)
      → R b ((m >>= f) b).1
  >>=-related m f b k h = bind_at m f b (m b).0 (m b).1 refl k h

  then_at :
      {A B : Type 0} (m : Action A) (n : Action B) (b : Bank) (r : Result A) (b' : Bank)
      → m b ≡ (r, b')
      → R b b'
      → R b' (n b').1
      → R b ((m >> n) b).1
  unfolding ◌>>◌
  then_at m n b (ok a) b' e k h =
      let to : (m >> n) b ≡ n b' = ground (arith, e) in rw to (join b b' (n b').1 k h)
  then_at m n b (err x) b' e k h = let to : (m >> n) b ≡ (err x, b') = ground (arith, e) in rw to k

  pub >>-related :
      {A B : Type 0} (m : Action A) (n : Action B) (b : Bank)
      → R b (m b).1
      → R (m b).1 (n (m b).1).1
      → R b ((m >> n) b).1
  >>-related m n b k h = then_at m n b (m b).0 (m b).1 refl k h

  related_at :
      {A : Type 0} (m : Action A) (b : Bank) (r : Result A) (b' : Bank)
      → m b ≡ (r, b')
      → ((a : A) → r ≡ ok a → R b b')
      → R b (transaction m b).1
  related_at m b (ok a) b' e h =
      let to : transaction m b ≡ (ok a, b') = ground (arith, e) in rw to (h a refl)
  related_at m b (err x) b' e h =
      let to : transaction m b ≡ (err x, b) = ground (arith, e) in rw to (same b)

  -- For a transaction it is enough that the relation holds where it goes through.
  pub transaction-related :
      {A : Type 0} (m : Action A) (b : Bank)
      → ((a : A) (b' : Bank) → m b ≡ (ok a, b') → R b b')
      → R b (transaction m b).1
  transaction-related m b h =
      related_at m b (m b).0 (m b).1 refl (λ a e. h a (m b).1 (λ i. (e i, (m b).1)))

  pub found-related :
      {A B : Type 0} (f : Bank → Option A) (e : Error) (n : A → Action B) (b : Bank)
      → ((a : A) → f b ≡ some a → R b (n a b).1)
      → R b ((gets f >>= (λ o. or_throw o e >>= n)) b).1
  found-related f e n b h =
      >>=-related _ _ b (same b)
        (λ o eo. >>=-related _ _ b (same b) (λ a ea. h a (ground (arith, eo, ea))))
