-- ===== src/Bank/Flow.antt =====
-- How a method ends: the steps that only read, and where an error comes from.
use meal.Prelude.{◌≡◌, ◌⊎◌, inl, inr, refl, arith}
use meal.Bank.{Bank}
use meal.Bank.Action.{Action, Error, Result, ok, err, transaction, ◌>>=◌, ◌>>◌}

-- The step leaves this state as it is, however it ends.
abbrev pub Reads : {A : Type 0} → Action A → Bank → Type 0
Reads m b = (m b).1 ≡ b

Reads-at :
    {A B : Type 0} (m : Action A) (f : A → Action B) (b : Bank) (r : Result A)
    → m b ≡ (r, b)
    → ((a : A) → Reads (f a) b)
    → Reads (m >>= f) b
unfolding ◌>>=◌
Reads-at m f b (ok a) e h = ground (arith, e, h a)
Reads-at m f b (err x) e h = ground (arith, e)

pub >>=-Reads :
    {A B : Type 0} (m : Action A) (f : A → Action B) (b : Bank)
    → Reads m b
    → ((a : A) → Reads (f a) b)
    → Reads (m >>= f) b
>>=-Reads m f b h k = Reads-at m f b (m b).0 (λ i. ((m b).0, h i)) k

Reads-then :
    {A B : Type 0} (m : Action A) (k : Action B) (b : Bank) (r : Result A)
    → m b ≡ (r, b)
    → Reads k b
    → Reads (m >> k) b
unfolding ◌>>◌
Reads-then m k b (ok a) e h = ground (arith, e, h)
Reads-then m k b (err x) e h = ground (arith, e)

pub >>-Reads :
    {A B : Type 0} (m : Action A) (k : Action B) (b : Bank)
    → Reads m b
    → Reads k b
    → Reads (m >> k) b
>>-Reads m k b h g = Reads-then m k b (m b).0 (λ i. ((m b).0, h i)) g

-- A failed chain: the first step failed, or it went through and the rest failed.
abbrev pub Failure : {A B : Type 0} → Action A → (A → Action B) → Bank → Error → Bank → Type 0
Failure {A} m f b x b'' =
    (m b ≡ (err x, b'')) ⊎ ((a : A) × (b' : Bank) × (m b ≡ (ok a, b')) × (f a b' ≡ (err x, b'')))

fails_at :
    {A B : Type 0} (m : Action A) (f : A → Action B) (b : Bank) {x : Error} {b'' : Bank}
    (r : Result A) (b' : Bank)
    → m b ≡ (r, b')
    → (m >>= f) b ≡ (err x, b'')
    → Failure m f b x b''
unfolding ◌>>=◌
fails_at m f b (ok a) b' e h = inr (a, b', e, ground (arith, e, h))
fails_at m f b (err y) b' e h = inl (ground (arith, e, h))

pub >>=-err :
    {A B : Type 0} (m : Action A) (f : A → Action B) (b : Bank) {x : Error} {b'' : Bank}
    → (m >>= f) b ≡ (err x, b'')
    → Failure m f b x b''
>>=-err m f b h = fails_at m f b (m b).0 (m b).1 refl h

then_fails_at :
    {A B : Type 0} (m : Action A) (k : Action B) (b : Bank) {x : Error} {b'' : Bank} (r : Result A)
    (b' : Bank)
    → m b ≡ (r, b')
    → (m >> k) b ≡ (err x, b'')
    → Failure m (λ _. k) b x b''
unfolding ◌>>◌
then_fails_at m k b (ok a) b' e h = inr (a, b', e, ground (arith, e, h))
then_fails_at m k b (err y) b' e h = inl (ground (arith, e, h))

pub >>-err :
    {A B : Type 0} (m : Action A) (k : Action B) (b : Bank) {x : Error} {b'' : Bank}
    → (m >> k) b ≡ (err x, b'')
    → Failure m (λ _. k) b x b''
>>-err m k b h = then_fails_at m k b (m b).0 (m b).1 refl h

transaction_at :
    {A : Type 0} (m : Action A) (b : Bank) (r : Result A) (b' : Bank)
    → m b ≡ (r, b')
    → {x : Error} {b'' : Bank} → transaction m b ≡ (err x, b'')
    → b'' ≡ b
transaction_at m b (ok a) b' e h = ground (arith, e, h)
transaction_at m b (err y) b' e h = ground (arith, e, h)

-- A failed transaction is rolled back.
pub transaction-err :
    {A : Type 0} (m : Action A) (b : Bank) {x : Error} {b'' : Bank}
    → transaction m b ≡ (err x, b'')
    → b'' ≡ b
transaction-err m b h = transaction_at m b (m b).0 (m b).1 refl h

transaction_ok_at :
    {A : Type 0} (m : Action A) (b : Bank) (r : Result A) (b' : Bank)
    → m b ≡ (r, b')
    → {x : A} {b'' : Bank} → transaction m b ≡ (ok x, b'')
    → m b ≡ (ok x, b'')
transaction_ok_at m b (ok a) b' e h = ground (arith, e, h)
transaction_ok_at m b (err y) b' e h = ground (arith, e, h)

pub transaction-ok :
    {A : Type 0} (m : Action A) (b : Bank) {x : A} {b'' : Bank}
    → transaction m b ≡ (ok x, b'')
    → m b ≡ (ok x, b'')
transaction-ok m b h = transaction_ok_at m b (m b).0 (m b).1 refl h

-- If the step fails in this state, it has changed nothing.
abbrev pub Careful : {A : Type 0} → Action A → Bank → Type 0
Careful m b = (x : Error) (b'' : Bank) → m b ≡ (err x, b'') → b'' ≡ b

Careful-at :
    {A B : Type 0} (m : Action A) (f : A → Action B) (b : Bank) (r : Result A)
    → m b ≡ (r, b)
    → ((a : A) → Careful (f a) b)
    → Careful (m >>= f) b
unfolding ◌>>=◌
Careful-at m f b (ok a) e k x b'' h = k a x b'' (ground (arith, e, h))
Careful-at m f b (err y) e k x b'' h = ground (arith, e, h)

-- Steps that only read, and then a careful one.
pub >>=-Careful :
    {A B : Type 0} (m : Action A) (f : A → Action B) (b : Bank)
    → Reads m b
    → ((a : A) → Careful (f a) b)
    → Careful (m >>= f) b
>>=-Careful m f b same k = Careful-at m f b (m b).0 (λ i. ((m b).0, same i)) k

Careful-then :
    {A B : Type 0} (m : Action A) (k : Action B) (b : Bank) (r : Result A)
    → m b ≡ (r, b)
    → Careful k b
    → Careful (m >> k) b
unfolding ◌>>◌
Careful-then m k b (ok a) e c x b'' h = c x b'' (ground (arith, e, h))
Careful-then m k b (err y) e c x b'' h = ground (arith, e, h)

pub >>-Careful :
    {A B : Type 0} (m : Action A) (k : Action B) (b : Bank)
    → Reads m b
    → Careful k b
    → Careful (m >> k) b
>>-Careful m k b same c = Careful-then m k b (m b).0 (λ i. ((m b).0, same i)) c

-- How an action ended, with the state that it left.
abbrev pub Ended : {A : Type 0} → Action A → Bank → Type 0
Ended {A} m b = ((a : A) × (m b ≡ (ok a, (m b).1))) ⊎ ((x : Error) × (m b ≡ (err x, (m b).1)))

Ended-at :
    {A : Type 0} (m : Action A) (b : Bank) (r : Result A) (b' : Bank) → m b ≡ (r, b') → Ended m b
Ended-at m b (ok a) b' e = inl (a, ground (arith, e))
Ended-at m b (err x) b' e = inr (x, ground (arith, e))

pub Ended-of : {A : Type 0} (m : Action A) (b : Bank) → Ended m b
Ended-of m b = Ended-at m b (m b).0 (m b).1 refl
