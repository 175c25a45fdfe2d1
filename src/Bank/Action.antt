-- ===== src/Bank/Action.antt =====
-- A service method: it reads and writes the bank's state, and may throw. What was written before a
-- throw stays written, except inside `$transaction`, which rolls back.
use meal.Prelude.{◌≡◌, refl, Bool, false, Option, none, some, ◌∷◌, arith, if◌then◌else◌}
use meal.Bank.{Bank, Event}

-- The exceptions that the methods throw, by message; the last two come from the database.
pub data Error : Type 0 where
  idempotency_key_required transfers_disabled key_of_other_user : Error
  invalid_transfer wire_details_required wire_details_incomplete beneficiary_not_found : Error
  source_not_found not_your_account source_not_active : Error
  to_account_required destination_not_found cross_user_internal : Error
  insufficient_funds unsupported_currency : Error
  too_few_postings unbalanced_journal unknown_ledger_account : Error
  sender_vanished destination_vanished : Error
  reason_required transfer_not_found not_flagged already_reviewed : Error
  only_wire_out already_reversed : Error
  request_not_found request_not_pending request_expired requester_without_checking : Error
  image_required image_type_refused image_too_big amount_not_positive amount_over_limit : Error
  no_checking_account storage_failed : Error
  deposit_not_found deposit_not_pending deposit_account_missing : Error
  iban_invalid swift_invalid iban_required country_required beneficiary_missing : Error
  record_not_found unique_violation : Error

pub data Result {ℓ} (A : Type ℓ) : Type ℓ where
  ok : A → Result A
  err : Error → Result A

abbrev pub Action : Type 0 → Type 0
Action A = Bank → Result A × Bank

module _ {A : Type 0} where
  abbrev pub pure : A → Action A
  pure a b = (ok a, b)

  abbrev pub throw : Error → Action A
  throw e b = (err e, b)

  abbrev pub gets : (Bank → A) → Action A
  gets f b = (ok (f b), b)

  abbrev pub lift : Result A → Action A
  lift r b = (r, b)

  abbrev pub or_throw : Option A → Error → Action A
  or_throw o e b = (elim o [ none ↦ err e | some a ↦ ok a ], b)

-- One step after another, with the state that the first one leaves; a throw ends the chain.
infixl 5 ◌>>=◌ ◌>>◌
unfoldable pub ◌>>=◌ : {A B : Type 0} (first : Action A) (next : A → Action B) → Action B
(first >>= next) b =
    let (outcome, now) = first b in elim outcome [ err e ↦ (err e, now) | ok a ↦ next a now ]

unfoldable pub ◌>>◌ : {A B : Type 0} (first : Action A) (next : Action B) → Action B
(first >> next) b =
    let (outcome, now) = first b in elim outcome [ err e ↦ (err e, now) | ok a ↦ next now ]

abbrev pub throw_if : Bool → Error → Action (Unit {0})
throw_if c e b = (if c then err e else ok tt, b)

abbrev pub modify_bank : (Bank → Bank) → Action (Unit {0})
modify_bank f b = (ok tt, f b)

-- `prisma.$transaction`: all or nothing.
abbrev pub transaction : {A : Type 0} → Action A → Action A
transaction m b = let (r, b') = m b in elim r [ ok a ↦ (ok a, b') | err e ↦ (err e, b) ]

abbrev pub emit : Event → Action (Unit {0})
emit e b = (ok tt, record b { events = e ∷ b.events })

-- An error that is logged and dropped: `catch` with a warning, or `void`.
abbrev pub best_effort : Action (Unit {0}) → Action (Unit {0})
best_effort m b = (ok tt, (m b).1)

-- A successful chain, taken apart: the value and the state between the two steps.
abbrev pub Split : {A B : Type 0} → Action A → (A → Action B) → Bank → B → Bank → Type 0
Split {A} m f b x b'' = (a : A) × (b' : Bank) × (m b ≡ (ok a, b')) × (f a b' ≡ (ok x, b''))

continue_with : {A B : Type 0} → (A → Action B) → Result A → Bank → Result B × Bank
continue_with f (ok a) b = f a b
continue_with f (err e) b = (err e, b)

Split-at :
    {A B : Type 0} (m : Action A) (f : A → Action B) (b : Bank) {x : B} {b'' : Bank} (r : Result A)
    (b' : Bank)
    → m b ≡ (r, b')
    → continue_with f r b' ≡ (ok x, b'')
    → Split m f b x b''
unfolding continue_with
Split-at m f b (ok a) b' e h = (a, b', e, h)
Split-at m f b (err x) b' e h = cc

pub >>=-ok :
    {A B : Type 0} (m : Action A) (f : A → Action B) (b : Bank) {x : B} {b'' : Bank}
    → (m >>= f) b ≡ (ok x, b'')
    → Split m f b x b''
unfolding continue_with ◌>>=◌
>>=-ok m f b h = Split-at m f b (m b).0 (m b).1 refl (ground (arith, h))

pub >>-ok :
    {A B : Type 0} (m : Action A) (k : Action B) (b : Bank) {x : B} {b'' : Bank}
    → (m >> k) b ≡ (ok x, b'')
    → Split m (λ _. k) b x b''
unfolding continue_with ◌>>◌
>>-ok m k b h = Split-at m (λ _. k) b (m b).0 (m b).1 refl (ground (arith, h))

-- A guard that lets the call go on changed nothing, and its test failed.
pub throw_if-ok :
    (c : Bool) (e : Error) (b : Bank) {u : Unit} {b' : Bank}
    → throw_if c e b ≡ (ok u, b')
    → (c ≡ false) × (b' ≡ b)
throw_if-ok c e b h = ground arith

pub or_throw-ok :
    {A : Type 0} (o : Option A) (e : Error) (b : Bank) {a : A} {b' : Bank}
    → or_throw o e b ≡ (ok a, b')
    → (o ≡ some a) × (b' ≡ b)
or_throw-ok none e b h = ground arith
or_throw-ok (some a) e b h = ground arith

pub gets-ok :
    {A : Type 0} (f : Bank → A) (b : Bank) {a : A} {b' : Bank}
    → gets f b ≡ (ok a, b')
    → (a ≡ f b) × (b' ≡ b)
gets-ok f b h = ground arith
