-- ===== src/TransactionPin/Attack.antt =====
-- How far guessing gets, and what a new PIN opens.
use meal.Prelude.{
  ℕ, ◌+◌, ◌-◌, ◌≡◌, ◌≤◌, ◌<◌, true, false, Option, none, some, List, [], ◌∷◌, All, arith,
  if◌then◌else◌, inl, inr, Option-cases,
}
use meal.TransactionPin.{
  Argon, Attempts, PinUser, PinState, lockout_ms, is_pin, user_of, pin_hash_of, set_attempts,
  is_locked, PinOutcome, wrong_pin, granted, verify_pin, SetOutcome, done, change_user, with_pin,
  prove_change, store_pin, set_pin,
}

pub record Guess : Type 0 where
  pub at : ℕ
  pub pin : List ℕ

abbrev pub is_wrong : PinOutcome → ℕ
is_wrong wrong_pin = 1
is_wrong _ = 0

-- How many of the guesses were tested against the hash, and failed.
abbrev pub tested : Argon → ℕ → List Guess → PinState → ℕ
tested argon user [] s = 0
tested argon user (g ∷ gs) s =
    let (o, s') = verify_pin argon g.at user g.pin s in is_wrong o + tested argon user gs s'

-- All guesses fall within a lockout's time before `last`, and none matches the user's hash.
abbrev pub InWindow : Argon → ℕ → ℕ → List Guess → Type 0
InWindow argon h last =
    All (λ g. (g.at ≤ last) × (last < g.at + lockout_ms) × (argon.verify h g.pin ≡ false))

-- The guesses that are left until `last`.
abbrev left : ℕ → Attempts → ℕ
left last a = if is_locked last a.locked_until then 0 else 1 + (4 - a.count)

user_of-change :
    (k : ℕ) (h : ℕ) (us : List PinUser) (u : PinUser)
    → user_of k us ≡ some u
    → user_of k (change_user k (with_pin h) us) ≡ some (with_pin h u)
user_of-change k h [] u e = ground arith
user_of-change k h (x ∷ us) u e = ground (arith, user_of-change k h us u)

stored_outcome :
    (argon : Argon) (user : ℕ) (pin : List ℕ) (s : PinState) (o : SetOutcome) {s' : PinState}
    → store_pin argon user pin s o ≡ (done, s')
    → (s' ≡ record {
      users = change_user user (with_pin (argon.hash pin)) s.users;
      attempts = set_attempts user none s.attempts;
    })
stored_outcome argon user pin s o h = ground arith

record Stored (argon : Argon) (user : ℕ) (pin : List ℕ) (s' : PinState) : Type 0 where
  hash_stored : pin_hash_of (user_of user s'.users) ≡ some (argon.hash pin)
  unlocked : s'.attempts user ≡ none
  formed : is_pin pin ≡ true

Stored-of :
    (argon : Argon) (user : ℕ) (pin : List ℕ) (c w : Option (List ℕ)) (s : PinState) {s' : PinState}
    → set_pin argon user pin c w s ≡ (done, s')
    → Stored argon user pin s'
unfolding set_pin
Stored-of argon user pin c w s {s' = s'} h = elim (Option-cases (user_of user s.users)) [
  | inl e ↦ ground (arith, e)
  | inr (u, e) ↦
      let e' =
        stored_outcome argon user pin s (prove_change argon u c w u.transaction_pin_hash) {s' = s'}
          (ground (arith, h, e)) in
      record {
        hash_stored = ground (arith, e', user_of-change user (argon.hash pin) s.users u e);
        unlocked = ground (arith, e');
        formed = ground (arith, h);
      }
]

-- A PIN that has been set is accepted at any time, also where the user was locked out before, if
-- argon2 accepts the text that a hash was made from.
pub set_pin-verify_pin :
    (argon : Argon) (user now : ℕ) (pin : List ℕ) (c w : Option (List ℕ)) (s : PinState)
    {s' : PinState}
    → ((p : List ℕ) → argon.verify (argon.hash p) p ≡ true)
    → set_pin argon user pin c w s ≡ (done, s')
    → (verify_pin argon now user pin s').0 ≡ granted
unfolding verify_pin
set_pin-verify_pin argon user now pin c w s accepts h =
    let st = Stored-of argon user pin c w s h in
    ground (arith, st.hash_stored, st.unlocked, st.formed, accepts pin)
