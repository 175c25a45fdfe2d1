-- ===== src/Examples/Pins.antt =====
-- A customer's PIN under attack.
use meal.Prelude.{ℕ, ◌≡◌, refl, arith, true, false, some, none, List, [], ◌∷◌, ◌+◌, ◌*◌, ◌==◌}
use meal.TransactionPin.{Argon, PinState, done, granted, set_pin, verify_pin, looks_weak}
use meal.TransactionPin.Attack.{Guess, set_pin-verify_pin}

abbrev code : List ℕ → ℕ
code [] = 0
code (c ∷ cs) = c + 3 * code cs

-- A hash that is a sum, and a test that compares hashes.
abbrev toy : Argon
toy = record { hash = code; verify = λ h pin. h == code pin }

abbrev pins : PinState
pins = record {
  users =
      record {
        id = 1;
        password_hash = 7;
        transaction_pin_hash = none;
        security_setup_required = true;
      }
      ∷ [];
  attempts = λ k. none;
}

-- 4 9 2 7
abbrev good_pin : List ℕ
good_pin = 52 ∷ 57 ∷ 50 ∷ 55 ∷ []

abbrev bad_pin : List ℕ
bad_pin = 52 ∷ 57 ∷ 50 ∷ 56 ∷ []

abbrev pin_set : PinState
pin_set = (set_pin toy 1 good_pin none none pins).1

pin_is_set : set_pin toy 1 good_pin none none pins ≡ (done, pin_set)
unfolding set_pin looks_weak
pin_is_set = refl

set_pin-verify_pin_example : (verify_pin toy 900 1 good_pin pin_set).0 ≡ granted
set_pin-verify_pin_example =
    set_pin-verify_pin toy 1 900 good_pin none none pins (λ p. ground arith) pin_is_set

abbrev protected : PinState
protected = record {
  users =
      record {
        id = 1;
        password_hash = 7;
        transaction_pin_hash = some (code good_pin);
        security_setup_required = false;
      }
      ∷ [];
  attempts = λ k. none;
}

abbrev guesses : List Guess
guesses =
    record { at = 10; pin = bad_pin }
    ∷ record { at = 20; pin = bad_pin }
    ∷ record { at = 30; pin = bad_pin }
    ∷ record { at = 40; pin = bad_pin }
    ∷ record { at = 50; pin = bad_pin }
    ∷ record { at = 60; pin = bad_pin }
    ∷ []
