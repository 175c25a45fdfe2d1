-- ===== src/TransactionPin.antt =====
-- TransactionPinService (elevation/transaction-pin.service.ts): the PIN that authorises transfers.
-- A text is the list of its character codes; a hash is a number.
pub mod Attack
use meal.Prelude.{
  ℕ, ◌+◌, ◌-◌, ◌/◌, Bool, true, false, not, ◌&&◌, ◌||◌, Option, none, some, List, [], ◌∷◌, length,
  ltb, leb, ◌==◌, if◌then◌else◌,
}

-- argon2, a package: the hash of a text, with a salt of its own, and the test of a text against it.
pub record Argon : Type 0 where
  pub hash : List ℕ → ℕ
  pub verify : ℕ → List ℕ → Bool

pub record Attempts : Type 0 where
  pub count : ℕ
  pub locked_until : Option ℕ

pub record PinUser : Type 0 where
  pub id : ℕ
  pub password_hash : ℕ
  pub transaction_pin_hash : Option ℕ
  pub security_setup_required : Bool

-- The table of users, and the map of attempts that the service keeps in memory.
pub record PinState : Type 0 where
  pub users : List PinUser
  pub attempts : ℕ → Option Attempts

abbrev pub max_attempts : ℕ
max_attempts = 5

abbrev pub lockout_ms : ℕ
lockout_ms = 900000

abbrev pub is_digit : ℕ → Bool
is_digit c = leb 48 c && leb c 57

abbrev pub all_digits : List ℕ → Bool
all_digits [] = true
all_digits (c ∷ cs) = is_digit c && all_digits cs

-- PIN_RE
abbrev pub is_pin : List ℕ → Bool
is_pin pin = all_digits pin && (leb 4 (length pin) && leb (length pin) 6)

abbrev pub all_same : ℕ → List ℕ → Bool
all_same c [] = true
all_same c (d ∷ ds) = c == d && all_same c ds

-- Each character is one more than the one before it.
abbrev pub ascending : ℕ → List ℕ → Bool
ascending c [] = true
ascending c (d ∷ ds) = d == c + 1 && ascending d ds

abbrev pub descending : ℕ → List ℕ → Bool
descending c [] = true
descending c (d ∷ ds) = c == d + 1 && descending d ds

unfoldable pub looks_weak : List ℕ → Bool
looks_weak [] = true
looks_weak (c ∷ cs) = (ltb 0 (length cs) && all_same c cs) || (ascending c cs || descending c cs)

abbrev pub user_of : ℕ → List PinUser → Option PinUser
user_of k [] = none
user_of k (u ∷ us) = if u.id == k then some u else user_of k us

abbrev pub pin_hash_of : Option PinUser → Option ℕ
pin_hash_of none = none
pin_hash_of (some u) = u.transaction_pin_hash

abbrev pub is_given : Option ℕ → Bool
is_given none = false
is_given (some h) = true

unfoldable pub has_pin : ℕ → PinState → Bool
has_pin user s = is_given (pin_hash_of (user_of user s.users))

abbrev pub set_attempts : ℕ → Option Attempts → (ℕ → Option Attempts) → ℕ → Option Attempts
set_attempts user a m j = if j == user then a else m j

-- `this.attempts.get(userId) ?? { count: 0, lockedUntil: null }`
abbrev pub or_fresh : Option Attempts → Attempts
or_fresh none = record { count = 0; locked_until = none }
or_fresh (some a) = a

abbrev pub is_locked : ℕ → Option ℕ → Bool
is_locked now none = false
is_locked now (some until) = ltb now until

abbrev pub minutes_left : ℕ → Option ℕ → ℕ
minutes_left now none = 0
minutes_left now (some until) = (until - now + 59999) / 60000

-- A wrong PIN, counted; the fifth one locks and starts the count again.
unfoldable pub count_wrong : ℕ → Attempts → Attempts
count_wrong now a =
    if leb max_attempts (a.count + 1)
    then record { count = 0; locked_until = some (now + lockout_ms) }
    else record { count = a.count + 1; locked_until = a.locked_until }

pub data PinOutcome : Type 0 where
  bad_format not_set wrong_pin granted : PinOutcome
  too_many : ℕ → PinOutcome

abbrev pub check_hash : Argon → ℕ → ℕ → List ℕ → PinState → Option ℕ → PinOutcome × PinState
check_hash argon now user pin s none = (not_set, s)
check_hash argon now user pin s (some h) =
    if argon.verify h pin
    then (granted, record s { attempts = set_attempts user none s.attempts })
    else (
      wrong_pin,
      record s {
        attempts =
            set_attempts user (some (count_wrong now (or_fresh (s.attempts user)))) s.attempts;
      },
    )

-- `verifyPin`; `granted` stands for the signed elevation token.
unfoldable pub verify_pin : Argon → ℕ → ℕ → List ℕ → PinState → PinOutcome × PinState
verify_pin argon now user pin s =
    let until = (or_fresh (s.attempts user)).locked_until in
    if not (is_pin pin)
    then (bad_format, s)
    else if is_locked now until
    then (too_many (minutes_left now until), s)
    else check_hash argon now user pin s (pin_hash_of (user_of user s.users))

pub data SetOutcome : Type 0 where
  pin_format pin_weak user_not_found pin_incorrect password_incorrect proof_missing done :
      SetOutcome

abbrev pub change_user : ℕ → (PinUser → PinUser) → List PinUser → List PinUser
change_user k f [] = []
change_user k f (u ∷ us) = if u.id == k then f u ∷ us else u ∷ change_user k f us

abbrev pub with_pin : ℕ → PinUser → PinUser
with_pin h u = record u { transaction_pin_hash = some h; security_setup_required = false }

-- Whether the caller may set the PIN: the first one freely, a change with the old PIN or the password.
abbrev pub prove_change :
    Argon → PinUser → Option (List ℕ) → Option (List ℕ) → Option ℕ → SetOutcome
prove_change argon u pin password none = done
prove_change argon u (some p) password (some h) = if argon.verify h p then done else pin_incorrect
prove_change argon u none (some w) (some h) =
    if argon.verify u.password_hash w then done else password_incorrect
prove_change argon u none none (some h) = proof_missing

abbrev pub store_pin : Argon → ℕ → List ℕ → PinState → SetOutcome → SetOutcome × PinState
store_pin argon user pin s done = (
  done,
  record {
    users = change_user user (with_pin (argon.hash pin)) s.users;
    attempts = set_attempts user none s.attempts;
  },
)
store_pin argon user pin s e = (e, s)

-- `setPin`; a missing or empty field is `none`.
unfoldable pub set_pin :
    Argon → ℕ → List ℕ → Option (List ℕ) → Option (List ℕ) → PinState → SetOutcome × PinState
set_pin argon user new_pin current_pin current_password s =
    if not (is_pin new_pin)
    then (pin_format, s)
    else if looks_weak new_pin
    then (pin_weak, s)
    else elim (user_of user s.users) [
      | none ↦ (user_not_found, s)
      | some u ↦
          store_pin argon user new_pin s
            (prove_change argon u current_pin current_password u.transaction_pin_hash)
    ]
