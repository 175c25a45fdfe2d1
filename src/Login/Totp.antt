-- ===== src/Login/Totp.antt =====
-- TotpService (me-security/totp.service.ts): codes of an authenticator, and recovery codes.
use meal.Prelude.{
  ℕ, ◌≡◌, inl, inr, refl, Bool, true, false, not, Option, none, some, List, [], ◌∷◌, arith, ◌==◌,
  if◌then◌else◌, Option-cases,
}
use meal.Prelude.Table.{find, modify, delete_where, find-modify}

-- The secret is kept encrypted; it is read back as it was.
pub record TotpSecret : Type 0 where
  pub user_id : ℕ
  pub secret : ℕ
  pub activated_at : Option ℕ
  pub recovery_codes : List ℕ

-- Whether a code fits a secret at the time of the call, a new secret, and eight random codes.
pub record TotpEnv : Type 0 where
  pub now : ℕ
  pub check : (code secret : ℕ) → Bool
  pub new_secret : ℕ
  pub new_codes : List ℕ

pub data TotpError : Type 0 where
  already_on none_pending wrong_totp not_on : TotpError

pub data TotpReply {ℓ} (A : Type ℓ) : Type ℓ where
  answered : A → TotpReply A
  failed_with : TotpError → TotpReply A

abbrev pub totp_key : TotpSecret → ℕ
totp_key t = t.user_id

abbrev pub is_activated : TotpSecret → Bool
is_activated t = elim t.activated_at [ none ↦ false | some at ↦ true ]

abbrev pub pending_secret : ℕ → TotpSecret → TotpSecret
pending_secret secret t = record t { secret = secret; activated_at = none; recovery_codes = [] }

unfoldable pub begin_totp : TotpEnv → ℕ → List TotpSecret → TotpReply ℕ × List TotpSecret
begin_totp env user rows = elim (find totp_key user rows) [
  | none ↦
      let row : TotpSecret = record {
        user_id = user;
        secret = env.new_secret;
        activated_at = none;
        recovery_codes = [];
      } in
      (answered env.new_secret, row ∷ rows)
  | some t ↦
      if is_activated t
      then (failed_with already_on, rows)
      else (answered env.new_secret, modify totp_key user (pending_secret env.new_secret) rows)
]

abbrev or_now : Option ℕ → ℕ → ℕ
or_now none now = now
or_now (some at) now = at

abbrev pub activated : TotpEnv → TotpSecret → TotpSecret
activated env t = record t {
  activated_at = some (or_now t.activated_at env.now);
  recovery_codes = env.new_codes;
}

unfoldable pub verify_totp :
    TotpEnv → (user code : ℕ) → List TotpSecret → TotpReply (List ℕ) × List TotpSecret
verify_totp env user code rows = elim (find totp_key user rows) [
  | none ↦ (failed_with none_pending, rows)
  | some t ↦
      if env.check code t.secret
      then (answered env.new_codes, modify totp_key user (activated env) rows)
      else (failed_with wrong_totp, rows)
]

unfoldable pub disable_totp :
    TotpEnv → (user code : ℕ) → List TotpSecret → TotpReply (Unit {0}) × List TotpSecret
disable_totp env user code rows = elim (find totp_key user rows) [
  | none ↦ (failed_with not_on, rows)
  | some t ↦
      if not (is_activated t)
      then (failed_with not_on, rows)
      else if env.check code t.secret
      then (answered tt, delete_where (λ r. r.user_id == user) rows)
      else (failed_with wrong_totp, rows)
]

abbrev pub includes : ℕ → List ℕ → Bool
includes code [] = false
includes code (c ∷ cs) = if c == code then true else includes code cs

abbrev pub without_recovery : ℕ → TotpSecret → TotpSecret
without_recovery code t = record t {
  recovery_codes = delete_where (λ c. c == code) t.recovery_codes;
}

abbrev pub login_with :
    TotpEnv → (user code : ℕ) → TotpSecret → List TotpSecret → Bool × List TotpSecret
login_with env user code t rows =
    if not (is_activated t)
    then (false, rows)
    else if env.check code t.secret
    then (true, rows)
    else if includes code t.recovery_codes
    then (true, modify totp_key user (without_recovery code) rows)
    else (false, rows)

unfoldable pub verify_for_login :
    TotpEnv → (user code : ℕ) → List TotpSecret → Bool × List TotpSecret
verify_for_login env user code rows = elim (find totp_key user rows) [
  | none ↦ (false, rows)
  | some t ↦ login_with env user code t rows
]

includes-delete_where :
    (code : ℕ) (cs : List ℕ) → includes code (delete_where (λ c. c == code) cs) ≡ false
includes-delete_where code [] = refl
includes-delete_where code (c ∷ cs) =
    let rest = includes-delete_where code cs in ground (arith, rest)

-- A recovery code is accepted once: as long as it is not also a code of the authenticator, it is refused
-- when it is entered again.
verify_for_login_once :
    (env env₂ : TotpEnv) (user code : ℕ) (rows : List TotpSecret) {rows' : List TotpSecret}
    → verify_for_login env user code rows ≡ (true, rows')
    → ((secret : ℕ) → env.check code secret ≡ false)
    → ((secret : ℕ) → env₂.check code secret ≡ false)
    → (verify_for_login env₂ user code rows').0 ≡ false
unfolding verify_for_login
verify_for_login_once env env₂ user code rows h no_match no_match₂ =
    elim (Option-cases (find totp_key user rows)) [
      | inl e ↦ ground (arith, e, h)
      | inr (t, e) ↦
          let spent = find-modify totp_key user user (without_recovery code) rows (λ r. refl) in
          let gone = includes-delete_where code t.recovery_codes in
          ground (arith, e, h, spent, gone, no_match t.secret, no_match₂ t.secret)
    ]
