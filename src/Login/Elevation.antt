-- ===== src/Login/Elevation.antt =====
-- ElevationService (elevation/elevation.service.ts), and ElevationGuard (elevation.guard.ts): a signed-in user proves a code again, for what needs
-- more than a session. A token is what it claims; its signature is a parameter.
use meal.Prelude.{ℕ, Bool, true, false, not, Option, none, some, ◌==◌, if◌then◌else◌}
use meal.Login.Rows.{
  MfaChallenge, LoginStore, user_gone, invalid_elevation, wrong_purpose, scope_mismatch,
  elevation_required, other_user, LoginReply, granted, denied, LoginConfig, LoginEnv,
}
use meal.Login.Challenges.{create_sms_challenge, verify}
use meal.Login.{user_of}

pub data ElevationScope : Type 0 where
  card_reveal wire_create transfer_authorize profile_edit security_manage : ElevationScope

abbrev pub scope_eq : ElevationScope → ElevationScope → Bool
scope_eq card_reveal card_reveal = true
scope_eq wire_create wire_create = true
scope_eq transfer_authorize transfer_authorize = true
scope_eq profile_edit profile_edit = true
scope_eq security_manage security_manage = true
scope_eq _ _ = false

pub data Purpose : Type 0 where
  elevation other_purpose : Purpose

abbrev pub is_elevation : Purpose → Bool
is_elevation elevation = true
is_elevation other_purpose = false

pub record ElevationClaims : Type 0 where
  pub sub : ℕ
  pub scope : ElevationScope
  pub purpose : Purpose

-- `signElevation`
abbrev pub sign_elevation : ℕ → ElevationScope → ElevationClaims
sign_elevation user scope = record { sub = user; scope = scope; purpose = elevation }

abbrev pub challenge_id_of : LoginReply MfaChallenge × LoginStore → LoginReply ℕ × LoginStore
challenge_id_of (granted c, s) = (granted c.id, s)
challenge_id_of (denied e, s) = (denied e, s)

unfoldable pub begin_challenge :
    LoginConfig → LoginEnv → (user fingerprint : ℕ) → LoginStore → LoginReply ℕ × LoginStore
begin_challenge config env user fingerprint s = elim (user_of user s) [
  | none ↦ (denied user_gone, s)
  | some u ↦ challenge_id_of (create_sms_challenge config env user u.phone fingerprint s)
]

abbrev pub elevated :
    ℕ
    → ElevationScope
    → LoginReply MfaChallenge × LoginStore
    → LoginReply ElevationClaims × LoginStore
elevated user scope (granted c, s) = (granted (sign_elevation user scope), s)
elevated user scope (denied e, s) = (denied e, s)

unfoldable pub verify_elevation :
    LoginConfig
    → ℕ
    → (user challenge code : ℕ) → ElevationScope
    → LoginStore
    → LoginReply ElevationClaims × LoginStore
verify_elevation config now user k code scope s = elevated user scope (verify config now k code s)

-- `verifyToken`, on what a token with a good signature claims.
unfoldable pub verify_token : Option ElevationClaims → ElevationScope → LoginReply ElevationClaims
verify_token none required = denied invalid_elevation
verify_token (some c) required =
    if not (is_elevation c.purpose)
    then denied wrong_purpose
    else if not (scope_eq c.scope required)
    then denied scope_mismatch
    else granted c

abbrev pub matches_user : ℕ → LoginReply ElevationClaims → LoginReply (Unit {0})
matches_user user (granted c) = if not (c.sub == user) then denied other_user else granted tt
matches_user user (denied e) = denied e

-- `canActivate`, for the scope that an endpoint asks for, the token of the request, and the user that
-- the request is signed in as.
unfoldable pub can_activate :
    Option ElevationScope → Option (Option ElevationClaims) → ℕ → LoginReply (Unit {0})
can_activate none token user = granted tt
can_activate (some scope) none user = denied elevation_required
can_activate (some scope) (some token) user = matches_user user (verify_token token scope)
