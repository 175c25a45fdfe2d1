-- ===== src/Login.antt =====
-- AuthService (auth/auth.service.ts), and what auth/auth.controller.ts hands to it of a request.
pub mod Attempts
pub mod Calls
pub mod Recovered
pub mod Recovery
pub mod Rows
pub mod Totp
pub mod Trust
pub mod Used
pub mod Challenges
pub mod Devices
pub mod Elevation
pub mod Guesses
pub mod Known
pub mod Owners
use meal.Prelude.{ℕ, Bool, true, false, not, Option, none, some, List, ◌==◌, if◌then◌else◌}
use meal.Prelude.Table.{find, find_first, modify}
use meal.Sessions.Rows.{
  newer_login, password_changed, user_signout, SessionStore, Device, Reply, accepted, refused,
  Crypto, SessionEnv, IssueSessionResult,
}
use meal.Sessions.{issue_session, rotate_refresh, revoke_all_other, revoke_one}
use meal.Login.Rows.{
  UserStatus, active, AuthUser, MfaChallenge, LoginStore, LoginError, invalid_credentials,
  account_not_active, invalid_mfa_token, user_gone, current_incorrect, must_differ,
  not_awaiting_setup, same_as_temporary, no_refresh_token, of_session, LoginReply, verify_mfa,
  granted, denied, LoginConfig, LoginEnv, LoginContext, LoginOutcome, session_stage, mfa_stage,
}
use meal.Login.Challenges.{create_email_challenge, verify, resend}
use meal.Login.Devices.{fingerprint, find_known, upsert_on_login, mark_trusted, is_trusted}

-- The headers of a request, and the two fields of a sign-in's body that go into the fingerprint.
pub record Headers : Type 0 where
  pub user_agent : ℕ
  pub accept_language : ℕ
  pub timezone : ℕ

pub record LoginDto : Type 0 where
  pub email : ℕ
  pub password : ℕ
  pub timezone : ℕ
  pub canvas_hash : ℕ

abbrev pub read_client_ctx : Headers → LoginContext
read_client_ctx h = record {
  user_agent = h.user_agent;
  accept_language = h.accept_language;
  timezone = h.timezone;
  canvas_hash = 0;
}

-- The context of a sign-in: the time zone and the canvas hash come from the body.
abbrev pub login_ctx : Headers → LoginDto → LoginContext
login_ctx h dto = record (read_client_ctx h) {
  timezone = dto.timezone;
  canvas_hash = dto.canvas_hash;
}

abbrev pub user_key : AuthUser → ℕ
user_key u = u.id

abbrev pub user_of : ℕ → LoginStore → Option AuthUser
user_of k s = find user_key k s.users

-- Case-insensitive.
abbrev pub has_email : LoginConfig → ℕ → AuthUser → Bool
has_email config address u = config.to_lower_case u.email == config.to_lower_case address

abbrev pub is_active : UserStatus → Bool
is_active active = true
is_active _ = false

abbrev pub with_auth : SessionStore → LoginStore → LoginStore
with_auth a s = record s { auth = a }

abbrev pub of_reply :
    {A B : Type 0} → (A → B) → Reply A × SessionStore → LoginStore → LoginReply B × LoginStore
of_reply f (accepted x, a) s = (granted (f x), with_auth a s)
of_reply f (refused e, a) s = (denied (of_session e), with_auth a s)

-- The session of a user on a device.
abbrev pub start_session :
    LoginConfig
    → LoginEnv
    → (user device : ℕ) → SessionStore
    → LoginStore
    → LoginReply LoginOutcome × LoginStore
start_session config env user device a s =
    of_reply session_stage
      (issue_session config.crypto env.session (record { user_id = user; device_id = device }) a) s

-- A known device that is trusted needs no code.
abbrev pub without_code :
    LoginConfig → LoginEnv → AuthUser → ℕ → LoginStore → LoginReply LoginOutcome × LoginStore
without_code config env u fp s =
    let (d, a) = upsert_on_login env.now env.device_id u.id fp s.auth in
    start_session config env u.id d.id a s

abbrev pub challenged :
    LoginConfig → ℕ → LoginReply MfaChallenge × LoginStore → LoginReply LoginOutcome × LoginStore
challenged config user (granted c, s) = (granted (mfa_stage (config.sign_mfa user c.id)), s)
challenged config user (denied e, s) = (denied e, s)

abbrev pub with_code :
    LoginConfig → LoginEnv → AuthUser → ℕ → LoginStore → LoginReply LoginOutcome × LoginStore
with_code config env u fp s =
    challenged config u.id (create_email_challenge config env u.id u.email fp s)

abbrev pub is_known_trusted : Option Device → Bool
is_known_trusted none = false
is_known_trusted (some d) = is_trusted d

abbrev pub admit :
    LoginConfig → LoginEnv → AuthUser → ℕ → LoginStore → LoginReply LoginOutcome × LoginStore
admit config env u fp s =
    if is_known_trusted (find_known u.id fp s.auth)
    then without_code config env u fp s
    else with_code config env u fp s

unfoldable pub login :
    LoginConfig
    → LoginEnv
    → (email password : ℕ) → LoginContext
    → LoginStore
    → LoginReply LoginOutcome × LoginStore
login config env email password ctx s = elim (find_first (has_email config email) s.users) [
  | none ↦ (denied invalid_credentials, s)
  | some u ↦
      if not (is_active u.status)
      then (denied account_not_active, s)
      else if not (config.argon_verify u.password_hash password)
      then (denied invalid_credentials, s)
      else admit config env u (fingerprint config ctx) s
]

-- The device that proved the code is trusted from now on.
abbrev pub trust_device :
    LoginConfig → LoginEnv → ℕ → ℕ → LoginStore → LoginReply LoginOutcome × LoginStore
trust_device config env user fp s =
    let (d, a) = upsert_on_login env.now env.device_id user fp s.auth in
    start_session config env user d.id (mark_trusted d.id a) s

abbrev pub after_code :
    LoginConfig
    → LoginEnv
    → ℕ
    → LoginContext
    → LoginReply MfaChallenge × LoginStore
    → LoginReply LoginOutcome × LoginStore
after_code config env user ctx (denied e, s) = (denied e, s)
after_code config env user ctx (granted c, s) = elim (user_of user s) [
  | none ↦ (denied user_gone, s)
  | some u ↦ trust_device config env u.id (fingerprint config ctx) s
]

unfoldable pub mfa_verify :
    LoginConfig
    → LoginEnv
    → (token code : ℕ) → LoginContext
    → LoginStore
    → LoginReply LoginOutcome × LoginStore
mfa_verify config env token code ctx s = elim (verify_mfa config env.now token) [
  | none ↦ (denied invalid_mfa_token, s)
  | some (user, k) ↦ after_code config env user ctx (verify config env.now k code s)
]

abbrev pub answer_token : ℕ → LoginReply MfaChallenge × LoginStore → LoginReply ℕ × LoginStore
answer_token token (granted c, s) = (granted token, s)
answer_token token (denied e, s) = (denied e, s)

unfoldable pub mfa_resend : LoginConfig → LoginEnv → ℕ → LoginStore → LoginReply ℕ × LoginStore
mfa_resend config env token s = elim (verify_mfa config env.now token) [
  | none ↦ (denied invalid_mfa_token, s)
  | some (user, k) ↦ elim (user_of user s) [
    | none ↦ (denied user_gone, s)
    | some u ↦ answer_token (config.sign_mfa user k) (resend config env k u.email s)
  ]
]

-- `refresh`, where 0 is no token.
unfoldable pub refresh :
    LoginConfig → LoginEnv → ℕ → LoginStore → LoginReply IssueSessionResult × LoginStore
refresh config env presented s =
    if presented == 0
    then (denied no_refresh_token, s)
    else of_reply (λ r. r) (rotate_refresh config.crypto env.session presented s.auth) s

unfoldable pub logout :
    (now session acting_user : ℕ) → LoginStore → LoginReply (Unit {0}) × LoginStore
logout now k user s = of_reply (λ r. r) (revoke_one k user user_signout now s.auth) s

abbrev pub with_password : ℕ → AuthUser → AuthUser
with_password hash u = record u { password_hash = hash }

abbrev pub store_password : LoginConfig → (now user password session : ℕ) → LoginStore → LoginStore
store_password config now user password session s = record s {
  users = modify user_key user (with_password (config.argon_hash password)) s.users;
  auth = (revoke_all_other user session password_changed now s.auth).1;
}

-- `changePassword`, for the user that the request was signed in as.
unfoldable pub change_password :
    LoginConfig
    → ℕ
    → AuthUser
    → (current new session : ℕ) → LoginStore
    → LoginReply (Unit {0}) × LoginStore
change_password config now u current new session s =
    if not (config.argon_verify u.password_hash current)
    then (denied current_incorrect, s)
    else if current == new
    then (denied must_differ, s)
    else (granted tt, store_password config now u.id new session s)

abbrev pub awaits_setup : Option AuthUser → Bool
awaits_setup none = false
awaits_setup (some u) = u.security_setup_required

unfoldable pub set_first_login_password :
    LoginConfig → ℕ → AuthUser → (new session : ℕ) → LoginStore → LoginReply (Unit {0}) × LoginStore
set_first_login_password config now u new session s =
    if not (awaits_setup (user_of u.id s))
    then (denied not_awaiting_setup, s)
    else if config.argon_verify u.password_hash new
    then (denied same_as_temporary, s)
    else (granted tt, store_password config now u.id new session s)
