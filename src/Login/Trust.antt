-- ===== src/Login/Trust.antt =====
-- Which sign-ins are asked for a code after a device proved one.
use meal.Prelude.{ℕ, ◌≡◌, ◌≢◌, inl, inr, refl, Bool, true, false, none, some, arith, Option-cases}
use meal.Prelude.Table.{find_first, find-key}
use meal.Sessions.Rows.{SessionStore, Reply, accepted, refused}
use meal.Sessions.{issue_session}
use meal.Login.Rows.{
  AuthUser, MfaChallenge, LoginStore, LoginReply, granted, denied, LoginConfig, LoginEnv,
  LoginContext, LoginOutcome, session_stage, mfa_stage,
}
use meal.Login.Challenges.{challenge_of, verify, create_email_challenge}
use meal.Login.Devices.{fingerprint, find_known, upsert_on_login, mark_trusted}
use meal.Login.{
  Headers, LoginDto, read_client_ctx, login_ctx, user_key, user_of, has_email, is_active, of_reply,
  start_session, without_code, is_known_trusted, login, after_code, mfa_verify,
}
use meal.Login.Known.{HasUniqueIds, marked-known, marked-other, start-devices}

-- What an accepted code leaves behind.
record Verified (config : LoginConfig) (env : LoginEnv) (user : ℕ) (fp : ℕ) (s s' : LoginStore)
    : Type 0 where
  users : s'.users ≡ s.users
  devices :
      let (d, a) = upsert_on_login env.now env.device_id user fp s.auth in
      s'.auth.devices ≡ (mark_trusted d.id a).devices

verify-rest :
    (config : LoginConfig) (now k code : ℕ) (s : LoginStore)
    → let (r, s') = verify config now k code s in (s'.users ≡ s.users) × (s'.auth ≡ s.auth)
unfolding verify
verify-rest config now k code s = elim (Option-cases (challenge_of k s)) [
  | inl e ↦ ground (arith, e)
  | inr (c, e) ↦ ground (arith, e)
]

Verified-after :
    (config : LoginConfig) (env : LoginEnv) (user : ℕ) (ctx : LoginContext)
    (tested : LoginReply MfaChallenge × LoginStore) {r : LoginOutcome} {s' : LoginStore}
    → after_code config env user ctx tested ≡ (granted r, s')
    → Verified config env user (fingerprint config ctx) tested.1 s'
Verified-after config env user ctx (denied e, s) h = ground (arith, h)
Verified-after config env user ctx (granted c, s) {r = r} {s' = s'} h =
    elim (Option-cases (user_of user s)) [
      | inl gone ↦ ground (arith, gone, h)
      | inr (u, there) ↦
          let key : u.id ≡ user = find-key user_key user s.users u there in
          let fp = fingerprint config ctx in
          let (d, a) = upsert_on_login env.now env.device_id u.id fp s.auth in
          let same = start-devices config env u.id d.id (mark_trusted d.id a) s in
          let same_store : (start_session config env u.id d.id (mark_trusted d.id a) s).1 ≡ s' =
            ground (arith, there, h) in
          record {
            users = ground (arith, same_store, same.1);
            devices = ground (arith, same_store, same.0, key);
          }
    ]

Verified-of :
    (config : LoginConfig) (env : LoginEnv) (token code : ℕ) (ctx : LoginContext) (s : LoginStore)
    {user k : ℕ} {r : LoginOutcome} {s' : LoginStore}
    → config.decode_mfa token ≡ some (user, k)
    → mfa_verify config env token code ctx s ≡ (granted r, s')
    → Verified config env user (fingerprint config ctx) s s'
unfolding mfa_verify
Verified-of config env token code ctx s {user = user} {k = k} {r = r} {s' = s'} claimed h =
    let tested = verify config env.now k code s in
    let kept = verify-rest config env.now k code s in
    let done : after_code config env user ctx tested ≡ (granted r, s') =
      ground (arith, claimed, h) in
    let v = Verified-after config env user ctx tested done in
    let users = v.users in
    let devices = v.devices in
    record { users = ground (arith, users, kept.0); devices = rw (← kept.1) devices }

-- Whether a sign-in is asked for a code.
abbrev pub asks_code : LoginReply LoginOutcome → Bool
asks_code (granted (session_stage r)) = false
asks_code (granted (mfa_stage token)) = true
asks_code (denied e) = false

reply-sent :
    {A B : Type 0} (f : A → B) (r : Reply A × SessionStore) (s : LoginStore)
    → (of_reply f r s).1.sent ≡ s.sent
reply-sent f (accepted x, a) s = refl
reply-sent f (refused e, a) s = refl

start-sent :
    (config : LoginConfig) (env : LoginEnv) (user device : ℕ) (a : SessionStore) (s : LoginStore)
    → (start_session config env user device a s).1.sent ≡ s.sent
start-sent config env user device a s =
    reply-sent session_stage
      (issue_session config.crypto env.session (record { user_id = user; device_id = device }) a) s

-- After a device has proved a code, its user signs in from it without one, and nothing is mailed, if
-- the user is active, the password is right, and the request has the time zone of the header and no
-- canvas hash; no two devices have the same id.
pub mfa_verify-login :
    (config : LoginConfig) (env env₂ : LoginEnv) (token code : ℕ) (h : Headers) (dto : LoginDto)
    (u : AuthUser) (s : LoginStore) {k : ℕ} {r : LoginOutcome} {s' : LoginStore}
    → config.decode_mfa token ≡ some (u.id, k)
    → find_first (has_email config dto.email) s.users ≡ some u
    → is_active u.status ≡ true
    → config.argon_verify u.password_hash dto.password ≡ true
    → HasUniqueIds s.auth.devices
    → mfa_verify config env token code (read_client_ctx h) s ≡ (granted r, s')
    → dto.timezone ≡ h.timezone
    → dto.canvas_hash ≡ 0
    → let signed_in = login config env₂ dto.email dto.password (login_ctx h dto) s' in
      (signed_in ≡ without_code config env₂ u (fingerprint config (login_ctx h dto)) s')
      × (signed_in.1.sent ≡ s'.sent)
unfolding login
mfa_verify-login config env env₂ token code h dto u s {s' = s'} claimed found is_on right unique
      done zone canvas =
    let v = Verified-of config env token code (read_client_ctx h) s claimed done in
    let users = v.users in
    let devices = v.devices in
    let fp = fingerprint config (read_client_ctx h) in
    let known = marked-known env.now env.device_id u.id fp s.auth unique in
    let same : find_first (has_email config dto.email) s'.users ≡ some u = rw users found in
    let still : is_known_trusted (find_known u.id fp s'.auth) ≡ true = rw devices known in
    let (d, a) = upsert_on_login env₂.now env₂.device_id u.id fp s'.auth in
    let sent = start-sent config env₂ u.id d.id a s' in
    ground (arith, same, is_on, right, still, zone, canvas, sent)

-- After a device has proved a code, its user is asked for a code again from it, if the request's time
-- zone or canvas hash makes another fingerprint, which no device of the user had before: the code was
-- checked without them. The user is active, the password is right, and the new challenge has a new id.
pub mfa_verify-login_asked :
    (config : LoginConfig) (env env₂ : LoginEnv) (token code : ℕ) (h : Headers) (dto : LoginDto)
    (u : AuthUser) (s : LoginStore) {k : ℕ} {r : LoginOutcome} {s' : LoginStore}
    → config.decode_mfa token ≡ some (u.id, k)
    → find_first (has_email config dto.email) s.users ≡ some u
    → is_active u.status ≡ true
    → config.argon_verify u.password_hash dto.password ≡ true
    → mfa_verify config env token code (read_client_ctx h) s ≡ (granted r, s')
    → fingerprint config (read_client_ctx h) ≢ fingerprint config (login_ctx h dto)
    → find_known u.id (fingerprint config (login_ctx h dto)) s.auth ≡ none
    → challenge_of env₂.challenge_id s' ≡ none
    → asks_code (login config env₂ dto.email dto.password (login_ctx h dto) s').0 ≡ true
unfolding login create_email_challenge
mfa_verify-login_asked config env env₂ token code h dto u s {s' = s'} claimed found is_on right done
      other unknown fresh =
    let v = Verified-of config env token code (read_client_ctx h) s claimed done in
    let users = v.users in
    let devices = v.devices in
    let fp₂ = fingerprint config (login_ctx h dto) in
    let gone =
      marked-other env.now env.device_id u.id (fingerprint config (read_client_ctx h)) fp₂ s.auth
        other unknown in
    let still : find_known u.id fp₂ s'.auth ≡ none = rw devices gone in
    let same : find_first (has_email config dto.email) s'.users ≡ some u = rw users found in
    ground (arith, same, is_on, right, still, fresh)
