-- ===== src/Login/Guesses.antt =====
-- How often the code of a challenge can be guessed.
use meal.Prelude.{
  ℕ, ◌+◌, ◌*◌, ◌≡◌, ◌≤◌, inl, inr, refl, Bool, false, none, some, List, [], ◌∷◌, arith, ◌==◌,
  if◌then◌else◌, Option-cases,
}
use meal.Sessions.Rows.{user_signout, Reply, accepted, refused, SessionStore}
use meal.Sessions.{issue_session, rotate_refresh, revoke_one}
use meal.Login.Rows.{
  verify_mfa, session_stage, MfaChallenge, LoginStore, LoginReply, granted, denied, LoginConfig,
  LoginEnv, LoginContext,
}
use meal.Login.Challenges.{verify, resend}
use meal.Login.Devices.{fingerprint, upsert_on_login, mark_trusted}
use meal.Login.{
  user_of, of_reply, start_session, after_code, mfa_verify, answer_token, mfa_resend, refresh,
  logout, change_password, set_first_login_password,
}
use meal.Login.Calls.{
  begins_elevation, elevates, LoginCall, logs_in, verifies, resends, refreshes, logs_out,
  changes_password, sets_password, after,
}
use meal.Login.Elevation.{verify_elevation}
use meal.Login.Attempts.{
  begin-left, elevated-reply, answer-store, left, login-left, after_code-challenges,
  reply-challenges, is_wrong, verify-left, is_granted, resend-left,
}

abbrev pub is_sent : LoginReply ℕ → ℕ
is_sent (granted token) = 1
is_sent (denied e) = 0

-- Whether a token is for the challenge.
abbrev pub claims : LoginConfig → ℕ → ℕ → Bool
claims config k token = elim (config.decode_mfa token) [ none ↦ false | some (user, j) ↦ j == k ]

abbrev pub wrong_step : LoginConfig → ℕ → LoginCall → LoginStore → ℕ
wrong_step config k (verifies env token code ctx) s =
    if claims config k token then is_wrong (mfa_verify config env token code ctx s).0 else 0
wrong_step config k (elevates now user j code scope) s =
    if j == k then is_wrong (verify_elevation config now user j code scope s).0 else 0
wrong_step config k _ s = 0

abbrev pub sent_step : LoginConfig → ℕ → LoginCall → LoginStore → ℕ
sent_step config k (resends env token) s =
    if claims config k token then is_sent (mfa_resend config env token s).0 else 0
sent_step config k _ s = 0

-- How many wrong codes were tested against the challenge.
abbrev pub wrong_codes : LoginConfig → ℕ → List LoginCall → LoginStore → ℕ
wrong_codes config k [] s = 0
wrong_codes config k (c ∷ cs) s =
    wrong_step config k c s + wrong_codes config k cs (after config c s)

-- How often a new code was sent for the challenge.
abbrev pub sent_codes : LoginConfig → ℕ → List LoginCall → LoginStore → ℕ
sent_codes config k [] s = 0
sent_codes config k (c ∷ cs) s = sent_step config k c s + sent_codes config k cs (after config c s)

reply-wrong :
    {A B : Type 0} (f : A → B) (r : Reply A × SessionStore) (s : LoginStore)
    → is_wrong (of_reply f r s).0 ≡ 0
reply-wrong f (accepted x, a) s = refl
reply-wrong f (refused e, a) s = refl

start-wrong :
    (config : LoginConfig) (env : LoginEnv) (user device : ℕ) (a : SessionStore) (s : LoginStore)
    → is_wrong (start_session config env user device a s).0 ≡ 0
start-wrong config env user device a s =
    reply-wrong session_stage
      (issue_session config.crypto env.session (record { user_id = user; device_id = device }) a) s

after_code-wrong :
    (config : LoginConfig) (env : LoginEnv) (user : ℕ) (ctx : LoginContext)
    (r : LoginReply MfaChallenge × LoginStore)
    → is_wrong (after_code config env user ctx r).0 ≡ is_wrong r.0
after_code-wrong config env user ctx (denied e, s) = refl
after_code-wrong config env user ctx (granted c, s) = elim (Option-cases (user_of user s)) [
  | inl gone ↦ ground (arith, gone)
  | inr (u, there) ↦
      let (d, a) = upsert_on_login env.now env.device_id u.id (fingerprint config ctx) s.auth in
      let same = start-wrong config env u.id d.id (mark_trusted d.id a) s in
      ground (arith, there, same)
]

mfa_verify-left :
    (config : LoginConfig) (env : LoginEnv) (token code : ℕ) (ctx : LoginContext) (k : ℕ)
    (s : LoginStore)
    → wrong_step config k (verifies env token code ctx) s
        + left config k (mfa_verify config env token code ctx s).1
      ≤ left config k s
unfolding mfa_verify
mfa_verify-left config env token code ctx k s =
    elim (Option-cases (verify_mfa config env.now token)) [
      | inl e ↦ ground (arith, e)
      | inr ((user, j), e) ↦
          let r = verify config env.now j code s in
          let step = verify-left config env.now j code k s in
          let same = after_code-challenges config env user ctx r in
          let wrong = after_code-wrong config env user ctx r in ground (arith, e, step, same, wrong)
    ]

answer-sent :
    (token : ℕ) (r : LoginReply MfaChallenge × LoginStore)
    → is_sent (answer_token token r).0 ≡ (if is_granted r.0 then 1 else 0)
answer-sent token (granted c, s) = refl
answer-sent token (denied e, s) = refl

mfa_resend-left :
    (config : LoginConfig) (env : LoginEnv) (token k : ℕ) (s : LoginStore)
    → left config k (mfa_resend config env token s).1
      ≤ left config k s + config.max_attempts * sent_step config k (resends env token) s
unfolding mfa_resend
mfa_resend-left config env token k s = elim (Option-cases (verify_mfa config env.now token)) [
  | inl e ↦ ground (arith, e)
  | inr ((user, j), e) ↦ elim (Option-cases (user_of user s)) [
    | inl gone ↦ ground (arith, e, gone)
    | inr (u, there) ↦
        let r = resend config env j u.email s in
        let step = resend-left config env j u.email k s in
        let store = answer-store (config.sign_mfa user j) r in
        let sent = answer-sent (config.sign_mfa user j) r in
        ground (arith, e, there, step, store, sent)
  ]
]

after-left :
    (config : LoginConfig) (c : LoginCall) (k : ℕ) (s : LoginStore)
    → wrong_step config k c s + left config k (after config c s)
      ≤ left config k s + config.max_attempts * sent_step config k c s
unfolding refresh logout change_password set_first_login_password verify_elevation
after-left config (logs_in env email password ctx) k s =
    omega (arith, login-left config env email password ctx k s)
after-left config (verifies env token code ctx) k s =
    omega (arith, mfa_verify-left config env token code ctx k s)
after-left config (resends env token) k s = omega (arith, mfa_resend-left config env token k s)
after-left config (refreshes env presented) k s =
    let same =
      reply-challenges (λ r. r) (rotate_refresh config.crypto env.session presented s.auth) s in
    ground (arith, same)
after-left config (logs_out now j user) k s =
    let same = reply-challenges (λ r. r) (revoke_one j user user_signout now s.auth) s in
    ground (arith, same)
after-left config (changes_password now u current new j) k s = ground arith
after-left config (sets_password now u new j) k s = ground arith
after-left config (begins_elevation env user fp) k s =
    omega (arith, begin-left config env user fp k s)
after-left config (elevates now user j code scope) k s =
    let step = verify-left config now j code k s in
    let (same, wrong) = elevated-reply user scope (verify config now j code s) in
    ground (arith, step, same, wrong)

run-left :
    (config : LoginConfig) (cs : List LoginCall) (k : ℕ) (s : LoginStore)
    → wrong_codes config k cs s ≤ left config k s + config.max_attempts * sent_codes config k cs s
run-left config [] k s = omega arith
run-left config (c ∷ cs) k s =
    let step = after-left config c k s in
    let rest = run-left config cs k (after config c s) in grind (arith, step, rest)

-- In any sequence of calls of AuthService and ElevationService, of all users, the wrong codes that are tested against a
-- challenge are at most the attempts allowed, once for its first code and once more for each time that
-- a code was sent again.
pub run-wrong_codes :
    (config : LoginConfig) (cs : List LoginCall) (k : ℕ) (s : LoginStore)
    → wrong_codes config k cs s ≤ config.max_attempts * (1 + sent_codes config k cs s)
run-wrong_codes config cs k s = ground (arith, run-left config cs k s)
