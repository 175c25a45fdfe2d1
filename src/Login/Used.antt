-- ===== src/Login/Used.antt =====
-- A code that has signed a device in is used up.
use meal.Prelude.{
  leb, if◌then◌else◌, ℕ, ◌≡◌, inl, inr, refl, Bool, true, false, Option, none, some, List, [], ◌∷◌,
  arith, Bool-cases, Option-cases,
}
use meal.Prelude.Table.{find_first, find-key, find-modify}
use meal.Login.Rows.{
  verify_mfa, invalid_mfa_token, AuthUser, MfaChallenge, LoginStore, challenge_used, LoginReply,
  granted, denied, LoginConfig, LoginEnv, LoginContext, LoginOutcome,
}
use meal.Login.Challenges.{
  challenge_key, challenge_of, is_used, create_email_challenge, create_sms_challenge, attempted,
  used, verify, renewed, resend,
}
use meal.Login.Devices.{fingerprint, find_known, upsert_on_login}
use meal.Sessions.Rows.{user_signout}
use meal.Sessions.{rotate_refresh, revoke_one}
use meal.Login.{
  user_of, has_email, is_known_trusted, admit, login, after_code, mfa_verify, mfa_resend, refresh,
  logout, change_password, set_first_login_password,
}
use meal.Login.Calls.{
  begins_elevation, elevates, LoginCall, logs_in, verifies, resends, refreshes, logs_out,
  changes_password, sets_password, after, run,
}
use meal.Login.Elevation.{begin_challenge, verify_elevation}
use meal.Login.Attempts.{
  id-store, elevated-reply, reply-challenges, start-challenges, challenged-store,
  after_code-challenges, answer-store, is_granted,
}

abbrev is_used_up : Option MfaChallenge → Bool
is_used_up none = false
is_used_up (some c) = is_used c

abbrev UsedUp : ℕ → LoginStore → Type 0
UsedUp k s = is_used_up (challenge_of k s) ≡ true

create-UsedUp :
    (config : LoginConfig) (env : LoginEnv) (user address fp k : ℕ) (s : LoginStore)
    → UsedUp k s
    → UsedUp k (create_email_challenge config env user address fp s).1
unfolding create_email_challenge
create-UsedUp config env user address fp k s h =
    elim (Option-cases (challenge_of env.challenge_id s)) [
      | inl e ↦ ground (arith, e, h)
      | inr (c, e) ↦ ground (arith, e, h)
    ]

admit-UsedUp :
    (config : LoginConfig) (env : LoginEnv) (u : AuthUser) (fp k : ℕ) (s : LoginStore)
    → UsedUp k s
    → UsedUp k (admit config env u fp s).1
admit-UsedUp config env u fp k s h =
    elim (Bool-cases (is_known_trusted (find_known u.id fp s.auth))) [
      | inl known ↦
          let (d, a) = upsert_on_login env.now env.device_id u.id fp s.auth in
          let same = start-challenges config env u.id d.id a s in ground (arith, known, same, h)
      | inr new ↦
          let same =
            challenged-store config u.id (create_email_challenge config env u.id u.email fp s) in
          let rest = create-UsedUp config env u.id u.email fp k s h in
          ground (arith, new, same, rest)
    ]

login-UsedUp :
    (config : LoginConfig) (env : LoginEnv) (email password : ℕ) (ctx : LoginContext) (k : ℕ)
    (s : LoginStore)
    → UsedUp k s
    → UsedUp k (login config env email password ctx s).1
unfolding login
login-UsedUp config env email password ctx k s h =
    elim (Option-cases (find_first (has_email config email) s.users)) [
      | inl e ↦ ground (arith, e, h)
      | inr (u, e) ↦
          let rest = admit-UsedUp config env u (fingerprint config ctx) k s h in
          ground (arith, e, rest, h)
    ]

verify-UsedUp :
    (config : LoginConfig) (now j code k : ℕ) (s : LoginStore)
    → UsedUp k s
    → UsedUp k (verify config now j code s).1
unfolding verify
verify-UsedUp config now j code k s h = elim (Option-cases (challenge_of j s)) [
  | inl e ↦ ground (arith, e, h)
  | inr (c, e) ↦
      let key : c.id ≡ j = find-key challenge_key j s.challenges c e in
      let gone = find-modify challenge_key k c.id (used now) s.challenges (λ r. refl) in
      let counted = find-modify challenge_key k c.id attempted s.challenges (λ r. refl) in
      ground (arith, e, key, gone, counted, h, Option-cases (challenge_of k s))
]

resend-UsedUp :
    (config : LoginConfig) (env : LoginEnv) (j address k : ℕ) (s : LoginStore)
    → UsedUp k s
    → UsedUp k (resend config env j address s).1
unfolding resend
resend-UsedUp config env j address k s h = elim (Option-cases (challenge_of j s)) [
  | inl e ↦ ground (arith, e, h)
  | inr (c, e) ↦
      let key : c.id ≡ j = find-key challenge_key j s.challenges c e in
      let new = find-modify challenge_key k c.id (renewed config env) s.challenges (λ r. refl) in
      ground (arith, e, key, new, h, Option-cases (challenge_of k s))
]

mfa_verify-UsedUp :
    (config : LoginConfig) (env : LoginEnv) (token code : ℕ) (ctx : LoginContext) (k : ℕ)
    (s : LoginStore)
    → UsedUp k s
    → UsedUp k (mfa_verify config env token code ctx s).1
unfolding mfa_verify
mfa_verify-UsedUp config env token code ctx k s h =
    elim (Option-cases (verify_mfa config env.now token)) [
      | inl e ↦ ground (arith, e, h)
      | inr ((user, j), e) ↦
          let rest = verify-UsedUp config env.now j code k s h in
          let same = after_code-challenges config env user ctx (verify config env.now j code s) in
          ground (arith, e, rest, same)
    ]

mfa_resend-UsedUp :
    (config : LoginConfig) (env : LoginEnv) (token k : ℕ) (s : LoginStore)
    → UsedUp k s
    → UsedUp k (mfa_resend config env token s).1
unfolding mfa_resend
mfa_resend-UsedUp config env token k s h = elim (Option-cases (verify_mfa config env.now token)) [
  | inl e ↦ ground (arith, e, h)
  | inr ((user, j), e) ↦ elim (Option-cases (user_of user s)) [
    | inl gone ↦ ground (arith, e, gone, h)
    | inr (u, there) ↦
        let rest = resend-UsedUp config env j u.email k s h in
        let same = answer-store (config.sign_mfa user j) (resend config env j u.email s) in
        ground (arith, e, there, rest, same)
  ]
]

begin-UsedUp :
    (config : LoginConfig) (env : LoginEnv) (user fp k : ℕ) (s : LoginStore)
    → UsedUp k s
    → UsedUp k (begin_challenge config env user fp s).1
unfolding begin_challenge create_sms_challenge
begin-UsedUp config env user fp k s h = elim (Option-cases (user_of user s)) [
  | inl e ↦ ground (arith, e, h)
  | inr (u, e) ↦
      let same = id-store (create_sms_challenge config env user u.phone fp s) in
      let phones = Option-cases u.phone in
      let taken = Option-cases (challenge_of env.challenge_id s) in
      ground (arith, e, h, same, phones, taken)
]

after-UsedUp :
    (config : LoginConfig) (c : LoginCall) (k : ℕ) (s : LoginStore)
    → UsedUp k s
    → UsedUp k (after config c s)
unfolding refresh logout change_password set_first_login_password verify_elevation
after-UsedUp config (logs_in env email password ctx) k s h =
    login-UsedUp config env email password ctx k s h
after-UsedUp config (verifies env token code ctx) k s h =
    mfa_verify-UsedUp config env token code ctx k s h
after-UsedUp config (resends env token) k s h = mfa_resend-UsedUp config env token k s h
after-UsedUp config (refreshes env presented) k s h =
    let same =
      reply-challenges (λ r. r) (rotate_refresh config.crypto env.session presented s.auth) s in
    ground (arith, same, h)
after-UsedUp config (logs_out now j user) k s h =
    let same = reply-challenges (λ r. r) (revoke_one j user user_signout now s.auth) s in
    ground (arith, same, h)
after-UsedUp config (changes_password now u current new j) k s h = ground (arith, h)
after-UsedUp config (sets_password now u new j) k s h = ground (arith, h)
after-UsedUp config (begins_elevation env user fp) k s h = begin-UsedUp config env user fp k s h
after-UsedUp config (elevates now user j code scope) k s h =
    let rest = verify-UsedUp config now j code k s h in
    let (same, wrong) = elevated-reply user scope (verify config now j code s) in
    ground (arith, rest, same)

run-UsedUp :
    (config : LoginConfig) (cs : List LoginCall) (k : ℕ) (s : LoginStore)
    → UsedUp k s
    → UsedUp k (run config cs s)
run-UsedUp config [] k s h = h
run-UsedUp config (c ∷ cs) k s h =
    run-UsedUp config cs k (after config c s) (after-UsedUp config c k s h)

verify-used :
    (config : LoginConfig) (now k code : ℕ) (s : LoginStore)
    → is_granted (verify config now k code s).0 ≡ true
    → UsedUp k (verify config now k code s).1
unfolding verify
verify-used config now k code s h = elim (Option-cases (challenge_of k s)) [
  | inl e ↦ ground (arith, e, h)
  | inr (c, e) ↦
      let key : c.id ≡ k = find-key challenge_key k s.challenges c e in
      let gone = find-modify challenge_key k c.id (used now) s.challenges (λ r. refl) in
      ground (arith, e, key, gone, h)
]

after_code-granted :
    (config : LoginConfig) (env : LoginEnv) (user : ℕ) (ctx : LoginContext)
    (tested : LoginReply MfaChallenge × LoginStore) {r : LoginOutcome} {s' : LoginStore}
    → after_code config env user ctx tested ≡ (granted r, s')
    → is_granted tested.0 ≡ true
after_code-granted config env user ctx (granted c, s) h = refl
after_code-granted config env user ctx (denied e, s) h = ground (arith, h)

UsedUp-denied :
    (config : LoginConfig) (now k code : ℕ) (s : LoginStore)
    → UsedUp k s
    → verify config now k code s ≡ (denied challenge_used, s)
unfolding verify
UsedUp-denied config now k code s h = ground (arith, h, Option-cases (challenge_of k s))

-- The token of a challenge whose code signed a device in never signs one in again: whatever
-- AuthService and ElevationService are called for in between, any code is refused with it, from any
-- device, as used up or, once the token has expired, as invalid, and nothing changes.
pub run-mfa_verify_refused :
    (config : LoginConfig) (env env₂ : LoginEnv) (token code code₂ : ℕ) (ctx ctx₂ : LoginContext)
    (cs : List LoginCall) (s : LoginStore) {r : LoginOutcome} {s' : LoginStore}
    → mfa_verify config env token code ctx s ≡ (granted r, s')
    → mfa_verify config env₂ token code₂ ctx₂ (run config cs s') ≡ (
      denied (
          if leb (config.mfa_expires_at token) env₂.now then invalid_mfa_token else challenge_used),
      run config cs s',
    )
unfolding mfa_verify
run-mfa_verify_refused config env env₂ token code code₂ ctx ctx₂ cs s {r = r} {s' = s'} h =
    elim (Option-cases (verify_mfa config env.now token)) [
      | inl e ↦ ground (arith, e, h)
      | inr ((user, k), e) ↦
          let tested = verify config env.now k code s in
          let after_test : after_code config env user ctx tested ≡ (granted r, s') =
            ground (arith, e, h) in
          let accepted = after_code-granted config env user ctx tested after_test in
          let up = verify-used config env.now k code s accepted in
          let same = after_code-challenges config env user ctx tested in
          let still = run-UsedUp config cs k s' (ground (arith, up, same, after_test)) in
          let refused = UsedUp-denied config env₂.now k code₂ (run config cs s') still in
          ground (arith, e, refused)
    ]
