-- ===== src/Login/Attempts.antt =====
-- What the calls of MfaService do to the attempts that are left.
use meal.Prelude.{
  ℕ, ◌+◌, ◌-◌, ◌≡◌, ◌≤◌, inl, inr, refl, Bool, true, false, ◌&&◌, Option, none, some, arith, ◌==◌,
  if◌then◌else◌, Bool-cases, Option-cases,
}
use meal.Prelude.Table.{find_first, find-key, find-modify}
use meal.Sessions.Rows.{Reply, accepted, refused, SessionStore}
use meal.Sessions.{issue_session}
use meal.Login.Rows.{
  session_stage, AuthUser, MfaChallenge, LoginStore, LoginError, invalid_code, LoginReply, granted,
  denied, LoginConfig, LoginEnv, LoginContext,
}
use meal.Login.Challenges.{
  challenge_key, challenge_of, create_email_challenge, create_sms_challenge, attempted, used,
  verify, renewed, resend,
}
use meal.Login.Devices.{fingerprint, find_known, upsert_on_login, mark_trusted}
use meal.Login.Elevation.{ElevationScope, challenge_id_of, begin_challenge, elevated}
use meal.Login.{
  answer_token, user_of, has_email, of_reply, start_session, challenged, is_known_trusted, admit,
  login, after_code,
}

abbrev pub wrong_code : LoginError → ℕ
wrong_code invalid_code = 1
wrong_code _ = 0

-- 1 if a code was tested and failed.
abbrev pub is_wrong : {A : Type 0} → LoginReply A → ℕ
is_wrong (granted a) = 0
is_wrong (denied e) = wrong_code e

-- The attempts that are left for the code of the challenge that is open now.
abbrev pub left_of : ℕ → Option MfaChallenge → ℕ
left_of most none = most
left_of most (some c) = most - c.attempts

abbrev pub left : LoginConfig → ℕ → LoginStore → ℕ
left config k s = left_of config.max_attempts (challenge_of k s)

create_sms-left :
    (config : LoginConfig) (env : LoginEnv) (user : ℕ) (phone : Option ℕ) (fp k : ℕ)
    (s : LoginStore)
    → left config k (create_sms_challenge config env user phone fp s).1 ≤ left config k s
unfolding create_sms_challenge
create_sms-left config env user phone fp k s =
    elim (Option-cases (challenge_of env.challenge_id s)) [
      | inl e ↦ ground (arith, e, Option-cases phone)
      | inr (c, e) ↦ ground (arith, e)
    ]

pub id-store : (r : LoginReply MfaChallenge × LoginStore) → (challenge_id_of r).1 ≡ r.1
id-store (granted c, s) = refl
id-store (denied e, s) = refl

pub begin-left :
    (config : LoginConfig) (env : LoginEnv) (user fp k : ℕ) (s : LoginStore)
    → left config k (begin_challenge config env user fp s).1 ≤ left config k s
unfolding begin_challenge
begin-left config env user fp k s = elim (Option-cases (user_of user s)) [
  | inl e ↦ ground (arith, e)
  | inr (u, e) ↦
      let rest = create_sms-left config env user u.phone fp k s in
      let same = id-store (create_sms_challenge config env user u.phone fp s) in
      ground (arith, e, rest, same)
]

pub elevated-reply :
    (user : ℕ) (scope : ElevationScope) (r : LoginReply MfaChallenge × LoginStore)
    → ((elevated user scope r).1 ≡ r.1) × (is_wrong (elevated user scope r).0 ≡ is_wrong r.0)
elevated-reply user scope (granted c, s) = (refl, refl)
elevated-reply user scope (denied e, s) = (refl, refl)

pub reply-challenges :
    {A B : Type 0} (f : A → B) (r : Reply A × SessionStore) (s : LoginStore)
    → (of_reply f r s).1.challenges ≡ s.challenges
reply-challenges f (accepted x, a) s = refl
reply-challenges f (refused e, a) s = refl

pub start-challenges :
    (config : LoginConfig) (env : LoginEnv) (user device : ℕ) (a : SessionStore) (s : LoginStore)
    → (start_session config env user device a s).1.challenges ≡ s.challenges
start-challenges config env user device a s =
    reply-challenges session_stage
      (issue_session config.crypto env.session (record { user_id = user; device_id = device }) a) s

pub challenged-store :
    (config : LoginConfig) (user : ℕ) (r : LoginReply MfaChallenge × LoginStore)
    → (challenged config user r).1 ≡ r.1
challenged-store config user (granted c, s) = refl
challenged-store config user (denied e, s) = refl

create-left :
    (config : LoginConfig) (env : LoginEnv) (user address fp k : ℕ) (s : LoginStore)
    → left config k (create_email_challenge config env user address fp s).1 ≤ left config k s
unfolding create_email_challenge
create-left config env user address fp k s = elim (Option-cases (challenge_of env.challenge_id s)) [
  | inl e ↦ ground (arith, e)
  | inr (c, e) ↦ ground (arith, e)
]

admit-left :
    (config : LoginConfig) (env : LoginEnv) (u : AuthUser) (fp k : ℕ) (s : LoginStore)
    → left config k (admit config env u fp s).1 ≤ left config k s
admit-left config env u fp k s = elim (Bool-cases (is_known_trusted (find_known u.id fp s.auth))) [
  | inl known ↦
      let (d, a) = upsert_on_login env.now env.device_id u.id fp s.auth in
      let same = start-challenges config env u.id d.id a s in ground (arith, known, same)
  | inr new ↦
      let same =
        challenged-store config u.id (create_email_challenge config env u.id u.email fp s) in
      let rest = create-left config env u.id u.email fp k s in ground (arith, new, same, rest)
]

pub login-left :
    (config : LoginConfig) (env : LoginEnv) (email password : ℕ) (ctx : LoginContext) (k : ℕ)
    (s : LoginStore)
    → left config k (login config env email password ctx s).1 ≤ left config k s
unfolding login
login-left config env email password ctx k s =
    elim (Option-cases (find_first (has_email config email) s.users)) [
      | inl e ↦ ground (arith, e)
      | inr (u, e) ↦
          let rest = admit-left config env u (fingerprint config ctx) k s in ground (arith, e, rest)
    ]

pub after_code-challenges :
    (config : LoginConfig) (env : LoginEnv) (user : ℕ) (ctx : LoginContext)
    (r : LoginReply MfaChallenge × LoginStore)
    → (after_code config env user ctx r).1.challenges ≡ r.1.challenges
after_code-challenges config env user ctx (denied e, s) = refl
after_code-challenges config env user ctx (granted c, s) = elim (Option-cases (user_of user s)) [
  | inl e ↦ ground (arith, e)
  | inr (u, e) ↦
      let (d, a) = upsert_on_login env.now env.device_id u.id (fingerprint config ctx) s.auth in
      let same = start-challenges config env u.id d.id (mark_trusted d.id a) s in
      ground (arith, e, same)
]

pub verify-left :
    (config : LoginConfig) (now j code k : ℕ) (s : LoginStore)
    → let (r, s') = verify config now j code s in
      (if j == k then is_wrong r else 0) + left config k s' ≤ left config k s
unfolding verify
verify-left config now j code k s = elim (Option-cases (challenge_of j s)) [
  | inl e ↦ ground (arith, e)
  | inr (c, e) ↦
      let key : c.id ≡ j = find-key challenge_key j s.challenges c e in
      let gone = find-modify challenge_key k c.id (used now) s.challenges (λ r. refl) in
      let counted = find-modify challenge_key k c.id attempted s.challenges (λ r. refl) in
      ground (arith, e, key, gone, counted)
]

abbrev pub is_granted : LoginReply MfaChallenge → Bool
is_granted (granted c) = true
is_granted (denied e) = false

pub resend-left :
    (config : LoginConfig) (env : LoginEnv) (j address k : ℕ) (s : LoginStore)
    → let (r, s') = resend config env j address s in
      left config k s'
      ≤ left config k s + (if (j == k) && is_granted r then config.max_attempts else 0)
unfolding resend
resend-left config env j address k s = elim (Option-cases (challenge_of j s)) [
  | inl e ↦ ground (arith, e)
  | inr (c, e) ↦
      let key : c.id ≡ j = find-key challenge_key j s.challenges c e in
      let new = find-modify challenge_key k c.id (renewed config env) s.challenges (λ r. refl) in
      ground (arith, e, key, new)
]

pub answer-store :
    (token : ℕ) (r : LoginReply MfaChallenge × LoginStore) → (answer_token token r).1 ≡ r.1
answer-store token (granted c, s) = refl
answer-store token (denied e, s) = refl
