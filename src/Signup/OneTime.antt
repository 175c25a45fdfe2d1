-- ===== src/Signup/OneTime.antt =====
-- A code that was sent proves its session once.
use meal.Prelude.{
  ℕ, ◌+◌, ◌*◌, ◌≤◌, ◌<◌, ◌≡◌, ◌≢◌, inl, inr, refl, Bool, true, not, ◌&&◌, if_cases, Option, none,
  some, List, [], ◌∷◌, arith, if◌then◌else◌, Bool-cases, subst, Option-cases, ltb,
}
use meal.Prelude.Table.{find, find-modify, find-key, select}
use meal.Signup.Rows.{
  VerificationChannel, email, sms, SignupSession, Verification, SignupStore, Outcome, done, failed,
  already_consumed,
}
use meal.Signup.Codes.{
  CodeEnv, SendResult, send, send_after, send_new, dispatch, resend, verify, destination_of,
  verification_of, verification_key, filled, new_verification, answer_with, renewed, consumed,
  superseded, sent_result, change_verification, is_open, newest, channel_eq,
}

-- What is sent does not change the sessions or the codes.
dispatch-tables :
    (env : CodeEnv) (channel : VerificationChannel) (destination code : ℕ) (fallback : Option ℕ)
    (s : SignupStore)
    → let s' = (dispatch env channel destination code fallback s).1 in
      (s'.sessions ≡ s.sessions) × (s'.verifications ≡ s.verifications) × (s'.users ≡ s.users)
dispatch-tables env email destination code fallback s = (refl, refl, refl)
dispatch-tables env sms destination code fallback s = elim (Option-cases (filled fallback)) [
  | inl e ↦ ground (arith, e)
  | inr (a, e) ↦ ground (arith, e)
]

answer-tables :
    {A : Type 0} (a : A) (r : Outcome (Unit {0}) × SignupStore) → (answer_with a r).1 ≡ r.1
answer-tables a (done u, s) = refl
answer-tables a (failed e, s) = refl

abbrev SameCustomers : SignupStore → SignupStore → Type 0
SameCustomers s s' = (s'.sessions ≡ s.sessions) × (s'.users ≡ s.users)

send_new-SameCustomers :
    (env : CodeEnv) (x : SignupSession) (channel : VerificationChannel) (destination : ℕ)
    (s : SignupStore)
    → SameCustomers s (send_new env x channel destination s).1
send_new-SameCustomers env x channel destination s =
    let stored = record s {
      verifications = new_verification env x.id channel destination ∷ s.verifications;
    } in
    let sent = dispatch-tables env channel destination env.code x.email stored in
    rw (answer-tables _ (dispatch env channel destination env.code x.email stored)) (sent.0, sent.2)

send_after-SameCustomers :
    (env : CodeEnv) (x : SignupSession) (channel : VerificationChannel) (d : ℕ)
    (o : Option Verification) (s : SignupStore)
    → SameCustomers s (send_after env x channel d o s).1
send_after-SameCustomers env x channel d none s = send_new-SameCustomers env x channel d s
send_after-SameCustomers env x channel d (some v) s =
    if_cases {A = Outcome SendResult × SignupStore} (λ r. SameCustomers s r.1)
      (not (ltb v.expires_at env.now) && channel_eq v.channel channel) (λ kept. (refl, refl))
      (λ closed. send_new-SameCustomers env x channel d _)

pub send-SameCustomers :
    (env : CodeEnv) (x : SignupSession) (channel : VerificationChannel) (s : SignupStore)
    → SameCustomers s (send env x channel s).1
unfolding send
send-SameCustomers env x channel s = elim (Option-cases (destination_of x channel)) [
  | inl e ↦ ground (arith, e)
  | inr (d, e) ↦
      let rest =
        send_after-SameCustomers env x channel d (newest (select (is_open x.id) s.verifications))
          s in
      ground (arith, e, rest)
]

pub resend-SameCustomers :
    (env : CodeEnv) (x : SignupSession) (k : ℕ) (s : SignupStore)
    → SameCustomers s (resend env x k s).1
unfolding resend
resend-SameCustomers env x k s = elim (Option-cases (verification_of k s)) [
  | inl e ↦ ground (arith, e)
  | inr (v, e) ↦
      let stored = change_verification v.id (renewed env) s in
      let sent = dispatch-tables env v.channel v.destination env.code x.email stored in
      let same =
        answer-tables (env.cooldown_sec * 1000)
          (dispatch env v.channel v.destination env.code x.email stored) in
      ground (arith, e, sent, same)
]

pub verify-SameCustomers :
    (env : CodeEnv) (x : SignupSession) (k code : ℕ) (s : SignupStore)
    → SameCustomers s (verify env x k code s).1
unfolding verify
verify-SameCustomers env x k code s = elim (Option-cases (verification_of k s)) [
  | inl e ↦ ground (arith, e)
  | inr (v, e) ↦ ground (arith, e)
]

-- A code that has proved a session proves nothing again: it is refused at any time, whatever is
-- entered, and nothing changes.
pub verify_once :
    (env env₂ : CodeEnv) (x : SignupSession) (k code code₂ : ℕ) (s : SignupStore)
    {channel : VerificationChannel} {s' : SignupStore}
    → verify env x k code s ≡ (done channel, s')
    → verify env₂ x k code₂ s' ≡ (failed already_consumed, s')
unfolding verify
verify_once env env₂ x k code code₂ s h = elim (Option-cases (verification_of k s)) [
  | inl e ↦ ground (arith, e)
  | inr (v, e) ↦
      let key : v.id ≡ k = find-key verification_key k s.verifications v e in
      let at = find-modify verification_key k k (consumed env.now) s.verifications (λ r. refl) in
      ground (arith, h, e, key, at)
]

-- A code under a new number is in the table.
record Stored (env : CodeEnv) (x : SignupSession) (channel : VerificationChannel) (s' : SignupStore)
    : Type 0 where
  destination : ℕ
  row : verification_of env.id s' ≡ some (new_verification env x.id channel destination)

Stored-new :
    (env : CodeEnv) (x : SignupSession) (channel : VerificationChannel) (d : ℕ) (s : SignupStore)
    → Stored env x channel (send_new env x channel d s).1
Stored-new env x channel d s =
    let stored = record s {
      verifications = new_verification env x.id channel d ∷ s.verifications;
    } in
    let sent = dispatch-tables env channel d env.code x.email stored in
    let same =
      answer-tables (sent_result env channel) (dispatch env channel d env.code x.email stored) in
    record { destination = d; row = rw same (ground (arith, sent.1)) }

Stored-after :
    (env : CodeEnv) (x : SignupSession) (channel : VerificationChannel) (d : ℕ)
    (o : Option Verification) (s : SignupStore) {r : SendResult} {s' : SignupStore}
    → send_after env x channel d o s ≡ (done r, s')
    → ((v : Verification) → o ≡ some v → v.id ≢ env.id)
    → r.verification_id ≡ env.id
    → Stored env x channel s'
Stored-after env x channel d none s h other new =
    subst (λ (r : Outcome SendResult × SignupStore). Stored env x channel r.1) h
      (Stored-new env x channel d s)
Stored-after env x channel d (some v) s {r = r} {s' = s'} h other new =
    elim (Bool-cases (not (ltb v.expires_at env.now) && channel_eq v.channel channel)) [
      | inl kept ↦ absurd (other v refl (ground (arith, h, kept, new)))
      | inr closed ↦
          let expired = ltb v.expires_at env.now in
          let now_closed =
            change_verification v.id (if expired then consumed env.now else superseded env.now) s in
          let sent : send_new env x channel d now_closed ≡ (done r, s') =
            ground (arith, h, closed) in
          subst (λ (r : Outcome SendResult × SignupStore). Stored env x channel r.1) sent
            (Stored-new env x channel d now_closed)
    ]

-- The newest of some of the rows is one of the rows.
newest-select :
    (test : Verification → Bool) (k : ℕ) (vs : List Verification) (v : Verification)
    → find verification_key k vs ≡ none
    → newest (select test vs) ≡ some v
    → v.id ≢ k
newest-select test k [] v fresh h = ground (arith, h)
newest-select test k (w ∷ vs) v fresh h =
    let rest = newest-select test k vs in
    elim (Option-cases (newest (select test vs))) [
      | inl e ↦ ground (arith, fresh, h, e)
      | inr (u, e) ↦ ground (arith, fresh, h, e, rest u)
    ]

Stored-of :
    (env : CodeEnv) (x : SignupSession) (channel : VerificationChannel) (s : SignupStore)
    {r : SendResult} {s' : SignupStore}
    → send env x channel s ≡ (done r, s')
    → verification_of env.id s ≡ none
    → r.verification_id ≡ env.id
    → Stored env x channel s'
unfolding send
Stored-of env x channel s {r = r} {s' = s'} h fresh new =
    elim (Option-cases (destination_of x channel)) [
      | inl e ↦ ground (arith, e, h)
      | inr (d, e) ↦
          let latest = newest (select (is_open x.id) s.verifications) in
          let sent : send_after env x channel d latest s ≡ (done r, s') = ground (arith, e, h) in
          Stored-after env x channel d latest s sent
            (λ v. newest-select (is_open x.id) env.id s.verifications v fresh) new
    ]

-- A new code that has been sent proves the session by its channel, when it is entered in time, if argon2
-- accepts the text that a hash was made from and some attempt is allowed.
pub send-verify :
    (env env₂ : CodeEnv) (x : SignupSession) (channel : VerificationChannel) (s : SignupStore)
    {r : SendResult} {s' : SignupStore}
    → send env x channel s ≡ (done r, s')
    → verification_of env.id s ≡ none
    → r.verification_id ≡ env.id
    → env₂.now ≤ env.now + env.ttl_sec * 1000
    → 0 < env₂.max_attempts
    → env₂.argon_verify (env.argon_hash env.code) env.code ≡ true
    → (verify env₂ x r.verification_id env.code s').0 ≡ done channel
unfolding verify
send-verify env env₂ x channel s h fresh new in_time some_allowed accepts =
    let p = Stored-of env x channel s h fresh new in
    ground (arith, p.row, new, in_time, some_allowed, accepts)
