-- ===== src/Signup/Codes.antt =====
-- VerificationService (auth/signup/verification.service.ts): the codes that prove an address or a phone.
use meal.Prelude.{
  ℕ, ◌+◌, ◌-◌, ◌*◌, Bool, true, false, not, ◌&&◌, Option, none, some, List, [], ◌∷◌, leb, ltb, ◌==◌,
  if◌then◌else◌,
}
use meal.Prelude.Table.{find, modify, select}
use meal.Signup.Rows.{
  VerificationChannel, email, sms, SignupSession, Verification, Delivery, mails, texts, SignupStore,
  no_destination, verification_not_found, already_consumed, was_superseded, code_expired,
  too_many_attempts, invalid_code, delivery_failed, Outcome, done, failed, is_some, is_filled,
}

-- The configuration, the clock, the fresh id and code, argon2, and the state of the providers.
pub record CodeEnv : Type 0 where
  pub ttl_sec : ℕ
  pub max_attempts : ℕ
  pub cooldown_sec : ℕ
  pub now : ℕ
  pub id : ℕ
  pub code : ℕ
  pub argon_hash : ℕ → ℕ
  pub argon_verify : ℕ → ℕ → Bool
  pub has_twilio : Bool
  pub twilio_up : Bool

pub record SendResult : Type 0 where
  pub verification_id : ℕ
  pub channel : VerificationChannel
  pub retry_after_ms : ℕ

abbrev pub channel_eq : VerificationChannel → VerificationChannel → Bool
channel_eq email email = true
channel_eq sms sms = true
channel_eq _ _ = false

abbrev pub filled : Option ℕ → Option ℕ
filled o = if is_filled o then o else none

-- `getDestination`
abbrev pub destination_of : SignupSession → VerificationChannel → Option ℕ
destination_of x email = filled x.email
destination_of x sms = filled x.phone

-- `Math.max(0, cooldown - elapsed)`, for a row from now or before.
abbrev pub retry_after : CodeEnv → Verification → ℕ
retry_after env v = env.cooldown_sec * 1000 - (env.now - v.created_at)

abbrev pub is_open : ℕ → Verification → Bool
is_open k v =
    v.signup_session_id == k && (not (is_some v.consumed_at) && not (is_some v.superseded_at))

-- The newest of the rows; of two from the same time, the first.
abbrev pub newest : List Verification → Option Verification
newest [] = none
newest (v ∷ vs) = elim (newest vs) [
  | none ↦ some v
  | some w ↦ if ltb v.created_at w.created_at then some w else some v
]

abbrev pub verification_key : Verification → ℕ
verification_key v = v.id

abbrev pub verification_of : ℕ → SignupStore → Option Verification
verification_of k s = find verification_key k s.verifications

abbrev pub change_verification : ℕ → (Verification → Verification) → SignupStore → SignupStore
change_verification k f s = record s { verifications = modify verification_key k f s.verifications }

abbrev pub consumed : ℕ → Verification → Verification
consumed now v = record v { consumed_at = some now }

abbrev pub superseded : ℕ → Verification → Verification
superseded now v = record v { superseded_at = some now }

abbrev pub add_sent : Delivery → SignupStore → SignupStore
add_sent d s = record s { sent = d ∷ s.sent }

-- `dispatch`, without the admin's copy. A text message goes out by e-mail where no carrier is set up.
abbrev pub dispatch :
    CodeEnv
    → VerificationChannel
    → (destination code : ℕ) → Option ℕ
    → SignupStore
    → Outcome (Unit {0}) × SignupStore
dispatch env email destination code fallback s = (done tt, add_sent (mails destination code) s)
dispatch env sms destination code fallback s = elim (filled fallback) [
  | none ↦ send_text
  | some address ↦ if env.has_twilio then send_text else (done tt, add_sent (mails address code) s)
]
  where
    send_text : Outcome (Unit {0}) × SignupStore
    send_text =
        if env.twilio_up
        then (done tt, add_sent (texts destination code) s)
        else (failed delivery_failed, s)

abbrev pub new_verification : CodeEnv → ℕ → VerificationChannel → ℕ → Verification
new_verification env session channel destination = record {
  id = env.id;
  signup_session_id = session;
  channel = channel;
  destination = destination;
  code_hash = env.argon_hash env.code;
  expires_at = env.now + env.ttl_sec * 1000;
  attempts = 0;
  consumed_at = none;
  superseded_at = none;
  created_at = env.now;
}

abbrev pub answer_with :
    {A : Type 0} → A → Outcome (Unit {0}) × SignupStore → Outcome A × SignupStore
answer_with a (done u, s) = (done a, s)
answer_with a (failed e, s) = (failed e, s)

abbrev pub sent_result : CodeEnv → VerificationChannel → SendResult
sent_result env channel = record {
  verification_id = env.id;
  channel = channel;
  retry_after_ms = env.cooldown_sec * 1000;
}

-- A new code, stored and sent.
abbrev pub send_new :
    CodeEnv
    → SignupSession
    → VerificationChannel
    → ℕ
    → SignupStore
    → Outcome SendResult × SignupStore
send_new env x channel destination s = answer_with (sent_result env channel) (
    dispatch env channel destination env.code x.email (record s {
      verifications = new_verification env x.id channel destination ∷ s.verifications;
    }))

-- What becomes of the open code: it is kept, or it is closed and a new one is sent.
abbrev pub send_after :
    CodeEnv
    → SignupSession
    → VerificationChannel
    → ℕ
    → Option Verification
    → SignupStore
    → Outcome SendResult × SignupStore
send_after env x channel destination none s = send_new env x channel destination s
send_after env x channel destination (some v) s =
    let expired = ltb v.expires_at env.now in
    if not expired && channel_eq v.channel channel
    then (
      done (record {
        verification_id = v.id;
        channel = v.channel;
        retry_after_ms = retry_after env v;
      }),
      s,
    )
    else send_new env x channel destination
        (change_verification v.id (if expired then consumed env.now else superseded env.now) s)

unfoldable pub send :
    CodeEnv → SignupSession → VerificationChannel → SignupStore → Outcome SendResult × SignupStore
send env x channel s = elim (destination_of x channel) [
  | none ↦ (failed no_destination, s)
  | some destination ↦
      send_after env x channel destination (newest (select (is_open x.id) s.verifications)) s
]

abbrev pub renewed : CodeEnv → Verification → Verification
renewed env v = record v {
  code_hash = env.argon_hash env.code;
  expires_at = env.now + env.ttl_sec * 1000;
  attempts = 0;
  created_at = env.now;
}

abbrev pub resend_row :
    CodeEnv → SignupSession → Verification → SignupStore → Outcome ℕ × SignupStore
resend_row env x v s =
    if ltb env.now (v.created_at + env.cooldown_sec * 1000)
    then (done (retry_after env v), s)
    else answer_with (env.cooldown_sec * 1000) (
        dispatch env v.channel v.destination env.code x.email
          (change_verification v.id (renewed env) s))

unfoldable pub resend : CodeEnv → SignupSession → ℕ → SignupStore → Outcome ℕ × SignupStore
resend env x k s = elim (verification_of k s) [
  | none ↦ (failed verification_not_found, s)
  | some v ↦
      if not (v.signup_session_id == x.id)
      then (failed verification_not_found, s)
      else if is_some v.consumed_at
      then (failed already_consumed, s)
      else if is_some v.superseded_at
      then (failed was_superseded, s)
      else resend_row env x v s
]

abbrev pub counted : Verification → Verification
counted v = record v { attempts = v.attempts + 1 }

abbrev pub verify_row :
    CodeEnv → ℕ → Verification → SignupStore → Outcome VerificationChannel × SignupStore
verify_row env code v s =
    if ltb v.expires_at env.now
    then (failed code_expired, s)
    else if leb env.max_attempts v.attempts
    then (failed too_many_attempts, s)
    else if env.argon_verify v.code_hash code
    then (done v.channel, change_verification v.id (consumed env.now) s)
    else (failed invalid_code, change_verification v.id counted s)

unfoldable pub verify :
    CodeEnv → SignupSession → ℕ → ℕ → SignupStore → Outcome VerificationChannel × SignupStore
verify env x k code s = elim (verification_of k s) [
  | none ↦ (failed verification_not_found, s)
  | some v ↦
      if not (v.signup_session_id == x.id)
      then (failed verification_not_found, s)
      else if is_some v.superseded_at
      then (failed was_superseded, s)
      else if is_some v.consumed_at
      then (failed already_consumed, s)
      else verify_row env code v s
]
