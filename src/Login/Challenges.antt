-- ===== src/Login/Challenges.antt =====
-- MfaService (mfa/mfa.service.ts): the code that a sign-in from a new device is asked for.
use meal.Prelude.{
  ℕ, ◌+◌, ◌*◌, Bool, true, false, Option, none, some, List, [], ◌∷◌, leb, ltb, if◌then◌else◌,
}
use meal.Prelude.Table.{find, modify}
use meal.Login.Rows.{
  MfaChallenge, Mail, code_mail, text_message, admin_copy, LoginStore, invalid_challenge,
  challenge_used, challenge_expired, too_many_attempts, invalid_code, challenge_exists, sms_failed,
  LoginReply, granted, denied, LoginConfig, LoginEnv,
}

abbrev pub challenge_key : MfaChallenge → ℕ
challenge_key c = c.id

abbrev pub challenge_of : ℕ → LoginStore → Option MfaChallenge
challenge_of k s = find challenge_key k s.challenges

abbrev pub change_challenge : ℕ → (MfaChallenge → MfaChallenge) → LoginStore → LoginStore
change_challenge k f s = record s { challenges = modify challenge_key k f s.challenges }

abbrev pub is_used : MfaChallenge → Bool
is_used c = elim c.consumed_at [ none ↦ false | some t ↦ true ]

-- `sendAdminCopy`
abbrev pub send_admin_copy : List ℕ → (address code : ℕ) → List Mail → List Mail
send_admin_copy [] address code sent = sent
send_admin_copy (a ∷ admins) address code sent = admin_copy (a ∷ admins) address code ∷ sent

abbrev pub send_code : LoginConfig → (address code : ℕ) → LoginStore → LoginStore
send_code config address code s = record s {
  sent = send_admin_copy config.admins address code (code_mail address code ∷ s.sent);
}

abbrev pub new_challenge : LoginConfig → LoginEnv → (user fingerprint : ℕ) → MfaChallenge
new_challenge config env user fingerprint = record {
  id = env.challenge_id;
  user_id = user;
  code_hash = config.argon_hash env.code;
  expires_at = env.now + config.ttl_sec * 1000;
  attempts = 0;
  consumed_at = none;
  pending_device_fingerprint = fingerprint;
}

-- The id is drawn at random, and the database keeps it unique.
unfoldable pub create_email_challenge :
    LoginConfig
    → LoginEnv
    → (user address fingerprint : ℕ) → LoginStore
    → LoginReply MfaChallenge × LoginStore
create_email_challenge config env user address fingerprint s =
    elim (challenge_of env.challenge_id s) [
      | none ↦
          let c = new_challenge config env user fingerprint in
          (
            granted c,
            send_code config address env.code (record s { challenges = c ∷ s.challenges }),
          )
      | some c ↦ (denied challenge_exists, s)
    ]

-- A phone number that is missing is no error.
abbrev pub send_text :
    LoginEnv → Option ℕ → MfaChallenge → LoginStore → LoginReply MfaChallenge × LoginStore
send_text env none c s = (granted c, s)
send_text env (some phone) c s =
    if env.sms_up
    then (granted c, record s { sent = text_message phone env.code ∷ s.sent })
    else (denied sms_failed, s)

unfoldable pub create_sms_challenge :
    LoginConfig
    → LoginEnv
    → (user : ℕ) → (phone : Option ℕ) → (fingerprint : ℕ) → LoginStore
    → LoginReply MfaChallenge × LoginStore
create_sms_challenge config env user phone fingerprint s = elim (challenge_of env.challenge_id s) [
  | none ↦
      let c = new_challenge config env user fingerprint in
      send_text env phone c (record s { challenges = c ∷ s.challenges })
  | some c ↦ (denied challenge_exists, s)
]

abbrev pub attempted : MfaChallenge → MfaChallenge
attempted c = record c { attempts = c.attempts + 1 }

abbrev pub used : ℕ → MfaChallenge → MfaChallenge
used now c = record c { consumed_at = some now }

abbrev pub verify_challenge :
    LoginConfig → ℕ → ℕ → MfaChallenge → LoginStore → LoginReply MfaChallenge × LoginStore
verify_challenge config now code c s =
    if is_used c
    then (denied challenge_used, s)
    else if ltb c.expires_at now
    then (denied challenge_expired, s)
    else if leb config.max_attempts c.attempts
    then (denied too_many_attempts, s)
    else if config.argon_verify c.code_hash code
    then (granted (used now c), change_challenge c.id (used now) s)
    else (denied invalid_code, change_challenge c.id attempted s)

unfoldable pub verify :
    LoginConfig → ℕ → (challenge code : ℕ) → LoginStore → LoginReply MfaChallenge × LoginStore
verify config now k code s = elim (challenge_of k s) [
  | none ↦ (denied invalid_challenge, s)
  | some c ↦ verify_challenge config now code c s
]

abbrev pub renewed : LoginConfig → LoginEnv → MfaChallenge → MfaChallenge
renewed config env c = record c {
  code_hash = config.argon_hash env.code;
  expires_at = env.now + config.ttl_sec * 1000;
  attempts = 0;
}

-- `resend`, to an e-mail address, which is all that AuthService asks for.
unfoldable pub resend :
    LoginConfig
    → LoginEnv
    → (challenge address : ℕ) → LoginStore
    → LoginReply MfaChallenge × LoginStore
resend config env k address s = elim (challenge_of k s) [
  | none ↦ (denied invalid_challenge, s)
  | some c ↦ if is_used c then (denied challenge_used, s) else (
    granted (renewed config env c),
    send_code config address env.code (change_challenge c.id (renewed config env) s),
  )
]
