-- ===== src/Login/Recovery.antt =====
-- RecoveryController (auth/signup/recovery.controller.ts): a new password by a code that is mailed.
use meal.Prelude.{
  ℕ, ◌+◌, ◌*◌, Bool, true, false, ◌&&◌, Option, none, some, List, [], ◌∷◌, leb, ltb, ◌==◌,
  if◌then◌else◌,
}
use meal.Prelude.Table.{find_first, modify, select, update_where}
use meal.Login.Rows.{AuthUser, code_mail, LoginStore, LoginConfig}
use meal.Login.{user_of, store_password}

pub record ResetChallenge : Type 0 where
  pub id : ℕ
  pub user_id : ℕ
  pub email_hash : ℕ
  pub code_hash : ℕ
  pub expires_at : ℕ
  pub attempts : ℕ
  pub consumed_at : Option ℕ
  pub superseded_at : Option ℕ
  pub created_at : ℕ

-- `hash_email` is the HMAC of an address; `decode_recovery` is the user that a
-- token with a good signature is for, and `recovery_expires_at` when it expires.
pub record RecoveryConfig : Type 0 where
  pub login : LoginConfig
  pub ttl_sec : ℕ
  pub max_attempts : ℕ
  pub hash_email : ℕ → ℕ
  pub sign_recovery : ℕ → ℕ
  pub decode_recovery : ℕ → Option ℕ
  pub recovery_expires_at : ℕ → ℕ

-- JwtCryptoService.verifyRecovery: the signature is tested, and the expiry against the clock.
abbrev pub verify_recovery : RecoveryConfig → (now token : ℕ) → Option ℕ
verify_recovery config now token =
    if leb (config.recovery_expires_at token) now then none else config.decode_recovery token

pub record RecoveryEnv : Type 0 where
  pub now : ℕ
  pub id : ℕ
  pub code : ℕ

pub record RecoveryStore : Type 0 where
  pub base : LoginStore
  pub resets : List ResetChallenge

pub data RecoveryError : Type 0 where
  invalid_or_expired_code invalid_or_expired_token invalid_token password_too_short : RecoveryError

pub data RecoveryReply {ℓ} (A : Type ℓ) : Type ℓ where
  fulfilled : A → RecoveryReply A
  rejected : RecoveryError → RecoveryReply A

abbrev is_none : Option ℕ → Bool
is_none none = true
is_none (some t) = false

-- `consumedAt: null, supersededAt: null`
abbrev pub is_open_for : ℕ → ResetChallenge → Bool
is_open_for hash c = c.email_hash == hash && (is_none c.consumed_at && is_none c.superseded_at)

abbrev pub is_open_of : (user hash : ℕ) → ResetChallenge → Bool
is_open_of user hash c = c.user_id == user && is_open_for hash c

abbrev superseded_reset : ℕ → ResetChallenge → ResetChallenge
superseded_reset now c = record c { superseded_at = some now }

abbrev pub new_reset : RecoveryConfig → RecoveryEnv → (user hash : ℕ) → ResetChallenge
new_reset config env user hash = record {
  id = env.id;
  user_id = user;
  email_hash = hash;
  code_hash = config.login.argon_hash env.code;
  expires_at = env.now + config.ttl_sec * 1000;
  attempts = 0;
  consumed_at = none;
  superseded_at = none;
  created_at = env.now;
}

abbrev stored_as : ℕ → AuthUser → Bool
stored_as address u = u.email == address

-- The user's open codes are superseded, and a new one is mailed.
abbrev pub issue_reset : RecoveryConfig → RecoveryEnv → AuthUser → ℕ → RecoveryStore → RecoveryStore
issue_reset config env u hash s = record {
  base = record s.base { sent = code_mail u.email env.code ∷ s.base.sent };
  resets =
      new_reset config env u.id hash
      ∷ update_where (is_open_of u.id hash) (superseded_reset env.now) s.resets;
}

-- `request`: the answer is the same whether there is an account or not.
unfoldable pub request_reset :
    RecoveryConfig → RecoveryEnv → ℕ → RecoveryStore → RecoveryReply (Unit {0}) × RecoveryStore
request_reset config env address s =
    let email = config.login.to_lower_case address in
    elim (find_first (stored_as email) s.base.users) [
      | none ↦ (fulfilled tt, s)
      | some u ↦ (fulfilled tt, issue_reset config env u (config.hash_email email) s)
    ]

-- `orderBy: { createdAt: 'desc' }`
abbrev pub newest_reset : List ResetChallenge → Option ResetChallenge
newest_reset [] = none
newest_reset (c ∷ cs) = elim (newest_reset cs) [
  | none ↦ some c
  | some d ↦ if ltb c.created_at d.created_at then some d else some c
]

abbrev pub reset_key : ResetChallenge → ℕ
reset_key c = c.id

abbrev change_reset : ℕ → (ResetChallenge → ResetChallenge) → RecoveryStore → RecoveryStore
change_reset k f s = record s { resets = modify reset_key k f s.resets }

abbrev counted_reset : ResetChallenge → ResetChallenge
counted_reset c = record c { attempts = c.attempts + 1 }

abbrev consumed_reset : ℕ → ResetChallenge → ResetChallenge
consumed_reset now c = record c { consumed_at = some now }

abbrev pub verify_reset_row :
    RecoveryConfig
    → (now code : ℕ) → ResetChallenge
    → RecoveryStore
    → RecoveryReply ℕ × RecoveryStore
verify_reset_row config now code c s =
    if ltb c.expires_at now
    then (rejected invalid_or_expired_code, s)
    else if leb config.max_attempts c.attempts
    then (rejected invalid_or_expired_code, s)
    else if config.login.argon_verify c.code_hash code
    then (fulfilled (config.sign_recovery c.user_id), change_reset c.id (consumed_reset now) s)
    else (rejected invalid_or_expired_code, change_reset c.id counted_reset s)

unfoldable pub verify_reset :
    RecoveryConfig → (now address code : ℕ) → RecoveryStore → RecoveryReply ℕ × RecoveryStore
verify_reset config now address code s =
    let hash = config.hash_email (config.login.to_lower_case address) in
    elim (newest_reset (select (is_open_for hash) s.resets)) [
      | none ↦ (rejected invalid_or_expired_code, s)
      | some c ↦ verify_reset_row config now code c s
    ]

-- The session id that stands for none: all sessions of the user are revoked.
abbrev pub nil_uuid : ℕ
nil_uuid = 0

-- `reset`, with the length of the new password.
unfoldable pub reset_password :
    RecoveryConfig
    → (now token password length : ℕ) → RecoveryStore
    → RecoveryReply (Unit {0}) × RecoveryStore
reset_password config now token password length s = elim (verify_recovery config now token) [
  | none ↦ (rejected invalid_or_expired_token, s)
  | some user ↦ elim (user_of user s.base) [
    | none ↦ (rejected invalid_token, s)
    | some u ↦ if ltb length 8 then (rejected password_too_short, s) else (
      fulfilled tt,
      record s { base = store_password config.login now u.id password nil_uuid s.base },
    )
  ]
]
