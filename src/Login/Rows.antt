-- ===== src/Login/Rows.antt =====
-- The rows of users and of MFA challenges, and the store that AuthService keeps (auth/auth.service.ts).
-- A password, a code, a hash or a token is a number: they are only compared. So is a text of a request,
-- where 0 is the empty one; an address is trimmed.
use meal.Prelude.{ℕ, Bool, Option, none, List, leb, if◌then◌else◌}
use meal.Sessions.Rows.{SessionStore, SessionError, Crypto, SessionEnv, IssueSessionResult}

pub data UserStatus : Type 0 where
  active frozen closed : UserStatus

pub record AuthUser : Type 0 where
  pub id : ℕ
  pub email : ℕ
  pub phone : Option ℕ
  pub status : UserStatus
  pub password_hash : ℕ
  pub security_setup_required : Bool

pub record MfaChallenge : Type 0 where
  pub id : ℕ
  pub user_id : ℕ
  pub code_hash : ℕ
  pub expires_at : ℕ
  pub attempts : ℕ
  pub consumed_at : Option ℕ
  pub pending_device_fingerprint : ℕ

-- A code on its way: by e-mail to the customer or to the admins, or by text message.
pub data Mail : Type 0 where
  code_mail : (address code : ℕ) → Mail
  text_message : (phone code : ℕ) → Mail
  admin_copy : (admins : List ℕ) → (address code : ℕ) → Mail

-- The tables and the mails sent, the latest first; the sessions and the devices are in `auth`.
pub record LoginStore : Type 0 where
  pub users : List AuthUser
  pub challenges : List MfaChallenge
  pub auth : SessionStore
  pub sent : List Mail

pub data LoginError : Type 0 where
  invalid_credentials account_not_active invalid_challenge challenge_used : LoginError
  challenge_expired too_many_attempts invalid_code invalid_mfa_token : LoginError
  user_gone current_incorrect must_differ not_awaiting_setup same_as_temporary : LoginError
  challenge_exists no_refresh_token sms_failed : LoginError
  invalid_elevation wrong_purpose scope_mismatch : LoginError
  elevation_required other_user : LoginError
  of_session : SessionError → LoginError

pub data LoginReply {ℓ} (A : Type ℓ) : Type ℓ where
  granted : A → LoginReply A
  denied : LoginError → LoginReply A

-- The configuration and the packages: a text in small letters, argon2, the signed token of a challenge
-- with the user and the challenge that it claims and the time at which it expires, sha256 over the four parts of a fingerprint, and the
-- admins that get a copy of each code, where that is switched on.
pub record LoginConfig : Type 0 where
  pub to_lower_case : ℕ → ℕ
  pub ttl_sec : ℕ
  pub max_attempts : ℕ
  pub admins : List ℕ
  pub argon_hash : ℕ → ℕ
  pub argon_verify : ℕ → ℕ → Bool
  pub sign_mfa : (user challenge : ℕ) → ℕ
  pub decode_mfa : ℕ → Option (ℕ × ℕ)
  pub mfa_expires_at : ℕ → ℕ
  pub digest : (user_agent accept_language timezone canvas_hash : ℕ) → ℕ
  pub crypto : Crypto

-- JwtCryptoService.verifyMfa: the signature is tested, and the expiry against the clock.
abbrev pub verify_mfa : LoginConfig → (now token : ℕ) → Option (ℕ × ℕ)
verify_mfa config now token =
    if leb (config.mfa_expires_at token) now then none else config.decode_mfa token

-- The clock, what a call draws at random, and whether the provider of text messages takes them.
pub record LoginEnv : Type 0 where
  pub now : ℕ
  pub challenge_id : ℕ
  pub device_id : ℕ
  pub code : ℕ
  pub sms_up : Bool
  pub session : SessionEnv

pub record LoginContext : Type 0 where
  pub user_agent : ℕ
  pub accept_language : ℕ
  pub timezone : ℕ
  pub canvas_hash : ℕ

pub data LoginOutcome : Type 0 where
  session_stage : IssueSessionResult → LoginOutcome
  mfa_stage : (mfa_token : ℕ) → LoginOutcome
