-- ===== src/Sessions/Rows.antt =====
-- The rows of sign-in sessions, and the store that SessionsService keeps (sessions/sessions.service.ts).
-- A token, its hash and its jti are numbers: they are only compared.
use meal.Prelude.{ℕ, Bool, Option, none, List, leb, if◌then◌else◌}

pub data RevokedReason : Type 0 where
  user_signout newer_login password_changed admin_revoke reuse_detected idle_timeout : RevokedReason

pub record Session : Type 0 where
  pub id : ℕ
  pub user_id : ℕ
  pub device_id : ℕ
  pub access_token_jti : ℕ
  pub refresh_token_hash : ℕ
  pub refresh_token_family_id : ℕ
  pub expires_at : ℕ
  pub last_seen_at : ℕ
  pub revoked_at : Option ℕ
  pub revoked_reason : Option RevokedReason

pub record RefreshTokenAudit : Type 0 where
  pub family_id : ℕ
  pub token_hash : ℕ
  pub session_id : ℕ

pub record Device : Type 0 where
  pub id : ℕ
  pub user_id : ℕ
  pub fingerprint : ℕ
  pub trusted : Bool
  pub last_seen_at : ℕ
  pub revoked_at : Option ℕ

pub data SessionEvent : Type 0 where
  session_revoked : (user session : ℕ) → RevokedReason → SessionEvent
  session_created : (user session device : ℕ) → SessionEvent

-- The tables, and the events emitted, the latest first.
pub record SessionStore : Type 0 where
  pub sessions : List Session
  pub audits : List RefreshTokenAudit
  pub devices : List Device
  pub events : List SessionEvent

pub data SessionError : Type 0 where
  invalid_refresh refresh_reused refresh_no_longer_valid session_timed_out : SessionError
  session_not_found not_your_session unique_violation : SessionError
  no_longer_active session_expired : SessionError

pub data Reply {ℓ} (A : Type ℓ) : Type ℓ where
  accepted : A → Reply A
  refused : SessionError → Reply A

-- The packages: sha256 of a token; and of a token with a good signature, its `fam` claim and the
-- time at which it expires.
pub record Crypto : Type 0 where
  pub sha256 : ℕ → ℕ
  pub decode_refresh : ℕ → Option (Option ℕ)
  pub refresh_expires_at : ℕ → ℕ

-- JwtCryptoService.verifyRefresh: the signature is tested, and the expiry against the clock.
abbrev pub verify_refresh : Crypto → (now token : ℕ) → Option (Option ℕ)
verify_refresh crypto now token =
    if leb (crypto.refresh_expires_at token) now then none else crypto.decode_refresh token

-- The configuration, the clock, and what is drawn at random or signed with it.
pub record SessionEnv : Type 0 where
  pub refresh_ttl_ms : ℕ
  pub idle_ms : ℕ
  pub now : ℕ
  pub session_id : ℕ
  pub family_id : ℕ
  pub access_jti : ℕ
  pub refresh_token : ℕ

pub record IssueSessionInput : Type 0 where
  pub user_id : ℕ
  pub device_id : ℕ

pub record IssueSessionResult : Type 0 where
  pub session : Session
  pub access_jti : ℕ
  pub refresh_token : ℕ
  pub revoked_ids : List ℕ
