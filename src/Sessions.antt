-- ===== src/Sessions.antt =====
-- SessionsService (sessions/sessions.service.ts), session-idle.util.ts, and the test of an access token
-- (auth/strategies/jwt-access.strategy.ts).
pub mod Rows
pub mod Single
pub mod Replay
pub mod SignIn
use meal.Prelude.{
  ℕ, ◌+◌, Bool, true, false, not, ◌&&◌, ◌||◌, Option, none, some, List, [], ◌∷◌, leb, ◌==◌,
  if◌then◌else◌, length,
}
use meal.Prelude.Table.{find, modify, find_first, select, update_where, delete_where}
use meal.Sessions.Rows.{
  RevokedReason, newer_login, reuse_detected, idle_timeout, admin_revoke, Session,
  RefreshTokenAudit, Device, SessionEvent, session_revoked, session_created, SessionStore, Reply,
  accepted, refused, invalid_refresh, refresh_reused, refresh_no_longer_valid, session_timed_out,
  session_not_found, not_your_session, unique_violation, no_longer_active, session_expired, Crypto,
  verify_refresh, SessionEnv, IssueSessionInput, IssueSessionResult,
}

abbrev pub touch_interval_ms : ℕ
touch_interval_ms = 60000

-- `now - lastSeenAt >= idleMs`
abbrev pub is_idle : (last_seen idle_ms now : ℕ) → Bool
is_idle last_seen idle_ms now = leb (last_seen + idle_ms) now

abbrev pub should_touch : (last_seen now : ℕ) → Bool
should_touch last_seen now = leb (last_seen + touch_interval_ms) now

abbrev pub session_key : Session → ℕ
session_key x = x.id

abbrev pub session_of : ℕ → SessionStore → Option Session
session_of k s = find session_key k s.sessions

-- `revokedAt: null`
abbrev pub is_live : Session → Bool
is_live x = elim x.revoked_at [ none ↦ true | some t ↦ false ]

abbrev pub live_of_user : ℕ → Session → Bool
live_of_user user x = x.user_id == user && is_live x

abbrev pub live_of_others : (user session : ℕ) → Session → Bool
live_of_others user k x = x.user_id == user && (is_live x && not (x.id == k))

abbrev pub live_of_family : ℕ → Session → Bool
live_of_family family x = x.refresh_token_family_id == family && is_live x

abbrev pub revoked : ℕ → RevokedReason → Session → Session
revoked now reason x = record x { revoked_at = some now; revoked_reason = some reason }

abbrev pub emit_revoked : RevokedReason → List Session → List SessionEvent → List SessionEvent
emit_revoked reason [] events = events
emit_revoked reason (x ∷ xs) events =
    emit_revoked reason xs (session_revoked x.user_id x.id reason ∷ events)

abbrev pub ids_of : List Session → List ℕ
ids_of [] = []
ids_of (x ∷ xs) = x.id ∷ ids_of xs

-- `findMany`, `updateMany` and the events; an `updateMany` of no rows changes nothing.
abbrev pub revoke_where : (Session → Bool) → RevokedReason → ℕ → SessionStore → SessionStore
revoke_where test reason now s = record s {
  sessions = update_where test (revoked now reason) s.sessions;
  events = emit_revoked reason (select test s.sessions) s.events;
}

abbrev pub change_session : ℕ → (Session → Session) → SessionStore → SessionStore
change_session k f s = record s { sessions = modify session_key k f s.sessions }

abbrev pub new_session : Crypto → SessionEnv → IssueSessionInput → Session
new_session crypto env input = record {
  id = env.session_id;
  user_id = input.user_id;
  device_id = input.device_id;
  access_token_jti = env.access_jti;
  refresh_token_hash = crypto.sha256 env.refresh_token;
  refresh_token_family_id = env.family_id;
  expires_at = env.now + env.refresh_ttl_ms;
  last_seen_at = env.now;
  revoked_at = none;
  revoked_reason = none;
}

-- Whether another session has the token's jti or hash, which are unique.
abbrev pub tokens_taken : (session jti hash : ℕ) → List Session → Bool
tokens_taken k jti hash [] = false
tokens_taken k jti hash (x ∷ xs) =
    (not (x.id == k) && (x.access_token_jti == jti || x.refresh_token_hash == hash))
    || tokens_taken k jti hash xs

abbrev pub id_taken : ℕ → List Session → Bool
id_taken k [] = false
id_taken k (x ∷ xs) = x.id == k || id_taken k xs

-- The new row is in, and the user's other live sessions are revoked.
abbrev pub signed_in : SessionEnv → IssueSessionInput → Session → SessionStore → SessionStore
signed_in env input x s =
    let test = live_of_others input.user_id env.session_id in
    let rows = x ∷ s.sessions in
    record s {
      sessions = update_where test (revoked env.now newer_login) rows;
      events =
          session_created input.user_id x.id input.device_id
          ∷ emit_revoked newer_login (select test rows) s.events;
    }

unfoldable pub issue_session :
    Crypto → SessionEnv → IssueSessionInput → SessionStore → Reply IssueSessionResult × SessionStore
issue_session crypto env input s =
    let x = new_session crypto env input in
    let taken = tokens_taken x.id x.access_token_jti x.refresh_token_hash s.sessions in
    if id_taken x.id s.sessions || taken then (refused unique_violation, s) else (
      accepted (record {
        session = x;
        access_jti = env.access_jti;
        refresh_token = env.refresh_token;
        revoked_ids =
            ids_of (select (live_of_others input.user_id env.session_id) (x ∷ s.sessions));
      }),
      signed_in env input x s,
    )

abbrev pub revoke_family : ℕ → RevokedReason → ℕ → SessionStore → SessionStore
revoke_family family = revoke_where (live_of_family family)

-- `if (claims.fam) await this.revokeFamily(…)`
abbrev pub revoke_claimed : Option ℕ → ℕ → SessionStore → SessionStore
revoke_claimed none now s = s
revoke_claimed (some family) now s = revoke_family family reuse_detected now s

abbrev pub has_token_hash : ℕ → RefreshTokenAudit → Bool
has_token_hash hash a = a.token_hash == hash

abbrev pub has_refresh_hash : ℕ → Session → Bool
has_refresh_hash hash x = x.refresh_token_hash == hash

abbrev pub with_tokens : (jti hash : ℕ) → Session → Session
with_tokens jti hash x = record x { access_token_jti = jti; refresh_token_hash = hash }

abbrev pub audit_entry : ℕ → Session → RefreshTokenAudit
audit_entry hash x = record {
  family_id = x.refresh_token_family_id;
  token_hash = hash;
  session_id = x.id;
}

abbrev pub rotated : Crypto → SessionEnv → ℕ → Session → SessionStore → SessionStore
rotated crypto env hash x s = record s {
  sessions =
      modify session_key x.id (with_tokens env.access_jti (crypto.sha256 env.refresh_token))
        s.sessions;
  audits = audit_entry hash x ∷ s.audits;
}

abbrev pub rotate_live :
    Crypto → SessionEnv → ℕ → Session → SessionStore → Reply IssueSessionResult × SessionStore
rotate_live crypto env hash x s =
    let new_hash = crypto.sha256 env.refresh_token in
    if tokens_taken x.id env.access_jti new_hash s.sessions
    then (refused unique_violation, s)
    else (
      accepted (record {
        session = with_tokens env.access_jti new_hash x;
        access_jti = env.access_jti;
        refresh_token = env.refresh_token;
        revoked_ids = [];
      }),
      rotated crypto env hash x s,
    )

abbrev pub rotate_found :
    Crypto
    → SessionEnv
    → ℕ
    → Option ℕ
    → Option Session
    → SessionStore
    → Reply IssueSessionResult × SessionStore
rotate_found crypto env hash family none s =
    (refused refresh_no_longer_valid, revoke_claimed family env.now s)
rotate_found crypto env hash family (some x) s =
    if not (is_live x)
    then (refused refresh_no_longer_valid, revoke_claimed family env.now s)
    else if is_idle x.last_seen_at env.idle_ms env.now
    then (refused session_timed_out, change_session x.id (revoked env.now idle_timeout) s)
    else rotate_live crypto env hash x s

-- A token that was rotated before is in the audit: its whole family is revoked.
abbrev pub rotate_known :
    Crypto
    → SessionEnv
    → ℕ
    → Option ℕ
    → Option RefreshTokenAudit
    → SessionStore
    → Reply IssueSessionResult × SessionStore
rotate_known crypto env hash family (some replay) s =
    (refused refresh_reused, revoke_family replay.family_id reuse_detected env.now s)
rotate_known crypto env hash family none s =
    rotate_found crypto env hash family (find_first (has_refresh_hash hash) s.sessions) s

unfoldable pub rotate_refresh :
    Crypto → SessionEnv → ℕ → SessionStore → Reply IssueSessionResult × SessionStore
rotate_refresh crypto env presented s = elim (verify_refresh crypto env.now presented) [
  | none ↦ (refused invalid_refresh, s)
  | some family ↦
      let hash = crypto.sha256 presented in
      rotate_known crypto env hash family (find_first (has_token_hash hash) s.audits) s
]

unfoldable pub revoke_all_for_user : ℕ → RevokedReason → ℕ → SessionStore → List ℕ × SessionStore
revoke_all_for_user user reason now s =
    let test = live_of_user user in
    (ids_of (select test s.sessions), revoke_where test reason now s)

unfoldable pub revoke_all_other :
    (user current : ℕ) → RevokedReason → ℕ → SessionStore → List ℕ × SessionStore
revoke_all_other user current reason now s =
    let test = live_of_others user current in
    (ids_of (select test s.sessions), revoke_where test reason now s)

abbrev pub revoke_row : RevokedReason → ℕ → Session → SessionStore → SessionStore
revoke_row reason now x s = record s {
  sessions = modify session_key x.id (revoked now reason) s.sessions;
  events = session_revoked x.user_id x.id reason ∷ s.events;
}

unfoldable pub revoke_one :
    (session acting_user : ℕ) → RevokedReason → ℕ → SessionStore → Reply (Unit {0}) × SessionStore
revoke_one k user reason now s = elim (session_of k s) [
  | none ↦ (refused session_not_found, s)
  | some x ↦
      if not (x.user_id == user)
      then (refused not_your_session, s)
      else if not (is_live x)
      then (accepted tt, s)
      else (accepted tt, revoke_row reason now x s)
]

-- `revokedAt: null, expiresAt: { gt: new Date() }`
abbrev pub unexpired_of_user : (user now : ℕ) → Session → Bool
unexpired_of_user user now x = live_of_user user x && not (leb x.expires_at now)

abbrev pub in_family_of : ℕ → List Session → RefreshTokenAudit → Bool
in_family_of user [] a = false
in_family_of user (x ∷ xs) a =
    (x.user_id == user && x.refresh_token_family_id == a.family_id) || in_family_of user xs a

pub record Purged : Type 0 where
  pub logged_out : ℕ
  pub sessions_deleted : ℕ
  pub devices_deleted : ℕ

unfoldable pub purge_for_user : (user now : ℕ) → SessionStore → Purged × SessionStore
purge_for_user user now s =
    let active = select (unexpired_of_user user now) s.sessions in
    let of_user = λ (x : Session). x.user_id == user in
    let owned = λ (d : Device). d.user_id == user in
    (
      record {
        logged_out = length active;
        sessions_deleted = length (select of_user s.sessions);
        devices_deleted = length (select owned s.devices);
      },
      record {
        sessions = delete_where of_user s.sessions;
        audits = delete_where (in_family_of user s.sessions) s.audits;
        devices = delete_where owned s.devices;
        events = emit_revoked admin_revoke active s.events;
      },
    )

abbrev pub seen_at : ℕ → Session → Session
seen_at now x = record x { last_seen_at = now }

abbrev pub device_key : Device → ℕ
device_key d = d.id

abbrev pub device_seen : ℕ → Device → Device
device_seen now d = record d { last_seen_at = now }

-- The session's row, at most once a minute, and its device's, if the client's address is known.
abbrev pub touch : ℕ → Bool → Session → SessionStore → SessionStore
touch now has_ip x s =
    if should_touch x.last_seen_at now
    then record s {
      sessions = modify session_key x.id (seen_at now) s.sessions;
      devices =
          if has_ip then modify device_key x.device_id (device_seen now) s.devices else s.devices;
    }
    else s

-- `validate`, on the session id that a good access token claims.
unfoldable pub validate : (idle_ms now : ℕ) → Bool → ℕ → SessionStore → Reply ℕ × SessionStore
validate idle_ms now has_ip k s = elim (session_of k s) [
  | none ↦ (refused no_longer_active, s)
  | some x ↦
      if not (is_live x)
      then (refused no_longer_active, s)
      else if leb x.expires_at now
      then (refused session_expired, s)
      else if is_idle x.last_seen_at idle_ms now
      then (refused session_timed_out, change_session x.id (revoked now idle_timeout) s)
      else (accepted k, touch now has_ip x s)
]
