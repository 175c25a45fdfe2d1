-- ===== src/Examples/Sessions.antt =====
-- A customer who signs in on two devices and refreshes a token twice.
use meal.Prelude.{ℕ, ◌≡◌, ◌≤◌, ◌<◌, ◌⊎◌, ◌+◌, refl, arith, true, some, none, List, [], ◌∷◌}
use meal.Sessions.Rows.{
  Session, SessionStore, accepted, refused, refresh_reused, invalid_refresh, no_longer_active,
  Crypto, SessionEnv, IssueSessionInput, IssueSessionResult, user_signout,
}
use meal.Sessions.{session_of, issue_session, rotate_refresh, validate, with_tokens}
use meal.Sessions.Single.{
  SessionCall, issues, rotates, revokes_one, run, live_count, run-live_count,
}
use meal.Sessions.Replay.{rotate_refresh_once, family_count}
use meal.Sessions.SignIn.{issue_session-validate, issue_session-other_refused}

-- Each token is its own hash, and claims the family 70.
abbrev plain : Crypto
plain = record {
  sha256 = λ t. t;
  decode_refresh = λ t. some (some 70);
  refresh_expires_at = λ t. 5000;
}

abbrev env_at : ℕ → SessionEnv
env_at k = record {
  refresh_ttl_ms = 1000000;
  idle_ms = 900;
  now = 1000 + k;
  session_id = 10 + k;
  family_id = 70 + k;
  access_jti = 200 + k;
  refresh_token = 300 + k;
}

abbrev nobody : SessionStore
nobody = record { sessions = []; audits = []; devices = []; events = [] }

abbrev laptop : IssueSessionInput
laptop = record { user_id = 1; device_id = 5 }

abbrev phone : IssueSessionInput
phone = record { user_id = 1; device_id = 6 }

abbrev laptop_session : Session
laptop_session = record {
  id = 10;
  user_id = 1;
  device_id = 5;
  access_token_jti = 200;
  refresh_token_hash = 300;
  refresh_token_family_id = 70;
  expires_at = 1001000;
  last_seen_at = 1000;
  revoked_at = none;
  revoked_reason = none;
}

abbrev on_laptop : SessionStore
on_laptop = (issue_session plain (env_at 0) laptop nobody).1

abbrev laptop_answer : IssueSessionResult
laptop_answer = record {
  session = laptop_session;
  access_jti = 200;
  refresh_token = 300;
  revoked_ids = [];
}

laptop_signed_in :
    issue_session plain (env_at 0) laptop nobody ≡ (accepted laptop_answer, on_laptop)
unfolding issue_session
laptop_signed_in = refl

issue_session-validate_example : (validate 900 1500 true 10 on_laptop).0 ≡ accepted 10
issue_session-validate_example =
    issue_session-validate plain (env_at 0) laptop nobody 1500 true laptop_signed_in (omega arith)
      (omega arith)

abbrev phone_session : Session
phone_session = record {
  id = 11;
  user_id = 1;
  device_id = 6;
  access_token_jti = 201;
  refresh_token_hash = 301;
  refresh_token_family_id = 71;
  expires_at = 1001001;
  last_seen_at = 1001;
  revoked_at = none;
  revoked_reason = none;
}

abbrev phone_answer : IssueSessionResult
phone_answer = record {
  session = phone_session;
  access_jti = 201;
  refresh_token = 301;
  revoked_ids = 10 ∷ [];
}

abbrev on_phone : SessionStore
on_phone = (issue_session plain (env_at 1) phone on_laptop).1

phone_signed_in : issue_session plain (env_at 1) phone on_laptop ≡ (accepted phone_answer, on_phone)
unfolding issue_session
phone_signed_in = refl

laptop_stored : session_of 10 on_laptop ≡ some laptop_session
unfolding issue_session
laptop_stored = refl

issue_session-other_refused_example :
    validate 900 1500 true 10 on_phone ≡ (refused no_longer_active, on_phone)
issue_session-other_refused_example =
    issue_session-other_refused plain (env_at 1) phone on_laptop 900 1500 10 true laptop_session
      phone_signed_in laptop_stored refl (λ e. ground (arith, e))

abbrev refreshed : SessionStore
refreshed = (rotate_refresh plain (env_at 2) 300 on_laptop).1

abbrev refresh_answer : IssueSessionResult
refresh_answer = record {
  session = with_tokens 202 302 laptop_session;
  access_jti = 202;
  refresh_token = 302;
  revoked_ids = [];
}

token_refreshed :
    rotate_refresh plain (env_at 2) 300 on_laptop ≡ (accepted refresh_answer, refreshed)
unfolding rotate_refresh issue_session
token_refreshed = refl

rotate_refresh_once_example :
    ((1003 < 5000)
      × ((rotate_refresh plain (env_at 3) 300 refreshed).0 ≡ refused refresh_reused)
      × (family_count 70 (rotate_refresh plain (env_at 3) 300 refreshed).1 ≡ 0))
    ⊎ ((5000 ≤ 1003)
        × ((rotate_refresh plain (env_at 3) 300 refreshed).0 ≡ refused invalid_refresh)
        × ((rotate_refresh plain (env_at 3) 300 refreshed).1 ≡ refreshed))
rotate_refresh_once_example =
    rotate_refresh_once plain (env_at 2) (env_at 3) 300 on_laptop token_refreshed

abbrev calls : List SessionCall
calls =
    issues (env_at 0) laptop
    ∷ rotates (env_at 2) 300
    ∷ issues (env_at 1) phone
    ∷ revokes_one 11 1 user_signout 2000
    ∷ []

run-live_count_example : live_count 1 (run plain calls nobody) ≤ 1
run-live_count_example = run-live_count plain calls 1 nobody (omega arith)
