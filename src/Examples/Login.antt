-- ===== src/Examples/Login.antt =====
-- A customer who signs in from a new device and proves a code.
use meal.Prelude.{ℕ, ◌+◌, ◌*◌, ◌≡◌, ◌≤◌, refl, arith, true, false, some, none, List, [], ◌∷◌, ◌==◌}
use meal.Sessions.Rows.{IssueSessionResult}
use meal.Login.Rows.{
  active, AuthUser, LoginStore, challenge_used, granted, denied, LoginConfig, LoginEnv,
  session_stage,
}
use meal.Login.Challenges.{create_sms_challenge, verify, create_email_challenge, resend}
use meal.Login.Devices.{fingerprint, mark_trusted, upsert_on_login}
use meal.Sessions.{issue_session}
use meal.Login.{
  Headers, LoginDto, read_client_ctx, login_ctx, login, mfa_verify, mfa_resend, without_code,
}
use meal.Login.Calls.{LoginCall, verifies, resends, run}
use meal.Login.Guesses.{wrong_codes, sent_codes, run-wrong_codes}
use meal.Login.Used.{run-mfa_verify_refused}
use meal.Login.Elevation.{
  card_reveal, sign_elevation, begin_challenge, verify_elevation, can_activate,
}
use meal.Login.Owners.{begin_challenge-verify_elevation}
use meal.Login.Trust.{asks_code, mfa_verify-login, mfa_verify-login_asked}

-- Each text is its own hash; every token is for the user 1 and the challenge 20.
abbrev config : LoginConfig
config = record {
  to_lower_case = λ a. a;
  ttl_sec = 300;
  max_attempts = 5;
  admins = [];
  argon_hash = λ x. x;
  argon_verify = λ h x. h == x;
  sign_mfa = λ user k. k;
  decode_mfa = λ t. some (1, 20);
  mfa_expires_at = λ t. 300000;
  digest = λ agent language zone canvas. 1000 * agent + 100 * language + 10 * zone + canvas;
  crypto = record {
    sha256 = λ t. t;
    decode_refresh = λ t. some none;
    refresh_expires_at = λ t. 300000;
  };
}

abbrev env_at : ℕ → LoginEnv
env_at k = record {
  now = 1000 + k;
  challenge_id = 20 + k;
  device_id = 30 + k;
  code = 123456;
  sms_up = true;
  session = record {
    refresh_ttl_ms = 1000000;
    idle_ms = 900;
    now = 1000 + k;
    session_id = 40 + k;
    family_id = 50 + k;
    access_jti = 60 + k;
    refresh_token = 70 + k;
  };
}

abbrev customer : AuthUser
customer = record {
  id = 1;
  email = 8;
  phone = some 5;
  status = active;
  password_hash = 99;
  security_setup_required = false;
}

abbrev start : LoginStore
start = record {
  users = customer ∷ [];
  challenges = [];
  auth = record { sessions = []; audits = []; devices = []; events = [] };
  sent = [];
}

abbrev headers : Headers
headers = record { user_agent = 4; accept_language = 5; timezone = 6 }

abbrev plain_dto : LoginDto
plain_dto = record { email = 8; password = 99; timezone = 6; canvas_hash = 0 }

abbrev canvas_dto : LoginDto
canvas_dto = record { email = 8; password = 99; timezone = 6; canvas_hash = 7 }

abbrev asked : LoginStore
asked = (login config (env_at 0) 8 99 (login_ctx headers plain_dto) start).1

abbrev proved : LoginStore
proved = (mfa_verify config (env_at 1) 20 123456 (read_client_ctx headers) asked).1

abbrev first_session : IssueSessionResult
first_session = record {
  session = record {
    id = 41;
    user_id = 1;
    device_id = 31;
    access_token_jti = 61;
    refresh_token_hash = 71;
    refresh_token_family_id = 51;
    expires_at = 1001001;
    last_seen_at = 1001;
    revoked_at = none;
    revoked_reason = none;
  };
  access_jti = 61;
  refresh_token = 71;
  revoked_ids = [];
}

code_accepted :
    mfa_verify config (env_at 1) 20 123456 (read_client_ctx headers) asked
    ≡ (granted (session_stage first_session), proved)
unfolding login mfa_verify verify create_email_challenge issue_session mark_trusted upsert_on_login
code_accepted = refl

run-mfa_verify_refused_example :
    mfa_verify config
      (env_at 3)
      20
      123456
      (read_client_ctx headers)
      (run config (resends (env_at 2) 20 ∷ []) proved)
    ≡ (denied challenge_used, run config (resends (env_at 2) 20 ∷ []) proved)
run-mfa_verify_refused_example =
    run-mfa_verify_refused config (env_at 1) (env_at 3) 20 123456 123456 (read_client_ctx headers)
      (read_client_ctx headers) (resends (env_at 2) 20 ∷ []) asked code_accepted

mfa_verify-login_example :
    (login config (env_at 2) 8 99 (login_ctx headers plain_dto) proved
      ≡ without_code config
          (env_at 2)
          customer
          (fingerprint config (login_ctx headers plain_dto))
          proved)
    × ((login config (env_at 2) 8 99 (login_ctx headers plain_dto) proved).1.sent ≡ proved.sent)
unfolding login create_email_challenge
mfa_verify-login_example =
    mfa_verify-login config (env_at 1) (env_at 2) 20 123456 headers plain_dto customer asked refl
      refl refl refl tt code_accepted refl refl

mfa_verify-login_asked_example :
    asks_code (login config (env_at 2) 8 99 (login_ctx headers canvas_dto) proved).0 ≡ true
unfolding login mfa_verify verify create_email_challenge issue_session mark_trusted upsert_on_login
mfa_verify-login_asked_example =
    mfa_verify-login_asked config (env_at 1) (env_at 2) 20 123456 headers canvas_dto customer asked
      refl refl refl refl code_accepted (λ e. ground (arith, e)) refl refl

abbrev guesses : List LoginCall
guesses =
    verifies (env_at 1) 20 1 (read_client_ctx headers)
    ∷ resends (env_at 2) 20
    ∷ verifies (env_at 3) 20 2 (read_client_ctx headers)
    ∷ []

two_wrong_codes :
    (wrong_codes config 20 guesses asked ≡ 2) × (sent_codes config 20 guesses asked ≡ 1)
unfolding login mfa_verify verify create_email_challenge mfa_resend resend
two_wrong_codes = (refl, refl)

run-wrong_codes_example :
    wrong_codes config 20 guesses asked ≤ 5 * (1 + sent_codes config 20 guesses asked)
run-wrong_codes_example = run-wrong_codes config guesses 20 asked

-- The customer 2 is signed in, and enters the code that the customer 1 began.
abbrev texted : LoginStore
texted = (begin_challenge config (env_at 0) 1 0 start).1

code_texted : begin_challenge config (env_at 0) 1 0 start ≡ (granted 20, texted)
unfolding begin_challenge create_sms_challenge
code_texted = refl

begin_challenge-verify_elevation_example :
    ((verify_elevation config 1005 2 20 123456 card_reveal texted).0
      ≡ granted (sign_elevation 2 card_reveal))
    × (can_activate (some card_reveal) (some (some (sign_elevation 2 card_reveal))) 2 ≡ granted tt)
begin_challenge-verify_elevation_example =
    begin_challenge-verify_elevation config (env_at 0) 1005 1 2 0 card_reveal start code_texted
      (omega arith) (omega arith) refl
