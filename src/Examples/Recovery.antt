-- ===== src/Examples/Recovery.antt =====
-- A customer who has forgotten the password.
use meal.Prelude.{◌≡◌, refl, false, some, none, [], ◌∷◌, ◌==◌}
use meal.Login.Rows.{active}
use meal.Login.Recovery.{
  RecoveryConfig, RecoveryEnv, RecoveryStore, fulfilled, rejected, invalid_or_expired_code,
  request_reset, verify_reset, reset_password,
}

-- The token of a user is the user's id.
abbrev config : RecoveryConfig
config = record {
  login = record {
    to_lower_case = λ a. a;
    ttl_sec = 300;
    max_attempts = 5;
    admins = [];
    argon_hash = λ x. x;
    argon_verify = λ h x. h == x;
    sign_mfa = λ user k. k;
    decode_mfa = λ t. none;
    mfa_expires_at = λ t. 0;
    digest = λ agent language zone canvas. agent;
    crypto = record { sha256 = λ t. t; decode_refresh = λ t. none; refresh_expires_at = λ t. 0 };
  };
  ttl_sec = 600;
  max_attempts = 5;
  hash_email = λ a. a;
  sign_recovery = λ user. user;
  decode_recovery = some;
  recovery_expires_at = λ t. 900000;
}

abbrev env : RecoveryEnv
env = record { now = 1000; id = 90; code = 555555 }

abbrev start : RecoveryStore
start = record {
  base = record {
    users =
        record {
          id = 1;
          email = 8;
          phone = none;
          status = active;
          password_hash = 99;
          security_setup_required = false;
        }
        ∷ [];
    challenges = [];
    auth = record { sessions = []; audits = []; devices = []; events = [] };
    sent = [];
  };
  resets = [];
}

abbrev requested : RecoveryStore
requested = (request_reset config env 8 start).1

abbrev proved : RecoveryStore
proved = (verify_reset config 2000 8 555555 requested).1

right_code : (verify_reset config 2000 8 555555 requested).0 ≡ fulfilled 1
unfolding request_reset verify_reset
right_code = refl

code_used_up : (verify_reset config 2001 8 555555 proved).0 ≡ rejected invalid_or_expired_code
unfolding request_reset verify_reset
code_used_up = refl

new_password : (reset_password config 3000 1 77 8 proved).0 ≡ fulfilled tt
unfolding request_reset verify_reset reset_password
new_password = refl
