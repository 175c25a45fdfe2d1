-- ===== src/Login/Owners.antt =====
-- Whom the code of an elevation elevates.
use meal.Prelude.{ℕ, ◌+◌, ◌*◌, ◌≡◌, ◌≤◌, ◌<◌, inl, inr, refl, true, some, arith, Option-cases}
use meal.Login.Rows.{LoginStore, granted, LoginConfig, LoginEnv}
use meal.Login.Challenges.{challenge_of, new_challenge, create_sms_challenge, verify}
use meal.Login.{user_of}
use meal.Login.Elevation.{
  ElevationScope, card_reveal, wire_create, transfer_authorize, profile_edit, security_manage,
  scope_eq, sign_elevation, begin_challenge, verify_elevation, verify_token, can_activate,
}

begun :
    (config : LoginConfig) (env : LoginEnv) (user fp : ℕ) (s : LoginStore) {k : ℕ} {s' : LoginStore}
    → begin_challenge config env user fp s ≡ (granted k, s')
    → (k ≡ env.challenge_id) × (challenge_of k s' ≡ some (new_challenge config env user fp))
unfolding begin_challenge create_sms_challenge
begun config env user fp s h = elim (Option-cases (user_of user s)) [
  | inl e ↦ ground (arith, e, h)
  | inr (u, e) ↦
      let taken = Option-cases (challenge_of env.challenge_id s) in
      ground (arith, e, h, taken, Option-cases u.phone)
]

scope-same : (scope : ElevationScope) → scope_eq scope scope ≡ true
scope-same card_reveal = refl
scope-same wire_create = refl
scope-same transfer_authorize = refl
scope-same profile_edit = refl
scope-same security_manage = refl

-- The code of a challenge that one user began elevates any user, the same or another, for any scope,
-- and the guard lets that user pass, if the code is entered in time, argon2 accepts the text that a hash
-- was made from, and some attempt is allowed.
pub begin_challenge-verify_elevation :
    (config : LoginConfig) (env : LoginEnv) (now user other fp : ℕ) (scope : ElevationScope)
    (s : LoginStore) {k : ℕ} {s' : LoginStore}
    → begin_challenge config env user fp s ≡ (granted k, s')
    → now ≤ env.now + config.ttl_sec * 1000
    → 0 < config.max_attempts
    → config.argon_verify (config.argon_hash env.code) env.code ≡ true
    → ((verify_elevation config now other k env.code scope s').0
        ≡ granted (sign_elevation other scope))
      × (can_activate (some scope) (some (some (sign_elevation other scope))) other ≡ granted tt)
unfolding verify_elevation verify can_activate verify_token
begin_challenge-verify_elevation config env now user other fp scope s h in_time some_allowed
      accepts =
    let (same, stored) = begun config env user fp s h in
    let scopes = scope-same scope in
    (ground (arith, stored, in_time, some_allowed, accepts), ground (arith, scopes))
