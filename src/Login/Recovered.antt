-- ===== src/Login/Recovered.antt =====
-- What a recovered password ends, and what it leaves open.
use meal.Prelude.{ℕ, ◌≡◌, ◌≢◌, ◌≤◌, ◌<◌, inl, inr, refl, Bool, some, arith, Option-cases}
use meal.Prelude.Table.{find-key, find-modify, find-update_where}
use meal.Sessions.Rows.{Session, password_changed, refused, no_longer_active}
use meal.Sessions.{session_key, session_of, live_of_others, revoked, validate, revoke_all_other}
use meal.Login.{user_key, user_of, with_password}
use meal.Login.Recovery.{
  verify_recovery, RecoveryConfig, RecoveryStore, fulfilled, nil_uuid, reset_password,
}

-- After a password was recovered, no session that its user had is accepted.
reset_password-validate :
    (config : RecoveryConfig) (now token password length user idle_ms now₂ k : ℕ) (has_ip : Bool)
    (x : Session) (s : RecoveryStore) {s' : RecoveryStore}
    → config.decode_recovery token ≡ some user
    → reset_password config now token password length s ≡ (fulfilled tt, s')
    → session_of k s.base.auth ≡ some x
    → x.user_id ≡ user
    → k ≢ nil_uuid
    → (validate idle_ms now₂ has_ip k s'.base.auth).0 ≡ refused no_longer_active
unfolding reset_password revoke_all_other validate
reset_password-validate config now token password length user idle_ms now₂ k has_ip x s claimed h
      stored mine real =
    elim (Option-cases (user_of user s.base)) [
      | inl gone ↦ ground (arith, claimed, h, gone)
      | inr (u, there) ↦
          let same : u.id ≡ user = find-key user_key user s.base.users u there in
          let key : x.id ≡ k = find-key session_key k s.base.auth.sessions x stored in
          let found =
            find-update_where session_key k (live_of_others u.id nil_uuid)
              (revoked now password_changed) s.base.auth.sessions (λ r. refl) in
          ground (arith, claimed, h, there, same, key, found, stored, mine, real)
    ]

-- A recovery token is not used up: until it expires, it sets another password.
reset_password_again :
    (config : RecoveryConfig) (now now₂ token password password₂ length length₂ : ℕ)
    (s : RecoveryStore) {s' : RecoveryStore}
    → reset_password config now token password length s ≡ (fulfilled tt, s')
    → 8 ≤ length₂
    → now₂ < config.recovery_expires_at token
    → (reset_password config now₂ token password₂ length₂ s').0 ≡ fulfilled tt
unfolding reset_password
reset_password_again config now now₂ token password password₂ length length₂ s h enough in_time =
    elim (Option-cases (verify_recovery config now token)) [
      | inl e ↦ ground (arith, e, h)
      | inr (user, e) ↦ elim (Option-cases (user_of user s.base)) [
        | inl gone ↦ ground (arith, e, gone, h)
        | inr (u, there) ↦
            let stored =
              find-modify user_key user u.id (with_password (config.login.argon_hash password))
                s.base.users (λ r. refl) in
            ground (arith, e, there, h, enough, in_time, stored)
      ]
    ]
