-- ===== src/Sessions/Single.antt =====
-- One device at a time: a new sign-in ends the user's other sessions.
use meal.Prelude.{
  ℕ, ◌≡◌, ◌≤◌, inl, inr, refl, Bool, true, false, some, none, Option, List, [], ◌∷◌, arith, ◌==◌,
  Bool-cases, Option-cases,
}
use meal.Prelude.Table.{
  modify, update_where, count, find_first, count-update_where, count-modify, count-delete_where,
}
use meal.Sessions.Rows.{
  RevokedReason, newer_login, reuse_detected, idle_timeout, Session, SessionStore, Crypto,
  verify_refresh, SessionEnv, IssueSessionInput,
}
use meal.Sessions.{
  session_key, session_of, live_of_user, live_of_others, live_of_family, revoked, revoke_family,
  revoke_claimed, new_session, tokens_taken, id_taken, issue_session, has_token_hash,
  has_refresh_hash, with_tokens, rotate_found, rotate_refresh, revoke_all_for_user,
  revoke_all_other, revoke_one, purge_for_user, seen_at, touch, validate,
}

pub data SessionCall : Type 0 where
  issues : SessionEnv → IssueSessionInput → SessionCall
  rotates : SessionEnv → ℕ → SessionCall
  revokes_all : ℕ → RevokedReason → ℕ → SessionCall
  revokes_family : ℕ → RevokedReason → ℕ → SessionCall
  revokes_one : (session acting_user : ℕ) → RevokedReason → ℕ → SessionCall
  revokes_others : (user current : ℕ) → RevokedReason → ℕ → SessionCall
  purges : (user now : ℕ) → SessionCall
  validates : (idle_ms now : ℕ) → Bool → ℕ → SessionCall

abbrev pub after : Crypto → SessionCall → SessionStore → SessionStore
after crypto (issues env input) s = (issue_session crypto env input s).1
after crypto (rotates env token) s = (rotate_refresh crypto env token s).1
after crypto (revokes_all user reason now) s = (revoke_all_for_user user reason now s).1
after crypto (revokes_family family reason now) s = revoke_family family reason now s
after crypto (revokes_one k user reason now) s = (revoke_one k user reason now s).1
after crypto (revokes_others user k reason now) s = (revoke_all_other user k reason now s).1
after crypto (purges user now) s = (purge_for_user user now s).1
after crypto (validates idle_ms now has_ip k) s = (validate idle_ms now has_ip k s).1

abbrev pub run : Crypto → List SessionCall → SessionStore → SessionStore
run crypto [] s = s
run crypto (c ∷ cs) s = run crypto cs (after crypto c s)

-- The user's sessions that are not revoked.
abbrev pub live_count : ℕ → SessionStore → ℕ
live_count user s = count (live_of_user user) s.sessions

-- Without the newest, all of the user's sessions are revoked.
others_revoked :
    (user k now : ℕ) (rows : List Session)
    → id_taken k rows ≡ false
    → count
        (live_of_user user)
        (update_where (live_of_others user k) (revoked now newer_login) rows)
      ≡ 0
others_revoked user k now [] h = refl
others_revoked user k now (x ∷ rows) h =
    let rest = others_revoked user k now rows (ground (arith, h)) in ground (arith, h, rest)

revoke-live_count :
    (user : ℕ) (test : Session → Bool) (reason : RevokedReason) (now : ℕ) (rows : List Session)
    → count (live_of_user user) (update_where test (revoked now reason) rows)
      ≤ count (live_of_user user) rows
revoke-live_count user test reason now rows =
    count-update_where (live_of_user user) test (revoked now reason) rows (λ r h. ground (arith, h))

signed_in-live_count :
    (user now k : ℕ) (x : Session) (rows : List Session)
    → x.id ≡ k
    → id_taken k rows ≡ false
    → count (live_of_user user) rows ≤ 1
    → count
        (live_of_user user)
        (update_where (live_of_others x.user_id k) (revoked now newer_login) (x ∷ rows))
      ≤ 1
signed_in-live_count user now k x rows same fresh h = elim (Bool-cases (x.user_id == user)) [
  | inl mine ↦
      let rest = others_revoked user k now rows fresh in
      let kept = revoke-live_count user (live_of_others x.user_id k) newer_login now rows in
      ground (arith, same, mine, rest, kept)
  | inr other ↦
      let rest = revoke-live_count user (live_of_others x.user_id k) newer_login now rows in
      ground (arith, same, other, rest)
]

issue-live_count :
    (crypto : Crypto) (env : SessionEnv) (input : IssueSessionInput) (user : ℕ) (s : SessionStore)
    → live_count user s ≤ 1
    → live_count user (issue_session crypto env input s).1 ≤ 1
unfolding issue_session
issue-live_count crypto env input user s h =
    elim (Bool-cases (id_taken env.session_id s.sessions)) [
      | inl taken ↦ ground (arith, h, taken)
      | inr fresh ↦
          let x = new_session crypto env input in
          let step = signed_in-live_count user env.now env.session_id x s.sessions refl fresh h in
          elim (Bool-cases (tokens_taken x.id x.access_token_jti x.refresh_token_hash s.sessions)) [
            | inl clash ↦ ground (arith, h, fresh, clash)
            | inr clear ↦ rw (fresh, clear) step
          ]
    ]

-- A change of one row that does not bring a revoked session back.
change-live_count :
    (user k : ℕ) (f : Session → Session) (rows : List Session)
    → ((x : Session) → live_of_user user (f x) ≡ true → live_of_user user x ≡ true)
    → count (live_of_user user) (modify session_key k f rows) ≤ count (live_of_user user) rows
change-live_count user k f rows h = count-modify (live_of_user user) session_key k f rows h

family-live_count :
    (user : ℕ) (family : Option ℕ) (now : ℕ) (s : SessionStore)
    → live_count user (revoke_claimed family now s) ≤ live_count user s
family-live_count user none now s = omega arith
family-live_count user (some family) now s =
    revoke-live_count user (live_of_family family) reuse_detected now s.sessions

found-live_count :
    (crypto : Crypto) (env : SessionEnv) (hash : ℕ) (family : Option ℕ) (o : Option Session)
    (user : ℕ) (s : SessionStore)
    → live_count user (rotate_found crypto env hash family o s).1 ≤ live_count user s
found-live_count crypto env hash family none user s = family-live_count user family env.now s
found-live_count crypto env hash family (some x) user s =
    let ended = family-live_count user family env.now s in
    let timed_out =
      change-live_count user x.id (revoked env.now idle_timeout) s.sessions
        (λ r h. ground (arith, h)) in
    let moved =
      change-live_count user x.id (with_tokens env.access_jti (crypto.sha256 env.refresh_token))
        s.sessions (λ r h. h) in
    ground (arith, ended, timed_out, moved)

rotate-live_count :
    (crypto : Crypto) (env : SessionEnv) (token user : ℕ) (s : SessionStore)
    → live_count user (rotate_refresh crypto env token s).1 ≤ live_count user s
unfolding rotate_refresh
rotate-live_count crypto env token user s =
    elim (Option-cases (verify_refresh crypto env.now token)) [
      | inl bad ↦ ground (arith, bad)
      | inr (family, good) ↦
          let hash = crypto.sha256 token in
          elim (Option-cases (find_first (has_token_hash hash) s.audits)) [
            | inl fresh ↦
                let o = find_first (has_refresh_hash hash) s.sessions in
                let rest = found-live_count crypto env hash family o user s in
                ground (arith, good, fresh, rest)
            | inr (a, known) ↦
                let rest = family-live_count user (some a.family_id) env.now s in
                ground (arith, good, known, rest)
          ]
    ]

revoke_one-live_count :
    (k acting : ℕ) (reason : RevokedReason) (now user : ℕ) (s : SessionStore)
    → live_count user (revoke_one k acting reason now s).1 ≤ live_count user s
unfolding revoke_one
revoke_one-live_count k acting reason now user s = elim (Option-cases (session_of k s)) [
  | inl e ↦ ground (arith, e)
  | inr (x, e) ↦
      let ended =
        change-live_count user x.id (revoked now reason) s.sessions (λ r h. ground (arith, h)) in
      ground (arith, e, ended)
]

touch-live_count :
    (now : ℕ) (has_ip : Bool) (x : Session) (user : ℕ) (s : SessionStore)
    → live_count user (touch now has_ip x s) ≤ live_count user s
touch-live_count now has_ip x user s =
    let seen = change-live_count user x.id (seen_at now) s.sessions (λ r h. h) in
    ground (arith, seen)

validate-live_count :
    (idle_ms now : ℕ) (has_ip : Bool) (k user : ℕ) (s : SessionStore)
    → live_count user (validate idle_ms now has_ip k s).1 ≤ live_count user s
unfolding validate
validate-live_count idle_ms now has_ip k user s = elim (Option-cases (session_of k s)) [
  | inl e ↦ ground (arith, e)
  | inr (x, e) ↦
      let ended =
        change-live_count user x.id (revoked now idle_timeout) s.sessions
          (λ r h. ground (arith, h)) in
      let seen = touch-live_count now has_ip x user s in ground (arith, e, ended, seen)
]

after-live_count :
    (crypto : Crypto) (c : SessionCall) (user : ℕ) (s : SessionStore)
    → live_count user s ≤ 1
    → live_count user (after crypto c s) ≤ 1
unfolding revoke_all_for_user revoke_all_other purge_for_user
after-live_count crypto (issues env input) user s h = issue-live_count crypto env input user s h
after-live_count crypto (rotates env token) user s h =
    omega (arith, h, rotate-live_count crypto env token user s)
after-live_count crypto (revokes_all u reason now) user s h =
    omega (arith, h, revoke-live_count user (live_of_user u) reason now s.sessions)
after-live_count crypto (revokes_family family reason now) user s h =
    omega (arith, h, revoke-live_count user (live_of_family family) reason now s.sessions)
after-live_count crypto (revokes_one k acting reason now) user s h =
    omega (arith, h, revoke_one-live_count k acting reason now user s)
after-live_count crypto (revokes_others u k reason now) user s h =
    omega (arith, h, revoke-live_count user (live_of_others u k) reason now s.sessions)
after-live_count crypto (purges u now) user s h =
    omega (arith, h, count-delete_where (live_of_user user) (λ x. x.user_id == u) s.sessions)
after-live_count crypto (validates idle_ms now has_ip k) user s h =
    omega (arith, h, validate-live_count idle_ms now has_ip k user s)

-- If a user has at most one session that is not revoked, then this is so after any sequence of
-- sign-ins, refreshes, revocations, purges and requests, of this user and of others.
pub run-live_count :
    (crypto : Crypto) (cs : List SessionCall) (user : ℕ) (s : SessionStore)
    → live_count user s ≤ 1
    → live_count user (run crypto cs s) ≤ 1
run-live_count crypto [] user s h = h
run-live_count crypto (c ∷ cs) user s h =
    run-live_count crypto cs user (after crypto c s) (after-live_count crypto c user s h)
