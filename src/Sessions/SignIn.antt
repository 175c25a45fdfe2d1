-- ===== src/Sessions/SignIn.antt =====
-- What a sign-in means for the access tokens of the user's sessions.
use mathlib.Core.Option
use meal.Prelude.{
  ℕ, ◌+◌, ◌<◌, ◌≡◌, ◌≢◌, inl, inr, refl, Bool, ◌||◌, some, arith, ◌∷◌, if◌then◌else◌, Bool-cases,
}
use meal.Prelude.Table.{find, find-key, find-update_where}
use meal.Sessions.Rows.{
  newer_login, Session, SessionStore, accepted, refused, no_longer_active, Crypto, SessionEnv,
  IssueSessionInput, IssueSessionResult,
}
use meal.Sessions.{
  session_key, session_of, live_of_others, revoked, new_session, tokens_taken, id_taken, signed_in,
  issue_session, validate,
}

-- An accepted sign-in added its session to the table.
issue-ok :
    (crypto : Crypto) (env : SessionEnv) (input : IssueSessionInput) (s : SessionStore)
    {r : IssueSessionResult} {s' : SessionStore}
    → issue_session crypto env input s ≡ (accepted r, s')
    → s' ≡ signed_in env input (new_session crypto env input) s
unfolding issue_session
issue-ok crypto env input s h =
    let x = new_session crypto env input in
    let taken = tokens_taken x.id x.access_token_jti x.refresh_token_hash s.sessions in
    elim (Bool-cases (id_taken x.id s.sessions || taken)) [
      | inl clash ↦ ground (arith, h, clash)
      | inr clear ↦ ground (arith, h, clear)
    ]

session_of-signed_in :
    (env : SessionEnv) (input : IssueSessionInput) (x : Session) (j : ℕ) (s : SessionStore)
    → session_of j (signed_in env input x s)
      ≡ Option.map
          (λ r.
            if live_of_others input.user_id env.session_id r
            then revoked env.now newer_login r
            else r)
          (find session_key j (x ∷ s.sessions))
session_of-signed_in env input x j s =
    find-update_where session_key j (live_of_others input.user_id env.session_id)
      (revoked env.now newer_login) (x ∷ s.sessions) (λ r. refl)

-- The answer names the new session.
issue-id :
    (crypto : Crypto) (env : SessionEnv) (input : IssueSessionInput) (s : SessionStore)
    {r : IssueSessionResult} {s' : SessionStore}
    → issue_session crypto env input s ≡ (accepted r, s')
    → r.session.id ≡ env.session_id
unfolding issue_session
issue-id crypto env input s h = ground (arith, h)

-- After a sign-in, a request with the new session's access token is accepted while the session is not
-- idle and not at its end.
pub issue_session-validate :
    (crypto : Crypto) (env : SessionEnv) (input : IssueSessionInput) (s : SessionStore) (now : ℕ)
    (has_ip : Bool) {r : IssueSessionResult} {s' : SessionStore}
    → issue_session crypto env input s ≡ (accepted r, s')
    → now < env.now + env.idle_ms
    → now < env.now + env.refresh_ttl_ms
    → (validate env.idle_ms now has_ip r.session.id s').0 ≡ accepted r.session.id
unfolding validate
issue_session-validate crypto env input s now has_ip h busy early =
    let stored = issue-ok crypto env input s h in
    let id = issue-id crypto env input s h in
    let row = session_of-signed_in env input (new_session crypto env input) env.session_id s in
    ground (arith, stored, id, row, busy, early)

-- After a sign-in, a request with the access token of any other session of the user is refused at all
-- times, and changes nothing.
pub issue_session-other_refused :
    (crypto : Crypto) (env : SessionEnv) (input : IssueSessionInput) (s : SessionStore)
    (idle_ms now j : ℕ) (has_ip : Bool) (x : Session) {r : IssueSessionResult} {s' : SessionStore}
    → issue_session crypto env input s ≡ (accepted r, s')
    → session_of j s ≡ some x
    → x.user_id ≡ input.user_id
    → j ≢ r.session.id
    → validate idle_ms now has_ip j s' ≡ (refused no_longer_active, s')
unfolding validate
issue_session-other_refused crypto env input s idle_ms now j has_ip x h e mine other =
    let stored = issue-ok crypto env input s h in
    let id = issue-id crypto env input s h in
    let key : x.id ≡ j = find-key session_key j s.sessions x e in
    let row = session_of-signed_in env input (new_session crypto env input) j s in
    ground (arith, stored, id, row, e, mine, key, other)
