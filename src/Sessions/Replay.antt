-- ===== src/Sessions/Replay.antt =====
-- A refresh token works once, and a session that has been issued is the one that works.
use meal.Prelude.{
  ℕ, ◌≡◌, ◌≤◌, ◌<◌, ◌⊎◌, leb, Bool-cases, inl, inr, refl, Option, some, none, List, [], ◌∷◌, arith,
  Option-cases,
}
use meal.Prelude.Table.{update_where, count, find_first}
use meal.Sessions.Rows.{
  RevokedReason, reuse_detected, Session, SessionStore, accepted, refused, refresh_reused,
  invalid_refresh, Crypto, verify_refresh, SessionEnv, IssueSessionResult, RefreshTokenAudit,
}
use meal.Sessions.{
  live_of_family, revoked, has_token_hash, has_refresh_hash, rotate_found, rotate_refresh,
  audit_entry,
}

-- The sessions of a family that are not revoked.
abbrev pub family_count : ℕ → SessionStore → ℕ
family_count family s = count (live_of_family family) s.sessions

revoke-family_count :
    (family : ℕ) (reason : RevokedReason) (now : ℕ) (rows : List Session)
    → count (live_of_family family) (update_where (live_of_family family) (revoked now reason) rows)
      ≡ 0
revoke-family_count family reason now [] = refl
revoke-family_count family reason now (x ∷ rows) =
    let rest = revoke-family_count family reason now rows in ground (arith, rest)

-- What an accepted refresh leaves behind.
record Rotated (crypto : Crypto) (token : ℕ) (r : IssueSessionResult) (s s' : SessionStore)
    : Type 0 where
  entry : RefreshTokenAudit
  verified : Option ℕ
  good : crypto.decode_refresh token ≡ some verified
  audited : s'.audits ≡ entry ∷ s.audits
  hashed : entry.token_hash ≡ crypto.sha256 token
  same_family : entry.family_id ≡ r.session.refresh_token_family_id

Rotated-found :
    (crypto : Crypto) (env : SessionEnv) (token : ℕ) (family : Option ℕ) (o : Option Session)
    (s : SessionStore) {r : IssueSessionResult} {s' : SessionStore}
    → crypto.decode_refresh token ≡ some family
    → rotate_found crypto env (crypto.sha256 token) family o s ≡ (accepted r, s')
    → Rotated crypto token r s s'
Rotated-found crypto env token family none s good h = ground arith
Rotated-found crypto env token family (some x) s good h = record {
  entry = audit_entry (crypto.sha256 token) x;
  verified = family;
  good = good;
  audited = ground (arith, h);
  hashed = refl;
  same_family = ground (arith, h);
}

Rotated-of :
    (crypto : Crypto) (env : SessionEnv) (token : ℕ) (s : SessionStore) {r : IssueSessionResult}
    {s' : SessionStore}
    → rotate_refresh crypto env token s ≡ (accepted r, s')
    → Rotated crypto token r s s'
unfolding rotate_refresh
Rotated-of crypto env token s h = elim (Option-cases (verify_refresh crypto env.now token)) [
  | inl bad ↦ ground (arith, bad)
  | inr (family, good) ↦
      let hash = crypto.sha256 token in
      elim (Option-cases (find_first (has_token_hash hash) s.audits)) [
        | inl fresh ↦
            let o = find_first (has_refresh_hash hash) s.sessions in
            Rotated-found crypto env token family o s (ground (arith, good))
              (ground (arith, h, good, fresh))
        | inr (a, known) ↦ ground (arith, good, known)
      ]
]

-- A refresh token that has been exchanged is refused when it is presented again: until it expires, as
-- one that is used again, and then no session of its family is left, the one that the exchange kept up
-- included; from then on as invalid, and nothing changes.
pub rotate_refresh_once :
    (crypto : Crypto) (env env₂ : SessionEnv) (token : ℕ) (s : SessionStore)
    {r : IssueSessionResult} {s' : SessionStore}
    → rotate_refresh crypto env token s ≡ (accepted r, s')
    → let (outcome, s'') = rotate_refresh crypto env₂ token s' in
      ((env₂.now < crypto.refresh_expires_at token)
        × (outcome ≡ refused refresh_reused)
        × (family_count r.session.refresh_token_family_id s'' ≡ 0))
      ⊎ ((crypto.refresh_expires_at token ≤ env₂.now)
          × (outcome ≡ refused invalid_refresh)
          × (s'' ≡ s'))
unfolding rotate_refresh
rotate_refresh_once crypto env env₂ token s {r = r} {s' = s'} h =
    let p = Rotated-of crypto env token s h in
    let none_left = revoke-family_count p.entry.family_id reuse_detected env₂.now s'.sessions in
    elim (Bool-cases (leb (crypto.refresh_expires_at token) env₂.now)) [
      | inl over ↦ inr (ground (arith, over), ground (arith, over), ground (arith, over))
      | inr good ↦ inl (
        ground (arith, good),
        ground (arith, good, p.good, p.audited, p.hashed),
        ground (arith, good, p.good, p.audited, p.hashed, p.same_family, none_left),
      )
    ]
