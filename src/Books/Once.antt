-- ===== src/Books/Once.antt =====
-- A transfer is decided at most once.
use meal.Prelude.{ℕ, ◌≡◌, refl, false, not, ◌&&◌, arith, some, List}
use meal.Prelude.Table.{find-key, find-modify}
use meal.Bank.{Bank, ReviewDecision, approved, rejected}
use meal.Bank.Action.{ok, err, >>-ok, ◌>>=◌, ◌>>◌, already_reviewed}
use meal.Transfers.Requests.{Env}
use meal.Transfers.Rows.{transfer_of, transfer_key, update_transfer-ok}
use meal.Transfers.Rescue.{force_settle}
use meal.Admin.Review.{
  Decision, is_rejection, reviewed, rejected_transfer, approve, carry_out, decide,
}
use meal.Admin.Review.Outcome.{Open, reject-ok, decide-ok}
use meal.Books.Rules.{ReviewedAt}
use meal.Books.Settlements.{force_settle-KeptBy}
use meal.Books.Calls.{Call, run, Configured, run-Keeps}

approve-ReviewedAt :
    (env : Env) (actor k : ℕ) (b : Bank) (o : Open k b) {u : Unit} {b' : Bank}
    → approve env actor o.found b ≡ (ok u, b')
    → ReviewedAt k b'
unfolding approve
approve-ReviewedAt env actor k b o {b' = b'} h =
    let t = o.found in
    let id : t.id ≡ k = find-key transfer_key k b.transfers t o.stored in
    let (_, b₁, e₁, h₁) = >>-ok _ _ b h in
    let (_, b₂, e₂, h₂) = >>-ok _ _ b₁ h₁ in
    let row = update_transfer-ok t.id (reviewed env actor approved) b e₁ in
    let at =
      find-modify transfer_key k t.id (reviewed env actor approved) b.transfers (λ x. refl) in
    let here : transfer_of k b₂ ≡ some (reviewed env actor approved t) =
      ground (arith, at, id, o.stored, row, e₂) in
    let last : b' ≡ (force_settle env t.id b₂).1 = ground (arith, h₂) in
    rw last (
      (force_settle-KeptBy env t.id b₂).still_reviewed k
        (reviewed env actor approved t, here, (o.flagged, refl)))

carry_out-ReviewedAt :
    (env : Env) (actor k : ℕ) (d : ReviewDecision) (b : Bank) (o : Open k b) {u : Unit} {b' : Bank}
    → carry_out env actor o.found d b ≡ (ok u, b')
    → ReviewedAt k b'
unfolding carry_out
carry_out-ReviewedAt env actor k approved b o h = approve-ReviewedAt env actor k b o h
carry_out-ReviewedAt env actor k rejected b o h =
    let t = o.found in
    let id : t.id ≡ k = find-key transfer_key k b.transfers t o.stored in
    let (b₁, refunded, only) = reject-ok env actor t b h in
    let at =
      find-modify transfer_key k t.id (rejected_transfer env actor) b.transfers (λ x. refl) in
    (
      rejected_transfer env actor t,
      ground (arith, at, id, o.stored, refunded.transfers, only),
      (o.flagged, refl),
    )

reviewed_refused :
    (env : Env) (actor k : ℕ) (dto : Decision) (b : Bank)
    → ReviewedAt k b
    → (is_rejection dto.decision && not dto.has_reason) ≡ false
    → decide env actor k dto b ≡ (err already_reviewed, b)
unfolding decide ◌>>=◌ ◌>>◌
reviewed_refused env actor k dto b (t, found, r) reason = ground (arith, found, r.0, r.1, reason)

-- Once a decision about a transfer has gone through, every later decision about it that is well
-- formed (a rejection names a reason) is refused and changes nothing, whatever calls come between,
-- if they run with limits and a minimal fee that are not negative.
pub decide-already_reviewed :
    (env env₂ : Env) (actor actor₂ k : ℕ) (dto dto₂ : Decision) (cs : List Call) (b : Bank)
    {u : Unit} {b' : Bank}
    → decide env actor k dto b ≡ (ok u, b')
    → Configured cs
    → (is_rejection dto₂.decision && not dto₂.has_reason) ≡ false
    → decide env₂ actor₂ k dto₂ (run cs b') ≡ (err already_reviewed, run cs b')
decide-already_reviewed env env₂ actor actor₂ k dto dto₂ cs b {b' = b'} h s reason =
    let (o, done) = decide-ok env actor k dto b h in
    reviewed_refused env₂ actor₂ k dto₂ (run cs b')
      ((run-Keeps cs b' s).still_reviewed k
        (carry_out-ReviewedAt env actor k dto.decision b o done))
      reason
