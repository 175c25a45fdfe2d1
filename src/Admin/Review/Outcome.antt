-- ===== src/Admin/Review/Outcome.antt =====
-- What a successful decision has done.
use meal.Prelude.{◌==◌, if◌then◌else◌, ℕ, ◌≡◌, refl, true, arith, Option, none, some, Option-cases}
use meal.Prelude.Int.{◌+ℤ◌}
use meal.Bank.Balance.{balance_of}
use meal.Bank.{rejected, Bank, Transfer}
use meal.Bank.Action.{ok, >>=-ok, >>-ok, or_throw-ok}
use meal.Bank.Flow.{transaction-ok}
use meal.Transfers.Requests.{Env}
use meal.Transfers.Rows.{transfer_of, when_some}
use meal.Transfers.Settlement.Once.{OnlyEvents, notify_account-only}
use meal.Admin.Refunded.{Refunded}
use meal.Admin.Review.{
  refund_of, Decision, refund, reject_entry, rejected_transfer, notify_pending, reject, carry_out,
  decide,
}
use meal.Admin.Review.Effect.{refund-ok}

-- The transfer that a decision is about: stored, flagged and not reviewed before.
pub record Open (k : ℕ) (b : Bank) : Type 0 where
  pub found : Transfer
  pub stored : transfer_of k b ≡ some found
  pub flagged : found.requires_review ≡ true
  pub unreviewed : found.reviewed_at ≡ none

notify_pending-only :
    (t : Transfer) (k : Option ℕ) (b : Bank) → OnlyEvents b (when_some k (notify_pending t) b).1
unfolding notify_pending
notify_pending-only t none b = refl
notify_pending-only t (some k) b = refl

pub reject-ok :
    (env : Env) (actor : ℕ) (t : Transfer) (b : Bank) {u : Unit} {b' : Bank}
    → reject env actor t b ≡ (ok u, b')
    → (b₁ : Bank) × Refunded t
        (reject_entry env t t.from_account_id)
        (rejected_transfer env actor)
        b
        b₁
      × OnlyEvents b₁ b'
unfolding reject
reject-ok env actor t b h =
    let (_, b₁, e₁, h₁) = >>-ok _ _ b h in
    let (_, b₂, e₂, h₂) = >>-ok _ _ b₁ h₁ in
    let (_, b₃, e₃, h₃) = >>-ok _ _ b₂ h₂ in
    (
      b₁,
      refund-ok env actor t b (transaction-ok (refund env actor t) b e₁),
      ground (
        arith,
        e₂,
        e₃,
        h₃,
        notify_account-only t.from_account_id b₁,
        notify_pending-only t t.pending_transaction_id b₂,
      ),
    )

-- The guards of a decision that went through.
pub decide-ok :
    (env : Env) (actor k : ℕ) (dto : Decision) (b : Bank) {u : Unit} {b' : Bank}
    → decide env actor k dto b ≡ (ok u, b')
    → (o : Open k b) × (carry_out env actor o.found dto.decision b ≡ (ok u, b'))
unfolding decide
decide-ok env actor k dto b h =
    let (_, b₁, e₁, h₁) = >>-ok _ _ b h in
    let (o, b₂, e₂, h₂) = >>=-ok _ _ b₁ h₁ in
    let (t, b₃, e₃, h₃) = >>=-ok _ _ b₂ h₂ in
    let (_, b₄, e₄, h₄) = >>-ok _ _ b₃ h₃ in
    let (_, b₅, e₅, h₅) = >>-ok _ _ b₄ h₄ in
    let (found, _) = or_throw-ok _ _ b₂ e₃ in
    let same : b₅ ≡ b = ground (arith, e₁, e₂, e₃, e₄, e₅) in
    (
      record {
        found = t;
        stored = ground (arith, e₁, e₂, found);
        flagged = ground (arith, e₄);
        unreviewed = ground (arith, e₅, Option-cases t.reviewed_at);
      },
      rw same at h₅,
    )

pub rejected_balance :
    (env : Env) (actor k : ℕ) (dto : Decision) (b : Bank) (t : Transfer) {u : Unit} {b' : Bank}
    → dto.decision ≡ rejected
    → transfer_of k b ≡ some t
    → decide env actor k dto b ≡ (ok u, b')
    → (j : ℕ)
    → balance_of j b'
      ≡ (if j == t.from_account_id then balance_of j b +ℤ refund_of t else balance_of j b)
unfolding carry_out
rejected_balance env actor k dto b t d e h j =
    let (o, done) = decide-ok env actor k dto b h in
    let (b₁, refunded, only) = reject-ok env actor o.found b (rw d at done) in
    let same : o.found ≡ t = ground (arith, o.stored, e) in
    ground (arith, only, rw same at (refunded.balances j))
