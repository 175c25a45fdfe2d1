-- ===== src/Books/Decisions.antt =====
-- The decisions of the admins keep the books, however they end.
use meal.Prelude.{refl, ℕ}
use meal.Bank.{Bank, Transfer, ReviewDecision, approved, rejected}
use meal.Transfers.Requests.{Env}
use meal.Admin.Review.{
  Decision, refund, approve, notify_pending, reject, carry_out, decide, reviewed,
}
use meal.Admin.Review.Effect.{refund-ok}
use meal.Admin.Wires.{take_back, approve_wire, reverse}
use meal.Admin.Wires.Effect.{take_back-ok}
use meal.Books.Rules.{IsPriced, AllPriced, IsPriced-of}
use meal.Books.Moves.{Rejected-Keeps, Reversed-Keeps}
use meal.Books.Combine.{
  KeptBy, >>-KeptBy, transaction-KeptBy, found-KeptBy, guard-KeptBy, update_transfer-KeptBy,
}
use meal.Books.Quiet.{
  Quiet-Keeps, notify_account-Quiet, announce_reversal-Quiet, emit-KeptBy, when_some-KeptBy,
}
use meal.Books.Settlements.{force_settle-KeptBy}

approve-KeptBy : (env : Env) (actor : ℕ) (t : Transfer) (b : Bank) → KeptBy (approve env actor t) b
unfolding approve
approve-KeptBy env actor t b =
    >>-KeptBy _ _ b
      (update_transfer-KeptBy t.id (reviewed env actor approved) b
        (λ x. (refl, (λ h. h), (λ r. (r.0, refl)))))
      (>>-KeptBy _ _ _ (emit-KeptBy _ _) (force_settle-KeptBy env t.id _))

notify_pending-KeptBy : (t : Transfer) (k : ℕ) (b : Bank) → KeptBy (notify_pending t k) b
unfolding notify_pending
notify_pending-KeptBy t k b = emit-KeptBy _ b

reject-KeptBy :
    (env : Env) (actor : ℕ) (t : Transfer) (b : Bank)
    → (AllPriced b → IsPriced t)
    → KeptBy (reject env actor t) b
unfolding reject
reject-KeptBy env actor t b priced =
    >>-KeptBy _ _ b
      (transaction-KeptBy (refund env actor t) b
        (λ u b' done. Rejected-Keeps env actor t b b' priced (refund-ok env actor t b done)))
      (>>-KeptBy _ _ _ (Quiet-Keeps _ _ (notify_account-Quiet t.from_account_id _)) (
        >>-KeptBy _ _ _
          (when_some-KeptBy t.pending_transaction_id (notify_pending t) _
            (λ k. notify_pending-KeptBy t k _))
          (emit-KeptBy _ _)))

carry_out-KeptBy :
    (env : Env) (actor : ℕ) (t : Transfer) (d : ReviewDecision) (b : Bank)
    → (AllPriced b → IsPriced t)
    → KeptBy (carry_out env actor t d) b
unfolding carry_out
carry_out-KeptBy env actor t approved b priced = approve-KeptBy env actor t b
carry_out-KeptBy env actor t rejected b priced = reject-KeptBy env actor t b priced

-- A decision of an admin keeps the books, whatever it is.
pub decide-KeptBy :
    (env : Env) (actor k : ℕ) (dto : Decision) (b : Bank) → KeptBy (decide env actor k dto) b
unfolding decide
decide-KeptBy env actor k dto b = guard-KeptBy _ _ _ b (
    found-KeptBy _ _ _ b (λ t e. guard-KeptBy _ _ _ b (
      guard-KeptBy _ _ _ b
        (carry_out-KeptBy env actor t dto.decision b (λ p. IsPriced-of k b t p e)))))

pub approve_wire-KeptBy : (env : Env) (actor k : ℕ) (b : Bank) → KeptBy (approve_wire env actor k) b
unfolding approve_wire
approve_wire-KeptBy env actor k b = found-KeptBy _ _ _ b (λ t e. guard-KeptBy _ _ _ b (
    guard-KeptBy _ _ _ b (
      guard-KeptBy _ _ _ b (
        >>-KeptBy _ _ b
          (update_transfer-KeptBy t.id (reviewed env actor approved) b
            (λ x. (refl, (λ h. h), (λ r. (r.0, refl)))))
          (>>-KeptBy _ _ _ (force_settle-KeptBy env t.id _) (emit-KeptBy _ _))))))

pub reverse-KeptBy : (env : Env) (k : ℕ) (b : Bank) → KeptBy (reverse env k) b
unfolding reverse
reverse-KeptBy env k b = found-KeptBy _ _ _ b (λ t e. guard-KeptBy _ _ _ b (
    guard-KeptBy _ _ _ b (
      >>-KeptBy _ _ b
        (transaction-KeptBy (take_back env t) b (λ u b' done.
          Reversed-Keeps env t b b' (λ p. IsPriced-of k b t p e) (take_back-ok env t b done)))
        (Quiet-Keeps _ _ (announce_reversal-Quiet env t _)))))
