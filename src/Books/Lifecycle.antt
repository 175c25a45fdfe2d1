-- ===== src/Books/Lifecycle.antt =====
-- A transfer from its start to its end: what the balances have become.
use meal.Prelude.{true, ◌⊎◌, Bool, ℕ, ◌≡◌, inl, inr, refl, arith, none, some, ◌==◌, if◌then◌else◌}
use meal.Prelude.Int.{ℤ, ◌≤ℤ◌, ◌+ℤ◌, ◌-ℤ◌, int_laws}
use meal.Bank.{Bank, Transfer, TransferKind, ach_out, p2p, wire_out, pending, rejected}
use meal.Bank.Action.{ok}
use meal.Bank.Balance.{balance_of}
use meal.Transfers.Requests.{Config, Env, InitiateTransfer, InitiateResult}
use meal.Transfers.Rows.{transfer_of, transfer_by_key}
use meal.Transfers.Initiate.{needs_review, new_transfer, initiate, total_debit}
use meal.Transfers.Initiate.Replay.{Started, initiate-ok}
use meal.Transfers.Settlement.{process}
use meal.Transfers.Settlement.Effect.{credited, is_account}
use meal.Transfers.Settlement.Once.{process-ok, process_skips}
use meal.Admin.Review.{Decision, decide}
use meal.Admin.Review.Outcome.{rejected_balance}

-- A key that is new makes a new transfer.
Started-of :
    (env : Env) (user key : ℕ) (dto : InitiateTransfer) (b : Bank) {r : InitiateResult} {b' : Bank}
    → transfer_by_key key b ≡ none
    → initiate env user (some key) dto b ≡ (ok r, b')
    → Started env user key dto b r b'
Started-of env user key dto b new h = elim (initiate-ok env user key dto b h).0 [
  | inl old ↦ absurd_lem old.by_key
  | inr s ↦ s
]
  where
    absurd_lem : {A : Type 0} {t : Transfer} → transfer_by_key key b ≡ some t → A
    absurd_lem e = ground (arith, new, e)

-- The new transfer is stored under the id that the caller is told.
stored_of :
    (env : Env) (user key : ℕ) (dto : InitiateTransfer) (b : Bank) {r : InitiateResult} {b' : Bank}
    → (s : Started env user key dto b r b')
    → transfer_of r.transfer_id b' ≡ some (new_transfer env user key dto s.plan)
stored_of env user key dto b s = ground (arith, s.only, s.committed.transfers, s.answer)

Started-balance :
    (env : Env) (user key : ℕ) (dto : InitiateTransfer) (b : Bank) {r : InitiateResult} {b' : Bank}
    → (s : Started env user key dto b r b') → (j : ℕ)
    → balance_of j b' ≡ (
        if j == s.plan.from_account.id
        then balance_of j b -ℤ total_debit s.plan
        else balance_of j b)
Started-balance env user key dto b s j = ground (arith, s.only, s.committed.balances j)

undo :
    (c : Bool) (x amount fee : ℤ) {y z : ℤ}
    → y ≡ (if c then x -ℤ (amount +ℤ fee) else x)
    → z ≡ (if c then y +ℤ (amount +ℤ fee) else y)
    → z ≡ x
undo c x amount fee e f = grind int_laws

-- A new transfer that an admin then rejects has left every balance as it was before the request.
pub initiate-decide_rejected :
    (env env₂ : Env) (user actor key : ℕ) (dto : InitiateTransfer) (decision : Decision) (b : Bank)
    {r : InitiateResult} {b' : Bank} {u : Unit} {b'' : Bank}
    → transfer_by_key key b ≡ none
    → initiate env user (some key) dto b ≡ (ok r, b')
    → decision.decision ≡ rejected
    → decide env₂ actor r.transfer_id decision b' ≡ (ok u, b'')
    → (j : ℕ) → balance_of j b'' ≡ balance_of j b
initiate-decide_rejected env env₂ user actor key dto decision b {b' = b'} new h d h₂ j =
    let s = Started-of env user key dto b new h in
    let t = new_transfer env user key dto s.plan in
    let stored = stored_of env user key dto b s in
    undo (j == s.plan.from_account.id) (balance_of j b) s.plan.settlement_cents s.plan.fee_cents
      (Started-balance env user key dto b s j)
      (rejected_balance env₂ actor _ decision b' t d stored h₂ j)

-- A pending transfer that nobody has reviewed is settled unless it is held for review.
settled_balance :
    (env : Env) (k : ℕ) (b : Bank) (t : Transfer) {u : Unit} {b' : Bank}
    → t.status ≡ pending
    → t.review_decision ≡ none
    → transfer_of k b ≡ some t
    → process env k b ≡ (ok u, b')
    → (j : ℕ) → {x : ℤ} → balance_of j b ≡ x
    → balance_of j b' ≡ (
        if t.requires_review
        then x
        else if is_account j (credited t)
        then x +ℤ t.amount_cents
        else x)
settled_balance env k b t p n e h j x = elim (process-ok env k b h) [
  | inl (s, same) ↦ elim s [
    | inl gone ↦ ground (arith, gone, e)
    | inr (t', e', m) ↦
        let is_t : t' ≡ t = ground (arith, e, e') in ground (arith, rw is_t at m, p, n, same, x)
  ]
  | inr d ↦
      let is_t : d.found ≡ t = ground (arith, e, d.stored) in
      let bal = rw is_t at (d.effect.balances j) in
      ground (arith, rw is_t at d.allowed, p, n, d.only, bal, x)
]

-- A new transfer, once a job has run for it and gone through, has taken the amount and the fee from
-- its source; if it is not held for review, it has also added the amount to the account that it
-- credits, if any; and every other balance is as before.
pub initiate-process :
    (env env₂ : Env) (user key : ℕ) (dto : InitiateTransfer) (b : Bank) {r : InitiateResult}
    {b' : Bank} {u : Unit} {b'' : Bank}
    → transfer_by_key key b ≡ none
    → initiate env user (some key) dto b ≡ (ok r, b')
    → process env₂ r.transfer_id b' ≡ (ok u, b'')
    → (t : Transfer) × (transfer_of r.transfer_id b' ≡ some t)
      × ((j : ℕ)
          → balance_of j b'' ≡ (
              let debited =
                if j == t.from_account_id
                then balance_of j b -ℤ (t.amount_cents +ℤ t.fee_cents)
                else balance_of j b in
              if t.requires_review
              then debited
              else if is_account j (credited t)
              then debited +ℤ t.amount_cents
              else debited))
initiate-process env env₂ user key dto b {b' = b'} new h h₂ =
    let s = Started-of env user key dto b new h in
    let stored = stored_of env user key dto b s in
    (
      new_transfer env user key dto s.plan,
      stored,
      λ j.
          settled_balance env₂ _ b' (new_transfer env user key dto s.plan) refl refl stored h₂ j
            (Started-balance env user key dto b s j),
    )

-- The transfers that an admin has to see: wires and ACH transfers that go out, and payments to others
-- from the threshold on.
abbrev pub IsForReview : Config → TransferKind → ℤ → Type 0
IsForReview c kind amount =
    (kind ≡ wire_out) ⊎ ((kind ≡ ach_out) ⊎ ((kind ≡ p2p) × (c.review_threshold_cents ≤ℤ amount)))

needs_review-IsForReview :
    (c : Config) (kind : TransferKind) (amount : ℤ)
    → IsForReview c kind amount
    → needs_review c kind amount ≡ true
needs_review-IsForReview c kind amount (inl e) = rw e
needs_review-IsForReview c kind amount (inr (inl e)) = rw e
needs_review-IsForReview c kind amount (inr (inr (e, lo))) = rw e (ground arith)

-- A new transfer that is an outgoing wire or ACH transfer, or a payment to somebody else from the
-- configured threshold on, is put neither in the queue nor on a timer, and a job that runs for it all
-- the same changes nothing.
pub initiate-held :
    (env env₂ : Env) (user key : ℕ) (dto : InitiateTransfer) (b : Bank) {r : InitiateResult}
    {b' : Bank} (t : Transfer)
    → transfer_by_key key b ≡ none
    → initiate env user (some key) dto b ≡ (ok r, b')
    → transfer_of r.transfer_id b' ≡ some t
    → IsForReview env.config t.kind t.amount_cents
    → (b'.jobs ≡ b.jobs) × (b'.timers ≡ b.timers) × (process env₂ r.transfer_id b' ≡ (ok tt, b'))
initiate-held env env₂ user key dto b {b' = b'} t new h found held =
    let s = Started-of env user key dto b new h in
    let stored = stored_of env user key dto b s in
    let row : t ≡ new_transfer env user key dto s.plan = ground (arith, found, stored) in
    let review : needs_review env.config dto.kind s.plan.settlement_cents ≡ true =
      rw row at (needs_review-IsForReview env.config t.kind t.amount_cents held) in
    (
      ground (arith, s.jobs, review),
      ground (arith, s.timers, review),
      process_skips env₂ _ b'
          (inr (new_transfer env user key dto s.plan, stored, ground (arith, review))),
    )
