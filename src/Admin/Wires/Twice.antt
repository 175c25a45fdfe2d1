-- ===== src/Admin/Wires/Twice.antt =====
-- A reversal of a wire leaves its review open.
use meal.Prelude.{ℕ, ◌≡◌, refl, arith, some, Option-cases}
use meal.Prelude.Int.{◌+ℤ◌}
use meal.Prelude.Table.{find-key, find-modify}
use meal.Bank.{Bank, Transfer, rejected}
use meal.Bank.Action.{ok, >>=-ok, >>-ok, or_throw-ok}
use meal.Bank.Flow.{transaction-ok}
use meal.Bank.Balance.{account_of, balance_of}
use meal.Transfers.Requests.{Env}
use meal.Transfers.Rows.{transfer_of, transfer_key}
use meal.Transfers.Settlement.Once.{OnlyEvents}
use meal.Admin.Refunded.{Refunded}
use meal.Admin.Review.{Decision, refund_of, decide}
use meal.Admin.Review.Outcome.{rejected_balance}
use meal.Admin.Wires.{take_back, reverse_entry, reversed_transfer, announce_reversal, reverse}
use meal.Admin.Wires.Effect.{take_back-ok}

announce_reversal-only :
    (env : Env) (t : Transfer) (b : Bank) → OnlyEvents b (announce_reversal env t b).1
unfolding announce_reversal
announce_reversal-only env t b =
    ground
      (arith, Option-cases (account_of t.from_account_id b), Option-cases t.pending_transaction_id)

-- A reversal that goes through, by its database transaction and the events after it.
pub record Reversal (env : Env) (k : ℕ) (t : Transfer) (b b' : Bank) : Type 0 where
  pub between : Bank
  pub effect : Refunded t (reverse_entry env t t.from_account_id) (reversed_transfer env) b between
  pub only : OnlyEvents between b'

taken :
    (env : Env) (t x : Transfer) (b b₁ : Bank) {u : Unit} {b' : Bank}
    → b₁ ≡ b
    → x ≡ t
    → take_back env x b₁ ≡ (ok u, b')
    → Refunded t (reverse_entry env t t.from_account_id) (reversed_transfer env) b b'
taken env t x b b₁ same is_t h = take_back-ok env t b (rw (same, is_t) at h)

pub reverse-ok :
    (env : Env) (k : ℕ) (t : Transfer) (b : Bank) {u : Unit} {b' : Bank}
    → transfer_of k b ≡ some t
    → reverse env k b ≡ (ok u, b')
    → Reversal env k t b b'
unfolding reverse
reverse-ok env k t b e h =
    let (o, b₁, e₁, h₁) = >>=-ok _ _ b h in
    let (x, b₂, e₂, h₂) = >>=-ok _ _ b₁ h₁ in
    let (_, b₃, e₃, h₃) = >>-ok _ _ b₂ h₂ in
    let (_, b₄, e₄, h₄) = >>-ok _ _ b₃ h₃ in
    let (v, b₅, e₅, h₅) = >>-ok _ _ b₄ h₄ in
    let same : b₄ ≡ b = ground (arith, e₁, e₂, e₃, e₄) in
    let is_t : x ≡ t = ground (arith, (or_throw-ok _ _ b₁ e₂).0, e₁, e) in
    record {
      between = b₅;
      effect = taken env t x b b₄ same is_t (transaction-ok (take_back env x) b₄ e₅);
      only = ground (arith, h₅, announce_reversal-only env x b₅);
    }

-- A wire that an admin reverses, and that an admin then rejects in the review queue, where that goes
-- through, has given its sender the amount and the fee twice.
pub reverse-decide_rejected :
    (env env₂ : Env) (actor k : ℕ) (t : Transfer) (decision : Decision) (b : Bank) {u : Unit}
    {b' : Bank} {v : Unit} {b'' : Bank}
    → transfer_of k b ≡ some t
    → reverse env k b ≡ (ok u, b')
    → decision.decision ≡ rejected
    → decide env₂ actor k decision b' ≡ (ok v, b'')
    → balance_of t.from_account_id b''
      ≡ balance_of t.from_account_id b +ℤ refund_of t +ℤ refund_of t
reverse-decide_rejected env env₂ actor k t decision b {b' = b'} e h d h₂ =
    let r = reverse-ok env k t b e h in
    let id : t.id ≡ k = find-key transfer_key k b.transfers t e in
    let at = find-modify transfer_key k t.id (reversed_transfer env) b.transfers (λ x. refl) in
    let row : transfer_of k b' ≡ some (reversed_transfer env t) =
      ground (arith, r.only, r.effect.transfers, at, id, e) in
    let once : balance_of t.from_account_id b' ≡ balance_of t.from_account_id b +ℤ refund_of t =
      ground (arith, r.only, r.effect.balances t.from_account_id) in
    ground (
      arith,
      rejected_balance env₂ actor k decision b' (reversed_transfer env t) d row h₂
          t.from_account_id,
      once,
    )
