-- ===== src/Transfers/Rescue/Repeat.antt =====
-- What the owner's force-settle does to a transfer that was settled before.
use meal.Prelude.{ℕ, ◌≡◌, inl, inr, refl, true, arith, some, if◌then◌else◌}
use meal.Prelude.Int.{◌+ℤ◌}
use meal.Prelude.Table.{find-key, find-modify}
use meal.Bank.{Bank, Transfer, posted}
use meal.Bank.Action.{ok, >>=-ok, >>-ok, or_throw-ok}
use meal.Bank.Balance.{balance_of}
use meal.Transfers.Requests.{Env}
use meal.Transfers.Rows.{transfer_of, transfer_key, update_transfer-ok, update_transfer}
use meal.Transfers.Settlement.{may_settle, process}
use meal.Transfers.Settlement.Effect.{credited, is_account}
use meal.Transfers.Settlement.Once.{process-ok}
use meal.Transfers.Rescue.{
  to_pending, reset, run_settlement, force_settle, get_for_user, force_settle_own,
}

get_for_user-same :
    (user k : ℕ) (b : Bank) {t : Transfer} {b' : Bank} → get_for_user user k b ≡ (ok t, b') → b' ≡ b
unfolding get_for_user
get_for_user-same user k b h =
    let (o, b₁, e₁, h₁) = >>=-ok _ _ b h in
    let (t, b₂, e₂, h₂) = >>=-ok _ _ b₁ h₁ in
    let (_, b₃, e₃, h₃) = >>-ok _ _ b₂ h₂ in ground (arith, e₁, e₂, e₃, h₃)

-- The balances are as before, and the transfer is pending.
record Reset (k : ℕ) (t : Transfer) (b b' : Bank) : Type 0 where
  same_accounts : b'.accounts ≡ b.accounts
  pending_again : transfer_of k b' ≡ some (to_pending t)

reset-posted :
    (k : ℕ) (t : Transfer) (b : Bank) {u : Unit} {b' : Bank}
    → transfer_of k b ≡ some t
    → t.status ≡ posted
    → reset t b ≡ (ok u, b')
    → Reset k t b b'
unfolding reset
reset-posted k t b {b' = b'} e p h =
    let id : t.id ≡ k = find-key transfer_key k b.transfers t e in
    let changes : update_transfer t.id to_pending b ≡ (ok tt, b') = ground (arith, h, p) in
    let row = update_transfer-ok t.id to_pending b changes in
    let at = find-modify transfer_key k t.id to_pending b.transfers (λ x. refl) in
    record { same_accounts = ground (arith, row); pending_again = ground (arith, row, at, id, e) }

run_settlement-queued :
    (env : Env) (k : ℕ) (b : Bank) {u : Unit} {b' : Bank}
    → env.queue_up ≡ true
    → run_settlement env k b ≡ (ok u, b')
    → b' ≡ record b { jobs = b'.jobs }
unfolding run_settlement
run_settlement-queued env k b q h = ground (arith, q, h)

force_settle-queued :
    (env : Env) (k : ℕ) (t : Transfer) (b : Bank) {u : Unit} {b' : Bank}
    → env.queue_up ≡ true
    → transfer_of k b ≡ some t
    → t.status ≡ posted
    → force_settle env k b ≡ (ok u, b')
    → Reset k t b b'
unfolding force_settle
force_settle-queued env k t b {b' = b'} q e p h =
    let (o, b₁, e₁, h₁) = >>=-ok _ _ b h in
    let (x, b₂, e₂, h₂) = >>=-ok _ _ b₁ h₁ in
    let (v, b₃, e₃, h₃) = >>-ok _ _ b₂ h₂ in
    let same : b₂ ≡ b = ground (arith, e₁, e₂) in
    let is_t : x ≡ t = ground (arith, (or_throw-ok _ _ b₁ e₂).0, e₁, e) in
    let again : reset t b ≡ (ok v, b₃) = rw (same, is_t) at e₃ in
    let r = reset-posted k t b e p again in
    let queued = run_settlement-queued env k b₃ q h₃ in
    record {
      same_accounts = ground (arith, queued, r.same_accounts);
      pending_again = ground (arith, queued, r.pending_again);
    }

settles_again :
    (env : Env) (k : ℕ) (t : Transfer) (b : Bank) {u : Unit} {b' : Bank}
    → transfer_of k b ≡ some t
    → may_settle t ≡ true
    → process env k b ≡ (ok u, b')
    → (j : ℕ)
    → balance_of j b'
      ≡ (if is_account j (credited t) then balance_of j b +ℤ t.amount_cents else balance_of j b)
settles_again env k t b e m h j = elim (process-ok env k b h) [
  | inl (s, same) ↦ elim s [
    | inl gone ↦ ground (arith, gone, e)
    | inr (x, found, held) ↦
        let is_t : x ≡ t = ground (arith, e, found) in ground (arith, rw is_t at held, m)
  ]
  | inr d ↦
      let is_t : d.found ≡ t = ground (arith, e, d.stored) in
      ground (arith, d.only, rw is_t at (d.effect.balances j))
]

-- With the queue up, a force-settle by the owner of a posted transfer that is not held for review,
-- followed by the job that it queues, if both go through, adds the amount once more to the account
-- that the transfer credits, and takes it from no account.
pub force_settle_own-process :
    (env env₂ : Env) (user k : ℕ) (t : Transfer) (b : Bank) {u : Unit} {b' : Bank} {v : Unit}
    {b'' : Bank}
    → env.queue_up ≡ true
    → transfer_of k b ≡ some t
    → t.status ≡ posted
    → may_settle (to_pending t) ≡ true
    → force_settle_own env user k b ≡ (ok u, b')
    → process env₂ k b' ≡ (ok v, b'')
    → (j : ℕ)
    → balance_of j b''
      ≡ (if is_account j (credited t) then balance_of j b +ℤ t.amount_cents else balance_of j b)
unfolding force_settle_own
force_settle_own-process env env₂ user k t b {b' = b'} q e p m h h₂ j =
    let (x, b₁, e₁, h₁) = >>-ok _ _ b h in
    let same = get_for_user-same user k b e₁ in
    let r = force_settle-queued env k t b q e p (rw same at h₁) in
    ground (arith, settles_again env₂ k (to_pending t) b' r.pending_again m h₂ j, r.same_accounts)
