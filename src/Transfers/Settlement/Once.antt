-- ===== src/Transfers/Settlement/Once.antt =====
-- What a job of the worker does.
use meal.Prelude.{
  ℕ, ◌≡◌, ◌⊎◌, inl, inr, refl, true, false, arith, Option, none, some, Option-cases, Bool-cases,
}
use meal.Bank.{Bank, Transfer}
use meal.Bank.Action.{ok, >>-ok}
use meal.Bank.Flow.{transaction-ok}
use meal.Bank.Balance.{account_of}
use meal.Transfers.Requests.{Env}
use meal.Transfers.Rows.{transfer_of, when_some}
use meal.Transfers.Settlement.{
  may_settle, settle, notify_account, notify_recipient, announce, settle_and_announce,
  process_found, process, destination,
}
use meal.Transfers.Settlement.Effect.{Settled, settle-ok}

abbrev pub OnlyEvents : Bank → Bank → Type 0
OnlyEvents b b' = b' ≡ record b { events = b'.events }

pub notify_account-only : (k : ℕ) (b : Bank) → OnlyEvents b (notify_account k b).1
unfolding notify_account
notify_account-only k b = ground (arith, Option-cases (account_of k b))

notify_recipient-only :
    (env : Env) (t : Transfer) (k : Option ℕ) (b : Bank)
    → OnlyEvents b (when_some k (notify_recipient env t) b).1
unfolding notify_recipient
notify_recipient-only env t none b = refl
notify_recipient-only env t (some k) b = ground (arith, Option-cases (account_of k b))

announce-only :
    (env : Env) (t : Transfer) (b : Bank) {u : Unit} {b' : Bank}
    → announce env t b ≡ (ok u, b')
    → OnlyEvents b b'
unfolding announce
announce-only env t b h =
    let (_, b₁, e₁, h₁) = >>-ok _ _ b h in
    let (_, b₂, e₂, h₂) = >>-ok _ _ b₁ h₁ in
    let (_, b₃, e₃, h₃) = >>-ok _ _ b₂ h₂ in
    ground (
      arith,
      e₁,
      e₂,
      e₃,
      h₃,
      notify_account-only t.from_account_id b,
      notify_recipient-only env t (destination t.kind t.to_account_id) b₂,
    )

-- A job that goes through has settled the stored transfer.
pub record Done (env : Env) (k : ℕ) (b b' : Bank) : Type 0 where
  pub found : Transfer
  pub between : Bank
  pub stored : transfer_of k b ≡ some found
  pub allowed : may_settle found ≡ true
  pub effect : Settled env found b between
  pub only : OnlyEvents between b'

settle_and_announce-ok :
    (env : Env) (k : ℕ) (t : Transfer) (b : Bank) {u : Unit} {b' : Bank}
    → transfer_of k b ≡ some t
    → may_settle t ≡ true
    → settle_and_announce env t b ≡ (ok u, b')
    → Done env k b b'
unfolding settle_and_announce
settle_and_announce-ok env k t b e m h =
    let (_, b₁, e₁, h₁) = >>-ok _ _ b h in
    record {
      found = t;
      between = b₁;
      stored = e;
      allowed = m;
      effect = (settle-ok env t b (transaction-ok (settle env t) b e₁)).0;
      only = announce-only env t b₁ h₁;
    }

-- The job skips the transfer: it is gone, or may not be settled.
abbrev pub Skipped : ℕ → Bank → Type 0
Skipped k b =
    (transfer_of k b ≡ none)
    ⊎ ((t : Transfer) × (transfer_of k b ≡ some t) × (may_settle t ≡ false))

process_found-ok :
    (env : Env) (k : ℕ) (o : Option Transfer) (b : Bank) {u : Unit} {b' : Bank}
    → transfer_of k b ≡ o
    → process_found env o b ≡ (ok u, b')
    → (Skipped k b × (b' ≡ b)) ⊎ Done env k b b'
unfolding process_found
process_found-ok env k none b e h = inl (inl e, ground arith)
process_found-ok env k (some t) b {b' = b'} e h = elim (Bool-cases (may_settle t)) [
  | inl m ↦ inr (settle_and_announce-ok env k t b e m (rw m at h))
  | inr m ↦ inl (inr (t, e, m), ground (arith, m))
]

-- A job that goes through has either settled its transfer, which was pending and approved if flagged
-- for review, or found nothing to settle and changed nothing.
pub process-ok :
    (env : Env) (k : ℕ) (b : Bank) {u : Unit} {b' : Bank}
    → process env k b ≡ (ok u, b')
    → (Skipped k b × (b' ≡ b)) ⊎ Done env k b b'
unfolding process
process-ok env k b h = process_found-ok env k (transfer_of k b) b refl h

pub process_skips : (env : Env) (k : ℕ) (b : Bank) → Skipped k b → process env k b ≡ (ok tt, b)
unfolding process process_found
process_skips env k b (inl e) = ground (arith, e)
process_skips env k b (inr (t, e, m)) = ground (arith, e, m)
