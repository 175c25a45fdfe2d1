-- ===== src/Transfers/Initiate/Replay.antt =====
-- An answer of `initiate` comes from the stored transfer of its key, or from a new one.
use meal.Prelude.{
  ◌∷◌, ℕ, ◌≡◌, ◌≢◌, ◌⊎◌, inl, inr, refl, false, arith, Option, none, some, ◌==◌, if◌then◌else◌,
}
use meal.Bank.{Bank, Transfer}
use meal.Bank.Action.{ok, err, >>=-ok, >>-ok, throw_if-ok, key_of_other_user, ◌>>=◌, ◌>>◌}
use meal.Bank.Flow.{transaction-ok}
use meal.Transfers.Requests.{InitiateTransfer, Env, InitiateResult, Plan}
use meal.Transfers.Rows.{transfer_by_key, user_locked}
use meal.Transfers.Initiate.{
  needs_review, commit, schedule, result_of, new_transfer, initiate_new, replay, replay_or_new,
  initiate,
}
use meal.Transfers.Initiate.Checks.{Planned, prepare-ok}
use meal.Transfers.Initiate.Effect.{Committed, commit-ok}

-- After the transaction only the queue, the timers and the events change.
abbrev pub OnlyScheduled : Bank → Bank → Type 0
OnlyScheduled b b' = b' ≡ record b { jobs = b'.jobs; timers = b'.timers; events = b'.events }

-- A new transfer was stored.
pub record Started (env : Env) (user key : ℕ) (dto : InitiateTransfer) (b : Bank)
    (r : InitiateResult) (b' : Bank) : Type 0 where
  pub plan : Plan
  pub stored : Bank
  pub planned : Planned env user dto plan b
  pub committed : Committed env user key dto plan b stored
  pub answer : r ≡ result_of env (new_transfer env user key dto plan)
  pub only : OnlyScheduled stored b'
  pub jobs : b'.jobs ≡ (
      if needs_review env.config dto.kind plan.settlement_cents
      then b.jobs
      else if env.queue_up
      then env.transfer_id ∷ b.jobs
      else b.jobs)
  pub timers : b'.timers ≡ (
      if needs_review env.config dto.kind plan.settlement_cents
      then b.timers
      else if env.queue_up
      then b.timers
      else env.transfer_id ∷ b.timers)

-- The key's transfer was there.
pub record Replayed (env : Env) (user key : ℕ) (b : Bank) (r : InitiateResult) (b' : Bank)
    : Type 0 where
  pub found : Transfer
  pub by_key : transfer_by_key key b ≡ some found
  pub mine : found.initiated_by_user_id ≡ user
  pub answer : r ≡ result_of env found
  pub same : b' ≡ b

schedule-only :
    (env : Env) (t : Transfer) (b : Bank) {u : Unit} {b' : Bank}
    → schedule env t b ≡ (ok u, b')
    → OnlyScheduled b b'
unfolding schedule
schedule-only env t b h = ground arith

-- Where a transfer waits: with the admins, in the queue, or on a timer.
abbrev Waits : Env → Transfer → Bank → Bank → Type 0
Waits env t b b' =
    (b'.jobs
      ≡ (if t.requires_review then b.jobs else if env.queue_up then t.id ∷ b.jobs else b.jobs))
    × (b'.timers ≡ (
        if t.requires_review then b.timers else if env.queue_up then b.timers else t.id ∷ b.timers))

schedule-Waits :
    (env : Env) (t : Transfer) (b : Bank) {u : Unit} {b' : Bank}
    → schedule env t b ≡ (ok u, b')
    → Waits env t b b'
unfolding schedule
schedule-Waits env t b h = ground arith

Waits-from :
    (env : Env) (t t' : Transfer) (b b₁ b₃ b' : Bank)
    → b₁ ≡ b
    → b₃.jobs ≡ b₁.jobs
    → b₃.timers ≡ b₁.timers
    → t ≡ t'
    → Waits env t b₃ b'
    → Waits env t' b b'
Waits-from env t t' b b₁ b₃ b' same jobs timers row w = rw (← row, ← same, ← jobs, ← timers) w

initiate_new-ok :
    (env : Env) (user key : ℕ) (dto : InitiateTransfer) (b : Bank) {r : InitiateResult} {b' : Bank}
    → initiate_new env user key dto b ≡ (ok r, b')
    → Started env user key dto b r b'
unfolding initiate_new
initiate_new-ok env user key dto b {b' = b'} h =
    let (plan, b₁, e₁, h₁) = >>=-ok _ _ b h in
    let (t, b₂, e₂, h₂) = >>=-ok _ _ b₁ h₁ in
    let (_, b₃, e₃, h₃) = >>-ok _ _ b₂ h₂ in
    let (_, b₄, e₄, h₄) = >>-ok _ _ b₃ h₃ in
    let (same, planned) = prepare-ok env user dto b e₁ in
    let (row, committed, _) =
      commit-ok env user key dto plan b₁ (transaction-ok (commit env user key dto plan) b₁ e₂) in
    let jobs : b₃.jobs ≡ b₁.jobs = ground (arith, e₃, committed.same_jobs) in
    let timers : b₃.timers ≡ b₁.timers = ground (arith, e₃, committed.same_timers) in
    let scheduled : schedule env t b₃ ≡ (ok tt, b') = ground (arith, e₄, h₄) in
    let waits =
      Waits-from env t (new_transfer env user key dto plan) b b₁ b₃ b' same jobs timers row
        (schedule-Waits env t b₃ scheduled) in
    record {
      plan = plan;
      stored = b₂;
      planned = planned;
      committed = rw same at committed;
      answer = ground (arith, h₄, row);
      only = ground (arith, e₃, h₄, schedule-only env t b₃ e₄);
      jobs = waits.0;
      timers = waits.1;
    }

replay_or_new-ok :
    (env : Env) (user key : ℕ) (dto : InitiateTransfer) (o : Option Transfer) (b : Bank)
    {r : InitiateResult} {b' : Bank}
    → transfer_by_key key b ≡ o
    → replay_or_new env user key dto o b ≡ (ok r, b')
    → Replayed env user key b r b' ⊎ Started env user key dto b r b'
unfolding replay_or_new replay
replay_or_new-ok env user key dto none b e h = inr (initiate_new-ok env user key dto b h)
replay_or_new-ok env user key dto (some t) b e h =
    let (_, b₁, e₁, h₁) = >>-ok _ _ b h in
    let (mine, same) = throw_if-ok _ _ b e₁ in
    inl (record {
      found = t;
      by_key = e;
      mine = ground (arith, mine);
      answer = ground (arith, h₁);
      same = ground (arith, h₁, same);
    })

pub initiate-ok :
    (env : Env) (user key : ℕ) (dto : InitiateTransfer) (b : Bank) {r : InitiateResult} {b' : Bank}
    → initiate env user (some key) dto b ≡ (ok r, b')
    → (Replayed env user key b r b' ⊎ Started env user key dto b r b')
      × (user_locked user b.users ≡ false)
unfolding initiate
initiate-ok env user key dto b h =
    let (c, b₁, e₁, h₁) = >>=-ok _ _ b h in
    let (_, b₂, e₂, h₂) = >>-ok _ _ b₁ h₁ in
    let (o, b₃, e₃, h₃) = >>=-ok _ _ b₂ h₂ in
    let (unlocked, _) = throw_if-ok _ _ b₁ e₂ in
    let same : b₃ ≡ b = ground (arith, e₁, e₂, e₃) in
    let key_of : transfer_by_key key b₃ ≡ o = ground (arith, e₁, e₂, e₃) in
    (rw same at (replay_or_new-ok env user key dto o b₃ key_of h₃), ground (arith, e₁, unlocked))

-- An answer: to a request with a key, which was used before or starts a transfer.
abbrev pub Answered : Env → ℕ → Option ℕ → InitiateTransfer → Bank → InitiateResult → Bank → Type 0
Answered env user key dto b r b' =
    (k : ℕ) × (key ≡ some k) × (Replayed env user k b r b' ⊎ Started env user k dto b r b')

pub initiate-Answered :
    (env : Env) (user : ℕ) (key : Option ℕ) (dto : InitiateTransfer) (b : Bank) {r : InitiateResult}
    {b' : Bank}
    → initiate env user key dto b ≡ (ok r, b')
    → Answered env user key dto b r b'
unfolding initiate
initiate-Answered env user none dto b h = ground (arith, h)
initiate-Answered env user (some k) dto b h = (k, refl, (initiate-ok env user k dto b h).0)

-- A key that is stored.
answer_stored :
    (env : Env) (user key : ℕ) (dto : InitiateTransfer) (b : Bank) (t : Transfer)
    → transfer_by_key key b ≡ some t
    → user_locked user b.users ≡ false
    → initiate env user (some key) dto b ≡ (
        if t.initiated_by_user_id == user
        then (ok (result_of env t), b)
        else (err key_of_other_user, b))
unfolding initiate replay_or_new replay ◌>>=◌ ◌>>◌
answer_stored env user key dto b t e u = ground (arith, e, u)

record Kept (env : Env) (user key : ℕ) (r : InitiateResult) (b b' : Bank) : Type 0 where
  t : Transfer
  by_key : transfer_by_key key b' ≡ some t
  mine : t.initiated_by_user_id ≡ user
  answer : r ≡ result_of env t
  same_users : b'.users ≡ b.users

Kept-of :
    (env : Env) (user key : ℕ) (dto : InitiateTransfer) (b : Bank) (r : InitiateResult) (b' : Bank)
    → Replayed env user key b r b' ⊎ Started env user key dto b r b'
    → Kept env user key r b b'
Kept-of env user key dto b r b' (inl h) = record {
  t = h.found;
  by_key = rw h.same h.by_key;
  mine = h.mine;
  answer = h.answer;
  same_users = ground (arith, h.same);
}
Kept-of env user key dto b r b' (inr h) = record {
  t = new_transfer env user key dto h.plan;
  by_key = ground (arith, h.only, h.committed.transfers);
  mine = refl;
  answer = h.answer;
  same_users = ground (arith, h.only, h.committed.same_users);
}

-- After an answer, the transfer is stored under the request's key, and the answer is what this transfer
-- says. The same user's next request with the key, whatever it asks for, is answered with what the
-- same stored transfer says, and changes nothing.
pub initiate-replay :
    (env env₂ : Env) (user key : ℕ) (dto dto₂ : InitiateTransfer) (b : Bank) {r : InitiateResult}
    {b' : Bank}
    → initiate env user (some key) dto b ≡ (ok r, b')
    → (t : Transfer) × (transfer_by_key key b' ≡ some t)
      × (t.initiated_by_user_id ≡ user)
      × (r ≡ result_of env t)
      × (initiate env₂ user (some key) dto₂ b' ≡ (ok (result_of env₂ t), b'))
initiate-replay env env₂ user key dto dto₂ b {r = r} {b' = b'} h =
    let (how, unlocked) = initiate-ok env user key dto b h in
    let k = Kept-of env user key dto b r b' how in
    (
      k.t,
      k.by_key,
      k.mine,
      k.answer,
      ground (
        arith,
        answer_stored env₂ user key dto₂ b' k.t k.by_key (rw k.same_users unlocked),
        k.mine,
      ),
    )

-- After an answer, another user's request with the same key is refused and changes nothing, if this
-- user's transfers are not disabled.
pub initiate-key_of_other_user :
    (env env₂ : Env) (user other key : ℕ) (dto dto₂ : InitiateTransfer) (b : Bank)
    {r : InitiateResult} {b' : Bank}
    → other ≢ user
    → user_locked other b.users ≡ false
    → initiate env user (some key) dto b ≡ (ok r, b')
    → initiate env₂ other (some key) dto₂ b' ≡ (err key_of_other_user, b')
initiate-key_of_other_user env env₂ user other key dto dto₂ b {r = r} {b' = b'} ne unlocked h =
    let k = Kept-of env user key dto b r b' (initiate-ok env user key dto b h).0 in
    ground (
      arith,
      answer_stored env₂ other key dto₂ b' k.t k.by_key (rw k.same_users unlocked),
      k.mine,
      ne,
    )
