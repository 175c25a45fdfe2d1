-- ===== src/Books/Closed.antt =====
-- The calls that leave a transfer closed: settled, declined or reversed, and no longer pending.
use meal.Prelude.{
  ℕ, Bool, false, ◌≡◌, inl, inr, refl, arith, Option, none, some, ltb, leb, ◌==◌, Bool-cases,
  Option-cases,
}
use meal.Prelude.Table.{modify, find-modify}
use meal.Bank.{Bank, Transfer, Event}
use meal.Bank.Action.{Action, Error, ok, gets, or_throw, emit, throw_if, transaction, ◌>>=◌, ◌>>◌}
use meal.Bank.Related.{>>=-related, >>-related, transaction-related, found-related}
use meal.Transfers.Requests.{Env, InitiateTransfer}
use meal.Transfers.Rows.{transfer_of, transfer_key, when_some, update_transfer, change_transfer}
use meal.Transfers.Initiate.{commit, initiate_new, replay, replay_or_new, initiate}
use meal.Transfers.Initiate.Checks.{prepare-Reads}
use meal.Transfers.Initiate.Effect.{commit-ok}
use meal.Transfers.Settlement.{
  is_pending, may_settle, settle, settled, settle_and_announce, process_found, mark_failed,
  on_failed, announce, destination,
}
use meal.Transfers.Settlement.Effect.{settle-ok}
use meal.Admin.Wires.{take_back, reverse, reversed_transfer}
use meal.Admin.Wires.Effect.{take_back-ok}
use meal.PaymentRequests.Rows.{PaymentRequest}
use meal.PaymentRequests.{
  request_of, change_request, update_request, load_open, decline, expire, pay_open, pay_row, pay,
}
use meal.Books.Quiet.{
  Quiet, schedule-Quiet, notify_account-Quiet, notify_recipient-Quiet, announce_reversal-Quiet,
}

-- The transfer is stored, and it is not pending.
abbrev pub IsClosed : ℕ → Bank → Type 0
IsClosed k b = (t : Transfer) × (transfer_of k b ≡ some t) × (is_pending t.status ≡ false)

pub record Closes (b b' : Bank) : Type 0 where
  pub still : (k : ℕ) → IsClosed k b → IsClosed k b'

pub Closes-refl : (b : Bank) → Closes b b
Closes-refl b = record { still = λ k h. h }

pub Closes-trans : (b b' b'' : Bank) → Closes b b' → Closes b' b'' → Closes b b''
Closes-trans b b' b'' h g = record { still = λ k c. g.still k (h.still k c) }

Closes-same : (b b' : Bank) → b'.transfers ≡ b.transfers → Closes b b'
Closes-same b b' e = record { still = λ k h. rw e h }

-- A change of one row that does not make it pending.
Closes-modify :
    (i : ℕ) (f : Transfer → Transfer) (b b' : Bank)
    → ((t : Transfer) → transfer_key (f t) ≡ transfer_key t)
    → ((t : Transfer) → is_pending t.status ≡ false → is_pending (f t).status ≡ false)
    → b'.transfers ≡ modify transfer_key i f b.transfers
    → Closes b b'
Closes-modify i f b b' same shut e = record {
  still = λ k (t, found, closed).
      let at = find-modify transfer_key k i f b.transfers same in
      elim (Bool-cases (k == i)) [
        | inl here ↦ (f t, ground (arith, at, here, found, e), shut t closed)
        | inr other ↦ (t, ground (arith, at, other, found, e), closed)
      ];
}

>>=-Closes :
    {A B : Type 0} (m : Action A) (f : A → Action B) (b : Bank)
    → Closes b (m b).1
    → ((a : A) → (m b).0 ≡ ok a → Closes (m b).1 (f a (m b).1).1)
    → Closes b ((m >>= f) b).1
>>=-Closes = >>=-related Closes Closes-refl Closes-trans

>>-Closes :
    {A B : Type 0} (m : Action A) (n : Action B) (b : Bank)
    → Closes b (m b).1
    → Closes (m b).1 (n (m b).1).1
    → Closes b ((m >> n) b).1
>>-Closes = >>-related Closes Closes-refl Closes-trans

transaction-Closes :
    {A : Type 0} (m : Action A) (b : Bank)
    → ((a : A) (b' : Bank) → m b ≡ (ok a, b') → Closes b b')
    → Closes b (transaction m b).1
transaction-Closes = transaction-related Closes Closes-refl Closes-trans

found-Closes :
    {A B : Type 0} (f : Bank → Option A) (e : Error) (n : A → Action B) (b : Bank)
    → ((a : A) → f b ≡ some a → Closes b (n a b).1)
    → Closes b ((gets f >>= (λ o. or_throw o e >>= n)) b).1
found-Closes = found-related Closes Closes-refl Closes-trans

guard-Closes :
    {B : Type 0} (c : Bool) (e : Error) (n : Action B) (b : Bank)
    → Closes b (n b).1
    → Closes b ((throw_if c e >> n) b).1
guard-Closes c e n b h = >>-Closes _ _ b (Closes-refl b) h

Quiet-Closes : (b b' : Bank) → Quiet b b' → Closes b b'
unfolding Quiet
Quiet-Closes b b' q = Closes-same b b' (ground (arith, q))

emit-Closes : (e : Event) (b : Bank) → Closes b (emit e b).1
emit-Closes e b = Closes-same b _ refl

when_some-Closes :
    (k : Option ℕ) (f : ℕ → Action Unit) (b : Bank)
    → ((i : ℕ) → Closes b (f i b).1)
    → Closes b (when_some k f b).1
when_some-Closes none f b h = Closes-refl b
when_some-Closes (some i) f b h = h i

announce-Closes : (env : Env) (t : Transfer) (b : Bank) → Closes b (announce env t b).1
unfolding announce
announce-Closes env t b =
    >>-Closes _ _ b (Quiet-Closes b _ (notify_account-Quiet t.from_account_id b)) (
      >>-Closes _ _ _ (emit-Closes _ _) (
        >>-Closes _ _ _
          (when_some-Closes (destination t.kind t.to_account_id) _ _
            (λ k. Quiet-Closes _ _ (notify_recipient-Quiet env t k _)))
          (emit-Closes _ _)))

pub process_found-Closes :
    (env : Env) (o : Option Transfer) (b : Bank) → Closes b (process_found env o b).1
unfolding process_found settle_and_announce
process_found-Closes env none b = Closes-refl b
process_found-Closes env (some t) b = elim (Bool-cases (may_settle t)) [
  | inr e ↦ rw e (Closes-refl b)
  | inl e ↦ rw e (
      >>-Closes _ _ b
        (transaction-Closes (settle env t) b (λ u b' done.
          Closes-modify t.id (settled env) b b' (λ x. refl) (λ x h. refl)
            (settle-ok env t b done).0.transfers))
        (announce-Closes env t _))
]

update-Closes :
    (i : ℕ) (f : Transfer → Transfer) (b : Bank)
    → ((t : Transfer) → transfer_key (f t) ≡ transfer_key t)
    → ((t : Transfer) → is_pending t.status ≡ false → is_pending (f t).status ≡ false)
    → Closes b (update_transfer i f b).1
unfolding update_transfer ◌>>=◌ ◌>>◌
update-Closes i f b same shut = elim (Option-cases (transfer_of i b)) [
  | inl e ↦ rw e (Closes-refl b)
  | inr (t, e) ↦ rw e (Closes-modify i f b (change_transfer i f b) same shut refl)
]

pub on_failed-Closes :
    (env : Env) (made attempts k : ℕ) (b : Bank) → Closes b (on_failed env made attempts k b).1
unfolding on_failed mark_failed
on_failed-Closes env made attempts k b = elim (Bool-cases (leb attempts made)) [
  | inl e ↦ rw e (update-Closes k _ b (λ t. refl) (λ t h. refl))
  | inr e ↦ rw e (Closes-refl b)
]

initiate_new-Closes :
    (env : Env) (user key : ℕ) (dto : InitiateTransfer) (b : Bank)
    → Closes b (initiate_new env user key dto b).1
unfolding initiate_new
initiate_new-Closes env user key dto b =
    >>=-Closes _ _ b (rw (prepare-Reads env user dto b) (Closes-refl b)) (λ plan e.
      >>=-Closes _ _ _
        (transaction-Closes (commit env user key dto plan) _ (λ t b' done.
          let (_, effect, _) = commit-ok env user key dto plan _ done in
          record {
            still = λ k (x, found, shut).
                (x, ground (arith, effect.transfers, effect.new_id, found), shut);
          }))
        (λ t _.
          >>-Closes _ _ _ (emit-Closes _ _)
            (>>-Closes _ _ _ (Quiet-Closes _ _ (schedule-Quiet env t _)) (Closes-refl _))))

replay_or_new-Closes :
    (env : Env) (user key : ℕ) (dto : InitiateTransfer) (o : Option Transfer) (b : Bank)
    → Closes b (replay_or_new env user key dto o b).1
unfolding replay_or_new replay
replay_or_new-Closes env user key dto none b = initiate_new-Closes env user key dto b
replay_or_new-Closes env user key dto (some t) b = guard-Closes _ _ _ b (Closes-refl b)

pub initiate-Closes :
    (env : Env) (user : ℕ) (key : Option ℕ) (dto : InitiateTransfer) (b : Bank)
    → Closes b (initiate env user key dto b).1
unfolding initiate
initiate-Closes env user none dto b = Closes-refl b
initiate-Closes env user (some key) dto b = >>=-Closes _ _ b (Closes-refl b) (λ c _.
    >>-Closes _ _ b (Closes-refl b)
      (>>=-Closes _ _ b (Closes-refl b) (λ o _. replay_or_new-Closes env user key dto o b)))

pub reverse-Closes : (env : Env) (k : ℕ) (b : Bank) → Closes b (reverse env k b).1
unfolding reverse
reverse-Closes env k b = found-Closes _ _ _ b (λ t e. guard-Closes _ _ _ b (
    guard-Closes _ _ _ b (
      >>-Closes _ _ b
        (transaction-Closes (take_back env t) b (λ u b' done.
          Closes-modify t.id (reversed_transfer env) b b' (λ x. refl) (λ x h. refl)
            (take_back-ok env t b done).transfers))
        (Quiet-Closes _ _ (announce_reversal-Quiet env t _)))))

request-Closes :
    (k : ℕ) (f : PaymentRequest → PaymentRequest) (b : Bank) → Closes b (update_request k f b).1
unfolding update_request ◌>>=◌ ◌>>◌
request-Closes k f b = elim (Option-cases (request_of k b)) [
  | inl e ↦ rw e (Closes-refl b)
  | inr (x, e) ↦ rw e (Closes-same b (change_request k f b) refl)
]

load_open-Closes : (user k : ℕ) (b : Bank) → Closes b (load_open user k b).1
unfolding load_open
load_open-Closes user k b =
    found-Closes _ _ _ b (λ r e. guard-Closes _ _ _ b (guard-Closes _ _ _ b (Closes-refl b)))

pub decline-Closes : (user k : ℕ) (b : Bank) → Closes b (decline user k b).1
unfolding decline
decline-Closes user k b =
    >>=-Closes _ _ b (load_open-Closes user k b) (λ row e. request-Closes k _ _)

pay_row-Closes :
    (env : Env) (user : ℕ) (key : Option ℕ) (source : ℕ) (row : PaymentRequest) (b : Bank)
    → Closes b (pay_row env user key source row b).1
unfolding pay_row pay_open expire
pay_row-Closes env user key source row b = elim (Bool-cases (ltb row.expires_at env.now)) [
  | inl late ↦ rw late (>>-Closes _ _ b (request-Closes row.id _ b) (Closes-refl _))
  | inr soon ↦ rw soon (
      found-Closes _ _ _ b (λ target e.
        >>=-Closes _ _ b (initiate-Closes env user key _ b)
          (λ r e'. >>-Closes _ _ _ (request-Closes row.id _ _) (Closes-refl _))))
]

pub pay-Closes :
    (env : Env) (user k : ℕ) (key : Option ℕ) (source : ℕ) (b : Bank)
    → Closes b (pay env user k key source b).1
unfolding pay
pay-Closes env user k key source b =
    >>=-Closes _ _ b (load_open-Closes user k b) (λ row e. pay_row-Closes env user key source row _)
