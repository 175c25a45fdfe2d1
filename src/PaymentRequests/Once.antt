-- ===== src/PaymentRequests/Once.antt =====
-- A payment request is paid at most once, by the transfer that it names.
use meal.Prelude.{
  ℕ, ◌≡◌, inl, inr, refl, true, false, arith, Option, none, some, ltb, Bool-cases, Option-cases,
}
use meal.Prelude.Table.{find-key, find-modify}
use meal.Bank.{Bank, Account}
use meal.Bank.Action.{ok, err, >>=-ok, >>-ok, or_throw-ok, ◌>>=◌, ◌>>◌, request_not_pending}
use meal.Transfers.Requests.{Env, InitiateTransfer, InitiateResult}
use meal.Transfers.Initiate.{initiate}
use meal.Transfers.Initiate.Replay.{Answered, initiate-ok, initiate-Answered}
use meal.PaymentRequests.Rows.{PaymentRequest}
use meal.PaymentRequests.{
  request_key, request_of, is_open, is_payer, change_request, update_request, checking_of,
  load_open, request_transfer, paid_request, expire, pay_open, pay_row, pay,
}

update_request-ok :
    (k : ℕ) (f : PaymentRequest → PaymentRequest) (b : Bank) {u : Unit} {b' : Bank}
    → update_request k f b ≡ (ok u, b')
    → b' ≡ change_request k f b
unfolding update_request ◌>>=◌ ◌>>◌
update_request-ok k f b h = elim (Option-cases (request_of k b)) [
  | inl e ↦ ground (arith, e)
  | inr (x, e) ↦ ground (arith, e)
]

-- The request that is paid, and the requester's account that the money goes to.
pub record Paid (env : Env) (user k : ℕ) (key : Option ℕ) (source : ℕ) (b : Bank)
    (r : InitiateResult) (b' : Bank) : Type 0 where
  pub row : PaymentRequest
  pub target : Account
  pub between : Bank
  pub stored : request_of k b ≡ some row
  pub to_pay : is_payer user row.payer_user_id ≡ true
  pub was_open : is_open row.status ≡ true
  pub in_time : ltb row.expires_at env.now ≡ false
  pub account : checking_of row.requester_user_id b.accounts ≡ some target
  pub moved :
      initiate env user key (request_transfer source target.id row.amount_cents) b ≡ (ok r, between)
  pub answered :
      Answered env user key (request_transfer source target.id row.amount_cents) b r between
  pub marked : b' ≡ change_request k (paid_request env r) between

load_open-ok :
    (user k : ℕ) (b : Bank) {row : PaymentRequest} {b' : Bank}
    → load_open user k b ≡ (ok row, b')
    → (b' ≡ b)
      × (request_of k b ≡ some row)
      × (is_payer user row.payer_user_id ≡ true)
      × (is_open row.status ≡ true)
unfolding load_open
load_open-ok user k b h =
    let (o, b₁, e₁, h₁) = >>=-ok _ _ b h in
    let (x, b₂, e₂, h₂) = >>=-ok _ _ b₁ h₁ in
    let (_, b₃, e₃, h₃) = >>-ok _ _ b₂ h₂ in
    let (_, b₄, e₄, h₄) = >>-ok _ _ b₃ h₃ in
    let found = (or_throw-ok _ _ b₁ e₂).0 in
    (
      ground (arith, e₁, e₂, e₃, e₄, h₄),
      ground (arith, e₁, found, h₄),
      ground (arith, e₃, h₄),
      ground (arith, e₄, h₄),
    )

pay_row-in_time :
    (env : Env) (user : ℕ) (key : Option ℕ) (source : ℕ) (row : PaymentRequest) (b : Bank)
    {r : InitiateResult} {b' : Bank}
    → pay_row env user key source row b ≡ (ok r, b')
    → (ltb row.expires_at env.now ≡ false) × (pay_open env user key source row b ≡ (ok r, b'))
unfolding pay_row expire
pay_row-in_time env user key source row b h = elim (Bool-cases (ltb row.expires_at env.now)) [
  | inl late ↦ let (_, b₁, e, h₁) = >>-ok _ _ b (rw late at h) in ground arith
  | inr soon ↦ (soon, rw soon at h)
]

run_at :
    (env : Env) (user : ℕ) (key : Option ℕ) (dto : InitiateTransfer) (b b₁ : Bank)
    (x : InitiateResult) {r : InitiateResult} {b' : Bank}
    → b₁ ≡ b
    → x ≡ r
    → initiate env user key dto b₁ ≡ (ok x, b')
    → initiate env user key dto b ≡ (ok r, b')
run_at env user key dto b b₁ x same answer h = rw (same, answer) at h

-- A request that is paid was open and not expired, and asked this user. It is marked as paid by the
-- transfer that initiate answered with: a new p2p transfer of its amount to the requester's active
-- checking account, or, where the key was used before, the payer's transfer of that key, whatever it
-- was for, in which case nothing but the mark is changed.
pub pay-ok :
    (env : Env) (user k : ℕ) (key : Option ℕ) (source : ℕ) (b : Bank) {r : InitiateResult}
    {b' : Bank}
    → pay env user k key source b ≡ (ok r, b')
    → Paid env user k key source b r b'
unfolding pay pay_open
pay-ok env user k key source b {r = r} {b' = b'} h =
    let (row, b₁, e₁, h₁) = >>=-ok _ _ b h in
    let (same, stored, mine, opened) = load_open-ok user k b e₁ in
    let (soon, h₂) = pay_row-in_time env user key source row b₁ h₁ in
    let (o, b₂, e₂, h₃) = >>=-ok _ _ b₁ h₂ in
    let (target, b₃, e₃, h₄) = >>=-ok _ _ b₂ h₃ in
    let (x, b₄, e₄, h₅) = >>=-ok _ _ b₃ h₄ in
    let (_, b₅, e₅, h₆) = >>-ok _ _ b₄ h₅ in
    let id : row.id ≡ k = find-key request_key k b.requests row stored in
    let from_b : b₃ ≡ b = ground (arith, same, e₂, e₃) in
    let answer : x ≡ r = ground (arith, h₆) in
    let row_marked = update_request-ok row.id (paid_request env x) b₄ e₅ in
    let paid =
      run_at env user key (request_transfer source target.id row.amount_cents) b b₃ x from_b answer
        e₄ in
    record {
      row = row;
      target = target;
      between = b₄;
      stored = stored;
      to_pay = mine;
      was_open = opened;
      in_time = soon;
      account = ground (arith, (or_throw-ok _ _ b₂ e₃).0, same, e₂);
      moved = paid;
      answered =
          initiate-Answered env user key (request_transfer source target.id row.amount_cents) b
            paid;
      marked = ground (arith, row_marked, id, answer, h₆);
    }

same_requests :
    (env : Env) (user : ℕ) (key : Option ℕ) (dto : InitiateTransfer) (b : Bank) {r : InitiateResult}
    {b' : Bank}
    → initiate env user key dto b ≡ (ok r, b')
    → b'.requests ≡ b.requests
unfolding initiate
same_requests env user none dto b h = ground arith
same_requests env user (some key) dto b h = elim (initiate-ok env user key dto b h).0 [
  | inl p ↦ ground (arith, p.same)
  | inr s ↦ ground (arith, s.only, s.committed.same_requests)
]

closed_refused :
    (env : Env) (user k : ℕ) (key : Option ℕ) (source : ℕ) (b : Bank) (row : PaymentRequest)
    → request_of k b ≡ some row
    → is_payer user row.payer_user_id ≡ true
    → is_open row.status ≡ false
    → pay env user k key source b ≡ (err request_not_pending, b)
unfolding pay load_open ◌>>=◌ ◌>>◌
closed_refused env user k key source b row e mine shut = ground (arith, e, mine, shut)

-- A request that was paid is refused when its payer pays it again, with whatever key and from
-- whatever account, and nothing changes.
pub pay_once :
    (env env₂ : Env) (user k : ℕ) (key key₂ : Option ℕ) (source source₂ : ℕ) (b : Bank)
    {r : InitiateResult} {b' : Bank}
    → pay env user k key source b ≡ (ok r, b')
    → pay env₂ user k key₂ source₂ b' ≡ (err request_not_pending, b')
pay_once env env₂ user k key key₂ source source₂ b {r = r} {b' = b'} h =
    let p = pay-ok env user k key source b h in
    let same = same_requests env user key _ b p.moved in
    let at = find-modify request_key k k (paid_request env r) b.requests (λ x. refl) in
    closed_refused env₂ user k key₂ source₂ b' (paid_request env r p.row)
      (ground (arith, p.marked, same, at, p.stored)) p.to_pay refl
