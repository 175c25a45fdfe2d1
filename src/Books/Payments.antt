-- ===== src/Books/Payments.antt =====
-- The payment of a request keeps the books, however it ends.
use meal.Prelude.{ℕ, refl, ltb, Option, Bool-cases, inl, inr, Option-cases}
use meal.Bank.{Bank}
use meal.Bank.Action.{◌>>=◌, ◌>>◌}
use meal.Transfers.Requests.{Env}
use meal.PaymentRequests.Rows.{PaymentRequest, declined}
use meal.PaymentRequests.{
  request_of, change_request, update_request, with_request_status, load_open, decline, expire,
  pay_open, pay_row, pay,
}
use meal.Books.Rules.{Keeps-same}
use meal.Books.Combine.{KeptBy, Keeps-refl, >>=-KeptBy, >>-KeptBy, found-KeptBy, guard-KeptBy}
use meal.Books.Initiations.{IsSane, initiate-KeptBy}

update_request-KeptBy :
    (k : ℕ) (f : PaymentRequest → PaymentRequest) (b : Bank) → KeptBy (update_request k f) b
unfolding update_request ◌>>=◌ ◌>>◌
update_request-KeptBy k f b = elim (Option-cases (request_of k b)) [
  | inl e ↦ rw e (Keeps-refl b)
  | inr (x, e) ↦ rw e (Keeps-same b (change_request k f b) refl refl refl refl)
]

load_open-KeptBy : (user k : ℕ) (b : Bank) → KeptBy (load_open user k) b
unfolding load_open
load_open-KeptBy user k b =
    found-KeptBy _ _ _ b (λ r e. guard-KeptBy _ _ _ b (guard-KeptBy _ _ _ b (Keeps-refl b)))

pub decline-KeptBy : (user k : ℕ) (b : Bank) → KeptBy (decline user k) b
unfolding decline
decline-KeptBy user k b =
    >>=-KeptBy _ _ b (load_open-KeptBy user k b)
      (λ row e. update_request-KeptBy k (with_request_status declined) _)

expire-KeptBy : (k : ℕ) (b : Bank) → KeptBy (expire k) b
unfolding expire
expire-KeptBy k b = >>-KeptBy _ _ b (update_request-KeptBy k _ b) (Keeps-refl _)

pay_open-KeptBy :
    (env : Env) (user : ℕ) (key : Option ℕ) (source : ℕ) (row : PaymentRequest) (b : Bank)
    → IsSane env.config
    → KeptBy (pay_open env user key source row) b
unfolding pay_open
pay_open-KeptBy env user key source row b sane = found-KeptBy _ _ _ b (λ target e.
    >>=-KeptBy _ _ b (initiate-KeptBy env user key _ b sane)
      (λ r e'. >>-KeptBy _ _ _ (update_request-KeptBy row.id _ _) (Keeps-refl _)))

pay_row-KeptBy :
    (env : Env) (user : ℕ) (key : Option ℕ) (source : ℕ) (row : PaymentRequest) (b : Bank)
    → IsSane env.config
    → KeptBy (pay_row env user key source row) b
unfolding pay_row
pay_row-KeptBy env user key source row b sane = elim (Bool-cases (ltb row.expires_at env.now)) [
  | inl late ↦ rw late (expire-KeptBy row.id b)
  | inr soon ↦ rw soon (pay_open-KeptBy env user key source row b sane)
]

pub pay-KeptBy :
    (env : Env) (user k : ℕ) (key : Option ℕ) (source : ℕ) (b : Bank)
    → IsSane env.config
    → KeptBy (pay env user k key source) b
unfolding pay
pay-KeptBy env user k key source b sane =
    >>=-KeptBy _ _ b (load_open-KeptBy user k b)
      (λ row e. pay_row-KeptBy env user key source row _ sane)
