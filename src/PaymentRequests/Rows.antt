-- ===== src/PaymentRequests/Rows.antt =====
-- The rows of payment requests (prisma/schema.prisma).
use meal.Prelude.{ℕ, Option}
use meal.Prelude.Int.{ℤ}

pub data PaymentRequestStatus : Type 0 where
  pending paid declined expired : PaymentRequestStatus

pub record PaymentRequest : Type 0 where
  pub id : ℕ
  pub requester_user_id : ℕ
  pub payer_user_id : Option ℕ
  pub amount_cents : ℤ
  pub status : PaymentRequestStatus
  pub expires_at : ℕ
  pub paid_at : Option ℕ
  pub paid_transfer_id : Option ℕ
