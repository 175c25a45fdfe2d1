-- ===== src/CheckDeposits/Rows.antt =====
-- The rows of mobile check deposits (prisma/schema.prisma, check-deposits/check-deposits.service.ts).
use meal.Prelude.{ℕ, Option}
use meal.Prelude.Int.{ℤ}

pub data CheckDepositStatus : Type 0 where
  pending approved rejected : CheckDepositStatus

pub data ContentType : Type 0 where
  image_jpeg image_png image_webp other_type : ContentType

pub data Extension : Type 0 where
  jpg png webp : Extension

pub data Side : Type 0 where
  front back : Side

-- `user/<user>/check-deposits/<deposit>-<side>.<extension>`
pub record ImageKey : Type 0 where
  pub user_id : ℕ
  pub deposit_id : ℕ
  pub side : Side
  pub extension : Extension

pub record CheckDeposit : Type 0 where
  pub id : ℕ
  pub user_id : ℕ
  pub account_id : ℕ
  pub amount_cents : ℤ
  pub status : CheckDepositStatus
  pub front_key : ImageKey
  pub back_key : ImageKey
  pub submitted_at : ℕ
  pub decided_at : Option ℕ
  pub decided_by_user_id : Option ℕ
  pub transaction_id : Option ℕ

-- An uploaded image: its type, and the length of its bytes.
pub record Image : Type 0 where
  pub content_type : ContentType
  pub size : ℕ

pub record SubmitCheckInput : Type 0 where
  pub user_id : ℕ
  pub amount_cents : ℤ
  pub front : Image
  pub back : Image
