-- ===== src/CheckDeposits.antt =====
-- CheckDepositsService (check-deposits/check-deposits.service.ts): a customer sends a photographed
-- check, and an admin approves or rejects it. E-mails are left out.
pub mod Rows
pub mod Submit
pub mod Decide
pub mod Credits
pub mod Lifecycle
pub mod Once
use meal.Prelude.{
  ℕ, Bool, true, false, not, Option, none, some, List, [], ◌∷◌, ltb, ◌==◌, ◌&&◌, if◌then◌else◌,
}
use meal.Prelude.Int.{ℤ, pos, ◌+ℤ◌, leb_ℤ, ltb_ℤ}
use meal.Prelude.Table.{find, modify, find_first}
use meal.Bank.{
  Bank, Account, deposit, posted, Transaction, transaction_created, account_balance_changed,
}
use meal.Bank.Action.{
  Action, ok, err, pure, gets, or_throw, throw_if, modify_bank, transaction, emit, ◌>>=◌, ◌>>◌,
  image_required, image_type_refused, image_too_big, amount_not_positive, amount_over_limit,
  no_checking_account, storage_failed, deposit_not_found, deposit_not_pending,
  deposit_account_missing, record_not_found, unique_violation,
}
use meal.Bank.Balance.{account_of, update_balance}
use meal.Transfers.Rows.{create_transaction, is_some}
use meal.PaymentRequests.{is_checking}
use meal.CheckDeposits.Rows.{
  CheckDepositStatus, pending, approved, rejected, ContentType, image_jpeg, image_png, image_webp,
  other_type, Extension, jpg, png, webp, Side, front, back, ImageKey, CheckDeposit, Image,
  SubmitCheckInput,
}

-- The configuration, the clock, the fresh id, and whether the storage takes the images.
pub record DepositEnv : Type 0 where
  pub max_bytes : ℕ
  pub now : ℕ
  pub id : ℕ
  pub storage_up : Bool

-- ALLOWED_MIME
abbrev pub is_allowed : ContentType → Bool
is_allowed other_type = false
is_allowed _ = true

abbrev pub validate_image : ℕ → Image → Action (Unit {0})
validate_image max_bytes image = do
  throw_if (image.size == 0) image_required
  throw_if (not (is_allowed image.content_type)) image_type_refused
  throw_if (ltb max_bytes image.size) image_too_big

abbrev pub extension_of : ContentType → Extension
extension_of image_png = png
extension_of image_webp = webp
extension_of _ = jpg

abbrev pub image_key : (user deposit : ℕ) → Side → Image → ImageKey
image_key user k side image = record {
  user_id = user;
  deposit_id = k;
  side = side;
  extension = extension_of image.content_type;
}

-- `storeSide`: the storage is outside, and may fail.
abbrev pub store_side : DepositEnv → ℕ → Side → Image → Action ImageKey
store_side env user side image = do
  throw_if (not env.storage_up) storage_failed
  pure (image_key user env.id side image)

-- `{ userId, type: 'checking' }`, in whatever state the account is.
abbrev pub is_checking_of : ℕ → Account → Bool
is_checking_of user a = a.user_id == user && is_checking a.account_type

abbrev pub deposit_key : CheckDeposit → ℕ
deposit_key d = d.id

abbrev pub deposit_of : ℕ → Bank → Option CheckDeposit
deposit_of k b = find deposit_key k b.deposits

unfoldable pub create_deposit : CheckDeposit → Action Unit
create_deposit d b =
    if is_some (deposit_of d.id b)
    then (err unique_violation, b)
    else (ok tt, record b { deposits = d ∷ b.deposits })

abbrev pub new_deposit : DepositEnv → SubmitCheckInput → ℕ → ImageKey → ImageKey → CheckDeposit
new_deposit env input account front_key back_key = record {
  id = env.id;
  user_id = input.user_id;
  account_id = account;
  amount_cents = input.amount_cents;
  status = pending;
  front_key = front_key;
  back_key = back_key;
  submitted_at = env.now;
  decided_at = none;
  decided_by_user_id = none;
  transaction_id = none;
}

-- `submit` after its guards.
unfoldable pub take_in : DepositEnv → SubmitCheckInput → Action ℕ
take_in env input = do
  account ←
      or_throw (← gets (λ b. find_first (is_checking_of input.user_id) b.accounts))
        no_checking_account
  front_key ← store_side env input.user_id front input.front
  back_key ← store_side env input.user_id back input.back
  create_deposit (new_deposit env input account.id front_key back_key)
  pure env.id

unfoldable pub submit_deposit : DepositEnv → SubmitCheckInput → Action ℕ
submit_deposit env input = do
  validate_image env.max_bytes input.front
  validate_image env.max_bytes input.back
  throw_if (leb_ℤ input.amount_cents (pos 0)) amount_not_positive
  throw_if (ltb_ℤ (pos 50000000) input.amount_cents) amount_over_limit
  take_in env input

abbrev pub is_pending : CheckDepositStatus → Bool
is_pending pending = true
is_pending _ = false

abbrev pub change_deposit : ℕ → (CheckDeposit → CheckDeposit) → Bank → Bank
change_deposit k f b = record b { deposits = modify deposit_key k f b.deposits }

-- `checkDeposit.update`, which throws on a missing row.
unfoldable pub update_deposit : ℕ → (CheckDeposit → CheckDeposit) → Action Unit
update_deposit k f = do
  or_throw (← gets (deposit_of k)) record_not_found
  modify_bank (change_deposit k f)

abbrev pub deposit_transaction : DepositEnv → CheckDeposit → ℕ → Transaction
deposit_transaction env row account = record {
  id = env.id;
  account_id = account;
  kind = deposit;
  status = posted;
  amount_cents = row.amount_cents;
  occurred_at = env.now;
  posted_at = some env.now;
  transfer_id = none;
}

abbrev pub approved_deposit : DepositEnv → ℕ → CheckDeposit → CheckDeposit
approved_deposit env admin row = record row {
  status = approved;
  decided_at = some env.now;
  decided_by_user_id = some admin;
  transaction_id = some env.id;
}

abbrev pub rejected_deposit : DepositEnv → ℕ → CheckDeposit → CheckDeposit
rejected_deposit env admin row = record row {
  status = rejected;
  decided_at = some env.now;
  decided_by_user_id = some admin;
}

-- The database transaction of an approval.
unfoldable pub credit_deposit : DepositEnv → (admin deposit : ℕ) → CheckDeposit → ℕ → Action Unit
credit_deposit env admin k row account = do
  create_transaction (deposit_transaction env row account)
  update_balance account (λ x. x +ℤ row.amount_cents)
  update_deposit k (approved_deposit env admin)

-- `load` of both decisions: the row, if it is still pending.
unfoldable pub load_pending : ℕ → Action CheckDeposit
load_pending k = do
  row ← or_throw (← gets (deposit_of k)) deposit_not_found
  throw_if (not (is_pending row.status)) deposit_not_pending
  pure row

abbrev pub announce_deposit : DepositEnv → CheckDeposit → ℕ → Bank → Bank
announce_deposit env row account b = record b {
  events = elim (account_of account b) [
    | none ↦ transaction_created row.user_id account env.id row.amount_cents posted ∷ b.events
    | some fresh ↦
        account_balance_changed row.user_id fresh.id fresh.balance_cents
        ∷ transaction_created row.user_id account env.id row.amount_cents posted
        ∷ b.events
  ];
}

unfoldable pub approve_deposit : DepositEnv → (admin deposit : ℕ) → Action Unit
approve_deposit env admin k = do
  row ← load_pending k
  account ← or_throw (← gets (account_of row.account_id)) deposit_account_missing
  transaction (credit_deposit env admin k row account.id)
  modify_bank (announce_deposit env row account.id)

unfoldable pub reject_deposit : DepositEnv → (admin deposit : ℕ) → Action Unit
reject_deposit env admin k = do load_pending k; update_deposit k (rejected_deposit env admin)
