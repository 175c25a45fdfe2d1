-- ===== src/PaymentRequests.antt =====
-- PaymentRequestsService.pay and decline (payment-requests/payment-requests.service.ts).
pub mod Rows
pub mod Once
use meal.Prelude.{
  ℕ, Bool, true, false, not, ◌&&◌, Option, none, some, List, [], ◌∷◌, ltb, ◌==◌, if◌then◌else◌,
}
use meal.Prelude.Int.{ℤ}
use meal.Prelude.Table.{find, modify}
use meal.Bank.{Bank, Account, AccountType, checking, savings, p2p}
use meal.Bank.Action.{
  Action, ok, err, pure, throw, gets, or_throw, throw_if, modify_bank, ◌>>=◌, ◌>>◌,
  request_not_found, request_not_pending, request_expired, requester_without_checking,
  record_not_found,
}
use meal.Transfers.Requests.{Env, InitiateTransfer, InitiateResult}
use meal.Transfers.Initiate.{initiate, is_active}
use meal.PaymentRequests.Rows.{
  PaymentRequest, PaymentRequestStatus, pending, paid, declined, expired,
}

abbrev pub request_key : PaymentRequest → ℕ
request_key r = r.id

abbrev pub request_of : ℕ → Bank → Option PaymentRequest
request_of k b = find request_key k b.requests

abbrev pub is_open : PaymentRequestStatus → Bool
is_open pending = true
is_open _ = false

abbrev pub change_request : ℕ → (PaymentRequest → PaymentRequest) → Bank → Bank
change_request k f b = record b { requests = modify request_key k f b.requests }

-- `paymentRequest.update`, which throws on a missing row.
unfoldable pub update_request : ℕ → (PaymentRequest → PaymentRequest) → Action Unit
update_request k f = do
  or_throw (← gets (request_of k)) record_not_found
  modify_bank (change_request k f)

abbrev pub is_checking : AccountType → Bool
is_checking checking = true
is_checking savings = false

-- `account.findFirst({ where: { userId, type: 'checking', status: 'active' } })`
abbrev pub checking_of : ℕ → List Account → Option Account
checking_of user [] = none
checking_of user (a ∷ as') =
    if a.user_id == user && (is_checking a.account_type && is_active a.status)
    then some a
    else checking_of user as'

-- `row.payerUserId === userId`
abbrev pub is_payer : ℕ → Option ℕ → Bool
is_payer user none = false
is_payer user (some payer) = payer == user

-- The request that the user is asked to pay, if it is still open.
unfoldable pub load_open : ℕ → ℕ → Action PaymentRequest
load_open user k = do
  row ← or_throw (← gets (request_of k)) request_not_found
  throw_if (not (is_payer user row.payer_user_id)) request_not_found
  throw_if (not (is_open row.status)) request_not_pending
  pure row

abbrev pub with_request_status : PaymentRequestStatus → PaymentRequest → PaymentRequest
with_request_status s r = record r { status = s }

unfoldable pub decline : ℕ → ℕ → Action Unit
decline user k = do row ← load_open user k; update_request k (with_request_status declined)

abbrev pub request_transfer : ℕ → ℕ → ℤ → InitiateTransfer
request_transfer source target amount = record {
  from_account_id = source;
  to_account_id = some target;
  kind = p2p;
  amount_cents = amount;
  instant = false;
  wire_details = none;
  send_currency = none;
  send_amount_minor = none;
}

abbrev pub paid_request : Env → InitiateResult → PaymentRequest → PaymentRequest
paid_request env r row = record row {
  status = paid;
  paid_at = some env.now;
  paid_transfer_id = some r.transfer_id;
}

unfoldable pub expire : ℕ → Action InitiateResult
expire k = do update_request k (with_request_status expired); throw request_expired

unfoldable pub pay_open : Env → ℕ → Option ℕ → ℕ → PaymentRequest → Action InitiateResult
pay_open env user key source row = do
  target ←
      or_throw (← gets (λ b. checking_of row.requester_user_id b.accounts))
        requester_without_checking
  r ← initiate env user key (request_transfer source target.id row.amount_cents)
  update_request row.id (paid_request env r)
  pure r

unfoldable pub pay_row : Env → ℕ → Option ℕ → ℕ → PaymentRequest → Action InitiateResult
pay_row env user key source row =
    if ltb row.expires_at env.now then expire row.id else pay_open env user key source row

-- `pay`; the answer is the transfer's.
unfoldable pub pay : Env → ℕ → ℕ → Option ℕ → ℕ → Action InitiateResult
pay env user k key source = do row ← load_open user k; pay_row env user key source row
