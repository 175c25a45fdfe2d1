-- ===== src/Bank.antt =====
-- The rows that the services read and write (prisma/schema.prisma), and the state they share.
-- A uuid is a number: ids are only compared. A date is a number of milliseconds.
pub mod Action
pub mod Balance
pub mod Flow
pub mod Related
use meal.Prelude.{ℕ, Bool, false, true, Option, List, ◌==◌}
use meal.Prelude.Int.{ℤ}
use meal.PaymentRequests.Rows.{PaymentRequest}
use meal.CheckDeposits.Rows.{CheckDeposit}

pub data AccountType : Type 0 where
  checking savings : AccountType

pub data AccountStatus : Type 0 where
  active frozen closed : AccountStatus

pub record Account : Type 0 where
  pub id : ℕ
  pub user_id : ℕ
  pub account_type : AccountType
  pub status : AccountStatus
  pub balance_cents : ℤ

pub data TransactionStatus : Type 0 where
  pending posted declined reversed : TransactionStatus

pub data TransactionKind : Type 0 where
  card_purchase ach_in ach_out p2p_in p2p_out fee interest deposit refund adjustment :
      TransactionKind

-- A line of the customer's feed; `transfer_id` is the reference in its metadata.
pub record Transaction : Type 0 where
  pub id : ℕ
  pub account_id : ℕ
  pub kind : TransactionKind
  pub status : TransactionStatus
  pub amount_cents : ℤ
  pub occurred_at : ℕ
  pub posted_at : Option ℕ
  pub transfer_id : Option ℕ

pub data TransferKind : Type 0 where
  internal ach_in ach_out wire_in wire_out p2p : TransferKind

pub data ReviewDecision : Type 0 where
  approved rejected : ReviewDecision

pub record Transfer : Type 0 where
  pub id : ℕ
  pub kind : TransferKind
  pub status : TransactionStatus
  pub from_account_id : ℕ
  pub to_account_id : Option ℕ
  pub amount_cents : ℤ
  pub fee_cents : ℤ
  pub instant : Bool
  pub initiated_by_user_id : ℕ
  pub settled_at : Option ℕ
  pub idempotency_key : ℕ
  pub pending_transaction_id : Option ℕ
  pub settled_transaction_id : Option ℕ
  pub requires_review : Bool
  pub review_decision : Option ReviewDecision
  pub reviewed_at : Option ℕ
  pub reviewed_by_user_id : Option ℕ

-- The codes of chart-of-accounts.ts: the five system accounts, and the two families of codes that
-- are made from an id.
pub data LedgerCode : Type 0 where
  cash pending_out pending_in fee_revenue interest_expense : LedgerCode
  cust_liability sub_ledger : ℕ → LedgerCode

abbrev pub code_eq : LedgerCode → LedgerCode → Bool
code_eq cash cash = true
code_eq pending_out pending_out = true
code_eq pending_in pending_in = true
code_eq fee_revenue fee_revenue = true
code_eq interest_expense interest_expense = true
code_eq (cust_liability a) (cust_liability b) = a == b
code_eq (sub_ledger a) (sub_ledger b) = a == b
code_eq _ _ = false

pub data LedgerAccountType : Type 0 where
  asset liability equity revenue expense : LedgerAccountType

pub data PostingDirection : Type 0 where
  debit credit : PostingDirection

pub record LedgerAccount : Type 0 where
  pub code : LedgerCode
  pub ledger_type : LedgerAccountType
  pub normal_balance : PostingDirection
  pub owner_user_id : Option ℕ

pub record Posting : Type 0 where
  pub code : LedgerCode
  pub direction : PostingDirection
  pub amount_cents : ℤ

-- `source` of a journal entry: `transfer:<id>:pending` and so on.
pub data Source : Type 0 where
  pending_of settle_of reject_of admin_reverse_of : ℕ → Source

-- A journal entry with its posting rows.
pub record JournalEntry : Type 0 where
  pub source : Source
  pub reference_id : ℕ
  pub occurred_at : ℕ
  pub postings : List Posting

pub data WireType : Type 0 where
  local international : WireType

-- An approved wire destination, by its normalised IBAN.
pub record WireBeneficiary : Type 0 where
  pub id : ℕ
  pub wire_type : WireType
  pub iban : ℕ
  pub archived : Bool

pub record User : Type 0 where
  pub id : ℕ
  pub transfers_disabled : Bool

-- What the services hand to the event bus.
pub data Event : Type 0 where
  transaction_created : (user account transaction : ℕ) → ℤ → TransactionStatus → Event
  transaction_updated : (user account transaction : ℕ) → ℤ → TransactionStatus → Event
  transaction_settled : (user account transaction transfer : ℕ) → ℤ → Event
  account_balance_changed : (user account : ℕ) → ℤ → Event
  admin_transfer_settled : (transfer user : ℕ) → Bool → ℤ → TransferKind → Event
  transfer_review_delta : ℤ → Event

-- The database, the settlement jobs handed to the queue or to a timer, and the events emitted,
-- the latest first in each list.
pub record Bank : Type 0 where
  pub users : List User
  pub accounts : List Account
  pub ledger_accounts : List LedgerAccount
  pub journal : List JournalEntry
  pub transactions : List Transaction
  pub transfers : List Transfer
  pub beneficiaries : List WireBeneficiary
  pub requests : List PaymentRequest
  pub deposits : List CheckDeposit
  pub jobs : List ℕ
  pub timers : List ℕ
  pub events : List Event
