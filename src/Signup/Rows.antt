-- ===== src/Signup/Rows.antt =====
-- The rows of the sign-up funnel (prisma/schema.prisma), and the store that its services share.
-- A text is a number, and the empty text is 0; a hash is a number.
use meal.Prelude.{ℕ, Bool, true, false, not, Option, none, some, List, ◌==◌}

pub data SignupStage : Type 0 where
  started contact_collected channel_chosen verified dob_collected card_chosen : SignupStage
  address_collected password_set details_collected ssn_collected docs_submitted : SignupStage
  completed abandoned : SignupStage

pub data VerificationChannel : Type 0 where
  email sms : VerificationChannel

pub record Address : Type 0 where
  pub street : ℕ
  pub apt : Option ℕ
  pub city : ℕ
  pub state : ℕ
  pub zip : ℕ

-- The optional answers of the funnel.
pub record Details : Type 0 where
  pub income : Option ℕ
  pub occupation : Option ℕ
  pub annual_income : Option ℕ
  pub pay_method : Option ℕ
  pub found_us : Option ℕ
  pub marketing_consent : Option Bool

pub record SignupSession : Type 0 where
  pub id : ℕ
  pub stage : SignupStage
  pub email : Option ℕ
  pub first_name : Option ℕ
  pub last_name : Option ℕ
  pub phone : Option ℕ
  pub dob : Option ℕ
  pub verified_channel : Option VerificationChannel
  pub verified_at : Option ℕ
  pub card_choice : Option ℕ
  pub address : Option Address
  pub password_hash : Option ℕ
  pub details : Details
  pub ssn_encrypted : Option ℕ
  pub ssn_hash : Option ℕ
  pub referral_code : Option ℕ
  pub expires_at : ℕ
  pub resolved_user_id : Option ℕ

pub record Verification : Type 0 where
  pub id : ℕ
  pub signup_session_id : ℕ
  pub channel : VerificationChannel
  pub destination : ℕ
  pub code_hash : ℕ
  pub expires_at : ℕ
  pub attempts : ℕ
  pub consumed_at : Option ℕ
  pub superseded_at : Option ℕ
  pub created_at : ℕ

pub data DocumentType : Type 0 where
  id_front id_back selfie utility_bill : DocumentType

pub record Document : Type 0 where
  pub id : ℕ
  pub document_type : DocumentType
  pub size_bytes : ℕ
  pub owner_signup_id : Option ℕ
  pub owner_user_id : Option ℕ

pub record Customer : Type 0 where
  pub id : ℕ
  pub email : ℕ
  pub phone : Option ℕ
  pub password_hash : ℕ
  pub first_name : Option ℕ
  pub last_name : Option ℕ
  pub dob : Option ℕ

-- What is handed to the mail or the text-message provider.
pub data Delivery : Type 0 where
  mails texts : (destination code : ℕ) → Delivery

-- The tables, what was sent, and the completed sign-ups that were announced, the latest first.
pub record SignupStore : Type 0 where
  pub users : List Customer
  pub kyc_records : List ℕ
  pub sessions : List SignupSession
  pub verifications : List Verification
  pub documents : List Document
  pub sent : List Delivery
  pub announced : List ℕ

pub data SignupError : Type 0 where
  signup_not_found signup_expired signup_already_completed stage_too_early : SignupError
  email_registered phone_registered details_in_use : SignupError
  passport_malformed passport_in_use documents_missing : SignupError
  cannot_complete missing_fields : SignupError
  no_destination verification_not_found already_consumed was_superseded : SignupError
  code_expired too_many_attempts invalid_code delivery_failed : SignupError
  unsupported_type file_too_big storage_failed id_taken : SignupError

pub data Outcome (A : Type 0) : Type 0 where
  done : A → Outcome A
  failed : SignupError → Outcome A

abbrev pub is_some {ℓ} : {A : Type ℓ} → Option A → Bool
is_some none = false
is_some (some a) = true

-- Not null and not empty, as a condition in JavaScript tests it.
abbrev pub is_filled : Option ℕ → Bool
is_filled none = false
is_filled (some text) = not (text == 0)

abbrev pub is_value : Option ℕ → ℕ → Bool
is_value none n = false
is_value (some m) n = m == n
