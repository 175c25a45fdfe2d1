-- ===== src/Signup.antt =====
-- SignupService (auth/signup/signup.service.ts): the steps of the funnel up to a new customer.
pub mod Rows
pub mod Completion
pub mod Codes
pub mod OneTime
pub mod Funnel
pub mod Given
pub mod Customers
use meal.Prelude.{
  ℕ, ◌+◌, ◌*◌, Bool, true, false, not, ◌&&◌, ◌||◌, Option, none, some, List, [], ◌∷◌, length, ltb,
  leb, ◌==◌, if◌then◌else◌,
}
use meal.Prelude.Table.{find, modify, find_first, update_where, delete_where}
use meal.Signup.Rows.{
  SignupStage, started, contact_collected, channel_chosen, verified, dob_collected, card_chosen,
  address_collected, password_set, details_collected, ssn_collected, docs_submitted, completed,
  abandoned, VerificationChannel, Address, Details, SignupSession, Verification, DocumentType,
  id_front, id_back, Document, Customer, SignupStore, SignupError, signup_not_found, signup_expired,
  signup_already_completed, stage_too_early, email_registered, phone_registered, details_in_use,
  passport_malformed, passport_in_use, documents_missing, cannot_complete, missing_fields, id_taken,
  Outcome, done, failed, is_some, is_filled, is_value,
}

-- One more than the index in STAGE_ORDER, where `abandoned` is not.
abbrev pub rank : SignupStage → ℕ
rank abandoned = 0
rank started = 1
rank contact_collected = 2
rank channel_chosen = 3
rank verified = 4
rank dob_collected = 5
rank card_chosen = 6
rank address_collected = 7
rank password_set = 8
rank details_collected = 9
rank ssn_collected = 10
rank docs_submitted = 11
rank completed = 12

abbrev pub stage_at_least : SignupStage → SignupStage → Bool
stage_at_least actual required = not (ltb (rank actual) (rank required))

abbrev pub is_completed : SignupStage → Bool
is_completed stage = rank stage == 12

abbrev pub signup_key : SignupSession → ℕ
signup_key x = x.id

abbrev pub signup_of : ℕ → SignupStore → Option SignupSession
signup_of k s = find signup_key k s.sessions

abbrev pub change_signup : ℕ → (SignupSession → SignupSession) → SignupStore → SignupStore
change_signup k f s = record s { sessions = modify signup_key k f s.sessions }

-- The configuration, the clock, the fresh ids, and the packages for hashes and encryption.
pub record SignupEnv : Type 0 where
  pub ttl_days : ℕ
  pub now : ℕ
  pub id : ℕ
  pub argon_hash : ℕ → ℕ
  pub hmac : List ℕ → ℕ
  pub encrypt : List ℕ → ℕ

unfoldable pub load : ℕ → ℕ → SignupStore → Outcome SignupSession
load now k s = elim (signup_of k s) [
  | none ↦ failed signup_not_found
  | some x ↦
      if ltb x.expires_at now
      then failed signup_expired
      else if is_completed x.stage
      then failed signup_already_completed
      else done x
]

pub record Contact : Type 0 where
  pub first_name : ℕ
  pub last_name : ℕ
  pub email : ℕ
  pub phone : ℕ
  pub referral_code : Option ℕ

abbrev pub has_email : ℕ → Customer → Bool
has_email email u = u.email == email

abbrev pub has_phone : ℕ → Customer → Bool
has_phone phone u = is_value u.phone phone

-- Whether a customer has this phone number; an empty one is not looked up.
abbrev pub phone_taken : Option ℕ → List Customer → Bool
phone_taken none us = false
phone_taken (some phone) us = not (phone == 0) && is_some (find_first (has_phone phone) us)

abbrev pub signup_has_email : ℕ → SignupSession → Bool
signup_has_email email x = is_value x.email email

-- `input ?? existing`
abbrev pub or_else : {A : Type 0} → Option A → Option A → Option A
or_else none b = b
or_else (some a) b = some a

abbrev pub merge_details : Details → Details → Details
merge_details d e = record {
  income = or_else d.income e.income;
  occupation = or_else d.occupation e.occupation;
  annual_income = or_else d.annual_income e.annual_income;
  pay_method = or_else d.pay_method e.pay_method;
  found_us = or_else d.found_us e.found_us;
  marketing_consent = or_else d.marketing_consent e.marketing_consent;
}

-- The columns of a new row; consent is false by default.
abbrev pub no_details : Details
no_details = record {
  income = none;
  occupation = none;
  annual_income = none;
  pay_method = none;
  found_us = none;
  marketing_consent = some false;
}

abbrev pub new_signup : SignupEnv → Contact → SignupSession
new_signup env input = record {
  id = env.id;
  stage = contact_collected;
  email = some input.email;
  first_name = some input.first_name;
  last_name = some input.last_name;
  phone = some input.phone;
  dob = none;
  verified_channel = none;
  verified_at = none;
  card_choice = none;
  address = none;
  password_hash = none;
  details = no_details;
  ssn_encrypted = none;
  ssn_hash = none;
  referral_code = input.referral_code;
  expires_at = env.now + env.ttl_days * 86400000;
  resolved_user_id = none;
}

abbrev pub restarted : Contact → SignupSession → SignupSession
restarted input x = record x {
  stage = contact_collected;
  first_name = some input.first_name;
  last_name = some input.last_name;
  phone = some input.phone;
  referral_code = or_else input.referral_code x.referral_code;
}

abbrev pub create_signup : SignupEnv → Contact → SignupStore → Outcome SignupSession × SignupStore
create_signup env input s =
    if is_some (signup_of env.id s)
    then (failed id_taken, s)
    else (done (new_signup env input), record s { sessions = new_signup env input ∷ s.sessions })

-- The stale row with the address goes, and its codes and documents with it.
abbrev pub drop_stale : SignupSession → SignupStore → SignupStore
drop_stale x s = record s {
  verifications = delete_where (λ (v : Verification). v.signup_session_id == x.id) s.verifications;
  documents = delete_where (λ (d : Document). is_value d.owner_signup_id x.id) s.documents;
  sessions = delete_where (λ (y : SignupSession). y.id == x.id) s.sessions;
}

abbrev pub is_stale : ℕ → SignupSession → Bool
is_stale now x = is_completed x.stage || leb x.expires_at now

abbrev pub begin_found :
    SignupEnv → Contact → Option SignupSession → SignupStore → Outcome SignupSession × SignupStore
begin_found env input none s = create_signup env input s
begin_found env input (some x) s =
    if is_stale env.now x
    then create_signup env input (drop_stale x s)
    else (done (restarted input x), change_signup x.id (restarted input) s)

unfoldable pub begin : SignupEnv → Contact → SignupStore → Outcome SignupSession × SignupStore
begin env input s =
    if is_some (find_first (has_email input.email) s.users)
    then (failed email_registered, s)
    else if phone_taken (some input.phone) s.users
    then (failed phone_registered, s)
    else begin_found env input (find_first (signup_has_email input.email) s.sessions) s

abbrev pub at_channel_chosen : SignupSession → SignupSession
at_channel_chosen x = record x { stage = channel_chosen }

unfoldable pub mark_channel_chosen : SignupSession → SignupStore → Outcome (Unit {0}) × SignupStore
mark_channel_chosen x s =
    if not (stage_at_least x.stage contact_collected)
    then (failed stage_too_early, s)
    else if ltb (rank x.stage) (rank channel_chosen)
    then (done tt, change_signup x.id at_channel_chosen s)
    else (done tt, s)

-- A step of the funnel: it needs a stage, and writes its fields and its own stage.
unfoldable pub advance :
    SignupStage
    → (SignupSession → SignupSession)
    → SignupSession
    → SignupStore
    → Outcome (Unit {0}) × SignupStore
advance required f x s =
    if stage_at_least x.stage required
    then (done tt, change_signup x.id f s)
    else (failed stage_too_early, s)

abbrev pub with_verified : ℕ → VerificationChannel → SignupSession → SignupSession
with_verified now channel x = record x {
  stage = verified;
  verified_channel = some channel;
  verified_at = some now;
}

abbrev pub mark_verified :
    ℕ → VerificationChannel → SignupSession → SignupStore → Outcome Unit × SignupStore
mark_verified now channel = advance contact_collected (with_verified now channel)

abbrev pub with_dob : ℕ → SignupSession → SignupSession
with_dob dob x = record x { stage = dob_collected; dob = some dob }

abbrev pub set_dob : ℕ → SignupSession → SignupStore → Outcome Unit × SignupStore
set_dob dob = advance verified (with_dob dob)

abbrev pub with_card : ℕ → SignupSession → SignupSession
with_card choice x = record x { stage = card_chosen; card_choice = some choice }

abbrev pub set_card : ℕ → SignupSession → SignupStore → Outcome Unit × SignupStore
set_card choice = advance dob_collected (with_card choice)

-- `'checking'`
abbrev pub default_card : ℕ
default_card = 1

-- The card choice is the one that the session had when it was loaded.
abbrev pub with_address : Address → Option ℕ → SignupSession → SignupSession
with_address a choice x = record x {
  stage = address_collected;
  address = some a;
  card_choice = or_else choice (some default_card);
}

abbrev pub set_address : Address → SignupSession → SignupStore → Outcome Unit × SignupStore
set_address a x = advance dob_collected (with_address a x.card_choice) x

abbrev pub with_password : ℕ → SignupSession → SignupSession
with_password h x = record x { stage = password_set; password_hash = some h }

abbrev pub set_password : SignupEnv → ℕ → SignupSession → SignupStore → Outcome Unit × SignupStore
set_password env password = advance address_collected (with_password (env.argon_hash password))

abbrev pub with_details : Details → SignupSession → SignupSession
with_details d x = record x { stage = details_collected; details = merge_details d x.details }

-- A field that is not given is not written.
abbrev pub set_details : Details → SignupSession → SignupStore → Outcome Unit × SignupStore
set_details d = advance password_set (with_details d)
