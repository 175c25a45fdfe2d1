-- ===== src/Signup/Completion.antt =====
-- The end of the funnel (setSsn, markDocsSubmitted and complete of auth/signup/signup.service.ts) and
-- the upload of a document (documents/documents.service.ts).
use meal.Prelude.{
  ℕ, ◌-◌, Bool, true, false, not, ◌&&◌, ◌||◌, Option, none, some, List, [], ◌∷◌, length, leb, ltb,
  ◌==◌, if◌then◌else◌,
}
use meal.Prelude.Table.{find_first, update_where}
use meal.Signup.Rows.{
  details_collected, ssn_collected, docs_submitted, completed, SignupSession, DocumentType,
  id_front, id_back, selfie, utility_bill, Document, Customer, SignupStore, stage_too_early,
  email_registered, phone_registered, passport_malformed, passport_in_use, documents_missing,
  cannot_complete, missing_fields, unsupported_type, file_too_big, storage_failed, details_in_use,
  Outcome, done, failed, is_some, is_filled, is_value,
}
use meal.Signup.{rank, stage_at_least, change_signup, SignupEnv, has_email, has_phone, phone_taken}

abbrev pub is_space : ℕ → Bool
is_space c = c == 32 || (leb 9 c && leb c 13)

abbrev pub to_upper : ℕ → ℕ
to_upper c = if leb 97 c && leb c 122 then c - 32 else c

-- `trim().toUpperCase().replace(/\s+/g, '')`, on a text of ASCII characters.
abbrev pub normalize : List ℕ → List ℕ
normalize [] = []
normalize (c ∷ cs) = if is_space c then normalize cs else to_upper c ∷ normalize cs

abbrev pub is_alphanumeric : ℕ → Bool
is_alphanumeric c = (leb 65 c && leb c 90) || (leb 48 c && leb c 57)

abbrev pub all_alphanumeric : List ℕ → Bool
all_alphanumeric [] = true
all_alphanumeric (c ∷ cs) = is_alphanumeric c && all_alphanumeric cs

-- /^[A-Z0-9]{6,9}$/
abbrev pub is_passport : List ℕ → Bool
is_passport cs = all_alphanumeric cs && (leb 6 (length cs) && leb (length cs) 9)

-- Another session with the passport's hash.
abbrev pub is_duplicate : ℕ → ℕ → SignupSession → Bool
is_duplicate hash k x = is_value x.ssn_hash hash && not (x.id == k)

abbrev pub with_ssn : (encrypted hash : ℕ) → SignupSession → SignupSession
with_ssn encrypted hash x = record x {
  stage = ssn_collected;
  ssn_encrypted = some encrypted;
  ssn_hash = some hash;
}

abbrev pub store_ssn :
    SignupEnv → List ℕ → SignupSession → SignupStore → Outcome (Unit {0}) × SignupStore
store_ssn env passport x s =
    let hash = env.hmac passport in
    if is_some (find_first (is_duplicate hash x.id) s.sessions)
    then (failed passport_in_use, s)
    else (done tt, change_signup x.id (with_ssn (env.encrypt passport) hash) s)

unfoldable pub set_ssn :
    SignupEnv → List ℕ → SignupSession → SignupStore → Outcome (Unit {0}) × SignupStore
set_ssn env plain x s =
    if not (stage_at_least x.stage details_collected)
    then (failed stage_too_early, s)
    else if not (is_passport (normalize plain))
    then (failed passport_malformed, s)
    else store_ssn env (normalize plain) x s

abbrev pub type_eq : DocumentType → DocumentType → Bool
type_eq id_front id_front = true
type_eq id_back id_back = true
type_eq selfie selfie = true
type_eq utility_bill utility_bill = true
type_eq _ _ = false

abbrev pub is_document_of : ℕ → DocumentType → Document → Bool
is_document_of k t d = is_value d.owner_signup_id k && type_eq d.document_type t

abbrev pub has_document : ℕ → DocumentType → SignupStore → Bool
has_document k t s = is_some (find_first (is_document_of k t) s.documents)

abbrev pub with_docs : SignupSession → SignupSession
with_docs x = record x { stage = docs_submitted }

unfoldable pub mark_docs_submitted : SignupSession → SignupStore → Outcome (Unit {0}) × SignupStore
mark_docs_submitted x s =
    if not (stage_at_least x.stage ssn_collected)
    then (failed stage_too_early, s)
    else if not (has_document x.id id_front s && has_document x.id id_back s)
    then (failed documents_missing, s)
    else (done tt, change_signup x.id with_docs s)

-- An upload: whether its type is allowed, its length, and whether the storage takes it.
pub record Upload : Type 0 where
  pub document_type : DocumentType
  pub allowed_type : Bool
  pub size : ℕ
  pub max_bytes : ℕ
  pub storage_up : Bool

abbrev pub new_document : ℕ → Upload → ℕ → Document
new_document id u signup = record {
  id = id;
  document_type = u.document_type;
  size_bytes = u.size;
  owner_signup_id = some signup;
  owner_user_id = none;
}

-- `upload` for a sign-up session, which is its owner.
unfoldable pub upload : ℕ → Upload → SignupSession → SignupStore → Outcome (Unit {0}) × SignupStore
upload id u x s =
    if not u.allowed_type
    then (failed unsupported_type, s)
    else if ltb u.max_bytes u.size
    then (failed file_too_big, s)
    else if not u.storage_up
    then (failed storage_failed, s)
    else (done tt, record s { documents = new_document id u x.id ∷ s.documents })

abbrev pub owned_by_signup : ℕ → Document → Bool
owned_by_signup k d = is_value d.owner_signup_id k

abbrev pub given_to : ℕ → Document → Document
given_to user d = record d { owner_signup_id = none; owner_user_id = some user }

abbrev pub with_completed : ℕ → SignupSession → SignupSession
with_completed user x = record x { stage = completed; resolved_user_id = some user }

abbrev pub new_customer : ℕ → (email password_hash : ℕ) → SignupSession → Customer
new_customer user email h x = record {
  id = user;
  email = email;
  phone = x.phone;
  password_hash = h;
  first_name = x.first_name;
  last_name = x.last_name;
  dob = x.dob;
}

-- The database transaction: the customer with a pending KYC record, the documents, the session.
abbrev pub open_account : ℕ → (email password_hash : ℕ) → SignupSession → SignupStore → SignupStore
open_account user email h x s = record s {
  users = new_customer user email h x ∷ s.users;
  kyc_records = user ∷ s.kyc_records;
  documents = update_where (owned_by_signup x.id) (given_to user) s.documents;
  sessions = (change_signup x.id (with_completed user) s).sessions;
  announced = user ∷ s.announced;
}

abbrev pub has_user_id : ℕ → Customer → Bool
has_user_id k u = u.id == k

-- The phone number is unique, the empty one too.
abbrev pub phone_clashes : Option ℕ → List Customer → Bool
phone_clashes none us = false
phone_clashes (some phone) us = is_some (find_first (has_phone phone) us)

-- The checks before the transaction, and its unique constraints, whose errors are translated.
abbrev pub complete_filled :
    ℕ → (email password_hash : ℕ) → SignupSession → SignupStore → Outcome ℕ × SignupStore
complete_filled user email h x s =
    if is_some (find_first (has_email email) s.users)
    then (failed email_registered, s)
    else if phone_taken x.phone s.users
    then (failed phone_registered, s)
    else if is_some (find_first (has_user_id user) s.users)
    then (failed details_in_use, s)
    else if phone_clashes x.phone s.users
    then (failed phone_registered, s)
    else (done user, open_account user email h x s)

abbrev pub names_filled : SignupSession → Bool
names_filled x = is_filled x.first_name && is_filled x.last_name

abbrev pub complete_with :
    ℕ → Option ℕ → Option ℕ → SignupSession → SignupStore → Outcome ℕ × SignupStore
complete_with user (some email) (some h) x s =
    if is_filled (some email) && (is_filled (some h) && names_filled x)
    then complete_filled user email h x s
    else (failed missing_fields, s)
complete_with user _ _ x s = (failed missing_fields, s)

-- `complete`, with the id of the new user.
unfoldable pub complete : ℕ → SignupSession → SignupStore → Outcome ℕ × SignupStore
complete user x s =
    if not (rank x.stage == rank docs_submitted)
    then (failed cannot_complete, s)
    else complete_with user x.email x.password_hash x s
