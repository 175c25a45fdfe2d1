-- ===== src/Examples/Signup.antt =====
-- A person who signs up, from the first form to the new customer.
use meal.Prelude.{ℕ, ◌≡◌, ◌+◌, ◌&&◌, ◌==◌, refl, arith, true, false, some, none, List, [], ◌∷◌}
use meal.Signup.Rows.{
  email, docs_submitted, DocumentType, id_front, id_back, SignupSession, SignupStore, done, is_some,
}
use meal.Signup.{
  SignupEnv, Contact, begin, new_signup, load, signup_of, advance, mark_channel_chosen,
}
use meal.Signup.Completion.{set_ssn, mark_docs_submitted, Upload, upload, complete}
use meal.Signup.Codes.{CodeEnv, sent_result, send, verify}
use meal.Signup.OneTime.{send-verify}
use meal.Signup.Funnel.{
  SignupCall, begins, requests, sends, verifies, sets_dob, sets_address, sets_password,
  sets_details, sets_ssn, uploads, submits_docs, run, AllGiven,
}
use meal.Signup.Given.{run-AllGiven}
use meal.Signup.Customers.{Completed, complete-ok}

abbrev env_at : ℕ → SignupEnv
env_at k = record {
  ttl_days = 7;
  now = 1000;
  id = k;
  argon_hash = λ p. p + 1;
  hmac = λ cs. 7;
  encrypt = λ cs. 8;
}

abbrev code_env : ℕ → CodeEnv
code_env k = record {
  ttl_sec = 600;
  max_attempts = 5;
  cooldown_sec = 60;
  now = 2000;
  id = k;
  code = 123456;
  argon_hash = λ p. p + 1;
  argon_verify = λ h p. h == p + 1;
  has_twilio = true;
  twilio_up = true;
}

abbrev contact : Contact
contact = record { first_name = 11; last_name = 12; email = 13; phone = 14; referral_code = none }

abbrev nothing : SignupStore
nothing = record {
  users = [];
  kyc_records = [];
  sessions = [];
  verifications = [];
  documents = [];
  sent = [];
  announced = [];
}

abbrev begun : SignupStore
begun = (begin (env_at 40) contact nothing).1

abbrev first : SignupSession
first = new_signup (env_at 40) contact

abbrev code_sent : SignupStore
code_sent = (send (code_env 50) first email begun).1

code_is_sent :
    send (code_env 50) first email begun ≡ (done (sent_result (code_env 50) email), code_sent)
unfolding send begin
code_is_sent = refl

abbrev proved : SignupStore
proved = (verify (code_env 51) first 50 123456 code_sent).1

send-verify_example : (verify (code_env 51) first 50 123456 code_sent).0 ≡ done email
unfolding begin
send-verify_example =
    send-verify (code_env 50) (code_env 51) first email begun code_is_sent refl refl (omega arith)
      (omega arith) refl

code_accepted : verify (code_env 51) first 50 123456 code_sent ≡ (done email, proved)
unfolding verify send begin
code_accepted = refl

abbrev photo : DocumentType → Upload
photo t = record {
  document_type = t;
  allowed_type = true;
  size = 500;
  max_bytes = 1000;
  storage_up = true;
}

-- A12345
abbrev passport : List ℕ
passport = 97 ∷ 49 ∷ 50 ∷ 51 ∷ 32 ∷ 52 ∷ 53 ∷ []

abbrev calls : List SignupCall
calls =
    begins (env_at 40) contact
    ∷ requests 2000 40 (sends (code_env 50) email)
    ∷ requests 2000 40 (verifies (code_env 51) 50 123456)
    ∷ requests 2000 40 (sets_dob 21)
    ∷ requests 2000 40
        (sets_address (record { street = 1; apt = none; city = 2; state = 3; zip = 4 }))
    ∷ requests 2000 40 (sets_password (env_at 41) 99)
    ∷ requests 2000 40 (
        sets_details (record {
          income = none;
          occupation = some 5;
          annual_income = none;
          pay_method = none;
          found_us = none;
          marketing_consent = none;
        }))
    ∷ requests 2000 40 (sets_ssn (env_at 42) passport)
    ∷ requests 2000 40 (uploads 61 (photo id_front))
    ∷ requests 2000 40 (uploads 62 (photo id_back))
    ∷ requests 2000 40 submits_docs
    ∷ []

abbrev at_end : SignupStore
at_end = run calls nothing

end_given : AllGiven at_end
end_given = run-AllGiven calls nothing tt

run-AllGiven_example : AllGiven at_end
run-AllGiven_example = run-AllGiven calls nothing tt

-- The session that the requests leave.
abbrev last : SignupSession
last = record first {
  stage = docs_submitted;
  verified_channel = some email;
  verified_at = some 2000;
  dob = some 21;
  card_choice = some 1;
  address = some (record { street = 1; apt = none; city = 2; state = 3; zip = 4 });
  password_hash = some 100;
  details = record {
    income = none;
    occupation = some 5;
    annual_income = none;
    pay_method = none;
    found_us = none;
    marketing_consent = some false;
  };
  ssn_hash = some 7;
  ssn_encrypted = some 8;
}

last_stored : signup_of 40 at_end ≡ some last
unfolding begin load send verify mark_channel_chosen advance set_ssn upload mark_docs_submitted
last_stored = refl

abbrev opened : SignupStore
opened = (complete 80 last at_end).1

last_completed : complete 80 last at_end ≡ (done 80, opened)
unfolding begin load send verify mark_channel_chosen advance set_ssn upload mark_docs_submitted
    complete
last_completed = refl

complete-ok_example :
    Completed 80 last at_end opened
    × ((is_some last.verified_at && is_some last.verified_channel) ≡ true)
    × ((is_some last.dob && is_some last.address) ≡ true)
    × ((is_some last.ssn_hash && is_some last.ssn_encrypted) ≡ true)
complete-ok_example = complete-ok 80 last at_end end_given last_stored last_completed
