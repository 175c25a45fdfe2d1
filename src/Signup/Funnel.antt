-- ===== src/Signup/Funnel.antt =====
-- The endpoints of the funnel (auth/signup/signup.controller.ts, verification.controller.ts) in any order,
-- and what a session at a stage has given.
use meal.Prelude.{ℕ, ◌≡◌, Bool, true, not, ◌&&◌, ◌||◌, List, [], ◌∷◌, All}
use meal.Signup.Rows.{
  verified, dob_collected, address_collected, password_set, ssn_collected, SignupStage,
  SignupSession, VerificationChannel, Address, Details, SignupStore, done, failed, is_some,
}
use meal.Signup.{
  stage_at_least, SignupEnv, load, Contact, begin, mark_channel_chosen, mark_verified, set_dob,
  set_card, set_address, set_password, set_details,
}
use meal.Signup.Completion.{set_ssn, mark_docs_submitted, Upload, upload, complete}
use meal.Signup.Codes.{CodeEnv, send, resend, verify}

-- What is asked of a session that is loaded.
pub data Request : Type 0 where
  sends : CodeEnv → VerificationChannel → Request
  resends : CodeEnv → (verification : ℕ) → Request
  verifies : CodeEnv → (verification code : ℕ) → Request
  sets_dob : (dob : ℕ) → Request
  sets_card : (choice : ℕ) → Request
  sets_address : Address → Request
  sets_password : SignupEnv → (password : ℕ) → Request
  sets_details : Details → Request
  sets_ssn : SignupEnv → List ℕ → Request
  uploads : (id : ℕ) → Upload → Request
  submits_docs : Request
  completes : (user : ℕ) → Request

pub data SignupCall : Type 0 where
  begins : SignupEnv → Contact → SignupCall
  requests : (now session : ℕ) → Request → SignupCall

-- An endpoint loads the session first.
abbrev pub with_loaded :
    ℕ → ℕ → (SignupSession → SignupStore → SignupStore) → SignupStore → SignupStore
with_loaded now k f s = elim (load now k s) [ failed e ↦ s | done x ↦ f x s ]

-- The code is sent, and then the session is marked.
abbrev pub send_endpoint : CodeEnv → VerificationChannel → SignupSession → SignupStore → SignupStore
send_endpoint env channel x s =
    let (sent, s') = send env x channel s in
    elim sent [ failed e ↦ s' | done r ↦ (mark_channel_chosen x s').1 ]

abbrev pub verify_endpoint :
    CodeEnv → (verification code : ℕ) → SignupSession → SignupStore → SignupStore
verify_endpoint env k code x s =
    let (proved, s') = verify env x k code s in
    elim proved [ failed e ↦ s' | done channel ↦ (mark_verified env.now channel x s').1 ]

abbrev pub serve : Request → SignupSession → SignupStore → SignupStore
serve (sends env channel) x s = send_endpoint env channel x s
serve (resends env v) x s = (resend env x v s).1
serve (verifies env v code) x s = verify_endpoint env v code x s
serve (sets_dob dob) x s = (set_dob dob x s).1
serve (sets_card choice) x s = (set_card choice x s).1
serve (sets_address a) x s = (set_address a x s).1
serve (sets_password env password) x s = (set_password env password x s).1
serve (sets_details d) x s = (set_details d x s).1
serve (sets_ssn env plain) x s = (set_ssn env plain x s).1
serve (uploads id u) x s = (upload id u x s).1
serve submits_docs x s = (mark_docs_submitted x s).1
serve (completes user) x s = (complete user x s).1

abbrev pub after : SignupCall → SignupStore → SignupStore
after (begins env input) s = (begin env input s).1
after (requests now k q) s = with_loaded now k (serve q) s

abbrev pub run : List SignupCall → SignupStore → SignupStore
run [] s = s
run (c ∷ cs) s = run cs (after c s)

-- From the stage on, the field is filled.
abbrev pub from_stage : SignupStage → Bool → SignupSession → Bool
from_stage stage given x = not (stage_at_least x.stage stage) || given

-- What a session has given by the stage that it is at.
abbrev pub has_given : SignupSession → Bool
has_given x =
    (from_stage verified (is_some x.verified_at && is_some x.verified_channel) x
      && from_stage dob_collected (is_some x.dob) x)
    && ((from_stage address_collected (is_some x.address && is_some x.card_choice) x
          && from_stage password_set (is_some x.password_hash) x)
        && from_stage ssn_collected (is_some x.ssn_hash && is_some x.ssn_encrypted) x)

abbrev pub AllGiven : SignupStore → Type 0
AllGiven s = All (λ x. has_given x ≡ true) s.sessions
