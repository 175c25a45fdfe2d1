-- ===== src/Signup/Given.antt =====
-- A session at a stage has given what the earlier stages ask for.
use meal.Prelude.{
  ℕ, ◌≡◌, inl, inr, refl, true, not, ◌&&◌, Option, none, some, List, [], ◌∷◌, if_cases, arith, ◌==◌,
  Bool-cases, Option-cases, ltb,
}
use meal.Prelude.Table.{
  find_first, find-key, All-modify, All-modify_any, All-delete_where, All-find,
}
use meal.Signup.Rows.{
  verified, dob_collected, address_collected, password_set, details_collected, ssn_collected,
  docs_submitted, contact_collected, channel_chosen, SignupStage, SignupSession,
  VerificationChannel, SignupStore, Outcome, done, failed, is_some, id_front, id_back,
}
use meal.Signup.{
  rank, stage_at_least, signup_key, signup_of, change_signup, SignupEnv, load, Contact, restarted,
  create_signup, drop_stale, is_stale, signup_has_email, has_email, phone_taken, begin_found, begin,
  at_channel_chosen, mark_channel_chosen, advance, with_verified, mark_verified, with_dob,
  with_card, with_address, with_password, with_details,
}
use meal.Signup.Completion.{
  set_ssn, with_ssn, is_passport, normalize, is_duplicate, mark_docs_submitted, has_document,
  with_docs, Upload, upload, complete, complete_with, with_completed,
}
use meal.Signup.Codes.{CodeEnv, SendResult, send, resend, verify}
use meal.Signup.OneTime.{send-SameCustomers, resend-SameCustomers, verify-SameCustomers}
use meal.Signup.Funnel.{
  SignupCall, begins, requests, Request, serve, sends, resends, verifies, sets_dob, sets_card,
  sets_address, sets_password, sets_details, sets_ssn, uploads, submits_docs, completes,
  with_loaded, send_endpoint, verify_endpoint, after, run, has_given, AllGiven,
}

abbrev pub Given : SignupSession → Type 0
Given x = has_given x ≡ true

pub load-ok :
    (now k : ℕ) (s : SignupStore) {x : SignupSession}
    → load now k s ≡ done x
    → signup_of x.id s ≡ some x
unfolding load
load-ok now k s h = elim (Option-cases (signup_of k s)) [
  | inl e ↦ ground (arith, e, h)
  | inr (y, e) ↦
      let key : y.id ≡ k = find-key signup_key k s.sessions y e in ground (arith, e, h, key)
]

-- The endpoint keeps the rule, if its step does at the stored session.
loaded-AllGiven :
    (now k : ℕ) (f : SignupSession → SignupStore → SignupStore) (s : SignupStore)
    → ((x : SignupSession) → signup_of x.id s ≡ some x → AllGiven (f x s))
    → AllGiven s
    → AllGiven (with_loaded now k f s)
loaded-AllGiven now k f s step all = loaded_at (load now k s) refl
  where
    loaded_at :
        (o : Outcome SignupSession)
        → load now k s ≡ o
        → AllGiven (elim o [ failed e ↦ s | done x ↦ f x s ])
    loaded_at (failed e) h = all
    loaded_at (done x) h = step x (load-ok now k s h)

changed-AllGiven :
    (f : SignupSession → SignupSession) (x : SignupSession) (s : SignupStore)
    → signup_of x.id s ≡ some x
    → Given (f x)
    → AllGiven s
    → AllGiven (change_signup x.id f s)
changed-AllGiven f x s e h all = All-modify Given signup_key x.id f x s.sessions e h all

pub stored-Given :
    (x : SignupSession) (s : SignupStore) → signup_of x.id s ≡ some x → AllGiven s → Given x
stored-Given x s e all = All-find Given signup_key x.id x s.sessions e all

advance-AllGiven :
    (required : SignupStage) (f : SignupSession → SignupSession) (x : SignupSession)
    (s : SignupStore)
    → (Given x → stage_at_least x.stage required ≡ true → Given (f x))
    → signup_of x.id s ≡ some x
    → AllGiven s
    → AllGiven (advance required f x s).1
unfolding advance
advance-AllGiven required f x s h e all = elim (Bool-cases (stage_at_least x.stage required)) [
  | inl late ↦ rw late (changed-AllGiven f x s e (h (stored-Given x s e all) late) all)
  | inr early ↦ rw early all
]

-- What a step leaves keeps the rule.
abbrev Fine : {A : Type 0} → A × SignupStore → Type 0
Fine r = AllGiven r.1

create-AllGiven :
    (env : SignupEnv) (input : Contact) (s : SignupStore)
    → AllGiven s
    → AllGiven (create_signup env input s).1
create-AllGiven env input s all =
    if_cases Fine (is_some (signup_of env.id s)) (λ taken. all) (λ fresh. (refl, all))

begin_found-AllGiven :
    (env : SignupEnv) (input : Contact) (o : Option SignupSession) (s : SignupStore)
    → AllGiven s
    → AllGiven (begin_found env input o s).1
begin_found-AllGiven env input none s all = create-AllGiven env input s all
begin_found-AllGiven env input (some x) s all =
    if_cases Fine (is_stale env.now x)
      (λ stale.
        create-AllGiven env input (drop_stale x s)
          (All-delete_where Given (λ (y : SignupSession). y.id == x.id) s.sessions all))
      (λ live. All-modify_any Given signup_key x.id (restarted input) s.sessions (λ r. refl) all)

begin-AllGiven :
    (env : SignupEnv) (input : Contact) (s : SignupStore)
    → AllGiven s
    → AllGiven (begin env input s).1
unfolding begin
begin-AllGiven env input s all =
    if_cases Fine (is_some (find_first (has_email input.email) s.users)) (λ taken. all)
      λ free.
        if_cases Fine (phone_taken (some input.phone) s.users) (λ taken. all)
          λ open_.
            begin_found-AllGiven env input (find_first (signup_has_email input.email) s.sessions) s
              all

channel_chosen-AllGiven :
    (x : SignupSession) (s : SignupStore) → AllGiven s → AllGiven (mark_channel_chosen x s).1
unfolding mark_channel_chosen
channel_chosen-AllGiven x s all =
    if_cases Fine (not (stage_at_least x.stage contact_collected)) (λ early. all)
      λ late.
        if_cases Fine (ltb (rank x.stage) (rank channel_chosen))
          (λ first.
            All-modify_any Given signup_key x.id at_channel_chosen s.sessions (λ r. refl) all)
          (λ later. all)

ssn-AllGiven :
    (env : SignupEnv) (plain : List ℕ) (x : SignupSession) (s : SignupStore)
    → signup_of x.id s ≡ some x
    → AllGiven s
    → AllGiven (set_ssn env plain x s).1
unfolding set_ssn
ssn-AllGiven env plain x s e all =
    let hash = env.hmac (normalize plain) in
    if_cases Fine (not (stage_at_least x.stage details_collected)) (λ early. all)
      λ late.
        if_cases Fine (not (is_passport (normalize plain))) (λ bad. all)
          λ good.
            if_cases Fine (is_some (find_first (is_duplicate hash x.id) s.sessions)) (λ twice. all)
              λ new.
                changed-AllGiven (with_ssn (env.encrypt (normalize plain)) hash) x s e
                  (ground (arith, stored-Given x s e all, late)) all

docs-AllGiven :
    (x : SignupSession) (s : SignupStore)
    → signup_of x.id s ≡ some x
    → AllGiven s
    → AllGiven (mark_docs_submitted x s).1
unfolding mark_docs_submitted
docs-AllGiven x s e all =
    if_cases Fine (not (stage_at_least x.stage ssn_collected)) (λ early. all)
      λ late.
        if_cases Fine (not (has_document x.id id_front s && has_document x.id id_back s)) (λ m. all)
          λ c. changed-AllGiven with_docs x s e (ground (arith, stored-Given x s e all, late)) all

upload-AllGiven :
    (id : ℕ) (u : Upload) (x : SignupSession) (s : SignupStore)
    → AllGiven s
    → AllGiven (upload id u x s).1
unfolding upload
upload-AllGiven id u x s all = ground (arith, all)

complete_with-AllGiven :
    (user : ℕ) (m h : Option ℕ) (x : SignupSession) (s : SignupStore)
    → AllGiven (change_signup x.id (with_completed user) s)
    → AllGiven s
    → AllGiven (complete_with user m h x s).1
complete_with-AllGiven user none h x s new all = all
complete_with-AllGiven user (some m) none x s new all = all
complete_with-AllGiven user (some m) (some h) x s new all = ground (arith, new, all)

complete-AllGiven :
    (user : ℕ) (x : SignupSession) (s : SignupStore)
    → signup_of x.id s ≡ some x
    → AllGiven s
    → AllGiven (complete user x s).1
unfolding complete
complete-AllGiven user x s e all =
    if_cases Fine (not (rank x.stage == rank docs_submitted)) (λ early. all)
      λ at_end.
        complete_with-AllGiven user x.email x.password_hash x s
          (changed-AllGiven (with_completed user) x s e
            (ground (arith, stored-Given x s e all, at_end)) all)
          all

-- The endpoints of the codes: the sessions are as they were before the session is marked.
same-AllGiven : (s s' : SignupStore) → s'.sessions ≡ s.sessions → AllGiven s → AllGiven s'
same-AllGiven s s' e all = rw e all

send-AllGiven :
    (env : CodeEnv) (channel : VerificationChannel) (x : SignupSession) (s : SignupStore)
    → AllGiven s
    → AllGiven (send_endpoint env channel x s)
send-AllGiven env channel x s all =
    let (same, _) = send-SameCustomers env x channel s in
    let kept = same-AllGiven s (send env x channel s).1 same all in
    sent_at (send env x channel s).0 (send env x channel s).1 kept
  where
    sent_at :
        (o : Outcome SendResult) (s' : SignupStore)
        → AllGiven s'
        → AllGiven (elim o [ failed e ↦ s' | done r ↦ (mark_channel_chosen x s').1 ])
    sent_at (failed e) s' kept = kept
    sent_at (done r) s' kept = channel_chosen-AllGiven x s' kept

verify-AllGiven :
    (env : CodeEnv) (k code : ℕ) (x : SignupSession) (s : SignupStore)
    → signup_of x.id s ≡ some x
    → AllGiven s
    → AllGiven (verify_endpoint env k code x s)
verify-AllGiven env k code x s e all =
    let (same, _) = verify-SameCustomers env x k code s in
    let kept = same-AllGiven s (verify env x k code s).1 same all in
    proved_at (verify env x k code s).0 (verify env x k code s).1 (ground (arith, same, e)) kept
  where
    proved_at :
        (o : Outcome VerificationChannel) (s' : SignupStore)
        → signup_of x.id s' ≡ some x
        → AllGiven s'
        → AllGiven
            (elim o [ failed e ↦ s' | done channel ↦ (mark_verified env.now channel x s').1 ])
    proved_at (failed e) s' found kept = kept
    proved_at (done channel) s' found kept =
        advance-AllGiven contact_collected (with_verified env.now channel) x s'
          (λ g late. ground (arith, g)) found kept

serve-AllGiven :
    (q : Request) (x : SignupSession) (s : SignupStore)
    → signup_of x.id s ≡ some x
    → AllGiven s
    → AllGiven (serve q x s)
serve-AllGiven (sends env channel) x s e all = send-AllGiven env channel x s all
serve-AllGiven (resends env v) x s e all =
    same-AllGiven s (resend env x v s).1 (resend-SameCustomers env x v s).0 all
serve-AllGiven (verifies env v code) x s e all = verify-AllGiven env v code x s e all
serve-AllGiven (sets_dob dob) x s e all =
    advance-AllGiven verified (with_dob dob) x s (λ g late. ground (arith, g, late)) e all
serve-AllGiven (sets_card choice) x s e all =
    advance-AllGiven dob_collected (with_card choice) x s (λ g late. ground (arith, g, late)) e all
serve-AllGiven (sets_address a) x s e all =
    advance-AllGiven dob_collected (with_address a x.card_choice) x s
      (λ g late. ground (arith, g, late)) e all
serve-AllGiven (sets_password env password) x s e all =
    advance-AllGiven address_collected (with_password (env.argon_hash password)) x s
      (λ g late. ground (arith, g, late)) e all
serve-AllGiven (sets_details d) x s e all =
    advance-AllGiven password_set (with_details d) x s (λ g late. ground (arith, g, late)) e all
serve-AllGiven (sets_ssn env plain) x s e all = ssn-AllGiven env plain x s e all
serve-AllGiven (uploads id u) x s e all = upload-AllGiven id u x s all
serve-AllGiven submits_docs x s e all = docs-AllGiven x s e all
serve-AllGiven (completes user) x s e all = complete-AllGiven user x s e all

after-AllGiven : (c : SignupCall) (s : SignupStore) → AllGiven s → AllGiven (after c s)
after-AllGiven (begins env input) s all = begin-AllGiven env input s all
after-AllGiven (requests now k q) s all =
    loaded-AllGiven now k (serve q) s (λ x e. serve-AllGiven q x s e all) all

-- If each sign-up session has given what the stages up to its own ask for, then this is so after any
-- sequence of requests to the funnel: a proof of the address or the phone from `verified` on, then the
-- date of birth, the address, the password and the passport.
pub run-AllGiven : (cs : List SignupCall) (s : SignupStore) → AllGiven s → AllGiven (run cs s)
run-AllGiven [] s all = all
run-AllGiven (c ∷ cs) s all = run-AllGiven cs (after c s) (after-AllGiven c s all)
