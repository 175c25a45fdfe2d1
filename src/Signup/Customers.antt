-- ===== src/Signup/Customers.antt =====
-- Who becomes a customer at the end of the funnel.
use meal.Prelude.{
  ℕ, ◌≡◌, ◌≤◌, inl, inr, refl, Bool, true, false, ◌&&◌, Option, none, some, List, [], ◌∷◌, arith,
  ◌==◌, Bool-cases, Option-cases,
}
use meal.Prelude.Table.{find_first, count}
use meal.Signup.Rows.{
  SignupSession, SignupStore, Customer, Outcome, done, failed, is_some, docs_submitted,
  VerificationChannel,
}
use meal.Signup.{
  rank, signup_of, SignupEnv, load, Contact, begin, begin_found, has_email, mark_channel_chosen,
  advance, has_email, signup_has_email,
}
use meal.Signup.Completion.{
  complete, complete_with, open_account, names_filled, phone_clashes, set_ssn, mark_docs_submitted,
  upload,
}
use meal.Signup.OneTime.{send-SameCustomers, resend-SameCustomers, verify-SameCustomers}
use meal.Signup.Codes.{CodeEnv}
use meal.Signup.Funnel.{
  SignupCall, begins, requests, Request, sends, resends, verifies, sets_dob, sets_card,
  sets_address, sets_password, sets_details, sets_ssn, uploads, submits_docs, completes, serve,
  send_endpoint, verify_endpoint, after, run, AllGiven,
}
use meal.Signup.Given.{stored-Given}

-- What is known of a session that becomes a customer.
pub record Completed (user : ℕ) (x : SignupSession) (s s' : SignupStore) : Type 0 where
  pub email : ℕ
  pub password_hash : ℕ
  pub has_email_given : x.email ≡ some email
  pub has_password : x.password_hash ≡ some password_hash
  pub names : names_filled x ≡ true
  pub new_email : find_first (has_email email) s.users ≡ none
  pub new_phone : phone_clashes x.phone s.users ≡ false
  pub opened : s' ≡ open_account user email password_hash x s

Completed-with :
    (user : ℕ) (m h : Option ℕ) (x : SignupSession) (s : SignupStore) {k : ℕ} {s' : SignupStore}
    → x.email ≡ m
    → x.password_hash ≡ h
    → complete_with user m h x s ≡ (done k, s')
    → Completed user x s s'
Completed-with user none h x s e₁ e₂ r = ground (arith, r)
Completed-with user (some m) none x s e₁ e₂ r = ground (arith, r)
Completed-with user (some m) (some h) x s e₁ e₂ r =
    elim (Option-cases (find_first (has_email m) s.users)) [
      | inl free ↦ record {
        email = m;
        password_hash = h;
        has_email_given = e₁;
        has_password = e₂;
        names = ground (arith, r);
        new_email = free;
        new_phone = ground (arith, r);
        opened = ground (arith, r);
      }
      | inr (u, taken) ↦ ground (arith, r, taken)
    ]

-- If each session has given what its stage asks for, a completed sign-up has proved an e-mail address or
-- a phone, has a date of birth, an address, a password and a passport; its address and phone are not
-- another customer's; and the customer, the KYC record and the documents are made in one go.
pub complete-ok :
    (user : ℕ) (x : SignupSession) (s : SignupStore) {k : ℕ} {s' : SignupStore}
    → AllGiven s
    → signup_of x.id s ≡ some x
    → complete user x s ≡ (done k, s')
    → Completed user x s s'
      × ((is_some x.verified_at && is_some x.verified_channel) ≡ true)
      × ((is_some x.dob && is_some x.address) ≡ true)
      × ((is_some x.ssn_hash && is_some x.ssn_encrypted) ≡ true)
unfolding complete
complete-ok user x s {k = k} {s' = s'} all e h =
    let given = stored-Given x s e all in
    elim (Bool-cases (rank x.stage == rank docs_submitted)) [
      | inl at_end ↦
          let ran : complete_with user x.email x.password_hash x s ≡ (done k, s') =
            ground (arith, h, at_end) in
          (
            Completed-with user x.email x.password_hash x s refl refl ran,
            ground (arith, given, at_end),
            ground (arith, given, at_end),
            ground (arith, given, at_end),
          )
      | inr early ↦ ground (arith, h, early)
    ]

advance-users :
    (required : _) (f : SignupSession → SignupSession) (x : SignupSession) (s : SignupStore)
    → (advance required f x s).1.users ≡ s.users
unfolding advance
advance-users required f x s = ground arith

send_endpoint-users :
    (env : CodeEnv) (channel : VerificationChannel) (x : SignupSession) (s : SignupStore)
    → (send_endpoint env channel x s).users ≡ s.users
unfolding mark_channel_chosen
send_endpoint-users env channel x s = ground (arith, send-SameCustomers env x channel s)

verify_endpoint-users :
    (env : CodeEnv) (k code : ℕ) (x : SignupSession) (s : SignupStore)
    → (verify_endpoint env k code x s).users ≡ s.users
unfolding advance
verify_endpoint-users env k code x s = ground (arith, verify-SameCustomers env x k code s)

begin_found-users :
    (env : SignupEnv) (input : Contact) (o : Option SignupSession) (s : SignupStore)
    → (begin_found env input o s).1.users ≡ s.users
begin_found-users env input none s = ground arith
begin_found-users env input (some x) s = ground arith

begin-users :
    (env : SignupEnv) (input : Contact) (s : SignupStore) → (begin env input s).1.users ≡ s.users
unfolding begin
begin-users env input s =
    let found =
      begin_found-users env input (find_first (signup_has_email input.email) s.sessions) s in
    ground (arith, found)

-- Nobody is found, so nobody is counted.
count-find_first :
    {A : Type 0} (test : A → Bool) (rows : List A)
    → find_first test rows ≡ none
    → count test rows ≡ 0
count-find_first test [] h = refl
count-find_first test (r ∷ rows) h =
    let rest = count-find_first test rows in ground (arith, h, rest)

-- The customers with an e-mail address.
abbrev pub email_count : ℕ → SignupStore → ℕ
email_count m s = count (has_email m) s.users

with-email_count :
    (m user : ℕ) (e h : Option ℕ) (x : SignupSession) (s : SignupStore)
    → email_count m s ≤ 1
    → email_count m (complete_with user e h x s).1 ≤ 1
with-email_count m user none h x s c = c
with-email_count m user (some e) none x s c = c
with-email_count m user (some e) (some h) x s c =
    let new = count-find_first (has_email e) s.users in
    elim (Option-cases (find_first (has_email e) s.users)) [
      | inl free ↦ let empty = new free in ground (arith, c, free, empty)
      | inr (u, taken) ↦ ground (arith, c, taken)
    ]

complete-email_count :
    (m user : ℕ) (x : SignupSession) (s : SignupStore)
    → email_count m s ≤ 1
    → email_count m (complete user x s).1 ≤ 1
unfolding complete
complete-email_count m user x s c =
    let rest = with-email_count m user x.email x.password_hash x s c in ground (arith, c, rest)

same-email_count :
    (m : ℕ) (us us' : List Customer)
    → us' ≡ us
    → count (has_email m) us ≤ 1
    → count (has_email m) us' ≤ 1
same-email_count m us us' e c = rw e c

serve-email_count :
    (m : ℕ) (q : Request) (x : SignupSession) (s : SignupStore)
    → email_count m s ≤ 1
    → email_count m (serve q x s) ≤ 1
unfolding set_ssn mark_docs_submitted upload
serve-email_count m (sends env channel) x s c =
    same-email_count m s.users _ (send_endpoint-users env channel x s) c
serve-email_count m (resends env v) x s c =
    same-email_count m s.users _ (resend-SameCustomers env x v s).1 c
serve-email_count m (verifies env v code) x s c =
    same-email_count m s.users _ (verify_endpoint-users env v code x s) c
serve-email_count m (sets_dob dob) x s c = same-email_count m s.users _ (advance-users _ _ x s) c
serve-email_count m (sets_card choice) x s c =
    same-email_count m s.users _ (advance-users _ _ x s) c
serve-email_count m (sets_address a) x s c = same-email_count m s.users _ (advance-users _ _ x s) c
serve-email_count m (sets_password env p) x s c =
    same-email_count m s.users _ (advance-users _ _ x s) c
serve-email_count m (sets_details d) x s c = same-email_count m s.users _ (advance-users _ _ x s) c
serve-email_count m (sets_ssn env plain) x s c = ground (arith, c)
serve-email_count m (uploads id u) x s c = ground (arith, c)
serve-email_count m submits_docs x s c = ground (arith, c)
serve-email_count m (completes user) x s c = complete-email_count m user x s c

after-email_count :
    (m : ℕ) (c : SignupCall) (s : SignupStore) → email_count m s ≤ 1 → email_count m (after c s) ≤ 1
after-email_count m (begins env input) s c =
    same-email_count m s.users _ (begin-users env input s) c
after-email_count m (requests now k q) s c = loaded_at (load now k s)
  where
    loaded_at :
        (o : Outcome SignupSession)
        → email_count m (elim o [ failed e ↦ s | done x ↦ serve q x s ]) ≤ 1
    loaded_at (failed e) = c
    loaded_at (done x) = serve-email_count m q x s c

-- If at most one customer has an e-mail address, then this is so after any sequence of requests to the
-- funnel.
pub run-email_count :
    (m : ℕ) (cs : List SignupCall) (s : SignupStore)
    → email_count m s ≤ 1
    → email_count m (run cs s) ≤ 1
run-email_count m [] s c = c
run-email_count m (c ∷ cs) s h = run-email_count m cs (after c s) (after-email_count m c s h)
