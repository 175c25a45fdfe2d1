-- ===== src/Login/Known.antt =====
-- The devices that are known after a sign-in.
use meal.Prelude.{
  ℕ, ◌≡◌, ◌≢◌, inl, inr, refl, Bool, true, none, some, List, [], ◌∷◌, arith, Option-cases,
}
use meal.Prelude.Table.{find, modify, find_first}
use meal.Sessions.Rows.{
  Device, SessionStore, Crypto, SessionEnv, IssueSessionInput, Reply, accepted, refused,
}
use meal.Sessions.{device_key, issue_session}
use meal.Login.Rows.{LoginStore, LoginConfig, LoginEnv, session_stage}
use meal.Login.Devices.{
  is_device, find_known, seen_on_login, upsert_on_login, as_trusted, mark_trusted,
}
use meal.Login.{of_reply, start_session, is_known_trusted}

-- No two devices have the same id.
abbrev pub HasUniqueIds : List Device → Type 0
HasUniqueIds [] = Unit
HasUniqueIds (d ∷ ds) = (find device_key d.id ds ≡ none) × HasUniqueIds ds

module _ (test : Device → Bool) (f : Device → Device)
    (keeps : (d : Device) → test (f d) ≡ test d) where
  find_first-found :
      (d : Device) (ds : List Device) → find_first test ds ≡ some d → find device_key d.id ds ≢ none
  find_first-found d [] e = ground (arith, e)
  find_first-found d (x ∷ ds) e = let rest = find_first-found d ds in ground (arith, e, rest)

  -- A change of the row that is found leaves it the row that is found.
  find_first-modify :
      (d : Device) (ds : List Device)
      → HasUniqueIds ds
      → find_first test ds ≡ some d
      → find_first test (modify device_key d.id f ds) ≡ some (f d)
  find_first-modify d [] unique e = ground (arith, e)
  find_first-modify d (x ∷ ds) unique e =
      let rest = find_first-modify d ds unique.1 in
      let there = find_first-found d ds in
      ground (arith, e, rest, there, unique.0, keeps x, keeps d)

  find_first-modify-none :
      (k : ℕ) (ds : List Device)
      → find_first test ds ≡ none
      → find_first test (modify device_key k f ds) ≡ none
  find_first-modify-none k [] e = refl
  find_first-modify-none k (x ∷ ds) e =
      let rest = find_first-modify-none k ds in ground (arith, e, rest, keeps x)

modify-modify :
    (f g : Device → Device) (k : ℕ) (ds : List Device)
    → ((d : Device) → device_key (f d) ≡ device_key d)
    → modify device_key k g (modify device_key k f ds) ≡ modify device_key k (λ d. g (f d)) ds
modify-modify f g k [] same = refl
modify-modify f g k (x ∷ ds) same =
    let rest = modify-modify f g k ds same in ground (arith, rest, same x)

issue-devices :
    (crypto : Crypto) (env : SessionEnv) (input : IssueSessionInput) (s : SessionStore)
    → (issue_session crypto env input s).1.devices ≡ s.devices
unfolding issue_session
issue-devices crypto env input s = ground arith

reply-auth :
    {A B : Type 0} (f : A → B) (r : Reply A × SessionStore) (s : LoginStore)
    → (of_reply f r s).1.auth ≡ r.1
reply-auth f (accepted x, a) s = refl
reply-auth f (refused e, a) s = refl

reply-users :
    {A B : Type 0} (f : A → B) (r : Reply A × SessionStore) (s : LoginStore)
    → (of_reply f r s).1.users ≡ s.users
reply-users f (accepted x, a) s = refl
reply-users f (refused e, a) s = refl

pub start-devices :
    (config : LoginConfig) (env : LoginEnv) (user device : ℕ) (a : SessionStore) (s : LoginStore)
    → ((start_session config env user device a s).1.auth.devices ≡ a.devices)
      × ((start_session config env user device a s).1.users ≡ s.users)
start-devices config env user device a s =
    let input : IssueSessionInput = record { user_id = user; device_id = device } in
    let issued = issue_session config.crypto env.session input a in
    let auth = reply-auth session_stage issued s in
    let devices = issue-devices config.crypto env.session input a in
    (ground (arith, auth, devices), reply-users session_stage issued s)

pub marked-known :
    (now k user fp : ℕ) (s : SessionStore)
    → HasUniqueIds s.devices
    → let (d, a) = upsert_on_login now k user fp s in
      is_known_trusted (find_known user fp (mark_trusted d.id a)) ≡ true
unfolding upsert_on_login mark_trusted
marked-known now k user fp s unique = elim (Option-cases (find_known user fp s)) [
  | inl e ↦ ground (arith, e)
  | inr (d, e) ↦
      let f = λ (x : Device). as_trusted (seen_on_login now x) in
      let once = modify-modify (seen_on_login now) as_trusted d.id s.devices (λ x. refl) in
      let found = find_first-modify (is_device user fp) f (λ x. refl) d s.devices unique e in
      ground (arith, e, once, found)
]

pub marked-other :
    (now k user fp fp₂ : ℕ) (s : SessionStore)
    → fp ≢ fp₂
    → find_known user fp₂ s ≡ none
    → let (d, a) = upsert_on_login now k user fp s in
      find_known user fp₂ (mark_trusted d.id a) ≡ none
unfolding upsert_on_login mark_trusted
marked-other now k user fp fp₂ s other unknown = elim (Option-cases (find_known user fp s)) [
  | inl e ↦ ground (arith, e, other, unknown)
  | inr (d, e) ↦
      let f = λ (x : Device). as_trusted (seen_on_login now x) in
      let once = modify-modify (seen_on_login now) as_trusted d.id s.devices (λ x. refl) in
      let gone = find_first-modify-none (is_device user fp₂) f (λ x. refl) d.id s.devices unknown in
      ground (arith, e, once, gone)
]
