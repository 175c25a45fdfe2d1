-- ===== src/Transfers/Initiate/Outcome.antt =====
-- How `initiate` ends: what an answer and an exception say of the database.
use meal.Prelude.{ℕ, ◌≡◌, inl, inr, ◌∙◌, arith, Option, none, some}
use meal.Bank.{Bank, Transfer}
use meal.Bank.Action.{Action, Error, ok, err}
use meal.Bank.Flow.{Reads, >>=-err, >>-err, transaction-err}
use meal.Transfers.Requests.{InitiateTransfer, Env}
use meal.Transfers.Initiate.{
  prepare, commit, schedule, initiate_new, replay, replay_or_new, initiate,
}
use meal.Transfers.Initiate.Checks.{prepare-Reads, prepare-ok}

schedule_answers : (env : Env) (t : Transfer) (b : Bank) → (schedule env t b).0 ≡ ok tt
unfolding schedule
schedule_answers env t b = ground arith

Reads-err :
    {A : Type 0} (m : Action A) (b : Bank) {e : Error} {b' : Bank}
    → Reads m b
    → m b ≡ (err e, b')
    → b' ≡ b
Reads-err m b r h = ground (arith, r, h)

initiate_new-err :
    (env : Env) (user key : ℕ) (dto : InitiateTransfer) (b : Bank) {e : Error} {b' : Bank}
    → initiate_new env user key dto b ≡ (err e, b')
    → b' ≡ b
unfolding initiate_new
initiate_new-err env user key dto b h = elim (>>=-err _ _ b h) [
  | inl p ↦ Reads-err (prepare env user dto) b (prepare-Reads env user dto b) p
  | inr (plan, b₁, p, h₁) ↦
      let same = (prepare-ok env user dto b p).0 in
      elim (>>=-err _ _ b₁ h₁) [
        | inl q ↦ transaction-err (commit env user key dto plan) b₁ q ∙ same
        | inr (t, b₂, q, h₂) ↦ elim (>>-err _ _ b₂ h₂) [
          | inl r ↦ ground arith
          | inr (_, b₃, r, h₃) ↦ elim (>>-err _ _ b₃ h₃) [
            | inl s ↦ ground (arith, s, schedule_answers env t b₃)
            | inr (_, b₄, s, h₄) ↦ ground arith
          ]
        ]
      ]
]

replay_or_new-err :
    (env : Env) (user key : ℕ) (dto : InitiateTransfer) (o : Option Transfer) (b : Bank) {e : Error}
    {b' : Bank}
    → replay_or_new env user key dto o b ≡ (err e, b')
    → b' ≡ b
unfolding replay_or_new replay
replay_or_new-err env user key dto none b h = initiate_new-err env user key dto b h
replay_or_new-err env user key dto (some t) b h = elim (>>-err _ _ b h) [
  | inl p ↦ ground arith
  | inr (_, b₁, p, h₁) ↦ ground arith
]

initiate_err :
    (env : Env) (user : ℕ) (key : Option ℕ) (dto : InitiateTransfer) (b : Bank) {e : Error}
    {b' : Bank}
    → initiate env user key dto b ≡ (err e, b')
    → b' ≡ b
unfolding initiate
initiate_err env user none dto b h = ground arith
initiate_err env user (some key) dto b h = elim (>>=-err _ _ b h) [
  | inl p ↦ ground arith
  | inr (c, b₁, p, h₁) ↦ elim (>>-err _ _ b₁ h₁) [
    | inl q ↦ ground arith
    | inr (_, b₂, q, h₂) ↦ elim (>>=-err _ _ b₂ h₂) [
      | inl r ↦ ground arith
      | inr (o, b₃, r, h₃) ↦
          let same : b₃ ≡ b = ground (arith, p, q, r) in
          replay_or_new-err env user key dto o b₃ h₃ ∙ same
    ]
  ]
]

-- A call of initiate that throws leaves the database, the queue, the timers and the events as they
-- were.
pub initiate-err :
    (env : Env) (user : ℕ) (key : Option ℕ) (dto : InitiateTransfer) (b : Bank) (e : Error)
    → (initiate env user key dto b).0 ≡ err e
    → initiate env user key dto b ≡ (err e, b)
initiate-err env user key dto b e h =
    let ends : initiate env user key dto b ≡ (err e, (initiate env user key dto b).1) =
      λ i. (h i, (initiate env user key dto b).1) in
    ground (arith, ends, initiate_err env user key dto b ends)
