-- ===== src/Transfers/Initiate/Checks.antt =====
-- The checks of `initiate` before its database transaction.
use meal.Prelude.{ℕ, ◌≡◌, refl, true, Option, none, some, ◌∙◌, arith}
use meal.Prelude.Int.{ℤ, ◌≤ℤ◌}
use meal.Prelude.Table.{find-key}
use meal.Bank.{Bank, Account, active}
use meal.Bank.Action.{Action, ok, >>=-ok, >>-ok, throw_if-ok, or_throw-ok}
use meal.Bank.Flow.{Reads, >>=-Reads, >>-Reads}
use meal.Bank.Balance.{account_key, account_of}
use meal.Transfers.Requests.{InitiateTransfer, Env, Plan, wire_scope, quote}
use meal.Transfers.Initiate.Gates.{
  SettlesAt, PassesGate, GoesTo, resolve_settlement-ok, wire_gate-ok, load_destination-ok,
}
use meal.Transfers.Initiate.{
  resolve_settlement, local_gate, wire_gate, load_source, load_own, load_destination, prepare,
  total_debit,
}

resolve_settlement-Reads :
    (env : Env) (dto : InitiateTransfer) (b : Bank) → Reads (resolve_settlement env dto) b
unfolding resolve_settlement
resolve_settlement-Reads env dto b = ground arith

local_gate-Reads : (k : Option ℕ) (b : Bank) → Reads (local_gate k) b
unfolding local_gate
local_gate-Reads none b = refl
local_gate-Reads (some k) b = refl

wire_gate-Reads : (dto : InitiateTransfer) (b : Bank) → Reads (wire_gate dto) b
unfolding wire_gate
wire_gate-Reads dto b = ground arith

load_source-Reads : (user k : ℕ) (b : Bank) → Reads (load_source user k) b
unfolding load_source
load_source-Reads user k b =
    >>=-Reads _ _ b refl
      (λ o. >>=-Reads _ _ b refl (λ a. >>-Reads _ _ b refl (>>-Reads _ _ b refl refl)))

load_own-Reads : (user : ℕ) (k : Option ℕ) (b : Bank) → Reads (load_own user k) b
unfolding load_own
load_own-Reads user k b =
    >>=-Reads _ _ b refl
      (λ id. >>=-Reads _ _ b refl (λ o. >>=-Reads _ _ b refl (λ a. >>-Reads _ _ b refl refl)))

load_destination-Reads :
    (user : ℕ) (dto : InitiateTransfer) (b : Bank) → Reads (load_destination user dto) b
unfolding load_destination
load_destination-Reads user dto b = ground (arith, load_own-Reads user dto.to_account_id b)

-- The checks write nothing, also when one of them throws.
pub prepare-Reads :
    (env : Env) (user : ℕ) (dto : InitiateTransfer) (b : Bank) → Reads (prepare env user dto) b
unfolding prepare
prepare-Reads env user dto b = >>=-Reads _ _ b (resolve_settlement-Reads env dto b) (λ s.
    >>-Reads _ _ b refl (
      >>-Reads _ _ b (wire_gate-Reads dto b) (
        >>=-Reads _ _ b (load_source-Reads user dto.from_account_id b) (λ a.
          >>=-Reads _ _ b (load_destination-Reads user dto b) (λ d. >>-Reads _ _ b refl refl)))))

Reads-to :
    {A : Type 0} (m : Action A) (b : Bank) {a : A} {b' : Bank}
    → Reads m b
    → m b ≡ (ok a, b')
    → b' ≡ b
Reads-to m b r h = ground (arith, r, h)

-- What the checks have established about a plan.
pub record Planned (env : Env) (user : ℕ) (dto : InitiateTransfer) (plan : Plan) (b : Bank)
    : Type 0 where
  pub amount : SettlesAt env dto plan.settlement_cents
  pub gate : PassesGate dto b
  pub source : account_of dto.from_account_id b ≡ some plan.from_account
  pub source_id : plan.from_account.id ≡ dto.from_account_id
  pub owner : plan.from_account.user_id ≡ user
  pub active_source : plan.from_account.status ≡ active
  pub goes_to : GoesTo user dto plan.to_account b
  pub funded : total_debit plan ≤ℤ plan.from_account.balance_cents
  pub valid :
      (quote env.config dto.kind plan.settlement_cents dto.instant (wire_scope dto)).valid ≡ true
  pub fee :
      plan.fee_cents
      ≡ (quote env.config dto.kind plan.settlement_cents dto.instant (wire_scope dto)).fee_cents

load_source-ok :
    (user k : ℕ) (b : Bank) {a : Account} {b' : Bank}
    → load_source user k b ≡ (ok a, b')
    → (account_of k b ≡ some a) × (a.user_id ≡ user) × (a.status ≡ active)
unfolding load_source
load_source-ok user k b h =
    let (o, b₀, e₀, h₀) = >>=-ok _ _ b h in
    let (a, b₁, e₁, h₁) = >>=-ok _ _ b₀ h₀ in
    let (_, b₂, e₂, h₂) = >>-ok _ _ b₁ h₁ in
    let (_, b₃, e₃, h₃) = >>-ok _ _ b₂ h₂ in
    let (found, _) = or_throw-ok _ _ b₀ e₁ in
    let (mine, _) = throw_if-ok _ _ b₁ e₂ in
    let (works, _) = throw_if-ok _ _ b₂ e₃ in
    (ground (arith, e₀, found, h₃), ground (arith, mine, h₃), ground (arith, works, h₃))

SettlesAt-as :
    (env : Env) (dto : InitiateTransfer) (x y : ℤ)
    → SettlesAt env dto x
    → y ≡ x
    → SettlesAt env dto y
SettlesAt-as env dto x y h e = rw e h

GoesTo-as :
    (user : ℕ) (dto : InitiateTransfer) (x y : Option Account) (b b' : Bank)
    → GoesTo user dto x b
    → y ≡ x
    → b ≡ b'
    → GoesTo user dto y b'
GoesTo-as user dto x y b b' h e same = rw (e, ← same) h

pub prepare-ok :
    (env : Env) (user : ℕ) (dto : InitiateTransfer) (b : Bank) {plan : Plan} {b' : Bank}
    → prepare env user dto b ≡ (ok plan, b')
    → (b' ≡ b) × Planned env user dto plan b
unfolding prepare
prepare-ok env user dto b {plan = plan} h =
    let (settlement, b₀, e₀, h₀) = >>=-ok _ _ b h in
    let (_, b₁, e₁, h₁) = >>-ok _ _ b₀ h₀ in
    let (_, b₂, e₂, h₂) = >>-ok _ _ b₁ h₁ in
    let (from, b₃, e₃, h₃) = >>=-ok _ _ b₂ h₂ in
    let (to, b₄, e₄, h₄) = >>=-ok _ _ b₃ h₃ in
    let (_, b₅, e₅, h₅) = >>-ok _ _ b₄ h₄ in
    let r₀ = Reads-to (resolve_settlement env dto) b (resolve_settlement-Reads env dto b) e₀ in
    let (valid, r₁) = throw_if-ok _ _ b₀ e₁ in
    let r₂ = Reads-to (wire_gate dto) b₁ (wire_gate-Reads dto b₁) e₂ in
    let (found, mine, works) = load_source-ok user dto.from_account_id b₂ e₃ in
    let r₃ =
      Reads-to (load_source user dto.from_account_id) b₂
        (load_source-Reads user dto.from_account_id b₂) e₃ in
    let passes = wire_gate-ok dto b₁ e₂ in
    let goes = load_destination-ok user dto b₃ e₄ in
    let amount = resolve_settlement-ok env dto b e₀ in
    let same₃ : b₃ ≡ b = r₃ ∙ r₂ ∙ r₁ ∙ r₀ in
    let (enough, _) = throw_if-ok _ _ b₄ e₅ in
    let same : b₂ ≡ b = r₂ ∙ r₁ ∙ r₀ in
    let found_b : account_of dto.from_account_id b ≡ some from = rw same at found in
    (
      ground (arith, h, prepare-Reads env user dto b),
      record {
        amount = SettlesAt-as env dto settlement plan.settlement_cents amount (ground (arith, h₅));
        gate = rw (r₁ ∙ r₀) at passes;
        active_source = ground (arith, works, h₅);
        goes_to = GoesTo-as user dto to plan.to_account b₃ b goes (ground (arith, h₅)) same₃;
        source = ground (arith, found_b, h₅);
        source_id =
            ground (arith, h₅, find-key account_key dto.from_account_id b.accounts from found_b);
        owner = ground (arith, mine, h₅);
        funded = ground (arith, enough, h₅);
        valid = ground (arith, valid, h₅);
        fee = ground (arith, h₅);
      },
    )
