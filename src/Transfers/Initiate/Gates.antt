-- ===== src/Transfers/Initiate/Gates.antt =====
-- What a request has passed, check by check.
use meal.Prelude.{
  ℕ, ◌≡◌, ◌≢◌, ◌⊎◌, inl, inr, refl, true, false, not, ◌&&◌, Option, none, some, arith,
  if◌then◌else◌, Option-cases,
}
use meal.Prelude.Int.{ℤ}
use meal.Bank.{
  Bank, Account, TransferKind, WireType, internal, ach_in, ach_out, wire_in, wire_out, p2p,
}
use meal.Bank.Action.{
  ok, >>=-ok, >>-ok, throw_if, throw_if-ok, or_throw-ok, wire_details_incomplete,
}
use meal.Bank.Balance.{account_of}
use meal.Quote.{is_wire_out}
use meal.Transfers.Requests.{WireDetails, InitiateTransfer, Env}
use meal.Transfers.Initiate.{
  is_internal, is_local, is_approved, resolve_settlement, local_gate, wire_gate, load_own,
  load_destination,
}

-- An outbound wire names its details: a local one the IBAN of an approved beneficiary, an international
-- one a SWIFT code and an IBAN.
abbrev pub PassesDetails : WireDetails → Bank → Type 0
PassesDetails w b =
    ((w.wire_type ≡ WireType.local)
      × ((iban : ℕ) × (w.iban ≡ some iban) × (is_approved iban b.beneficiaries ≡ true)))
    ⊎ ((w.wire_type ≡ WireType.international) × (w.swift_given ≡ true) × (w.iban_given ≡ true))

abbrev pub PassesGate : InitiateTransfer → Bank → Type 0
PassesGate dto b =
    (dto.kind ≢ wire_out) ⊎ ((w : WireDetails) × (dto.wire_details ≡ some w) × PassesDetails w b)

-- An internal transfer goes to an account of the same user; any other one has no account looked up.
abbrev pub GoesTo : ℕ → InitiateTransfer → Option Account → Bank → Type 0
GoesTo user dto to b =
    ((dto.kind ≢ internal) × (to ≡ none))
    ⊎ ((dto.kind ≡ internal)
        × ((k : ℕ) × (a : Account) × (dto.to_account_id ≡ some k)
            × (account_of k b ≡ some a)
            × (a.user_id ≡ user)
            × (to ≡ some a)))

-- The amount asked for, or, for a wire that names a send amount and its currency, what that converts to.
abbrev pub SettlesAt : Env → InitiateTransfer → ℤ → Type 0
SettlesAt env dto amount =
    (amount ≡ dto.amount_cents)
    ⊎ ((dto.kind ≡ wire_out)
        × ((x : ℤ) × (c : ℕ) × (dto.send_amount_minor ≡ some x)
            × (dto.send_currency ≡ some c)
            × (env.convert x c ≡ some amount)))

wire_out-cases :
    (k : TransferKind)
    → ((k ≡ wire_out) × (is_wire_out k ≡ true)) ⊎ ((k ≢ wire_out) × (is_wire_out k ≡ false))
wire_out-cases wire_out = inl (refl, refl)
wire_out-cases internal = inr ((λ e. ground (arith, e)), refl)
wire_out-cases ach_in = inr ((λ e. ground (arith, e)), refl)
wire_out-cases ach_out = inr ((λ e. ground (arith, e)), refl)
wire_out-cases wire_in = inr ((λ e. ground (arith, e)), refl)
wire_out-cases p2p = inr ((λ e. ground (arith, e)), refl)

internal-cases :
    (k : TransferKind)
    → ((k ≡ internal) × (is_internal k ≡ true)) ⊎ ((k ≢ internal) × (is_internal k ≡ false))
internal-cases internal = inl (refl, refl)
internal-cases wire_out = inr ((λ e. ground (arith, e)), refl)
internal-cases ach_in = inr ((λ e. ground (arith, e)), refl)
internal-cases ach_out = inr ((λ e. ground (arith, e)), refl)
internal-cases wire_in = inr ((λ e. ground (arith, e)), refl)
internal-cases p2p = inr ((λ e. ground (arith, e)), refl)

type-cases :
    (t : WireType)
    → ((t ≡ WireType.local) × (is_local t ≡ true))
      ⊎ ((t ≡ WireType.international) × (is_local t ≡ false))
type-cases WireType.local = inl (refl, refl)
type-cases WireType.international = inr (refl, refl)

pub resolve_settlement-ok :
    (env : Env) (dto : InitiateTransfer) (b : Bank) {x : ℤ} {b' : Bank}
    → resolve_settlement env dto b ≡ (ok x, b')
    → SettlesAt env dto x
unfolding resolve_settlement
resolve_settlement-ok env dto b h = elim (wire_out-cases dto.kind) [
  | inr (other, e) ↦ inl (ground (arith, h, e))
  | inl (wire, e) ↦ elim (Option-cases dto.send_currency) [
    | inl none_named ↦ inl (ground (arith, h, e, none_named))
    | inr (c, named) ↦ elim (Option-cases dto.send_amount_minor) [
      | inl no_amount ↦ inl (ground (arith, h, e, named, no_amount))
      | inr (x, given) ↦ inr (
        wire,
        (x, c, given, named, ground (arith, h, e, named, given, Option-cases (env.convert x c))),
      )
    ]
  ]
]

local_gate-ok :
    (o : Option ℕ) (b : Bank) {u : Unit} {b' : Bank}
    → local_gate o b ≡ (ok u, b')
    → (iban : ℕ) × (o ≡ some iban) × (is_approved iban b.beneficiaries ≡ true)
unfolding local_gate
local_gate-ok none b h = ground (arith, h)
local_gate-ok (some iban) b h = (iban, refl, ground (arith, h))

wire_details-ok :
    (w : WireDetails) (b : Bank) {u : Unit} {b' : Bank}
    → (if is_local w.wire_type
        then local_gate w.iban b
        else throw_if (not (w.swift_given && w.iban_given)) wire_details_incomplete b)
      ≡ (ok u, b')
    → PassesDetails w b
wire_details-ok w b {u = u} {b' = b'} h = elim (type-cases w.wire_type) [
  | inl (local, e) ↦ inl (local, local_gate-ok w.iban b {u = u} {b' = b'} (ground (arith, h, e)))
  | inr (abroad, e) ↦ inr (abroad, ground (arith, h, e), ground (arith, h, e))
]

pub wire_gate-ok :
    (dto : InitiateTransfer) (b : Bank) {u : Unit} {b' : Bank}
    → wire_gate dto b ≡ (ok u, b')
    → PassesGate dto b
unfolding wire_gate local_gate
wire_gate-ok dto b {u = u} {b' = b'} h = elim (wire_out-cases dto.kind) [
  | inr (other, e) ↦ inl other
  | inl (wire, e) ↦ elim (Option-cases dto.wire_details) [
    | inl missing ↦ ground (arith, h, e, missing)
    | inr (w, given) ↦
        inr (w, given, wire_details-ok w b {u = u} {b' = b'} (ground (arith, h, e, given)))
  ]
]

load_own-ok :
    (user : ℕ) (o : Option ℕ) (b : Bank) {to : Option Account} {b' : Bank}
    → load_own user o b ≡ (ok to, b')
    → (k : ℕ) × (a : Account) × (o ≡ some k)
      × (account_of k b ≡ some a)
      × (a.user_id ≡ user)
      × (to ≡ some a)
unfolding load_own
load_own-ok user o b h =
    let (k, b₁, e₁, h₁) = >>=-ok _ _ b h in
    let (found, b₂, e₂, h₂) = >>=-ok _ _ b₁ h₁ in
    let (a, b₃, e₃, h₃) = >>=-ok _ _ b₂ h₂ in
    let (_, b₄, e₄, h₄) = >>-ok _ _ b₃ h₃ in
    let (given, same) = or_throw-ok _ _ b e₁ in
    let (there, _) = or_throw-ok _ _ b₂ e₃ in
    let (mine, _) = throw_if-ok _ _ b₃ e₄ in
    (k, a, given, ground (arith, e₂, there, same), ground (arith, mine), ground (arith, h₄))

pub load_destination-ok :
    (user : ℕ) (dto : InitiateTransfer) (b : Bank) {to : Option Account} {b' : Bank}
    → load_destination user dto b ≡ (ok to, b')
    → GoesTo user dto to b
unfolding load_destination
load_destination-ok user dto b {to = to} {b' = b'} h = elim (internal-cases dto.kind) [
  | inr (other, e) ↦ inl (other, ground (arith, h, e))
  | inl (own, e) ↦
      inr (own, load_own-ok user dto.to_account_id b {to = to} {b' = b'} (ground (arith, h, e)))
]
