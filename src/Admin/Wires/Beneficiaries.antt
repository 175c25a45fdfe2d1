-- ===== src/Admin/Wires/Beneficiaries.antt =====
-- The list of approved wire destinations: AdminWiresService.createBeneficiary, updateBeneficiary and
-- deleteBeneficiary (admin/wires/admin-wires.service.ts).
use meal.Prelude.{ℕ, ◌≡◌, Bool, true, false, not, ◌&&◌, Option, none, some, ◌∷◌, arith}
use meal.Prelude.Table.{find, modify}
use meal.Bank.{Bank, WireType, WireBeneficiary}
use meal.Bank.Action.{
  Action, pure, gets, or_throw, throw_if, modify_bank, ok, ◌>>=◌, ◌>>◌, iban_invalid, swift_invalid,
  iban_required, country_required, beneficiary_missing,
}
use meal.Transfers.Initiate.{is_approved}

-- `iban` is the IBAN trimmed, in capitals and without spaces, if anything is left of it; the flags say
-- whether it is a Bahraini one and whether the SWIFT code is one, by the patterns of validateShape.
pub record BeneficiaryInput : Type 0 where
  pub wire_type : WireType
  pub iban : Option ℕ
  pub iban_is_bahraini : Bool
  pub swift_is_valid : Bool
  pub country_given : Bool

abbrev iban_given : Option ℕ → Bool
iban_given none = false
iban_given (some i) = true

-- `validateShape`, with the IBAN that it lets through.
unfoldable pub validate_shape : BeneficiaryInput → Action ℕ
validate_shape dto = elim dto.wire_type [
  | WireType.local ↦ do
    throw_if (not (iban_given dto.iban && dto.iban_is_bahraini)) iban_invalid
    or_throw dto.iban iban_invalid
  | WireType.international ↦ do
    throw_if (not dto.swift_is_valid) swift_invalid
    iban ← or_throw dto.iban iban_required
    throw_if (not dto.country_given) country_required
    pure iban
]

abbrev pub beneficiary_key : WireBeneficiary → ℕ
beneficiary_key w = w.id

abbrev pub beneficiary_of : ℕ → Bank → Option WireBeneficiary
beneficiary_of k b = find beneficiary_key k b.beneficiaries

abbrev pub add_beneficiary : WireBeneficiary → Bank → Bank
add_beneficiary w b = record b { beneficiaries = w ∷ b.beneficiaries }

abbrev pub change_beneficiary : ℕ → (WireBeneficiary → WireBeneficiary) → Bank → Bank
change_beneficiary k f b = record b { beneficiaries = modify beneficiary_key k f b.beneficiaries }

-- With the id that is drawn for the row.
unfoldable pub create_beneficiary : ℕ → BeneficiaryInput → Action Unit
create_beneficiary k dto = do
  iban ← validate_shape dto
  modify_bank (
      add_beneficiary (record { id = k; wire_type = dto.wire_type; iban = iban; archived = false }))

abbrev pub with_shape : WireType → ℕ → WireBeneficiary → WireBeneficiary
with_shape wire_type iban w = record w { wire_type = wire_type; iban = iban }

unfoldable pub update_beneficiary : ℕ → BeneficiaryInput → Action Unit
update_beneficiary k dto = do
  iban ← validate_shape dto
  w ← or_throw (← gets (beneficiary_of k)) beneficiary_missing
  throw_if w.archived beneficiary_missing
  modify_bank (change_beneficiary k (with_shape dto.wire_type iban))

abbrev pub archived_row : WireBeneficiary → WireBeneficiary
archived_row w = record w { archived = true }

unfoldable pub delete_beneficiary : ℕ → Action Unit
delete_beneficiary k = do
  w ← or_throw (← gets (beneficiary_of k)) beneficiary_missing
  modify_bank (change_beneficiary k archived_row)

-- A local beneficiary that was created is one to which a local wire may go.
create_beneficiary-is_approved :
    (k i : ℕ) (dto : BeneficiaryInput) (b : Bank) {b' : Bank}
    → dto.wire_type ≡ WireType.local
    → dto.iban ≡ some i
    → create_beneficiary k dto b ≡ (ok tt, b')
    → is_approved i b'.beneficiaries ≡ true
unfolding create_beneficiary validate_shape ◌>>=◌ ◌>>◌
create_beneficiary-is_approved k i dto b is_local given h = ground (arith, is_local, given, h)
