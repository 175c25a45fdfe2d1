-- ===== src/Examples/Beneficiaries.antt =====
-- An approved wire destination that is added, changed and removed.
use meal.Prelude.{◌≡◌, refl, true, false, some}
use meal.Bank.{Bank, WireType}
use meal.Bank.Action.{err, iban_invalid, beneficiary_missing, ◌>>=◌, ◌>>◌}
use meal.Transfers.Initiate.{is_approved}
use meal.Admin.Wires.Beneficiaries.{
  BeneficiaryInput, validate_shape, create_beneficiary, update_beneficiary, delete_beneficiary,
}
use meal.Examples.Data.{bank}

abbrev supplier : BeneficiaryInput
supplier = record {
  wire_type = WireType.local;
  iban = some 900;
  iban_is_bahraini = true;
  swift_is_valid = false;
  country_given = false;
}

abbrev abroad : BeneficiaryInput
abroad = record {
  wire_type = WireType.local;
  iban = some 901;
  iban_is_bahraini = false;
  swift_is_valid = true;
  country_given = true;
}

abbrev added : Bank
added = (create_beneficiary 500 supplier bank).1

abbrev removed : Bank
removed = (delete_beneficiary 500 added).1

supplier_added :
    (is_approved 900 bank.beneficiaries ≡ false) × (is_approved 900 added.beneficiaries ≡ true)
unfolding ◌>>=◌ ◌>>◌ create_beneficiary validate_shape
supplier_added = (refl, refl)

foreign_iban_refused : update_beneficiary 500 abroad added ≡ (err iban_invalid, added)
unfolding ◌>>=◌ ◌>>◌ create_beneficiary update_beneficiary validate_shape
foreign_iban_refused = refl

supplier_removed : is_approved 900 removed.beneficiaries ≡ false
unfolding ◌>>=◌ ◌>>◌ create_beneficiary delete_beneficiary validate_shape
supplier_removed = refl

removed_not_changed : update_beneficiary 500 supplier removed ≡ (err beneficiary_missing, removed)
unfolding ◌>>=◌ ◌>>◌ create_beneficiary update_beneficiary delete_beneficiary validate_shape
removed_not_changed = refl
