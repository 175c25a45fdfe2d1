-- ===== src/Ledger.antt =====
-- ledger.service.ts, chart-of-accounts.ts and trial-balance.service.ts: double-entry postings.
pub mod Net
pub mod Validity
pub mod Drift
pub mod Balanced
use meal.Prelude.{
  ℕ, suc, ◌≡◌, Bool, true, false, not, ◌||◌, Option, none, some, List, [], ◌∷◌, map, length, ltb,
  if◌then◌else◌,
}
use meal.Prelude.Int.{ℤ, pos, ◌+ℤ◌, ◌-ℤ◌, eqb_ℤ}
use meal.Bank.{
  Bank, LedgerCode, LedgerAccount, LedgerAccountType, PostingDirection, Posting, Source,
  JournalEntry, code_eq, debit, credit, cash, pending_out, pending_in, fee_revenue,
  interest_expense, sub_ledger, asset, liability, revenue, expense,
}
use meal.Bank.Action.{
  Action, ok, err, pure, throw_if, modify_bank, ◌>>=◌, ◌>>◌, too_few_postings, unbalanced_journal,
  unknown_ledger_account,
}

pub record PostingMeta : Type 0 where
  pub owner_user_id : Option ℕ
  pub ledger_type : Option LedgerAccountType
  pub normal_balance : Option PostingDirection

pub record PostingInput : Type 0 where
  pub code : LedgerCode
  pub direction : PostingDirection
  pub amount_cents : ℤ
  pub meta : Option PostingMeta

pub record JournalInput : Type 0 where
  pub source : Source
  pub reference_id : ℕ
  pub occurred_at : ℕ
  pub postings : List PostingInput

abbrev pub system_ledger_seeds : List LedgerAccount
system_ledger_seeds =
    record { code = cash; ledger_type = asset; normal_balance = debit; owner_user_id = none }
    ∷ record {
      code = pending_out;
      ledger_type = liability;
      normal_balance = credit;
      owner_user_id = none;
    }
    ∷ record {
      code = pending_in;
      ledger_type = asset;
      normal_balance = debit;
      owner_user_id = none;
    }
    ∷ record {
      code = fee_revenue;
      ledger_type = revenue;
      normal_balance = credit;
      owner_user_id = none;
    }
    ∷ record {
      code = interest_expense;
      ledger_type = expense;
      normal_balance = debit;
      owner_user_id = none;
    }
    ∷ []

abbrev pub has_code : LedgerCode → List LedgerAccount → Bool
has_code c [] = false
has_code c (l ∷ ls) = code_eq l.code c || has_code c ls

-- `ledgerAccount.upsert` with an empty update.
abbrev pub upsert : LedgerAccount → Bank → Bank
upsert l b =
    if has_code l.code b.ledger_accounts
    then b
    else record b { ledger_accounts = l ∷ b.ledger_accounts }

unfoldable pub ensure_system_accounts : List LedgerAccount → Action Unit
ensure_system_accounts [] = pure tt
ensure_system_accounts (seed ∷ seeds) = do modify_bank (upsert seed); ensure_system_accounts seeds

abbrev pub account_ledger : ℕ → ℕ → LedgerAccount
account_ledger account owner = record {
  code = sub_ledger account;
  ledger_type = liability;
  normal_balance = credit;
  owner_user_id = some owner;
}

unfoldable pub ensure_account_ledger : ℕ → ℕ → Action Unit
ensure_account_ledger account owner = modify_bank (upsert (account_ledger account owner))

abbrev pub direction_eq : PostingDirection → PostingDirection → Bool
direction_eq debit debit = true
direction_eq credit credit = true
direction_eq _ _ = false

-- `postings.filter((p) => p.direction === d).reduce((a, p) => a + p.amountCents, acc)`
abbrev pub sum_side : PostingDirection → ℤ → List PostingInput → ℤ
sum_side d acc [] = acc
sum_side d acc (p ∷ ps) =
    sum_side d (if direction_eq p.direction d then acc +ℤ p.amount_cents else acc) ps

-- The row that `post` creates for an unknown code, if the posting says enough to do so.
abbrev pub missing_account : LedgerCode → Option PostingMeta → Option LedgerAccount
missing_account c none = none
missing_account c (some m) = elim m.ledger_type [
  | none ↦ none
  | some t ↦ elim m.normal_balance [
    | none ↦ none
    | some n ↦
        some (record {
          code = c;
          ledger_type = t;
          normal_balance = n;
          owner_user_id = m.owner_user_id;
        })
  ]
]

-- One round of the loop over the postings: the account of a code that is not there is created.
unfoldable pub ensure_code : PostingInput → Action Unit
ensure_code p b =
    if has_code p.code b.ledger_accounts then (ok tt, b) else elim (missing_account p.code p.meta) [
      | none ↦ (err unknown_ledger_account, b)
      | some l ↦ (ok tt, record b { ledger_accounts = l ∷ b.ledger_accounts })
    ]

unfoldable pub create_missing : List PostingInput → Action Unit
create_missing [] = pure tt
create_missing (p ∷ ps) = do ensure_code p; create_missing ps

abbrev pub posting_row : PostingInput → Posting
posting_row p = record { code = p.code; direction = p.direction; amount_cents = p.amount_cents }

abbrev pub journal_entry : JournalInput → JournalEntry
journal_entry input = record {
  source = input.source;
  reference_id = input.reference_id;
  occurred_at = input.occurred_at;
  postings = map posting_row input.postings;
}

abbrev pub add_entry : JournalInput → Bank → Bank
add_entry input b = record b { journal = journal_entry input ∷ b.journal }

unfoldable pub post : JournalInput → Action Unit
unfolding create_missing
post input = do
  throw_if (ltb (length input.postings) 2) too_few_postings
  throw_if
      (not (eqb_ℤ (sum_side debit (pos 0) input.postings) (sum_side credit (pos 0) input.postings)))
      unbalanced_journal
  create_missing input.postings
  modify_bank (add_entry input)

-- `SUM(CASE WHEN p.direction = d THEN p."amountCents" ELSE 0 END)` over the postings of one code.
abbrev pub side_of_entry : PostingDirection → LedgerCode → List Posting → ℤ
side_of_entry d c [] = pos 0
side_of_entry d c (p ∷ ps) =
    if code_eq p.code c
    then (if direction_eq p.direction d then p.amount_cents else pos 0) +ℤ side_of_entry d c ps
    else side_of_entry d c ps

abbrev pub side_of : PostingDirection → LedgerCode → List JournalEntry → ℤ
side_of d c [] = pos 0
side_of d c (e ∷ es) = side_of_entry d c e.postings +ℤ side_of d c es

pub record TrialBalanceRow : Type 0 where
  pub code : LedgerCode
  pub ledger_type : LedgerAccountType
  pub debits : ℤ
  pub credits : ℤ

abbrev pub trial_balance_row : List JournalEntry → LedgerAccount → TrialBalanceRow
trial_balance_row js l = record {
  code = l.code;
  ledger_type = l.ledger_type;
  debits = side_of debit l.code js;
  credits = side_of credit l.code js;
}

abbrev pub add_rows : ℤ → ℤ → List TrialBalanceRow → ℤ × ℤ
add_rows debits credits [] = (debits, credits)
add_rows debits credits (r ∷ rs) = add_rows (debits +ℤ r.debits) (credits +ℤ r.credits) rs

pub record TrialBalance : Type 0 where
  pub balanced : Bool
  pub delta : ℤ
  pub rows : List TrialBalanceRow

unfoldable pub compute_and_report : Bank → TrialBalance
compute_and_report b =
    let rows = map (trial_balance_row b.journal) b.ledger_accounts in
    let (debits, credits) = add_rows (pos 0) (pos 0) rows in
    record { balanced = eqb_ℤ (debits -ℤ credits) (pos 0); delta = debits -ℤ credits; rows = rows }
