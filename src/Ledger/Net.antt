-- ===== src/Ledger/Net.antt =====
-- What the operations of the ledger service change, and the net amount posted to a code.
use meal.Prelude.{ℕ, ◌≡◌, true, inl, inr, Option-cases, List, [], ◌∷◌, arith, if◌then◌else◌}
use meal.Prelude.Int.{ℤ, pos, ◌+ℤ◌, ◌-ℤ◌, eqb_ℤ}
use meal.Bank.{Bank, LedgerCode, JournalEntry, PostingDirection, Posting, debit, credit, code_eq}
use meal.Bank.Action.{ok, >>-ok, throw_if-ok}
use meal.Ledger.{
  PostingInput, JournalInput, sum_side, journal_entry, ensure_account_ledger, ensure_code,
  create_missing, post, missing_account,
}

-- A credit counts up and a debit down, as on the bank's liabilities.
abbrev pub signed : PostingDirection → ℤ → ℤ
signed debit x = pos 0 -ℤ x
signed credit x = x

abbrev pub net : LedgerCode → List Posting → ℤ
net c [] = pos 0
net c (p ∷ ps) =
    if code_eq p.code c then signed p.direction p.amount_cents +ℤ net c ps else net c ps

abbrev pub journal_net : LedgerCode → List JournalEntry → ℤ
journal_net c [] = pos 0
journal_net c (e ∷ es) = net c e.postings +ℤ journal_net c es

-- Nothing but the ledger's accounts differs.
abbrev pub OnlyLedgerAccounts : Bank → Bank → Type 0
OnlyLedgerAccounts b b' = b' ≡ record b { ledger_accounts = b'.ledger_accounts }

pub ensure_account_ledger-only :
    (account owner : ℕ) (b : Bank) {u : Unit} {b' : Bank}
    → ensure_account_ledger account owner b ≡ (ok u, b')
    → OnlyLedgerAccounts b b'
unfolding ensure_account_ledger
ensure_account_ledger-only account owner b h = ground arith

ensure_code-only :
    (p : PostingInput) (b : Bank) {u : Unit} {b' : Bank}
    → ensure_code p b ≡ (ok u, b')
    → OnlyLedgerAccounts b b'
unfolding ensure_code
ensure_code-only p b h = elim (Option-cases (missing_account p.code p.meta)) [
  | inl e ↦ ground arith
  | inr (l, e) ↦ ground arith
]

pub create_missing-only :
    (ps : List PostingInput) (b : Bank) {u : Unit} {b' : Bank}
    → create_missing ps b ≡ (ok u, b')
    → OnlyLedgerAccounts b b'
unfolding create_missing
create_missing-only [] b h = ground arith
create_missing-only (p ∷ ps) b h =
    let (v, b₁, e, h₁) = >>-ok _ _ b h in
    ground (arith, ensure_code-only p b e, create_missing-only ps b₁ h₁)

-- A posting that goes through adds the entry, and perhaps accounts, and changes nothing else.
pub post-ok :
    (input : JournalInput) (b : Bank) {u : Unit} {b' : Bank}
    → post input b ≡ (ok u, b')
    → (b' ≡ record b {
      ledger_accounts = b'.ledger_accounts;
      journal = journal_entry input ∷ b.journal;
    })
      × (eqb_ℤ (sum_side debit (pos 0) input.postings) (sum_side credit (pos 0) input.postings)
          ≡ true)
unfolding post
post-ok input b h =
    let (_, b₁, e₁, h₁) = >>-ok _ _ b h in
    let (_, b₂, e₂, h₂) = >>-ok _ _ b₁ h₁ in
    let (_, b₃, e₃, h₃) = >>-ok _ _ b₂ h₂ in
    ground (
      arith,
      throw_if-ok _ _ b e₁,
      throw_if-ok _ _ b₁ e₂,
      create_missing-only input.postings b₂ e₃,
      h₃,
    )
