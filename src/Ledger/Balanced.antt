-- ===== src/Ledger/Balanced.antt =====
-- The nightly trial balance of trial-balance.service.ts over a valid ledger.
use meal.Prelude.{◌≡◌, true, false, inl, inr, Bool-cases, List, [], ◌∷◌, map, arith}
use meal.Prelude.Int.{ℤ, pos, ◌+ℤ◌, ◌-ℤ◌, int_laws}
use meal.Bank.{Bank, LedgerCode, LedgerAccount, JournalEntry, Posting, debit, credit, code_eq}
use meal.Ledger.{has_code, side_of_entry, side_of, trial_balance_row, add_rows, compute_and_report}
use meal.Ledger.Net.{signed, net, journal_net}
use meal.Ledger.Validity.{
  DistinctCodes, Known, entry_total, SoundEntries, IsLedger, eq_of_code_eq, code_eq_sym,
}

-- The net amount over all the accounts of a list.
total_net : List LedgerAccount → List Posting → ℤ
total_net [] ps = pos 0
total_net (l ∷ ls) ps = net l.code ps +ℤ total_net ls ps

total_journal_net : List LedgerAccount → List JournalEntry → ℤ
total_journal_net [] es = pos 0
total_journal_net (l ∷ ls) es = journal_net l.code es +ℤ total_journal_net ls es

side_of_entry-net :
    (c : LedgerCode) (ps : List Posting)
    → side_of_entry credit c ps -ℤ side_of_entry debit c ps ≡ net c ps
side_of_entry-net c [] = omega int_laws
side_of_entry-net c (p ∷ ps) = grind (int_laws, side_of_entry-net c ps)

side_of-net :
    (c : LedgerCode) (es : List JournalEntry)
    → side_of credit c es -ℤ side_of debit c es ≡ journal_net c es
side_of-net c [] = omega int_laws
side_of-net c (e ∷ es) = grind (int_laws, side_of_entry-net c e.postings, side_of-net c es)

add_rows-net :
    (ls : List LedgerAccount) (es : List JournalEntry) (x y : ℤ)
    → let (debits, credits) = add_rows x y (map (trial_balance_row es) ls) in
      credits -ℤ debits ≡ y -ℤ x +ℤ total_journal_net ls es
unfolding total_journal_net
add_rows-net [] es x y = omega int_laws
add_rows-net (l ∷ ls) es x y = grind (
  int_laws,
  add_rows-net ls es (x +ℤ side_of debit l.code es) (y +ℤ side_of credit l.code es),
  side_of-net l.code es,
)

total_net-nil : (ls : List LedgerAccount) → total_net ls [] ≡ pos 0
unfolding total_net
total_net-nil [] = omega int_laws
total_net-nil (l ∷ ls) = grind (int_laws, total_net-nil ls)

-- A posting on a code that no account of the list has does not count.
total_net-unknown :
    (ls : List LedgerAccount) (p : Posting) (ps : List Posting)
    → has_code p.code ls ≡ false
    → total_net ls (p ∷ ps) ≡ total_net ls ps
unfolding total_net
total_net-unknown [] p ps h = omega int_laws
total_net-unknown (l ∷ ls) p ps h =
    grind (int_laws, total_net-unknown ls p ps, code_eq_sym l.code p.code)

-- One on a known code counts once.
total_net-known :
    (ls : List LedgerAccount) (p : Posting) (ps : List Posting)
    → DistinctCodes ls
    → has_code p.code ls ≡ true
    → total_net ls (p ∷ ps) ≡ signed p.direction p.amount_cents +ℤ total_net ls ps
unfolding total_net
total_net-known [] p ps d h = ground arith
total_net-known (l ∷ ls) p ps d h = elim (Bool-cases (code_eq l.code p.code)) [
  | inl same ↦
      let e = eq_of_code_eq l.code p.code same in
      grind (int_laws, total_net-unknown ls p ps, code_eq_sym l.code p.code, e, d.0)
  | inr other ↦ grind (int_laws, total_net-known ls p ps d.1, code_eq_sym l.code p.code)
]

total_net-entry :
    (ls : List LedgerAccount) (ps : List Posting)
    → DistinctCodes ls
    → Known ls ps
    → total_net ls ps ≡ entry_total ps
total_net-entry ls [] d k = total_net-nil ls
total_net-entry ls (p ∷ ps) d k =
    grind (int_laws, total_net-known ls p ps d k.0, total_net-entry ls ps d k.1)

total_journal_net-cons :
    (ls : List LedgerAccount) (e : JournalEntry) (es : List JournalEntry)
    → total_journal_net ls (e ∷ es) ≡ total_net ls e.postings +ℤ total_journal_net ls es
unfolding total_net total_journal_net
total_journal_net-cons [] e es = omega int_laws
total_journal_net-cons (l ∷ ls) e es = grind (int_laws, total_journal_net-cons ls e es)

total_journal_net-nil : (ls : List LedgerAccount) → total_journal_net ls [] ≡ pos 0
unfolding total_journal_net
total_journal_net-nil [] = omega int_laws
total_journal_net-nil (l ∷ ls) = grind (int_laws, total_journal_net-nil ls)

total_journal_net-zero :
    (ls : List LedgerAccount) (es : List JournalEntry)
    → DistinctCodes ls
    → SoundEntries ls es
    → total_journal_net ls es ≡ pos 0
total_journal_net-zero ls [] d s = total_journal_net-nil ls
total_journal_net-zero ls (e ∷ es) d s = grind (
  int_laws,
  total_journal_net-cons ls e es,
  total_net-entry ls e.postings d s.0,
  s.1,
  total_journal_net-zero ls es d s.2,
)

delta-zero :
    (b : Bank)
    → IsLedger b
    → let (debits, credits) =
        add_rows (pos 0) (pos 0) (map (trial_balance_row b.journal) b.ledger_accounts) in
      debits -ℤ credits ≡ pos 0
delta-zero b v = grind (
  int_laws,
  add_rows-net b.ledger_accounts b.journal (pos 0) (pos 0),
  total_journal_net-zero b.ledger_accounts b.journal v.distinct v.entries,
)

-- Over a valid ledger the trial balance reports a delta of 0, and says that the books balance.
pub compute_and_report-balanced :
    (b : Bank)
    → IsLedger b
    → ((compute_and_report b).delta ≡ pos 0) × ((compute_and_report b).balanced ≡ true)
unfolding compute_and_report
compute_and_report-balanced b v = let delta = delta-zero b v in (delta, rw delta)
