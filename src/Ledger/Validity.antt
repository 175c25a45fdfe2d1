-- ===== src/Ledger/Validity.antt =====
-- The invariant of the ledger: no code twice, every posting on a known code, every entry balanced.
use meal.Prelude.{
  ℕ, ◌≡◌, true, false, inl, inr, Option-cases, Option, some, List, [], ◌∷◌, map, All, arith,
}
use meal.Prelude.Int.{ℤ, pos, ◌+ℤ◌, ◌-ℤ◌, eqb_ℤ, int_laws}
use meal.Bank.{Bank, LedgerCode, LedgerAccount, JournalEntry, Posting, debit, credit, code_eq}
use meal.Bank.Action.{ok, >>-ok, throw_if-ok}
use meal.Ledger.{
  PostingInput, PostingMeta, JournalInput, has_code, sum_side, posting_row, ensure_account_ledger,
  ensure_code, create_missing, post, missing_account, add_entry,
}
use meal.Ledger.Net.{signed, post-ok, create_missing-only, ensure_account_ledger-only}

abbrev pub DistinctCodes : List LedgerAccount → Type 0
DistinctCodes [] = Unit
DistinctCodes (l ∷ ls) = (has_code l.code ls ≡ false) × DistinctCodes ls

abbrev pub entry_total : List Posting → ℤ
entry_total [] = pos 0
entry_total (p ∷ ps) = signed p.direction p.amount_cents +ℤ entry_total ps

abbrev pub Known : List LedgerAccount → List Posting → Type 0
Known ls = All (λ p. has_code p.code ls ≡ true)

-- Every entry is balanced, on known codes.
abbrev pub SoundEntries : List LedgerAccount → List JournalEntry → Type 0
SoundEntries ls [] = Unit
SoundEntries ls (e ∷ es) =
    Known ls e.postings × (entry_total e.postings ≡ pos 0) × SoundEntries ls es

pub record IsLedger (b : Bank) : Type 0 where
  pub distinct : DistinctCodes b.ledger_accounts
  pub entries : SoundEntries b.ledger_accounts b.journal

pub code_eq_refl : (c : LedgerCode) → code_eq c c ≡ true
code_eq_refl c = ground arith

pub eq_of_code_eq : (c d : LedgerCode) → code_eq c d ≡ true → c ≡ d
eq_of_code_eq c d h = ground arith

pub code_eq_sym : (c d : LedgerCode) → code_eq c d ≡ code_eq d c
code_eq_sym c d = ground arith

-- A list of accounts that has every code of another one.
abbrev Extends : List LedgerAccount → List LedgerAccount → Type 0
Extends ls ms = (c : LedgerCode) → has_code c ls ≡ true → has_code c ms ≡ true

Known-mono :
    (ls ms : List LedgerAccount) (ps : List Posting) → Extends ls ms → Known ls ps → Known ms ps
Known-mono ls ms [] x h = tt
Known-mono ls ms (p ∷ ps) x h = (x p.code h.0, Known-mono ls ms ps x h.1)

SoundEntries-mono :
    (ls ms : List LedgerAccount) (es : List JournalEntry)
    → Extends ls ms
    → SoundEntries ls es
    → SoundEntries ms es
SoundEntries-mono ls ms [] x h = tt
SoundEntries-mono ls ms (e ∷ es) x h =
    (Known-mono ls ms e.postings x h.0, h.1, SoundEntries-mono ls ms es x h.2)

-- What creating accounts does to the list of them.
abbrev Grows : Bank → Bank → Type 0
Grows b b' =
    (DistinctCodes b.ledger_accounts → DistinctCodes b'.ledger_accounts)
    × Extends b.ledger_accounts b'.ledger_accounts

Grows-IsLedger : (b b' : Bank) → Grows b b' → b'.journal ≡ b.journal → IsLedger b → IsLedger b'
Grows-IsLedger b b' g e h = record {
  distinct = g.0 h.distinct;
  entries = rw e (SoundEntries-mono b.ledger_accounts b'.ledger_accounts b.journal g.1 h.entries);
}

missing_account-code :
    (c : LedgerCode) (m : Option PostingMeta) {l : LedgerAccount}
    → missing_account c m ≡ some l
    → l.code ≡ c
missing_account-code c m h = ground arith

ensure_account_ledger-Grows :
    (account owner : ℕ) (b : Bank) {u : Unit} {b' : Bank}
    → ensure_account_ledger account owner b ≡ (ok u, b')
    → Grows b b'
unfolding ensure_account_ledger
ensure_account_ledger-Grows account owner b h = (ground arith, λ c k. ground arith)

ensure_code-Grows :
    (p : PostingInput) (b : Bank) {u : Unit} {b' : Bank}
    → ensure_code p b ≡ (ok u, b')
    → Grows b b' × (has_code p.code b'.ledger_accounts ≡ true)
unfolding ensure_code
ensure_code-Grows p b h = elim (Option-cases (missing_account p.code p.meta)) [
  | inl e ↦ ((ground arith, λ c k. ground arith), ground arith)
  | inr (l, e) ↦
      let found = missing_account-code p.code p.meta e in
      ((ground (arith, found), λ c k. ground arith), ground (arith, found, code_eq_refl p.code))
]

create_missing-Grows :
    (ps : List PostingInput) (b : Bank) {u : Unit} {b' : Bank}
    → create_missing ps b ≡ (ok u, b')
    → Grows b b' × Known b'.ledger_accounts (map posting_row ps)
unfolding create_missing
create_missing-Grows [] b h = ((ground arith, λ c k. ground arith), tt)
create_missing-Grows (p ∷ ps) b {b' = b'} h =
    let (_, b₁, e, h₁) = >>-ok _ _ b h in
    let (first, here) = ensure_code-Grows p b e in
    let (more, rest) = create_missing-Grows ps b₁ h₁ in
    (((λ d. more.0 (first.0 d)), (λ c k. more.1 c (first.1 c k))), (more.1 p.code here, rest))

-- The two sums that `post` compares, by the total of the rows that it writes.
sum_side-total :
    (ps : List PostingInput) (x y : ℤ)
    → sum_side credit y ps -ℤ sum_side debit x ps ≡ y -ℤ x +ℤ entry_total (map posting_row ps)
sum_side-total [] x y = omega int_laws
sum_side-total (p ∷ ps) x y =
    grind (
      int_laws,
      sum_side-total ps x (y +ℤ p.amount_cents),
      sum_side-total ps (x +ℤ p.amount_cents) y,
    )

-- Equal sums make a balanced entry.
entry_total-zero :
    (ps : List PostingInput)
    → eqb_ℤ (sum_side debit (pos 0) ps) (sum_side credit (pos 0) ps) ≡ true
    → entry_total (map posting_row ps) ≡ pos 0
entry_total-zero ps h = grind (int_laws, sum_side-total ps (pos 0) (pos 0))

-- Opening an account's sub-ledger keeps the ledger valid.
pub ensure_account_ledger-IsLedger :
    (account owner : ℕ) (b : Bank) {u : Unit} {b' : Bank}
    → IsLedger b
    → ensure_account_ledger account owner b ≡ (ok u, b')
    → IsLedger b'
ensure_account_ledger-IsLedger account owner b {b' = b'} v h =
    Grows-IsLedger b b' (ensure_account_ledger-Grows account owner b h)
      (ground (arith, ensure_account_ledger-only account owner b h)) v

-- Posting keeps the ledger valid, whatever the postings are: it refuses an unbalanced entry.
pub post-IsLedger :
    (input : JournalInput) (b : Bank) {u : Unit} {b' : Bank}
    → IsLedger b
    → post input b ≡ (ok u, b')
    → IsLedger b'
unfolding post
post-IsLedger input b {b' = b'} v h =
    let (_, b₁, e₁, h₁) = >>-ok _ _ b h in
    let (_, b₂, e₂, h₂) = >>-ok _ _ b₁ h₁ in
    let (_, b₃, e₃, h₃) = >>-ok _ _ b₂ h₂ in
    let same : b₂ ≡ b = ground (arith, throw_if-ok _ _ b e₁, throw_if-ok _ _ b₁ e₂) in
    let (grows, known) = create_missing-Grows input.postings b₂ e₃ in
    let keep : b₃.journal ≡ b₂.journal = ground (arith, create_missing-only input.postings b₂ e₃) in
    let w : IsLedger b₃ = Grows-IsLedger b₂ b₃ grows keep (rw same v) in
    let total = entry_total-zero input.postings (post-ok input b h).1 in
    let done : add_entry input b₃ ≡ b' = ground (arith, h₃) in
    rw (← done) (record { distinct = w.distinct; entries = (known, total, w.entries) })

pub IsLedger-same :
    (b b' : Bank)
    → b'.ledger_accounts ≡ b.ledger_accounts
    → b'.journal ≡ b.journal
    → IsLedger b
    → IsLedger b'
IsLedger-same b b' l j v = record { distinct = rw l v.distinct; entries = rw (l, j) v.entries }
