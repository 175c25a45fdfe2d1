-- ===== src/Books/Rules.antt =====
-- The rules of the books, as a relation between the states before and after a step.
use meal.Prelude.{
  refl, true, Bool-cases, inl, inr, ◌==◌, ℕ, ◌≡◌, some, List, [], ◌∷◌, All, arith, ◌==◌, ◌∙◌,
}
use meal.Prelude.Int.{pos, ◌≤ℤ◌}
use meal.Prelude.Table.{modify, find, find-modify}
use meal.Bank.{Bank, Transfer}
use meal.Bank.Balance.{balance_of}
use meal.Ledger.Drift.{drift}
use meal.Ledger.Validity.{IsLedger, IsLedger-same}
use meal.Transfers.Rows.{transfer_key, transfer_of, is_some}

abbrev pub IsPriced : Transfer → Type 0
IsPriced t = (pos 0 ≤ℤ t.amount_cents) × (pos 0 ≤ℤ t.fee_cents)

-- No stored transfer has a negative amount or fee.
abbrev pub AllPriced : Bank → Type 0
AllPriced b = All IsPriced b.transfers

-- No balance is negative.
abbrev pub Solvent : Bank → Type 0
Solvent b = (j : ℕ) → pos 0 ≤ℤ balance_of j b

-- The transfer is stored, flagged for review, and reviewed.
abbrev pub IsReviewed : Transfer → Type 0
IsReviewed t = (t.requires_review ≡ true) × (is_some t.reviewed_at ≡ true)

abbrev pub ReviewedAt : ℕ → Bank → Type 0
ReviewedAt k b = (t : Transfer) × (transfer_of k b ≡ some t) × IsReviewed t

pub record Keeps (b b' : Bank) : Type 0 where
  pub ledger : IsLedger b → IsLedger b'
  pub priced : AllPriced b → AllPriced b'
  pub still_reviewed : (k : ℕ) → ReviewedAt k b → ReviewedAt k b'
  pub same_drift : AllPriced b → (j : ℕ) → drift j b' ≡ drift j b
  pub solvent : AllPriced b → Solvent b → Solvent b'

pub Keeps-trans : (b b' b'' : Bank) → Keeps b b' → Keeps b' b'' → Keeps b b''
Keeps-trans b b' b'' k l = record {
  ledger = λ v. l.ledger (k.ledger v);
  priced = λ p. l.priced (k.priced p);
  still_reviewed = λ i r. l.still_reviewed i (k.still_reviewed i r);
  same_drift = λ p j. l.same_drift (k.priced p) j ∙ k.same_drift p j;
  solvent = λ p s. l.solvent (k.priced p) (k.solvent p s);
}

-- Only feed lines, the queue and the events differ.
pub Keeps-same :
    (b b' : Bank)
    → b'.accounts ≡ b.accounts
    → b'.ledger_accounts ≡ b.ledger_accounts
    → b'.journal ≡ b.journal
    → b'.transfers ≡ b.transfers
    → Keeps b b'
Keeps-same b b' a l js ts = record {
  ledger = IsLedger-same b b' l js;
  priced = λ p. rw ts p;
  still_reviewed = λ k r. rw ts r;
  same_drift = λ q j. rw (a, js);
  solvent = λ q s j. rw a (s j);
}

pub IsPriced-modify :
    (k : ℕ) (f : Transfer → Transfer) (ts : List Transfer)
    → ((t : Transfer) → IsPriced t → IsPriced (f t))
    → All IsPriced ts
    → All IsPriced (modify transfer_key k f ts)
IsPriced-modify k f [] h p = tt
IsPriced-modify k f (t ∷ ts) h p = ground (arith, h t p.0, IsPriced-modify k f ts h p.1, p)

-- A change of one row that leaves the id alone and keeps prices and reviews.
abbrev pub IsHarmless : (Transfer → Transfer) → Type 0
IsHarmless f =
    (t : Transfer)
    → (transfer_key (f t) ≡ transfer_key t)
      × (IsPriced t → IsPriced (f t))
      × (IsReviewed t → IsReviewed (f t))

pub ReviewedAt-modify :
    (i : ℕ) (f : Transfer → Transfer) (b b' : Bank)
    → IsHarmless f
    → b'.transfers ≡ modify transfer_key i f b.transfers
    → (k : ℕ) → ReviewedAt k b
    → ReviewedAt k b'
ReviewedAt-modify i f b b' h e k (t, found, r) =
    let at = find-modify transfer_key k i f b.transfers (λ x. (h x).0) in
    elim (Bool-cases (k == i)) [
      | inl here ↦ (f t, ground (arith, at, here, found, e), (h t).2 r)
      | inr other ↦ (t, ground (arith, at, other, found, e), r)
    ]

pub Keeps-modify :
    (i : ℕ) (f : Transfer → Transfer) (b : Bank)
    → IsHarmless f
    → Keeps b (record b { transfers = modify transfer_key i f b.transfers })
Keeps-modify i f b h = record {
  ledger = λ v. record { distinct = v.distinct; entries = v.entries };
  priced = λ p. IsPriced-modify i f b.transfers (λ t. (h t).1) p;
  still_reviewed =
      ReviewedAt-modify i f b (record b { transfers = modify transfer_key i f b.transfers }) h refl;
  same_drift = λ q j. refl;
  solvent = λ q s j. s j;
}

IsPriced-find :
    (k : ℕ) (ts : List Transfer) (t : Transfer)
    → All IsPriced ts
    → find transfer_key k ts ≡ some t
    → IsPriced t
IsPriced-find k [] t p h = ground arith
IsPriced-find k (x ∷ ts) t p h = ground (arith, p.0, IsPriced-find k ts t p.1)

-- A transfer that is found is priced.
pub IsPriced-of :
    (k : ℕ) (b : Bank) (t : Transfer) → AllPriced b → transfer_of k b ≡ some t → IsPriced t
IsPriced-of k b t p h = IsPriced-find k b.transfers t p h
