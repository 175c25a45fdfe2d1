-- ===== src/Books/Moves.antt =====
-- The database transactions keep the books.
use meal.Prelude.{
  refl, arith, ℕ, ◌≡◌, Option, none, some, ◌∷◌, map, arith, ◌==◌, ◌∙◌, if◌then◌else◌,
}
use meal.Prelude.Int.{ℤ, pos, ◌≤ℤ◌, ◌+ℤ◌, ◌-ℤ◌, int_laws}
use meal.Bank.{Bank, JournalEntry, Transfer, sub_ledger}
use meal.Bank.Balance.{balance_of}
use meal.Ledger.{JournalInput, posting_row}
use meal.Ledger.Drift.{drift}
use meal.Ledger.Net.{net, journal_net}
use meal.Transfers.Requests.{InitiateTransfer, Env, Plan}
use meal.Transfers.Initiate.{total_debit, pending_entry}
use meal.Transfers.Initiate.Effect.{Committed}
use meal.Transfers.Settlement.{settled, destination}
use meal.Transfers.Settlement.Effect.{Settled, postings_by, credited_by, credited, is_account}
use meal.Admin.Review.{refund_of, reject_entry, rejected_transfer}
use meal.Admin.Wires.{reverse_entry, reversed_transfer}
use meal.Admin.Refunded.{Refunded}
use meal.Ledger.Validity.{IsLedger}
use meal.Books.Rules.{IsPriced, AllPriced, Keeps, IsPriced-modify, ReviewedAt-modify, IsHarmless}

pending_net :
    (env : Env) (plan : Plan) (j : ℕ)
    → pos 0 ≤ℤ plan.fee_cents
    → net (sub_ledger j) (map posting_row (pending_entry env plan).postings)
      ≡ (if j == plan.from_account.id then pos 0 -ℤ total_debit plan else pos 0)
pending_net env plan j h = grind int_laws

settle_net :
    (t : Transfer) (k : Option ℕ) (j : ℕ)
    → net (sub_ledger j) (map posting_row (postings_by t k))
      ≡ (if is_account j (credited_by t k) then t.amount_cents else pos 0)
settle_net t (some k) j = grind int_laws
settle_net t none j = grind int_laws

-- One new entry that moves a balance by as much as it posts to the account's code leaves the drift.
drift-entry :
    (j : ℕ) (b b' : Bank) (e : JournalEntry) (x : ℤ)
    → b'.journal ≡ e ∷ b.journal
    → balance_of j b' ≡ balance_of j b +ℤ x
    → net (sub_ledger j) e.postings ≡ x
    → drift j b' ≡ drift j b
drift-entry j b b' e x js bal n =
    rw (js, bal, n) (omega_lem (balance_of j b) x (journal_net (sub_ledger j) b.journal))
  where
    omega_lem : (y x n : ℤ) → y +ℤ x -ℤ (x +ℤ n) ≡ y -ℤ n
    omega_lem y x n = grind int_laws

sum_if : (j k : ℕ) (y x : ℤ) → (if j == k then y +ℤ x else y) ≡ y +ℤ (if j == k then x else pos 0)
sum_if j k y x = grind int_laws

pub Committed-Keeps :
    (env : Env) (user key : ℕ) (dto : InitiateTransfer) (plan : Plan) (b b' : Bank)
    → pos 0 ≤ℤ plan.settlement_cents
    → pos 0 ≤ℤ plan.fee_cents
    → Committed env user key dto plan b b'
    → (IsLedger b → IsLedger b')
    → Keeps b b'
Committed-Keeps env user key dto plan b b' amount fee c kept = record {
  ledger = kept;
  priced = λ p. rw c.transfers ((amount, fee), p);
  still_reviewed = λ k (t, found, r). (t, ground (arith, c.transfers, c.new_id, found), r);
  same_drift = λ p j.
      drift-entry j b b' _ (if j == plan.from_account.id then pos 0 -ℤ total_debit plan else pos 0)
        c.journal (grind (int_laws, c.balances j)) (pending_net env plan j fee);
  solvent = λ p s j. grind (int_laws, c.balances j, c.covered, s j);
}

pub Settled-Keeps :
    (env : Env) (t : Transfer) (b b' : Bank)
    → (AllPriced b → IsPriced t)
    → Settled env t b b'
    → (IsLedger b → IsLedger b')
    → Keeps b b'
Settled-Keeps env t b b' priced c kept = record {
  ledger = kept;
  priced = λ p. rw c.transfers (IsPriced-modify t.id (settled env) b.transfers (λ x h. h) p);
  still_reviewed =
      ReviewedAt-modify t.id (settled env) b b' (λ x. (refl, (λ h. h), (λ h. h))) c.transfers;
  same_drift = λ p j.
      drift-entry j b b' _ (if is_account j (credited t) then t.amount_cents else pos 0) c.journal
        (grind (int_laws, c.balances j)) (settle_net t (destination t.kind t.to_account_id) j);
  solvent = λ p s j. grind (int_laws, c.balances j, priced p, s j);
}

refunded_solvent :
    (t : Transfer) (j : ℕ) (b b' : Bank)
    → IsPriced t
    → pos 0 ≤ℤ balance_of j b
    → balance_of j b'
      ≡ (if j == t.from_account_id then balance_of j b +ℤ refund_of t else balance_of j b)
    → pos 0 ≤ℤ balance_of j b'
refunded_solvent t j b b' p s e = rw e (grind int_laws)

Refunded-Keeps :
    (t : Transfer) (entry : JournalInput) (f : Transfer → Transfer) (b b' : Bank)
    → (AllPriced b → IsPriced t)
    → IsHarmless f
    → ((j : ℕ)
        → pos 0 ≤ℤ t.fee_cents
        → net (sub_ledger j) (map posting_row entry.postings)
          ≡ (if j == t.from_account_id then refund_of t else pos 0))
    → Refunded t entry f b b'
    → Keeps b b'
Refunded-Keeps t entry f b b' priced keep n c = record {
  ledger = c.ledger;
  priced = λ p. rw c.transfers (IsPriced-modify t.id f b.transfers (λ x. (keep x).1) p);
  still_reviewed = ReviewedAt-modify t.id f b b' keep c.transfers;
  same_drift = λ p j.
      drift-entry j b b' _ (if j == t.from_account_id then refund_of t else pos 0) c.journal
        (c.balances j ∙ sum_if j t.from_account_id (balance_of j b) (refund_of t))
        (n j (priced p).1);
  solvent = λ p s j. refunded_solvent t j b b' (priced p) (s j) (c.balances j);
}

pub Rejected-Keeps :
    (env : Env) (actor : ℕ) (t : Transfer) (b b' : Bank)
    → (AllPriced b → IsPriced t)
    → Refunded t (reject_entry env t t.from_account_id) (rejected_transfer env actor) b b'
    → Keeps b b'
Rejected-Keeps env actor t b b' priced =
    Refunded-Keeps t _ _ b b' priced (λ x. (refl, (λ h. h), (λ r. (r.0, refl))))
      (λ j h. grind int_laws)

pub Reversed-Keeps :
    (env : Env) (t : Transfer) (b b' : Bank)
    → (AllPriced b → IsPriced t)
    → Refunded t (reverse_entry env t t.from_account_id) (reversed_transfer env) b b'
    → Keeps b b'
Reversed-Keeps env t b b' priced =
    Refunded-Keeps t _ _ b b' priced (λ x. (refl, (λ h. h), (λ h. h))) (λ j h. grind int_laws)
