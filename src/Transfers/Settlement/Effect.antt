-- ===== src/Transfers/Settlement/Effect.antt =====
-- What a successful settlement writes.
use meal.Prelude.{
  ℕ, ◌≡◌, Bool, false, inl, inr, Option, none, some, List, [], ◌∷◌, ◌==◌, arith, Bool-cases,
  if◌then◌else◌,
}
use meal.Prelude.Int.{ℤ, ◌+ℤ◌}
use meal.Prelude.Table.{modify, find-key}
use meal.Bank.{Bank, Account, Transfer, sub_ledger, pending_out, cash, debit, credit, posted}
use meal.Bank.Action.{ok, >>-ok, >>=-ok, or_throw-ok}
use meal.Bank.Balance.{
  account_key, account_of, balance_of, update_balance-ok, balance_of-update_balance,
}
use meal.Ledger.{PostingInput, journal_entry}
use meal.Ledger.Net.{ensure_account_ledger-only, post-ok}
use meal.Ledger.Validity.{IsLedger, IsLedger-same, ensure_account_ledger-IsLedger, post-IsLedger}
use meal.Transfers.Requests.{Env}
use meal.Transfers.Rows.{
  transfer_key, when_some, update_transaction, create_transaction-ok, update_transaction-ok,
  update_transfer-ok,
}
use meal.Transfers.Initiate.{posting}
use meal.Transfers.Settlement.{
  destination, is_inflow, credit_destination, credit_inflow, outflow_postings, pay_out,
  settle_entry, settled, settle,
}

abbrev pub credited_by : Transfer → Option ℕ → Option ℕ
credited_by t (some k) = some k
credited_by t none = if is_inflow t.kind then some t.from_account_id else none

-- The account that a settlement credits, if it credits one of the bank's.
abbrev pub credited : Transfer → Option ℕ
credited t = credited_by t (destination t.kind t.to_account_id)

abbrev pub is_account : ℕ → Option ℕ → Bool
is_account j none = false
is_account j (some k) = j == k

abbrev pub postings_by : Transfer → Option ℕ → List PostingInput
postings_by t (some k) =
    posting pending_out debit t.amount_cents ∷ posting (sub_ledger k) credit t.amount_cents ∷ []
postings_by t none =
    if is_inflow t.kind
    then posting cash debit t.amount_cents
      ∷ posting (sub_ledger t.from_account_id) credit t.amount_cents
      ∷ []
    else outflow_postings t

-- What is posted: from the pending account, or from cash for money that comes in, to the account
-- that is credited, or to cash for money that goes out.
abbrev pub settle_postings : Transfer → List PostingInput
settle_postings t = postings_by t (destination t.kind t.to_account_id)

-- Only accounts, ledger accounts and feed lines differ, and only one balance.
record Paid (x : ℤ) (k : Option ℕ) (b b' : Bank) : Type 0 where
  balances :
      (j : ℕ) → balance_of j b' ≡ (if is_account j k then balance_of j b +ℤ x else balance_of j b)
  rest : b' ≡ record b {
    accounts = b'.accounts;
    ledger_accounts = b'.ledger_accounts;
    transactions = b'.transactions;
  }
  ledger : IsLedger b → IsLedger b'

credit_destination-ok :
    (env : Env) (t : Transfer) (k : ℕ) (b : Bank) {ps : List PostingInput} {b' : Bank}
    → credit_destination env t k b ≡ (ok ps, b')
    → (ps
        ≡ posting pending_out debit t.amount_cents
          ∷ posting (sub_ledger k) credit t.amount_cents
          ∷ [])
      × Paid t.amount_cents (some k) b b'
unfolding credit_destination
credit_destination-ok env t k b {b' = b'} h =
    let (o, b₀, e₀, h₀) = >>=-ok _ _ b h in
    let (dest, b₁, e₁, h₁) = >>=-ok _ _ b₀ h₀ in
    let (_, b₂, e₂, h₂) = >>-ok _ _ b₁ h₁ in
    let (_, b₃, e₃, h₃) = >>-ok _ _ b₂ h₂ in
    let (_, b₄, e₄, h₄) = >>-ok _ _ b₃ h₃ in
    let (found, r₁) = or_throw-ok _ _ b₀ e₁ in
    let found_b : account_of k b ≡ some dest = ground (arith, found, e₀) in
    let id : dest.id ≡ k = find-key account_key k b.accounts dest found_b in
    let only = ensure_account_ledger-only dest.id dest.user_id b₁ e₂ in
    let (moved, _, _) = update_balance-ok dest.id _ b₂ e₃ in
    let made = create_transaction-ok _ b₃ e₄ in
    let same : b₁ ≡ b = ground (arith, e₀, r₁) in
    (
      ground (arith, h₄, id),
      record {
        balances = λ j.
            ground (arith, balance_of-update_balance j dest.id _ b₂ e₃, only, same, made, h₄, id);
        rest = ground (arith, only, same, moved, made, h₄);
        ledger = λ v.
            IsLedger-same b₂ b' (ground (arith, moved, made, h₄)) (ground (arith, moved, made, h₄))
              (ensure_account_ledger-IsLedger dest.id dest.user_id b₁ (rw same v) e₂);
      },
    )

credit_inflow-ok :
    (env : Env) (t : Transfer) (sender : Account) (b : Bank) {ps : List PostingInput} {b' : Bank}
    → credit_inflow env t sender b ≡ (ok ps, b')
    → (ps
        ≡ posting cash debit t.amount_cents
          ∷ posting (sub_ledger sender.id) credit t.amount_cents
          ∷ [])
      × Paid t.amount_cents (some sender.id) b b'
unfolding credit_inflow
credit_inflow-ok env t sender b {b' = b'} h =
    let (_, b₁, e₁, h₁) = >>-ok _ _ b h in
    let (_, b₂, e₂, h₂) = >>-ok _ _ b₁ h₁ in
    let (moved, _, _) = update_balance-ok sender.id _ b e₁ in
    let made = create_transaction-ok _ b₁ e₂ in
    (
      ground (arith, h₂),
      record {
        balances = λ j. ground (arith, balance_of-update_balance j sender.id _ b e₁, made, h₂);
        rest = ground (arith, moved, made, h₂);
        ledger =
            IsLedger-same b b' (ground (arith, moved, made, h₂)) (ground (arith, moved, made, h₂));
      },
    )

pay_out-ok :
    (env : Env) (t : Transfer) (sender : Account) (k : Option ℕ) (b : Bank) {ps : List PostingInput}
    {b' : Bank}
    → sender.id ≡ t.from_account_id
    → pay_out env t sender k b ≡ (ok ps, b')
    → (ps ≡ postings_by t k) × Paid t.amount_cents (credited_by t k) b b'
unfolding pay_out
pay_out-ok env t sender (some k) b id h = credit_destination-ok env t k b h
pay_out-ok env t sender none b {b' = b'} id h = elim (Bool-cases (is_inflow t.kind)) [
  | inl e ↦ rw (e, ← id) (credit_inflow-ok env t sender b (rw e at h))
  | inr e ↦ (
    ground (arith, e, h),
    record {
      balances = λ j. ground (arith, e, h);
      rest = ground (arith, e, h);
      ledger = IsLedger-same b b' (ground (arith, e, h)) (ground (arith, e, h));
    },
  )
]

-- What a settlement changes: the balance of the account that it credits, one journal entry, the
-- transfer's row, and nothing in the queue.
pub record Settled (env : Env) (t : Transfer) (b b' : Bank) : Type 0 where
  pub balances :
      (j : ℕ)
      → balance_of j b'
        ≡ (if is_account j (credited t) then balance_of j b +ℤ t.amount_cents else balance_of j b)
  pub journal : b'.journal ≡ journal_entry (settle_entry env t (settle_postings t)) ∷ b.journal
  pub transfers : b'.transfers ≡ modify transfer_key t.id (settled env) b.transfers
  pub same_jobs : b'.jobs ≡ b.jobs
  pub same_events : b'.events ≡ b.events

stamped :
    (k : Option ℕ) (env : Env) (b : Bank) {u : Unit} {b' : Bank}
    → when_some k (λ i. update_transaction i posted env.now) b ≡ (ok u, b')
    → b' ≡ record b { transactions = b'.transactions }
stamped none env b h = ground arith
stamped (some i) env b h = ground (arith, update_transaction-ok i posted env.now b h)

pub settle-ok :
    (env : Env) (t : Transfer) (b : Bank) {u : Unit} {b' : Bank}
    → settle env t b ≡ (ok u, b')
    → Settled env t b b' × (IsLedger b → IsLedger b')
unfolding settle
settle-ok env t b {b' = b'} h =
    let (o, b₀, e₀, h₀) = >>=-ok _ _ b h in
    let (sender, b₁, e₁, h₁) = >>=-ok _ _ b₀ h₀ in
    let (_, b₂, e₂, h₂) = >>-ok _ _ b₁ h₁ in
    let (ps, b₃, e₃, h₃) = >>=-ok _ _ b₂ h₂ in
    let (_, b₄, e₄, h₄) = >>-ok _ _ b₃ h₃ in
    let (_, b₅, e₅, h₅) = >>-ok _ _ b₄ h₄ in
    let (found, r₁) = or_throw-ok _ _ b₀ e₁ in
    let found_b : account_of t.from_account_id b ≡ some sender = ground (arith, found, e₀) in
    let id : sender.id ≡ t.from_account_id =
      find-key account_key t.from_account_id b.accounts sender found_b in
    let same : b₁ ≡ b = ground (arith, e₀, r₁) in
    let only = ensure_account_ledger-only sender.id sender.user_id b₁ e₂ in
    let (posts, paid) = pay_out-ok env t sender (destination t.kind t.to_account_id) b₂ id e₃ in
    let rest = paid.rest in
    let entry = (post-ok (settle_entry env t ps) b₃ e₄).0 in
    let stamp = stamped t.pending_transaction_id env b₄ e₅ in
    let done = update_transfer-ok t.id (settled env) b₅ h₅ in
    (
      record {
        balances = λ j. ground (arith, paid.balances j, only, same, entry, stamp, done);
        journal = ground (arith, only, same, posts, rest, entry, stamp, done);
        transfers = ground (arith, only, same, rest, entry, stamp, done);
        same_jobs = ground (arith, only, same, rest, entry, stamp, done);
        same_events = ground (arith, only, same, rest, entry, stamp, done);
      },
      λ v. IsLedger-same b₄ b' (ground (arith, stamp, done)) (ground (arith, stamp, done)) (
          post-IsLedger (settle_entry env t ps) b₃
            (paid.ledger
              (ensure_account_ledger-IsLedger sender.id sender.user_id b₁ (rw same v) e₂))
            e₄),
    )
