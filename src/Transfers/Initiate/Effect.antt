-- ===== src/Transfers/Initiate/Effect.antt =====
-- What a successful database transaction of `initiate` writes.
use meal.Prelude.{
  ℕ, ◌≡◌, false, Option, none, some, ◌∷◌, ◌==◌, arith, inl, inr, Option-cases, if◌then◌else◌,
}
use meal.Prelude.Int.{ℤ, ◌-ℤ◌, ◌≤ℤ◌}
use meal.Bank.{Bank, Account, Transfer}
use meal.Bank.Action.{ok, pure, >>-ok, >>=-ok, throw_if-ok}
use meal.Bank.Balance.{
  account_of, balance_of, set_balance, update_balance-ok, balance_of-update_balance,
}
use meal.Ledger.{journal_entry}
use meal.Ledger.Net.{ensure_account_ledger-only, post-ok, OnlyLedgerAccounts}
use meal.Ledger.Validity.{IsLedger, ensure_account_ledger-IsLedger, post-IsLedger}
use meal.Transfers.Requests.{InitiateTransfer, Env, Plan}
use meal.Transfers.Rows.{transfer_of, transfer_by_key, create_transaction-ok, create_transfer-ok}
use meal.Transfers.Initiate.{
  commit, total_debit, pending_entry, pending_transaction, new_transfer, is_short,
  ensure_destination,
}

pub record Committed (env : Env) (user key : ℕ) (dto : InitiateTransfer) (plan : Plan) (b b' : Bank)
    : Type 0 where
  pub covered : total_debit plan ≤ℤ balance_of plan.from_account.id b
  pub new_key : transfer_by_key key b ≡ none
  pub new_id : transfer_of env.transfer_id b ≡ none
  pub balances :
      (j : ℕ)
      → balance_of j b'
        ≡ (if j == plan.from_account.id then balance_of j b -ℤ total_debit plan else balance_of j b)
  pub journal : b'.journal ≡ journal_entry (pending_entry env plan) ∷ b.journal
  pub transfers : b'.transfers ≡ new_transfer env user key dto plan ∷ b.transfers
  pub transactions : b'.transactions ≡ pending_transaction env dto.kind plan ∷ b.transactions
  pub same_jobs : b'.jobs ≡ b.jobs
  pub same_timers : b'.timers ≡ b.timers
  pub same_users : b'.users ≡ b.users
  pub same_requests : b'.requests ≡ b.requests

ensure_destination-only :
    (a : Option Account) (b : Bank) {u : Unit} {b' : Bank}
    → ensure_destination a b ≡ (ok u, b')
    → OnlyLedgerAccounts b b' × (IsLedger b → IsLedger b')
unfolding ensure_destination
ensure_destination-only none b h = (ground arith, λ v. rw (same b h) v)
  where
    same : (b : Bank) {u : Unit} {b' : Bank} → pure tt b ≡ (ok u, b') → b' ≡ b
    same b h = ground arith
ensure_destination-only (some a) b h = (
  ensure_account_ledger-only a.id a.user_id b h,
  λ v. ensure_account_ledger-IsLedger a.id a.user_id b v h,
)

covered_of :
    (total : ℤ) (k : ℕ) (b : Bank)
    → is_short total (account_of k b) ≡ false
    → total ≤ℤ balance_of k b
covered_of total k b h = elim (Option-cases (account_of k b)) [
  | inl e ↦ ground (arith, e)
  | inr (a, e) ↦ ground (arith, e)
]

-- The states between the steps of `commit`, and what each step is known to do.
module _ (env : Env) (user key : ℕ) (dto : InitiateTransfer) (plan : Plan)
    (b b₁ b₂ b₃ b₄ b₅ b₆ b' : Bank) (e₁ : b₁ ≡ b)
    (short : is_short (total_debit plan) (account_of plan.from_account.id b) ≡ false)
    (e₂ : OnlyLedgerAccounts b₁ b₂) (v₂ : IsLedger b₁ → IsLedger b₂) (e₃ : OnlyLedgerAccounts b₂ b₃)
    (v₃ : IsLedger b₂ → IsLedger b₃)
    (e₄ : b₄ ≡ record b₃ {
      ledger_accounts = b₄.ledger_accounts;
      journal = journal_entry (pending_entry env plan) ∷ b₃.journal;
    })
    (v₄ : IsLedger b₃ → IsLedger b₄)
    (e₅ : b₅ ≡ record b₄ { transactions = pending_transaction env dto.kind plan ∷ b₄.transactions })
    (e₆ : b₆ ≡ set_balance plan.from_account.id (λ x. x -ℤ total_debit plan) b₅)
    (moved : (j : ℕ)
      → balance_of j b₆ ≡ (
          if j == plan.from_account.id
          then balance_of j b₅ -ℤ total_debit plan
          else balance_of j b₅))
    (e₇ : b' ≡ record b₆ { transfers = new_transfer env user key dto plan ∷ b₆.transfers })
    (new_id : transfer_of env.transfer_id b₆ ≡ none) (new_key : transfer_by_key key b₆ ≡ none) where
  same_accounts : b₅.accounts ≡ b.accounts
  same_accounts = ground arith

  same_transfers : b₆.transfers ≡ b.transfers
  same_transfers = ground arith

  IsLedger-kept : IsLedger b → IsLedger b'
  IsLedger-kept v =
      let v' = v₄ (v₃ (v₂ (rw e₁ v))) in
      let la : b'.ledger_accounts ≡ b₄.ledger_accounts = ground arith in
      let js : b'.journal ≡ b₄.journal = ground arith in
      record { distinct = rw la v'.distinct; entries = rw (la, js) v'.entries }

  assemble : Committed env user key dto plan b b' × (IsLedger b → IsLedger b')
  assemble = (
    record {
      covered = covered_of (total_debit plan) plan.from_account.id b short;
      new_key = rw same_transfers at new_key;
      new_id = rw same_transfers at new_id;
      balances = λ j. ground (arith, moved j, same_accounts);
      journal = ground arith;
      transfers = ground arith;
      transactions = ground arith;
      same_jobs = ground arith;
      same_timers = ground arith;
      same_users = ground arith;
      same_requests = ground arith;
    },
    IsLedger-kept,
  )

pub commit-ok :
    (env : Env) (user key : ℕ) (dto : InitiateTransfer) (plan : Plan) (b : Bank) {t : Transfer}
    {b' : Bank}
    → commit env user key dto plan b ≡ (ok t, b')
    → (t ≡ new_transfer env user key dto plan)
      × Committed env user key dto plan b b'
      × (IsLedger b → IsLedger b')
unfolding commit
commit-ok env user key dto plan b {b' = b'} h =
    let (fresh, b₀, e₀, h₀) = >>=-ok _ _ b h in
    let (_, b₁, e₁, h₁) = >>-ok _ _ b₀ h₀ in
    let (_, b₂, e₂, h₂) = >>-ok _ _ b₁ h₁ in
    let (_, b₃, e₃, h₃) = >>-ok _ _ b₂ h₂ in
    let (_, b₄, e₄, h₄) = >>-ok _ _ b₃ h₃ in
    let (_, b₅, e₅, h₅) = >>-ok _ _ b₄ h₄ in
    let (_, b₆, e₆, h₆) = >>-ok _ _ b₅ h₅ in
    let (_, b₇, e₇, h₇) = >>-ok _ _ b₆ h₆ in
    let (short, same) = throw_if-ok _ _ b₀ e₁ in
    let (ledger₃, valid₃) = ensure_destination-only plan.to_account b₂ e₃ in
    let (made, new_id, new_key) = create_transfer-ok _ b₆ e₇ in
    let id = plan.from_account.id in
    let source = plan.from_account in
    let entry = pending_entry env plan in
    let (effect, kept) =
      assemble env user key dto plan b b₁ b₂ b₃ b₄ b₅ b₆ b' (ground (arith, e₀, same))
        (ground (arith, e₀, short)) (ensure_account_ledger-only source.id source.user_id b₁ e₂)
        (λ v. ensure_account_ledger-IsLedger source.id source.user_id b₁ v e₂) ledger₃ valid₃
        (post-ok entry b₃ e₄).0 (λ v. post-IsLedger entry b₃ v e₄) (create_transaction-ok _ b₄ e₅)
        (update_balance-ok id _ b₅ e₆).0 (λ j. balance_of-update_balance j id _ b₅ e₆)
        (ground (arith, h₇, made)) new_id new_key in
    (ground (arith, h₇), effect, kept)
