-- ===== src/Savings/Repeats.antt =====
-- What a contribution does, and what its repetition does.
use mathlib.Core.Option
use meal.Prelude.{
  ℕ, ◌≡◌, inl, inr, refl, ◌∙◌, sym, false, Option, some, none, arith, Bool-cases, Option-cases,
}
use meal.Prelude.Int.{ℤ}
use meal.Prelude.Table.{modify, find_first, find-modify}
use meal.Bank.{Bank, Account}
use meal.Bank.Action.{Result, ok, err}
use meal.Bank.Balance.{account_of}
use meal.Transfers.Rows.{is_some}
use meal.Transfers.Requests.{InitiateResult}
use meal.Transfers.Initiate.{initiate}
use meal.Transfers.Initiate.Replay.{initiate-replay}
use meal.Savings.Rows.{
  Goal, Savings, SavingsEnv, done, goal_key, goal_of, own_goal, is_savings_of, save_transfer, grown,
}
use meal.Savings.{own_account, contributed, contribute_to, contribute}

-- The transfer behind an accepted contribution, and the goal's new amount.
pub record Contributed (env : SavingsEnv) (user k : ℕ) (key : Option ℕ) (source : ℕ) (amount : ℤ)
    (s : Savings) (r : InitiateResult) (s' : Savings) : Type 0 where
  pub goal : Goal
  pub target : Account
  pub mine : own_goal user (goal_of k s) ≡ some goal
  pub not_archived : is_some goal.archived_at ≡ false
  pub to_savings : find_first (is_savings_of user) s.bank.accounts ≡ some target
  pub moved :
      initiate env.transfer user key (save_transfer source target.id amount) s.bank
      ≡ (ok r, s'.bank)
  pub counted : s'.goals ≡ modify goal_key k (grown amount) s.goals

contributed-ok :
    (k : ℕ) (amount : ℤ) (o : Result InitiateResult) (b : Bank) (s : Savings) {r : InitiateResult}
    {s' : Savings}
    → contributed k amount (o, b) s ≡ (done r, s')
    → (o ≡ ok r) × (s'.bank ≡ b) × (s'.goals ≡ modify goal_key k (grown amount) s.goals)
contributed-ok k amount (err e) b s h = ground (arith, h)
contributed-ok k amount (ok x) b s h = (ground (arith, h), ground (arith, h), ground (arith, h))

Contributed-to :
    (env : SavingsEnv) (user k : ℕ) (key : Option ℕ) (source : ℕ) (amount : ℤ) (goal : Goal)
    (from : Option Account) (s : Savings) {r : InitiateResult} {s' : Savings}
    → own_goal user (goal_of k s) ≡ some goal
    → is_some goal.archived_at ≡ false
    → (o : Option Account) → find_first (is_savings_of user) s.bank.accounts ≡ o
    → contribute_to env user key k source amount o from s ≡ (done r, s')
    → Contributed env user k key source amount s r s'
Contributed-to env user k key source amount goal from s mine open_ none e h = ground (arith, h)
Contributed-to env user k key source amount goal none s mine open_ (some t) e h = ground (arith, h)
Contributed-to env user k key source amount goal (some f) s mine open_ (some t) e h =
    let run = initiate env.transfer user key (save_transfer source t.id amount) s.bank in
    let (answer, bank, goals) = contributed-ok k amount run.0 run.1 s h in
    record {
      goal = goal;
      target = t;
      mine = mine;
      not_archived = open_;
      to_savings = e;
      moved = λ i. (answer i, sym bank i);
      counted = goals;
    }

pub contribute-ok :
    (env : SavingsEnv) (user k : ℕ) (key : Option ℕ) (source : ℕ) (amount : ℤ) (s : Savings)
    {r : InitiateResult} {s' : Savings}
    → contribute env user k key source amount s ≡ (done r, s')
    → Contributed env user k key source amount s r s'
unfolding contribute
contribute-ok env user k key source amount s {r = r} {s' = s'} h =
    elim (Option-cases (own_goal user (goal_of k s))) [
      | inl e ↦ ground (arith, h, e)
      | inr (goal, e) ↦ elim (Bool-cases (is_some goal.archived_at)) [
        | inl shut ↦ ground (arith, h, e, shut)
        | inr open_ ↦
            let o = find_first (is_savings_of user) s.bank.accounts in
            let from = own_account user (account_of source s.bank) in
            let ran : contribute_to env user key k source amount o from s ≡ (done r, s') =
              ground (arith, h, e, open_) in
            Contributed-to env user k key source amount goal from s e open_ o refl ran
      ]
    ]

-- A contribution that is repeated under its key, when it is answered, names the same transfer and moves
-- no money; but its amount is added to the goal again.
pub contribute_again :
    (env env₂ : SavingsEnv) (user k key source source₂ : ℕ) (amount amount₂ : ℤ) (s : Savings)
    {r r₂ : InitiateResult} {s' s'' : Savings}
    → contribute env user k (some key) source amount s ≡ (done r, s')
    → contribute env₂ user k (some key) source₂ amount₂ s' ≡ (done r₂, s'')
    → (r₂.transfer_id ≡ r.transfer_id)
      × (s''.bank ≡ s'.bank)
      × (goal_of k s'' ≡ Option.map (grown amount₂) (goal_of k s'))
contribute_again env env₂ user k key source source₂ amount amount₂ s {s' = s'} h h₂ =
    let p = contribute-ok env user k (some key) source amount s h in
    let q = contribute-ok env₂ user k (some key) source₂ amount₂ s' h₂ in
    let (t, _, _, same, again) =
      initiate-replay env.transfer env₂.transfer user key (save_transfer source p.target.id amount)
        (save_transfer source₂ q.target.id amount₂) s.bank p.moved in
    let both = sym again ∙ q.moved in
    let at = find-modify goal_key k k (grown amount₂) s'.goals (λ g. refl) in
    (ground (arith, both, same), ground (arith, both), ground (arith, at, q.counted))
