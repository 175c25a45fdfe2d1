-- ===== src/Savings/Swept.antt =====
-- What a round-up adds, and what a sweep of a user's round-ups leaves.
use meal.Prelude.{
  ℕ, ◌+◌, ◌%◌, ◌≡◌, ◌<◌, inl, inr, refl, true, false, ◌&&◌, Option, some, none, List, [], ◌∷◌,
  arith, ◌==◌, Bool-cases, Option-cases, if◌then◌else◌,
}
use meal.Prelude.Int.{ℤ, pos, ◌+ℤ◌, int_laws}
use meal.Prelude.Table.{find, modify, find_first, update_where, count, find-key}
use meal.Bank.{Account}
use meal.Bank.Action.{ok}
use meal.Transfers.Requests.{InitiateResult}
use meal.Transfers.Initiate.{initiate}
use meal.Transfers.Initiate.Replay.{Answered, initiate-Answered}
use meal.Splits.{GoalSplit, Allocation, sum_cents, allocate_cents}
use meal.Splits.Sums.{allocate_cents-sum_cents}
use meal.Savings.Rows.{
  Goal, AutosaveConfig, RoundUp, Savings, AutoKey, round_up_key, SavingsEnv, Reply, done, failed,
  goal_key, goal_of, config_key, config_of, is_savings_of, save_transfer, grown, grow_goal,
  credit_goals,
}
use meal.Savings.Sweeps.{
  source_of, sweep, round_up_cents, is_unapplied, applied, mark_applied, finish_sweep,
  apply_for_user, has_splits,
}

-- A round-up is less than a dollar, and brings the amount to full dollars.
pub round_up_cents-full :
    (amount : ℕ) → ((amount + round_up_cents amount) % 100 ≡ 0) × (round_up_cents amount < 100)
unfolding round_up_cents
round_up_cents-full amount = ground arith

-- What the goals hold together.
abbrev pub total_current : List Goal → ℤ
total_current [] = pos 0
total_current (g ∷ gs) = g.current_cents +ℤ total_current gs

total-grown :
    (k : ℕ) (x : ℤ) (gs : List Goal) (g : Goal)
    → find goal_key k gs ≡ some g
    → total_current (modify goal_key k (grown x) gs) ≡ total_current gs +ℤ x
total-grown k x [] g e = ground (arith, e)
total-grown k x (h ∷ gs) g e = elim (Bool-cases (h.id == k)) [
  | inl here ↦ grind (int_laws, here)
  | inr there ↦
      let rest = total-grown k x gs g (ground (arith, e, there)) in grind (int_laws, there, rest)
]

-- The goals take up what was allocated, and the rest is left alone.
record Credited (as' : List Allocation) (s s' : Savings) : Type 0 where
  same_bank : s'.bank ≡ s.bank
  same_round_ups : s'.round_ups ≡ s.round_ups
  total : total_current s'.goals ≡ total_current s.goals +ℤ sum_cents as'

Credited-of :
    (as' : List Allocation) (s : Savings) {u : Unit} {s' : Savings}
    → credit_goals as' s ≡ (done u, s')
    → Credited as' s s'
Credited-of [] s h = record {
  same_bank = ground (arith, h);
  same_round_ups = ground (arith, h);
  total = grind (int_laws, h);
}
Credited-of (a ∷ as') s {u = u} {s' = s'} h = elim (Option-cases (goal_of a.goal_id s)) [
  | inl missing ↦ ground (arith, h, missing)
  | inr (g, e) ↦
      let ran : credit_goals as' (grow_goal a.goal_id a.cents s) ≡ (done u, s') =
        ground (arith, h, e) in
      let rest = Credited-of as' (grow_goal a.goal_id a.cents s) ran in
      let first = total-grown a.goal_id a.cents s.goals g e in
      record {
        same_bank = rest.same_bank;
        same_round_ups = rest.same_round_ups;
        total = grind (int_laws, rest.total, first);
      }
]

none_left :
    (user now : ℕ) (rs : List RoundUp)
    → count (is_unapplied user) (update_where (is_unapplied user) (applied now) rs) ≡ 0
none_left user now [] = refl
none_left user now (r ∷ rs) = let rest = none_left user now rs in ground (arith, rest)

-- A sweep that reached the savings.
pub record Sweep (env : SavingsEnv) (c : AutosaveConfig) (key : AutoKey) (amount : ℤ) (s : Savings)
    (r : InitiateResult) (s' : Savings) : Type 0 where
  pub source : ℕ
  pub target : Account
  pub from : source_of c s.bank ≡ some source
  pub to_savings : find_first (is_savings_of c.user_id) s.bank.accounts ≡ some target
  pub moved :
      initiate env.transfer c.user_id
        (some (env.number key))
        (save_transfer source target.id amount)
        s.bank
      ≡ (ok r, s'.bank)
  pub answered :
      Answered env.transfer c.user_id
        (some (env.number key))
        (save_transfer source target.id amount)
        s.bank
        r
        s'.bank
  pub same_goals : s'.goals ≡ s.goals
  pub same_round_ups : s'.round_ups ≡ s.round_ups

Sweep-of :
    (env : SavingsEnv) (c : AutosaveConfig) (key : AutoKey) (amount : ℤ) (s : Savings)
    {r : InitiateResult} {s' : Savings}
    → sweep env c key amount s ≡ (some r, s')
    → Sweep env c key amount s r s'
Sweep-of env c key amount s h = elim (Option-cases (source_of c s.bank)) [
  | inl e ↦ ground (arith, h, e)
  | inr (source, e) ↦ elim (Option-cases (find_first (is_savings_of c.user_id) s.bank.accounts)) [
    | inl f ↦ ground (arith, h, e, f)
    | inr (target, f) ↦ record {
      source = source;
      target = target;
      from = e;
      to_savings = f;
      moved = ground (arith, h, e, f);
      answered =
          initiate-Answered env.transfer c.user_id (some (env.number key))
            (save_transfer source target.id amount) s.bank (ground (arith, h, e, f));
      same_goals = ground (arith, h, e, f);
      same_round_ups = ground (arith, h, e, f);
    }
  ]
]

shared_total :
    (amount : ℤ) (c : AutosaveConfig)
    → sum_cents (allocate_cents amount c.splits) ≡ (if has_splits c then amount else pos 0)
unfolding allocate_cents
shared_total amount c = shared_at c.splits
  where
    shared_at :
        (ps : List GoalSplit)
        → sum_cents (allocate_cents amount ps)
          ≡ (if elim ps [ [] ↦ false | _ ∷ _ ↦ true ] then amount else pos 0)
    shared_at [] = refl
    shared_at (p ∷ ps) = allocate_cents-sum_cents amount (p ∷ ps) (λ e. ground (arith, e))

-- A user whose round-ups were swept: the transfer, the goals, and the entries.
pub record SweptFor (env : SavingsEnv) (user : ℕ) (amount : ℤ) (s s' : Savings) : Type 0 where
  pub config : AutosaveConfig
  pub stored : config_of user s ≡ some config
  pub wanted : (config.enabled && config.round_up_enabled) ≡ true
  pub result : InitiateResult
  pub middle : Savings
  pub swept : Sweep env config (round_up_key user env.day) amount s result middle
  pub same_bank : s'.bank ≡ middle.bank
  pub goals :
      total_current s'.goals
      ≡ total_current s.goals +ℤ (if has_splits config then amount else pos 0)
  pub none_unapplied : count (is_unapplied user) s'.round_ups ≡ 0

-- What follows an answered transfer.
record Finished (env : SavingsEnv) (c : AutosaveConfig) (amount : ℤ) (middle s' : Savings)
    : Type 0 where
  same_bank : s'.bank ≡ middle.bank
  total :
      total_current s'.goals
      ≡ total_current middle.goals +ℤ sum_cents (allocate_cents amount c.splits)
  none_unapplied : count (is_unapplied c.user_id) s'.round_ups ≡ 0

Finished-at :
    (env : SavingsEnv) (c : AutosaveConfig) (amount : ℤ) (r : InitiateResult) (middle : Savings)
    (o : Reply (Unit {0})) (t : Savings) {s' : Savings}
    → credit_goals (allocate_cents amount c.splits) middle ≡ (o, t)
    → finish_sweep env c amount (some r, middle) ≡ (done true, s')
    → Finished env c amount middle s'
Finished-at env c amount r middle (failed e) t eq h = ground (arith, h, eq)
Finished-at env c amount r middle (done u) t {s' = s'} eq h =
    let credited = Credited-of (allocate_cents amount c.splits) middle eq in
    let end : s' ≡ mark_applied c.user_id env.transfer.now t = ground (arith, h, eq) in
    let none = none_left c.user_id env.transfer.now t.round_ups in
    record {
      same_bank = ground (arith, end, credited.same_bank);
      total = ground (arith, end, credited.total);
      none_unapplied = ground (arith, end, none);
    }

SweptFor-at :
    (env : SavingsEnv) (user : ℕ) (c : AutosaveConfig) (amount : ℤ) (s : Savings)
    (o : Option InitiateResult) (middle : Savings) {s' : Savings}
    → config_of user s ≡ some c
    → (c.enabled && c.round_up_enabled) ≡ true
    → sweep env c (round_up_key user env.day) amount s ≡ (o, middle)
    → finish_sweep env c amount (o, middle) ≡ (done true, s')
    → SweptFor env user amount s s'
SweptFor-at env user c amount s none middle stored wanted eq h = ground (arith, h)
SweptFor-at env user c amount s (some r) middle stored wanted eq h =
    let swept = Sweep-of env c (round_up_key user env.day) amount s eq in
    let credits = credit_goals (allocate_cents amount c.splits) middle in
    let end = Finished-at env c amount r middle credits.0 credits.1 refl h in
    let key : c.user_id ≡ user = find-key config_key user s.configs c stored in
    record {
      config = c;
      stored = stored;
      wanted = wanted;
      result = r;
      middle = middle;
      swept = swept;
      same_bank = end.same_bank;
      goals = rw (swept.same_goals, shared_total amount c) at end.total;
      none_unapplied = rw key at end.none_unapplied;
    }

-- When a user's round-ups have been swept, initiate answered under the key of the user and the day: with
-- a new transfer of the amount to the user's savings, or, where the key was used before, with the
-- transfer of that key, in which case no money moved. Either way the goals together took up the whole
-- amount if there are shares and nothing if there are none, and no entry of the user is left to apply.
pub apply_for_user-ok :
    (env : SavingsEnv) (user : ℕ) (amount : ℤ) (s : Savings) {s' : Savings}
    → apply_for_user env user amount s ≡ (done true, s')
    → SweptFor env user amount s s'
unfolding apply_for_user
apply_for_user-ok env user amount s {s' = s'} h = elim (Option-cases (config_of user s)) [
  | inl e ↦ ground (arith, h, e)
  | inr (c, e) ↦ elim (Bool-cases (c.enabled && c.round_up_enabled)) [
    | inl wanted ↦
        let run = sweep env c (round_up_key user env.day) amount s in
        let ran : finish_sweep env c amount run ≡ (done true, s') = ground (arith, h, e, wanted) in
        SweptFor-at env user c amount s run.0 run.1 e wanted refl ran
    | inr off ↦ ground (arith, h, e, off)
  ]
]
