-- ===== src/Books/Settlements.antt =====
-- The settlement worker and the rescue of a transfer keep the books, however they end.
use meal.Prelude.{arith, ℕ, ◌≡◌, refl, ◌∷◌, Option, none, some, Bool-cases, leb, inl, inr}
use meal.Bank.{Bank, Transfer}
use meal.Transfers.Requests.{Env}
use meal.Transfers.Rows.{transfer_of, remove_job}
use meal.Transfers.Settlement.{
  settle, settle_and_announce, process_found, process, mark_failed, on_failed, may_settle,
  is_pending,
}
use meal.Transfers.Settlement.Effect.{settle-ok}
use meal.Transfers.Rescue.{
  reset, run_settlement, force_settle, get_for_user, force_settle_own, to_pending,
}
use meal.Books.Rules.{IsPriced, AllPriced, Keeps-same, IsPriced-of}
use meal.Books.Moves.{Settled-Keeps}
use meal.Books.Combine.{
  KeptBy, Keeps-refl, >>-KeptBy, transaction-KeptBy, found-KeptBy, guard-KeptBy,
  update_transfer-KeptBy,
}
use meal.Books.Quiet.{announce-KeptBy}

pub settle-KeptBy :
    (env : Env) (t : Transfer) (b : Bank)
    → (AllPriced b → IsPriced t)
    → KeptBy (settle_and_announce env t) b
unfolding settle_and_announce
settle-KeptBy env t b priced =
    >>-KeptBy _ _ b
      (transaction-KeptBy (settle env t) b (λ u b' done.
        let (effect, kept) = settle-ok env t b done in Settled-Keeps env t b b' priced effect kept))
      (announce-KeptBy env t _)

process_found-KeptBy :
    (env : Env) (o : Option Transfer) (b : Bank)
    → ((t : Transfer) → o ≡ some t → AllPriced b → IsPriced t)
    → KeptBy (process_found env o) b
unfolding process_found
process_found-KeptBy env none b h = Keeps-refl b
process_found-KeptBy env (some t) b h = elim (Bool-cases (may_settle t)) [
  | inl e ↦ rw e (settle-KeptBy env t b (h t refl))
  | inr e ↦ rw e (Keeps-refl b)
]

-- The worker keeps the books, whatever it does with the job.
pub process-KeptBy : (env : Env) (k : ℕ) (b : Bank) → KeptBy (process env k) b
unfolding process
process-KeptBy env k b =
    process_found-KeptBy env (transfer_of k b) b (λ t e p. IsPriced-of k b t p e)

pub on_failed-KeptBy :
    (env : Env) (made attempts k : ℕ) (b : Bank) → KeptBy (on_failed env made attempts k) b
unfolding on_failed mark_failed
on_failed-KeptBy env made attempts k b = elim (Bool-cases (leb attempts made)) [
  | inl e ↦ rw e (update_transfer-KeptBy k _ b (λ t. (refl, (λ h. h), (λ h. h))))
  | inr e ↦ rw e (Keeps-refl b)
]

reset-KeptBy : (t : Transfer) (b : Bank) → KeptBy (reset t) b
unfolding reset
reset-KeptBy t b = elim (Bool-cases (is_pending t.status)) [
  | inl e ↦ rw e (Keeps-refl b)
  | inr e ↦ rw e (update_transfer-KeptBy t.id to_pending b (λ x. (refl, (λ h. h), (λ h. h))))
]

run_settlement-KeptBy : (env : Env) (k : ℕ) (b : Bank) → KeptBy (run_settlement env k) b
unfolding run_settlement
run_settlement-KeptBy env k b = elim (Bool-cases env.queue_up) [
  | inl e ↦ rw e (Keeps-same b (record b { jobs = k ∷ remove_job k b.jobs }) refl refl refl refl)
  | inr e ↦
      let to : run_settlement env k b ≡ process env k b = ground (arith, e) in
      rw to (process-KeptBy env k b)
]

pub force_settle-KeptBy : (env : Env) (k : ℕ) (b : Bank) → KeptBy (force_settle env k) b
unfolding force_settle
force_settle-KeptBy env k b =
    found-KeptBy _ _ _ b (λ t e. >>-KeptBy _ _ b (reset-KeptBy t b) (run_settlement-KeptBy env k _))

get_for_user-KeptBy : (user k : ℕ) (b : Bank) → KeptBy (get_for_user user k) b
unfolding get_for_user
get_for_user-KeptBy user k b = found-KeptBy _ _ _ b (λ t e. guard-KeptBy _ _ _ b (Keeps-refl b))

pub force_settle_own-KeptBy :
    (env : Env) (user k : ℕ) (b : Bank) → KeptBy (force_settle_own env user k) b
unfolding force_settle_own
force_settle_own-KeptBy env user k b =
    >>-KeptBy _ _ b (get_for_user-KeptBy user k b) (force_settle-KeptBy env k _)
