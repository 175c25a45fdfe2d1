-- ===== src/Books/Deliveries.antt =====
-- A job is done once, however often the queue delivers it and whatever comes in between.
use meal.Prelude.{ℕ, Bool, true, false, ◌≡◌, inl, inr, refl, arith, List, [], ◌∷◌, All, some}
use meal.Prelude.Table.{find-modify, find-key}
use meal.Bank.{Bank, Transfer}
use meal.Bank.Action.{ok}
use meal.Transfers.Requests.{Env}
use meal.Transfers.Rows.{transfer_of, transfer_key}
use meal.Transfers.Settlement.{may_settle, settled, process}
use meal.Transfers.Settlement.Once.{Done, process-ok, process_skips}
use meal.Books.Calls.{
  Call, initiates, job_runs, job_fails, settles_own, settles, decides, approves_wire, reverses,
  pays_request, declines_request, after, run,
}
use meal.Books.Closed.{
  IsClosed, Closes, Closes-refl, Closes-trans, process_found-Closes, on_failed-Closes,
  initiate-Closes, reverse-Closes, decline-Closes, pay-Closes,
}

-- A call by which a settled transfer may be made pending again: a forced settlement, or a decision of an
-- admin, which forces it.
abbrev pub forces : Call → Bool
forces (settles_own env user k) = true
forces (settles env k) = true
forces (decides env actor k dto) = true
forces (approves_wire env actor k) = true
forces _ = false

after-Closes : (c : Call) (b : Bank) → forces c ≡ false → Closes b (after c b)
unfolding process
after-Closes (initiates env user key dto) b h = initiate-Closes env user key dto b
after-Closes (job_runs env k) b h = process_found-Closes env (transfer_of k b) b
after-Closes (job_fails env made attempts k) b h = on_failed-Closes env made attempts k b
after-Closes (settles_own env user k) b h = ground (arith, h)
after-Closes (settles env k) b h = ground (arith, h)
after-Closes (decides env actor k dto) b h = ground (arith, h)
after-Closes (approves_wire env actor k) b h = ground (arith, h)
after-Closes (reverses env k) b h = reverse-Closes env k b
after-Closes (pays_request env user k key source) b h = pay-Closes env user k key source b
after-Closes (declines_request env user k) b h = decline-Closes user k b

run-Closes : (cs : List Call) (b : Bank) → All (λ c. forces c ≡ false) cs → Closes b (run cs b)
run-Closes [] b h = Closes-refl b
run-Closes (c ∷ cs) b h =
    Closes-trans b (after c b) (run cs (after c b)) (after-Closes c b h.0)
      (run-Closes cs (after c b) h.1)

Done-IsClosed : (env : Env) (k : ℕ) (b b' : Bank) → Done env k b b' → IsClosed k b'
Done-IsClosed env k b b' d =
    let id : d.found.id ≡ k = find-key transfer_key k b.transfers d.found d.stored in
    let at = find-modify transfer_key k d.found.id (settled env) b.transfers (λ t. refl) in
    (settled env d.found, ground (arith, at, id, d.stored, d.only, d.effect.transfers), refl)

-- A job that has settled its transfer has nothing left to do: delivered again, it changes nothing,
-- whatever came in between of jobs that ran or failed, this one included, of new transfers, of payment
-- requests paid or declined, and of reversed wires, as long as no settlement was forced and no admin
-- approved or rejected a transfer.
pub run-process_once :
    (env env₂ : Env) (k : ℕ) (cs : List Call) (b : Bank) (t : Transfer) {u : Unit} {b' : Bank}
    → transfer_of k b ≡ some t
    → may_settle t ≡ true
    → process env k b ≡ (ok u, b')
    → All (λ c. forces c ≡ false) cs
    → process env₂ k (run cs b') ≡ (ok tt, run cs b')
run-process_once env env₂ k cs b t {b' = b'} stored allowed h calm = elim (process-ok env k b h) [
  | inl (inl gone, same) ↦ ground (arith, stored, gone)
  | inl (inr (x, found, refused), same) ↦ ground (arith, stored, found, allowed, refused)
  | inr d ↦
      let (x, found, shut) = (run-Closes cs b' calm).still k (Done-IsClosed env k b b' d) in
      process_skips env₂ k (run cs b') (inr (x, found, ground (arith, shut)))
]
