-- ===== src/Examples/Witnesses.antt =====
-- The theorems at the example bank.
use meal.Prelude.{
  inl, ◌*◌, ◌+◌, ◌≤◌, ◌<◌, ℕ, ◌≡◌, ◌≢◌, refl, arith, true, none, some, List, [], ◌∷◌, ◌⊎◌, ◌==◌,
  if◌then◌else◌, ◌↔◌,
}
use meal.Prelude.Int.{pos, ◌+ℤ◌, ◌-ℤ◌, ◌≤ℤ◌}
use meal.Bank.{ach_out, Transfer, internal}
use meal.Bank.Action.{ok, err, already_reviewed, insufficient_funds}
use meal.Bank.Balance.{balance_of}
use meal.Ledger.{compute_and_report}
use meal.Ledger.Drift.{drift}
use meal.Ledger.Validity.{IsLedger}
use meal.Quote.{QuoteParams, compute_quote}
use meal.Quote.Fees.{compute_quote-valid_iff, instant_fee_exact}
use meal.Transfers.Rows.{transfer_by_key, transfer_of}
use meal.Transfers.Initiate.{initiate, result_of}
use meal.Transfers.Initiate.Outcome.{initiate-err}
use meal.Transfers.Initiate.Replay.{initiate-replay}
use meal.Transfers.Settlement.{process}
use meal.Transfers.Settlement.Effect.{credited, is_account}
use meal.Transfers.Settlement.Once.{Skipped, Done, process-ok}
use meal.Transfers.Rescue.Repeat.{force_settle_own-process}
use meal.Admin.Review.{decide, refund_of}
use meal.Admin.Wires.Twice.{reverse-decide_rejected}
use meal.Books.Rules.{Solvent}
use meal.Books.Initiations.{IsSane}
use meal.Books.Calls.{
  Configured, Call, initiates, job_runs, job_fails, settles, decides, run, run-drift, run-Solvent,
  run-balanced,
}
use meal.Books.Deliveries.{run-process_once}
use meal.Books.Once.{decide-already_reviewed}
use meal.Books.Lifecycle.{initiate-held, initiate-decide_rejected, initiate-process}
use meal.Examples.Data.{
  settled_gift, pending_gift, held_wire, config, env_at, bank, gift, wire, refusal, approval,
  gift_pending, gift_settled, gift_repeated, wire_pending, wire_rejected, wire_refunded_twice,
}
use meal.Examples.Runs.{
  gift_is_settled, gift_is_pending, wire_is_held, answer, gift_starts, gift_settles, gift_resets,
  gift_repeats, wire_starts, wire_is_rejected, wire_is_reversed, wire_is_refunded_again,
  overdraft_fails,
}

bank-IsLedger : IsLedger bank
bank-IsLedger = record { distinct = (refl, (refl, (refl, (refl, (refl, tt))))); entries = tt }

bank-Solvent : Solvent bank
bank-Solvent j = ground arith

abbrev calls : List Call
calls =
    initiates (env_at 100) 1 (some 7) gift
    ∷ job_runs (env_at 200) 100
    ∷ initiates (env_at 300) 1 (some 8) wire
    ∷ decides (env_at 400) 9 300 refusal
    ∷ settles (env_at 500) 100
    ∷ []

sane : IsSane config
sane = (omega arith, omega arith)

calls-Configured : Configured calls
calls-Configured = (sane, (sane, (sane, (sane, (sane, tt)))))

run-drift_example : drift 10 (run calls bank) ≡ drift 10 bank
run-drift_example = run-drift calls bank calls-Configured tt 10

run-Solvent_example : Solvent (run calls bank)
run-Solvent_example = run-Solvent calls bank calls-Configured tt bank-Solvent

run-balanced_example :
    ((compute_and_report (run calls bank)).delta ≡ pos 0)
    × ((compute_and_report (run calls bank)).balanced ≡ true)
run-balanced_example = run-balanced calls bank calls-Configured bank-IsLedger

initiate-err_example :
    initiate (env_at 100) 2 (some 9) (record gift { from_account_id = 20 }) bank
    ≡ (err insufficient_funds, bank)
initiate-err_example =
    initiate-err (env_at 100) 2 (some 9) (record gift { from_account_id = 20 }) bank
      insufficient_funds overdraft_fails

initiate-replay_example :
    (t : Transfer) × (transfer_by_key 7 gift_pending ≡ some t)
    × (t.initiated_by_user_id ≡ 1)
    × (answer 0 ≡ result_of (env_at 100) t)
    × (initiate (env_at 500) 1 (some 7) wire gift_pending
        ≡ (ok (result_of (env_at 500) t), gift_pending))
initiate-replay_example = initiate-replay (env_at 100) (env_at 500) 1 7 gift wire bank gift_starts

-- The job is delivered twice more, fails once, and another transfer starts, before it comes again.
abbrev between : List Call
between =
    job_runs (env_at 300) 100
    ∷ initiates (env_at 400) 1 (some 8) wire
    ∷ job_fails (env_at 410) 1 3 100
    ∷ job_runs (env_at 420) 100
    ∷ []

run-process_once_example :
    process (env_at 500) 100 (run between gift_settled) ≡ (ok tt, run between gift_settled)
run-process_once_example =
    run-process_once (env_at 200) (env_at 500) 100 between gift_pending pending_gift gift_is_pending
      refl gift_settles (refl, (refl, (refl, (refl, tt))))

initiate-process_example :
    (t : Transfer) × (transfer_of 100 gift_pending ≡ some t)
    × ((j : ℕ)
        → balance_of j gift_settled ≡ (
            let debited =
              if j == t.from_account_id
              then balance_of j bank -ℤ (t.amount_cents +ℤ t.fee_cents)
              else balance_of j bank in
            if t.requires_review
            then debited
            else if is_account j (credited t)
            then debited +ℤ t.amount_cents
            else debited))
initiate-process_example =
    initiate-process (env_at 100) (env_at 200) 1 7 gift bank refl gift_starts gift_settles

initiate-decide_rejected_example : balance_of 10 wire_rejected ≡ balance_of 10 bank
initiate-decide_rejected_example =
    initiate-decide_rejected (env_at 100) (env_at 200) 1 9 8 wire refusal bank refl wire_starts refl
      wire_is_rejected 10

decide-already_reviewed_example :
    decide (env_at 600) 9 100 approval (run (job_runs (env_at 500) 100 ∷ []) wire_rejected)
    ≡ (err already_reviewed, run (job_runs (env_at 500) 100 ∷ []) wire_rejected)
decide-already_reviewed_example =
    decide-already_reviewed (env_at 200) (env_at 600) 9 9 100 refusal approval
      (job_runs (env_at 500) 100 ∷ []) wire_pending wire_is_rejected (sane, tt) refl

force_settle_own-process_example :
    balance_of 20 gift_repeated ≡ balance_of 20 gift_settled +ℤ pos 20000
force_settle_own-process_example =
    force_settle_own-process (env_at 300) (env_at 400) 1 100 settled_gift gift_settled refl
      gift_is_settled refl refl gift_resets gift_repeats 20

reverse-decide_rejected_example :
    balance_of 10 wire_refunded_twice
    ≡ balance_of 10 wire_pending +ℤ refund_of held_wire +ℤ refund_of held_wire
reverse-decide_rejected_example =
    reverse-decide_rejected (env_at 200) (env_at 300) 9 100 held_wire refusal wire_pending
      wire_is_held wire_is_reversed refl wire_is_refunded_again

abbrev instant_out : QuoteParams
instant_out = record {
  kind = ach_out;
  amount_cents = pos 20000;
  instant = true;
  min_cents = pos 500;
  max_cents = pos 2500000;
  instant_fee_bps = 175;
  instant_fee_min_cents = pos 25;
  wire_scope = none;
}

compute_quote-valid_iff_example : ((compute_quote instant_out).valid ≡ true) ↔ (
    (instant_out.min_cents ≤ℤ instant_out.amount_cents)
    × (instant_out.amount_cents ≤ℤ instant_out.max_cents)
    × (instant_out.instant ≡ true → instant_out.kind ≢ internal))
compute_quote-valid_iff_example = compute_quote-valid_iff instant_out

instant_out_valid : (compute_quote instant_out).valid ≡ true
unfolding compute_quote
instant_out_valid = refl

instant_fee_exact_example :
    (k : ℕ) × (k * 10000 ≤ 20000 * 175)
    × (20000 * 175 < k * 10000 + 10000)
    × (((pos 25 ≤ℤ pos k) × ((compute_quote instant_out).fee_cents ≡ pos k))
        ⊎ ((pos k ≤ℤ pos 25) × ((compute_quote instant_out).fee_cents ≡ pos 25)))
instant_fee_exact_example = instant_fee_exact instant_out 20000 refl instant_out_valid refl

process-ok_example :
    (Skipped 100 gift_pending × (gift_settled ≡ gift_pending))
    ⊎ Done (env_at 200) 100 gift_pending gift_settled
process-ok_example = process-ok (env_at 200) 100 gift_pending gift_settles

initiate-held_example :
    (wire_pending.jobs ≡ [])
    × (wire_pending.timers ≡ [])
    × (process (env_at 200) 100 wire_pending ≡ (ok tt, wire_pending))
initiate-held_example =
    initiate-held (env_at 100) (env_at 200) 1 8 wire bank held_wire refl wire_starts wire_is_held
      (inl refl)
