-- ===== src/Quote/Fees.antt =====
-- What a quote promises: which transfers are valid, and what they cost.
use meal.Prelude.{
  ℕ, ◌+◌, ◌*◌, ◌≡◌, ◌≢◌, ◌↔◌, ◌≤◌, ◌<◌, ◌/◌, refl, if◌then◌else◌, ◌⊎◌, true, arith, Bool-cases, inl,
  inr,
}
use meal.Prelude.Int.{ℤ, pos, ◌≤ℤ◌, ◌*ℤ◌, div_ℤ, ltb_ℤ, pos_part}
use meal.Bank.{internal}
use meal.Quote.{QuoteParams, compute_quote, price}

-- A quote is valid exactly when the amount is within the limits and, if the transfer is instant, the
-- kind is external.
pub compute_quote-valid_iff :
    (p : QuoteParams)
    → ((compute_quote p).valid ≡ true) ↔ (
        (p.min_cents ≤ℤ p.amount_cents)
        × (p.amount_cents ≤ℤ p.max_cents)
        × (p.instant ≡ true → p.kind ≢ internal))
unfolding compute_quote
compute_quote-valid_iff p = ((λ v. ground arith), (λ h. ground arith))

-- The rate applied to an amount, rounded down.
rate_of_pos : (n bps : ℕ) → div_ℤ (pos n *ℤ pos bps) 10000 ≡ pos (n * bps / 10000)
unfolding ◌*ℤ◌ div_ℤ
rate_of_pos n bps = ground arith

rate-le : (n bps : ℕ) → bps ≤ 10000 → n * bps / 10000 ≤ n
rate-le n bps h = let m : n * bps ≤ n * 10000 = grind arith in omega arith

nonneg-eq-pos : (a : ℤ) → pos 0 ≤ℤ a → a ≡ pos (pos_part a)
nonneg-eq-pos a h = ground arith

-- A valid quote carries the price of the schedule.
valid_fee :
    (p : QuoteParams) → (compute_quote p).valid ≡ true → (compute_quote p).fee_cents ≡ (price p).0
unfolding compute_quote
valid_fee p v = ground arith

instant_price :
    (p : QuoteParams) (n : ℕ)
    → p.amount_cents ≡ pos n
    → p.instant ≡ true
    → (price p).0 ≡ (
        let k = n * p.instant_fee_bps / 10000 in
        if ltb_ℤ p.instant_fee_min_cents (pos k) then pos k else p.instant_fee_min_cents)
instant_price p n a i = rw (i, a, rate_of_pos n p.instant_fee_bps)

-- The fee of a valid instant quote on n cents is k cents, the n-th part of the rate rounded down to a
-- cent, where that is above the minimum, and the minimum otherwise.
pub instant_fee_exact :
    (p : QuoteParams) (n : ℕ)
    → p.amount_cents ≡ pos n
    → (compute_quote p).valid ≡ true
    → p.instant ≡ true
    → (k : ℕ) × (k * 10000 ≤ n * p.instant_fee_bps)
      × (n * p.instant_fee_bps < k * 10000 + 10000)
      × (((p.instant_fee_min_cents ≤ℤ pos k) × ((compute_quote p).fee_cents ≡ pos k))
          ⊎ ((pos k ≤ℤ p.instant_fee_min_cents)
              × ((compute_quote p).fee_cents ≡ p.instant_fee_min_cents)))
instant_fee_exact p n a v i =
    let k = n * p.instant_fee_bps / 10000 in
    (
      k,
      omega arith,
      omega arith,
      rw (valid_fee p v, instant_price p n a i)
          (elim (Bool-cases (ltb_ℤ p.instant_fee_min_cents (pos k))) [
            | inl above ↦ rw above (inl (ground (arith, above), refl))
            | inr below ↦ rw below (inr (ground (arith, below), refl))
          ]),
    )

-- A valid quote costs nothing below zero, and no more than the amount itself, if the instant rate is
-- at most 100% and the configured minimum of a transfer covers the fixed fees.
pub compute_quote-fee_bounds :
    (p : QuoteParams)
    → pos 460 ≤ℤ p.min_cents
    → p.instant_fee_bps ≤ 10000
    → pos 0 ≤ℤ p.instant_fee_min_cents
    → p.instant_fee_min_cents ≤ℤ p.min_cents
    → (compute_quote p).valid ≡ true
    → (pos 0 ≤ℤ (compute_quote p).fee_cents) × ((compute_quote p).fee_cents ≤ℤ p.amount_cents)
compute_quote-fee_bounds p lo rate fee_lo fee_hi v =
    let (above, _, _) = (compute_quote-valid_iff p).0 v in
    let n = pos_part p.amount_cents in
    let a : p.amount_cents ≡ pos n = nonneg-eq-pos p.amount_cents (omega arith) in
    elim (Bool-cases p.instant) [
      | inl i ↦
          rw (valid_fee p v, instant_price p n a i)
            (ground (arith, a, rate-le n p.instant_fee_bps rate))
      | inr i ↦ rw (valid_fee p v) (ground (arith, i))
    ]
