-- ===== src/CheckDeposits/Submit.antt =====
-- What a submitted check has passed, and the row that it leaves.
use meal.Prelude.{
  ℕ, ◌≡◌, refl, sym, ap, ◌∙◌, true, false, some, none, ◌∷◌, arith, Option-cases, ltb, ◌==◌,
}
use meal.Prelude.Int.{pos, leb_ℤ, ltb_ℤ}
use meal.Prelude.Table.{find_first}
use meal.Bank.{Bank, Account}
use meal.Bank.Action.{Result, gets-ok, ok, err, ◌>>◌, >>=-ok, >>-ok, pure, throw_if-ok, or_throw-ok}
use meal.Bank.Flow.{Reads, >>-Reads, Careful, >>-Careful, >>=-Careful}
use meal.CheckDeposits.Rows.{Image, ImageKey, CheckDeposit, SubmitCheckInput, Side, front, back}
use meal.CheckDeposits.{
  DepositEnv, is_allowed, validate_image, image_key, is_checking_of, deposit_of, create_deposit,
  new_deposit, store_side, take_in, submit_deposit,
}

-- An image that is not empty, of an allowed type, and not too large.
pub record ValidImage (max_bytes : ℕ) (image : Image) : Type 0 where
  pub not_empty : (image.size == 0) ≡ false
  pub allowed : is_allowed image.content_type ≡ true
  pub small : ltb max_bytes image.size ≡ false

validate_image-ok :
    (max_bytes : ℕ) (image : Image) (b : Bank) {u : Unit} {b' : Bank}
    → validate_image max_bytes image b ≡ (ok u, b')
    → (b' ≡ b) × ValidImage max_bytes image
unfolding ◌>>◌
validate_image-ok max_bytes image b h = (
  ground (arith, h),
  record { not_empty = ground (arith, h); allowed = ground (arith, h); small = ground (arith, h) },
)

-- The bank with the pending deposit.
abbrev pub with_deposit : DepositEnv → SubmitCheckInput → Account → Bank → Bank
with_deposit env input account b = record b {
  deposits =
      new_deposit env input account.id (image_key input.user_id env.id front input.front)
        (image_key input.user_id env.id back input.back)
      ∷ b.deposits;
}

-- What an accepted submission has passed and done.
pub record Submitted (env : DepositEnv) (input : SubmitCheckInput) (b b' : Bank) : Type 0 where
  pub account : Account
  pub front_image : ValidImage env.max_bytes input.front
  pub back_image : ValidImage env.max_bytes input.back
  pub positive : leb_ℤ input.amount_cents (pos 0) ≡ false
  pub within_limit : ltb_ℤ (pos 50000000) input.amount_cents ≡ false
  pub has_account : find_first (is_checking_of input.user_id) b.accounts ≡ some account
  pub fresh : deposit_of env.id b ≡ none
  pub done : b' ≡ with_deposit env input account b

validate_image-Reads :
    (max_bytes : ℕ) (image : Image) (b : Bank) → Reads (validate_image max_bytes image) b
validate_image-Reads max_bytes image b = >>-Reads _ _ b refl (>>-Reads _ _ b refl refl)

store_side-Reads :
    (env : DepositEnv) (user : ℕ) (side : Side) (image : Image) (b : Bank)
    → Reads (store_side env user side image) b
store_side-Reads env user side image b = >>-Reads _ _ b refl refl

store_side-ok :
    (env : DepositEnv) (user : ℕ) (side : Side) (image : Image) (b : Bank) {key : ImageKey}
    {b' : Bank}
    → store_side env user side image b ≡ (ok key, b')
    → (b' ≡ b) × (key ≡ image_key user env.id side image)
unfolding ◌>>◌
store_side-ok env user side image b h = ground (arith, h)

create_deposit-ok :
    (d : CheckDeposit) (b : Bank) {u : Unit} {b' : Bank}
    → create_deposit d b ≡ (ok u, b')
    → (deposit_of d.id b ≡ none) × (b' ≡ record b { deposits = d ∷ b.deposits })
unfolding create_deposit
create_deposit-ok d b h = ground (arith, h, Option-cases (deposit_of d.id b))

-- A failed creation, and the answer after it.
create_deposit-Careful :
    (d : CheckDeposit) (k : ℕ) (b : Bank) → Careful (create_deposit d >> pure k) b
unfolding create_deposit ◌>>◌
create_deposit-Careful d k b x b' h = ground (arith, h)

stored_at :
    (env : DepositEnv) (input : SubmitCheckInput) (account : Account) (b b₄ : Bank) (f g : ImageKey)
    → b₄ ≡ b
    → f ≡ image_key input.user_id env.id front input.front
    → g ≡ image_key input.user_id env.id back input.back
    → record b₄ { deposits = new_deposit env input account.id f g ∷ b₄.deposits }
      ≡ with_deposit env input account b
stored_at env input account b b₄ f g same k₁ k₂ = rw (same, k₁, k₂) refl

-- The value of a result, if there is one.
abbrev answer_of : Result ℕ × Bank → ℕ
answer_of (ok k, b) = k
answer_of (err x, b) = 0

-- The account that was found, and the row that was added.
record TakenIn (env : DepositEnv) (input : SubmitCheckInput) (b b' : Bank) : Type 0 where
  account : Account
  has_account : find_first (is_checking_of input.user_id) b.accounts ≡ some account
  fresh : deposit_of env.id b ≡ none
  done : b' ≡ with_deposit env input account b

TakenIn-of :
    (env : DepositEnv) (input : SubmitCheckInput) (b : Bank) {k : ℕ} {b' : Bank}
    → take_in env input b ≡ (ok k, b')
    → (k ≡ env.id) × TakenIn env input b b'
unfolding take_in
TakenIn-of env input b h =
    let (o, b₁, e₁, h₁) = >>=-ok _ _ b h in
    let (account, b₂, e₂, h₂) = >>=-ok _ _ b₁ h₁ in
    let (f, b₃, e₃, h₃) = >>=-ok _ _ b₂ h₂ in
    let (g, b₄, e₄, h₄) = >>=-ok _ _ b₃ h₃ in
    let (_, b₅, e₅, h₅) = >>-ok _ _ b₄ h₄ in
    let (is_first, s₁) = gets-ok (λ b. find_first (is_checking_of input.user_id) b.accounts) b e₁ in
    let (found, s₂) = or_throw-ok o _ b₁ e₂ in
    let (s₃, k₁) = store_side-ok env input.user_id front input.front b₂ e₃ in
    let (s₄, k₂) = store_side-ok env input.user_id back input.back b₃ e₄ in
    let (fresh, made) = create_deposit-ok (new_deposit env input account.id f g) b₄ e₅ in
    let at₄ : b₄ ≡ b = s₄ ∙ s₃ ∙ s₂ ∙ s₁ in
    (
      sym (ap answer_of h₅),
      record {
        account = account;
        has_account = sym is_first ∙ found;
        fresh = rw at₄ at fresh;
        done = sym (ap (λ r. r.1) h₅) ∙ made ∙ stored_at env input account b b₄ f g at₄ k₁ k₂;
      },
    )

-- A check that is accepted for review has two valid images and an amount above zero and up to the limit;
-- its user has a checking account; and one pending deposit to that account, under a fresh id, is added.
pub submit_deposit-ok :
    (env : DepositEnv) (input : SubmitCheckInput) (b : Bank) {k : ℕ} {b' : Bank}
    → submit_deposit env input b ≡ (ok k, b')
    → (k ≡ env.id) × Submitted env input b b'
unfolding submit_deposit
submit_deposit-ok env input b h =
    let (_, b₁, e₁, h₁) = >>-ok _ _ b h in
    let (_, b₂, e₂, h₂) = >>-ok _ _ b₁ h₁ in
    let (_, b₃, e₃, h₃) = >>-ok _ _ b₂ h₂ in
    let (_, b₄, e₄, h₄) = >>-ok _ _ b₃ h₃ in
    let (s₁, v₁) = validate_image-ok env.max_bytes input.front b e₁ in
    let (s₂, v₂) = validate_image-ok env.max_bytes input.back b₁ e₂ in
    let (p₃, s₃) = throw_if-ok _ _ b₂ e₃ in
    let (p₄, s₄) = throw_if-ok _ _ b₃ e₄ in
    let at₄ : b₄ ≡ b = s₄ ∙ s₃ ∙ s₂ ∙ s₁ in
    let (id, t) = TakenIn-of env input b (rw at₄ at h₄) in
    (
      id,
      record {
        account = t.account;
        front_image = v₁;
        back_image = v₂;
        positive = p₃;
        within_limit = p₄;
        has_account = t.has_account;
        fresh = t.fresh;
        done = t.done;
      },
    )

take_in-Careful :
    (env : DepositEnv) (input : SubmitCheckInput) (b : Bank) → Careful (take_in env input) b
unfolding take_in
take_in-Careful env input b = >>=-Careful _ _ b refl λ o. >>=-Careful _ _ b refl λ account.
    >>=-Careful _ _ b (store_side-Reads env input.user_id front input.front b) λ f.
      >>=-Careful _ _ b (store_side-Reads env input.user_id back input.back b)
        λ g. create_deposit-Careful (new_deposit env input account.id f g) env.id b

pub submit_deposit-err :
    (env : DepositEnv) (input : SubmitCheckInput) (b : Bank) → Careful (submit_deposit env input) b
unfolding submit_deposit
submit_deposit-err env input b =
    >>-Careful _ _ b (validate_image-Reads env.max_bytes input.front b) (
      >>-Careful _ _ b (validate_image-Reads env.max_bytes input.back b)
        (>>-Careful _ _ b refl (>>-Careful _ _ b refl (take_in-Careful env input b))))
