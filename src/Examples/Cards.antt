-- ===== src/Examples/Cards.antt =====
-- Two customers' cards.
use meal.Prelude.{ℕ, ◌≡◌, refl, true, some, none, List, [], ◌∷◌}
use meal.Prelude.Int.{pos}
use meal.Cards.{Card, CardStatus, Wallet, CardEnv, virtual, card_of}
use meal.Cards.Pan.{generate_pan, luhn_check_digit, passes_luhn, generate_pan-passes_luhn}
use meal.Cards.Calls.{CardCall, sets_status, replaces_virtual, run, run-card_of}
use meal.Examples.Data.{bank}

abbrev bin : List ℕ
bin = 4 ∷ 9 ∷ 9 ∷ 9 ∷ 9 ∷ 9 ∷ []

abbrev body : List ℕ
body = 1 ∷ 2 ∷ 3 ∷ 4 ∷ 5 ∷ 6 ∷ 7 ∷ 8 ∷ 9 ∷ []

abbrev number : List ℕ
number = 4 ∷ 9 ∷ 9 ∷ 9 ∷ 9 ∷ 9 ∷ 1 ∷ 2 ∷ 3 ∷ 4 ∷ 5 ∷ 6 ∷ 7 ∷ 8 ∷ 9 ∷ 4 ∷ []

number_is_made : generate_pan bin body ≡ some number
unfolding generate_pan luhn_check_digit
number_is_made = refl

generate_pan-passes_luhn_example : passes_luhn number ≡ true
generate_pan-passes_luhn_example = generate_pan-passes_luhn bin body number number_is_made

abbrev my_card : Card
my_card = record {
  id = 70;
  account_id = 10;
  card_type = virtual;
  status = CardStatus.active;
  spending_limit_cents = pos 500000;
  pan = number;
  activated_at = none;
  frozen_at = none;
  replaced_from_card_id = none;
}

abbrev wallet : Wallet
wallet = record { accounts = bank.accounts; cards = my_card ∷ []; orders = []; updates = [] }

abbrev card_env : CardEnv
card_env = record { bin = bin; default_limit = pos 500000; now = 5; card_id = 71; body = body }

-- The other customer tries to freeze and to replace the card.
abbrev attack : List CardCall
attack = sets_status card_env 2 70 true ∷ replaces_virtual card_env 2 70 ∷ []

run-card_of_example : card_of 70 (run attack wallet) ≡ some my_card
run-card_of_example = run-card_of attack wallet 70 my_card refl (refl, (refl, tt))
