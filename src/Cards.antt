-- ===== src/Cards.antt =====
-- CardsService (cards/cards.service.ts) and card-pan.util.ts. A card's number is kept as digits where
-- the code keeps it encrypted.
pub mod Pan
pub mod Calls
use meal.Prelude.{
  ℕ, Bool, true, false, not, ◌&&◌, ◌||◌, Option, none, some, List, [], ◌∷◌, ◌==◌, if◌then◌else◌,
}
use meal.Prelude.Int.{ℤ}
use meal.Prelude.Table.{find, modify}
use meal.Bank.{Account, AccountType, checking, savings}
use meal.Bank.Balance.{account_key}
use meal.Cards.Pan.{generate_pan}

pub data CardType : Type 0 where
  virtual physical : CardType

pub data CardStatus : Type 0 where
  active frozen replaced shipped delivered closed : CardStatus

pub record Card : Type 0 where
  pub id : ℕ
  pub account_id : ℕ
  pub card_type : CardType
  pub status : CardStatus
  pub spending_limit_cents : ℤ
  pub pan : List ℕ
  pub activated_at : Option ℕ
  pub frozen_at : Option ℕ
  pub replaced_from_card_id : Option ℕ

pub record CardOrder : Type 0 where
  pub user_id : ℕ
  pub eta_days : ℕ

-- `card.updated`
pub record CardUpdated : Type 0 where
  pub user_id : ℕ
  pub card_id : ℕ
  pub status : CardStatus

pub record Wallet : Type 0 where
  pub accounts : List Account
  pub cards : List Card
  pub orders : List CardOrder
  pub updates : List CardUpdated

pub data CardError : Type 0 where
  card_not_found cannot_toggle not_revealable only_virtual not_replaceable : CardError
  not_your_account only_checking not_activatable bin_invalid id_taken : CardError

pub data Answer {ℓ} (A : Type ℓ) : Type ℓ where
  answered : A → Answer A
  denied : CardError → Answer A

-- What a call takes from outside: the configuration, the clock, a fresh id and nine random digits.
pub record CardEnv : Type 0 where
  pub bin : List ℕ
  pub default_limit : ℤ
  pub now : ℕ
  pub card_id : ℕ
  pub body : List ℕ

abbrev pub card_key : Card → ℕ
card_key c = c.id

abbrev pub card_of : ℕ → Wallet → Option Card
card_of k w = find card_key k w.cards

abbrev pub belongs_to : ℕ → Option Account → Bool
belongs_to user none = false
belongs_to user (some a) = a.user_id == user

abbrev pub is_own : ℕ → List Account → Card → Bool
is_own user accounts c = belongs_to user (find account_key c.account_id accounts)

abbrev pub if_own : ℕ → List Account → Option Card → Option Card
if_own user accounts none = none
if_own user accounts (some c) = if is_own user accounts c then some c else none

unfoldable pub get_for_user : ℕ → ℕ → Wallet → Option Card
get_for_user user k w = if_own user w.accounts (card_of k w)

abbrev pub is_usable : CardStatus → Bool
is_usable active = true
is_usable frozen = true
is_usable _ = false

abbrev pub is_on_its_way : CardStatus → Bool
is_on_its_way shipped = true
is_on_its_way delivered = true
is_on_its_way _ = false

abbrev pub is_virtual : CardType → Bool
is_virtual virtual = true
is_virtual physical = false

abbrev pub is_active : CardStatus → Bool
is_active active = true
is_active _ = false

abbrev pub new_card : CardEnv → ℕ → CardType → List ℕ → Card
new_card env account card_type pan = record {
  id = env.card_id;
  account_id = account;
  card_type = card_type;
  status = active;
  spending_limit_cents = env.default_limit;
  pan = pan;
  activated_at = none;
  frozen_at = none;
  replaced_from_card_id = none;
}

-- `card.create`: the id is the primary key.
abbrev pub create_card : Card → Wallet → Answer Card × Wallet
create_card c w = elim (card_of c.id w) [
  | none ↦ (answered c, record w { cards = c ∷ w.cards })
  | some d ↦ (denied id_taken, w)
]

-- `issue` with the default limit.
unfoldable pub issue : CardEnv → ℕ → CardType → Wallet → Answer Card × Wallet
issue env account card_type w = elim (generate_pan env.bin env.body) [
  | none ↦ (denied bin_invalid, w)
  | some pan ↦ create_card (new_card env account card_type pan) w
]

abbrev pub change_card : ℕ → (Card → Card) → Wallet → Wallet
change_card k f w = record w { cards = modify card_key k f w.cards }

-- The `update` of a status and the event about it.
abbrev pub update_status : ℕ → ℕ → (Card → Card) → CardStatus → Wallet → Wallet
update_status user k f status w = record (change_card k f w) {
  updates = record { user_id = user; card_id = k; status = status } ∷ w.updates;
}

abbrev pub target_status : Bool → CardStatus
target_status freeze = if freeze then frozen else active

abbrev pub toggled : CardEnv → Bool → Card → Card
toggled env freeze c = record c {
  status = target_status freeze;
  frozen_at = if freeze then some env.now else none;
}

-- `setStatus`; `freeze` says whether the target is `frozen`.
unfoldable pub set_status : CardEnv → ℕ → ℕ → Bool → Wallet → Answer Card × Wallet
set_status env user k freeze w = elim (get_for_user user k w) [
  | none ↦ (denied card_not_found, w)
  | some c ↦
      if is_usable c.status
      then (
        answered (toggled env freeze c),
        update_status user k (toggled env freeze) (target_status freeze) w,
      )
      else (denied cannot_toggle, w)
]

-- `reveal`: the number of an active card.
unfoldable pub reveal : ℕ → ℕ → Wallet → Answer (List ℕ)
reveal user k w = elim (get_for_user user k w) [
  | none ↦ denied card_not_found
  | some c ↦ if is_active c.status then answered c.pan else denied not_revealable
]

abbrev pub with_replaced : Card → Card
with_replaced c = record c { status = replaced }

abbrev pub replaces : ℕ → Card → Card
replaces k c = record c { replaced_from_card_id = some k }

-- The end of the transaction: a failed `issue` takes the first update back.
abbrev pub link_replacement : ℕ → Wallet → Answer Card × Wallet → Answer Card × Wallet
link_replacement k w (answered c, w') = (answered c, change_card c.id (replaces k) w')
link_replacement k w (denied e, w') = (denied e, w)

unfoldable pub replace_virtual : CardEnv → ℕ → ℕ → Wallet → Answer Card × Wallet
replace_virtual env user k w = elim (get_for_user user k w) [
  | none ↦ (denied card_not_found, w)
  | some c ↦
      if not (is_virtual c.card_type)
      then (denied only_virtual, w)
      else if not (is_usable c.status)
      then (denied not_replaceable, w)
      else link_replacement k w (issue env c.account_id virtual (change_card k with_replaced w))
]

abbrev pub is_checking : AccountType → Bool
is_checking checking = true
is_checking savings = false

unfoldable pub order_physical : ℕ → ℕ → Wallet → Answer CardOrder × Wallet
order_physical user account w =
    let order : CardOrder = record { user_id = user; eta_days = 7 } in
    elim (find account_key account w.accounts) [
      | none ↦ (denied not_your_account, w)
      | some a ↦
          if not (a.user_id == user)
          then (denied not_your_account, w)
          else if not (is_checking a.account_type)
          then (denied only_checking, w)
          else (answered order, record w { orders = order ∷ w.orders })
    ]

abbrev pub activated : CardEnv → Card → Card
activated env c = record c { status = active; activated_at = some env.now }

unfoldable pub activate : CardEnv → ℕ → ℕ → Wallet → Answer Card × Wallet
activate env user k w = elim (get_for_user user k w) [
  | none ↦ (denied card_not_found, w)
  | some c ↦
      if is_on_its_way c.status
      then (answered (activated env c), update_status user k (activated env) active w)
      else (denied not_activatable, w)
]
