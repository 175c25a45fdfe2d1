-- ===== src/Cards/Calls.antt =====
-- What any sequence of calls leaves of a card.
use meal.Prelude.{
  ℕ, ◌≡◌, inl, inr, refl, ◌∙◌, Bool, true, false, ◌&&◌, ◌||◌, some, List, [], ◌∷◌, All, arith,
  Bool-cases, Option-cases,
}
use meal.Prelude.Table.{find, modify, find-modify}
use meal.Bank.{Account}
use meal.Bank.Balance.{account_key}
use meal.Cards.Pan.{generate_pan}
use meal.Cards.{
  Card, CardStatus, Wallet, CardEnv, virtual, is_virtual, card_key, card_of, is_own, get_for_user,
  is_usable, is_on_its_way, new_card, issue, change_card, toggled, set_status, with_replaced,
  replaces, link_replacement, replace_virtual, order_physical, activated, activate,
}

pub data CardCall : Type 0 where
  sets_status : CardEnv → (user card : ℕ) → Bool → CardCall
  replaces_virtual : CardEnv → (user card : ℕ) → CardCall
  orders_physical : (user account : ℕ) → CardCall
  activates : CardEnv → (user card : ℕ) → CardCall

abbrev pub after : CardCall → Wallet → Wallet
after (sets_status env user k freeze) w = (set_status env user k freeze w).1
after (replaces_virtual env user k) w = (replace_virtual env user k w).1
after (orders_physical user account) w = (order_physical user account w).1
after (activates env user k) w = (activate env user k w).1

abbrev pub run : List CardCall → Wallet → Wallet
run [] w = w
run (c ∷ cs) w = run cs (after c w)

abbrev pub caller : CardCall → ℕ
caller (sets_status _ user _ _) = user
caller (replaces_virtual _ user _) = user
caller (orders_physical user _) = user
caller (activates _ user _) = user

-- Replaced and closed cards are at their end.
abbrev pub is_live : CardStatus → Bool
is_live s = is_usable s || is_on_its_way s

-- A call of this user may change the card.
abbrev pub may_change : ℕ → List Account → Card → Bool
may_change user accounts c = is_own user accounts c && is_live c.status

-- A card that the user may not change is as it was, and the accounts are.
abbrev Safe : ℕ → Wallet → Wallet → Type 0
Safe user w w' =
    (w'.accounts ≡ w.accounts)
    × ((j : ℕ) (c : Card)
        → card_of j w ≡ some c
        → may_change user w.accounts c ≡ false
        → card_of j w' ≡ some c)

Safe-same :
    (user : ℕ) (w w' : Wallet) → w'.accounts ≡ w.accounts → w'.cards ≡ w.cards → Safe user w w'
Safe-same user w w' a e = (a, λ j c h m. ground (arith, e, h))

Safe-change :
    (user k : ℕ) (f : Card → Card) (w w' : Wallet) (c : Card)
    → ((x : Card) → card_key (f x) ≡ card_key x)
    → card_of k w ≡ some c
    → may_change user w.accounts c ≡ true
    → w'.accounts ≡ w.accounts
    → w'.cards ≡ modify card_key k f w.cards
    → Safe user w w'
Safe-change user k f w w' c keep e can a cs =
    (a, λ j d h m. ground (arith, cs, find-modify card_key j k f w.cards keep, e, h, can, m))

-- The user's card that a call is about.
own_card :
    (user k : ℕ) (w : Wallet) {c : Card}
    → get_for_user user k w ≡ some c
    → (card_of k w ≡ some c) × (is_own user w.accounts c ≡ true)
unfolding get_for_user
own_card user k w h = elim (Option-cases (card_of k w)) [
  | inl e ↦ ground (arith, e)
  | inr (x, e) ↦ ground (arith, e)
]

set_status-Safe :
    (env : CardEnv) (user k : ℕ) (freeze : Bool) (w : Wallet)
    → Safe user w (set_status env user k freeze w).1
unfolding set_status
set_status-Safe env user k freeze w =
    let w' = (set_status env user k freeze w).1 in
    elim (Option-cases (get_for_user user k w)) [
      | inl e ↦ Safe-same user w w' (ground (arith, e)) (ground (arith, e))
      | inr (c, e) ↦
          let (found, own) = own_card user k w e in
          elim (Bool-cases (is_usable c.status)) [
            | inl usable ↦
                Safe-change user k (toggled env freeze) w w' c (λ x. refl) found (ground arith)
                  (ground (arith, e, usable)) (ground (arith, e, usable))
            | inr shut ↦ Safe-same user w w' (ground (arith, e, shut)) (ground (arith, e, shut))
          ]
    ]

activate-Safe : (env : CardEnv) (user k : ℕ) (w : Wallet) → Safe user w (activate env user k w).1
unfolding activate
activate-Safe env user k w =
    let w' = (activate env user k w).1 in
    elim (Option-cases (get_for_user user k w)) [
      | inl e ↦ Safe-same user w w' (ground (arith, e)) (ground (arith, e))
      | inr (c, e) ↦
          let (found, own) = own_card user k w e in
          elim (Bool-cases (is_on_its_way c.status)) [
            | inl coming ↦
                Safe-change user k (activated env) w w' c (λ x. refl) found (ground arith)
                  (ground (arith, e, coming)) (ground (arith, e, coming))
            | inr shut ↦ Safe-same user w w' (ground (arith, e, shut)) (ground (arith, e, shut))
          ]
    ]

order_physical-Safe :
    (user account : ℕ) (w : Wallet) → Safe user w (order_physical user account w).1
unfolding order_physical
order_physical-Safe user account w =
    let w' = (order_physical user account w).1 in
    elim (Option-cases (find account_key account w.accounts)) [
      | inl e ↦ Safe-same user w w' (ground (arith, e)) (ground (arith, e))
      | inr (a, e) ↦ Safe-same user w w' (ground (arith, e)) (ground (arith, e))
    ]

Safe-trans : (user : ℕ) (w w' w'' : Wallet) → Safe user w w' → Safe user w' w'' → Safe user w w''
Safe-trans user w w' w'' s t = (t.0 ∙ s.0, λ j c h m. t.1 j c (s.1 j c h m) (rw s.0 m))

-- A card with a fresh id, and its link to the card that it replaces.
link-Safe :
    (env : CardEnv) (user k account : ℕ) (w₀ w : Wallet)
    → Safe user w₀ w
    → Safe user w₀ (link_replacement k w₀ (issue env account virtual w)).1
unfolding issue
link-Safe env user k account w₀ w s = elim (Option-cases (generate_pan env.bin env.body)) [
  | inl e ↦
      Safe-same user w₀ (link_replacement k w₀ (issue env account virtual w)).1 (ground (arith, e))
        (ground (arith, e))
  | inr (pan, e) ↦ elim (Option-cases (card_of env.card_id w)) [
    | inl fresh ↦
        let linked = (link_replacement k w₀ (issue env account virtual w)).1 in
        let c = replaces k (new_card env account virtual pan) in
        let cards : linked.cards ≡ c ∷ w.cards = ground (arith, e, fresh) in
        let same : linked.accounts ≡ w.accounts = ground (arith, e, fresh) in
        Safe-trans user w₀ w linked s (same, λ j d h m. ground (arith, cards, fresh, h))
    | inr (d, taken) ↦
        Safe-same user w₀ (link_replacement k w₀ (issue env account virtual w)).1
          (ground (arith, e, taken)) (ground (arith, e, taken))
  ]
]

replace_virtual-Safe :
    (env : CardEnv) (user k : ℕ) (w : Wallet) → Safe user w (replace_virtual env user k w).1
unfolding replace_virtual
replace_virtual-Safe env user k w =
    let w' = (replace_virtual env user k w).1 in
    elim (Option-cases (get_for_user user k w)) [
      | inl e ↦ Safe-same user w w' (ground (arith, e)) (ground (arith, e))
      | inr (c, e) ↦
          let (found, own) = own_card user k w e in
          elim (Bool-cases (is_virtual c.card_type)) [
            | inr other ↦ Safe-same user w w' (ground (arith, e, other)) (ground (arith, e, other))
            | inl kind ↦ elim (Bool-cases (is_usable c.status)) [
              | inr shut ↦
                  Safe-same user w w' (ground (arith, e, kind, shut))
                    (ground (arith, e, kind, shut))
              | inl usable ↦
                  let marked = change_card k with_replaced w in
                  let to : w' ≡ (link_replacement k w (issue env c.account_id virtual marked)).1 =
                    ground (arith, e, kind, usable) in
                  rw to (
                    link-Safe env user k c.account_id w marked (
                      Safe-change user k with_replaced w marked c (λ x. refl) found (ground arith)
                        refl refl))
            ]
          ]
    ]

after-Safe : (c : CardCall) (w : Wallet) → Safe (caller c) w (after c w)
after-Safe (sets_status env user k freeze) w = set_status-Safe env user k freeze w
after-Safe (replaces_virtual env user k) w = replace_virtual-Safe env user k w
after-Safe (orders_physical user account) w = order_physical-Safe user account w
after-Safe (activates env user k) w = activate-Safe env user k w

-- Any sequence of calls leaves a card exactly as it is, if it is replaced or closed or each call comes
-- from a user who does not own its account.
pub run-card_of :
    (cs : List CardCall) (w : Wallet) (j : ℕ) (c : Card)
    → card_of j w ≡ some c
    → All (λ call. may_change (caller call) w.accounts c ≡ false) cs
    → card_of j (run cs w) ≡ some c
run-card_of [] w j c h m = h
run-card_of (call ∷ cs) w j c h m =
    let (same, keeps) = after-Safe call w in
    run-card_of cs (after call w) j c (keeps j c h m.0) (rw same m.1)
