-- ===== src/Examples/Totp.antt =====
-- A customer who turns the authenticator on, and enters a recovery code twice.
use meal.Prelude.{◌≡◌, refl, true, false, List, [], ◌∷◌, ◌==◌}
use meal.Login.Totp.{
  TotpSecret, TotpEnv, failed_with, not_on, begin_totp, verify_totp, disable_totp, verify_for_login,
}

abbrev env : TotpEnv
env = record {
  now = 1000;
  check = λ code secret. code == secret;
  new_secret = 42;
  new_codes = 7 ∷ 8 ∷ [];
}

abbrev on : List TotpSecret
on = (verify_totp env 1 42 (begin_totp env 1 []).1).1

code_accepted_once :
    ((verify_for_login env 1 7 on).0 ≡ true)
    × ((verify_for_login env 1 7 (verify_for_login env 1 7 on).1).0 ≡ false)
unfolding begin_totp verify_totp verify_for_login
code_accepted_once = (refl, refl)

turned_off :
    ((disable_totp env 1 42 on).1 ≡ []) × ((disable_totp env 1 42 []).0 ≡ failed_with not_on)
unfolding begin_totp verify_totp disable_totp
turned_off = (refl, refl)
