-- ===== src/Login/Calls.antt =====
-- The calls of AuthService and of ElevationService, in any order.
use meal.Prelude.{ℕ, List, [], ◌∷◌}
use meal.Login.Rows.{AuthUser, LoginStore, LoginConfig, LoginEnv, LoginContext}
use meal.Login.Elevation.{ElevationScope, begin_challenge, verify_elevation}
use meal.Login.{
  login, mfa_verify, mfa_resend, refresh, logout, change_password, set_first_login_password,
}

pub data LoginCall : Type 0 where
  logs_in : LoginEnv → (email password : ℕ) → LoginContext → LoginCall
  verifies : LoginEnv → (token code : ℕ) → LoginContext → LoginCall
  resends : LoginEnv → (token : ℕ) → LoginCall
  refreshes : LoginEnv → (presented : ℕ) → LoginCall
  logs_out : (now session acting_user : ℕ) → LoginCall
  changes_password : ℕ → AuthUser → (current new session : ℕ) → LoginCall
  sets_password : ℕ → AuthUser → (new session : ℕ) → LoginCall
  begins_elevation : LoginEnv → (user fingerprint : ℕ) → LoginCall
  elevates : ℕ → (user challenge code : ℕ) → ElevationScope → LoginCall

abbrev pub after : LoginConfig → LoginCall → LoginStore → LoginStore
after config (logs_in env email password ctx) s = (login config env email password ctx s).1
after config (verifies env token code ctx) s = (mfa_verify config env token code ctx s).1
after config (resends env token) s = (mfa_resend config env token s).1
after config (refreshes env presented) s = (refresh config env presented s).1
after config (logs_out now k user) s = (logout now k user s).1
after config (changes_password now u current new k) s =
    (change_password config now u current new k s).1
after config (sets_password now u new k) s = (set_first_login_password config now u new k s).1
after config (begins_elevation env user fp) s = (begin_challenge config env user fp s).1
after config (elevates now user k code scope) s =
    (verify_elevation config now user k code scope s).1

abbrev pub run : LoginConfig → List LoginCall → LoginStore → LoginStore
run config [] s = s
run config (c ∷ cs) s = run config cs (after config c s)
