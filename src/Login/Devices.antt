-- ===== src/Login/Devices.antt =====
-- DevicesService (devices/devices.service.ts), and the fingerprint of a device
-- (devices/fingerprint.util.ts). Names, places and addresses of devices are left out.
use meal.Prelude.{ℕ, Bool, true, false, ◌&&◌, Option, none, some, ◌∷◌, ◌==◌}
use meal.Prelude.Table.{find_first, modify}
use meal.Sessions.Rows.{Device, SessionStore}
use meal.Sessions.{device_key}
use meal.Login.Rows.{LoginConfig, LoginContext}

abbrev pub fingerprint : LoginConfig → LoginContext → ℕ
fingerprint config ctx =
    config.digest ctx.user_agent ctx.accept_language ctx.timezone ctx.canvas_hash

abbrev pub is_device : (user fingerprint : ℕ) → Device → Bool
is_device user fp d = d.user_id == user && d.fingerprint == fp

abbrev pub find_known : (user fingerprint : ℕ) → SessionStore → Option Device
find_known user fp s = find_first (is_device user fp) s.devices

abbrev pub seen_on_login : ℕ → Device → Device
seen_on_login now d = record d { last_seen_at = now; revoked_at = none }

abbrev pub new_device : (now device user fingerprint : ℕ) → Device
new_device now k user fp = record {
  id = k;
  user_id = user;
  fingerprint = fp;
  trusted = false;
  last_seen_at = now;
  revoked_at = none;
}

abbrev pub change_device : ℕ → (Device → Device) → SessionStore → SessionStore
change_device k f s = record s { devices = modify device_key k f s.devices }

abbrev pub add_device : Device → SessionStore → SessionStore
add_device d s = record s { devices = d ∷ s.devices }

-- `upsertOnLogin`, with the id that a new device gets.
unfoldable pub upsert_on_login :
    (now new_id user fingerprint : ℕ) → SessionStore → Device × SessionStore
upsert_on_login now new_id user fp s = elim (find_known user fp s) [
  | none ↦ let d = new_device now new_id user fp in (d, add_device d s)
  | some d ↦ (seen_on_login now d, change_device d.id (seen_on_login now) s)
]

abbrev pub as_trusted : Device → Device
as_trusted d = record d { trusted = true }

unfoldable pub mark_trusted : ℕ → SessionStore → SessionStore
mark_trusted k s = change_device k as_trusted s

abbrev pub is_trusted : Device → Bool
is_trusted d = elim d.revoked_at [ none ↦ d.trusted | some t ↦ false ]
