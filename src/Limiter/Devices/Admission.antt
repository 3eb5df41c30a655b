-- ===== src/Limiter/Devices/Admission.antt =====
-- When CheckLimit turns a device away, and what that does to the devices that are online.
use v2b_x_liusu.Prelude.{
  ◌≡◌, String, not, ◌&&◌, Option, none, some, arith, eq_iff, if◌then◌else◌, is_some, [], ◌∷◌, inl,
  inr, Option-cases,
}
use mathlib.Core.Option.{get_or}
use v2b_x_liusu.Prelude.Int.{ℤ}
use v2b_x_liusu.Prelude.Eq.{◌==◌, string_eq}
use v2b_x_liusu.Dict.{Dict, lookup, insert, delete, lookup-insert, lookup-delete}
use v2b_x_liusu.Limiter.{Limiter}
use v2b_x_liusu.Limiter.Devices.{
  alive_ip, is_full, set_online, add_device, first_device, track_device,
}

-- The user under whom the address `ip` of `taguuid` is online.
abbrev pub online : {B R : Type 0} → Limiter B R → String → String → Option ℤ
online l taguuid ip = elim (lookup taguuid l.user_online_ip) [ none ↦ none | some m ↦ lookup ip m ]

module _ {B R : Type 0} (taguuid ip : String) (uid device_limit : ℤ) where
  -- A device is turned away exactly if it is not online, was not online in the last period, and
  -- the user has a device limit that its devices in use reach.
  pub track_device_rejects :
      (l : Limiter B R)
      → (track_device taguuid ip uid device_limit l).1 ≡ (
          not (is_some (online l taguuid ip))
          && not (is_some (lookup ip l.old_user_online))
          && is_full device_limit (alive_ip uid l))
  unfolding track_device
  track_device_rejects l = ground arith

module _ {B R : Type 0} where
  online-set_online :
      (taguuid : String) (m : Dict String ℤ) (l : Limiter B R) (t j : String)
      → online (set_online taguuid m l) t j ≡ (if taguuid == t then lookup j m else online l t j)
  unfolding set_online
  online-set_online taguuid m l t j = ground (arith, lookup-insert taguuid t m l.user_online_ip)

module _ {B R : Type 0} (taguuid ip : String) (uid device_limit : ℤ) where
  add_device_online :
      (old : Dict String ℤ) (l : Limiter B R) (t j : String)
      → lookup taguuid l.user_online_ip ≡ some old
      → let r = add_device taguuid ip uid device_limit old l in
        online r.0 t j ≡ (
          if not r.1 && taguuid == t && ip == j
          then some (get_or (lookup ip old) uid)
          else online l t j)
  unfolding add_device
  add_device_online old l t j h = ground (
    arith,
    eq_iff taguuid t,
    eq_iff ip j,
    lookup-insert ip j uid old,
    lookup-delete ip j (insert ip uid old),
    lookup-insert taguuid t (insert ip uid old) l.user_online_ip,
    lookup-insert taguuid t (delete ip (insert ip uid old))
        (insert taguuid (insert ip uid old) l.user_online_ip),
  )

  first_device_online :
      (l : Limiter B R) (t j : String)
      → lookup taguuid l.user_online_ip ≡ none
      → let r = first_device taguuid ip uid device_limit l in
        online r.0 t j ≡ (if not r.1 && taguuid == t && ip == j then some uid else online l t j)
  unfolding first_device lookup
  first_device_online l t j h = ground (
    arith,
    eq_iff taguuid t,
    eq_iff ip j,
    lookup-insert taguuid t ((ip, uid) ∷ []) l.user_online_ip,
    lookup-delete taguuid t (insert taguuid ((ip, uid) ∷ []) l.user_online_ip),
  )

  -- After the device check exactly one thing can have changed: the device, if it was let in, is
  -- online, under the user it was online for before or else under `uid`. In particular a device that
  -- is turned away leaves every entry as it was.
  pub track_device_online :
      (l : Limiter B R) (t j : String)
      → let r = track_device taguuid ip uid device_limit l in
        online r.0 t j ≡ (
          if not r.1 && taguuid == t && ip == j
          then some (get_or (online l taguuid ip) uid)
          else online l t j)
  unfolding track_device
  track_device_online l t j = elim (Option-cases (lookup taguuid l.user_online_ip)) [
    | inl e ↦ rw (e, track_device) (ground (arith, first_device_online l t j e))
    | inr (old, e) ↦ rw (e, track_device) (ground (arith, add_device_online old l t j e))
  ]
