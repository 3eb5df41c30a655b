-- ===== src/Limiter/Devices.antt =====
-- veil/limiter.go, CheckLimit: the device limit, over the devices that are online.
pub mod Admission
use v2b_x_liusu.Prelude.{String, Bool, true, false, ◌&&◌, none, some, ◌∷◌, [], if◌then◌else◌}
use v2b_x_liusu.Prelude.Int.{ℤ, pos, ltb_ℤ, leb_ℤ}
use v2b_x_liusu.Prelude.Eq.{◌==◌, int_eq, string_eq}
use v2b_x_liusu.Dict.{Dict, lookup, insert, delete}
use v2b_x_liusu.Limiter.{Limiter}

-- deviceLimit > 0 and deviceLimit <= aliveIp
unfoldable pub is_full : ℤ → ℤ → Bool
is_full device_limit alive = ltb_ℤ (pos 0) device_limit && leb_ℤ device_limit alive

module _ {B R : Type 0} where
  -- l.AliveList[uid]
  unfoldable pub alive_ip : ℤ → Limiter B R → ℤ
  alive_ip uid l = elim (lookup uid l.alive_list) [ none ↦ pos 0 | some n ↦ n ]

  -- A device of the last period that comes back as the same user is counted as online again.
  unfoldable pub forget_old : String → ℤ → ℤ → Limiter B R → Limiter B R
  forget_old ip uid v l =
      if v == uid then record l { old_user_online = delete ip l.old_user_online } else l

  unfoldable pub set_online : String → Dict String ℤ → Limiter B R → Limiter B R
  set_online taguuid ips l = record l { user_online_ip = insert taguuid ips l.user_online_ip }

  -- The user is online, and `old` is its map of addresses.
  unfoldable pub add_device :
      String → String → ℤ → ℤ → Dict String ℤ → Limiter B R → Limiter B R × Bool
  unfolding alive_ip is_full forget_old set_online
  add_device taguuid ip uid device_limit old l = elim (lookup ip old) [
    | some _ ↦ (l, false)
    | none ↦
        let stored = set_online taguuid (insert ip uid old) l in
        elim (lookup ip l.old_user_online) [
          | some v ↦ (forget_old ip uid v stored, false)
          | none ↦
              if is_full device_limit (alive_ip uid l)
              then (set_online taguuid (delete ip (insert ip uid old)) stored, true)
              else (stored, false)
        ]
  ]

  -- The first device of the user.
  unfoldable pub first_device : String → String → ℤ → ℤ → Limiter B R → Limiter B R × Bool
  unfolding alive_ip is_full forget_old set_online
  first_device taguuid ip uid device_limit l =
      let stored = set_online taguuid ((ip, uid) ∷ []) l in
      elim (lookup ip l.old_user_online) [
        | some v ↦ (forget_old ip uid v stored, false)
        | none ↦
            if is_full device_limit (alive_ip uid l)
            then (record stored { user_online_ip = delete taguuid stored.user_online_ip }, true)
            else (stored, false)
      ]

  -- The block `if noSSUDP { … }`; the second part is whether the device is turned away.
  unfoldable pub track_device : String → String → ℤ → ℤ → Limiter B R → Limiter B R × Bool
  unfolding add_device first_device
  track_device taguuid ip uid device_limit l = elim (lookup taguuid l.user_online_ip) [
    | some old ↦ add_device taguuid ip uid device_limit old l
    | none ↦ first_device taguuid ip uid device_limit l
  ]
