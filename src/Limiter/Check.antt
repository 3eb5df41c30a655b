-- ===== src/Limiter/Check.antt =====
-- veil/limiter.go, CheckLimit: the limits at a new connection.
pub mod Rejects
pub mod Buckets
pub mod Expiry
pub mod Runs
use v2b_x_liusu.Prelude.{String, Bool, true, false, not, ◌&&◌, Option, none, some, if◌then◌else◌}
use v2b_x_liusu.Prelude.Int.{ℤ, pos, ltb_ℤ, mul64, quot}
use v2b_x_liusu.Prelude.Eq.{◌==◌, int_eq, string_eq}
use v2b_x_liusu.Dict.{lookup, insert, delete}
use v2b_x_liusu.Text.{trim_prefix}
use v2b_x_liusu.Limiter.{Limiter, UserLimitInfo}
use v2b_x_liusu.Limiter.Devices.{track_device}
use v2b_x_liusu.Limiter.Rate.{determine_speed_limit}

-- int64(determineSpeedLimit(nodeLimit, userLimit)) * 1000000 / 8
unfoldable pub bytes_per_second : ℤ → ℤ → ℤ
unfolding mul64 quot determine_speed_limit
bytes_per_second node_limit user_limit =
    quot (mul64 (determine_speed_limit node_limit user_limit) (pos 1000000)) 8

module _ {B R : Type 0} where
  -- The user's own limit at the time `now`; an expired dynamic limit is taken away.
  unfoldable pub user_rate : ℤ → String → UserLimitInfo → Limiter B R → Limiter B R × ℤ
  user_rate now taguuid u l =
      if ltb_ℤ u.expire_time now && not (u.expire_time == pos 0)
      then (if not (u.speed_limit == pos 0)
          then (
            record l {
              user_limit_info =
                  insert taguuid (record u { dynamic_speed_limit = pos 0; expire_time = pos 0 })
                    l.user_limit_info;
            },
            u.speed_limit,
          )
          else (record l { user_limit_info = delete taguuid l.user_limit_info }, pos 0))
      else (l, determine_speed_limit u.speed_limit u.dynamic_speed_limit)

  -- The bucket of the user, made on first use.
  unfoldable pub take_bucket : (ℤ → B) → String → ℤ → Limiter B R → Limiter B R × Option B × Bool
  take_bucket new_bucket taguuid limit l =
      if ltb_ℤ (pos 0) limit
      then (elim (lookup taguuid l.speed_limiter) [
        | some bucket ↦ (l, some bucket, false)
        | none ↦ (
          record l { speed_limiter = insert taguuid (new_bucket limit) l.speed_limiter },
          some (new_bucket limit),
          false,
        )
      ])
      else (l, none, false)

  -- The block `if noSSUDP { … }`, skipped where devices are not counted.
  unfoldable pub count_device :
      Bool → String → String → UserLimitInfo → Limiter B R → Limiter B R × Bool
  count_device true taguuid ip u l = track_device taguuid ip u.uid u.device_limit l
  count_device false taguuid ip u l = (l, false)

  -- The early return of a device that is turned away, or the bucket.
  unfoldable pub give_bucket :
      (ℤ → B) → String → ℤ → Limiter B R × Bool → Limiter B R × Option B × Bool
  give_bucket new_bucket taguuid user_limit (l, true) = (l, none, true)
  give_bucket new_bucket taguuid user_limit (l, false) =
      take_bucket new_bucket taguuid (bytes_per_second l.speed_limit user_limit) l

  -- CheckLimit(taguuid, ip, isTcp, noSSUDP) at the time `now`: the bucket and whether to reject.
  -- `isTcp` is not used by the body.
  unfoldable pub check_limit :
      (ℤ → B) → ℤ → String → String → Bool → Limiter B R → Limiter B R × Option B × Bool
  unfolding give_bucket
  check_limit new_bucket now taguuid raw_ip no_ss_udp l = elim (lookup taguuid l.user_limit_info) [
    | none ↦ (l, none, true)
    | some u ↦
        let (l', user_limit) = user_rate now taguuid u l in
        give_bucket new_bucket taguuid user_limit
          (count_device no_ss_udp taguuid (trim_prefix raw_ip "::ffff:") u l')
  ]
