-- ===== src/Limiter/Check/Expiry.antt =====
-- What CheckLimit does to the stored limits of a user whose dynamic limit has expired.
use v2b_x_liusu.Prelude.{
  ◌≡◌, refl, ap, ◌∙◌, String, Bool, true, false, not, ◌&&◌, Option, none, some, arith, eq_iff,
  if◌then◌else◌,
}
use v2b_x_liusu.Prelude.Int.{ℤ, pos, ltb_ℤ}
use v2b_x_liusu.Prelude.Eq.{◌==◌, int_eq, string_eq}
use v2b_x_liusu.Dict.{lookup, lookup-insert, lookup-delete}
use v2b_x_liusu.Limiter.{Limiter, UserLimitInfo}
use v2b_x_liusu.Limiter.Devices.{track_device}
use v2b_x_liusu.Limiter.Check.{user_rate, take_bucket, count_device, give_bucket, check_limit}

-- The dynamic limit is over: a time is set and lies before `now`.
abbrev pub is_expired : ℤ → UserLimitInfo → Bool
is_expired now u = ltb_ℤ u.expire_time now && not (u.expire_time == pos 0)

-- What is stored for the user afterwards.
abbrev pub after_expiry : ℤ → UserLimitInfo → Option UserLimitInfo
after_expiry now u =
    if is_expired now u
    then (if u.speed_limit == pos 0
        then none
        else some (record u { dynamic_speed_limit = pos 0; expire_time = pos 0 }))
    else some u

module _ {B R : Type 0} (new_bucket : ℤ → B) (now : ℤ) (taguuid : String) where
  user_rate_info :
      (u : UserLimitInfo) (l : Limiter B R) (t : String)
      → lookup taguuid l.user_limit_info ≡ some u
      → lookup t (user_rate now taguuid u l).0.user_limit_info
        ≡ (if taguuid == t then after_expiry now u else lookup t l.user_limit_info)
  unfolding user_rate
  user_rate_info u l t e = ground (
    arith,
    eq_iff taguuid t,
    lookup-delete taguuid t l.user_limit_info,
    lookup-insert taguuid t (record u { dynamic_speed_limit = pos 0; expire_time = pos 0 })
        l.user_limit_info,
  )

  track_device_info :
      (ip : String) (uid device_limit : ℤ) (l : Limiter B R)
      → (track_device taguuid ip uid device_limit l).0.user_limit_info ≡ l.user_limit_info
  unfolding track_device
  track_device_info ip uid device_limit l = ground arith

  count_device_info :
      (no_ss_udp : Bool) (ip : String) (u : UserLimitInfo) (l : Limiter B R)
      → (count_device no_ss_udp taguuid ip u l).0.user_limit_info ≡ l.user_limit_info
  unfolding count_device
  count_device_info true ip u l = track_device_info ip u.uid u.device_limit l
  count_device_info false ip u l = refl

  give_bucket_info :
      (user_limit : ℤ) (r : Limiter B R × Bool)
      → (give_bucket new_bucket taguuid user_limit r).0.user_limit_info ≡ r.0.user_limit_info
  unfolding give_bucket take_bucket
  give_bucket_info user_limit (l, true) = refl
  give_bucket_info user_limit (l, false) = ground arith

  pub check_limit_info :
      (raw_ip : String) (no_ss_udp : Bool) (u : UserLimitInfo) (l : Limiter B R) (t : String)
      → lookup taguuid l.user_limit_info ≡ some u
      → lookup t (check_limit new_bucket now taguuid raw_ip no_ss_udp l).0.user_limit_info
        ≡ (if taguuid == t then after_expiry now u else lookup t l.user_limit_info)
  unfolding check_limit
  check_limit_info raw_ip no_ss_udp u l t e =
      rw (e, check_limit)
        (ap (lookup t)
            (give_bucket_info _ _ ∙ count_device_info no_ss_udp _ u (user_rate now taguuid u l).0)
          ∙ user_rate_info u l t e)
