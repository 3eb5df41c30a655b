-- ===== src/Limiter/Check/Buckets.antt =====
-- Which bucket CheckLimit hands out.
use v2b_x_liusu.Prelude.{
  ◌≡◌, refl, String, Bool, true, false, Option, none, some, arith, eq_iff, inl, inr, ◌⊎◌,
  if◌then◌else◌, Option-cases,
}
use v2b_x_liusu.Prelude.Int.{ℤ, pos, ltb_ℤ, ℤ_eq_iff}
use v2b_x_liusu.Prelude.Eq.{int_eq, string_eq}
use v2b_x_liusu.Dict.{lookup, lookup-insert}
use v2b_x_liusu.Text.{user_tag, trim_prefix}
use v2b_x_liusu.Limiter.{Limiter, UserLimitInfo}
use v2b_x_liusu.Limiter.Rate.{determine_speed_limit}
use v2b_x_liusu.Limiter.Devices.{track_device}
use v2b_x_liusu.Limiter.Users.{update_dynamic_speed_limit}
use v2b_x_liusu.Limiter.Check.{
  user_rate, bytes_per_second, take_bucket, count_device, give_bucket, check_limit,
}
use v2b_x_liusu.Limiter.Check.Expiry.{is_expired}
use v2b_x_liusu.Limiter.Check.Rejects.{user_rate_keeps, check_limit_rejects}

-- The limit of the user itself at the time `now`.
abbrev pub own_limit : ℤ → UserLimitInfo → ℤ
own_limit now u =
    if is_expired now u
    then u.speed_limit
    else determine_speed_limit u.speed_limit u.dynamic_speed_limit

-- The bucket for a limit in bytes per second, where `stored` is the one in use so far.
abbrev pub bucket_for : {B : Type 0} → (ℤ → B) → ℤ → Option B → Option B
bucket_for new_bucket limit stored =
    if ltb_ℤ (pos 0) limit
    then (elim stored [ some b ↦ some b | none ↦ some (new_bucket limit) ])
    else none

module _ {B R : Type 0} (new_bucket : ℤ → B) (now : ℤ) (taguuid : String) where
  user_rate_limit :
      (u : UserLimitInfo) (l : Limiter B R) → (user_rate now taguuid u l).1 ≡ own_limit now u
  unfolding user_rate
  user_rate_limit u l = ground (arith, ℤ_eq_iff u.speed_limit (pos 0))

  count_device_keeps :
      (no_ss_udp : Bool) (ip : String) (u : UserLimitInfo) (l : Limiter B R)
      → ((count_device no_ss_udp taguuid ip u l).0.speed_limiter ≡ l.speed_limiter)
        × ((count_device no_ss_udp taguuid ip u l).0.speed_limit ≡ l.speed_limit)
  unfolding count_device track_device
  count_device_keeps true ip u l = ground arith
  count_device_keeps false ip u l = (refl, refl)

  give_bucket_lem :
      (user_limit : ℤ) (r : Limiter B R × Bool)
      → (give_bucket new_bucket taguuid user_limit r).2 ≡ false
      → let r' = give_bucket new_bucket taguuid user_limit r in
        let given =
          bucket_for new_bucket
            (bytes_per_second r.0.speed_limit user_limit)
            (lookup taguuid r.0.speed_limiter) in
        (r'.1 ≡ given)
        × (lookup taguuid r'.0.speed_limiter
            ≡ (elim given [ none ↦ lookup taguuid r.0.speed_limiter | some b ↦ some b ]))
  unfolding give_bucket take_bucket
  give_bucket_lem user_limit (l, true) h = cc
  give_bucket_lem user_limit (l, false) h = ground (
    arith,
    eq_iff taguuid taguuid,
    lookup-insert taguuid taguuid (new_bucket (bytes_per_second l.speed_limit user_limit))
        l.speed_limiter,
  )

  -- An accepted connection of a known user gets a bucket exactly if the tighter of the node's and
  -- the user's limit is positive in bytes per second, as the 64 bits hold them. A bucket that is
  -- stored for the user is handed out as it is, whatever the limit has become; only where none is
  -- stored a bucket for the limit is made. The bucket handed out is the stored one from then on.
  pub check_limit_bucket :
      (raw_ip : String) (no_ss_udp : Bool) (u : UserLimitInfo) (l : Limiter B R)
      → lookup taguuid l.user_limit_info ≡ some u
      → (check_limit new_bucket now taguuid raw_ip no_ss_udp l).2 ≡ false
      → let r = check_limit new_bucket now taguuid raw_ip no_ss_udp l in
        let given =
          bucket_for new_bucket
            (bytes_per_second l.speed_limit (own_limit now u))
            (lookup taguuid l.speed_limiter) in
        (r.1 ≡ given)
        × (lookup taguuid r.0.speed_limiter
            ≡ (elim given [ none ↦ lookup taguuid l.speed_limiter | some b ↦ some b ]))
  unfolding check_limit
  check_limit_bucket raw_ip no_ss_udp u l e a =
      let ip = trim_prefix raw_ip "::ffff:" in
      let rated = user_rate now taguuid u l in
      ground (
        arith,
        user_rate_limit u l,
        user_rate_keeps now taguuid u l,
        count_device_keeps no_ss_udp ip u rated.0,
        give_bucket_lem rated.1 (count_device no_ss_udp taguuid ip u rated.0),
      )

module _ {B R : Type 0} (new_bucket : ℤ → B) (now : ℤ) (tag uuid : String) where
  update_keeps_buckets :
      (limit expire : ℤ) (l l' : Limiter B R)
      → update_dynamic_speed_limit tag uuid limit expire l ≡ some l'
      → l'.speed_limiter ≡ l.speed_limiter
  unfolding update_dynamic_speed_limit
  update_keeps_buckets limit expire l l' h = ground arith

  -- A dynamic limit that is set while the user has a bucket does not change the user's rate: an
  -- accepted connection gets the bucket made for the earlier limit, or none.
  pub stale_bucket :
      (limit expire : ℤ) (raw_ip : String) (no_ss_udp : Bool) (b : B) (l l' : Limiter B R)
      → lookup (user_tag tag uuid) l.speed_limiter ≡ some b
      → update_dynamic_speed_limit tag uuid limit expire l ≡ some l'
      → (check_limit new_bucket now (user_tag tag uuid) raw_ip no_ss_udp l').2 ≡ false
      → let given = (check_limit new_bucket now (user_tag tag uuid) raw_ip no_ss_udp l').1 in
        (given ≡ some b) ⊎ (given ≡ none)
  stale_bucket limit expire raw_ip no_ss_udp b l l' stored set accepted =
      elim (Option-cases (lookup (user_tag tag uuid) l'.user_limit_info)) [
        | inl e ↦
            ground
              (arith, check_limit_rejects new_bucket now (user_tag tag uuid) raw_ip l' no_ss_udp)
        | inr (u, e) ↦ ground (
          arith,
          check_limit_bucket new_bucket now (user_tag tag uuid) raw_ip no_ss_udp u l' e accepted,
          update_keeps_buckets limit expire l l' set,
        )
      ]
