-- ===== src/Limiter/Check/Rejects.antt =====
-- Which connections CheckLimit rejects, and what is online after it.
use mathlib.Core.Option.{get_or}
use v2b_x_liusu.Prelude.{
  ◌≡◌, refl, ◌∙◌, String, Bool, true, false, not, ◌&&◌, none, some, arith, inl, inr, if◌then◌else◌,
  is_some, Option-cases, Bool-cases,
}
use v2b_x_liusu.Prelude.Int.{ℤ}
use v2b_x_liusu.Prelude.Eq.{◌==◌, string_eq}
use v2b_x_liusu.Dict.{lookup}
use v2b_x_liusu.Text.{trim_prefix}
use v2b_x_liusu.Limiter.{Limiter, UserLimitInfo}
use v2b_x_liusu.Limiter.Devices.{alive_ip, is_full, track_device}
use v2b_x_liusu.Limiter.Devices.Admission.{online, track_device_rejects, track_device_online}
use v2b_x_liusu.Limiter.Check.{user_rate, take_bucket, count_device, give_bucket, check_limit}

module _ {B R : Type 0} (now : ℤ) (taguuid : String) where
  -- The parts of the limiter that later steps read.
  pub user_rate_keeps :
      (u : UserLimitInfo) (l : Limiter B R)
      → ((user_rate now taguuid u l).0.user_online_ip ≡ l.user_online_ip)
        × ((user_rate now taguuid u l).0.old_user_online ≡ l.old_user_online)
        × ((user_rate now taguuid u l).0.alive_list ≡ l.alive_list)
        × ((user_rate now taguuid u l).0.speed_limiter ≡ l.speed_limiter)
        × ((user_rate now taguuid u l).0.speed_limit ≡ l.speed_limit)
  unfolding user_rate
  user_rate_keeps u l = ground arith

module _ {B R : Type 0} (new_bucket : ℤ → B) (taguuid : String) (user_limit : ℤ) where
  give_bucket_rejects :
      (r : Limiter B R × Bool) → (give_bucket new_bucket taguuid user_limit r).2 ≡ r.1
  unfolding give_bucket take_bucket
  give_bucket_rejects (l, true) = refl
  give_bucket_rejects (l, false) = ground arith

  give_bucket_online :
      (r : Limiter B R × Bool)
      → (give_bucket new_bucket taguuid user_limit r).0.user_online_ip ≡ r.0.user_online_ip
  unfolding give_bucket take_bucket
  give_bucket_online (l, true) = refl
  give_bucket_online (l, false) = ground arith

module _ {B R : Type 0} (taguuid : String) where
  -- Whether the device of a user with limits `u` is turned away.
  abbrev pub turned_away : UserLimitInfo → String → Limiter B R → Bool
  turned_away u ip l =
      not (is_some (online l taguuid ip))
      && not (is_some (lookup ip l.old_user_online))
      && is_full u.device_limit (alive_ip u.uid l)

module _ {B R : Type 0} (new_bucket : ℤ → B) (now : ℤ) (taguuid raw_ip : String)
    (l : Limiter B R) where
  abbrev ip : String
  ip = trim_prefix raw_ip "::ffff:"

  count_device_rejects :
      (no_ss_udp : Bool) (u : UserLimitInfo)
      → (count_device no_ss_udp taguuid ip u (user_rate now taguuid u l).0).1
        ≡ no_ss_udp && turned_away taguuid u ip l
  unfolding alive_ip count_device
  count_device_rejects true u = ground (
    arith,
    user_rate_keeps now taguuid u l,
    track_device_rejects taguuid ip u.uid u.device_limit (user_rate now taguuid u l).0,
  )
  count_device_rejects false u = refl

  -- CheckLimit rejects exactly a user that it does not know, and a device that is turned away where
  -- devices are counted.
  pub check_limit_rejects :
      (no_ss_udp : Bool)
      → (check_limit new_bucket now taguuid raw_ip no_ss_udp l).2
        ≡ (elim (lookup taguuid l.user_limit_info) [
          | none ↦ true
          | some u ↦ no_ss_udp && turned_away taguuid u ip l
        ])
  unfolding check_limit
  check_limit_rejects no_ss_udp = elim (Option-cases (lookup taguuid l.user_limit_info)) [
    | inl e ↦ rw (e, check_limit)
    | inr (u, e) ↦
        rw (e, check_limit)
          (give_bucket_rejects new_bucket taguuid _ _ ∙ count_device_rejects no_ss_udp u)
  ]

  -- After a rejected connection, and after one whose device is not counted, every device is online as
  -- it was before. After an accepted one that is counted the device is online too, under the user it
  -- was online for before or else the user of the connection, and no other entry has changed.
  pub check_limit_online :
      (no_ss_udp : Bool) (t j : String)
      → let r = check_limit new_bucket now taguuid raw_ip no_ss_udp l in
        online r.0 t j ≡ (elim (lookup taguuid l.user_limit_info) [
          | none ↦ online l t j
          | some u ↦
              if no_ss_udp && not r.2 && taguuid == t && ip == j
              then some (get_or (online l taguuid ip) u.uid)
              else online l t j
        ])
  unfolding check_limit count_device
  check_limit_online no_ss_udp t j = elim (Option-cases (lookup taguuid l.user_limit_info)) [
    | inl e ↦ rw (e, check_limit) refl
    | inr (u, e) ↦ elim (Bool-cases no_ss_udp) [
      | inl c ↦
          rw (e, c, check_limit)
            (ground (
              arith,
              user_rate_keeps now taguuid u l,
              give_bucket_rejects new_bucket taguuid (user_rate now taguuid u l).1
                  (track_device taguuid ip u.uid u.device_limit (user_rate now taguuid u l).0),
              give_bucket_online new_bucket taguuid (user_rate now taguuid u l).1
                  (track_device taguuid ip u.uid u.device_limit (user_rate now taguuid u l).0),
              track_device_online taguuid ip u.uid u.device_limit (user_rate now taguuid u l).0 t j,
            ))
      | inr c ↦
          rw (e, c, check_limit)
            (ground (
              arith,
              user_rate_keeps now taguuid u l,
              give_bucket_online new_bucket taguuid (user_rate now taguuid u l).1
                  ((user_rate now taguuid u l).0, false),
            ))
    ]
  ]
