-- ===== src/Samples/Limits.antt =====
-- veil/limiter.go: CheckLimit and UpdateUser at concrete arguments.
use v2b_x_liusu.Limiter.Devices.{is_full, alive_ip, track_device}
use v2b_x_liusu.Prelude.{◌≡◌, refl, String, true, none, some, [], ◌∷◌, ◌⊎◌}
use v2b_x_liusu.Prelude.Int.{ℤ, pos}
use v2b_x_liusu.Prelude.Eq.{string_eq, int_eq}
use v2b_x_liusu.Dict.{lookup, insert}
use v2b_x_liusu.Text.{user_tag, trim_prefix}
use v2b_x_liusu.Limiter.{Limiter}
use v2b_x_liusu.Limiter.Check.{check_limit, bytes_per_second, count_device, user_rate, take_bucket}
use v2b_x_liusu.Limiter.Check.Runs.{check_all, expired_user_rejected}
use v2b_x_liusu.Limiter.Check.Rejects.{check_limit_rejects, check_limit_online}
use v2b_x_liusu.Limiter.Check.Buckets.{check_limit_bucket, stale_bucket}
use v2b_x_liusu.Limiter.Users.{update_user, update_dynamic_speed_limit, new_limiter, new_user_limit}
use v2b_x_liusu.Limiter.Users.Sync.{
  update_user_info, update_user-IsConsistent, new_limiter-IsConsistent, IsConsistent, last_user,
}
use v2b_x_liusu.Limiter.Devices.Admission.{online}
use v2b_x_liusu.Samples.{
  connection_of, alice, bob, carol, alice_limits, bob_limits, two_users, rate_bucket, UserInfo,
}

-- A second device of the first user, who may have one.
check_limit_rejects_example :
    (check_limit rate_bucket (pos 9) "n|a" "2.2.2.2" true two_users).2 ≡ true
unfolding check_limit lookup trim_prefix is_full alive_ip
check_limit_rejects_example = check_limit_rejects rate_bucket (pos 9) "n|a" "2.2.2.2" two_users true

check_limit_online_example :
    online (check_limit rate_bucket (pos 9) "n|b" "2.2.2.2" true two_users).0 "n|b" "2.2.2.2"
    ≡ some (pos 2)
unfolding lookup check_limit count_device track_device user_rate take_bucket bytes_per_second
    trim_prefix
check_limit_online_example =
    check_limit_online rate_bucket (pos 9) "n|b" "2.2.2.2" two_users true "n|b" "2.2.2.2"

check_limit_bucket_example :
    (check_limit rate_bucket (pos 9) "n|a" "1.1.1.1" true two_users).1 ≡ some (pos 1250000)
unfolding lookup check_limit count_device track_device user_rate trim_prefix take_bucket
    bytes_per_second
check_limit_bucket_example =
    (check_limit_bucket rate_bucket (pos 9) "n|a" "1.1.1.1" true alice_limits two_users refl refl).0

-- The second user connects after its dynamic limit has ended, then the first, then the second again.
expired_user_rejected_example :
    (check_limit rate_bucket (pos 90) "n|b" "2.2.2.2" true (
      check_all rate_bucket
        (connection_of "n|b" "2.2.2.2" (pos 60) ∷ connection_of "n|a" "1.1.1.1" (pos 70) ∷ [])
        two_users)).2
    ≡ true
unfolding lookup
expired_user_rejected_example =
    expired_user_rejected rate_bucket (connection_of "n|b" "2.2.2.2" (pos 60))
      (connection_of "n|b" "2.2.2.2" (pos 90)) (connection_of "n|a" "1.1.1.1" (pos 70) ∷ [])
      bob_limits two_users refl refl refl refl

abbrev slowed : Limiter ℤ String
slowed = record two_users {
  user_limit_info =
      ("n|a", record alice_limits { dynamic_speed_limit = pos 1; expire_time = pos 100 })
      ∷ ("n|b", bob_limits)
      ∷ [];
}

stale_bucket_example :
    let given = (check_limit rate_bucket (pos 9) (user_tag "n" "a") "1.1.1.1" true slowed).1 in
    (given ≡ some (pos 1250000)) ⊎ (given ≡ none)
unfolding lookup user_tag update_dynamic_speed_limit insert check_limit count_device track_device
    user_rate trim_prefix take_bucket bytes_per_second
stale_bucket_example =
    stale_bucket rate_bucket (pos 9) "n" "a" (pos 1) (pos 100000000000) "1.1.1.1" true (pos 1250000)
      two_users slowed refl refl refl

-- The first user goes and comes back with another limit, in one update.
abbrev faster : UserInfo
faster = record alice { speed_limit = pos 20 }

update_user_info_example :
    lookup
      (user_tag "n" "a")
      (update_user "n" (faster ∷ carol ∷ []) (alice ∷ []) two_users).user_limit_info
    ≡ some (record alice_limits { speed_limit = pos 20 })
unfolding last_user new_user_limit
update_user_info_example = update_user_info "n" "a" (faster ∷ carol ∷ []) (alice ∷ []) two_users

update_user-IsConsistent_example : IsConsistent "n" (
    update_user "n"
      (faster ∷ [])
      (alice ∷ [])
      (new_limiter {B = ℤ} {R = String} "n" (pos 0) (alice ∷ bob ∷ []) []))
update_user-IsConsistent_example =
    update_user-IsConsistent "n" (faster ∷ []) (alice ∷ [])
      (new_limiter "n" (pos 0) (alice ∷ bob ∷ []) [])
      (new_limiter-IsConsistent "n" (pos 0) (alice ∷ bob ∷ []) [])
