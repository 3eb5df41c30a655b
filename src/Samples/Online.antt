-- ===== src/Samples/Online.antt =====
-- veil/limiter.go and rule.go, base/format: reports of devices and rules at concrete arguments.
use v2b_x_liusu.Text.{trim_prefix}
use v2b_x_liusu.Prelude.{◌≡◌, refl, String, true, false, Option, none, some, [], ◌∷◌}
use v2b_x_liusu.Prelude.Int.{ℤ, pos}
use v2b_x_liusu.Prelude.Eq.{string_eq, int_eq}
use v2b_x_liusu.Dict.{lookup, delete, insert}
use v2b_x_liusu.Panel.Types.{Rules}
use v2b_x_liusu.Limiter.{Limiter}
use v2b_x_liusu.Limiter.Check.{check_limit}
use v2b_x_liusu.Limiter.Online.{get_online_device, last_uid}
use v2b_x_liusu.Limiter.Online.Report.{get_online_device_lem}
use v2b_x_liusu.Limiter.Check.Runs.{check_all, reconnect_after_report}
use v2b_x_liusu.Limiter.Check.{user_rate, count_device, take_bucket, bytes_per_second}
use v2b_x_liusu.Limiter.Devices.{track_device}
use v2b_x_liusu.Samples.{connection_of, alice_limits, two_users, rate_bucket}

get_online_device_lem_example :
    ((get_online_device two_users).1 ≡ record { uid = pos 1; ip = "1.1.1.1" } ∷ [])
    × (lookup "n|a" (get_online_device two_users).0.user_online_ip ≡ none)
    × (lookup "1.1.1.1" (get_online_device two_users).0.old_user_online ≡ some (pos 1))
unfolding last_uid get_online_device
get_online_device_lem_example = get_online_device_lem two_users "n|a" "1.1.1.1"

-- The second user comes from another address before the first comes back.
reconnect_after_report_example :
    (check_limit rate_bucket (pos 9) "n|a" "1.1.1.1" true (
      check_all rate_bucket
        (connection_of "n|b" "2.2.2.2" (pos 8) ∷ [])
        (get_online_device two_users).0)).2
    ≡ false
unfolding lookup trim_prefix get_online_device check_all check_limit count_device track_device
    user_rate take_bucket bytes_per_second delete insert
reconnect_after_report_example =
    reconnect_after_report rate_bucket (connection_of "n|a" "1.1.1.1" (pos 9))
      (connection_of "n|b" "2.2.2.2" (pos 8) ∷ []) alice_limits two_users refl (refl, tt) refl

-- A compiled expression is its text, and it matches its own text.
abbrev itself : String → Option String
itself s = some s

abbrev rules : Rules
rules = record { regexp = "bad.example" ∷ []; protocol = "bittorrent" ∷ [] }

abbrev with_rules : Limiter ℤ String
with_rules = record two_users {
  domain_rules = "bad.example" ∷ [];
  protocol_rules = "bittorrent" ∷ [];
}
