-- ===== src/Samples.antt =====
-- The results applied to concrete users, limiters, tasks and cores.
mod Limits
mod Online
mod Table
mod Compare
mod Monitor
mod Cores
mod Tasks
mod Counts
mod Panel
mod Boxes
mod Nodes
mod Texts
mod Replies
mod Rounds
use v2b_x_liusu.Prelude.{String, Option, none, some, List, [], ◌∷◌, false, true}
use v2b_x_liusu.Prelude.Int.{ℤ, pos}
use v2b_x_liusu.Panel.Types.{UserInfo}
use v2b_x_liusu.Limiter.{UserLimitInfo, Limiter}
use v2b_x_liusu.Limiter.Check.Runs.{Arrival}

abbrev pub alice : UserInfo
alice = record { id = pos 1; uuid = "a"; speed_limit = pos 10; device_limit = pos 1 }

abbrev pub bob : UserInfo
bob = record { id = pos 2; uuid = "b"; speed_limit = pos 0; device_limit = pos 1 }

abbrev pub carol : UserInfo
carol = record { id = pos 3; uuid = "c"; speed_limit = pos 5; device_limit = pos 0 }

abbrev pub alice_limits : UserLimitInfo
alice_limits = record {
  uid = pos 1;
  speed_limit = pos 10;
  device_limit = pos 1;
  dynamic_speed_limit = pos 0;
  expire_time = pos 0;
  over_limit = false;
}

-- A dynamic limit that ends at second 50, and no other limit on the speed.
abbrev pub bob_limits : UserLimitInfo
bob_limits = record {
  uid = pos 2;
  speed_limit = pos 0;
  device_limit = pos 1;
  dynamic_speed_limit = pos 3;
  expire_time = pos 50;
  over_limit = false;
}

-- The limiter of a node "n" with both users; the first has a device and a bucket, which is named by
-- its rate.
abbrev pub two_users : Limiter ℤ String
two_users = record {
  domain_rules = [];
  protocol_rules = [];
  speed_limit = pos 0;
  user_online_ip = ("n|a", ("1.1.1.1", pos 1) ∷ []) ∷ [];
  old_user_online = [];
  uuid_to_uid = ("a", pos 1) ∷ ("b", pos 2) ∷ [];
  user_limit_info = ("n|a", alice_limits) ∷ ("n|b", bob_limits) ∷ [];
  speed_limiter = ("n|a", pos 1250000) ∷ [];
  alive_list = (pos 1, pos 1) ∷ [];
}

abbrev pub rate_bucket : ℤ → ℤ
rate_bucket r = r

abbrev pub connection_of : String → String → ℤ → Arrival
connection_of taguuid ip at = record { at = at; taguuid = taguuid; raw_ip = ip; no_ss_udp = true }
