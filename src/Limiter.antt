-- ===== src/Limiter.antt =====
-- veil/limiter.go, dynamic.go and rule.go: the limits of one node's users.
-- `B` is the rate limiter's bucket and `R` a compiled regular expression: the packages
-- juju/ratelimit and regexp are arguments of the functions that call them. A pointer into one of
-- the maps is the entry itself, and a write through it is a write of that entry.
pub mod Rate
pub mod Devices
pub mod Check
pub mod Users
pub mod Online
pub mod Rules
pub mod Registry
use v2b_x_liusu.Prelude.{String, List, Bool}
use v2b_x_liusu.Prelude.Int.{ℤ}
use v2b_x_liusu.Dict.{Dict}

pub record UserLimitInfo : Type 0 where
  pub uid : ℤ
  pub speed_limit : ℤ
  pub device_limit : ℤ
  pub dynamic_speed_limit : ℤ
  pub expire_time : ℤ
  pub over_limit : Bool

pub record Limiter (B R : Type 0) : Type 0 where
  pub domain_rules : List R
  pub protocol_rules : List String
  pub speed_limit : ℤ
  pub user_online_ip : Dict String (Dict String ℤ)
  pub old_user_online : Dict String ℤ
  pub uuid_to_uid : Dict String ℤ
  pub user_limit_info : Dict String UserLimitInfo
  pub speed_limiter : Dict String B
  pub alive_list : Dict ℤ ℤ
