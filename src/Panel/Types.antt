-- ===== src/Panel/Types.antt =====
-- The data of mirror/panel/user.go and node.go that the rest of the program reads.
use v2b_x_liusu.Prelude.{String, List}
use v2b_x_liusu.Prelude.Int.{ℤ, pos}

pub record OnlineUser : Type 0 where
  pub uid : ℤ
  pub ip : String

pub record UserInfo : Type 0 where
  pub id : ℤ
  pub uuid : String
  pub speed_limit : ℤ
  pub device_limit : ℤ

pub record UserTraffic : Type 0 where
  pub uid : ℤ
  pub upload : ℤ
  pub download : ℤ

pub record Rules : Type 0 where
  pub regexp : List String
  pub protocol : List String

-- Security: None, Tls and Reality.
abbrev pub tls : ℤ
tls = pos 1

-- The address and the domains of a name server, under the number of its route; and a whole
-- configuration as the panel sends it.
pub record RawDns : Type 0 where
  pub dns_map : List (String × (String × List String))
  pub dns_json : String

-- A node; the parameters of its protocol, which only the cores read, are the type `N`.
pub record NodeInfo (N : Type 0) : Type 0 where
  pub id : ℤ
  pub type : String
  pub security : ℤ
  pub push_interval : ℤ
  pub pull_interval : ℤ
  pub raw_dns : RawDns
  pub rules : Rules
  pub origin : N
