-- ===== src/Cores/Hysteria2.antt =====
-- field/hy2: the core that runs hysteria2. `S` is a server of hysteria.
pub mod Hook
pub mod Users
pub mod Sync
use v2b_x_liusu.Prelude.{ℕ, String, List, [], ◌∷◌}
use v2b_x_liusu.Prelude.Int.{ℤ}
use v2b_x_liusu.Dict.{Dict}
use v2b_x_liusu.Counter.{TrafficCounter}

-- HookServer
pub record HookServer : Type 0 where
  pub tag : String
  pub counter : Dict String TrafficCounter
  pub report_min_traffic_bytes : ℤ

-- Hysteria2node
pub record Hysteria2node (S : Type 0) : Type 0 where
  pub hy2server : S
  pub traffic_logger : HookServer

-- Hysteria2, with the map of users that all nodes share.
pub record Hysteria2 (S : Type 0) : Type 0 where
  pub hy2nodes : Dict String (Hysteria2node S)
  pub users_map : Dict String ℤ

-- New(c), once there is a logger.
abbrev pub new_hysteria2 : {S : Type 0} → Hysteria2 S
new_hysteria2 = record { hy2nodes = []; users_map = [] }

-- Protocols()
abbrev pub protocols : List String
protocols = "hysteria2" ∷ []

-- Type()
abbrev pub type : String
type = "hysteria2"
