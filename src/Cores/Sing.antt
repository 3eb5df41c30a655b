-- ===== src/Cores/Sing.antt =====
-- field/sing: the core that runs sing-box. The box is an object that the core calls: `W` is its state,
-- and `Box` its operations, by reflection where the source uses reflection.
pub mod Sort
pub mod Inbounds
pub mod Users
pub mod Hook
pub mod Options
pub mod Transport
pub mod Tls
pub mod Listen
use v2b_x_liusu.Prelude.{◌⊎◌, ℕ, String, Bool, List, [], ◌∷◌, Option, none, some}
use v2b_x_liusu.Prelude.Int.{ℤ}
use v2b_x_liusu.Dict.{Dict}
use v2b_x_liusu.Panel.Types.{UserInfo}
use v2b_x_liusu.Counter.{TrafficCounter}

-- UserMap, the hook's counters and the least traffic to report of each node.
pub record Sing (W : Type 0) : Type 0 where
  pub box : W
  pub counters : Dict String TrafficCounter
  pub uid_map : Dict String ℤ
  pub tag_users : Dict String (Dict String UserInfo)
  pub node_report_min_traffic_bytes : Dict String ℤ

-- What UpdateUsers of an inbound is called with. `U` is a parsed UUID.
pub data Update (U : Type 0) : Type 0 where
  vless_users : (indexes : List ℕ) (uuids flows : List String) → Update U
  vmess_users : (indexes : List ℕ) (uuids : List String) (alter_ids : List ℕ) → Update U
  shadowsocks_users : (names passwords : List String) → Update U
  password_users : (indexes : List ℕ) (passwords : List String) → Update U
  tuic_users : (indexes : List ℕ) (uuids : List U) (passwords : List String) → Update U
  anytls_users : List (String × String) → Update U

-- What a field of an inbound is set to: users by name, flow and UUID, by name and UUID, or by name
-- and password; names; or the names and passwords of an authenticator.
pub data Field : Type 0 where
  vless_list : List (String × (String × String)) → Field
  vmess_list trojan_list authenticator : List (String × String) → Field
  names : List String → Field

-- The operations of the box on the inbound of a tag: its type, UpdateUsers, and a write of a field.
-- `parse_uuid` is uuid.FromString with the text of its error, and `quote` writes a text the way %q does.
pub record Box (W U : Type 0) : Type 0 where
  pub inbound_type : String → W → Option String
  pub update : String → Update U → W → W × Option String
  pub set_field : String → Field → W → W × Option String
  pub remove : String → W → W × Option String
  pub parse_uuid : String → String ⊎ U
  pub quote : String → String
  pub random_password : String

-- Protocols()
abbrev pub protocols : List String
protocols =
    "vmess" ∷ "vless" ∷ "socks" ∷ "http" ∷ "naive" ∷ "shadowsocks" ∷ "trojan" ∷ "tuic" ∷ "anytls"
    ∷ "hysteria" ∷ "hysteria2" ∷ []

-- Type()
abbrev pub type : String
type = "sing"
