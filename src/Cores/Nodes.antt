-- ===== src/Cores/Nodes.antt =====
-- mirror/panel/node.go: the parameters of a node's protocol, as far as the cores read them. A pointer
-- that may be nil is an Option; a raw message that is not there is the empty text.
use v2b_x_liusu.Prelude.{ℕ, String, Bool, List, Option}
use v2b_x_liusu.Prelude.Int.{ℤ}
use v2b_x_liusu.Panel.Types.{NodeInfo}

pub record MultiplexRate : Type 0 where
  pub enabled : Bool
  pub up_mbps : ℤ
  pub down_mbps : ℤ

pub record Multiplex : Type 0 where
  pub enabled : Bool
  pub padding : Bool
  pub brutal : MultiplexRate

pub record CommonNode : Type 0 where
  pub server_port : ℤ
  pub multiplex : Option Multiplex

pub record EchSettings : Type 0 where
  pub enabled : Bool
  pub key : String
  pub key_path : String
  pub server_keys : String
  pub config_list : String
  pub config : String
  pub force_query : String

pub record TlsSettings : Type 0 where
  pub server_name : String
  pub dest : String
  pub server_port : String
  pub short_id : String
  pub private_key : String
  pub xver : ℕ
  pub mldsa65_seed : String
  pub alpn : List String
  pub ech : EchSettings

pub record RealityConfig : Type 0 where
  pub xver : ℕ
  pub min_client_ver : String
  pub max_client_ver : String
  pub max_time_diff : String

pub record EncSettings : Type 0 where
  pub mode : String
  pub ticket : String
  pub server_padding : String
  pub private_key : String

pub record VAllssNode : Type 0 where
  pub tls_settings : TlsSettings
  pub network : String
  pub network_settings : String
  pub encryption : String
  pub encryption_settings : EncSettings
  pub decryption : String
  pub flow : String
  pub reality_config : RealityConfig

pub record ShadowsocksNode : Type 0 where
  pub cipher : String
  pub server_key : String

pub record TrojanNode : Type 0 where
  pub tls_settings : TlsSettings
  pub network : String
  pub network_settings : String

pub record TuicNode : Type 0 where
  pub congestion_control : String
  pub zero_rtt_handshake : Bool
  pub alpn : List String

pub record HysteriaNode : Type 0 where
  pub up_mbps : ℤ
  pub down_mbps : ℤ
  pub obfs : String

pub record Hysteria2Node : Type 0 where
  pub ignore_client_bandwidth : Bool
  pub up_mbps : ℤ
  pub down_mbps : ℤ
  pub obfs_type : String
  pub obfs_password : String

-- The pointers of NodeInfo; `any_tls` is the padding scheme, and `simple` the TLS settings.
pub record Origin : Type 0 where
  pub v_allss : Option VAllssNode
  pub shadowsocks : Option ShadowsocksNode
  pub trojan : Option TrojanNode
  pub tuic : Option TuicNode
  pub any_tls : Option (List String)
  pub hysteria : Option HysteriaNode
  pub hysteria2 : Option Hysteria2Node
  pub simple : Option TlsSettings
  pub common : CommonNode

abbrev pub Node : Type 0
Node = NodeInfo Origin
