-- ===== src/Cores/Sing/Options.antt =====
-- paper/sing.go and field/sing/node.go: the options of a node that the core reads, the network settings
-- of the panel, and the parts of sing-box's option structs that the core fills.
use v2b_x_liusu.Prelude.{ℕ, String, Bool, true, false, List, [], Option, some}
use v2b_x_liusu.Prelude.Int.{ℤ, pos}
use v2b_x_liusu.Dict.{Dict}
use v2b_x_liusu.Config.{CertConfig}
use v2b_x_liusu.Cores.Result.{Result}

pub record BrutalOptions : Type 0 where
  pub enabled : Bool
  pub up_mbps : ℤ
  pub down_mbps : ℤ

-- MultiplexConfig, and InboundMultiplexOptions, which has the same fields.
pub record MultiplexConfig : Type 0 where
  pub enabled : Bool
  pub padding : Bool
  pub brutal : BrutalOptions

pub record FallBack : Type 0 where
  pub server : String
  pub server_port : String

pub record FallBackConfigForSing : Type 0 where
  pub fall_back : FallBack
  pub fall_back_for_alpn : Dict String FallBack

-- SingOptions. `domain_strategy` is a number of sing-box.
pub record SingOptions : Type 0 where
  pub tcp_fast_open : Bool
  pub sniff_enabled : Bool
  pub sniff_override_destination : Bool
  pub enable_dns : Bool
  pub domain_strategy : ℤ
  pub fall_back_configs : Option FallBackConfigForSing
  pub multiplex : Option MultiplexConfig

abbrev pub no_multiplex : MultiplexConfig
no_multiplex = record {
  enabled = false;
  padding = false;
  brutal = record { enabled = false; up_mbps = pos 0; down_mbps = pos 0 };
}

-- NewSingOptions()
abbrev pub new_sing_options : SingOptions
new_sing_options = record {
  tcp_fast_open = false;
  sniff_enabled = true;
  sniff_override_destination = true;
  enable_dns = false;
  domain_strategy = pos 0;
  fall_back_configs =
      some
        (record { fall_back = record { server = ""; server_port = "" }; fall_back_for_alpn = [] });
  multiplex = some no_multiplex;
}

-- The fields of conf.Options that AddNode reads.
pub record NodeOptions : Type 0 where
  pub listen_ip : String
  pub report_min_traffic : ℤ
  pub sing_options : SingOptions
  pub cert_config : Option CertConfig

-- The settings of a network, as JSON gives them. `request` is the text of the field, where it is there.
pub record HttpNetworkConfig : Type 0 where
  pub header_type : String
  pub request : Option String

pub record HttpRequest : Type 0 where
  pub method : String
  pub path : List String
  pub host : List String
  pub headers_host : List String

pub record WsNetworkConfig : Type 0 where
  pub path : String
  pub headers : Dict String String

pub record HttpupgradeNetworkConfig : Type 0 where
  pub path : String
  pub host : String
  pub headers : Dict String String

pub record H2NetworkConfig : Type 0 where
  pub host : List String
  pub path : String
  pub method : String

-- What the core calls of encoding/json, net/url, strconv, net/netip and time. `parse_path` is url.Parse:
-- the path and the value of "ed" in the query. `atoi` gives a number with its error too.
-- `parse_duration` gives 0 with an error.
pub record Parsers (A : Type 0) : Type 0 where
  pub http_network : String → Result HttpNetworkConfig
  pub http_request : String → Result HttpRequest
  pub ws_network : String → Result WsNetworkConfig
  pub grpc_network : String → Result String
  pub httpupgrade_network : String → Result HttpupgradeNetworkConfig
  pub h2_network : String → Result H2NetworkConfig
  pub parse_path : String → Result (String × String)
  pub atoi : String → ℤ × Bool
  pub parse_addr : String → Option A
  pub parse_duration : String → ℤ

-- option.V2RayTransportOptions
pub record HttpOptions : Type 0 where
  pub host : List String
  pub path : String
  pub method : String

pub record WebsocketOptions : Type 0 where
  pub path : String
  pub early_data_header_name : String
  pub max_early_data : ℕ
  pub headers : Dict String (List String)

pub record HttpUpgradeOptions : Type 0 where
  pub path : String
  pub host : String
  pub headers : Dict String (List String)

pub record Transport : Type 0 where
  pub type : String
  pub http_options : HttpOptions
  pub websocket_options : WebsocketOptions
  pub grpc_service_name : String
  pub http_upgrade_options : HttpUpgradeOptions

-- V2RayTransportOptions{Type: network}
abbrev pub new_transport : String → Transport
new_transport network = record {
  type = network;
  http_options = record { host = []; path = ""; method = "" };
  websocket_options = record {
    path = "";
    early_data_header_name = "";
    max_early_data = 0;
    headers = [];
  };
  grpc_service_name = "";
  http_upgrade_options = record { path = ""; host = ""; headers = [] };
}
