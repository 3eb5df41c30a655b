-- ===== src/Cores/Xray/Options.antt =====
-- paper/xray.go and field/xray/inbound.go: the options of a node that the core reads, and the parts of
-- xray's configuration of an inbound that the core fills.
use v2b_x_liusu.Prelude.{ℕ, String, Bool, false, List, Option, none}
use v2b_x_liusu.Prelude.Int.{ℤ, pos}
use v2b_x_liusu.Config.{CertConfig}
use v2b_x_liusu.Cores.Result.{Result}

pub record FallBackConfigForXray : Type 0 where
  pub sni : String
  pub alpn : String
  pub path : String
  pub dest : String
  pub proxy_protocol_ver : ℕ

-- XrayOptions; the list of fallbacks may be nil.
pub record XrayOptions : Type 0 where
  pub enable_proxy_protocol : Bool
  pub enable_dns : Bool
  pub dns_type : String
  pub enable_uot : Bool
  pub enable_tfo : Bool
  pub disable_iv_check : Bool
  pub disable_sniffing : Bool
  pub enable_fallback : Bool
  pub fall_back_configs : Option (List FallBackConfigForXray)
  pub tcp_keep_alive_idle : ℤ
  pub tcp_keep_alive_interval : ℤ

-- NewXrayOptions()
abbrev pub new_xray_options : XrayOptions
new_xray_options = record {
  enable_proxy_protocol = false;
  enable_dns = false;
  dns_type = "AsIs";
  enable_uot = false;
  enable_tfo = false;
  disable_iv_check = false;
  disable_sniffing = false;
  enable_fallback = false;
  fall_back_configs = none;
  tcp_keep_alive_idle = pos 60;
  tcp_keep_alive_interval = pos 15;
}

-- The fields of conf.Options that AddNode reads.
pub record NodeOptions : Type 0 where
  pub listen_ip : String
  pub send_ip : String
  pub report_min_traffic : ℤ
  pub xray_options : XrayOptions
  pub cert_config : Option CertConfig

-- VLessInboundFallback, and TrojanInboundFallback, which has the same fields. `dest` is the text that
-- Marshal turns into JSON.
pub record Fallback : Type 0 where
  pub name : String
  pub alpn : String
  pub path : String
  pub dest : String
  pub xver : ℕ

-- The settings of the protocols. They are structs of texts and numbers, for which Marshal has no error,
-- so that they stand for their JSON.
pub data Settings : Type 0 where
  vless_settings : (decryption : String) (fallbacks : Option (List Fallback)) → Settings
  vmess_settings : Settings
  trojan_settings : Option (List Fallback) → Settings
  shadowsocks_settings :
      (cipher password : String) (user_cipher user_password : String)
      → (network_list : List String) → Settings

pub record SocketConfig : Type 0 where
  pub accept_proxy_protocol : Bool
  pub tfo : Bool
  pub tcp_keep_alive_idle : ℤ
  pub tcp_keep_alive_interval : ℤ

pub record TlsConfig : Type 0 where
  pub cert_file : String
  pub key_file : String
  pub ocsp_stapling : ℕ
  pub reject_unknown_sni : Bool
  pub alpn : List String
  pub ech_server_keys : String
  pub ech_config_list : String
  pub ech_force_query : String

pub record RealityOptions : Type 0 where
  pub dest : String
  pub xver : ℕ
  pub server_names : List String
  pub private_key : String
  pub min_client_ver : String
  pub max_client_ver : String
  pub max_time_diff : ℕ
  pub short_ids : List String
  pub mldsa65_seed : String

-- StreamConfig. `T` is the settings of a network, which JSON may leave nil.
pub record StreamConfig (T : Type 0) : Type 0 where
  pub network : String
  pub tcp_settings : Option T
  pub ws_settings : Option T
  pub grpc_settings : Option T
  pub httpupgrade_settings : Option T
  pub split_http_settings : Option T
  pub socket_settings : Option SocketConfig
  pub security : String
  pub tls_settings : Option TlsConfig
  pub reality_settings : Option RealityOptions

-- StreamConfig{Network: &t}
abbrev pub new_stream : {T : Type 0} → String → StreamConfig T
new_stream network = record {
  network = network;
  tcp_settings = none;
  ws_settings = none;
  grpc_settings = none;
  httpupgrade_settings = none;
  split_http_settings = none;
  socket_settings = none;
  security = "";
  tls_settings = none;
  reality_settings = none;
}

-- What the builders of the protocols write: the protocol, its settings and the stream, which stays nil
-- where they leave it.
pub record Protocol (T : Type 0) : Type 0 where
  pub protocol : String
  pub settings : Settings
  pub stream : Option (StreamConfig T)

-- InboundDetourConfig
pub record Detour (T : Type 0) : Type 0 where
  pub tag : String
  pub port : ℕ
  pub listen_on : String
  pub sniffing : Bool
  pub protocol : String
  pub settings : Settings
  pub stream : StreamConfig T

-- What the core calls of encoding/json, time, crypto/rand and xray. `decode` decodes the settings of the
-- network of the first text; `accept` is the settings with AcceptProxyProtocol set, the others zero where
-- there were none; `microseconds` is 0 for a text that is no duration; `random` is the bytes that are
-- read, or the error; `hex` and `base64` are the encoders.
pub record Calls (T : Type 0) : Type 0 where
  pub decode : String → String → Result (Option T)
  pub accept : Bool → Option T → T
  pub microseconds : String → ℤ
  pub random : Result (List ℕ)
  pub hex : List ℕ → String
