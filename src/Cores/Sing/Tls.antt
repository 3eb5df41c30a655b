-- ===== src/Cores/Sing/Tls.antt =====
-- field/sing/node.go: multiplexing and TLS of an inbound.
use v2b_x_liusu.Prelude.{
  ℕ, String, Bool, true, false, ◌||◌, List, [], ◌∷◌, Option, none, some, if◌then◌else◌,
}
use v2b_x_liusu.Prelude.Int.{ℤ, pos, to_uint}
use v2b_x_liusu.Prelude.Eq.{◌==◌, string_eq, int_eq}
use v2b_x_liusu.Panel.Types.{tls}
use v2b_x_liusu.Config.{CertConfig}
use v2b_x_liusu.Cores.Nodes.{Node, Multiplex, TlsSettings, EchSettings}
use v2b_x_liusu.Cores.Result.{Result, ok, err}
use v2b_x_liusu.Cores.Sing.Options.{MultiplexConfig, Parsers}

-- option.InboundECHOptions
pub record EchOptions : Type 0 where
  pub key : List String
  pub key_path : String

-- option.InboundRealityOptions
pub record RealityOptions : Type 0 where
  pub short_id : List String
  pub private_key : String
  pub server : String
  pub server_port : ℕ
  pub max_time_difference : ℤ

-- option.InboundTLSOptions
pub record TlsOptions : Type 0 where
  pub enabled : Bool
  pub server_name : String
  pub alpn : List String
  pub certificate_path : String
  pub key_path : String
  pub ech : Option EchOptions
  pub reality : Option RealityOptions

abbrev pub no_tls : TlsOptions
no_tls = record {
  enabled = false;
  server_name = "";
  alpn = [];
  certificate_path = "";
  key_path = "";
  ech = none;
  reality = none;
}

-- panel.TlsSettings{}
abbrev pub no_settings : TlsSettings
no_settings = record {
  server_name = "";
  dest = "";
  server_port = "";
  short_id = "";
  private_key = "";
  xver = 0;
  mldsa65_seed = "";
  alpn = [];
  ech = record {
    enabled = false;
    key = "";
    key_path = "";
    server_keys = "";
    config_list = "";
    config = "";
    force_query = "";
  };
}

-- Reality
abbrev pub reality : ℤ
reality = pos 2

-- buildInboundMultiplex(global, node): the panel's settings come before those of the options.
unfoldable pub build_inbound_multiplex :
    Option MultiplexConfig → Option Multiplex → Option MultiplexConfig
build_inbound_multiplex global (some node) = some (record {
  enabled = node.enabled;
  padding = node.padding;
  brutal = record {
    enabled = node.brutal.enabled;
    up_mbps = node.brutal.up_mbps;
    down_mbps = node.brutal.down_mbps;
  };
})
build_inbound_multiplex (some global) none = some global
build_inbound_multiplex none none = none

-- applyInboundECH(tls, settings)
unfoldable pub apply_inbound_ech : TlsOptions → EchSettings → TlsOptions
apply_inbound_ech t settings =
    if settings.enabled
    then record t {
      ech = some (record {
        key = if settings.key == "" then [] else settings.key ∷ [];
        key_path = settings.key_path;
      });
    }
    else t

abbrev pub settings_or : Option TlsSettings → TlsSettings
settings_or none = no_settings
settings_or (some settings) = settings

-- nodeTLSSettings(info)
unfoldable pub node_tls_settings : Node → TlsSettings
node_tls_settings info =
    if info.type == "vmess" || info.type == "vless"
    then (elim info.origin.v_allss [ none ↦ no_settings | some n ↦ n.tls_settings ])
    else if info.type == "trojan"
    then (elim info.origin.trojan [ none ↦ no_settings | some n ↦ n.tls_settings ])
    else if info.type == "socks" || info.type == "http" || info.type == "naive"
    then settings_or info.origin.simple
    else no_settings

-- case "none", "" of the certificate's mode
abbrev pub is_disabled : CertConfig → Bool
is_disabled c = c.cert_mode == "none" || c.cert_mode == ""

-- case panel.Tls
unfoldable pub certificate_tls : Node → Option CertConfig → Result TlsOptions
unfolding apply_inbound_ech node_tls_settings
certificate_tls info none = err "the CertConfig is not vail"
certificate_tls info (some c) =
    let settings = node_tls_settings info in
    ok (
      if is_disabled c
      then no_tls
      else apply_inbound_ech
          (record no_tls {
            enabled = true;
            certificate_path = c.cert_file;
            key_path = c.key_file;
            alpn = settings.alpn;
          })
          settings.ech)

module _ {A : Type 0} (parsers : Parsers A) where
  open parsers use {atoi, parse_duration}

  -- case panel.Reality
  unfoldable pub reality_tls : Node → TlsOptions
  unfolding node_tls_settings
  reality_tls info =
      let settings = node_tls_settings info in
      let max_time_diff : String = elim info.origin.v_allss [
        | none ↦ ""
        | some n ↦ n.reality_config.max_time_diff
      ] in
      record no_tls {
        enabled = true;
        server_name = settings.server_name;
        reality = some (record {
          short_id = settings.short_id ∷ [];
          private_key = settings.private_key;
          server = if settings.dest == "" then settings.server_name else settings.dest;
          server_port = to_uint 16 (atoi settings.server_port).0;
          max_time_difference = parse_duration max_time_diff;
        });
      }

  -- The switch on the node's security.
  unfoldable pub inbound_tls : Node → Option CertConfig → Result TlsOptions
  unfolding certificate_tls reality_tls
  inbound_tls info c =
      if info.security == tls
      then certificate_tls info c
      else if info.security == reality
      then ok (reality_tls info)
      else ok no_tls
