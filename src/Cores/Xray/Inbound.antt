-- ===== src/Cores/Xray/Inbound.antt =====
-- field/xray/inbound.go, buildInbound, and outbound.go: what AddNode hands to xray for a node.
use v2b_x_liusu.Prelude.{String, false, not, ◌||◌, List, [], ◌∷◌, Option, none, some, if◌then◌else◌}
use Prim.Native.String.{◌++◌ as str_append}
use v2b_x_liusu.Prelude.Int.{pos, to_uint}
use v2b_x_liusu.Prelude.Eq.{◌==◌, string_eq, int_eq, nat_eq}
use v2b_x_liusu.Panel.Types.{tls}
use v2b_x_liusu.Config.{CertConfig}
use v2b_x_liusu.Cores.Nodes.{Node, TlsSettings, RealityConfig}
use v2b_x_liusu.Cores.Result.{Result, ok, err, after, read}
use v2b_x_liusu.Cores.Sing.Tls.{no_settings, is_disabled, reality}
use v2b_x_liusu.Cores.Xray.Options.{
  XrayOptions, NodeOptions, SocketConfig, StreamConfig, Protocol, Detour, Calls,
}
use v2b_x_liusu.Cores.Xray.Protocols.{build_v2ray, build_trojan, build_shadowsocks, trojan_network}

-- firstNonEmpty(values...)
unfoldable pub first_non_empty : List String → String
first_non_empty [] = ""
first_non_empty (value ∷ values) =
    let rest = first_non_empty values in if value == "" then rest else value

-- xrayTLSSettings(info)
unfoldable pub xray_tls_settings : Node → TlsSettings
xray_tls_settings info =
    if info.type == "vmess" || info.type == "vless"
    then (elim info.origin.v_allss [ none ↦ no_settings | some n ↦ n.tls_settings ])
    else if info.type == "trojan"
    then (elim info.origin.trojan [ none ↦ no_settings | some n ↦ n.tls_settings ])
    else no_settings

-- RealityConfig{}
abbrev pub no_reality_config : RealityConfig
no_reality_config = record {
  xver = 0;
  min_client_ver = "";
  max_client_ver = "";
  max_time_diff = "";
}

-- The pointer to the socket's settings, made where it is nil, with the keep-alive of the options.
unfoldable pub keep_alive : {T : Type 0} → XrayOptions → StreamConfig T → StreamConfig T
keep_alive o stream =
    let socket : SocketConfig = elim stream.socket_settings [
      | some s ↦ s
      | none ↦ record {
        accept_proxy_protocol = false;
        tfo = false;
        tcp_keep_alive_idle = pos 0;
        tcp_keep_alive_interval = pos 0;
      }
    ] in
    record stream {
      socket_settings = some (record socket {
        tcp_keep_alive_idle = o.tcp_keep_alive_idle;
        tcp_keep_alive_interval = o.tcp_keep_alive_interval;
      });
    }

module _ {T : Type 0} where
  -- case panel.Tls
  unfoldable pub certificate_tls :
      Node → Option CertConfig → StreamConfig T → Result (StreamConfig T)
  unfolding xray_tls_settings first_non_empty
  certificate_tls info none stream = err "the CertConfig is not vail"
  certificate_tls info (some c) stream =
      let settings = xray_tls_settings info in
      let ech = settings.ech in
      if is_disabled c
      then ok stream
      else ok (record stream {
        security = "tls";
        tls_settings = some (record {
          cert_file = c.cert_file;
          key_file = c.key_file;
          ocsp_stapling = 3600;
          reject_unknown_sni = c.reject_unknown_sni;
          alpn = settings.alpn;
          ech_server_keys = first_non_empty (ech.server_keys ∷ ech.key ∷ []);
          ech_config_list = first_non_empty (ech.config_list ∷ ech.config ∷ []);
          ech_force_query = ech.force_query;
        });
      })

module _ {T : Type 0} (calls : Calls T) where
  open calls use {accept, microseconds}

  -- case panel.Reality
  unfoldable pub reality_tls : Node → StreamConfig T → StreamConfig T
  unfolding xray_tls_settings
  reality_tls info stream =
      let settings = xray_tls_settings info in
      let config : RealityConfig = elim info.origin.v_allss [
        | none ↦ no_reality_config
        | some n ↦ n.reality_config
      ] in
      let dest = if settings.dest == "" then settings.server_name else settings.dest in
      record stream {
        security = "reality";
        reality_settings = some (record {
          dest = str_append dest (str_append ":" settings.server_port);
          xver = if settings.xver == 0 then config.xver else settings.xver;
          server_names = settings.server_name ∷ [];
          private_key = settings.private_key;
          min_client_ver = config.min_client_ver;
          max_client_ver = config.max_client_ver;
          max_time_diff = to_uint 64 (microseconds config.max_time_diff);
          short_ids = settings.short_id ∷ [];
          mldsa65_seed = settings.mldsa65_seed;
        });
      }

  -- The switch on the node's security.
  unfoldable pub secure : Node → Option CertConfig → StreamConfig T → Result (StreamConfig T)
  unfolding certificate_tls reality_tls
  secure info c stream =
      if info.security == tls
      then certificate_tls info c stream
      else if info.security == reality
      then ok (reality_tls info stream)
      else ok stream

  -- The switch on the network.
  unfoldable pub accept_proxy : XrayOptions → String → StreamConfig T → StreamConfig T
  accept_proxy o network stream =
      if network == "tcp"
      then record stream {
        tcp_settings = some (accept o.enable_proxy_protocol stream.tcp_settings);
      }
      else if network == "ws"
      then record stream { ws_settings = some (accept o.enable_proxy_protocol stream.ws_settings) }
      else record stream {
        socket_settings = some (record {
          accept_proxy_protocol = o.enable_proxy_protocol;
          tfo = o.enable_tfo;
          tcp_keep_alive_idle = pos 0;
          tcp_keep_alive_interval = pos 0;
        });
      }

  -- buildInbound from the switch on the network on. It reads `in.StreamSetting` first, so that a nil
  -- stream is a panic, and the test for nil after it is never true.
  unfoldable pub complete : String → Node → NodeOptions → String → Protocol T → Result (Detour T)
  unfolding after read accept_proxy keep_alive secure
  complete tag info c network p =
      let o = c.xray_options in
      read p.stream (λ stream.
        after "" (secure info c.cert_config (keep_alive o (accept_proxy o network stream)))
          (λ stream'. ok (record {
            tag = tag;
            port = to_uint 32 info.origin.common.server_port;
            listen_on = c.listen_ip;
            sniffing = not o.disable_sniffing;
            protocol = p.protocol;
            settings = p.settings;
            stream = stream';
          })))

  -- buildInbound(option, nodeInfo, tag), up to the call of Build.
  unfoldable pub inbound_detour : NodeOptions → Node → String → Result (Detour T)
  unfolding after read build_v2ray build_trojan build_shadowsocks complete
  inbound_detour c info tag =
      let o = c.xray_options in
      if info.type == "vmess" || info.type == "vless"
      then read info.origin.v_allss
          (λ v. after "" (build_v2ray calls o info.type v) (complete tag info c v.network))
      else if info.type == "trojan"
      then read info.origin.trojan
          (λ v. after "" (build_trojan calls o v) (complete tag info c (trojan_network calls v)))
      else if info.type == "shadowsocks"
      then read info.origin.shadowsocks
          (λ s. after "" (build_shadowsocks calls s) (complete tag info c "tcp"))
      else err (
          str_append "unsupported node type: "
            (str_append info.type ", Only support: V2ray, Trojan, Shadowsocks"))

-- OutboundDetourConfig of buildOutbound.
pub record Outbound : Type 0 where
  pub protocol : String
  pub tag : String
  pub send_through : Option String
  pub domain_strategy : String

-- buildOutbound(config, tag), up to the call of Build.
unfoldable pub outbound_detour : NodeOptions → String → Outbound
outbound_detour c tag =
    let o = c.xray_options in
    record {
      protocol = "freedom";
      tag = tag;
      send_through = if c.send_ip == "" then none else some c.send_ip;
      domain_strategy =
          if o.enable_dns then (if o.dns_type == "" then "UseIP" else o.dns_type) else "Asis";
    }
