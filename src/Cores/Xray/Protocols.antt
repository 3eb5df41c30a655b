-- ===== src/Cores/Xray/Protocols.antt =====
-- field/xray/inbound.go: the settings of each protocol, and the stream of its network.
use v2b_x_liusu.Prelude.{String, ◌||◌, List, [], ◌∷◌, Option, none, some, if◌then◌else◌}
use Prim.Native.String.{◌++◌ as str_append}
use v2b_x_liusu.Prelude.Eq.{◌==◌, string_eq}
use v2b_x_liusu.Text.Base64.{bytes, encode, std_alphabet}
use v2b_x_liusu.Cores.Nodes.{VAllssNode, TrojanNode, ShadowsocksNode}
use v2b_x_liusu.Cores.Result.{Result, ok, err, after}
use v2b_x_liusu.Cores.Xray.Options.{
  FallBackConfigForXray, XrayOptions, Fallback, Settings, vless_settings, vmess_settings,
  trojan_settings, shadowsocks_settings, StreamConfig, new_stream, Protocol, Calls,
}

abbrev fallback : FallBackConfigForXray → Fallback
fallback c = record {
  name = c.sni;
  alpn = c.alpn;
  path = c.path;
  dest = c.dest;
  xver = c.proxy_protocol_ver;
}

-- The loop of both functions below, from the configurations that are left.
unfoldable pub each_fallback : List FallBackConfigForXray → Result (List Fallback)
unfolding after
each_fallback [] = ok []
each_fallback (c ∷ cs) =
    if c.dest == ""
    then err "dest is required for fallback fialed"
    else after "" (each_fallback cs) (λ fallbacks. ok (fallback c ∷ fallbacks))

-- buildVlessFallbacks(fallbackConfigs)
unfoldable pub build_vless_fallbacks : Option (List FallBackConfigForXray) → Result (List Fallback)
unfolding each_fallback
build_vless_fallbacks none = err "you must provide FallBackConfigs"
build_vless_fallbacks (some cs) = each_fallback cs

-- buildTrojanFallbacks(fallbackConfigs), which has the same body.
unfoldable pub build_trojan_fallbacks : Option (List FallBackConfigForXray) → Result (List Fallback)
unfolding each_fallback
build_trojan_fallbacks none = err "you must provide FallBackConfigs"
build_trojan_fallbacks (some cs) = each_fallback cs

-- strings.Join(parts, ".")
abbrev pub join : List String → String
join [] = ""
join (part ∷ []) = part
join (part ∷ (next ∷ rest)) = str_append part (str_append "." (join (next ∷ rest)))

-- The decryption of a vless node without fallbacks.
unfoldable pub vless_decryption : VAllssNode → Result String
vless_decryption v =
    let s = v.encryption_settings in
    if v.encryption == ""
    then ok (if v.decryption == "" then "none" else v.decryption)
    else if v.encryption == "mlkem768x25519plus"
    then ok (
        join (
          "mlkem768x25519plus"
          ∷ s.mode
          ∷ s.ticket
          ∷ (if s.server_padding == ""
              then s.private_key ∷ []
              else s.server_padding ∷ s.private_key ∷ [])))
    else err (str_append "vless decryption method " (str_append v.encryption " is not support"))

-- The protocol and the settings of a vmess or vless node.
unfoldable pub v2ray_settings : XrayOptions → String → VAllssNode → Result (String × Settings)
unfolding after build_vless_fallbacks vless_decryption
v2ray_settings o type v =
    if type == "vless"
    then (if o.enable_fallback
        then after "" (build_vless_fallbacks o.fall_back_configs)
            (λ fallbacks. ok ("vless", vless_settings "none" (some fallbacks)))
        else after "" (vless_decryption v)
            (λ decryption. ok ("vless", vless_settings decryption none)))
    else ok ("vmess", vmess_settings)

module _ {T : Type 0} (calls : Calls T) where
  open calls use {decode, random, hex}

  -- The networks that both builders of a stream know.
  unfoldable pub common_stream : String → String → Result (StreamConfig T) → Result (StreamConfig T)
  unfolding after
  common_stream network settings other =
      if network == "tcp"
      then after "unmarshal tcp settings error: " (decode network settings)
          (λ t. ok (record (new_stream network) { tcp_settings = t }))
      else if network == "ws"
      then after "unmarshal ws settings error: " (decode network settings)
          (λ t. ok (record (new_stream network) { ws_settings = t }))
      else if network == "grpc"
      then after "unmarshal grpc settings error: " (decode network settings)
          (λ t. ok (record (new_stream network) { grpc_settings = t }))
      else if network == "httpupgrade"
      then after "unmarshal httpupgrade settings error: " (decode network settings)
          (λ t. ok (record (new_stream network) { httpupgrade_settings = t }))
      else other

  -- The stream of a vmess or vless node that has network settings.
  unfoldable pub v2ray_stream : VAllssNode → Result (StreamConfig T)
  unfolding after common_stream
  v2ray_stream v = common_stream v.network v.network_settings (
      if v.network == "splithttp" || v.network == "xhttp"
      then after "unmarshal xhttp settings error: " (decode v.network v.network_settings)
          (λ t. ok (record (new_stream v.network) { split_http_settings = t }))
      else err "the network type is not vail")

  -- buildV2ray(config, nodeInfo, inbound): without network settings the stream stays nil.
  unfoldable pub build_v2ray : XrayOptions → String → VAllssNode → Result (Protocol T)
  unfolding after v2ray_settings v2ray_stream
  build_v2ray o type v = after "" (v2ray_settings o type v) (λ p.
      if v.network_settings == ""
      then ok (record { protocol = p.0; settings = p.1; stream = none })
      else after "" (v2ray_stream v)
          (λ stream. ok (record { protocol = p.0; settings = p.1; stream = some stream })))

  -- The network of a trojan node.
  abbrev pub trojan_network : TrojanNode → String
  trojan_network v = if v.network == "" then "tcp" else v.network

  -- buildTrojan(config, nodeInfo, inbound)
  unfoldable pub build_trojan : XrayOptions → TrojanNode → Result (Protocol T)
  unfolding after build_trojan_fallbacks common_stream
  build_trojan o v =
      let fallbacks : Result (Option (List Fallback)) =
        if o.enable_fallback
        then after "" (build_trojan_fallbacks o.fall_back_configs) (λ fs. ok (some fs))
        else ok none in
      after "" fallbacks (λ fs.
        after ""
          (common_stream (trojan_network v) v.network_settings (err "the network type is not vail"))
          (λ stream.
            ok (record {
              protocol = "trojan";
              settings = trojan_settings fs;
              stream = some stream;
            })))

  -- buildShadowsocks(config, nodeInfo, inbound)
  unfoldable pub build_shadowsocks : ShadowsocksNode → Result (Protocol T)
  unfolding after encode
  build_shadowsocks s = after "generate random password error: " random (λ p.
      let made = hex p in
      let settings =
        if s.server_key == ""
        then shadowsocks_settings s.cipher "" s.cipher made ("tcp" ∷ "udp" ∷ [])
        else shadowsocks_settings s.cipher s.server_key "" (encode std_alphabet "=" (bytes made))
            ("tcp" ∷ "udp" ∷ []) in
      ok (record {
        protocol = "shadowsocks";
        settings = settings;
        stream = some (new_stream "tcp");
      }))
