-- ===== src/Cores/Xray/Streams.antt =====
-- field/xray/inbound.go: the protocol and the stream of an inbound on their way through buildInbound.
use v2b_x_liusu.Prelude.{
  ◌≡◌, refl, sym, ◌∙◌, String, true, ◌||◌, Option, none, some, if◌then◌else◌, arith, eq_iff,
}
use v2b_x_liusu.Prelude.Int.{ℤ}
use v2b_x_liusu.Prelude.Eq.{◌==◌, string_eq, int_eq}
use v2b_x_liusu.Panel.Types.{tls}
use v2b_x_liusu.Config.{CertConfig}
use v2b_x_liusu.Cores.Nodes.{Node, VAllssNode, TrojanNode, ShadowsocksNode}
use v2b_x_liusu.Cores.Result.{
  Result, err, Holds, after-Holds, after-Holds_of, if-Holds, Holds-weaken,
}
use v2b_x_liusu.Cores.Sing.Tls.{is_disabled, reality}
use v2b_x_liusu.Cores.Xray.Options.{XrayOptions, Settings, StreamConfig, Protocol, Calls}
use v2b_x_liusu.Cores.Xray.Protocols.{
  build_vless_fallbacks, vless_decryption, v2ray_settings, common_stream, v2ray_stream, build_v2ray,
  build_trojan, build_shadowsocks, trojan_network,
}
use v2b_x_liusu.Cores.Xray.Inbound.{keep_alive, certificate_tls, reality_tls, secure, accept_proxy}

-- The times of the socket's keep-alive, where the socket has settings.
abbrev pub keep_alive_of : {T : Type 0} → StreamConfig T → Option (ℤ × ℤ)
keep_alive_of stream = elim stream.socket_settings [
  | none ↦ none
  | some s ↦ some (s.tcp_keep_alive_idle, s.tcp_keep_alive_interval)
]

-- The security that a node and its certificate ask for.
abbrev pub security_for : Node → Option CertConfig → String
security_for info c =
    if info.security == tls
    then (elim c [ none ↦ "" | some c' ↦ if is_disabled c' then "" else "tls" ])
    else if info.security == reality
    then "reality"
    else ""

-- A stream before and after the switch on the node's security.
abbrev pub IsOpen : {T : Type 0} → StreamConfig T → Type 0
IsOpen stream = stream.security ≡ ""

abbrev pub IsReady : {T : Type 0} → Node → Option CertConfig → XrayOptions → StreamConfig T → Type 0
IsReady info c o stream =
    (stream.security ≡ security_for info c)
    × (keep_alive_of stream ≡ some (o.tcp_keep_alive_idle, o.tcp_keep_alive_interval))

abbrev pub Some : {A : Type 0} → (A → Type 0) → Option A → Type 0
Some Q none = Unit
Some Q (some a) = Q a

abbrev pub IsProtocol : {T : Type 0} → String → Protocol T → Type 0
IsProtocol type p = (p.protocol ≡ type) × Some IsOpen p.stream

module _ {T : Type 0} (calls : Calls T) where
  common_stream-IsOpen :
      (network settings : String) (other : Result (StreamConfig T))
      → Holds IsOpen other
      → Holds IsOpen (common_stream calls network settings other)
  unfolding common_stream
  common_stream-IsOpen network settings other h =
      let decoded = calls.decode network settings in
      if-Holds IsOpen (network == "tcp") _ _
        (λ e. after-Holds IsOpen "unmarshal tcp settings error: " decoded _ (λ t. refl))
        (λ e.
          if-Holds IsOpen (network == "ws") _ _
            (λ e. after-Holds IsOpen "unmarshal ws settings error: " decoded _ (λ t. refl))
            (λ e.
              if-Holds IsOpen (network == "grpc") _ _
                (λ e. after-Holds IsOpen "unmarshal grpc settings error: " decoded _ (λ t. refl))
                (λ e.
                  if-Holds IsOpen (network == "httpupgrade") _ _
                    (λ e.
                      after-Holds IsOpen "unmarshal httpupgrade settings error: " decoded _
                        (λ t. refl))
                    (λ e. h))))

  v2ray_stream-IsOpen : (v : VAllssNode) → Holds IsOpen (v2ray_stream calls v)
  unfolding v2ray_stream
  v2ray_stream-IsOpen v = common_stream-IsOpen v.network v.network_settings _ (
      if-Holds IsOpen (v.network == "splithttp" || v.network == "xhttp") _ _
        (λ e.
          after-Holds IsOpen "unmarshal xhttp settings error: "
            (calls.decode v.network v.network_settings) _ (λ t. refl))
        (λ e. tt))

v2ray_settings-type :
    (o : XrayOptions) (type : String) (v : VAllssNode)
    → (type == "vmess" || type == "vless") ≡ true
    → Holds (λ p. p.0 ≡ type) (v2ray_settings o type v)
unfolding v2ray_settings
v2ray_settings-type o type v k =
    let P : String × Settings → Type 0 = λ p. p.0 ≡ type in
    if-Holds P (type == "vless") _ _
      (λ e.
        let same = sym ((eq_iff type "vless").0 e) in
        if-Holds P o.enable_fallback _ _
          (λ f. after-Holds P "" (build_vless_fallbacks o.fall_back_configs) _ (λ fs. same))
          (λ f. after-Holds P "" (vless_decryption v) _ (λ d. same)))
      (λ e. ground (arith, e, k, eq_iff type "vmess"))

module _ {T : Type 0} (calls : Calls T) (o : XrayOptions) where
  pub build_v2ray-IsProtocol :
      (type : String) (v : VAllssNode)
      → (type == "vmess" || type == "vless") ≡ true
      → Holds (IsProtocol type) (build_v2ray calls o type v)
  unfolding build_v2ray
  build_v2ray-IsProtocol type v k =
      let P : Protocol T → Type 0 = IsProtocol type in
      after-Holds_of P (λ p. p.0 ≡ type) "" (v2ray_settings o type v) _
        (v2ray_settings-type o type v k)
        (λ p same.
          if-Holds P (v.network_settings == "") _ _ (λ e. (same, tt))
            (λ e.
              after-Holds_of P IsOpen "" (v2ray_stream calls v) _ (v2ray_stream-IsOpen calls v)
                (λ stream open'. (same, open'))))

  pub build_trojan-IsProtocol :
      (v : TrojanNode) → Holds (IsProtocol "trojan") (build_trojan calls o v)
  unfolding build_trojan
  build_trojan-IsProtocol v =
      let P : Protocol T → Type 0 = IsProtocol "trojan" in
      after-Holds P "" _ _ (λ fs.
        after-Holds_of P IsOpen ""
          (common_stream calls (trojan_network calls v) v.network_settings
            (err "the network type is not vail"))
          _ (common_stream-IsOpen calls (trojan_network calls v) v.network_settings _ tt)
          (λ stream open'. (refl, open')))

  pub build_shadowsocks-IsProtocol :
      (s : ShadowsocksNode) → Holds (IsProtocol "shadowsocks") (build_shadowsocks calls s)
  unfolding build_shadowsocks
  build_shadowsocks-IsProtocol s =
      after-Holds (IsProtocol "shadowsocks") "generate random password error: " calls.random _
        (λ p. (refl, refl))

  abbrev IsCertified : Option CertConfig → StreamConfig T → Type 0
  IsCertified c stream =
      (stream.security ≡ (elim c [ none ↦ "" | some c' ↦ if is_disabled c' then "" else "tls" ]))
      × (keep_alive_of stream ≡ some (o.tcp_keep_alive_idle, o.tcp_keep_alive_interval))

  certificate_tls-IsCertified :
      (info : Node) (c : Option CertConfig) (stream : StreamConfig T)
      → IsOpen stream
      → keep_alive_of stream ≡ some (o.tcp_keep_alive_idle, o.tcp_keep_alive_interval)
      → Holds (IsCertified c) (certificate_tls info c stream)
  unfolding certificate_tls
  certificate_tls-IsCertified info none stream open' alive = tt
  certificate_tls-IsCertified info (some c) stream open' alive =
      if-Holds (IsCertified (some c)) (is_disabled c) _ _ (λ e. (open' ∙ rw (e) refl, alive))
        (λ e. (rw (e) refl, alive))

  module _ (info : Node) (c : Option CertConfig) where
    pub secure-IsReady :
        (stream : StreamConfig T)
        → IsOpen stream
        → keep_alive_of stream ≡ some (o.tcp_keep_alive_idle, o.tcp_keep_alive_interval)
        → Holds (IsReady info c o) (secure calls info c stream)
    unfolding secure certificate_tls reality_tls
    secure-IsReady stream open' alive =
        let P : StreamConfig T → Type 0 = IsReady info c o in
        if-Holds P (info.security == tls) _ _
          (λ e.
            Holds-weaken (IsCertified c) P (certificate_tls info c stream)
              (λ st h. (h.0 ∙ rw (e) refl, h.1))
              (certificate_tls-IsCertified info c stream open' alive))
          (λ e.
            if-Holds P (info.security == reality) _ _ (λ f. (rw (e, f) refl, alive))
              (λ f. (open' ∙ rw (e, f) refl, alive)))

    pub accept_proxy-IsOpen :
        (network : String) (stream : StreamConfig T)
        → IsOpen stream
        → IsOpen (keep_alive o (accept_proxy calls o network stream))
    unfolding keep_alive accept_proxy
    accept_proxy-IsOpen network stream h = ground (arith, h)

    pub keep_alive-of :
        (stream : StreamConfig T)
        → keep_alive_of (keep_alive o stream)
          ≡ some (o.tcp_keep_alive_idle, o.tcp_keep_alive_interval)
    unfolding keep_alive
    keep_alive-of stream = refl
