-- ===== src/Cores/Xray/Built.antt =====
-- field/xray/inbound.go: which nodes get an inbound, and what it is.
use mathlib.Core.Path.{subst}
use v2b_x_liusu.Prelude.{◌≡◌, refl, sym, String, true, ◌||◌, Option, none, some, eq_iff}
use v2b_x_liusu.Prelude.Eq.{◌==◌, string_eq, int_eq}
use v2b_x_liusu.Cores.Nodes.{Node, VAllssNode}
use v2b_x_liusu.Cores.Result.{
  Result, ok, crashed, after, read, Holds, read-Holds, after-Holds_of, if-Holds,
}
use v2b_x_liusu.Cores.Xray.Options.{NodeOptions, Settings, Protocol, Detour, Calls}
use v2b_x_liusu.Cores.Xray.Protocols.{
  v2ray_settings, build_v2ray, build_trojan, build_shadowsocks, trojan_network,
}
use v2b_x_liusu.Cores.Xray.Inbound.{keep_alive, accept_proxy, complete, inbound_detour}
use v2b_x_liusu.Cores.Xray.Streams.{
  keep_alive_of, security_for, IsOpen, IsReady, Some, IsProtocol, build_v2ray-IsProtocol,
  build_trojan-IsProtocol, build_shadowsocks-IsProtocol, secure-IsReady, accept_proxy-IsOpen,
  keep_alive-of,
}

read_stream :
    {A B : Type 0} (P : B → Type 0) (Q : A → Type 0) (x : Option A) (rest : A → Result B)
    → Some Q x
    → ((a : A) → Q a → Holds P (rest a))
    → Holds P (read x rest)
unfolding read
read_stream P Q none rest q h = tt
read_stream P Q (some a) rest q h = h a q

module _ {T : Type 0} (calls : Calls T) (c : NodeOptions) (info : Node) (tag : String) where
  abbrev IsInbound : String → Detour T → Type 0
  IsInbound type d =
      (d.tag ≡ tag) × (d.protocol ≡ type) × IsReady info c.cert_config c.xray_options d.stream

  complete-IsInbound :
      (network type : String) (p : Protocol T)
      → IsProtocol type p
      → Holds (IsInbound type) (complete calls tag info c network p)
  unfolding complete
  complete-IsInbound network type p h =
      let o = c.xray_options in
      read_stream (IsInbound type) IsOpen p.stream _ h.1 (λ stream open'.
        after-Holds_of (IsInbound type) (IsReady info c.cert_config o) "" _ _
          (secure-IsReady calls o info c.cert_config
            (keep_alive o (accept_proxy calls o network stream))
            (accept_proxy-IsOpen calls o info c.cert_config network stream open')
            (keep_alive-of calls o info c.cert_config (accept_proxy calls o network stream)))
          (λ stream' ready. (refl, h.0, ready)))

  inbound_detour-IsInbound : Holds (IsInbound info.type) (inbound_detour calls c info tag)
  unfolding inbound_detour
  inbound_detour-IsInbound =
      let o = c.xray_options in
      let P = IsInbound info.type in
      if-Holds P (info.type == "vmess" || info.type == "vless") _ _
        (λ e. read-Holds P info.origin.v_allss _ (λ v.
          after-Holds_of P (IsProtocol info.type) "" (build_v2ray calls o info.type v) _
            (build_v2ray-IsProtocol calls o info.type v e)
            (complete-IsInbound v.network info.type)))
        (λ e.
          if-Holds P (info.type == "trojan") _ _
            (λ f. read-Holds P info.origin.trojan _ (λ v.
              after-Holds_of P (IsProtocol info.type) "" (build_trojan calls o v) _
                (subst (λ t. Holds (IsProtocol t) (build_trojan calls o v))
                  (sym ((eq_iff info.type "trojan").0 f)) (build_trojan-IsProtocol calls o v))
                (complete-IsInbound (trojan_network calls v) info.type)))
            (λ f.
              if-Holds P (info.type == "shadowsocks") _ _
                (λ g. read-Holds P info.origin.shadowsocks _ (λ s.
                  after-Holds_of P (IsProtocol info.type) "" (build_shadowsocks calls s) _
                    (subst (λ t. Holds (IsProtocol t) (build_shadowsocks calls s))
                      (sym ((eq_iff info.type "shadowsocks").0 g))
                      (build_shadowsocks-IsProtocol calls o s))
                    (complete-IsInbound "tcp" info.type)))
                (λ g. tt)))

  -- The inbound that buildInbound prepares for a node has the tag, the node's type as its protocol,
  -- the security that the node and its certificate ask for, and the keep-alive of the options on its
  -- socket.
  pub inbound_detour_lem :
      (d : Detour T)
      → inbound_detour calls c info tag ≡ ok d
      → (d.tag ≡ tag)
        × (d.protocol ≡ info.type)
        × (d.stream.security ≡ security_for info c.cert_config)
        × (keep_alive_of d.stream
            ≡ some (c.xray_options.tcp_keep_alive_idle, c.xray_options.tcp_keep_alive_interval))
  inbound_detour_lem d made =
      let (tagged, named, ready) =
        subst (Holds (IsInbound info.type)) made inbound_detour-IsInbound in
      (tagged, named, ready.0, ready.1)

  -- buildInbound panics for every vmess and vless node that has no network settings, where its
  -- protocol has settings: it reads through the pointer to the stream before its test for nil.
  pub inbound_detour_crashes :
      (v : VAllssNode) (settings : String × Settings)
      → (info.type == "vmess" || info.type == "vless") ≡ true
      → info.origin.v_allss ≡ some v
      → v.network_settings ≡ ""
      → v2ray_settings c.xray_options info.type v ≡ ok settings
      → inbound_detour calls c info tag ≡ crashed
  unfolding inbound_detour complete build_v2ray after read
  inbound_detour_crashes v settings k there empty made =
      rw (k, there, inbound_detour) (rw (made, build_v2ray, empty) refl)
