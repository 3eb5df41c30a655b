-- ===== src/Cores/Sing/Listen.antt =====
-- field/sing/node.go and utils.go: the inbound that AddNode creates for a node.
pub mod Kinds
use v2b_x_liusu.Prelude.{
  ℕ, String, Bool, true, false, not, ◌&&◌, ◌||◌, List, [], ◌∷◌, Option, none, some, if◌then◌else◌,
}
use Prim.Native.String.{◌++◌ as str_append}
use v2b_x_liusu.Prelude.Int.{ℤ, pos, mul64, to_uint}
use v2b_x_liusu.Prelude.Eq.{◌==◌, string_eq}
use v2b_x_liusu.Dict.{Dict, insert}
use v2b_x_liusu.Text.{contains}
use v2b_x_liusu.Text.Base64.{bytes, encode, std_alphabet}
use v2b_x_liusu.Selector.{Outcome, done, failed, panicked}
use v2b_x_liusu.Cores.Nodes.{
  Node, VAllssNode, ShadowsocksNode, TrojanNode, TuicNode, HysteriaNode, Hysteria2Node,
}
use v2b_x_liusu.Cores.Sing.{Sing}
use v2b_x_liusu.Cores.Result.{Result, ok, err, crashed, after, read}
use v2b_x_liusu.Cores.Sing.Options.{
  MultiplexConfig, SingOptions, FallBack, FallBackConfigForSing, NodeOptions, Parsers, Transport,
}
use v2b_x_liusu.Cores.Sing.Transport.{build_v2ray_transport}
use v2b_x_liusu.Cores.Sing.Tls.{TlsOptions, build_inbound_multiplex, inbound_tls}

-- option.ListenOptions; `A` is a parsed address.
pub record ListenOptions (A : Type 0) : Type 0 where
  pub listen : A
  pub listen_port : ℕ
  pub tcp_fast_open : Bool

-- option.ServerOptions
pub record ServerOptions : Type 0 where
  pub server : String
  pub server_port : ℕ

-- option.Hysteria2Obfs
pub record Hysteria2Obfs : Type 0 where
  pub type : String
  pub password : String

-- The options of each protocol. A password is its bytes. `no_options` is a nil interface.
pub data Options (A : Type 0) : Type 0 where
  vless vmess : ListenOptions A → TlsOptions → Option Transport → Option MultiplexConfig → Options A
  shadowsocks :
      (listen : ListenOptions A) (method : String) (multiplex : Option MultiplexConfig)
      (password : String) (users : List (List ℕ))
      → Options A
  trojan :
      ListenOptions A
      → TlsOptions
      → Option Transport
      → Option MultiplexConfig
      → (fallback : Option ServerOptions) (for_alpn : Option (Dict String ServerOptions))
      → Options A
  tuic :
      ListenOptions A
      → TlsOptions
      → (congestion_control : String) (zero_rtt_handshake : Bool) → Options A
  anytls : ListenOptions A → TlsOptions → (padding_scheme : List String) → Options A
  hysteria : ListenOptions A → TlsOptions → (up_mbps down_mbps : ℤ) (obfs : String) → Options A
  hysteria2 :
      ListenOptions A
      → TlsOptions
      → (up_mbps down_mbps : ℤ) (ignore_client_bandwidth : Bool) (obfs : Option Hysteria2Obfs)
      → Options A
  socks : ListenOptions A → (users : List (String × String)) → Options A
  http naive : ListenOptions A → TlsOptions → (users : List (String × String)) → Options A
  no_options : Options A

-- option.Inbound
pub record Inbound (A : Type 0) : Type 0 where
  pub type : String
  pub tag : String
  pub options : Options A

-- The number of random bytes of a Shadowsocks password.
abbrev pub key_length : String → ℕ
key_length cipher =
    if cipher == "2022-blake3-aes-128-gcm"
    then 16
    else if cipher == "2022-blake3-aes-256-gcm" || cipher == "2022-blake3-chacha20-poly1305"
    then 32
    else 16

-- case "shadowsocks"; `random n` stands for the `n` bytes that are read.
unfoldable pub shadowsocks_options :
    {A : Type 0}
    → (ℕ → List ℕ)
    → ListenOptions A
    → Option MultiplexConfig
    → ShadowsocksNode
    → Options A
unfolding contains encode
shadowsocks_options random listen multiplex n =
    let p = random (key_length n.cipher) in
    if contains n.cipher "2022"
    then shadowsocks listen n.cipher multiplex n.server_key (bytes (encode std_alphabet "=" p) ∷ [])
    else shadowsocks listen n.cipher multiplex "" (p ∷ [])

-- The obfuscation of case "hysteria2".
unfoldable pub hysteria2_obfs : Hysteria2Node → Option Hysteria2Obfs
hysteria2_obfs n =
    if not (n.obfs_type == "") && not (n.obfs_password == "")
    then some (record { type = n.obfs_type; password = n.obfs_password })
    else if not (n.obfs_type == "")
    then some (record { type = "salamander"; password = n.obfs_type })
    else none

module _ {A : Type 0} (parsers : Parsers A) where
  open parsers use {atoi, parse_addr}

  -- A fallback with a port that is a number.
  unfoldable pub server_options : FallBack → Option ServerOptions
  server_options f =
      let (port, valid) = atoi f.server_port in
      if valid then some (record { server = f.server; server_port = to_uint 16 port }) else none

  -- processFallback(c, fallbackForALPN), from the entries that are left; `none` is the error.
  unfoldable pub process_fallback :
      Dict String FallBack → Dict String ServerOptions → Option (Dict String ServerOptions)
  unfolding server_options
  process_fallback [] result = some result
  process_fallback ((alpn, f) ∷ rest) result = elim (server_options f) [
    | none ↦ none
    | some server ↦ process_fallback rest (insert alpn server result)
  ]

  -- case "trojan", from a transport.
  unfoldable pub trojan_options :
      ListenOptions A
      → TlsOptions
      → Option MultiplexConfig
      → Option FallBackConfigForSing
      → Option Transport
      → Options A
  unfolding server_options process_fallback
  trojan_options listen t multiplex none transport = trojan listen t transport multiplex none none
  trojan_options listen t multiplex (some f) transport =
      trojan listen t transport multiplex (server_options f.fall_back)
        (process_fallback f.fall_back_for_alpn [])

  -- The options and the type of the switch on the node's type; `random_user` is randomAuthUser().
  unfoldable pub options_by_type :
      (ℕ → List ℕ)
      → String × String
      → Node
      → SingOptions
      → ListenOptions A
      → TlsOptions
      → Option MultiplexConfig
      → Result (String × Options A)
  unfolding after read build_v2ray_transport shadowsocks_options trojan_options hysteria2_obfs
  options_by_type random random_user info o listen t multiplex =
      if info.type == "vmess" || info.type == "vless"
      then read info.origin.v_allss (λ n.
        after "" (build_v2ray_transport parsers n.network n.network_settings) (λ transport.
          if info.type == "vless"
          then ok ("vless", vless listen t transport multiplex)
          else ok ("vmess", vmess listen t transport multiplex)))
      else if info.type == "shadowsocks"
      then read info.origin.shadowsocks
          (λ n. ok ("shadowsocks", shadowsocks_options random listen multiplex n))
      else if info.type == "trojan"
      then read info.origin.trojan (λ n.
        after "" (build_v2ray_transport parsers n.network n.network_settings) (λ transport.
          ok ("trojan", trojan_options listen t multiplex o.fall_back_configs transport)))
      else if info.type == "tuic"
      then read info.origin.tuic (λ n.
        let alpn : List String = elim n.alpn [ [] ↦ "h3" ∷ [] | x ∷ xs ↦ x ∷ xs ] in
        ok (
          "tuic",
          tuic listen (record t { alpn = alpn }) n.congestion_control n.zero_rtt_handshake,
        ))
      else if info.type == "anytls"
      then read info.origin.any_tls
          (λ padding_scheme. ok ("anytls", anytls listen t padding_scheme))
      else if info.type == "hysteria"
      then read info.origin.hysteria
          (λ n. ok ("hysteria", hysteria listen t n.up_mbps n.down_mbps n.obfs))
      else if info.type == "hysteria2"
      then read info.origin.hysteria2 (λ n. ok (
        "hysteria2",
        hysteria2 listen t n.up_mbps n.down_mbps n.ignore_client_bandwidth (hysteria2_obfs n),
      ))
      else if info.type == "socks"
      then ok ("socks", socks listen (random_user ∷ []))
      else if info.type == "http"
      then ok ("http", http listen t (random_user ∷ []))
      else if info.type == "naive"
      then (if t.enabled
          then ok ("naive", naive listen t (random_user ∷ []))
          else err "naive inbound requires tls certificate config")
      else ok ("", no_options)

  -- getInboundOptions(tag, info, c)
  unfoldable pub get_inbound_options :
      (ℕ → List ℕ) → String × String → String → Node → NodeOptions → Result (Inbound A)
  unfolding after inbound_tls options_by_type build_inbound_multiplex
  get_inbound_options random random_user tag info c = elim (parse_addr c.listen_ip) [
    | none ↦ err "the listen ip not vail"
    | some addr ↦
        let o = c.sing_options in
        let listen : ListenOptions A = record {
          listen = addr;
          listen_port = to_uint 16 info.origin.common.server_port;
          tcp_fast_open = o.tcp_fast_open;
        } in
        let multiplex = build_inbound_multiplex o.multiplex info.origin.common.multiplex in
        after "" (inbound_tls parsers info c.cert_config) (λ t.
          after "" (options_by_type random random_user info o listen t multiplex)
            (λ in'. ok (record { type = in'.0; tag = tag; options = in'.1 })))
  ]

  -- AddNode(tag, info, config). `create` is Create of the box's inbounds: it is given the tag, the type
  -- and the options.
  unfoldable pub add_node :
      {W : Type 0}
      → (Inbound A → W → W × Option String)
      → (ℕ → List ℕ)
      → String × String
      → String
      → Node
      → NodeOptions
      → Sing W
      → Sing W × Outcome
  unfolding get_inbound_options
  add_node {W} create random random_user tag info config s =
      let s' : Sing W = record s {
        node_report_min_traffic_bytes =
            insert tag (mul64 config.report_min_traffic (pos 1024)) s.node_report_min_traffic_bytes;
      } in
      elim (get_inbound_options random random_user tag info config) [
        | err e ↦ (s', failed e)
        | crashed ↦ (s', panicked)
        | ok inbound ↦
            let (w, result) = create inbound s'.box in
            (
              record s' { box = w },
              elim result [ none ↦ done | some e ↦ failed (str_append "add inbound error: " e) ],
            )
      ]
