-- ===== src/Panel/Fetch.antt =====
-- mirror/panel/node.go, GetNodeInfo, and checkResponse of utils.go. The HTTP client and the decoder
-- of JSON are arguments: the first by its reply, the second by what it decodes.
pub mod Again
use v2b_x_liusu.Prelude.{
  ◌≡◌, refl, ℕ, String, Bool, true, false, ◌||◌, List, [], ◌∷◌, Option, none, some, if◌then◌else◌,
  leb,
}
use Prim.Native.String.{◌++◌ as str_append}
use v2b_x_liusu.Prelude.Int.{ℤ, pos}
use v2b_x_liusu.Prelude.Eq.{◌==◌, nat_eq, int_eq, string_eq}
use v2b_x_liusu.Panel.Types.{Rules, RawDns, NodeInfo, tls}
use v2b_x_liusu.Panel.Routes.{Route, use_routes}
use v2b_x_liusu.Panel.Interval.{Interval, interval_to_time}

-- Client, as far as GetNodeInfo reads and writes it.
pub record Client : Type 0 where
  pub node_type : String
  pub node_id : ℤ
  pub node_etag : String
  pub response_body_hash : String

-- What a request comes to: an error of the client, or a status with the ETag and the body.
pub data HttpReply : Type 0 where
  broken : String → HttpReply
  answered : (status : ℕ) (etag body : String) → HttpReply

-- The parameters of a protocol that the code looks at; `T` are the TLS settings and `P` all that
-- only the cores read. A raw message that is not there is the empty text.
pub record Params (T P : Type 0) : Type 0 where
  pub tls_mode : ℤ
  pub tls_settings : T
  pub tls_settings_back : Option T
  pub network_settings : String
  pub network_settings_back : String
  pub rest : P

-- What json.Unmarshal gives for a node: the parameters, and the CommonNode in them. The pointer to
-- BaseConfig may be nil.
pub record Decoded (T P : Type 0) : Type 0 where
  pub params : Params T P
  pub routes : List Route
  pub base_config : Option (Interval × Interval)

-- What utils.go writes of a failed request, the hash, and the decoder for a node's type with the text
-- of its error.
pub record Api (T P : Type 0) : Type 0 where
  pub request_failed : String → String
  pub sha256 : String → String
  pub decode : String → String → (Option (Decoded T P)) × String

-- How GetNodeInfo ends.
pub data Fetched (A : Type 0) : Type 0 where
  fetched : A → Fetched A
  failed : String → Fetched A
  panicked : Fetched A

abbrev pub no_rules : Rules × RawDns
no_rules = (record { regexp = []; protocol = [] }, record { dns_map = []; dns_json = "" })

-- The text before an error of the decoder; `none` for a type that the switch does not name.
unfoldable pub decode_prefix : String → Option String
decode_prefix type =
    if type == "vmess" || type == "vless"
    then some "decode v2ray params error: "
    else if type == "shadowsocks"
        || type == "trojan"
        || type == "socks"
        || type == "http"
        || type == "naive"
        || type == "tuic"
        || type == "anytls"
        || type == "hysteria"
        || type == "hysteria2"
    then some (str_append "decode " (str_append type " params error: "))
    else none

module _ {T P : Type 0} where
  -- if rsp.TlsSettingsBack != nil { … }
  unfoldable pub restore_tls : Params T P → Params T P
  restore_tls p = elim p.tls_settings_back [
    | none ↦ p
    | some settings ↦ record p { tls_settings = settings; tls_settings_back = none }
  ]

  -- if len(rsp.NetworkSettingsBack) > 0 { … }
  unfoldable pub restore_network : Params T P → Params T P
  restore_network p =
      if p.network_settings_back == ""
      then p
      else record p { network_settings = p.network_settings_back; network_settings_back = "" }

  -- The settings of the node's type that are restored, and its security; `none` for a type that the
  -- switch does not name.
  unfoldable pub by_type : String → Params T P → Option (Params T P × ℤ)
  unfolding restore_tls restore_network
  by_type type p =
      if type == "vmess" || type == "vless"
      then some (restore_tls (restore_network p), p.tls_mode)
      else if type == "shadowsocks"
      then some (p, pos 0)
      else if type == "trojan"
      then some (restore_tls (restore_network p), if p.tls_mode == pos 0 then tls else p.tls_mode)
      else if type == "socks" || type == "http" || type == "naive"
      then some (restore_tls p, p.tls_mode)
      else if type == "tuic" || type == "anytls" || type == "hysteria" || type == "hysteria2"
      then some (p, tls)
      else none

  -- The node of a decoded body; each step that panics ends it.
  unfoldable pub make_node : Client → Decoded T P → Fetched (Option (NodeInfo (Params T P)))
  unfolding by_type
  make_node c d = elim (by_type c.node_type d.params) [
    | none ↦ panicked
    | some (params, security) ↦ elim (use_routes 0 d.routes no_rules) [
      | none ↦ panicked
      | some (rules, dns) ↦ elim d.base_config [
        | none ↦ panicked
        | some (push, pull) ↦ elim (interval_to_time push) [
          | none ↦ panicked
          | some push_interval ↦ elim (interval_to_time pull) [
            | none ↦ panicked
            | some pull_interval ↦ fetched (
                some (record {
                  id = c.node_id;
                  type = c.node_type;
                  security = security;
                  push_interval = push_interval;
                  pull_interval = pull_interval;
                  raw_dns = dns;
                  rules = rules;
                  origin = params;
                }))
          ]
        ]
      ]
    ]
  ]

  module _ (api : Api T P) where
    -- checkResponse; `none` is nil.
    unfoldable pub check_response : HttpReply → Option String
    check_response (broken e) = some (api.request_failed e)
    check_response (answered status etag body) =
        if leb 400 status then some (api.request_failed body) else none

    -- The body, once it is known to be new.
    unfoldable pub read_body : Client → String → Fetched (Option (NodeInfo (Params T P)))
    unfolding make_node decode_prefix
    read_body c body = elim (decode_prefix c.node_type) [
      | none ↦ panicked
      | some prefix ↦ elim (api.decode c.node_type body).0 [
        | none ↦ failed (str_append prefix (api.decode c.node_type body).1)
        | some d ↦ make_node c d
      ]
    ]

    -- A reply without an error. The hash and the ETag are kept before the body is read.
    unfoldable pub accept :
        ℕ → String → String → Client → Client × Fetched (Option (NodeInfo (Params T P)))
    unfolding read_body
    accept status etag body c =
        let c' : Client = record c { response_body_hash = api.sha256 body; node_etag = etag } in
        if status == 304
        then (c, fetched none)
        else if c.response_body_hash == api.sha256 body
        then (c, fetched none)
        else (c', read_body c' body)

    -- GetNodeInfo(), for the reply to its request
    unfoldable pub get_node_info :
        HttpReply → Client → Client × Fetched (Option (NodeInfo (Params T P)))
    unfolding check_response accept
    get_node_info (broken e) c = (c, failed (api.request_failed e))
    get_node_info (answered status etag body) c =
        elim (check_response (answered status etag body)) [
          | some e ↦ (c, failed e)
          | none ↦ accept status etag body c
        ]
