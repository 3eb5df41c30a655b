-- ===== src/Cores/Sing/Transport.antt =====
-- field/sing/node.go, buildV2RayTransport: the transport of a node, from its network settings.
use v2b_x_liusu.Prelude.{
  ℕ, String, not, ◌&&◌, ◌||◌, List, [], ◌∷◌, Option, none, some, map, if◌then◌else◌,
}
use Prim.Native.String.{◌++◌ as str_append}
use v2b_x_liusu.Prelude.Int.{to_uint}
use v2b_x_liusu.Prelude.Eq.{◌==◌, string_eq}
use v2b_x_liusu.Dict.{Dict}
use v2b_x_liusu.Cores.Result.{Result, ok, err, after}
use v2b_x_liusu.Cores.Sing.Options.{HttpRequest, Parsers, HttpOptions, Transport, new_transport}

-- A decoder is called only on a message that is there; otherwise the config is the zero value.
abbrev pub decode_or : {A : Type 0} → A → (String → Result A) → String → Result A
decode_or zero_value decode raw = if raw == "" then ok zero_value else decode raw

-- The headers as sing-box has them, one value for each.
abbrev pub listable : Dict String String → Dict String (List String)
listable headers = map (λ (e : String × String). (e.0, e.1 ∷ [])) headers

abbrev pub first_or : String → List String → String
first_or other [] = other
first_or other (x ∷ xs) = x

module _ {A : Type 0} (parsers : Parsers A) where
  open parsers use {
    http_network, http_request, ws_network, grpc_network, httpupgrade_network, h2_network,
    parse_path, atoi,
  }

  -- case "tcp": without a header of type "http" there is no transport.
  unfoldable pub tcp_transport : Transport → String → Result (Option Transport)
  unfolding after
  tcp_transport t raw =
      after "decode NetworkSettings error: "
        (decode_or (record { header_type = ""; request = none }) http_network raw)
        (λ config. if not (config.header_type == "http") then ok none else (elim config.request [
          | none ↦ ok (some (record t { type = "http" }))
          | some text ↦ after "decode HttpRequest error: " (http_request text) (λ request. ok (
              some (record t {
                type = "http";
                http_options = record {
                  host = request.headers_host;
                  path = first_or "" request.path;
                  method = request.method;
                };
              })))
        ]))

  -- The fields of the older form of the settings, over those found before.
  unfoldable pub overwrite : HttpRequest → HttpOptions → HttpOptions
  overwrite request o = record {
    host = elim request.headers_host [
      | x ∷ xs ↦ x ∷ xs
      | [] ↦ elim request.host [ x ∷ xs ↦ x ∷ xs | [] ↦ o.host ]
    ];
    path = first_or o.path request.path;
    method = if not (request.method == "") then request.method else o.method;
  }

  -- case "http", "h2": both forms are tried, and errors are ignored.
  unfoldable pub h2_transport : Transport → String → Transport
  unfolding overwrite
  h2_transport t raw =
      let decoded : HttpOptions = elim (h2_network raw) [
        | ok h2 ↦ record { host = h2.host; path = h2.path; method = h2.method }
        | _ ↦ t.http_options
      ] in
      let options : HttpOptions = elim (http_request raw) [
        | ok request ↦ overwrite request decoded
        | _ ↦ decoded
      ] in
      record t { type = "http"; http_options = if raw == "" then t.http_options else options }

  abbrev early_data : Transport → String → ℕ → Dict String (List String) → Transport
  early_data t path ed headers = record t {
    websocket_options = record {
      path = path;
      early_data_header_name = "Sec-WebSocket-Protocol";
      max_early_data = ed;
      headers = headers;
    };
  }

  -- case "ws"; the error of Atoi is ignored.
  unfoldable pub ws_transport : Transport → String → Result (Option Transport)
  unfolding after
  ws_transport t raw =
      if raw == ""
      then ok (some (early_data t "" 0 []))
      else after "decode NetworkSettings error: " (ws_network raw) (λ config.
        after "parse path error: " (parse_path config.path)
          (λ u. ok (some (early_data t u.0 (to_uint 32 (atoi u.1).0) (listable config.headers)))))

  -- case "grpc"
  unfoldable pub grpc_transport : Transport → String → Result (Option Transport)
  unfolding after
  grpc_transport t raw =
      after "decode NetworkSettings error: " (decode_or "" grpc_network raw)
        (λ service_name. ok (some (record t { grpc_service_name = service_name })))

  -- case "httpupgrade"
  unfoldable pub httpupgrade_transport : Transport → String → Result (Option Transport)
  unfolding after
  httpupgrade_transport t raw =
      after "decode NetworkSettings error: "
        (decode_or (record { path = ""; host = ""; headers = [] }) httpupgrade_network raw)
        (λ config. ok (
          some (record t {
            http_upgrade_options = record {
              path = config.path;
              host = config.host;
              headers = listable config.headers;
            };
          })))

  -- buildV2RayTransport(network, raw)
  unfoldable pub build_v2ray_transport : String → String → Result (Option Transport)
  unfolding tcp_transport h2_transport ws_transport grpc_transport httpupgrade_transport
  build_v2ray_transport network raw =
      let t = new_transport network in
      if network == "" || network == "tcp" && raw == ""
      then ok none
      else if network == "tcp"
      then tcp_transport t raw
      else if network == "http" || network == "h2"
      then ok (some (h2_transport t raw))
      else if network == "ws"
      then ws_transport t raw
      else if network == "grpc"
      then grpc_transport t raw
      else if network == "httpupgrade"
      then httpupgrade_transport t raw
      else err (str_append "unsupported sing transport type: " network)
