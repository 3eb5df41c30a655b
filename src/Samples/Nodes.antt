-- ===== src/Samples/Nodes.antt =====
-- field/xray, field/hy2 and base/secret: one node of each core, and one key.
use v2b_x_liusu.Limiter.Devices.{track_device}
use v2b_x_liusu.Text.{user_tag, trim_prefix}
use v2b_x_liusu.Limiter.Check.{check_limit, count_device, user_rate}
use v2b_x_liusu.Cores.Sing.Users.Lists.{find_user}
use v2b_x_liusu.Cores.Xray.Protocols.{v2ray_settings}
use v2b_x_liusu.Prelude.{
  ◌≡◌, refl, ℕ, String, true, false, [], ◌∷◌, none, some, if◌then◌else◌, is_some,
}
use v2b_x_liusu.Prelude.Int.{ℤ, pos}
use v2b_x_liusu.Prelude.Eq.{◌==◌, string_eq, nat_eq}
use v2b_x_liusu.Dict.{lookup}
use v2b_x_liusu.Text.Base64.{bytes, encode}
use v2b_x_liusu.Selector.{done}
use v2b_x_liusu.Limiter.Registry.{Registry, write, get_limiter, deref}
use v2b_x_liusu.Cores.Nodes.{Node, VAllssNode}
use v2b_x_liusu.Cores.Result.{Result, ok, crashed}
use v2b_x_liusu.Cores.Sing.Tls.{no_settings}
use v2b_x_liusu.Cores.Xray.Options.{
  NodeOptions, Calls, Detour, new_xray_options, new_stream, vless_settings,
}
use v2b_x_liusu.Cores.Xray.Inbound.{no_reality_config, inbound_detour}
use v2b_x_liusu.Cores.Xray.Built.{inbound_detour_lem, inbound_detour_crashes}
use v2b_x_liusu.Cores.Xray.Streams.{keep_alive_of}
use v2b_x_liusu.Cores.Xray.Users.{Xray, Server, managed, del_users as xray_del_users}
use v2b_x_liusu.Cores.Xray.Users.Sync.{entries, del_users-entries}
use v2b_x_liusu.Cores.Hysteria2.{HookServer, Hysteria2}
use v2b_x_liusu.Cores.Hysteria2.Hook.{flag_over_limit, connect, log_traffic, connect-log_traffic}
use v2b_x_liusu.Cores.Hysteria2.Users.{authenticate, add_users, del_users}
use v2b_x_liusu.Cores.Hysteria2.Sync.{add_users-del_users}
use v2b_x_liusu.Secret.{
  good, Crypto, Machine, encrypt_api_key, decrypt_api_key, is_encrypted_api_key,
  resolve_api_key_secret, secret_file_name,
}
use v2b_x_liusu.Secret.RoundTrip.{
  encrypt_api_key-decrypt_api_key, resolve_api_key_secret-resolve_api_key_secret,
}
use v2b_x_liusu.Samples.{alice, alice_limits, two_users, rate_bucket}
use v2b_x_liusu.Samples.Boxes.{node_of, no_protocol}

abbrev calls : Calls String
calls = record {
  decode = λ network settings. ok (some settings);
  accept = λ b t. "accepting";
  microseconds = λ s. pos 0;
  random = ok [];
  hex = λ b. "00";
}

abbrev options : NodeOptions
options = record {
  listen_ip = "0.0.0.0";
  send_ip = "";
  report_min_traffic = pos 0;
  xray_options = new_xray_options;
  cert_config = none;
}

abbrev shadowsocks_node : Node
shadowsocks_node =
    node_of "shadowsocks" (record no_protocol {
      shadowsocks = some (record { cipher = "aes-128-gcm"; server_key = "" });
    })

abbrev built : Result (Detour String) → Detour String
built (ok d) = d
built _ = record {
  tag = "";
  port = 0;
  listen_on = "";
  sniffing = false;
  protocol = "";
  settings = vless_settings "" none;
  stream = new_stream "";
}

abbrev prepared : Detour String
prepared = built (inbound_detour calls options shadowsocks_node "n")

inbound_detour_lem_example :
    (prepared.tag ≡ "n")
    × (prepared.protocol ≡ "shadowsocks")
    × (prepared.stream.security ≡ "")
    × (keep_alive_of prepared.stream ≡ some (pos 60, pos 15))
unfolding inbound_detour
inbound_detour_lem_example = inbound_detour_lem calls options shadowsocks_node "n" prepared refl

abbrev vless : VAllssNode
vless = record {
  tls_settings = no_settings;
  network = "tcp";
  network_settings = "";
  encryption = "";
  encryption_settings = record { mode = ""; ticket = ""; server_padding = ""; private_key = "" };
  decryption = "";
  flow = "";
  reality_config = no_reality_config;
}

abbrev vless_node : Node
vless_node = node_of "vless" (record no_protocol { v_allss = some vless })

inbound_detour_crashes_example : inbound_detour calls options vless_node "n" ≡ crashed
unfolding v2ray_settings
inbound_detour_crashes_example =
    inbound_detour_crashes calls options vless_node "n" vless ("vless", vless_settings "none" none)
      refl refl refl refl

abbrev server : Server ℕ String String
server = record {
  get_handler = λ tag w. managed;
  to_memory_user = λ u. ok u.email;
  add_user = λ tag m w. (w, none);
  remove_user = λ tag user w. (w, none);
  update_dns = λ n w. (w, none);
  build_inbound = λ d. none;
  build_outbound = λ o. none;
  add_inbound = λ d w. (w, none);
  add_outbound = λ o w. (w, none);
  remove_inbound = λ tag w. (w, none);
  remove_outbound = λ tag w. (w, none);
  lower = λ s. s;
}

abbrev xray : Xray ℕ
xray = record {
  server = 0;
  uid_map = ("n|a", pos 1) ∷ ("n|b", pos 2) ∷ [];
  counters = [];
  link_managers = ("n|a", (4, 5) ∷ []) ∷ [];
  closed_links = [];
  node_report_min_traffic_bytes = [];
}

del_users-entries_example :
    entries "n|a" (xray_del_users server (alice ∷ []) "n" xray).0 ≡ (none, none)
unfolding xray_del_users find_user
del_users-entries_example = del_users-entries server "n" "a" (alice ∷ []) xray refl

abbrev registry : Registry ℤ String
registry = record { limiters = ("n", 0) ∷ []; heap = (0, two_users) ∷ []; next = 1 }

abbrev hook : HookServer
hook = record { tag = "n"; counter = []; report_min_traffic_bytes = pos 0 }

abbrev flagged : Registry ℤ String
flagged = write 0 (flag_over_limit rate_bucket (pos 9) "n|a" "2.2.2.2" two_users) registry

connect-log_traffic_example :
    ((log_traffic "a" 5 7 (flagged, hook)).1 ≡ false)
    × ((log_traffic "a" 5 8 (log_traffic "a" 5 7 (flagged, hook)).0).1 ≡ true)
unfolding get_limiter lookup deref check_limit user_tag count_device track_device user_rate
    trim_prefix connect
connect-log_traffic_example =
    connect-log_traffic rate_bucket (pos 9) "a" "2.2.2.2" hook registry flagged 0 two_users
      alice_limits 5 7 5 8 refl refl refl refl

abbrev hysteria : Hysteria2 ℕ
hysteria = record {
  hy2nodes = ("n", record { hy2server = 0; traffic_logger = hook }) ∷ [];
  users_map = ("b", pos 2) ∷ [];
}

add_users-del_users_example :
    (is_some (authenticate "b" (add_users (alice ∷ []) hysteria)) ≡ true)
    × ((del_users (alice ∷ []) "n" hysteria).1 ≡ done)
    × (authenticate "b" (del_users (alice ∷ []) "n" hysteria).0 ≡ some "b")
unfolding lookup find_user authenticate
add_users-del_users_example =
    add_users-del_users "n" "b" hysteria (alice ∷ [])
      (record { hy2server = 0; traffic_logger = hook }) refl

-- A cipher that leaves the text as it is, with a nonce of one byte.
abbrev crypto : Crypto (Unit {0})
crypto = record {
  trim_space = λ s. if s == " key" then "key" else s;
  sum256 = bytes;
  new_gcm = λ key. good tt;
  nonce_size = λ g. 1;
  seal = λ g nonce text. bytes text;
  open_sealed = λ g nonce sealed. good "key";
  decode = λ s. good (7 ∷ 107 ∷ 101 ∷ 121 ∷ []);
}

encrypt_api_key-decrypt_api_key_example :
    (encrypt_api_key crypto (λ n. good (7 ∷ [])) " key" "secret" ≡ good "enc:v1:B2tleQ")
    × (is_encrypted_api_key "enc:v1:B2tleQ" ≡ true)
    × (decrypt_api_key crypto "enc:v1:B2tleQ" "secret" ≡ good "key")
unfolding encode
encrypt_api_key-decrypt_api_key_example =
    encrypt_api_key-decrypt_api_key crypto (λ n. good (7 ∷ [])) " key" "secret" tt (7 ∷ []) refl
      refl refl refl refl refl

abbrev machine : Machine
machine = record {
  env = λ name. "";
  mkdir_all = λ file. none;
  random_key = good (1 ∷ []);
  write_error = λ file. none;
}

abbrev trim : String → String
trim s = if s == "AQ\n" then "AQ" else s

resolve_api_key_secret-resolve_api_key_secret_example :
    ((resolve_api_key_secret trim "/k" true machine []).1 ≡ good ("AQ", "/k"))
    × (resolve_api_key_secret trim "/k" false machine
          (resolve_api_key_secret trim "/k" true machine []).0
        ≡ ((resolve_api_key_secret trim "/k" true machine []).0, good ("AQ", "/k")))
unfolding lookup encode secret_file_name
resolve_api_key_secret-resolve_api_key_secret_example =
    resolve_api_key_secret-resolve_api_key_secret trim "/k" machine [] (1 ∷ []) false refl refl refl
      refl refl refl refl
