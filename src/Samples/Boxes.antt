-- ===== src/Samples/Boxes.antt =====
-- field/sing: a box that takes every call, with a trojan node, and two users of it.
use v2b_x_liusu.Limiter.Rate.{determine_speed_limit}
use v2b_x_liusu.Limiter.Rules.{check_domain_rule, check_protocol_rule, is_listed, matches_any}
use v2b_x_liusu.Limiter.Devices.{
  track_device, add_device, alive_ip, first_device, forget_old, is_full, set_online,
}
use v2b_x_liusu.Limiter.Check.{
  check_limit, count_device, user_rate, take_bucket, bytes_per_second, give_bucket,
}
use v2b_x_liusu.Prelude.{
  inr, ◌≡◌, refl, ℕ, ◌+◌, if◌then◌else◌, is_some, String, true, false, [], ◌∷◌, none, some, arith,
}
use v2b_x_liusu.Prelude.Int.{ℤ, pos, mul64, of_word, quot, to_int64}
use v2b_x_liusu.Prelude.Eq.{string_eq, nat_eq}
use v2b_x_liusu.Dict.{lookup, delete, insert}
use v2b_x_liusu.Text.{user_tag, user_tag_beq, user_tag, trim_prefix, cut_prefix}
use v2b_x_liusu.Counter.{
  TrafficCounter, new_traffic_counter, rx, get_up_count, get_down_count, get_counter,
}
use v2b_x_liusu.Counter.Laws.{new_traffic_counter-IsValid, rx-IsValid, counts}
use v2b_x_liusu.Counter.Conn.{reads_buffer, writes_buffer}
use v2b_x_liusu.Counter.Conn.Sums.{bytes_in, bytes_out}
use v2b_x_liusu.Cores.Result.{ok, err}
use v2b_x_liusu.Cores.Nodes.{Node, Origin}
use v2b_x_liusu.Cores.Traffic.{traffic_slice, is_due}
use v2b_x_liusu.Cores.Traffic.Slice.{bills, settle, traffic_slice_lem, bill}
use v2b_x_liusu.Cores.Sing.{Sing, Box, type}
use v2b_x_liusu.Cores.Sing.Users.{users_at, add_users, del_users}
use v2b_x_liusu.Cores.Sing.Users.Sync.{Becomes, add_users_lem, del_users_lem}
use v2b_x_liusu.Cores.Sing.Users.Maps.{IsSynced}
use v2b_x_liusu.Cores.Sing.Hook.{
  Connection, Hook, counter_at, route, count_user, pass_rules, rejected_by_rule,
}
use v2b_x_liusu.Cores.Sing.Hook.Closes.{is_closed, route_closes}
use v2b_x_liusu.Cores.Sing.Hook.Counts.{count_transfers, routed_bytes_counted}
use v2b_x_liusu.Cores.Sing.Options.{NodeOptions, Parsers, no_multiplex, new_sing_options}
use v2b_x_liusu.Cores.Sing.Inbounds.{refresh_inbound_users, refresh_by_type, has_branch}
use v2b_x_liusu.Cores.Sing.Tls.{no_settings, no_tls}
use v2b_x_liusu.Cores.Sing.Listen.{Inbound, Options, trojan, get_inbound_options}
use v2b_x_liusu.Cores.Sing.Listen.Kinds.{get_inbound_options-refresh_inbound_users}
use v2b_x_liusu.Limiter.Registry.{get_limiter, deref, write}
use v2b_x_liusu.Limiter.Users.Sync.{last_user, has_user}
use v2b_x_liusu.Samples.{alice, bob, two_users, rate_bucket}

-- A box that counts its calls.
abbrev box : Box ℕ String
box = record {
  inbound_type = λ tag w. some "trojan";
  update = λ tag u w. (w + 1, none);
  set_field = λ tag f w. (w + 1, none);
  remove = λ tag w. (w + 1, none);
  parse_uuid = λ s. inr s;
  quote = λ s. s;
  random_password = "r";
}

abbrev pub no_protocol : Origin
no_protocol = record {
  v_allss = none;
  shadowsocks = none;
  trojan = none;
  tuic = none;
  any_tls = none;
  hysteria = none;
  hysteria2 = none;
  simple = none;
  common = record { server_port = pos 443; multiplex = none };
}

abbrev pub node_of : String → Origin → Node
node_of type origin = record {
  id = pos 1;
  type = type;
  security = pos 0;
  push_interval = pos 60;
  pull_interval = pos 60;
  raw_dns = record { dns_map = []; dns_json = "" };
  rules = record { regexp = []; protocol = [] };
  origin = origin;
}

abbrev trojan_node : Node
trojan_node = node_of "trojan" (record no_protocol {
  trojan = some (record { tls_settings = no_settings; network = "tcp"; network_settings = "" });
})

abbrev start : Sing ℕ
start = record {
  box = 0;
  counters = [];
  uid_map = [];
  tag_users = [];
  node_report_min_traffic_bytes = [];
}

start-IsSynced : IsSynced "n" start
unfolding users_at lookup
start-IsSynced = ((tt, tt), λ uuid. refl)

add_users_lem_example :
    Becomes "n"
      (λ uuid. elim (last_user uuid (bob ∷ alice ∷ [])) [
        | some u ↦ some u
        | none ↦ lookup uuid (users_at "n" start.tag_users)
      ])
      start
      (add_users box "n" (bob ∷ alice ∷ []) trojan_node start)
add_users_lem_example = add_users_lem box "n" trojan_node start (bob ∷ alice ∷ []) start-IsSynced

abbrev with_alice : Sing ℕ
with_alice = record start {
  uid_map = (user_tag "n" "a", pos 1) ∷ [];
  tag_users = ("n", ("a", alice) ∷ []) ∷ [];
}

with_alice-IsSynced : IsSynced "n" with_alice
unfolding users_at lookup
with_alice-IsSynced = (((refl, tt), (refl, tt)), λ uuid. ground (arith, user_tag_beq "n" "a" uuid))

del_users_lem_example :
    Becomes "n"
      (λ uuid.
        if has_user uuid (alice ∷ [])
        then none
        else lookup uuid (users_at "n" with_alice.tag_users))
      with_alice
      (del_users box (alice ∷ []) "n" trojan_node with_alice)
del_users_lem_example =
    del_users_lem box "n" trojan_node with_alice (alice ∷ []) with_alice-IsSynced

abbrev hook : Hook ℤ String
hook = record {
  registry = record { limiters = ("n", 0) ∷ []; heap = (0, two_users) ∷ []; next = 1 };
  counters = [];
}

abbrev connection : String → Connection
connection user = record {
  inbound = "n";
  user = user;
  source = "1.1.1.1";
  destination = "example.org";
  protocol = "";
}

route_closes_example :
    is_closed (route rate_bucket (λ r s. false) true (pos 9) (connection "c") hook).1 ≡ true
unfolding get_limiter lookup deref user_tag
route_closes_example =
    route_closes rate_bucket (λ r s. false) (pos 9) (connection "c") hook 0 two_users true refl refl

routed_bytes_counted_example :
    counts
      (counter_at "n" (
        count_transfers "n" 0
          (reads_buffer false 10 ∷ writes_buffer false 20 ∷ [])
          (route rate_bucket (λ r s. false) true (pos 9) (connection "a") hook).0.counters))
      "a"
    ≡ (pos 10, pos 20)
unfolding counter_at new_traffic_counter lookup get_up_count get_down_count route get_limiter deref
    check_limit user_tag count_device track_device user_rate trim_prefix take_bucket
    bytes_per_second check_domain_rule get_counter bytes_in bytes_out count_user pass_rules
    rejected_by_rule delete insert give_bucket add_device alive_ip first_device forget_old is_full
    set_online determine_speed_limit write check_protocol_rule is_listed matches_any mul64 of_word
    quot to_int64 cut_prefix
routed_bytes_counted_example =
    routed_bytes_counted rate_bucket (λ r s. false) (pos 9) (connection "a") hook
      (some (pos 1250000)) 0 (reads_buffer false 10 ∷ writes_buffer false 20 ∷ []) 0 0 true
      (λ t. new_traffic_counter-IsValid) refl refl (tt, (tt, tt)) (omega arith) (omega arith) "n"
      "a"

abbrev used : TrafficCounter
used = rx (rx new_traffic_counter "a" (pos 5)) "b" (pos 900)

traffic_slice_lem_example :
    ((traffic_slice (pos 100) (λ uuid. pos 7) true used).1
      ≡ record { uid = pos 7; upload = pos 0; download = pos 900 } ∷ [])
    × ((v : String)
        → counts (traffic_slice (pos 100) (λ uuid. pos 7) true used).0 v ≡ (
            if is_some (lookup v used.counters)
            then settle (pos 100) (pos 7) true (counts used v)
            else counts used v))
unfolding rx lookup new_traffic_counter insert bills bill is_due get_up_count get_down_count
traffic_slice_lem_example =
    traffic_slice_lem (pos 100) (λ uuid. pos 7) true used
      (rx-IsValid (rx new_traffic_counter "a" (pos 5)) "b" (pos 900)
        (rx-IsValid new_traffic_counter "a" (pos 5) new_traffic_counter-IsValid))
      (refl, (refl, tt))

abbrev parsers : Parsers String
parsers = record {
  http_network = λ s. err "none";
  http_request = λ s. err "none";
  ws_network = λ s. err "none";
  grpc_network = λ s. err "none";
  httpupgrade_network = λ s. err "none";
  h2_network = λ s. err "none";
  parse_path = λ s. ok (s, "");
  atoi = λ s. (pos 0, false);
  parse_addr = λ s. some s;
  parse_duration = λ s. pos 0;
}

abbrev options : NodeOptions
options = record {
  listen_ip = "0.0.0.0";
  report_min_traffic = pos 0;
  sing_options = new_sing_options;
  cert_config = none;
}

abbrev options_of_trojan : Options String
options_of_trojan =
    trojan (record { listen = "0.0.0.0"; listen_port = 443; tcp_fast_open = false }) no_tls none
      (some no_multiplex) none (some [])

abbrev inbound : Inbound String
inbound = record { type = "trojan"; tag = "n"; options = options_of_trojan }

get_inbound_options-refresh_inbound_users_example :
    (inbound.tag ≡ "n")
    × (inbound.type ≡ "trojan")
    × (refresh_inbound_users box "n" trojan_node (alice ∷ []) 0
        ≡ refresh_by_type box "n" trojan_node (alice ∷ []) 0)
unfolding get_inbound_options has_branch
get_inbound_options-refresh_inbound_users_example =
    get_inbound_options-refresh_inbound_users parsers (λ n. []) ("r", "r") trojan_node "n" options
      box (alice ∷ []) 0 inbound refl refl
