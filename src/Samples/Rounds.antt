-- ===== src/Samples/Rounds.antt =====
-- branch/task.go with mirror/panel/node.go: two rounds, of which the first cannot get the users. The
-- network is a number of replies.
use v2b_x_liusu.Time.{seconds}
use v2b_x_liusu.Panel.Routes.{use_routes}
use v2b_x_liusu.Prelude.{◌≡◌, refl, ℕ, suc, String, true, none, some, [], ◌∷◌, leb, if◌then◌else◌}
use v2b_x_liusu.Prelude.Int.{ℤ, pos}
use v2b_x_liusu.Prelude.Eq.{string_eq, nat_eq}
use v2b_x_liusu.Panel.Types.{NodeInfo}
use v2b_x_liusu.Panel.Interval.{number, interval_to_time}
use v2b_x_liusu.Panel.Fetch.{Api, Client, answered, Params, get_node_info}
use v2b_x_liusu.Task.{new_task}
use v2b_x_liusu.Selector.{Outcome}
use v2b_x_liusu.Branch.Controller.{Env, World, Reply}
use v2b_x_liusu.Branch.Controller.Client.{Network, client_panel}
use v2b_x_liusu.Branch.Controller.Monitor.Round.{node_info_monitor}
use v2b_x_liusu.Branch.Controller.Monitor.Lost.{lost_node}
use v2b_x_liusu.Samples.{alice, bob, two_users}
use v2b_x_liusu.Samples.Cores.{options}

abbrev params : Params String ℕ
params = record {
  tls_mode = pos 0;
  tls_settings = "";
  tls_settings_back = none;
  network_settings = "";
  network_settings_back = "";
  rest = 0;
}

-- Every body describes the same node.
abbrev api : Api String ℕ
api = record {
  request_failed = λ e. e;
  sha256 = λ body. body;
  decode = λ type body. (
    some (record {
      params = params;
      routes = [];
      base_config = some (number (pos 60), number (pos 30));
    }),
    "",
  );
}

-- Every reply has the same body, and the first request for users is not answered.
abbrev network : Network ℕ
network = record {
  node_reply = λ q. (suc q, answered 200 "" "{}");
  users = λ q. (suc q, if leb q 1 then Reply.failed "timeout" else Reply.ok (some (alice ∷ [])));
  alive = λ q. (suc q, Reply.ok (some []));
}

abbrev env : Env ℕ (Params String ℕ) (Client × ℕ) ℕ String
env = record {
  server = record {
    add_node = λ tag n o s. (suc s, o, Outcome.done);
    del_node = λ tag s. (suc s, none);
    add_users = λ tag users n s. (suc s, pos 1, none);
    get_user_traffic_slice = λ tag reset s. (s, [], none);
    del_users = λ users tag n s. (suc s, none);
  };
  panel = client_panel api network;
  compile = λ s. some s;
  cert_tools = record {
    is_exist = λ f. true;
    new_lego = λ c. none;
    create_cert = λ c. none;
    generate_self = λ c. none;
  };
  api_host = "https://panel.example";
}

-- The node before, and the one that the panel has now.
abbrev node_with : ℤ → NodeInfo (Params String ℕ)
node_with push = record {
  id = pos 7;
  type = "vless";
  security = pos 0;
  push_interval = push;
  pull_interval = pos 30000000000;
  raw_dns = record { dns_map = []; dns_json = "" };
  rules = record { regexp = []; protocol = [] };
  origin = params;
}

abbrev world : World ℕ (Params String ℕ) (Client × ℕ) ℕ ℤ String
world = record {
  controller = record {
    tag = "n";
    limiter = 0;
    traffic = [];
    user_list = alice ∷ bob ∷ [];
    info = node_with (pos 30000000000);
    node_info_monitor_periodic = new_task (pos 30000000000);
    user_report_periodic = new_task (pos 30000000000);
    renew_cert_periodic = none;
    dynamic_speed_limit_periodic = none;
    options = options;
  };
  registry = record { limiters = ("n", 0) ∷ []; heap = (0, two_users) ∷ []; next = 1 };
  server = 0;
  api_client =
      (record { node_type = "vless"; node_id = pos 7; node_etag = ""; response_body_hash = "" }, 0);
}

lost_node_example :
    let w1 = (node_info_monitor env world).1 in
    let c = (get_node_info api (answered 200 "" "{}") world.api_client.0).0 in
    (w1 ≡ record world { api_client = (c, 2) })
    × ((node_info_monitor env w1).1.controller.info ≡ node_with (pos 30000000000))
unfolding get_node_info use_routes interval_to_time seconds
lost_node_example =
    lost_node api network env world 200 200 "" "" "{}" "timeout" (node_with (pos 60000000000)) 1 2 3
      refl refl refl refl refl refl refl refl
