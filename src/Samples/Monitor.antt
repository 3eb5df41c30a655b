-- ===== src/Samples/Monitor.antt =====
-- branch/task.go: rounds of a controller whose core is a number of calls.
use v2b_x_liusu.Text.Decimal.{itoa}
use v2b_x_liusu.Prelude.{◌≡◌, refl, ℕ, suc, String, true, none, some, [], ◌∷◌}
use v2b_x_liusu.Prelude.Int.{ℤ, pos}
use v2b_x_liusu.Prelude.Eq.{string_eq, nat_eq}
use v2b_x_liusu.Dict.{Dict, lookup, insert, delete}
use v2b_x_liusu.Limiter.Registry.{deref}
use v2b_x_liusu.Task.{new_task}
use v2b_x_liusu.Selector.{Outcome}
use v2b_x_liusu.Branch.Compare.{compare_user_list, key}
use v2b_x_liusu.Branch.Flow.{returned}
use v2b_x_liusu.Branch.Controller.{Env, Controller, World, Reply}
use v2b_x_liusu.Branch.Controller.Monitor.Round.{node_info_monitor}
use v2b_x_liusu.Branch.Controller.Monitor.Outcomes.{node_info_monitor_users}
use v2b_x_liusu.Branch.Controller.Monitor.Steps.{
  Accepts, with_server, with_users, followed, alive_limiter, alive_world,
}
use v2b_x_liusu.Samples.{alice, bob, carol, two_users}
use v2b_x_liusu.Samples.Cores.{node, options}

abbrev env : Env ℕ ℕ ℕ ℕ String
env = record {
  server = record {
    add_node = λ tag n o s. (suc s, o, Outcome.done);
    del_node = λ tag s. (suc s, none);
    add_users = λ tag users n s. (suc s, pos 1, none);
    get_user_traffic_slice = λ tag reset s. (s, [], none);
    del_users = λ users tag n s. (suc s, none);
  };
  panel = record {
    get_node_info = λ p. (suc p, Reply.ok none);
    get_user_list = λ p. (suc p, Reply.ok (some (bob ∷ carol ∷ [])));
    get_user_alive = λ p. (suc p, Reply.ok (some ((pos 2, pos 1) ∷ [])));
  };
  compile = λ s. some s;
  cert_tools = record {
    is_exist = λ f. true;
    new_lego = λ c. none;
    create_cert = λ c. none;
    generate_self = λ c. none;
  };
  api_host = "https://panel.example";
}

abbrev controller : Controller ℕ ℕ
controller = record {
  tag = "n";
  limiter = 0;
  traffic = [];
  user_list = alice ∷ bob ∷ [];
  info = node;
  node_info_monitor_periodic = new_task (pos 30);
  user_report_periodic = new_task (pos 90);
  renew_cert_periodic = none;
  dynamic_speed_limit_periodic = none;
  options = options;
}

abbrev world : World ℕ ℕ ℕ ℕ ℤ String
world = record {
  controller = controller;
  registry = record { limiters = ("n", 0) ∷ []; heap = (0, two_users) ∷ []; next = 1 };
  server = 0;
  api_client = 0;
}

env-Accepts : Accepts env
env-Accepts = record { deletes = λ users tag info s. refl; adds = λ tag users info s. refl }

abbrev fresh : Dict ℤ ℤ
fresh = (pos 2, pos 1) ∷ []

-- The first user has gone and a third has come.
node_info_monitor_users_example :
    (s : ℕ) × (node_info_monitor env world ≡ (
      returned none,
      with_users (bob ∷ carol ∷ []) (
          followed true
            (alice ∷ [])
            (carol ∷ [])
            (alive_limiter (some fresh) two_users)
            (with_server (alive_world (some fresh) two_users (record world { api_client = 3 })) s)),
    ))
unfolding deref lookup compare_user_list insert key itoa delete
node_info_monitor_users_example =
    node_info_monitor_users env env-Accepts bob (carol ∷ []) (alice ∷ []) (carol ∷ []) (some fresh)
      1 2 3 two_users world refl refl refl refl refl
