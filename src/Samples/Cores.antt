-- ===== src/Samples/Cores.antt =====
-- field/selector.go: a selector of two cores. A core counts the calls that reach it.
use v2b_x_liusu.Prelude.{
  ◌≡◌, refl, ℕ, suc, String, false, Option, none, some, [], ◌∷◌, if◌then◌else◌,
}
use v2b_x_liusu.Prelude.Int.{pos}
use v2b_x_liusu.Prelude.Eq.{◌==◌, string_eq, nat_eq}
use v2b_x_liusu.Dict.{lookup, insert}
use v2b_x_liusu.Panel.Types.{NodeInfo}
use v2b_x_liusu.Selector.Build.{Made, made}
use v2b_x_liusu.Selector.Build.Wired.{IsWired, new_selector-IsWired}
use v2b_x_liusu.Config.{CoreConfig, Options, Json}
use v2b_x_liusu.Selector.{
  Core, Selector, Outcome, add_node, add_to_first, is_compatible, attempt, prepare_core_options,
}
use v2b_x_liusu.Selector.AddNode.{add_node-Placement, Placement, Eligible}

-- A core that refuses every node, and one that takes every node.
abbrev core : String → Option String → Core ℕ ℕ ℕ
core type refusal = record {
  type = type;
  protocols = "vless" ∷ [];
  start = λ s. (suc s, none);
  close = λ s. (suc s, none);
  add_node = λ tag info option s. (suc s, refusal);
  del_node = λ tag s. (suc s, none);
  add_users = λ tag users info s. (suc s, pos 1, none);
  get_user_traffic_slice = λ tag reset s. (suc s, [], none);
  del_users = λ users tag info s. (suc s, none);
}

abbrev cores : ℕ → Core ℕ ℕ ℕ
cores p = if p == 0 then core "xray" (some "no") else core "sing" none

abbrev json : Json ℕ
json = record {
  decode = λ raw o. (o, none);
  decode_xray = λ raw x. (x, none);
  decode_sing = λ raw x. (x, none);
  with_core = λ raw type. some raw;
}

abbrev pub node : NodeInfo ℕ
node = record {
  id = pos 7;
  type = "vless";
  security = pos 0;
  push_interval = pos 60;
  pull_interval = pos 30;
  raw_dns = record { dns_map = []; dns_json = "" };
  rules = record { regexp = []; protocol = [] };
  origin = 0;
}

abbrev pub options : Options ℕ
options = record {
  name = "n";
  core = "";
  core_name = "";
  device_online_min_traffic = pos 0;
  limit_config = record {
    speed_limit = pos 0;
    enable_dynamic_speed_limit = false;
    dynamic_speed_limit_config = record {
      periodic = pos 0;
      traffic = pos 0;
      speed_limit = pos 0;
      expire_time = pos 0;
    };
  };
  raw_options = none;
  cert_config = record {
    cert_mode = "none";
    cert_file = "";
    key_file = "";
    reject_unknown_sni = false;
  };
  rest = 0;
}

abbrev selector : Selector ℕ
selector = record {
  cores = ("first", 0) ∷ ("second", 1) ∷ [];
  order = "first" ∷ "second" ∷ [];
  nodes = ("old", 1) ∷ [];
  states = λ p. 0;
}

-- The second core takes the node that the first refuses.
add_node-Placement_example :
    let (sel', option', out) = add_node json cores "n" node selector options in
    Placement json cores "n" node
      (Eligible json cores "n" node options selector)
      selector
      sel'
      option'
      out
add_node-Placement_example = add_node-Placement json cores "n" node selector options

second_core : (add_node json cores "n" node selector options).2 ≡ Outcome.done
unfolding add_node add_to_first lookup is_compatible attempt prepare_core_options
second_core = refl

abbrev made_cores : String → Option (CoreConfig → Made ℕ)
made_cores type = if type == "sing" then some (λ c. made 5) else none

abbrev one_core : Selector ℕ
one_core = record {
  cores = ("sing", 0) ∷ [];
  order = "sing" ∷ [];
  nodes = [];
  states = λ q. if q == 0 then 5 else 0;
}

new_selector-IsWired_example : IsWired one_core
unfolding v2b_x_liusu.Selector.Build.new_selector insert
new_selector-IsWired_example =
    new_selector-IsWired (λ s. s) made_cores (λ p. 0) (record { type = "sing"; name = "" } ∷ [])
      one_core refl
