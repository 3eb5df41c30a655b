-- ===== src/Branch/Controller.antt =====
-- branch/controller.go and task.go: the state of a controller and what it works on.
-- `N` and `X` are the parameters of nodes and options that only the cores read, `S` the state of the
-- core, `P` that of the panel's client, `B` and `R` the buckets and compiled expressions of the limiter.
pub mod Client
pub mod Monitor
pub mod Report
pub mod Lifecycle
use v2b_x_liusu.Prelude.{ℕ, String, Bool, Option, List}
use Prim.Native.String.{◌++◌ as str_append}
use v2b_x_liusu.Prelude.Int.{ℤ}
use v2b_x_liusu.Dict.{Dict}
use v2b_x_liusu.Text.Decimal.{itoa}
use v2b_x_liusu.Panel.Types.{UserInfo, UserTraffic, NodeInfo}
use v2b_x_liusu.Config.{Options}
use v2b_x_liusu.Limiter.Registry.{Registry}
use v2b_x_liusu.Task.{Task}
use v2b_x_liusu.Selector.{Outcome}
use v2b_x_liusu.Branch.Cert.{CertTools}

-- The core as the controller sees it: AddNode also writes the options.
pub record Server (X N S : Type 0) : Type 0 where
  pub add_node : String → NodeInfo N → Options X → S → S × Options X × Outcome
  pub del_node : String → S → S × Option String
  pub add_users : String → List UserInfo → NodeInfo N → S → S × ℤ × Option String
  pub get_user_traffic_slice : String → Bool → S → S × List UserTraffic × Option String
  pub del_users : List UserInfo → String → NodeInfo N → S → S × Option String

-- How a request of the panel ends: with an error, a value, or a panic.
pub data Reply (A : Type 0) : Type 0 where
  failed : String → Reply A
  ok : A → Reply A
  crashed : Reply A

-- The requests of the panel's client, whose state they change: it keeps the hash of a body, and
-- ETags. `none` is nil, for a node or a list that did not change.
pub record Panel (P N : Type 0) : Type 0 where
  pub get_node_info : P → P × Reply (Option (NodeInfo N))
  pub get_user_list : P → P × Reply (Option (List UserInfo))
  pub get_user_alive : P → P × Reply (Option (Dict ℤ ℤ))

-- What the controller calls and does not implement.
pub record Env (X N P S R : Type 0) : Type 0 where
  pub server : Server X N S
  pub panel : Panel P N
  pub compile : String → Option R
  pub cert_tools : CertTools
  pub api_host : String

-- A controller that has started. `limiter` is a pointer into the table's heap.
pub record Controller (X N : Type 0) : Type 0 where
  pub tag : String
  pub limiter : ℕ
  pub traffic : Dict String ℤ
  pub user_list : List UserInfo
  pub info : NodeInfo N
  pub node_info_monitor_periodic : Task
  pub user_report_periodic : Task
  pub renew_cert_periodic : Option Task
  pub dynamic_speed_limit_periodic : Option Task
  pub options : Options X

-- The controller, the table of limiters, the core, and the client of the panel.
pub record World (X N P S B R : Type 0) : Type 0 where
  pub controller : Controller X N
  pub registry : Registry B R
  pub server : S
  pub api_client : P

-- fmt.Sprintf("[%s]-%s:%d", APIHost, node.Type, node.Id)
unfoldable pub build_node_tag : {N : Type 0} → String → NodeInfo N → String
build_node_tag api_host node =
    str_append "["
      (str_append api_host (str_append "]-" (str_append node.type (str_append ":" (itoa node.id)))))
