-- ===== src/Branch/Controller/Lifecycle.antt =====
-- branch/controller.go and node.go: Start and Close of a controller and of all controllers, and
-- branch/task.go: startTasks and SpeedChecker.
use v2b_x_liusu.Prelude.{
  ℕ, String, Bool, true, false, not, ◌&&◌, List, [], ◌∷◌, Option, none, some, if◌then◌else◌,
}
use Prim.Native.String.{◌++◌ as str_append}
use v2b_x_liusu.Prelude.Int.{ℤ, pos, leb_ℤ, mul64}
use v2b_x_liusu.Prelude.Eq.{◌==◌, int_eq, string_eq, nat_eq}
use v2b_x_liusu.Dict.{Dict, delete}
use v2b_x_liusu.Time.{seconds, minutes, time_add}
use v2b_x_liusu.Panel.Types.{UserInfo, NodeInfo, tls}
use v2b_x_liusu.Config.{Options, DynamicSpeedLimitConfig}
use v2b_x_liusu.Limiter.{Limiter}
use v2b_x_liusu.Limiter.Rules.{update_rule}
use v2b_x_liusu.Limiter.Users.{update_dynamic_speed_limit}
use v2b_x_liusu.Limiter.Registry.{Registry, deref, write, add_limiter, delete_limiter}
use v2b_x_liusu.Task
use v2b_x_liusu.Task.{Task, new_task}
use v2b_x_liusu.Selector.{Outcome}
use v2b_x_liusu.Branch.Cert.{request_cert}
use v2b_x_liusu.Branch.Flow.{Step, next, returned, panicked, ◌>>=◌, ◌>>◌, pure, return, panic}
use v2b_x_liusu.Branch.Controller.{Env, Controller, World, Reply, build_node_tag}
use v2b_x_liusu.Branch.Controller.Monitor.{get_or_nil}

-- What Start works on: a controller has its options and is otherwise empty.
pub record Before (X P S B R : Type 0) : Type 0 where
  pub options : Options X
  pub registry : Registry B R
  pub server : S
  pub api_client : P

-- if err != nil { return fmt.Errorf(prefix + "%s", err) }
abbrev pub demand : {W A : Type 0} → String → Reply A → Step W A
demand prefix (Reply.failed e) = return (some (str_append prefix e))
demand prefix (Reply.ok a) = pure a
demand prefix Reply.crashed = panic

-- A request of the panel's client, and `demand` of its reply.
abbrev pub ask_first :
    {X P S B R A : Type 0} → String → (P → P × Reply A) → Step (Before X P S B R) A
ask_first prefix request b =
    let (p, reply) = request b.api_client in demand prefix reply (record b { api_client = p })

-- An empty or missing list ends the start.
abbrev pub some_users : {W : Type 0} → Option (List UserInfo) → Step W (List UserInfo)
some_users none = return (some "add users error: not have any user")
some_users (some []) = return (some "add users error: not have any user")
some_users (some (u ∷ us)) = pure (u ∷ us)

-- The node is dereferenced; nil panics.
abbrev pub some_node : {W N : Type 0} → Option (NodeInfo N) → Step W (NodeInfo N)
some_node none w = (panicked, w)
some_node (some n) w = (next n, w)

-- Whether the mode gets a task that renews the certificate.
unfoldable pub renews : String → Bool
renews mode =
    not (mode == "none") && not (mode == "") && not (mode == "file") && not (mode == "self")

-- startTasks(node); the dynamic speed limit's task is made and not started.
unfoldable pub start_tasks : {X N : Type 0} → NodeInfo N → Controller X N → Controller X N
unfolding renews
start_tasks n c = record c {
  node_info_monitor_periodic = Task.start false (new_task n.pull_interval);
  user_report_periodic = Task.start false (new_task n.push_interval);
  renew_cert_periodic =
      if n.security == tls
      then (if renews c.options.cert_config.cert_mode
          then some (Task.start true (new_task (mul64 (pos 86400) (seconds (pos 1)))))
          else c.renew_cert_periodic)
      else c.renew_cert_periodic;
  traffic = if c.options.limit_config.enable_dynamic_speed_limit then [] else c.traffic;
  dynamic_speed_limit_periodic =
      if c.options.limit_config.enable_dynamic_speed_limit
      then some (new_task (seconds c.options.limit_config.dynamic_speed_limit_config.periodic))
      else c.dynamic_speed_limit_periodic;
}

-- c.tag: the name of the options, or a tag made of the node.
unfoldable pub node_tag : {X N : Type 0} → String → Options X → NodeInfo N → String
node_tag api_host options n = if options.name == "" then build_node_tag api_host n else options.name

-- c.X.Close() for a task that may be nil
unfoldable pub close_task : Option Task → Option Task
close_task none = none
close_task (some t) = some (Task.close t)

module _ {B R : Type 0} where
  -- The loop of SpeedChecker over the traffic of the users. An unknown user's error is logged.
  unfoldable pub check_speeds :
      String
      → DynamicSpeedLimitConfig
      → ℤ
      → Dict String ℤ
      → Dict String ℤ
      → Limiter B R
      → Limiter B R × Dict String ℤ
  check_speeds tag config now [] left l = (l, left)
  check_speeds tag config now ((u, t) ∷ ts) left l =
      let expire = time_add now (minutes config.expire_time) in
      let l' : Limiter B R = elim (update_dynamic_speed_limit tag u config.speed_limit expire l) [
        | none ↦ l
        | some updated ↦ updated
      ] in
      let skipped = check_speeds tag config now ts left l in
      let limited = check_speeds tag config now ts (delete u left) l' in
      if leb_ℤ config.traffic t then limited else skipped

-- SpeedChecker() at the time `now`, on the traffic and the limiter of a controller
unfoldable pub speed_checker : {X N P S B R : Type 0} → ℤ → Step (World X N P S B R) (Unit {0})
unfolding check_speeds
speed_checker now w =
    let c = w.controller in
    elim (deref c.limiter w.registry) [
      | none ↦ (panicked, w)
      | some l ↦
          (let (l', left) =
              check_speeds c.tag c.options.limit_config.dynamic_speed_limit_config now c.traffic
                c.traffic l in
            (
              returned none,
              record w {
                controller = record c { traffic = left };
                registry = write c.limiter l' w.registry;
              },
            ))
    ]

module _ {X N P S B R : Type 0} (env : Env X N P S R) where
  -- limiter.AddLimiter, and UpdateRule on the new limiter, which panics on a text that is not a
  -- regular expression.
  unfoldable pub make_limiter :
      String → NodeInfo N → List UserInfo → Option (Dict ℤ ℤ) → Step (Before X P S B R) ℕ
  make_limiter tag n users alive b =
      let (r, p) =
        add_limiter tag b.options.limit_config.speed_limit users (get_or_nil alive) b.registry in
      elim (deref p r) [
        | none ↦ (panicked, record b { registry = r })
        | some l ↦ elim (update_rule env.compile n.rules l) [
          | none ↦ (panicked, record b { registry = r })
          | some l' ↦ (next p, record b { registry = write p l' r })
        ]
      ]

  -- c.requestCert() for a TLS node.
  unfoldable pub start_cert : NodeInfo N → Step (Before X P S B R) (Unit {0})
  start_cert n b =
      if n.security == tls
      then (elim (request_cert env.cert_tools b.options.cert_config) [
        | none ↦ (next tt, b)
        | some e ↦ (returned (some (str_append "request cert error: " e)), b)
      ])
      else (next tt, b)

  -- c.server.AddNode(c.tag, node, c.Options)
  unfoldable pub start_node : String → NodeInfo N → Step (Before X P S B R) (Unit {0})
  start_node tag n b =
      let (s, options, out) = env.server.add_node tag n b.options b.server in
      let b' : Before X P S B R = record b { options = options; server = s } in
      elim out [
        | Outcome.done ↦ (next tt, b')
        | Outcome.failed e ↦ (returned (some (str_append "add new node error: " e)), b')
        | Outcome.panicked ↦ (panicked, b')
      ]

  -- c.server.AddUsers for all users
  unfoldable pub start_users :
      String → NodeInfo N → List UserInfo → Step (Before X P S B R) (Unit {0})
  start_users tag n users b =
      let (s, added, err) = env.server.add_users tag users n b.server in
      elim err [
        | none ↦ (next tt, record b { server = s })
        | some e ↦ (returned (some (str_append "add users error: " e)), record b { server = s })
      ]

  -- The controller at the end of Start.
  unfoldable pub started :
      String → ℕ → NodeInfo N → List UserInfo → Step (Before X P S B R) (Controller X N)
  unfolding start_tasks
  started tag limiter n users b = (
    next (
        start_tasks n (record {
          tag = tag;
          limiter = limiter;
          traffic = [];
          user_list = users;
          info = n;
          node_info_monitor_periodic = new_task n.pull_interval;
          user_report_periodic = new_task n.push_interval;
          renew_cert_periodic = none;
          dynamic_speed_limit_periodic = none;
          options = b.options;
        })),
    b,
  )

  -- Start()
  unfoldable pub start : Step (Before X P S B R) (Controller X N)
  start = do
    node ← ask_first "get node info error: " env.panel.get_node_info
    listed ← ask_first "get user list error: " env.panel.get_user_list
    users ← some_users listed
    alive ← ask_first "failed to get user alive list: " env.panel.get_user_alive
    b_node ← some_node node
    options ← (λ b. (next b.options, b))
    p ← make_limiter (node_tag env.api_host options b_node) b_node users alive
    start_cert b_node
    start_node (node_tag env.api_host options b_node) b_node
    start_users (node_tag env.api_host options b_node) b_node users
    started (node_tag env.api_host options b_node) p b_node users

  -- Close()
  unfoldable pub close : World X N P S B R → Option String × World X N P S B R
  unfolding close_task
  close w =
      let c = w.controller in
      let (s, err) = env.server.del_node c.tag w.server in
      (
        elim err [ none ↦ none | some e ↦ some (str_append "del node error: " e) ],
        record {
          controller = record c {
            node_info_monitor_periodic = Task.close c.node_info_monitor_periodic;
            user_report_periodic = Task.close c.user_report_periodic;
            renew_cert_periodic = close_task c.renew_cert_periodic;
            dynamic_speed_limit_periodic = close_task c.dynamic_speed_limit_periodic;
          };
          registry = delete_limiter c.tag w.registry;
          server = s;
          api_client = w.api_client;
        },
      )
