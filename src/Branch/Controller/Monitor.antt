-- ===== src/Branch/Controller/Monitor.antt =====
-- branch/task.go, nodeInfoMonitor: one round of following the panel. Each log call at level Panic
-- panics; a failure that is logged as an error returns nil.
pub mod Round
pub mod Steps
pub mod Outcomes
pub mod Kept
pub mod Lost
pub mod Intervals
use v2b_x_liusu.Prelude.{
  ℕ, String, Bool, true, false, not, ◌&&◌, ◌||◌, List, [], ◌∷◌, Option, none, some, if◌then◌else◌,
}
use v2b_x_liusu.Prelude.Int.{ℤ, pos}
use v2b_x_liusu.Prelude.Eq.{◌==◌, int_eq, string_eq, nat_eq}
use v2b_x_liusu.Dict.{Dict, delete}
use v2b_x_liusu.Panel.Types.{UserInfo, NodeInfo, tls}
use v2b_x_liusu.Limiter.{Limiter}
use v2b_x_liusu.Limiter.Rules.{update_rule}
use v2b_x_liusu.Limiter.Users.{update_user}
use v2b_x_liusu.Limiter.Registry.{Registry, deref, write, add_limiter, delete_limiter}
use v2b_x_liusu.Task
use v2b_x_liusu.Task.{Task}
use v2b_x_liusu.Selector.{Outcome}
use v2b_x_liusu.Branch.Compare.{compare_user_list}
use v2b_x_liusu.Branch.Cert.{request_cert}
use v2b_x_liusu.Branch.Flow.{
  Flow, Step, next, returned, panicked, ◌>>=◌, ◌>>◌, pure, return, panic, modify, when,
}
use v2b_x_liusu.Branch.Controller.{Env, Controller, World, Reply, build_node_tag}

abbrev pub get_or_nil : {K V : Type 0} → Option (Dict K V) → Dict K V
get_or_nil none = []
get_or_nil (some m) = m

-- Interval, Close and Start(false) of a task whose interval changes.
unfoldable pub restart : ℤ → Task → Task
restart interval t = Task.start false (Task.close (record t { interval = interval }))

abbrev pub get_controller : {X N P S B R : Type 0} → Step (World X N P S B R) (Controller X N)
get_controller w = (next w.controller, w)

abbrev pub set_controller :
    {X N P S B R : Type 0} → (Controller X N → Controller X N) → Step (World X N P S B R) (Unit {0})
set_controller f = modify (λ w. record w { controller = f w.controller })

-- An error of the panel is logged and ends the round.
abbrev pub need : {X N P S B R A : Type 0} → Reply A → Step (World X N P S B R) A
need (Reply.failed e) = return none
need (Reply.ok a) = pure a
need Reply.crashed = panic

-- A request of the panel's client, and `need` of its reply.
abbrev pub ask : {X N P S B R A : Type 0} → (P → P × Reply A) → Step (World X N P S B R) A
ask request w = let (p, reply) = request w.api_client in need reply (record w { api_client = p })

-- A write through `c.limiter`, where the pointed-at limiter and what becomes of it are known; a nil
-- pointer panics.
abbrev pub store_limiter :
    {X N P S B R : Type 0} → Option (Limiter B R) → Step (World X N P S B R) (Unit {0})
store_limiter none w = (panicked, w)
store_limiter (some l) w =
    (next tt, record w { registry = write w.controller.limiter l w.registry })

abbrev pub through :
    {X N P S B R : Type 0}
    → (Limiter B R → Option (Limiter B R))
    → Option (Limiter B R)
    → Step (World X N P S B R) (Unit {0})
through f none w = (panicked, w)
through f (some l) w = store_limiter (f l) w

unfoldable pub on_limiter :
    {X N P S B R : Type 0}
    → (Limiter B R → Option (Limiter B R))
    → Step (World X N P S B R) (Unit {0})
on_limiter f w = through f (deref w.controller.limiter w.registry) w

-- if newA != nil { c.limiter.AliveList = newA }
unfoldable pub set_alive :
    {X N P S B R : Type 0} → Option (Dict ℤ ℤ) → Step (World X N P S B R) (Unit {0})
unfolding on_limiter
set_alive none = pure tt
set_alive (some alive) = on_limiter (λ l. some (record l { alive_list = alive }))

-- The checks of the two intervals. The second sets the interval of the report to the pull
-- interval, as the source does.
unfoldable pub check_intervals : {X N : Type 0} → NodeInfo N → Controller X N → Controller X N
unfolding restart
check_intervals n c = record c {
  node_info_monitor_periodic =
      if not (c.node_info_monitor_periodic.interval == n.pull_interval)
        && not (n.pull_interval == pos 0)
      then restart n.pull_interval c.node_info_monitor_periodic
      else c.node_info_monitor_periodic;
  user_report_periodic =
      if not (c.user_report_periodic.interval == n.push_interval) && not (n.push_interval == pos 0)
      then restart n.pull_interval c.user_report_periodic
      else c.user_report_periodic;
}

-- The first writes of the branch `newN != nil`.
unfoldable pub take_node :
    {X N : Type 0} → NodeInfo N → Option (List UserInfo) → Controller X N → Controller X N
take_node n users c = record c {
  info = n;
  user_list = elim users [ none ↦ c.user_list | some us ↦ us ];
  traffic = [];
}

module _ {X N P S B R : Type 0} (env : Env X N P S R) where
  -- c.server.DelNode(c.tag); a failure panics.
  unfoldable pub del_old_node : Step (World X N P S B R) (Unit {0})
  del_old_node w =
      let (s, err) = env.server.del_node w.controller.tag w.server in
      elim err [
        | none ↦ (next tt, record w { server = s })
        | some e ↦ (panicked, record w { server = s })
      ]

  -- Where the node has no name of its own: the tag, and a new limiter under it.
  unfoldable pub renew_limiter :
      NodeInfo N → Option (Dict ℤ ℤ) → Step (World X N P S B R) (Unit {0})
  renew_limiter n alive w =
      let c = w.controller in
      if c.options.name == ""
      then (let tag = build_node_tag env.api_host n in
          let (registry, l) =
            add_limiter tag c.options.limit_config.speed_limit c.user_list (get_or_nil alive)
              (delete_limiter tag w.registry) in
          (
            next tt,
            record w { controller = record c { tag = tag; limiter = l }; registry = registry },
          ))
      else (next tt, w)

  -- c.requestCert() for a TLS node; a failure ends the round.
  unfoldable pub check_cert : NodeInfo N → Step (World X N P S B R) (Unit {0})
  check_cert n w =
      if n.security == tls
      then (elim (request_cert env.cert_tools w.controller.options.cert_config) [
        | none ↦ (next tt, w)
        | some e ↦ (returned none, w)
      ])
      else (next tt, w)

  -- c.server.AddNode(c.tag, newN, c.Options); a failure panics.
  unfoldable pub add_new_node : NodeInfo N → Step (World X N P S B R) (Unit {0})
  add_new_node n w =
      let c = w.controller in
      let (s, options, out) = env.server.add_node c.tag n c.options w.server in
      let w' : World X N P S B R = record w {
        controller = record c { options = options };
        server = s;
      } in
      elim out [ Outcome.done ↦ (next tt, w') | _ ↦ (panicked, w') ]

  -- c.server.AddUsers for the users given; a failure ends the round.
  unfoldable pub add_server_users : List UserInfo → NodeInfo N → Step (World X N P S B R) (Unit {0})
  add_server_users users n w =
      let (s, added, err) = env.server.add_users w.controller.tag users n w.server in
      elim err [
        | none ↦ (next tt, record w { server = s })
        | some e ↦ (returned none, record w { server = s })
      ]

  -- The branch `newN != nil`.
  unfoldable pub reload :
      NodeInfo N → Option (List UserInfo) → Option (Dict ℤ ℤ) → Step (World X N P S B R) (Unit {0})
  reload n users alive = do
    set_controller (take_node n users)
    del_old_node
    renew_limiter n alive
    set_alive alive
    on_limiter (update_rule env.compile n.rules)
    check_cert n
    add_new_node n
    c ← get_controller
    add_server_users c.user_list n
    set_controller (check_intervals n)
    return none
