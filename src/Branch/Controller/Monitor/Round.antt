-- ===== src/Branch/Controller/Monitor/Round.antt =====
-- branch/task.go, nodeInfoMonitor: the branch where the node has not changed, and the whole round.
use v2b_x_liusu.Prelude.{String, Bool, true, false, ◌||◌, List, [], ◌∷◌, Option, none, some}
use v2b_x_liusu.Prelude.Int.{ℤ}
use v2b_x_liusu.Prelude.Eq.{int_eq, string_eq, nat_eq}
use v2b_x_liusu.Dict.{Dict, delete}
use v2b_x_liusu.Panel.Types.{UserInfo}
use v2b_x_liusu.Limiter.Users.{update_user}
use v2b_x_liusu.Branch.Compare.{compare_user_list}
use v2b_x_liusu.Branch.Flow.{Step, next, returned, panicked, ◌>>=◌, ◌>>◌, return, when}
use v2b_x_liusu.Branch.Controller.{Env, World}
use v2b_x_liusu.Branch.Controller.Monitor.{
  get_controller, set_controller, ask, on_limiter, set_alive, add_server_users, reload,
}

-- len(users) > 0
abbrev pub has_any : List UserInfo → Bool
has_any [] = false
has_any (u ∷ us) = true

-- for i := range deleted { delete(c.traffic, deleted[i].Uuid) }
unfoldable pub clear_traffic : List UserInfo → Dict String ℤ → Dict String ℤ
clear_traffic [] m = m
clear_traffic (u ∷ us) m = clear_traffic us (delete u.uuid m)

abbrev pub listed : Option (List UserInfo) → List UserInfo
listed none = []
listed (some us) = us

abbrev pub compared : {W A : Type 0} → Option A → Step W A
compared none w = (panicked, w)
compared (some changes) w = (next changes, w)

module _ {X N P S B R : Type 0} (env : Env X N P S R) where
  -- c.server.DelUsers(deleted, c.tag, c.info); a failure ends the round.
  unfoldable pub del_server_users : List UserInfo → Step (World X N P S B R) (Unit {0})
  del_server_users users w =
      let c = w.controller in
      let (s, err) = env.server.del_users users c.tag c.info w.server in
      elim err [
        | none ↦ (next tt, record w { server = s })
        | some e ↦ (returned none, record w { server = s })
      ]

  -- UpdateUser of the limiter, and the traffic records of the deleted users.
  unfoldable pub follow_users : List UserInfo → List UserInfo → Step (World X N P S B R) (Unit {0})
  follow_users deleted added = do
    c ← get_controller
    on_limiter (λ l. some (update_user c.tag added deleted l))
    when c.options.limit_config.enable_dynamic_speed_limit
        (set_controller (λ c'. record c' { traffic = clear_traffic deleted c'.traffic }))

  -- The calls for the users that have gone and come.
  unfoldable pub apply_changes : List UserInfo → List UserInfo → Step (World X N P S B R) (Unit {0})
  apply_changes deleted added = do
    when (has_any deleted) (del_server_users deleted)
    c ← get_controller
    when (has_any added) (add_server_users env added c.info)
    when (has_any added || has_any deleted) (follow_users deleted added)

  -- compareUserList(c.userList, newU); an index out of range would panic.
  unfoldable pub compare : List UserInfo → Step (World X N P S B R) (List UserInfo × List UserInfo)
  compare users w = compared (compare_user_list w.controller.user_list users) w

  -- The rest of the round where the node has not changed, for the users of the panel.
  unfoldable pub check_users : List UserInfo → Step (World X N P S B R) (Unit {0})
  check_users [] = return none
  check_users (u ∷ us) = do
    changes ← compare (u ∷ us)
    apply_changes changes.0 changes.1
    set_controller (λ c. record c { user_list = u ∷ us })
    return none

  -- nodeInfoMonitor()
  unfoldable pub node_info_monitor : Step (World X N P S B R) (Unit {0})
  node_info_monitor = do
    n ← ask env.panel.get_node_info
    users ← ask env.panel.get_user_list
    alive ← ask env.panel.get_user_alive
    elim n [
      | some node ↦ reload env node users alive
      | none ↦ (do set_alive alive; check_users (listed users))
    ]
