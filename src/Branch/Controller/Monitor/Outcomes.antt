-- ===== src/Branch/Controller/Monitor/Outcomes.antt =====
-- branch/task.go, nodeInfoMonitor: what a round leaves behind.
use v2b_x_liusu.Prelude.{◌≡◌, refl, ap, ◌∙◌, List, [], ◌∷◌, Option, none, some, ◌||◌}
use v2b_x_liusu.Prelude.Int.{ℤ}
use v2b_x_liusu.Prelude.Eq.{int_eq, string_eq, nat_eq}
use v2b_x_liusu.Panel.Types.{UserInfo, NodeInfo}
use v2b_x_liusu.Dict.{Dict}
use v2b_x_liusu.Limiter.{Limiter}
use v2b_x_liusu.Limiter.Registry.{deref}
use v2b_x_liusu.Branch.Compare.{compare_user_list}
use v2b_x_liusu.Branch.Flow.{bind_next, next, returned, ◌>>◌}
use v2b_x_liusu.Branch.Controller.{Env, World, Reply}
use v2b_x_liusu.Branch.Controller.Monitor.{ask, need, set_alive, add_server_users}
use v2b_x_liusu.Branch.Controller.Monitor.Round.{
  node_info_monitor, check_users, apply_changes, compare, compared, del_server_users, follow_users,
  has_any,
}
use v2b_x_liusu.Branch.Controller.Monitor.Steps.{
  with_server, with_users, settled_lem, alive_limiter, followed, alive_world, set_alive_lem,
  alive_deref, compare_at, follow_users_lem, Accepts,
}

module _ {X N P S B R : Type 0} (env : Env X N P S R) (ok : Accepts env) where
  del_server_users_lem :
      (users : List UserInfo) (w : World X N P S B R)
      → (s : S) × (del_server_users env users w ≡ (next tt, with_server w s))
  unfolding del_server_users
  del_server_users_lem users w =
      let c = w.controller in
      (
        _,
        settled_lem (env.server.del_users users c.tag c.info w.server).1
            (with_server w (env.server.del_users users c.tag c.info w.server).0)
            (ok.deletes users c.tag c.info w.server),
      )

  add_server_users_lem :
      (users : List UserInfo) (n : NodeInfo N) (w : World X N P S B R)
      → (s : S) × (add_server_users env users n w ≡ (next tt, with_server w s))
  unfolding add_server_users
  add_server_users_lem users n w =
      let c = w.controller in
      (
        _,
        settled_lem (env.server.add_users c.tag users n w.server).2
            (with_server w (env.server.add_users c.tag users n w.server).0)
            (ok.adds c.tag users n w.server),
      )

  apply_changes_lem :
      (deleted added : List UserInfo) (l : Limiter B R) (w : World X N P S B R)
      → deref w.controller.limiter w.registry ≡ some l
      → (s : S) × (apply_changes env deleted added w ≡ (
        next tt,
        followed (has_any added || has_any deleted) deleted added l (with_server w s),
      ))
  unfolding apply_changes
  apply_changes_lem [] [] l w h = (w.server, refl)
  apply_changes_lem [] (a ∷ more) l w h =
      let (s, added) = add_server_users_lem (a ∷ more) w.controller.info w in
      (
        s,
        bind_next (add_server_users env (a ∷ more) w.controller.info)
              (λ _. follow_users env [] (a ∷ more)) w (with_server w s) tt added
            ∙ follow_users_lem env [] (a ∷ more) l (with_server w s) h,
      )
  apply_changes_lem (d ∷ ds) [] l w h =
      let (s, deleted) = del_server_users_lem (d ∷ ds) w in
      (
        s,
        bind_next (del_server_users env (d ∷ ds)) (λ _. follow_users env (d ∷ ds) []) w
              (with_server w s) tt deleted
            ∙ follow_users_lem env (d ∷ ds) [] l (with_server w s) h,
      )
  apply_changes_lem (d ∷ ds) (a ∷ more) l w h =
      let (s, deleted) = del_server_users_lem (d ∷ ds) w in
      let (s', added) = add_server_users_lem (a ∷ more) w.controller.info (with_server w s) in
      (
        s',
        bind_next (del_server_users env (d ∷ ds))
              (λ _ w'.
                (add_server_users env (a ∷ more) w'.controller.info
                    >> follow_users env (d ∷ ds) (a ∷ more))
                  w')
              w (with_server w s) tt deleted
            ∙ (bind_next (add_server_users env (a ∷ more) w.controller.info)
                  (λ _. follow_users env (d ∷ ds) (a ∷ more)) (with_server w s) (with_server w s')
                  tt added
                ∙ follow_users_lem env (d ∷ ds) (a ∷ more) l (with_server w s') h),
      )

  -- A round in which the node has not changed, the panel lists users and the core takes every
  -- request, of a controller whose limiter is there: it ends with nil; the listed users become the
  -- controller's; the limiter gets the alive list, where there is one, and then follows exactly the
  -- users that compare_user_list gives, and beyond the alive list stays as it is where there are
  -- none.
  pub node_info_monitor_users :
      (u : UserInfo) (us deleted added : List UserInfo) (alive : Option (Dict ℤ ℤ)) (p1 p2 p3 : P)
      (l : Limiter B R) (w : World X N P S B R)
      → deref w.controller.limiter w.registry ≡ some l
      → compare_user_list w.controller.user_list (u ∷ us) ≡ some (deleted, added)
      → env.panel.get_node_info w.api_client ≡ (p1, Reply.ok none)
      → env.panel.get_user_list p1 ≡ (p2, Reply.ok (some (u ∷ us)))
      → env.panel.get_user_alive p2 ≡ (p3, Reply.ok alive)
      → (s : S) × (node_info_monitor env w ≡ (
        returned none,
        with_users (u ∷ us) (
            followed
              (has_any added || has_any deleted)
              deleted
              added
              (alive_limiter alive l)
              (with_server (alive_world alive l (record w { api_client = p3 })) s)),
      ))
  unfolding node_info_monitor check_users compare
  node_info_monitor_users u us deleted added alive p1 p2 p3 l w h changes node users alives =
      let w0 : World X N P S B R = record w { api_client = p3 } in
      let w' = alive_world alive l w0 in
      let (s, applied) =
        apply_changes_lem deleted added (alive_limiter alive l) w' (alive_deref alive l w0 h) in
      (
        s,
        bind_next (ask env.panel.get_node_info) _ w (record w { api_client = p1 }) none
              (ap (λ r. need r.1 (record w { api_client = r.0 })) node)
            ∙ bind_next (ask env.panel.get_user_list) _ _ (record w { api_client = p2 })
                (some (u ∷ us)) (ap (λ r. need r.1 (record w { api_client = r.0 })) users)
            ∙ bind_next (ask env.panel.get_user_alive) _ _ w0 alive
                (ap (λ r. need r.1 (record w { api_client = r.0 })) alives)
            ∙ bind_next (set_alive alive) _ w0 w' tt (set_alive_lem alive l w0 h)
            ∙ bind_next (compare env (u ∷ us)) _ w' w' (deleted, added)
                (ap (λ o. compared o w')
                  (compare_at alive l w0 (u ∷ us) (some (deleted, added)) changes))
            ∙ bind_next (apply_changes env deleted added) _ w' _ tt applied,
      )
