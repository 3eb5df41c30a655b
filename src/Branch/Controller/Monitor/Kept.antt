-- ===== src/Branch/Controller/Monitor/Kept.antt =====
-- branch/task.go, nodeInfoMonitor: the steps of a round that leave the controller's node as it is.
use v2b_x_liusu.Prelude.{
  ◌≡◌, refl, ap, ◌∙◌, Bool, true, false, List, [], ◌∷◌, Option, none, some, arith, ◌||◌,
}
use v2b_x_liusu.Prelude.Int.{ℤ}
use v2b_x_liusu.Prelude.Eq.{nat_eq, string_eq}
use v2b_x_liusu.Dict.{Dict}
use v2b_x_liusu.Panel.Types.{UserInfo, NodeInfo}
use v2b_x_liusu.Limiter.{Limiter}
use v2b_x_liusu.Limiter.Registry.{deref}
use v2b_x_liusu.Branch.Compare.{compare_user_list}
use v2b_x_liusu.Branch.Flow.{bind_next, Flow, Step, next, returned, panicked, continue, when, ◌>>=◌}
use v2b_x_liusu.Branch.Controller.{Env, World, Reply}
use v2b_x_liusu.Branch.Controller.Monitor.{
  on_limiter, ask, need, set_alive, through, store_limiter, add_server_users,
}
use v2b_x_liusu.Branch.Controller.Monitor.Round.{
  check_users, apply_changes, compare, compared, del_server_users, follow_users, listed, has_any,
  node_info_monitor,
}

module _ {X N P S B R : Type 0} where
  -- A step that leaves the controller's node as it is.
  abbrev pub KeepsNode : {A : Type 0} → Step (World X N P S B R) A → Type 0
  KeepsNode m = (w : World X N P S B R) → (m w).1.controller.info ≡ w.controller.info

  continue-KeepsNode :
      {A C : Type 0} (r : Flow A) (f : A → Step (World X N P S B R) C)
      → ((a : A) → KeepsNode (f a))
      → KeepsNode (continue r f)
  continue-KeepsNode (next a) f h w = h a w
  continue-KeepsNode (returned e) f h w = refl
  continue-KeepsNode panicked f h w = refl

  bind-KeepsNode :
      {A C : Type 0} (m : Step (World X N P S B R) A) (f : A → Step (World X N P S B R) C)
      → KeepsNode m
      → ((a : A) → KeepsNode (f a))
      → KeepsNode (m >>= f)
  bind-KeepsNode m f h k w = continue-KeepsNode (m w).0 f k (m w).1 ∙ h w

  when-KeepsNode :
      (b : Bool) (m : Step (World X N P S B R) (Unit {0})) → KeepsNode m → KeepsNode (when b m)
  when-KeepsNode true m h w = h w
  when-KeepsNode false m h w = refl

  need-KeepsNode : {A : Type 0} (r : Reply A) → KeepsNode {A = A} (need r)
  need-KeepsNode (Reply.failed e) w = refl
  need-KeepsNode (Reply.ok a) w = refl
  need-KeepsNode Reply.crashed w = refl

  ask-KeepsNode : {A : Type 0} (request : P → P × Reply A) → KeepsNode {A = A} (ask request)
  ask-KeepsNode request w =
      need-KeepsNode (request w.api_client).1 (record w { api_client = (request w.api_client).0 })

  store_limiter-KeepsNode : (o : Option (Limiter B R)) → KeepsNode (store_limiter o)
  store_limiter-KeepsNode none w = refl
  store_limiter-KeepsNode (some l) w = refl

  through-KeepsNode :
      (f : Limiter B R → Option (Limiter B R)) (o : Option (Limiter B R)) → KeepsNode (through f o)
  through-KeepsNode f none w = refl
  through-KeepsNode f (some l) w = store_limiter-KeepsNode (f l) w

  on_limiter-KeepsNode : (f : Limiter B R → Option (Limiter B R)) → KeepsNode (on_limiter f)
  unfolding on_limiter
  on_limiter-KeepsNode f w = through-KeepsNode f (deref w.controller.limiter w.registry) w

  set_alive-KeepsNode : (alive : Option (Dict ℤ ℤ)) → KeepsNode (set_alive alive)
  unfolding set_alive
  set_alive-KeepsNode none w = refl
  set_alive-KeepsNode (some alive) w =
      on_limiter-KeepsNode (λ l. some (record l { alive_list = alive })) w

  compared-KeepsNode : (o : Option (List UserInfo × List UserInfo)) → KeepsNode (compared o)
  compared-KeepsNode none w = refl
  compared-KeepsNode (some c) w = refl

module _ {X N P S B R : Type 0} (env : Env X N P S R) where
  del_server_users-KeepsNode :
      (users : List UserInfo) → KeepsNode {B = B} (del_server_users env users)
  unfolding del_server_users
  del_server_users-KeepsNode users w = ground arith

  add_server_users-KeepsNode :
      (users : List UserInfo) (n : NodeInfo N) → KeepsNode {B = B} (add_server_users env users n)
  unfolding add_server_users
  add_server_users-KeepsNode users n w = ground arith

  follow_users-KeepsNode :
      (deleted added : List UserInfo) → KeepsNode {B = B} (follow_users env deleted added)
  unfolding follow_users
  follow_users-KeepsNode deleted added w =
      bind-KeepsNode (on_limiter _) _ (on_limiter-KeepsNode _)
        (λ _.
          when-KeepsNode w.controller.options.limit_config.enable_dynamic_speed_limit _
            (λ w'. refl))
        w

  apply_changes-KeepsNode :
      (deleted added : List UserInfo) → KeepsNode {B = B} (apply_changes env deleted added)
  unfolding apply_changes
  apply_changes-KeepsNode deleted added =
      let last = when (has_any added || has_any deleted) (follow_users {B = B} env deleted added) in
      let adds : World X N P S B R → Step (World X N P S B R) (Unit {0}) =
        λ w. when (has_any added) (add_server_users {B = B} env added w.controller.info) in
      bind-KeepsNode (when (has_any deleted) (del_server_users env deleted))
        (λ _ w. (adds w >>= λ _. last) w)
        (when-KeepsNode (has_any deleted) _ (del_server_users-KeepsNode deleted))
        (λ _ w.
          bind-KeepsNode (adds w) (λ _. last)
            (when-KeepsNode (has_any added) (add_server_users env added w.controller.info)
              (add_server_users-KeepsNode added w.controller.info))
            (λ _.
              when-KeepsNode (has_any added || has_any deleted) (follow_users env deleted added)
                (follow_users-KeepsNode deleted added))
            w)

  check_users-KeepsNode : (users : List UserInfo) → KeepsNode {B = B} (check_users env users)
  unfolding check_users compare
  check_users-KeepsNode [] w = refl
  check_users-KeepsNode (u ∷ us) w =
      bind-KeepsNode (compare env (u ∷ us)) _
        (λ w'. compared-KeepsNode (compare_user_list w'.controller.user_list (u ∷ us)) w')
        (λ c.
          bind-KeepsNode (apply_changes env c.0 c.1) _ (apply_changes-KeepsNode c.0 c.1)
            (λ _ w'. refl))
        w

  -- What follows GetNodeInfo where it gives no node.
  after_none-KeepsNode : KeepsNode {B = B} (
      ask env.panel.get_user_list >>= λ users. ask env.panel.get_user_alive >>= λ alive.
      set_alive alive >>= λ _. check_users env (listed users))
  after_none-KeepsNode = bind-KeepsNode (ask env.panel.get_user_list) _ (ask-KeepsNode _) (λ users.
      bind-KeepsNode (ask env.panel.get_user_alive) _ (ask-KeepsNode _) (λ alive.
        bind-KeepsNode (set_alive alive) _ (set_alive-KeepsNode alive)
          (λ _. check_users-KeepsNode (listed users))))

  -- A round whose GetNodeInfo gives no node.
  pub round-KeepsNode :
      (w : World X N P S B R) (p : P)
      → env.panel.get_node_info w.api_client ≡ (p, Reply.ok none)
      → (node_info_monitor env w).1.controller.info ≡ w.controller.info
  unfolding node_info_monitor
  round-KeepsNode w p h =
      ap (λ r. r.1.controller.info)
        (bind_next (ask env.panel.get_node_info) _ w (record w { api_client = p }) none
          (ap (λ r. need r.1 (record w { api_client = r.0 })) h))
      ∙ after_none-KeepsNode (record w { api_client = p })
