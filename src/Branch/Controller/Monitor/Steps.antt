-- ===== src/Branch/Controller/Monitor/Steps.antt =====
-- branch/task.go, nodeInfoMonitor: what the steps of a round leave behind.
use v2b_x_liusu.Prelude.{
  ◌≡◌, refl, ap, ◌∙◌, String, Bool, true, false, List, Option, none, some, if◌then◌else◌,
}
use v2b_x_liusu.Prelude.Int.{ℤ}
use v2b_x_liusu.Prelude.Eq.{int_eq, string_eq, nat_eq}
use v2b_x_liusu.Panel.Types.{UserInfo, NodeInfo}
use v2b_x_liusu.Dict.{Dict}
use v2b_x_liusu.Limiter.{Limiter}
use v2b_x_liusu.Limiter.Users.{update_user}
use v2b_x_liusu.Limiter.Registry.{deref, write, deref-write}
use v2b_x_liusu.Branch.Compare.{compare_user_list}
use v2b_x_liusu.Branch.Flow.{bind_next, Flow, next, returned, when}
use v2b_x_liusu.Branch.Controller.{Env, Controller, World}
use v2b_x_liusu.Branch.Controller.Monitor.{
  on_limiter, set_alive, through, store_limiter, set_controller,
}
use v2b_x_liusu.Branch.Controller.Monitor.Round.{follow_users, clear_traffic}

-- The requests that the core makes no objection to.
pub record Accepts {X N P S R : Type 0} (env : Env X N P S R) : Type 0 where
  pub deletes :
      (users : List UserInfo) (tag : String) (info : NodeInfo N) (s : S)
      → (env.server.del_users users tag info s).1 ≡ none
  pub adds :
      (tag : String) (users : List UserInfo) (info : NodeInfo N) (s : S)
      → (env.server.add_users tag users info s).2 ≡ none

-- The world with another state of the core.
abbrev pub with_server : {X N P S B R : Type 0} → World X N P S B R → S → World X N P S B R
with_server w s = record w { server = s }

abbrev pub with_users :
    {X N P S B R : Type 0} → List UserInfo → World X N P S B R → World X N P S B R
with_users users w = record w { controller = record w.controller { user_list = users } }

-- How a call of the core ends a step that goes on when the error is nil.
abbrev settled : {W : Type 0} → Option String → W → Flow (Unit {0}) × W
settled err w = elim err [ none ↦ (next tt, w) | some e ↦ (returned none, w) ]

pub settled_lem :
    {W : Type 0} (err : Option String) (w : W) → err ≡ none → settled err w ≡ (next tt, w)
settled_lem err w h = rw (h)

-- The limiter with the alive list of the panel.
abbrev pub alive_limiter : {B R : Type 0} → Option (Dict ℤ ℤ) → Limiter B R → Limiter B R
alive_limiter none l = l
alive_limiter (some alive) l = record l { alive_list = alive }

module _ {X N P S B R : Type 0} where
  -- What follow_users leaves: the limiter follows the two lists, and the traffic of the deleted users
  -- is dropped where the dynamic limits are on.
  abbrev pub follow_world :
      List UserInfo → List UserInfo → Limiter B R → World X N P S B R → World X N P S B R
  follow_world deleted added l w =
      let c = w.controller in
      record w {
        registry = write c.limiter (update_user c.tag added deleted l) w.registry;
        controller =
            if c.options.limit_config.enable_dynamic_speed_limit
            then record c { traffic = clear_traffic deleted c.traffic }
            else c;
      }

  -- The world after the users of `added` and `deleted` are followed, with `l` at the limiter's place.
  abbrev pub followed :
      Bool → List UserInfo → List UserInfo → Limiter B R → World X N P S B R → World X N P S B R
  followed false deleted added l w = w
  followed true deleted added l w = follow_world deleted added l w

  when_set :
      (b : Bool) (f : Controller X N → Controller X N) (w : World X N P S B R)
      → when b (set_controller f) w
        ≡ (next tt, record w { controller = if b then f w.controller else w.controller })
  when_set true f w = refl
  when_set false f w = refl

  on_limiter_lem :
      (f : Limiter B R → Option (Limiter B R)) (l l' : Limiter B R) (w : World X N P S B R)
      → deref w.controller.limiter w.registry ≡ some l
      → f l ≡ some l'
      → on_limiter f w ≡ (next tt, record w { registry = write w.controller.limiter l' w.registry })
  unfolding on_limiter
  on_limiter_lem f l l' w h e = ap (λ o. through f o w) h ∙ ap (λ o. store_limiter o w) e

  -- The world with this limiter.
  abbrev pub alive_world : Option (Dict ℤ ℤ) → Limiter B R → World X N P S B R → World X N P S B R
  alive_world none l w = w
  alive_world (some alive) l w = record w {
    registry = write w.controller.limiter (record l { alive_list = alive }) w.registry;
  }

  pub set_alive_lem :
      (alive : Option (Dict ℤ ℤ)) (l : Limiter B R) (w : World X N P S B R)
      → deref w.controller.limiter w.registry ≡ some l
      → set_alive alive w ≡ (next tt, alive_world alive l w)
  unfolding set_alive
  set_alive_lem none l w h = refl
  set_alive_lem (some alive) l w h =
      on_limiter_lem (λ l'. some (record l' { alive_list = alive })) l _ w h refl

  pub alive_deref :
      (alive : Option (Dict ℤ ℤ)) (l : Limiter B R) (w : World X N P S B R)
      → deref w.controller.limiter w.registry ≡ some l
      → deref (alive_world alive l w).controller.limiter (alive_world alive l w).registry
        ≡ some (alive_limiter alive l)
  alive_deref none l w h = h
  alive_deref (some alive) l w h =
      deref-write w.controller.limiter (record l { alive_list = alive }) w.registry

  -- The controller's users are what they were.
  pub compare_at :
      (alive : Option (Dict ℤ ℤ)) (l : Limiter B R) (w : World X N P S B R) (users : List UserInfo)
      (changes : Option (List UserInfo × List UserInfo))
      → compare_user_list w.controller.user_list users ≡ changes
      → compare_user_list (alive_world alive l w).controller.user_list users ≡ changes
  compare_at none l w users changes h = h
  compare_at (some alive) l w users changes h = h

module _ {X N P S B R : Type 0} (env : Env X N P S R) where
  pub follow_users_lem :
      (deleted added : List UserInfo) (l : Limiter B R) (w : World X N P S B R)
      → deref w.controller.limiter w.registry ≡ some l
      → follow_users env deleted added w ≡ (next tt, follow_world deleted added l w)
  unfolding follow_users on_limiter
  follow_users_lem deleted added l w h =
      let c = w.controller in
      let w' : World X N P S B R = record w {
        registry = write c.limiter (update_user c.tag added deleted l) w.registry;
      } in
      bind_next (on_limiter (λ l'. some (update_user c.tag added deleted l')))
        (λ _.
          when c.options.limit_config.enable_dynamic_speed_limit
            (set_controller (λ c'. record c' { traffic = clear_traffic deleted c'.traffic })))
        w w' tt (on_limiter_lem (λ l'. some (update_user c.tag added deleted l')) l _ w h refl)
      ∙ when_set c.options.limit_config.enable_dynamic_speed_limit
          (λ c'. record c' { traffic = clear_traffic deleted c'.traffic }) w'
