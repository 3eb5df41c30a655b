-- ===== src/Cores/Xray/Users/Sync.antt =====
-- field/xray/user.go: the ids and the links of a node's users after DelUsers.
use v2b_x_liusu.Prelude.{
  ◌≡◌, refl, sym, ap, ◌∙◌, String, List, [], ◌∷◌, Option, none, some, is_some, if◌then◌else◌, arith,
  Option-cases, inl, inr,
}
use v2b_x_liusu.Prelude.Int.{ℤ}
use v2b_x_liusu.Prelude.Eq.{◌==◌, string_eq}
use v2b_x_liusu.Dict.{lookup, lookup-delete}
use v2b_x_liusu.Text.{user_tag, user_tag_beq}
use v2b_x_liusu.Panel.Types.{UserInfo}
use v2b_x_liusu.Selector.{Outcome, done}
use v2b_x_liusu.Cores.Sing.Users.Lists.{find_user}
use v2b_x_liusu.Cores.Xray.Links.{LinkManager}
use v2b_x_liusu.Cores.Xray.Users.{
  Xray, Server, stop_or, get_user_manager, forget, remove_each, del_users,
}

-- The id and the links of a user.
abbrev pub entries : {W : Type 0} → String → Xray W → Option ℤ × Option LinkManager
entries user s = (lookup user s.uid_map, lookup user s.link_managers)

-- A call that did not fail has gone on.
went_on :
    {A : Type 0} (s : A) (rest : A × Outcome) (result : Option String)
    → (stop_or result s rest).1 ≡ done
    → stop_or result s rest ≡ rest
went_on s rest (some e) h = absurd (ground (arith, h))
went_on s rest none h = refl

forget-entries :
    {W : Type 0} (tag user other : String) (s : Xray W)
    → entries other (forget tag user s) ≡ (if user == other then (none, none) else entries other s)
unfolding forget
forget-entries tag user other s =
    ground (arith, lookup-delete user other s.uid_map, lookup-delete user other s.link_managers)

module _ {W M T : Type 0} (server : Server W M T) (tag : String) where
  remove_each-entries :
      (uuid : String) (us : List UserInfo) (s : Xray W)
      → (remove_each server tag us s).1 ≡ done
      → entries (user_tag tag uuid) (remove_each server tag us s).0
        ≡ (if is_some (find_user uuid us) then (none, none) else entries (user_tag tag uuid) s)
  unfolding remove_each find_user
  remove_each-entries uuid [] s h = refl
  remove_each-entries uuid (u ∷ us) s h =
      let user = user_tag tag u.uuid in
      let (w, result) = server.remove_user tag user s.server in
      let s' : Xray W = record s { server = w } in
      let left = forget tag user s' in
      let same = went_on s' (remove_each server tag us left) result h in
      ap (λ x. entries (user_tag tag uuid) x.0) same
      ∙ remove_each-entries uuid us left (sym (ap (λ x. x.1) same) ∙ h)
      ∙ ground (arith, forget-entries tag user (user_tag tag uuid) s', user_tag_beq tag u.uuid uuid)

  -- After a DelUsers that succeeds, no user of the call has an id or links in the core; every other
  -- user of the node keeps its own.
  pub del_users-entries :
      (uuid : String) (users : List UserInfo) (s : Xray W)
      → (del_users server users tag s).1 ≡ done
      → entries (user_tag tag uuid) (del_users server users tag s).0
        ≡ (if is_some (find_user uuid users) then (none, none) else entries (user_tag tag uuid) s)
  unfolding del_users
  del_users-entries uuid users s h =
      elim (Option-cases (get_user_manager tag (server.get_handler tag s.server))) [
        | inl e ↦ rw (e, del_users) (remove_each-entries uuid users s (rw (e, del_users) at h))
        | inr (err, e) ↦ absurd (ground (arith, rw (e, del_users) at h))
      ]
