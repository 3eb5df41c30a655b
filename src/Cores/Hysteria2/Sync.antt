-- ===== src/Cores/Hysteria2/Sync.antt =====
-- field/hy2/user.go: who may connect after AddUsers and DelUsers.
use v2b_x_liusu.Prelude.{
  ◌≡◌, refl, ap, String, ◌||◌, List, [], ◌∷◌, none, some, is_some, if◌then◌else◌, arith,
}
use v2b_x_liusu.Prelude.Int.{ℤ}
use v2b_x_liusu.Prelude.Eq.{string_eq}
use v2b_x_liusu.Dict.{Dict, lookup, insert, delete, lookup-insert, lookup-delete}
use v2b_x_liusu.Panel.Types.{UserInfo}
use v2b_x_liusu.Selector.{done}
use v2b_x_liusu.Cores.Sing.Users.Lists.{find_user}
use v2b_x_liusu.Cores.Hysteria2.{Hysteria2node, Hysteria2}
use v2b_x_liusu.Cores.Hysteria2.Users.{
  put_ids, drop_ids, authenticate, add_users, forget_users, del_users,
}

put_ids-lookup :
    (uuid : String) (us : List UserInfo) (m : Dict String ℤ)
    → is_some (lookup uuid (put_ids us m))
      ≡ (is_some (find_user uuid us) || is_some (lookup uuid m))
unfolding put_ids find_user
put_ids-lookup uuid [] m = refl
put_ids-lookup uuid (u ∷ us) m =
    ground (arith, put_ids-lookup uuid us (insert u.uuid u.id m), lookup-insert u.uuid uuid u.id m)

drop_ids-lookup :
    (uuid : String) (us : List UserInfo) (m : Dict String ℤ)
    → lookup uuid (drop_ids us m) ≡ (if is_some (find_user uuid us) then none else lookup uuid m)
unfolding drop_ids find_user
drop_ids-lookup uuid [] m = refl
drop_ids-lookup uuid (u ∷ us) m =
    ground (arith, drop_ids-lookup uuid us (delete u.uuid m), lookup-delete u.uuid uuid m)

module _ {S : Type 0} (tag uuid : String) (h : Hysteria2 S) where
  forget_users-users_map :
      (us : List UserInfo) (n : Hysteria2node S) → (forget_users tag us n h).users_map ≡ h.users_map
  unfolding forget_users
  forget_users-users_map us n = ground arith

  add_users-authenticate :
      (users : List UserInfo)
      → is_some (authenticate uuid (add_users users h))
        ≡ (is_some (find_user uuid users) || is_some (authenticate uuid h))
  unfolding authenticate add_users
  add_users-authenticate users = ground (arith, put_ids-lookup uuid users h.users_map)

  del_users-authenticate :
      (users : List UserInfo) (n : Hysteria2node S)
      → lookup tag h.hy2nodes ≡ some n
      → ((del_users users tag h).1 ≡ done)
        × (authenticate uuid (del_users users tag h).0
            ≡ (if is_some (find_user uuid users) then none else authenticate uuid h))
  unfolding authenticate del_users find_user
  del_users-authenticate [] n found = (refl, refl)
  del_users-authenticate (u ∷ us) n found =
      let h' = forget_users tag (u ∷ us) n h in
      rw (found, del_users)
        (
          refl,
          ground (
            arith,
            drop_ids-lookup uuid (u ∷ us) h'.users_map,
            ap (lookup uuid) (forget_users-users_map (u ∷ us) n),
          ),
        )

  -- In whatever order the goroutines of AddUsers and DelUsers run, after AddUsers exactly the users of
  -- the call and those that could connect before can connect; after a DelUsers for a node that the
  -- core has, exactly those that could before and are not in the call. The tag plays no part in it: a
  -- user that one node drops can connect to none.
  pub add_users-del_users :
      (users : List UserInfo) (n : Hysteria2node S)
      → lookup tag h.hy2nodes ≡ some n
      → (is_some (authenticate uuid (add_users users h))
          ≡ (is_some (find_user uuid users) || is_some (authenticate uuid h)))
        × ((del_users users tag h).1 ≡ done)
        × (authenticate uuid (del_users users tag h).0
            ≡ (if is_some (find_user uuid users) then none else authenticate uuid h))
  add_users-del_users users n found =
      let (ok, gone) = del_users-authenticate users n found in
      (add_users-authenticate users, ok, gone)
