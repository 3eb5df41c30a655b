-- ===== src/Cores/Sing/Users/Sync.antt =====
-- field/sing/user.go: the users of a tag and their numbers after AddUsers and DelUsers.
use v2b_x_liusu.Prelude.{
  ◌≡◌, refl, sym, ap, ◌∙◌, String, List, [], Option, none, some, if◌then◌else◌, arith,
}
use v2b_x_liusu.Prelude.Int.{ℤ}
use v2b_x_liusu.Prelude.Eq.{◌==◌, string_eq}
use mathlib.Core.Path.{subst}
use v2b_x_liusu.Dict.{Dict, lookup, insert}
use v2b_x_liusu.Text.{user_tag}
use v2b_x_liusu.Panel.Types.{UserInfo}
use v2b_x_liusu.Limiter.Users.Sync.{last_user, has_user}
use v2b_x_liusu.Selector.{Outcome, done, failed, panicked}
use v2b_x_liusu.Cores.Nodes.{Node}
use v2b_x_liusu.Cores.Sing.{Sing, Box}
use v2b_x_liusu.Cores.Sing.Sort.{sorted_tag_users}
use v2b_x_liusu.Cores.Sing.Inbounds.{refresh_inbound_users}
use v2b_x_liusu.Cores.Sing.Users.{
  users_at, put_users, drop_users, drop_uids, put_uids, set_tag_users, replace_tag_users,
  forget_users, forget_counts, set_users, add_users, del_users,
}
use v2b_x_liusu.Cores.Sing.Users.Lists.{
  find_user, HasDistinctUuids, IsKeyed, sorted_tag_users-find_user, put_users-IsKeyed,
  drop_users-IsKeyed, put_users-last, drop_users-lookup,
}
use v2b_x_liusu.Cores.Sing.Users.Maps.{
  id_of, IsSynced, drop_uids-lookup, put_uids-lookup, users_at-set_tag_users, users_at-other,
  put_users-find_user,
}

-- A change of the users of the tag to `next`, on the maps: where the inbound takes the list, the tag
-- has for each UUID the user of `next` and its number, and other tags keep their users; otherwise both maps
-- are as they were.
abbrev pub Becomes :
    {W : Type 0} → String → (String → Option UserInfo) → Sing W → Sing W × Outcome → Type 0
Becomes tag next s (s', done) =
    IsSynced tag s'
    × ((uuid : String) → lookup uuid (users_at tag s'.tag_users) ≡ next uuid)
    × ((other : String)
        → users_at other s'.tag_users
          ≡ (if tag == other then users_at tag s'.tag_users else users_at other s.tag_users))
Becomes tag next s (s', failed e) = (s'.tag_users ≡ s.tag_users) × (s'.uid_map ≡ s.uid_map)
Becomes tag next s (s', panicked) = (s'.tag_users ≡ s.tag_users) × (s'.uid_map ≡ s.uid_map)

-- The numbers left after the old users went and the new ones came are those of the new.
uid_map-find_user :
    (tag uuid : String) (old : Dict String UserInfo) (us : List UserInfo) (uids : Dict String ℤ)
    → (lookup (user_tag tag uuid) uids ≡ id_of (lookup uuid old))
    → HasDistinctUuids us
    → lookup (user_tag tag uuid) (put_uids tag us (drop_uids tag old uids))
      ≡ id_of (find_user uuid us)
uid_map-find_user tag uuid old us uids synced d = ground (
  arith,
  put_uids-lookup tag uuid us (drop_uids tag old uids) d,
  drop_uids-lookup tag uuid old uids,
)

module _ {W : Type 0} (tag : String) (next : Dict String UserInfo) (s : Sing W) (w : W) where
  replace_tag_users-Becomes :
      IsKeyed next
      → IsSynced tag s
      → Becomes tag
          (λ uuid. lookup uuid next)
          s
          (
            replace_tag_users tag
                (users_at tag s.tag_users)
                (sorted_tag_users next)
                (record s { box = w }),
            done,
          )
  unfolding replace_tag_users
  replace_tag_users-Becomes k synced =
      let us = sorted_tag_users next in
      let distinct : HasDistinctUuids us = (sorted_tag_users-find_user "" next k).1 in
      let now = users_at-set_tag_users tag us s.tag_users in
      let holds : (uuid : String)
          → lookup uuid (users_at tag (set_tag_users tag us s.tag_users)) ≡ find_user uuid us =
        λ uuid. ap (lookup uuid) now ∙ put_users-find_user uuid us distinct in
      (
        (
          subst IsKeyed (sym now) (put_users-IsKeyed us [] (tt, tt)),
          λ uuid.
              uid_map-find_user tag uuid (users_at tag s.tag_users) us s.uid_map (synced.1 uuid)
                distinct
              ∙ sym (ap id_of (holds uuid)),
        ),
        λ uuid. holds uuid ∙ (sorted_tag_users-find_user uuid next k).0,
        λ other.
            users_at-other tag other us s.tag_users
            ∙ ap (λ m. if tag == other then m else users_at other s.tag_users) (sym now),
      )

module _ {W U : Type 0} (box : Box W U) (tag : String) (n : Node) (s : Sing W) where
  set_users-Becomes :
      (next : Dict String UserInfo)
      → IsKeyed next
      → IsSynced tag s
      → Becomes tag (λ uuid. lookup uuid next) s (set_users box tag n next s)
  unfolding set_users
  set_users-Becomes next k synced =
      let users = sorted_tag_users next in
      let r = refresh_inbound_users box tag n users s.box in
      let s' : Sing W = record s { box = r.0 } in
      elim r.1
        as (λ result.
          Becomes tag (λ uuid. lookup uuid next) s
            (elim result [
              | done ↦ (replace_tag_users tag (users_at tag s.tag_users) users s', done)
              | failed e ↦ (s', failed e)
              | panicked ↦ (s', panicked)
            ])) [
              | done ↦ replace_tag_users-Becomes tag next s r.0 k synced
              | failed e ↦ (refl, refl)
              | panicked ↦ (refl, refl)
            ]

  forget_users-Becomes :
      (next : Dict String UserInfo) (users : List UserInfo) (s' : Sing W)
      → Becomes tag (λ uuid. lookup uuid next) s (s', done)
      → Becomes tag (λ uuid. lookup uuid next) s (forget_users tag users s', done)
  unfolding forget_users
  forget_users-Becomes next users s' h =
      elim (lookup tag s'.counters)
        as (λ x.
          Becomes tag (λ uuid. lookup uuid next) s
            (
              elim x [
                | none ↦ s'
                | some c ↦ record s' { counters = insert tag (forget_counts users c) s'.counters }
              ],
              done,
            )) [ none ↦ h | some c ↦ h ]

  -- The same change, with the users of `next` described otherwise.
  Becomes-same :
      (next next' : String → Option UserInfo) (r : Sing W × Outcome)
      → ((uuid : String) → next uuid ≡ next' uuid)
      → Becomes tag next s r
      → Becomes tag next' s r
  Becomes-same next next' (s', done) same h = (h.0, (λ uuid. h.1 uuid ∙ same uuid), h.2)
  Becomes-same next next' (s', failed e) same h = h
  Becomes-same next next' (s', panicked) same h = h

  -- AddUsers for a tag whose maps agree: where it succeeds, the tag has for each UUID the last user of
  -- the call with it, or else the user it had; the map of numbers has exactly the numbers of these, and
  -- other tags keep their users; where it fails or panics, both maps are as they were. The box is any.
  pub add_users_lem :
      (users : List UserInfo)
      → IsSynced tag s
      → Becomes tag
          (λ uuid. elim (last_user uuid users) [
            | some u ↦ some u
            | none ↦ lookup uuid (users_at tag s.tag_users)
          ])
          s
          (add_users box tag users n s)
  unfolding add_users
  add_users_lem users synced =
      let next = put_users users (users_at tag s.tag_users) in
      Becomes-same (λ uuid. lookup uuid next) _ (set_users box tag n next s)
        (λ uuid. put_users-last uuid users (users_at tag s.tag_users))
        (set_users-Becomes next (put_users-IsKeyed users (users_at tag s.tag_users) synced.0)
          synced)

  -- DelUsers for a tag whose maps agree: where it succeeds, the tag has the users it had but those with
  -- the UUID of a user of the call, the map of numbers has exactly the numbers of these, and other
  -- tags keep their users; where it fails or panics, both maps are as they were. The box is any.
  pub del_users_lem :
      (users : List UserInfo)
      → IsSynced tag s
      → Becomes tag
          (λ uuid. if has_user uuid users then none else lookup uuid (users_at tag s.tag_users))
          s
          (del_users box users tag n s)
  unfolding del_users
  del_users_lem users synced =
      let next = drop_users users (users_at tag s.tag_users) in
      let r = set_users box tag n next s in
      let h : Becomes tag (λ uuid. lookup uuid next) s (r.0, r.1) =
        set_users-Becomes next (drop_users-IsKeyed users (users_at tag s.tag_users) synced.0)
          synced in
      Becomes-same (λ uuid. lookup uuid next) _ (del_users box users tag n s)
        (λ uuid. drop_users-lookup uuid users (users_at tag s.tag_users))
        ((elim r.1
            as (λ result.
              Becomes tag (λ uuid. lookup uuid next) s (r.0, result)
              → Becomes tag (λ uuid. lookup uuid next) s
                  (elim result [
                    | done ↦ (forget_users tag users r.0, done)
                    | failed e ↦ (r.0, failed e)
                    | panicked ↦ (r.0, panicked)
                  ])) [
                    | done ↦ forget_users-Becomes next users r.0
                    | failed e ↦ λ h. h
                    | panicked ↦ λ h. h
                  ])
          h)
