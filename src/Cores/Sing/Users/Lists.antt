-- ===== src/Cores/Sing/Users/Lists.antt =====
-- field/sing/user.go: a map of users, as the list that sortedTagUsers makes of it and back.
use v2b_x_liusu.Prelude.{
  ◌≡◌, refl, sym, ap, ◌∙◌, String, List, [], ◌∷◌, Option, none, some, All, if◌then◌else◌, arith,
  Bool-cases, inl, inr, eq_iff,
}
use v2b_x_liusu.Prelude.Eq.{◌==◌, string_eq}
use v2b_x_liusu.Dict.{Dict, lookup, insert, delete, lookup-insert, lookup-delete}
use v2b_x_liusu.Dict.Keys.{HasDistinctKeys, insert-HasDistinctKeys, delete-HasDistinctKeys}
use v2b_x_liusu.Panel.Types.{UserInfo}
use v2b_x_liusu.Limiter.Users.Sync.{last_user, has_user}
use v2b_x_liusu.Cores.Sing.Sort.{precedes, place, sort, users_of, sorted_tag_users}
use v2b_x_liusu.Cores.Sing.Users.{put_users, drop_users}

-- The first user of the list with the UUID.
unfoldable pub find_user : String → List UserInfo → Option UserInfo
find_user uuid [] = none
find_user uuid (u ∷ us) = let rest = find_user uuid us in if u.uuid == uuid then some u else rest

-- No two users of the list have the same UUID.
abbrev pub HasDistinctUuids : List UserInfo → Type 0
HasDistinctUuids [] = Unit
HasDistinctUuids (u ∷ us) = (find_user u.uuid us ≡ none) × HasDistinctUuids us

-- Every user is stored under its UUID, and no UUID twice.
abbrev pub IsKeyed : Dict String UserInfo → Type 0
IsKeyed m = All (λ e. e.0 ≡ e.1.uuid) m × HasDistinctKeys m

place-find_user :
    (uuid : String) (u : UserInfo) (us : List UserInfo)
    → find_user u.uuid us ≡ none
    → find_user uuid (place u us) ≡ (if u.uuid == uuid then some u else find_user uuid us)
unfolding place find_user
place-find_user uuid u [] h = refl
place-find_user uuid u (v ∷ vs) h = elim (Bool-cases (precedes v u)) [
  | inl e ↦ ground (
    arith,
    e,
    h,
    place-find_user uuid u vs,
    eq_iff u.uuid uuid,
    eq_iff v.uuid uuid,
    eq_iff v.uuid u.uuid,
  )
  | inr e ↦ ground (arith, e)
]

place-HasDistinctUuids :
    (u : UserInfo) (us : List UserInfo)
    → find_user u.uuid us ≡ none
    → HasDistinctUuids us
    → HasDistinctUuids (place u us)
unfolding place find_user
place-HasDistinctUuids u [] h d = (refl, tt)
place-HasDistinctUuids u (v ∷ vs) h d = elim (Bool-cases (precedes v u)) [
  | inl e ↦ rw (e) (
    ground (arith, h, d.0, place-find_user v.uuid u vs, eq_iff u.uuid v.uuid, eq_iff v.uuid u.uuid),
    place-HasDistinctUuids u vs (ground (arith, h)) d.1,
  )
  | inr e ↦ rw (e) (h, d)
]

sort-find_user :
    (uuid : String) (us : List UserInfo)
    → HasDistinctUuids us
    → (find_user uuid (sort us) ≡ find_user uuid us) × HasDistinctUuids (sort us)
unfolding sort find_user
sort-find_user uuid [] d = (refl, tt)
sort-find_user uuid (u ∷ us) d =
    let (same, distinct) = sort-find_user uuid us d.1 in
    let fresh = (sort-find_user u.uuid us d.1).0 ∙ d.0 in
    (
      place-find_user uuid u (sort us) fresh ∙ ap (λ r. if u.uuid == uuid then some u else r) same,
      place-HasDistinctUuids u (sort us) fresh distinct,
    )

-- The values of a keyed map.
users_of-find_user :
    (uuid : String) (m : Dict String UserInfo)
    → IsKeyed m
    → (find_user uuid (users_of m) ≡ lookup uuid m) × HasDistinctUuids (users_of m)
unfolding users_of find_user lookup
users_of-find_user uuid [] k = (refl, tt)
users_of-find_user uuid ((key, u) ∷ m) k =
    let rest : IsKeyed m = (k.0.1, k.1.1) in
    let (same, distinct) = users_of-find_user uuid m rest in
    (
      ground (arith, same, k.0.0),
      ((users_of-find_user u.uuid m rest).0 ∙ ap (λ x. lookup x m) (sym k.0.0) ∙ k.1.0, distinct),
    )

-- sortedTagUsers keeps exactly the users of the map, one for a UUID.
pub sorted_tag_users-find_user :
    (uuid : String) (m : Dict String UserInfo)
    → IsKeyed m
    → (find_user uuid (sorted_tag_users m) ≡ lookup uuid m) × HasDistinctUuids (sorted_tag_users m)
unfolding sorted_tag_users
sorted_tag_users-find_user uuid m k =
    let (same, distinct) = users_of-find_user uuid m k in
    let (sorted, distinct') = sort-find_user uuid (users_of m) distinct in
    (sorted ∙ same, distinct')

-- The map made of a list, on top of `m`: users of the list come first.
pub put_users-lookup :
    (uuid : String) (us : List UserInfo) (m : Dict String UserInfo)
    → HasDistinctUuids us
    → lookup uuid (put_users us m)
      ≡ (elim (find_user uuid us) [ none ↦ lookup uuid m | some u ↦ some u ])
unfolding put_users find_user
put_users-lookup uuid [] m d = refl
put_users-lookup uuid (u ∷ us) m d = ground (
  arith,
  d.0,
  put_users-lookup uuid us (insert u.uuid u m) d.1,
  lookup-insert u.uuid uuid u m,
  eq_iff u.uuid uuid,
)

insert-keyed :
    (u : UserInfo) (m : Dict String UserInfo)
    → All (λ e. e.0 ≡ e.1.uuid) m
    → All (λ e. e.0 ≡ e.1.uuid) (insert u.uuid u m)
unfolding insert
insert-keyed u [] k = (refl, tt)
insert-keyed u (e ∷ m) k = elim (Bool-cases (e.0 == u.uuid)) [
  | inl h ↦ rw (h) (ground (arith, h, eq_iff e.0 u.uuid), k.1)
  | inr h ↦ rw (h) (k.0, insert-keyed u m k.1)
]

delete-keyed :
    (uuid : String) (m : Dict String UserInfo)
    → All (λ e. e.0 ≡ e.1.uuid) m
    → All (λ e. e.0 ≡ e.1.uuid) (delete uuid m)
unfolding delete
delete-keyed uuid [] k = tt
delete-keyed uuid (e ∷ m) k = elim (Bool-cases (e.0 == uuid)) [
  | inl h ↦ rw (h) (delete-keyed uuid m k.1)
  | inr h ↦ rw (h) (k.0, delete-keyed uuid m k.1)
]

put-IsKeyed : (u : UserInfo) (m : Dict String UserInfo) → IsKeyed m → IsKeyed (insert u.uuid u m)
put-IsKeyed u m k = (insert-keyed u m k.0, insert-HasDistinctKeys u.uuid u m k.1)

pub put_users-IsKeyed :
    (us : List UserInfo) (m : Dict String UserInfo) → IsKeyed m → IsKeyed (put_users us m)
unfolding put_users
put_users-IsKeyed [] m k = k
put_users-IsKeyed (u ∷ us) m k = put_users-IsKeyed us (insert u.uuid u m) (put-IsKeyed u m k)

drop-IsKeyed : (uuid : String) (m : Dict String UserInfo) → IsKeyed m → IsKeyed (delete uuid m)
drop-IsKeyed uuid m k = (delete-keyed uuid m k.0, delete-HasDistinctKeys uuid m k.1)

pub drop_users-IsKeyed :
    (us : List UserInfo) (m : Dict String UserInfo) → IsKeyed m → IsKeyed (drop_users us m)
unfolding drop_users
drop_users-IsKeyed [] m k = k
drop_users-IsKeyed (u ∷ us) m k = drop_users-IsKeyed us (delete u.uuid m) (drop-IsKeyed u.uuid m k)

-- The map after the users of a list are put into it: the last user of the list with the UUID, or what
-- was there.
pub put_users-last :
    (uuid : String) (us : List UserInfo) (m : Dict String UserInfo)
    → lookup uuid (put_users us m)
      ≡ (elim (last_user uuid us) [ none ↦ lookup uuid m | some u ↦ some u ])
unfolding put_users last_user
put_users-last uuid [] m = refl
put_users-last uuid (u ∷ us) m =
    ground (arith, put_users-last uuid us (insert u.uuid u m), lookup-insert u.uuid uuid u m)

-- The map after the users of a list are taken out.
pub drop_users-lookup :
    (uuid : String) (us : List UserInfo) (m : Dict String UserInfo)
    → lookup uuid (drop_users us m) ≡ (if has_user uuid us then none else lookup uuid m)
unfolding drop_users has_user
drop_users-lookup uuid [] m = refl
drop_users-lookup uuid (u ∷ us) m =
    ground (arith, drop_users-lookup uuid us (delete u.uuid m), lookup-delete u.uuid uuid m)
