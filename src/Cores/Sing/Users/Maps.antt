-- ===== src/Cores/Sing/Users/Maps.antt =====
-- field/sing/user.go: the two maps of the core, at the key of a user.
use v2b_x_liusu.Prelude.{
  ◌≡◌, refl, ◌∙◌, String, List, [], ◌∷◌, Option, none, some, if◌then◌else◌, arith, eq_iff,
}
use v2b_x_liusu.Prelude.Int.{ℤ}
use v2b_x_liusu.Prelude.Eq.{◌==◌, string_eq}
use v2b_x_liusu.Dict.{
  Dict, lookup, insert, delete, lookup-insert, lookup-delete, lookup-insert_self,
  lookup-delete_self,
}
use v2b_x_liusu.Text.{user_tag, user_tag_beq}
use v2b_x_liusu.Panel.Types.{UserInfo}
use v2b_x_liusu.Cores.Sing.{Sing}
use v2b_x_liusu.Cores.Sing.Users.{users_at, put_users, drop_uids, put_uids, set_tag_users}
use v2b_x_liusu.Cores.Sing.Users.Lists.{find_user, HasDistinctUuids, IsKeyed, put_users-lookup}

abbrev pub id_of : Option UserInfo → Option ℤ
id_of none = none
id_of (some u) = some u.id

-- The users of the tag are keyed by their UUIDs, and the map of numbers has exactly theirs.
abbrev pub IsSynced : {W : Type 0} → String → Sing W → Type 0
IsSynced tag s =
    IsKeyed (users_at tag s.tag_users)
    × ((uuid : String)
        → lookup (user_tag tag uuid) s.uid_map ≡ id_of (lookup uuid (users_at tag s.tag_users)))

pub drop_uids-lookup :
    (tag uuid : String) (old : Dict String UserInfo) (uids : Dict String ℤ)
    → lookup (user_tag tag uuid) (drop_uids tag old uids)
      ≡ (elim (lookup uuid old) [ none ↦ lookup (user_tag tag uuid) uids | some u ↦ none ])
unfolding drop_uids lookup
drop_uids-lookup tag uuid [] uids = refl
drop_uids-lookup tag uuid ((key, u) ∷ old) uids = ground (
  arith,
  drop_uids-lookup tag uuid old (delete (user_tag tag key) uids),
  lookup-delete (user_tag tag key) (user_tag tag uuid) uids,
  user_tag_beq tag key uuid,
)

pub put_uids-lookup :
    (tag uuid : String) (us : List UserInfo) (uids : Dict String ℤ)
    → HasDistinctUuids us
    → lookup (user_tag tag uuid) (put_uids tag us uids)
      ≡ (elim (find_user uuid us) [ none ↦ lookup (user_tag tag uuid) uids | some u ↦ some u.id ])
unfolding put_uids find_user
put_uids-lookup tag uuid [] uids d = refl
put_uids-lookup tag uuid (u ∷ us) uids d = ground (
  arith,
  d.0,
  put_uids-lookup tag uuid us (insert (user_tag tag u.uuid) u.id uids) d.1,
  lookup-insert (user_tag tag u.uuid) (user_tag tag uuid) u.id uids,
  user_tag_beq tag u.uuid uuid,
  eq_iff u.uuid uuid,
)

-- The tag's entry is the map made of the list, and other tags keep theirs.
pub users_at-set_tag_users :
    (tag : String) (us : List UserInfo) (tag_users : Dict String (Dict String UserInfo))
    → users_at tag (set_tag_users tag us tag_users) ≡ put_users us []
unfolding set_tag_users users_at put_users
users_at-set_tag_users tag [] tag_users = ground (arith, lookup-delete_self tag tag_users)
users_at-set_tag_users tag (u ∷ us) tag_users =
    ground (arith, lookup-insert_self tag (put_users (u ∷ us) []) tag_users)

pub users_at-other :
    (tag other : String) (us : List UserInfo) (tag_users : Dict String (Dict String UserInfo))
    → users_at other (set_tag_users tag us tag_users)
      ≡ (if tag == other then put_users us [] else users_at other tag_users)
unfolding set_tag_users users_at put_users
users_at-other tag other [] tag_users = ground (arith, lookup-delete tag other tag_users)
users_at-other tag other (u ∷ us) tag_users =
    ground (arith, lookup-insert tag other (put_users (u ∷ us) []) tag_users)

pub put_users-find_user :
    (uuid : String) (us : List UserInfo)
    → HasDistinctUuids us
    → lookup uuid (put_users us []) ≡ find_user uuid us
unfolding lookup
put_users-find_user uuid us d =
    put_users-lookup uuid us [] d
    ∙ elim (find_user uuid us) as (λ x. (elim x [ none ↦ none | some u ↦ some u ]) ≡ x) [
      | none ↦ refl
      | some u ↦ refl
    ]
