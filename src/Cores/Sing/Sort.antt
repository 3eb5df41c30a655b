-- ===== src/Cores/Sing/Sort.antt =====
-- field/sing/user.go, sortedTagUsers.
use v2b_x_liusu.Prelude.{ℕ, String, Bool, true, false, List, [], ◌∷◌, if◌then◌else◌}
use Prim.Native.String.{compare}
use Prim.Native.Nat.{Ordering}
use v2b_x_liusu.Prelude.Int.{ltb_ℤ}
use v2b_x_liusu.Prelude.Eq.{◌==◌, string_eq}
use v2b_x_liusu.Dict.{Dict}
use v2b_x_liusu.Panel.Types.{UserInfo}

-- `<` on texts
abbrev pub ltb_string : String → String → Bool
ltb_string s t = elim (compare s t) [ Ordering.lt ↦ true | _ ↦ false ]

-- The function given to sort.Slice.
unfoldable pub precedes : UserInfo → UserInfo → Bool
precedes u v = if u.uuid == v.uuid then ltb_ℤ u.id v.id else ltb_string u.uuid v.uuid

unfoldable pub place : UserInfo → List UserInfo → List UserInfo
place u [] = u ∷ []
place u (v ∷ vs) = let rest = place u vs in if precedes v u then v ∷ rest else u ∷ v ∷ vs

-- sort.Slice of the list; the users of one map differ in the UUID, so that only one order is sorted.
unfoldable pub sort : List UserInfo → List UserInfo
unfolding place
sort [] = []
sort (u ∷ us) = place u (sort us)

-- The values of the map.
unfoldable pub users_of : Dict String UserInfo → List UserInfo
users_of [] = []
users_of ((uuid, user) ∷ m) = user ∷ users_of m

-- sortedTagUsers(users)
unfoldable pub sorted_tag_users : Dict String UserInfo → List UserInfo
unfolding sort users_of
sorted_tag_users m = sort (users_of m)

-- userIndexes(size), counted from `first`
unfoldable pub indexes_from : ℕ → List UserInfo → List ℕ
indexes_from first [] = []
indexes_from first (u ∷ us) = first ∷ indexes_from (ℕ.suc first) us
