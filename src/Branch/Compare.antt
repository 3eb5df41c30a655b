-- ===== src/Branch/Compare.antt =====
-- branch/user.go, compareUserList: which users have gone and which have come.
pub mod Index
pub mod Exact
pub mod Sync
use v2b_x_liusu.Prelude.{
  ℕ, zero, suc, ◌≡◌, String, List, [], ◌∷◌, ◌++◌, Option, none, some, get_elem?,
}
use Prim.Native.String.{◌++◌ as str_append}
use v2b_x_liusu.Prelude.Eq.{string_eq}
use v2b_x_liusu.Dict.{Dict, lookup, insert, delete}
use v2b_x_liusu.Text.Decimal.{itoa}
use v2b_x_liusu.Panel.Types.{UserInfo}

-- user.Uuid + strconv.Itoa(user.SpeedLimit)
unfoldable pub key : UserInfo → String
key user = str_append user.uuid (itoa user.speed_limit)

-- The first loop: `oldMap`, from the place `i` on.
unfoldable pub index_old : List UserInfo → ℕ → Dict String ℕ → Dict String ℕ
index_old [] i m = m
index_old (user ∷ users) i m = index_old users (suc i) (insert (key user) i m)

-- One round of the second loop.
unfoldable pub scan_user : UserInfo → Dict String ℕ → List UserInfo → Dict String ℕ × List UserInfo
scan_user user m added = elim (lookup (key user) m) [
  | none ↦ (m, added ++ user ∷ [])
  | some i ↦ (delete (key user) m, added)
]

unfoldable pub scan_new :
    List UserInfo → Dict String ℕ → List UserInfo → Dict String ℕ × List UserInfo
unfolding scan_user
scan_new [] m added = (m, added)
scan_new (user ∷ users) m added =
    let (m', added') = scan_user user m added in scan_new users m' added'

-- The third loop; `none` is a panic on an index out of range.
unfoldable pub collect_deleted :
    List UserInfo → Dict String ℕ → List UserInfo → Option (List UserInfo)
collect_deleted old [] deleted = some deleted
collect_deleted old ((k, i) ∷ m) deleted = elim (get_elem? old i) [
  | none ↦ none
  | some user ↦ collect_deleted old m (deleted ++ user ∷ [])
]

-- compareUserList(old, new): the deleted and the added users.
unfoldable pub compare_user_list :
    List UserInfo → List UserInfo → Option (List UserInfo × List UserInfo)
unfolding index_old scan_new collect_deleted
compare_user_list old new =
    let (m, added) = scan_new new (index_old old 0 []) [] in
    elim (collect_deleted old m []) [ none ↦ none | some deleted ↦ some (deleted, added) ]
