-- ===== src/Samples/Compare.antt =====
-- branch/user.go: compareUserList where one user stays, one goes, one comes and one gets a new limit;
-- and a report of three devices.
use v2b_x_liusu.Text.Decimal.{itoa}
use v2b_x_liusu.Prelude.{◌≡◌, refl, not, ◌&&◌, ◌||◌, some, List, [], ◌∷◌}
use v2b_x_liusu.Prelude.Int.{pos}
use v2b_x_liusu.Prelude.Eq.{string_eq}
use v2b_x_liusu.Dict.{lookup, insert, delete}
use v2b_x_liusu.Panel.Types.{UserInfo}
use v2b_x_liusu.Branch.Compare.{compare_user_list, key}
use v2b_x_liusu.Branch.Compare.Index.{has_key}
use v2b_x_liusu.Branch.Compare.Sync.{compare_user_list_total, compare_user_list_sync}
use v2b_x_liusu.Branch.Compare.Exact.{added_exactly, newcomers}
use v2b_x_liusu.Samples.{alice, bob, carol}

abbrev faster : UserInfo
faster = record alice { speed_limit = pos 20 }

abbrev pub old : List UserInfo
old = alice ∷ bob ∷ []

abbrev pub new : List UserInfo
new = bob ∷ faster ∷ carol ∷ []

changes : compare_user_list old new ≡ some (alice ∷ [], faster ∷ carol ∷ [])
unfolding compare_user_list lookup insert key itoa delete
changes = refl

compare_user_list_total_example :
    (r : List UserInfo × List UserInfo) × (compare_user_list old new ≡ some r)
compare_user_list_total_example = compare_user_list_total old new

compare_user_list_sync_example : has_key "a20" new ≡ (
    (has_key "a20" old && not (has_key "a20" (alice ∷ []))) || has_key "a20" (faster ∷ carol ∷ []))
compare_user_list_sync_example =
    compare_user_list_sync old new (alice ∷ []) (faster ∷ carol ∷ []) changes "a20"

added_exactly_example : faster ∷ carol ∷ [] ≡ newcomers (λ k. has_key k old) new
unfolding has_key key itoa
added_exactly_example =
    added_exactly old new (alice ∷ []) (faster ∷ carol ∷ []) changes (refl, (refl, (refl, tt)))
