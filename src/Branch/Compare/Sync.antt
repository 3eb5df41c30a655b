-- ===== src/Branch/Compare/Sync.antt =====
-- The difference of two lists of users takes the one to the other.
use v2b_x_liusu.Prelude.{
  ℕ, ◌+◌, ◌≡◌, ◌↔◌, ap, String, true, not, ◌&&◌, ◌||◌, List, [], some, arith, get_elem?, All,
}
use v2b_x_liusu.Prelude.Eq.{string_eq}
use Prim.Native.String.{count}
use text.Mathlib.TextLemmas.{append_inj}
use v2b_x_liusu.Dict.{Dict, lookup}
use v2b_x_liusu.Text.Decimal.{itoa_injective}
use v2b_x_liusu.Panel.Types.{UserInfo}
use v2b_x_liusu.Branch.Compare.{key, index_old, scan_new, compare_user_list}
use v2b_x_liusu.Branch.Compare.Index.{
  has_key, Points, index_old-Points, scan_new-Points, collect_deleted_total, collect_deleted_keys,
  index_old_keys, scan_new_keys, scan_new_added,
}

-- The map and the added users after the second loop.
abbrev pub scanned : List UserInfo → List UserInfo → Dict String ℕ × List UserInfo
scanned old new = scan_new new (index_old old 0 []) []

zero_add : (j : ℕ) → 0 + j ≡ j
zero_add j = omega arith

module _ (old new : List UserInfo) where
  pub scanned-Points : All (Points old) (scanned old new).0
  scanned-Points =
      scan_new-Points old new (index_old old 0 []) []
        (index_old-Points old old 0 [] (λ j. ap (get_elem? old) (zero_add j)) tt)

  -- compareUserList returns for all lists: the index that it reads is never out of range.
  pub compare_user_list_total :
      (r : List UserInfo × List UserInfo) × (compare_user_list old new ≡ some r)
  unfolding compare_user_list
  compare_user_list_total =
      let (deleted, e) = collect_deleted_total old (scanned old new).0 [] scanned-Points in
      ((deleted, (scanned old new).1), rw (e, compare_user_list))

  module _ (deleted added : List UserInfo)
      (result : compare_user_list old new ≡ some (deleted, added)) where
    -- The deleted keys are exactly those of the old list that the new list lacks.
    pub deleted_keys : (k : String) → has_key k deleted ≡ (has_key k old && not (has_key k new))
    unfolding compare_user_list has_key lookup
    deleted_keys k = ground (
      arith,
      result,
      collect_deleted_keys old (scanned old new).0 [] deleted k scanned-Points,
      scan_new_keys new (index_old old 0 []) [] k,
      index_old_keys old 0 [] k,
    )

    added_keys :
        (k : String)
        → (has_key k added ≡ true → has_key k new ≡ true)
          × ((has_key k new && not (has_key k old)) ≡ true → has_key k added ≡ true)
    unfolding compare_user_list has_key lookup
    added_keys k = ground (
      arith,
      result,
      collect_deleted_total old (scanned old new).0 [] scanned-Points,
      scan_new_added new (index_old old 0 []) [] k,
      index_old_keys old 0 [] k,
    )

    -- Taking the deleted users out of the old list and adding the added ones gives exactly the keys
    -- of the new list, where a key is a UUID with its speed limit.
    pub compare_user_list_sync :
        (k : String)
        → has_key k new ≡ ((has_key k old && not (has_key k deleted)) || has_key k added)
    compare_user_list_sync k = ground (arith, deleted_keys k, added_keys k)

-- Users with UUIDs of one length have the same key exactly if they agree in the UUID and the limit.
pub key_iff :
    (u v : UserInfo)
    → count u.uuid ≡ count v.uuid
    → (key u ≡ key v) ↔ ((u.uuid ≡ v.uuid) × (u.speed_limit ≡ v.speed_limit))
unfolding key
key_iff u v h = (
  (λ e.
      let parts = append_inj e h in (parts.0, itoa_injective u.speed_limit v.speed_limit parts.1)),
  (λ p. ground (arith, p)),
)
