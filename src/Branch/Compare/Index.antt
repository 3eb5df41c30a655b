-- ===== src/Branch/Compare/Index.antt =====
-- What the map of the old users holds through the loops.
use mathlib.Core.Path.{subst}
use native.Mathlib.Nat.{add-zero}
use v2b_x_liusu.Prelude.{
  ℕ, zero, suc, ◌+◌, ◌≡◌, refl, String, Bool, true, false, not, ◌&&◌, ◌||◌, List, [], ◌∷◌, ◌++◌,
  some, arith, eq_iff, get_elem?, is_some, All, inl, inr, Bool-cases, Option-cases,
}
use v2b_x_liusu.Prelude.Eq.{◌==◌, string_eq}
use v2b_x_liusu.Dict.{Dict, lookup, insert, delete, lookup-insert, lookup-delete}
use v2b_x_liusu.Panel.Types.{UserInfo}
use v2b_x_liusu.Branch.Compare.{key, index_old, scan_user, scan_new, collect_deleted}

-- Whether a user with the key is in the list.
unfoldable pub has_key : String → List UserInfo → Bool
has_key k [] = false
has_key k (user ∷ users) = key user == k || has_key k users

pub has_key-append :
    (k : String) (xs ys : List UserInfo) → has_key k (xs ++ ys) ≡ (has_key k xs || has_key k ys)
unfolding has_key
has_key-append k [] ys = refl
has_key-append k (x ∷ xs) ys = ground (arith, has_key-append k xs ys)

-- The entry `(k, i)` points to a user of `old` with the key `k`.
abbrev pub Points : List UserInfo → String × ℕ → Type 0
Points old (k, i) = (user : UserInfo) × (get_elem? old i ≡ some user) × (key user ≡ k)

shift : (i j : ℕ) → i + suc j ≡ suc i + j
shift i j = omega arith

module _ (old : List UserInfo) where
  insert-Points :
      (k : String) (i : ℕ) (m : Dict String ℕ)
      → Points old (k, i)
      → All (Points old) m
      → All (Points old) (insert k i m)
  unfolding insert
  insert-Points k i [] p h = (p, tt)
  insert-Points k i ((j, w) ∷ m) (u, e, q) h = elim (Bool-cases (j == k)) [
    | inl s ↦ rw (s, insert) ((u, e, ground (arith, eq_iff j k)), h.1)
    | inr s ↦ rw (s, insert) (h.0, insert-Points k i m (u, e, q) h.1)
  ]

  delete-Points :
      (k : String) (m : Dict String ℕ) → All (Points old) m → All (Points old) (delete k m)
  unfolding delete
  delete-Points k [] h = tt
  delete-Points k ((j, w) ∷ m) h = elim (Bool-cases (j == k)) [
    | inl s ↦ rw (s, delete) (delete-Points k m h.1)
    | inr s ↦ rw (s, delete) (h.0, delete-Points k m h.1)
  ]

  pub index_old-Points :
      (users : List UserInfo) (i : ℕ) (m : Dict String ℕ)
      → ((j : ℕ) → get_elem? old (i + j) ≡ get_elem? users j)
      → All (Points old) m
      → All (Points old) (index_old users i m)
  unfolding index_old
  index_old-Points [] i m at h = h
  index_old-Points (user ∷ users) i m at h =
      index_old-Points users (suc i) (insert (key user) i m)
        (λ j. subst (λ n. get_elem? old n ≡ get_elem? users j) (shift i j) (at (suc j)))
        (insert-Points (key user) i m
          (user, subst (λ n. get_elem? old n ≡ some user) (add-zero i) (at zero), refl) h)

  pub scan_new-Points :
      (new : List UserInfo) (m : Dict String ℕ) (added : List UserInfo)
      → All (Points old) m
      → All (Points old) (scan_new new m added).0
  unfolding scan_new
  scan_new-Points [] m added h = h
  scan_new-Points (user ∷ new) m added h = elim (Option-cases (lookup (key user) m)) [
    | inl e ↦ rw (e, scan_new, scan_user) (scan_new-Points new m (added ++ user ∷ []) h)
    | inr (i, e) ↦
        rw (e, scan_new, scan_user)
          (scan_new-Points new (delete (key user) m) added (delete-Points (key user) m h))
  ]

  -- The third loop does not run out of range; what it collects has the keys of the map, and each
  -- user of it is in `old`.
  pub collect_deleted_total :
      (m : Dict String ℕ) (deleted : List UserInfo)
      → All (Points old) m
      → (r : List UserInfo) × (collect_deleted old m deleted ≡ some r)
  unfolding collect_deleted
  collect_deleted_total [] deleted h = (deleted, refl)
  collect_deleted_total ((k, i) ∷ m) deleted ((u, e, q), h) =
      let (r, p) = collect_deleted_total m (deleted ++ u ∷ []) h in (r, rw (e, collect_deleted) p)

  pub collect_deleted_keys :
      (m : Dict String ℕ) (deleted r : List UserInfo) (k : String)
      → All (Points old) m
      → collect_deleted old m deleted ≡ some r
      → has_key k r ≡ (has_key k deleted || is_some (lookup k m))
  unfolding collect_deleted has_key lookup
  collect_deleted_keys [] deleted r k h p = ground arith
  collect_deleted_keys ((j, i) ∷ m) deleted r k ((u, e, q), h) p = ground (
    arith,
    collect_deleted_keys m (deleted ++ u ∷ []) r k h (rw (e, collect_deleted) at p),
    has_key-append k deleted (u ∷ []),
  )

-- The keys of the first loop's map.
pub index_old_keys :
    (users : List UserInfo) (i : ℕ) (m : Dict String ℕ) (k : String)
    → is_some (lookup k (index_old users i m)) ≡ (has_key k users || is_some (lookup k m))
unfolding index_old has_key
index_old_keys [] i m k = refl
index_old_keys (user ∷ users) i m k =
    ground (
      arith,
      index_old_keys users (suc i) (insert (key user) i m) k,
      lookup-insert (key user) k i m,
    )

-- What the second loop leaves in the map.
pub scan_new_keys :
    (new : List UserInfo) (m : Dict String ℕ) (added : List UserInfo) (k : String)
    → is_some (lookup k (scan_new new m added).0) ≡ (is_some (lookup k m) && not (has_key k new))
unfolding scan_new has_key
scan_new_keys [] m added k = ground arith
scan_new_keys (user ∷ new) m added k = elim (Option-cases (lookup (key user) m)) [
  | inl e ↦
      rw (e, scan_new, scan_user)
        (ground (arith, scan_new_keys new m (added ++ user ∷ []) k, eq_iff (key user) k))
  | inr (i, e) ↦
      rw (e, scan_new, scan_user)
        (ground
          (arith, scan_new_keys new (delete (key user) m) added k, lookup-delete (key user) k m))
]

-- A key of the added users is new: it was there before, or is a key of `new`; and a key of `new`
-- that the map lacks is added.
pub scan_new_added :
    (new : List UserInfo) (m : Dict String ℕ) (added : List UserInfo) (k : String)
    → (has_key k (scan_new new m added).1 ≡ true → (has_key k added || has_key k new) ≡ true)
      × ((has_key k added || (has_key k new && not (is_some (lookup k m)))) ≡ true
          → has_key k (scan_new new m added).1 ≡ true)
unfolding scan_new has_key
scan_new_added [] m added k = ground arith
scan_new_added (user ∷ new) m added k = elim (Option-cases (lookup (key user) m)) [
  | inl e ↦
      rw (e, scan_new, scan_user)
        (ground (
          arith,
          scan_new_added new m (added ++ user ∷ []) k,
          has_key-append k added (user ∷ []),
          eq_iff (key user) k,
        ))
  | inr (i, e) ↦
      rw (e, scan_new, scan_user)
        (ground (
          arith,
          scan_new_added new (delete (key user) m) added k,
          lookup-delete (key user) k m,
          eq_iff (key user) k,
        ))
]
