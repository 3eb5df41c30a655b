-- ===== src/Branch/Compare/Exact.antt =====
-- The added users in order, where no key occurs twice in the new list.
use mathlib.Core.List.{append-nil, append_assoc}
use mathlib.Core.Path.{fun_ext, subst}
use v2b_x_liusu.Prelude.{
  ℕ, zero, suc, ◌≡◌, refl, ap, ◌∙◌, String, Bool, false, List, [], ◌∷◌, ◌++◌, some, arith, eq_iff,
  is_some, some_inj, if◌then◌else◌, inl, inr, Option-cases, get_elem?, All, In, here, there,
}
use v2b_x_liusu.Prelude.Eq.{◌==◌, string_eq}
use v2b_x_liusu.Dict.{Dict, lookup, delete, lookup-delete}
use v2b_x_liusu.Panel.Types.{UserInfo}
use v2b_x_liusu.Branch.Compare.{
  key, index_old, scan_user, scan_new, collect_deleted, compare_user_list,
}
use v2b_x_liusu.Branch.Compare.Sync.{scanned, scanned-Points}
use v2b_x_liusu.Branch.Compare.Index.{has_key, Points, index_old_keys, collect_deleted_total}

-- No two users of the list have the same key.
abbrev pub Distinct : List UserInfo → Type 0
Distinct [] = Unit
Distinct (user ∷ users) = (has_key (key user) users ≡ false) × Distinct users

-- The users whose key is not known.
unfoldable pub newcomers : (String → Bool) → List UserInfo → List UserInfo
newcomers known [] = []
newcomers known (user ∷ users) =
    let rest = newcomers known users in if known (key user) then rest else user ∷ rest

newcomers_cong :
    (p q : String → Bool) (x : String) (users : List UserInfo)
    → ((k : String) → (x == k) ≡ false → p k ≡ q k)
    → has_key x users ≡ false
    → newcomers p users ≡ newcomers q users
unfolding newcomers has_key
newcomers_cong p q x [] h n = refl
newcomers_cong p q x (user ∷ users) h n =
    ground
      (arith, h (key user), eq_iff x (key user), eq_iff (key user) x, newcomers_cong p q x users h)

abbrev known_in : Dict String ℕ → String → Bool
known_in m k = is_some (lookup k m)

scan_new-newcomers :
    (new : List UserInfo) (m : Dict String ℕ) (added : List UserInfo)
    → Distinct new
    → (scan_new new m added).1 ≡ added ++ newcomers (known_in m) new
unfolding scan_new newcomers
scan_new-newcomers [] m added d = simp append-nil
scan_new-newcomers (user ∷ new) m added d = elim (Option-cases (lookup (key user) m)) [
  | inl e ↦
      rw (e, scan_new, scan_user)
        (scan_new-newcomers new m (added ++ user ∷ []) d.1
          ∙ append_assoc added (user ∷ []) (newcomers (known_in m) new))
  | inr (i, e) ↦
      rw (e, scan_new, scan_user)
        (scan_new-newcomers new (delete (key user) m) added d.1
          ∙ ap (λ xs. added ++ xs)
              (newcomers_cong (known_in (delete (key user) m)) (known_in m) (key user) new
                (λ k q. ground (arith, lookup-delete (key user) k m)) d.0))
]

In-get_elem? :
    (users : List UserInfo) (i : ℕ) (user : UserInfo)
    → get_elem? users i ≡ some user
    → In user users
In-get_elem? [] i user h = absurd (ground arith)
In-get_elem? (u ∷ users) zero user h = subst (λ v. In v (u ∷ users)) (some_inj h) here
In-get_elem? (u ∷ users) (suc i) user h = there (In-get_elem? users i user h)

All-append {ℓ} :
    (P : UserInfo → Type ℓ) (xs : List UserInfo) (y : UserInfo)
    → All P xs
    → P y
    → All P (xs ++ y ∷ [])
All-append P [] y h q = (q, tt)
All-append P (x ∷ xs) y h q = (h.0, All-append P xs y h.1 q)

collect_deleted-In :
    (old : List UserInfo) (m : Dict String ℕ) (deleted r : List UserInfo)
    → All (Points old) m
    → All (λ u. In u old) deleted
    → collect_deleted old m deleted ≡ some r
    → All (λ u. In u old) r
unfolding collect_deleted
collect_deleted-In old [] deleted r h d p = subst (All (λ u. In u old)) (some_inj p) d
collect_deleted-In old ((k, i) ∷ m) deleted r ((u, e, q), h) d p =
    collect_deleted-In old m (deleted ++ u ∷ []) r h
      (All-append (λ v. In v old) deleted u d (In-get_elem? old i u e))
      (rw (e, collect_deleted) at p)

known_in-index_old : (old : List UserInfo) → known_in (index_old old 0 []) ≡ (λ k. has_key k old)
unfolding lookup
known_in-index_old old = fun_ext λ k. ground (arith, index_old_keys old 0 [] k)

module _ (old new deleted added : List UserInfo)
    (result : compare_user_list old new ≡ some (deleted, added)) where
  -- Every deleted user is a user of the old list, with all its data.
  pub deleted-In : All (λ u. In u old) deleted
  unfolding compare_user_list
  deleted-In =
      let (r, e) = collect_deleted_total old (scanned old new).0 [] (scanned-Points old new) in
      collect_deleted-In old (scanned old new).0 [] deleted (scanned-Points old new) tt
        (ground (arith, result, e))

  added_scanned : added ≡ (scanned old new).1
  unfolding compare_user_list
  added_scanned =
      ground
        (arith, result, collect_deleted_total old (scanned old new).0 [] (scanned-Points old new))

  -- Where the new list has no key twice, the added users are those of the new list whose key the
  -- old list lacks, in the order of the new list.
  pub added_exactly : Distinct new → added ≡ newcomers (λ k. has_key k old) new
  added_exactly d =
      added_scanned
      ∙ scan_new-newcomers new (index_old old 0 []) [] d
      ∙ ap (λ p. newcomers p new) (known_in-index_old old)
