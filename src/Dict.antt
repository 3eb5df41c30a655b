-- ===== src/Dict.antt =====
-- Go's maps and `sync.Map`: an association list with one entry for a key. A new key is added at the
-- end; Go leaves the order of iteration open, and no statement depends on it.
pub mod Keys
use v2b_x_liusu.Prelude.{◌≡◌, refl, List, [], ◌∷◌, Option, none, some, arith, if◌then◌else◌}
use v2b_x_liusu.Prelude.Eq.{Eq, ◌==◌, beq_self}

abbrev pub Dict {ℓ κ} : Type ℓ → Type κ → Type (ℓ ⊔ κ)
Dict K V = List (K × V)

module _ {ℓ κ} {K : Type ℓ} {V : Type κ} ⦃e : Eq K⦄ where
  -- m[key], m.Load(key)
  unfoldable pub lookup : K → Dict K V → Option V
  lookup key [] = none
  lookup key (entry ∷ rest) = if entry.0 == key then some entry.1 else lookup key rest

  -- m[key] = value, m.Store(key, value)
  unfoldable pub insert : K → V → Dict K V → Dict K V
  insert key value [] = (key, value) ∷ []
  insert key value (entry ∷ rest) =
      let rest' = insert key value rest in
      if entry.0 == key then (entry.0, value) ∷ rest else entry ∷ rest'

  -- delete(m, key), m.Delete(key)
  unfoldable pub delete : K → Dict K V → Dict K V
  delete key [] = []
  delete key (entry ∷ rest) =
      let rest' = delete key rest in if entry.0 == key then rest' else entry ∷ rest'

  pub lookup-insert :
      (key other : K) (value : V) (m : Dict K V)
      → lookup other (insert key value m) ≡ (if key == other then some value else lookup other m)
  unfolding lookup insert
  lookup-insert key other value [] = refl
  lookup-insert key other value (entry ∷ rest) = ground (
    arith,
    lookup-insert key other value rest,
    e.beq_iff entry.0 other,
    e.beq_iff entry.0 key,
    e.beq_iff key other,
  )

  pub lookup-delete :
      (key other : K) (m : Dict K V)
      → lookup other (delete key m) ≡ (if key == other then none else lookup other m)
  unfolding lookup delete
  lookup-delete key other [] = ground arith
  lookup-delete key other (entry ∷ rest) = ground (
    arith,
    lookup-delete key other rest,
    e.beq_iff entry.0 other,
    e.beq_iff entry.0 key,
    e.beq_iff key other,
  )

  pub lookup-insert_self : (k : K) (v : V) (m : Dict K V) → lookup k (insert k v m) ≡ some v
  lookup-insert_self k v m = simp (lookup-insert, beq_self)

  pub lookup-delete_self : (k : K) (m : Dict K V) → lookup k (delete k m) ≡ none
  lookup-delete_self k m = simp (lookup-delete, beq_self)

pub ruleset dict_laws = (lookup-insert, lookup-delete, beq_self)
