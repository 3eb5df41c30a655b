-- ===== src/Dict/Keys.antt =====
-- A map has one entry for a key.
use v2b_x_liusu.Prelude.{
  ◌≡◌, refl, ◌∙◌, Bool-cases, inl, inr, [], ◌∷◌, none, some, All, arith, false,
}
use v2b_x_liusu.Prelude.Eq.{Eq, ◌==◌, beq_self}
use v2b_x_liusu.Dict.{Dict, lookup, insert, delete, lookup-insert, lookup-delete}

module _ {ℓ κ} {K : Type ℓ} {V : Type κ} ⦃eq : Eq K⦄ where
  abbrev pub HasDistinctKeys : Dict K V → Type κ
  HasDistinctKeys [] = Unit
  HasDistinctKeys (e ∷ es) = (lookup e.0 es ≡ none) × HasDistinctKeys es

  lookup-insert-none :
      (k j : K) (v : V) (m : Dict K V)
      → (k == j) ≡ false
      → lookup j m ≡ none
      → lookup j (insert k v m) ≡ none
  lookup-insert-none k j v m ne h = lookup-insert k j v m ∙ (rw (ne) h)

  lookup-delete-none : (k j : K) (m : Dict K V) → lookup j m ≡ none → lookup j (delete k m) ≡ none
  lookup-delete-none k j m h =
      lookup-delete k j m ∙ elim (Bool-cases (k == j)) [ inl e ↦ rw (e) refl | inr e ↦ rw (e) h ]

  -- A key that is put in keeps the others apart.
  pub insert-HasDistinctKeys :
      (k : K) (v : V) (m : Dict K V) → HasDistinctKeys m → HasDistinctKeys (insert k v m)
  unfolding insert lookup
  insert-HasDistinctKeys k v [] d = (refl, tt)
  insert-HasDistinctKeys k v (e ∷ es) d = elim (Bool-cases (e.0 == k)) [
    | inl h ↦ rw (h, insert) d
    | inr h ↦
        rw (h, insert)
          (
            lookup-insert-none k e.0 v es (ground (arith, h, eq.beq_iff e.0 k, eq.beq_iff k e.0))
                d.0,
            insert-HasDistinctKeys k v es d.1,
          )
  ]

  pub delete-HasDistinctKeys :
      (k : K) (m : Dict K V) → HasDistinctKeys m → HasDistinctKeys (delete k m)
  unfolding delete
  delete-HasDistinctKeys k [] d = tt
  delete-HasDistinctKeys k (e ∷ es) d = elim (Bool-cases (e.0 == k)) [
    | inl h ↦ rw (h, delete) (delete-HasDistinctKeys k es d.1)
    | inr h ↦ rw (h, delete) (lookup-delete-none k e.0 es d.0, delete-HasDistinctKeys k es d.1)
  ]

  -- Another entry in front does not hide the rest.
  lookup-cons :
      (e : K × V) (xs es : Dict K V)
      → lookup e.0 xs ≡ none
      → All (λ x. lookup x.0 xs ≡ some x.1) es
      → All (λ x. lookup x.0 (e ∷ xs) ≡ some x.1) es
  unfolding lookup
  lookup-cons e xs [] h found = tt
  lookup-cons e xs (x ∷ es) h found =
      (ground (arith, h, found.0, eq.beq_iff e.0 x.0), lookup-cons e xs es h found.1)

  -- Every entry is the one that a lookup finds.
  pub lookup-entry : (m : Dict K V) → HasDistinctKeys m → All (λ x. lookup x.0 m ≡ some x.1) m
  unfolding lookup
  lookup-entry [] d = tt
  lookup-entry (e ∷ es) d = (rw (beq_self e.0) refl, lookup-cons e es es d.0 (lookup-entry es d.1))
