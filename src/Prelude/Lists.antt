-- ===== src/Prelude/Lists.antt =====
-- Lists measured and indexed by native numbers, under the library's names.
use Prim.Native.Nat.{ℕ, zero, suc, ◌+◌, ◌<◌}
use mathlib.Core.Path.{◌≡◌, refl}
use mathlib.Core.Logic.{◌≢◌, ◌⊎◌, inl, inr}
use mathlib.Core.List.{List, [], ◌∷◌, ◌++◌}
use mathlib.Core.Option.{Option, none, some}
use native.Mathlib.Omega.{arith}

module _ {ℓ} {A : Type ℓ} where
  abbrev pub length : List A → ℕ
  length [] = 0
  length (x ∷ xs) = suc (length xs)

  abbrev pub get_elem? : List A → ℕ → Option A
  get_elem? [] i = none
  get_elem? (x ∷ xs) zero = some x
  get_elem? (x ∷ xs) (suc i) = get_elem? xs i

  pub length-append : (xs ys : List A) → length (xs ++ ys) ≡ length xs + length ys
  length-append [] ys = omega arith
  length-append (x ∷ xs) ys = omega (arith, length-append xs ys)

  -- Every element satisfies `P`; computes to a tuple, which the tactics read.
  abbrev pub All {κ} : (A → Type κ) → List A → Type κ
  All P [] = Unit
  All P (x ∷ xs) = P x × All P xs

  -- `a` occurs in the list, with the place kept.
  pub data In (a : A) : List A → Type ℓ where
    here : {xs : List A} → In a (a ∷ xs)
    there : {x : A} {xs : List A} → In a xs → In a (x ∷ xs)

  -- A write out of bounds changes nothing.
  abbrev pub set : List A → ℕ → A → List A
  set [] i v = []
  set (x ∷ xs) zero v = v ∷ xs
  set (x ∷ xs) (suc i) v = x ∷ set xs i v

  pub get_elem?-set_cases :
      (xs : List A) (i j : ℕ) (v p : A)
      → get_elem? (set xs i v) j ≡ some p
      → (p ≡ v) ⊎ (get_elem? xs j ≡ some p)
  get_elem?-set_cases [] i j v p h = inr h
  get_elem?-set_cases (x ∷ xs) zero zero v p h = inl (cc)
  get_elem?-set_cases (x ∷ xs) zero (suc j) v p h = inr h
  get_elem?-set_cases (x ∷ xs) (suc i) zero v p h = inr h
  get_elem?-set_cases (x ∷ xs) (suc i) (suc j) v p h = get_elem?-set_cases xs i j v p h

  pub get_elem?-append_cases :
      (xs : List A) (j : ℕ) (v p : A)
      → get_elem? (xs ++ v ∷ []) j ≡ some p
      → (p ≡ v) ⊎ (get_elem? xs j ≡ some p)
  get_elem?-append_cases [] zero v p h = inl (cc)
  get_elem?-append_cases [] (suc j) v p h = inr h
  get_elem?-append_cases (x ∷ xs) zero v p h = inr h
  get_elem?-append_cases (x ∷ xs) (suc j) v p h = get_elem?-append_cases xs j v p h

  pub get_elem?-append_left :
      (xs ys : List A) (i : ℕ) (p : A) → get_elem? xs i ≡ some p → get_elem? (xs ++ ys) i ≡ some p
  get_elem?-append_left [] ys i p h = absurd (ground arith)
  get_elem?-append_left (x ∷ xs) ys zero p h = h
  get_elem?-append_left (x ∷ xs) ys (suc i) p h = get_elem?-append_left xs ys i p h

  pub get_elem?-append_last : (xs : List A) (v : A) → get_elem? (xs ++ v ∷ []) (length xs) ≡ some v
  get_elem?-append_last [] v = refl
  get_elem?-append_last (x ∷ xs) v = get_elem?-append_last xs v

  pub get_elem?-set_self :
      (xs : List A) (i : ℕ) (v p : A) → get_elem? xs i ≡ some p → get_elem? (set xs i v) i ≡ some v
  get_elem?-set_self [] i v p h = absurd (ground arith)
  get_elem?-set_self (x ∷ xs) zero v p h = refl
  get_elem?-set_self (x ∷ xs) (suc i) v p h = get_elem?-set_self xs i v p h

  pub get_elem?-set_ne :
      (xs : List A) (i j : ℕ) (v : A) → i ≢ j → get_elem? (set xs i v) j ≡ get_elem? xs j
  get_elem?-set_ne [] i j v h = refl
  get_elem?-set_ne (x ∷ xs) zero zero v h = absurd (h refl)
  get_elem?-set_ne (x ∷ xs) zero (suc j) v h = refl
  get_elem?-set_ne (x ∷ xs) (suc i) zero v h = refl
  get_elem?-set_ne (x ∷ xs) (suc i) (suc j) v h = get_elem?-set_ne xs i j v (λ e. h (omega arith))

  pub get_elem?_bound : (xs : List A) (i : ℕ) (p : A) → get_elem? xs i ≡ some p → i < length xs
  get_elem?_bound [] i p h = absurd (ground arith)
  get_elem?_bound (x ∷ xs) zero p h = omega arith
  get_elem?_bound (x ∷ xs) (suc i) p h = omega (arith, get_elem?_bound xs i p h)
