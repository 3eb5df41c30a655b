-- ===== src/Selector/Build/Wired.antt =====
-- field/selector.go: the selector that NewSelector makes.
use mathlib.Core.Path.{subst}
use v2b_x_liusu.Prelude.{
  ◌≡◌, refl, ℕ, ◌+◌, String, true, List, [], ◌∷◌, ◌++◌, Option, All, is_some, arith, Option-cases,
  inl, inr, ◌⊎◌,
}
use v2b_x_liusu.Prelude.Eq.{string_eq, beq_self}
use v2b_x_liusu.Dict.{Dict, lookup, insert, lookup-insert}
use v2b_x_liusu.Config.{CoreConfig}
use v2b_x_liusu.Selector.{Selector}
use v2b_x_liusu.Selector.Build.{Made, made, failed, core_key, add_core, add_cores, new_selector}

abbrev Known : Dict String ℕ → String → Type 0
Known m k = is_some (lookup k m) ≡ true

-- Every name of the order is in the map of the cores.
abbrev pub IsWired : {S : Type 0} → Selector S → Type 0
IsWired sel = All (Known sel.cores) sel.order

insert-Known : (k x : String) (p : ℕ) (m : Dict String ℕ) → Known m x → Known (insert k p m) x
insert-Known k x p m h = ground (arith, lookup-insert k x p m)

insert-All :
    (k : String) (p : ℕ) (m : Dict String ℕ) (ks : List String)
    → All (Known m) ks
    → All (Known (insert k p m)) (ks ++ k ∷ [])
insert-All k p m [] h = (ground (arith, lookup-insert k k p m, beq_self k), tt)
insert-All k p m (x ∷ ks) h = (insert-Known k x p m h.0, insert-All k p m ks h.1)

Made-cases : {A : Type 0} (m : Made A) → ((e : String) × (m ≡ failed e)) ⊎ ((a : A) × (m ≡ made a))
Made-cases (failed e) = inl (e, refl)
Made-cases (made a) = inr (a, refl)

made_inj : {A : Type 0} {a b : A} → made a ≡ made b → a ≡ b
made_inj h = cc

module _ {S : Type 0} (to_lower : String → String)
    (registered : String → Option (CoreConfig → Made S)) where
  add_cores-IsWired :
      (cs : List CoreConfig) (p : ℕ) (sel sel' : Selector S)
      → IsWired sel
      → add_cores to_lower registered cs p sel ≡ made sel'
      → IsWired sel'
  unfolding add_cores add_core
  add_cores-IsWired [] p sel sel' w h = subst IsWired (made_inj h) w
  add_cores-IsWired (c ∷ cs) p sel sel' w h = elim (Option-cases (registered (to_lower c.type))) [
    | inl e ↦ absurd (ground (arith, e, h))
    | inr (f, e) ↦ elim (Made-cases (f c)) [
      | inl (t, e') ↦ absurd (ground (arith, e, e', h))
      | inr (s, e') ↦
          add_cores-IsWired cs (p + 1) (add_core c p s sel) sel'
            (insert-All (core_key c) p sel.cores sel.order w) (cc (e, e', h))
    ]
  ]

  -- In a selector that NewSelector makes every name of the order has a core, so that AddNode meets
  -- no missing core when it goes through the order.
  pub new_selector-IsWired :
      (blank : ℕ → S) (cs : List CoreConfig) (sel : Selector S)
      → new_selector to_lower registered blank cs ≡ made sel
      → IsWired sel
  unfolding new_selector
  new_selector-IsWired blank cs sel h =
      add_cores-IsWired cs 0 (record { cores = []; order = []; nodes = []; states = blank }) sel tt
        h
