-- ===== src/Selector/AddNode.antt =====
-- What AddNode of the selector leaves behind, whichever way it ends.
use v2b_x_liusu.Prelude.{
  ℕ, ◌≡◌, ◌≢◌, refl, ap, sym, ◌∙◌, String, true, List, [], ◌∷◌, ◌++◌, Option, none, some, arith,
  eq_iff, inl, inr, ◌⊎◌, Option-cases, Bool-cases, In, here, there,
}
use Prim.Native.String.{◌++◌ as str_append}
use v2b_x_liusu.Prelude.Eq.{◌==◌, nat_eq, string_eq, nat_beq_iff}
use v2b_x_liusu.Dict.{Dict, lookup, insert}
use v2b_x_liusu.Panel.Types.{NodeInfo}
use v2b_x_liusu.Config.{Options, Json}
use v2b_x_liusu.Selector.{
  Core, Selector, Outcome, done, failed, panicked, Attempt, unprepared, refused, added, no_core,
  attempt, store_node, is_compatible, prepare_core_options, add_to, add_to_first, add_node,
}

Attempt-cases :
    (r : Attempt)
    → ((e : String) × (r ≡ unprepared e)) ⊎ ((e : String) × (r ≡ refused e)) ⊎ (r ≡ added)
Attempt-cases (unprepared e) = inl (e, refl)
Attempt-cases (refused e) = inr (inl (e, refl))
Attempt-cases added = inr (inr refl)

module _ {X N S : Type 0} (json : Json X) (core_at : ℕ → Core X N S) where
  prepared_core :
      (option : Options X) (c : Core X N S) (raw : Option String)
      → (prepare_core_options json core_at option c raw).1 ≡ none
      → (prepare_core_options json core_at option c raw).0.core ≡ c.type
  unfolding prepare_core_options
  prepared_core option c none h = ground (arith, eq_iff option.core c.type)
  prepared_core option c (some raw) h = ground arith

  module _ (tag : String) (info : NodeInfo N) where
    -- The core at `p` took the node in its last step, with options made for it.
    abbrev pub Took : ℕ → Selector S → Options X → Type 0
    Took p sel option =
        (s : S) × (o : Options X) × ((core_at p).add_node tag info o s ≡ (sel.states p, none))
        × (o.core ≡ (core_at p).type)
        × (option.core ≡ (core_at p).type)

    -- How AddNode may end: the node goes to one of the cores of `E`, or the table stays.
    abbrev pub Placement : (ℕ → Type 0) → Selector S → Selector S → Options X → Outcome → Type 0
    Placement E sel sel' option' done =
        (p : ℕ) × E p
        × (sel'.nodes ≡ insert tag p sel.nodes)
        × (option'.raw_options ≡ none)
        × Took p sel' option'
    Placement E sel sel' option' (failed e) = sel'.nodes ≡ sel.nodes
    Placement E sel sel' option' panicked = sel'.nodes ≡ sel.nodes

    attempt_keeps :
        (raw : Option String) (p : ℕ) (sel : Selector S) (option : Options X)
        → let (sel', option', result) = attempt json core_at tag info raw p sel option in
          (sel'.nodes ≡ sel.nodes)
          × (sel'.cores ≡ sel.cores)
          × ((q : ℕ) → q ≢ p → sel'.states q ≡ sel.states q)
    unfolding attempt
    attempt_keeps raw p sel option =
        (ground arith, ground arith, λ q ne. ground (arith, nat_beq_iff q p, ne))

    attempt_added :
        (raw : Option String) (p : ℕ) (sel : Selector S) (option : Options X)
        → let (sel', option', result) = attempt json core_at tag info raw p sel option in
          result ≡ added → Took p sel' option'
    unfolding attempt
    attempt_added raw p sel option h =
        let prepared = prepare_core_options json core_at option (core_at p) raw in
        (
          sel.states p,
          prepared.0,
          ground (arith, nat_beq_iff p p),
          ground (arith, prepared_core option (core_at p) raw),
          ground (arith, prepared_core option (core_at p) raw),
        )

    Placement-mono :
        (E F : ℕ → Type 0) (sel₀ sel : Selector S) (r : Selector S × Options X × Outcome)
        → ((p : ℕ) → E p → F p)
        → sel.nodes ≡ sel₀.nodes
        → Placement E sel r.0 r.1 r.2
        → Placement F sel₀ r.0 r.1 r.2
    Placement-mono E F sel₀ sel (sel', option', done) f e (p, ep, n, r, t) =
        (p, f p ep, n ∙ ap (insert tag p) e, r, t)
    Placement-mono E F sel₀ sel (sel', option', failed m) f e h = h ∙ e
    Placement-mono E F sel₀ sel (sel', option', panicked) f e h = h ∙ e

    module _ (raw : Option String) where
      -- The cores that the loop may give the node to.
      abbrev pub Fits : String → List String → Dict String ℕ → ℕ → Type 0
      Fits requested names cores p =
          (name : String) × In name names
          × (lookup name cores ≡ some p)
          × (is_compatible info.type requested (core_at p) ≡ true)

      failing-Placement :
          (E : ℕ → Type 0) (errs : List String) (sel : Selector S) (option : Options X)
          → Placement E sel sel option (no_core errs)
      unfolding no_core
      failing-Placement E [] sel option = refl
      failing-Placement E (e ∷ es) sel option = refl

      attempt_stored :
          (p : ℕ) (sel : Selector S) (option : Options X)
          → let (sel', option', result) = attempt json core_at tag info raw p sel option in
            result ≡ added
            → (E : ℕ → Type 0) → E p
            → Placement E sel (store_node tag p sel') (record option' { raw_options = none }) done
      unfolding store_node
      attempt_stored p sel option h E ep = (
        p,
        ep,
        ap (insert tag p) (attempt_keeps raw p sel option).0,
        refl,
        attempt_added raw p sel option h,
      )

      abbrev refusal : ℕ → String → String
      refusal p m = str_append (core_at p).type (str_append ": " m)

      abbrev retry : Options X → Options X
      retry option = record option { raw_options = raw }

      after_refusal :
          (requested name : String) (names errs : List String) (sel : Selector S)
          (option : Options X) (p : ℕ) (m : String)
          → let (sel₁, option₁, _) = attempt json core_at tag info raw p sel option in
            let r =
              add_to_first json core_at tag info raw requested names
                (errs ++ refusal p m ∷ [])
                sel₁
                (retry option₁) in
            Placement (Fits requested names sel₁.cores) sel₁ r.0 r.1 r.2
            → Placement (Fits requested (name ∷ names) sel.cores) sel r.0 r.1 r.2
      after_refusal requested name names errs sel option p m =
          let (sel₁, option₁, _) = attempt json core_at tag info raw p sel option in
          let (nodes_same, cores_same, _) = attempt_keeps raw p sel option in
          Placement-mono (Fits requested names sel₁.cores) (Fits requested (name ∷ names) sel.cores)
            sel sel₁
            (add_to_first json core_at tag info raw requested names (errs ++ refusal p m ∷ []) sel₁
              (retry option₁))
            (λ q (n, i, l, k). (n, there i, ap (lookup n) (sym cores_same) ∙ l, k)) nodes_same

      add_to-Placement :
          (p : ℕ) (sel : Selector S) (option : Options X) (E : ℕ → Type 0)
          → E p
          → let (sel', option', out) = add_to json core_at tag info raw p sel option in
            Placement E sel sel' option' out
      unfolding add_to
      add_to-Placement p sel option E ep =
          elim (Attempt-cases (attempt json core_at tag info raw p sel option).2) [
            | inl (m, r) ↦ rw (r, add_to) (attempt_keeps raw p sel option).0
            | inr (inl (m, r)) ↦ rw (r, add_to) (attempt_keeps raw p sel option).0
            | inr (inr r) ↦ rw (r, add_to) (attempt_stored p sel option r E ep)
          ]

      add_to_first-Placement :
          (requested : String) (names errs : List String) (sel : Selector S) (option : Options X)
          → let (sel', option', out) =
              add_to_first json core_at tag info raw requested names errs sel option in
            Placement (Fits requested names sel.cores) sel sel' option' out
      unfolding add_to_first
      add_to_first-Placement requested [] errs sel option =
          failing-Placement (Fits requested [] sel.cores) errs sel option
      add_to_first-Placement requested (name ∷ names) errs sel option =
          elim (Option-cases (lookup name sel.cores)) [
            | inl e ↦ rw (e, add_to_first) refl
            | inr (p, e) ↦ elim (Bool-cases (is_compatible info.type requested (core_at p))) [
              | inr c ↦
                  rw (e, c, add_to_first)
                    (Placement-mono (Fits requested names sel.cores)
                      (Fits requested (name ∷ names) sel.cores) sel sel
                      (add_to_first json core_at tag info raw requested names errs sel option)
                      (λ q (n, i, l, k). (n, there i, l, k)) refl
                      (add_to_first-Placement requested names errs sel option))
              | inl c ↦ elim (Attempt-cases (attempt json core_at tag info raw p sel option).2) [
                | inl (m, r) ↦ rw (e, c, r, add_to_first) (attempt_keeps raw p sel option).0
                | inr (inl (m, r)) ↦
                    rw (e, c, r, add_to_first)
                      (after_refusal requested name names errs sel option p m (
                        add_to_first-Placement requested names (errs ++ refusal p m ∷ [])
                          (attempt json core_at tag info raw p sel option).0
                          (retry (attempt json core_at tag info raw p sel option).1)))
                | inr (inr r) ↦
                    rw (e, c, r, add_to_first) (attempt_stored p sel option r _ (name, here, e, c))
              ]
            ]
          ]

    -- The cores that AddNode may give the node to: the one that is asked for by its name, or else
    -- those in the order of the configuration that have the type asked for or, where no type is asked
    -- for, support the node's protocol.
    abbrev pub Eligible : Options X → Selector S → ℕ → Type 0
    Eligible option sel p =
        ((option.core_name ≢ "") × (lookup option.core_name sel.cores ≡ some p))
        ⊎ ((option.core_name ≡ "") × Fits option.raw_options option.core sel.order sel.cores p)

    -- Where AddNode ends without an error, the node's tag leads to one eligible core, which took the
    -- node with options made for it, the options are left with the type of that core and without the
    -- raw text, and all other tags lead where they did; where it ends with an error or a panic, every
    -- tag leads where it did.
    pub add_node-Placement :
        (sel : Selector S) (option : Options X)
        → let (sel', option', out) = add_node json core_at tag info sel option in
          Placement (Eligible option sel) sel sel' option' out
    unfolding add_node
    add_node-Placement sel option = elim (Bool-cases (option.core_name == "")) [
      | inl e ↦
          rw (e, add_node)
            (Placement-mono (Fits option.raw_options option.core sel.order sel.cores)
              (Eligible option sel) sel sel
              (add_to_first json core_at tag info option.raw_options option.core sel.order [] sel
                option)
              (λ p f. inr ((eq_iff option.core_name "").0 e, f)) refl
              (add_to_first-Placement option.raw_options option.core sel.order [] sel option))
      | inr e ↦ elim (Option-cases (lookup option.core_name sel.cores)) [
        | inl h ↦ rw (e, h, add_node) refl
        | inr (p, h) ↦
            rw (e, h, add_node)
              (add_to-Placement option.raw_options p sel option (Eligible option sel)
                (inl ((λ q. cc (e, (eq_iff option.core_name "").1 q)), h)))
      ]
    ]
