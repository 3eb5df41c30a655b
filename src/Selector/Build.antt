-- ===== src/Selector/Build.antt =====
-- field/selector.go and core.go: NewSelector, NewCore, and the operations on all cores.
-- `to_lower` is strings.ToLower, and `registered` the table of the cores' constructors. Go ranges
-- over the map of cores in any order; here it is the order of the association list.
pub mod Wired
use v2b_x_liusu.Prelude.{
  ◌≡◌, refl, ℕ, suc, ◌+◌, String, Bool, true, false, List, [], ◌∷◌, ◌++◌, Option, none, some, All,
  is_some, if◌then◌else◌, arith, Option-cases, inl, inr,
}
use Prim.Native.String.{◌++◌ as str_append}
use v2b_x_liusu.Prelude.Eq.{◌==◌, nat_eq, string_eq}
use v2b_x_liusu.Dict.{Dict, lookup, insert, lookup-insert}
use v2b_x_liusu.Config.{CoreConfig}
use v2b_x_liusu.Selector.{Core, Selector, set_state, join_errors}

-- What a constructor gives: a core's first state, or an error.
pub data Made (A : Type 0) : Type 0 where
  made : A → Made A
  failed : String → Made A

-- c.Name, or c.Type where it is empty
unfoldable pub core_key : CoreConfig → String
core_key c = if c.name == "" then c.type else c.name

-- cs[key] = core1; order = append(order, key)
unfoldable pub add_core : {S : Type 0} → CoreConfig → ℕ → S → Selector S → Selector S
unfolding set_state core_key
add_core c p s sel = record (set_state p s sel) {
  cores = insert (core_key c) p sel.cores;
  order = sel.order ++ core_key c ∷ [];
}

module _ {S : Type 0} (to_lower : String → String)
    (registered : String → Option (CoreConfig → Made S)) where
  -- The loop of NewSelector; the next core is the one at `p`.
  unfoldable pub add_cores : List CoreConfig → ℕ → Selector S → Made (Selector S)
  unfolding add_core
  add_cores [] p sel = made sel
  add_cores (c ∷ cs) p sel = elim (registered (to_lower c.type)) [
    | none ↦ failed (str_append "unknown core type: " c.type)
    | some f ↦ elim (f c) [
      | failed e ↦ failed e
      | made s ↦ add_cores cs (p + 1) (add_core c p s sel)
    ]
  ]

  -- NewSelector(c); `blank` are the states before any core is made.
  unfoldable pub new_selector : (ℕ → S) → List CoreConfig → Made (Selector S)
  unfolding add_cores
  new_selector blank cs =
      add_cores cs 0 (record { cores = []; order = []; nodes = []; states = blank })

  -- NewCore(c), which gives one core as it is and several behind a selector. The type of a single
  -- core is looked up as it is written.
  pub data AnyCore : Type 0 where
    one : S → AnyCore
    several : Selector S → AnyCore

  unfoldable pub new_core : (ℕ → S) → List CoreConfig → Made AnyCore
  unfolding new_selector
  new_core blank [] = failed "no have vail core"
  new_core blank (c ∷ []) = elim (registered c.type) [
    | none ↦ failed "unknown core type"
    | some f ↦ elim (f c) [ failed e ↦ failed e | made s ↦ made (one s) ]
  ]
  new_core blank (c ∷ d ∷ cs) = elim (new_selector blank (c ∷ d ∷ cs)) [
    | failed e ↦ failed e
    | made sel ↦ made (several sel)
  ]

module _ {X N S : Type 0} (core_at : ℕ → Core X N S) where
  -- The loop of Start, which ends at the first error.
  unfoldable pub start_all : Dict String ℕ → Selector S → Selector S × Option String
  unfolding set_state
  start_all [] sel = (sel, none)
  start_all ((name, p) ∷ cs) sel =
      let (s, err) = (core_at p).start (sel.states p) in
      elim err [ some e ↦ (set_state p s sel, some e) | none ↦ start_all cs (set_state p s sel) ]

  -- Start()
  unfoldable pub start : Selector S → Selector S × Option String
  unfolding start_all
  start sel = start_all sel.cores sel

  -- The loop of Close, which closes every core and gathers the errors.
  unfoldable pub close_all : Dict String ℕ → List String → Selector S → Selector S × List String
  unfolding set_state
  close_all [] errs sel = (sel, errs)
  close_all ((name, p) ∷ cs) errs sel =
      let (s, err) = (core_at p).close (sel.states p) in
      elim err [
        | some e ↦ close_all cs (errs ++ e ∷ []) (set_state p s sel)
        | none ↦ close_all cs errs (set_state p s sel)
      ]

  -- errors.Join(errs...), nil where there is none
  abbrev pub joined : List String → Option String
  joined [] = none
  joined (e ∷ es) = some (join_errors (e ∷ es))

  -- Close()
  unfoldable pub close : Selector S → Selector S × Option String
  unfolding close_all
  close sel = let (sel', errs) = close_all sel.cores [] sel in (sel', joined errs)

  -- Protocols(), over the rest of the cores
  unfoldable pub protocols_of : Dict String ℕ → List String
  protocols_of [] = []
  protocols_of ((name, p) ∷ cs) = (core_at p).protocols ++ protocols_of cs

  -- The loop of Type()
  unfoldable pub type_of : Bool → Dict String ℕ → String
  type_of flag [] = ")"
  type_of flag ((name, p) ∷ cs) =
      str_append (if flag then " " else "")
        (str_append (if name == "" then (core_at p).type else name) (type_of true cs))

  -- Type()
  unfoldable pub type : Selector S → String
  unfolding type_of
  type sel = str_append "Selector(" (type_of false sel.cores)
