-- ===== src/Selector.antt =====
-- field/selector.go: several cores behind the interface of one. A core is an object behind a
-- pointer; its operations are `Core`, field/interface.go, and its state is in `states`. Errors are
-- their texts, and `none` is nil.
pub mod Routing
pub mod AddNode
pub mod Build
use v2b_x_liusu.Prelude.{
  ℕ, zero, suc, String, Bool, true, false, not, List, [], ◌∷◌, ◌++◌, Option, none, some,
  if◌then◌else◌,
}
use Prim.Native.String.{◌++◌ as str_append}
use v2b_x_liusu.Prelude.Int.{ℤ, pos}
use v2b_x_liusu.Prelude.Eq.{◌==◌, nat_eq, string_eq}
use v2b_x_liusu.Dict.{Dict, lookup, insert, delete}
use v2b_x_liusu.Panel.Types.{UserInfo, UserTraffic, NodeInfo}
use v2b_x_liusu.Config.{Options, Json, unmarshal_json}

-- field/interface.go, Core, over the state `S` of the core: each operation gives the state after it.
pub record Core (X N S : Type 0) : Type 0 where
  pub type : String
  pub protocols : List String
  pub start : S → S × Option String
  pub close : S → S × Option String
  pub add_node : String → NodeInfo N → Options X → S → S × Option String
  pub del_node : String → S → S × Option String
  pub add_users : String → List UserInfo → NodeInfo N → S → S × ℤ × Option String
  pub get_user_traffic_slice : String → Bool → S → S × List UserTraffic × Option String
  pub del_users : List UserInfo → String → NodeInfo N → S → S × Option String

pub record Selector (S : Type 0) : Type 0 where
  pub cores : Dict String ℕ
  pub order : List String
  pub nodes : Dict String ℕ
  pub states : ℕ → S

-- isSupported(protocol, protocols)
unfoldable pub is_supported : String → List String → Bool
is_supported protocol [] = false
is_supported protocol (p ∷ ps) =
    let rest = is_supported protocol ps in if protocol == p then true else rest

unfoldable pub set_state : {S : Type 0} → ℕ → S → Selector S → Selector S
set_state p s sel = record sel { states = λ q. if q == p then s else sel.states q }

-- How a call ends: with nil, with an error, or with a panic on a nil core.
pub data Outcome : Type 0 where
  done : Outcome
  failed : String → Outcome
  panicked : Outcome

-- What comes of one core: the options cannot be prepared, the core refuses, or it takes the node.
pub data Attempt : Type 0 where
  unprepared : String → Attempt
  refused : String → Attempt
  added : Attempt

-- errors.Join(errs...).Error()
unfoldable pub join_errors : List String → String
join_errors [] = ""
join_errors (e ∷ []) = e
join_errors (e ∷ es) = str_append e (str_append "\n" (join_errors es))

-- The errors after the loop.
unfoldable pub no_core : List String → Outcome
unfolding join_errors
no_core [] = failed "the node type is not support"
no_core (e ∷ es) =
    failed (str_append "add node failed on compatible cores: " (join_errors (e ∷ es)))

-- s.nodes.Store(tag, c)
unfoldable pub store_node : {S : Type 0} → String → ℕ → Selector S → Selector S
store_node tag p sel = record sel { nodes = insert tag p sel.nodes }

-- Whether the loop tries the core, for a node of the given type.
unfoldable pub is_compatible : {X N S : Type 0} → String → String → Core X N S → Bool
unfolding is_supported
is_compatible type requested c =
    if requested == "" then is_supported type c.protocols else requested == c.type

module _ {X N S : Type 0} (json : Json X) (core_at : ℕ → Core X N S) where
  -- The rest of prepareCoreOptions once the core is written into the text.
  unfoldable pub decode_patched : String → Options X → Option String → Options X × Option String
  decode_patched type option none = (option, some "inject core option error")
  decode_patched type option (some patched) =
      let (option', err) = unmarshal_json json patched option in
      elim err [
        | some e ↦ (option', some (str_append "unmarshal option error: " e))
        | none ↦ (record option' { core = type }, none)
      ]

  -- prepareCoreOptions(option, c, rawOptions): the options, which it writes, and the error.
  unfoldable pub prepare_core_options :
      Options X → Core X N S → Option String → Options X × Option String
  unfolding decode_patched
  prepare_core_options option c none =
      if option.core == c.type
      then (option, none)
      else (record option { core = c.type; raw_options = none }, none)
  prepare_core_options option c (some raw) =
      decode_patched c.type (record option { core = c.type; raw_options = some raw })
        (json.with_core raw c.type)

  module _ (tag : String) (info : NodeInfo N) (raw : Option String) where
    -- Preparing the options for the core at `p`, and its AddNode.
    unfoldable pub attempt : ℕ → Selector S → Options X → Selector S × Options X × Attempt
    unfolding set_state
    attempt p sel option =
        let c = core_at p in
        let (option', err) = prepare_core_options option c raw in
        elim err [
          | some e ↦ (sel, option', unprepared e)
          | none ↦
              let (s', refusal) = c.add_node tag info option' (sel.states p) in
              elim refusal [
                | some e ↦ (set_state p s' sel, option', refused e)
                | none ↦ (set_state p s' sel, option', added)
              ]
        ]

    -- The branch for a core that is asked for by its name.
    unfoldable pub add_to : ℕ → Selector S → Options X → Selector S × Options X × Outcome
    unfolding store_node
    add_to p sel option =
        let (sel', option', result) = attempt p sel option in
        elim result [
          | unprepared e ↦ (sel', option', failed e)
          | refused e ↦ (sel', option', failed e)
          | added ↦ (store_node tag p sel', record option' { raw_options = none }, done)
        ]

    -- The loop over the cores in the order of the configuration.
    unfoldable pub add_to_first :
        String
        → List String
        → List String
        → Selector S
        → Options X
        → Selector S × Options X × Outcome
    unfolding store_node no_core
    add_to_first requested [] errs sel option = (sel, option, no_core errs)
    add_to_first requested (name ∷ names) errs sel option = elim (lookup name sel.cores) [
      | none ↦ (sel, option, panicked)
      | some p ↦ elim (is_compatible info.type requested (core_at p)) [
        | false ↦ add_to_first requested names errs sel option
        | true ↦
            let (sel', option', result) = attempt p sel option in
            elim result [
              | unprepared e ↦ (sel', option', failed e)
              | refused e ↦
                  add_to_first requested names
                    (errs ++ str_append (core_at p).type (str_append ": " e) ∷ []) sel'
                    (record option' { raw_options = raw })
              | added ↦ (store_node tag p sel', record option' { raw_options = none }, done)
            ]
      ]
    ]

  -- AddNode(tag, info, option), with the options that it writes.
  unfoldable pub add_node :
      String → NodeInfo N → Selector S → Options X → Selector S × Options X × Outcome
  add_node tag info sel option =
      if not (option.core_name == "")
      then (elim (lookup option.core_name sel.cores) [
        | some p ↦ add_to tag info option.raw_options p sel option
        | none ↦ (sel, option, failed "the node core name is not support")
      ])
      else add_to_first tag info option.raw_options option.core sel.order [] sel option
