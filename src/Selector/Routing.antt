-- ===== src/Selector/Routing.antt =====
-- field/selector.go: the operations that go to the core of a node.
use v2b_x_liusu.Prelude.{
  ℕ, ◌≡◌, String, Bool, List, [], Option, none, some, arith, eq_iff, if◌then◌else◌, not, ◌&&◌,
  is_some,
}
use v2b_x_liusu.Prelude.Int.{ℤ, pos}
use v2b_x_liusu.Prelude.Eq.{◌==◌, nat_eq, string_eq}
use v2b_x_liusu.Dict.{lookup, delete, lookup-delete}
use v2b_x_liusu.Panel.Types.{UserInfo, UserTraffic, NodeInfo}
use v2b_x_liusu.Selector.{Core, Selector, set_state}

abbrev pub no_node : String
no_node = "the node is not have"

module _ {X N S : Type 0} (core_at : ℕ → Core X N S) where
  -- DelNode(tag)
  unfoldable pub del_node : String → Selector S → Selector S × Option String
  unfolding set_state
  del_node tag sel = elim (lookup tag sel.nodes) [
    | none ↦ (sel, some no_node)
    | some p ↦
        let (s', err) = (core_at p).del_node tag (sel.states p) in
        let sel' = set_state p s' sel in
        elim err [
          | some e ↦ (sel', some e)
          | none ↦ (record sel' { nodes = delete tag sel'.nodes }, none)
        ]
  ]

  -- AddUsers(p)
  unfoldable pub add_users :
      String → List UserInfo → NodeInfo N → Selector S → Selector S × ℤ × Option String
  unfolding set_state
  add_users tag users info sel = elim (lookup tag sel.nodes) [
    | none ↦ (sel, pos 0, some no_node)
    | some p ↦
        let (s', added, err) = (core_at p).add_users tag users info (sel.states p) in
        (set_state p s' sel, added, err)
  ]

  -- GetUserTrafficSlice(tag, reset)
  unfoldable pub get_user_traffic_slice :
      String → Bool → Selector S → Selector S × List UserTraffic × Option String
  unfolding set_state
  get_user_traffic_slice tag reset sel = elim (lookup tag sel.nodes) [
    | none ↦ (sel, [], some no_node)
    | some p ↦
        let (s', traffic, err) = (core_at p).get_user_traffic_slice tag reset (sel.states p) in
        (set_state p s' sel, traffic, err)
  ]

  -- DelUsers(users, tag, info)
  unfoldable pub del_users :
      List UserInfo → String → NodeInfo N → Selector S → Selector S × Option String
  unfolding set_state
  del_users users tag info sel = elim (lookup tag sel.nodes) [
    | none ↦ (sel, some no_node)
    | some p ↦
        let (s', err) = (core_at p).del_users users tag info (sel.states p) in
        (set_state p s' sel, err)
  ]

  -- DelNode runs the core of the node and no other, with that core's error, and takes the node out of
  -- the table exactly if that core succeeds; the other nodes stay where they are.
  pub del_node_lem :
      (tag t : String) (q p : ℕ) (sel : Selector S)
      → lookup tag sel.nodes ≡ some p
      → let (s', e) = (core_at p).del_node tag (sel.states p) in
        let (sel', err) = del_node tag sel in
        (err ≡ e)
        × (sel'.states q ≡ (if q == p then s' else sel.states q))
        × (lookup t sel'.nodes ≡ (if tag == t && not (is_some e) then none else lookup t sel.nodes))
  unfolding del_node
  del_node_lem tag t q p sel h = ground (arith, eq_iff tag t, lookup-delete tag t sel.nodes)

  -- No operation reaches a core for a node that is not in the table: each is an error and changes
  -- nothing.
  pub unknown_node :
      (tag : String) (sel : Selector S) (users : List UserInfo) (info : NodeInfo N) (reset : Bool)
      → lookup tag sel.nodes ≡ none
      → (del_node tag sel ≡ (sel, some no_node))
        × (add_users tag users info sel ≡ (sel, pos 0, some no_node))
        × (get_user_traffic_slice tag reset sel ≡ (sel, [], some no_node))
        × (del_users users tag info sel ≡ (sel, some no_node))
  unfolding del_node add_users get_user_traffic_slice del_users
  unknown_node tag sel users info reset h =
      (rw (h, del_node), rw (h, add_users), rw (h, get_user_traffic_slice), rw (h, del_users))
