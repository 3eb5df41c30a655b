-- ===== src/Cores/Hysteria2/Users.antt =====
-- field/hy2/user.go, node.go and hy2.go: the users of the core and its nodes.
use v2b_x_liusu.Prelude.{String, Bool, List, [], ◌∷◌, Option, none, some}
use v2b_x_liusu.Prelude.Int.{ℤ, pos, mul64}
use v2b_x_liusu.Prelude.Eq.{string_eq}
use v2b_x_liusu.Dict.{Dict, lookup, insert, delete}
use v2b_x_liusu.Panel.Types.{UserInfo, UserTraffic}
use v2b_x_liusu.Selector.{Outcome, done, failed, panicked}
use v2b_x_liusu.Cores.Traffic.{traffic_slice}
use v2b_x_liusu.Cores.Sing.Users.{forget_counts}
use v2b_x_liusu.Cores.Hysteria2.{HookServer, Hysteria2node, Hysteria2}

-- usersMap[u.Uuid] = u.Id, in the order in which the goroutines take the lock.
unfoldable pub put_ids : List UserInfo → Dict String ℤ → Dict String ℤ
put_ids [] m = m
put_ids (u ∷ us) m = put_ids us (insert u.uuid u.id m)

-- delete(usersMap, u.Uuid), in the order in which the goroutines take the lock.
unfoldable pub drop_ids : List UserInfo → Dict String ℤ → Dict String ℤ
drop_ids [] m = m
drop_ids (u ∷ us) m = drop_ids us (delete u.uuid m)

-- usersMap[uuid], 0 where there is no entry
unfoldable pub id_of : Dict String ℤ → String → ℤ
id_of m uuid = elim (lookup uuid m) [ none ↦ pos 0 | some id ↦ id ]

module _ {S : Type 0} where
  -- Authenticate(addr, auth, tx): the id, where the user may connect.
  unfoldable pub authenticate : String → Hysteria2 S → Option String
  authenticate auth h = elim (lookup auth h.users_map) [ none ↦ none | some _ ↦ some auth ]

  -- AddUsers(p)
  unfoldable pub add_users : List UserInfo → Hysteria2 S → Hysteria2 S
  unfolding put_ids
  add_users users h = record h { users_map = put_ids users h.users_map }

  abbrev with_hook : String → Hysteria2node S → HookServer → Hysteria2 S → Hysteria2 S
  with_hook tag n hook h = record h {
    hy2nodes = insert tag (record n { traffic_logger = hook }) h.hy2nodes;
  }

  -- The counters of the users, where the node has some.
  unfoldable pub forget_users : String → List UserInfo → Hysteria2node S → Hysteria2 S → Hysteria2 S
  unfolding forget_counts
  forget_users tag users n h = elim (lookup tag n.traffic_logger.counter) [
    | none ↦ h
    | some c ↦
        let hook : HookServer = record n.traffic_logger {
          counter = insert tag (forget_counts users c) n.traffic_logger.counter;
        } in
        with_hook tag n hook h
  ]

  -- DelUsers(users, tag, info). A tag without a node has no hook, and the first user panics.
  unfoldable pub del_users : List UserInfo → String → Hysteria2 S → Hysteria2 S × Outcome
  unfolding forget_users drop_ids
  del_users [] tag h = (h, done)
  del_users (u ∷ us) tag h = elim (lookup tag h.hy2nodes) [
    | none ↦ (h, panicked)
    | some n ↦
        let h' = forget_users tag (u ∷ us) n h in
        (record h' { users_map = drop_ids (u ∷ us) h'.users_map }, done)
  ]

  -- GetUserTrafficSlice(tag, reset), which has no error.
  unfoldable pub get_user_traffic_slice :
      String → Bool → Hysteria2 S → Hysteria2 S × List UserTraffic
  unfolding traffic_slice id_of
  get_user_traffic_slice tag reset h = elim (lookup tag h.hy2nodes) [
    | none ↦ (h, [])
    | some n ↦ elim (lookup tag n.traffic_logger.counter) [
      | none ↦ (h, [])
      | some c ↦
          let hook = n.traffic_logger in
          let (c', slice) =
            traffic_slice hook.report_min_traffic_bytes (id_of h.users_map) reset c in
          (with_hook tag n (record hook { counter = insert tag c' hook.counter }) h, slice)
    ]
  ]

  -- AddNode(tag, info, config), with what getHyConfig and NewServer give: an error or a server.
  unfoldable pub add_node : String → ℤ → String × Option S → Hysteria2 S → Hysteria2 S × Outcome
  add_node tag report_min_traffic (error, none) h = (h, failed error)
  add_node tag report_min_traffic (error, some server) h =
      let n : Hysteria2node S = record {
        hy2server = server;
        traffic_logger = record {
          tag = tag;
          counter = [];
          report_min_traffic_bytes = mul64 report_min_traffic (pos 1024);
        };
      } in
      (record h { hy2nodes = insert tag n h.hy2nodes }, done)

  -- DelNode(tag); `close` is Close of a server. A tag without a node has no server to close.
  unfoldable pub del_node : (S → Option String) → String → Hysteria2 S → Hysteria2 S × Outcome
  del_node close tag h = elim (lookup tag h.hy2nodes) [
    | none ↦ (h, panicked)
    | some n ↦ elim (close n.hy2server) [
      | some e ↦ (h, failed e)
      | none ↦ (record h { hy2nodes = delete tag h.hy2nodes }, done)
    ]
  ]

  -- The loop of Close(), from the nodes that are left.
  unfoldable pub close_each : (S → Option String) → Dict String (Hysteria2node S) → Outcome
  close_each close [] = done
  close_each close ((tag, n) ∷ rest) =
      let closed = close_each close rest in
      elim (close n.hy2server) [ some e ↦ failed e | none ↦ closed ]
