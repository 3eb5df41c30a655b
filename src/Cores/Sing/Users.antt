-- ===== src/Cores/Sing/Users.antt =====
-- field/sing/user.go and node.go: AddUsers, DelUsers, the traffic of the users, and DelNode.
pub mod Lists
pub mod Maps
pub mod Sync
use v2b_x_liusu.Prelude.{
  ℕ, String, Bool, true, false, List, [], ◌∷◌, Option, none, some, if◌then◌else◌,
}
use Prim.Native.String.{◌++◌ as str_append}
use v2b_x_liusu.Prelude.Int.{ℤ, pos}
use v2b_x_liusu.Prelude.Eq.{string_eq}
use v2b_x_liusu.Dict.{Dict, lookup, insert, delete}
use v2b_x_liusu.Text.{user_tag}
use v2b_x_liusu.Panel.Types.{UserInfo, UserTraffic}
use v2b_x_liusu.Counter.{
  TrafficCounter, get_up_count, get_down_count, reset as reset_counter, delete_counter,
}
use v2b_x_liusu.Selector.{Outcome, done, failed, panicked}
use v2b_x_liusu.Cores.Nodes.{Node}
use v2b_x_liusu.Cores.Traffic.{traffic_slice}
use v2b_x_liusu.Cores.Sing.{Sing, Box}
use v2b_x_liusu.Cores.Sing.Sort.{sorted_tag_users}
use v2b_x_liusu.Cores.Sing.Inbounds.{refresh_inbound_users}

-- b.users.tagUsers[tag], cloned: no entry is an empty map.
unfoldable pub users_at : String → Dict String (Dict String UserInfo) → Dict String UserInfo
users_at tag tag_users = elim (lookup tag tag_users) [ none ↦ [] | some users ↦ users ]

-- nextUsers[user.Uuid] = user, for every user of the list
unfoldable pub put_users : List UserInfo → Dict String UserInfo → Dict String UserInfo
put_users [] m = m
put_users (u ∷ us) m = put_users us (insert u.uuid u m)

-- delete(nextUsers, user.Uuid)
unfoldable pub drop_users : List UserInfo → Dict String UserInfo → Dict String UserInfo
drop_users [] m = m
drop_users (u ∷ us) m = drop_users us (delete u.uuid m)

-- delete(b.users.uidMap, singUIDKey(tag, uuid)), for the keys of the old users
unfoldable pub drop_uids : String → Dict String UserInfo → Dict String ℤ → Dict String ℤ
drop_uids tag [] uids = uids
drop_uids tag ((uuid, u) ∷ old) uids = drop_uids tag old (delete (user_tag tag uuid) uids)

-- b.users.uidMap[singUIDKey(tag, user.Uuid)] = user.Id
unfoldable pub put_uids : String → List UserInfo → Dict String ℤ → Dict String ℤ
put_uids tag [] uids = uids
put_uids tag (u ∷ us) uids = put_uids tag us (insert (user_tag tag u.uuid) u.id uids)

-- The entry of the tag, which goes where no user is left.
unfoldable pub set_tag_users :
    String → List UserInfo → Dict String (Dict String UserInfo) → Dict String (Dict String UserInfo)
unfolding put_users
set_tag_users tag [] tag_users = delete tag tag_users
set_tag_users tag (u ∷ us) tag_users = insert tag (put_users (u ∷ us) []) tag_users

-- c.Delete(user.Uuid), for every user of the list
unfoldable pub forget_counts : List UserInfo → TrafficCounter → TrafficCounter
forget_counts [] c = c
forget_counts (u ∷ us) c = forget_counts us (delete_counter c u.uuid)

-- b.users.uidMap[key], 0 where there is no entry
unfoldable pub uid_of : Dict String ℤ → String → String → ℤ
uid_of uids tag uuid = elim (lookup (user_tag tag uuid) uids) [ none ↦ pos 0 | some id ↦ id ]

module _ {W : Type 0} where
  -- replaceTagUsers(tag, oldUsers, newUsers)
  unfoldable pub replace_tag_users : String → Dict String UserInfo → List UserInfo → Sing W → Sing W
  unfolding set_tag_users put_uids drop_uids
  replace_tag_users tag old new s = record s {
    tag_users = set_tag_users tag new s.tag_users;
    uid_map = put_uids tag new (drop_uids tag old s.uid_map);
  }

  -- The counters of the tag, where there are some.
  unfoldable pub forget_users : String → List UserInfo → Sing W → Sing W
  unfolding forget_counts
  forget_users tag users s = elim (lookup tag s.counters) [
    | none ↦ s
    | some c ↦ record s { counters = insert tag (forget_counts users c) s.counters }
  ]

module _ {W U : Type 0} (box : Box W U) where
  -- The inbound gets the users of `next`; only where it takes them they become those of the tag.
  unfoldable pub set_users : String → Node → Dict String UserInfo → Sing W → Sing W × Outcome
  unfolding refresh_inbound_users sorted_tag_users replace_tag_users users_at
  set_users tag n next s =
      let users = sorted_tag_users next in
      let (w, result) = refresh_inbound_users box tag n users s.box in
      elim result [
        | done ↦
            (replace_tag_users tag (users_at tag s.tag_users) users (record s { box = w }), done)
        | failed e ↦ (record s { box = w }, failed e)
        | panicked ↦ (record s { box = w }, panicked)
      ]

  -- AddUsers(p); it gives the number of users of the call.
  unfoldable pub add_users : String → List UserInfo → Node → Sing W → Sing W × Outcome
  unfolding set_users put_users
  add_users tag users n s = set_users tag n (put_users users (users_at tag s.tag_users)) s

  -- DelUsers(users, tag, info)
  unfoldable pub del_users : List UserInfo → String → Node → Sing W → Sing W × Outcome
  unfolding set_users drop_users forget_users
  del_users users tag n s =
      let (s', result) = set_users tag n (drop_users users (users_at tag s.tag_users)) s in
      elim result [
        | done ↦ (forget_users tag users s', done)
        | failed e ↦ (s', failed e)
        | panicked ↦ (s', panicked)
      ]

  -- DelNode(tag), of node.go. The maps are cleared before the inbound is removed, which may fail.
  unfoldable pub del_node : String → Sing W → Sing W × Outcome
  unfolding drop_uids users_at
  del_node tag s =
      let (w, err) = box.remove tag s.box in
      let s' : Sing W = record {
        box = w;
        counters = delete tag s.counters;
        uid_map = drop_uids tag (users_at tag s.tag_users) s.uid_map;
        tag_users = delete tag s.tag_users;
        node_report_min_traffic_bytes = delete tag s.node_report_min_traffic_bytes;
      } in
      elim err [ none ↦ (s', done) | some e ↦ (s', failed (str_append "delete inbound error: " e)) ]

module _ {W : Type 0} where
  unfoldable pub least_of : String → Sing W → ℤ
  least_of tag s = elim (lookup tag s.node_report_min_traffic_bytes) [ none ↦ pos 0 | some n ↦ n ]

  -- GetUserTrafficSlice(tag, reset), which has no error.
  unfoldable pub get_user_traffic_slice : String → Bool → Sing W → Sing W × List UserTraffic
  unfolding traffic_slice uid_of least_of
  get_user_traffic_slice tag reset s = elim (lookup tag s.counters) [
    | none ↦ (s, [])
    | some c ↦
        let (c', slice) = traffic_slice (least_of tag s) (uid_of s.uid_map tag) reset c in
        (record s { counters = insert tag c' s.counters }, slice)
  ]

  -- GetUserTraffic(tag, uuid, reset)
  unfoldable pub get_user_traffic : String → String → Bool → Sing W → Sing W × ℤ × ℤ
  unfolding get_up_count get_down_count reset_counter
  get_user_traffic tag uuid reset s = elim (lookup tag s.counters) [
    | none ↦ (s, pos 0, pos 0)
    | some c ↦ (
      if reset then record s { counters = insert tag (reset_counter c uuid) s.counters } else s,
      get_up_count c uuid,
      get_down_count c uuid,
    )
  ]
