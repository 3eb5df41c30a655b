-- ===== src/Cores/Xray/Users.antt =====
-- field/xray/user.go and node.go: AddUsers, DelUsers, the traffic of the users, AddNode and DelNode.
pub mod Sync
use v2b_x_liusu.Prelude.{
  ℕ, String, Bool, true, false, List, [], ◌∷◌, ◌++◌, Option, none, some, if◌then◌else◌,
}
use Prim.Native.String.{◌++◌ as str_append}
use v2b_x_liusu.Prelude.Int.{ℤ, pos, mul64}
use v2b_x_liusu.Prelude.Eq.{◌==◌, string_eq}
use v2b_x_liusu.Dict.{Dict, lookup, insert, delete}
use v2b_x_liusu.Text.{user_tag}
use v2b_x_liusu.Panel.Types.{UserInfo, UserTraffic}
use v2b_x_liusu.Counter.{TrafficCounter, delete_counter}
use v2b_x_liusu.Selector.{Outcome, done, failed, panicked}
use v2b_x_liusu.Cores.Nodes.{Node}
use v2b_x_liusu.Cores.Traffic.{traffic_slice}
use v2b_x_liusu.Cores.Result.{Result, ok, err, crashed}
use v2b_x_liusu.Cores.Sing.Users.{put_uids}
use v2b_x_liusu.Cores.Xray.Options.{NodeOptions, Detour, Calls}
use v2b_x_liusu.Cores.Xray.Inbound.{Outbound, inbound_detour, outbound_detour}
use v2b_x_liusu.Cores.Xray.Accounts.{
  User, build_vmess_users, build_vless_users, build_trojan_users, build_ss_users,
}
use v2b_x_liusu.Cores.Xray.Links.{LinkManager, close_all}

-- The core: xray's instance, UserMap, the dispatcher's counters and links, and the least traffic to
-- report of each node. `closed_links` records the links that were closed and interrupted.
pub record Xray (W : Type 0) : Type 0 where
  pub server : W
  pub uid_map : Dict String ℤ
  pub counters : Dict String TrafficCounter
  pub link_managers : Dict String LinkManager
  pub closed_links : List (ℕ × ℕ)
  pub node_report_min_traffic_bytes : Dict String ℤ

-- What the inbound manager has under a tag.
pub data Handler : Type 0 where
  missing : String → Handler
  no_inbound no_user_manager managed : Handler

-- What the core calls of xray's instance. `M` is a user in memory, `T` the settings of a network. `update_dns` is
-- updateDNSConfig, which rewrites a file; `build_inbound` and `build_outbound` are the errors of Build.
pub record Server (W M T : Type 0) : Type 0 where
  pub get_handler : String → W → Handler
  pub to_memory_user : User → Result M
  pub add_user : String → M → W → W × Option String
  pub remove_user : String → String → W → W × Option String
  pub update_dns : Node → W → W × Option String
  pub build_inbound : Detour T → Option String
  pub build_outbound : Outbound → Option String
  pub add_inbound : Detour T → W → W × Option String
  pub add_outbound : Outbound → W → W × Option String
  pub remove_inbound : String → W → W × Option String
  pub remove_outbound : String → W → W × Option String
  pub lower : String → String

-- The early return of an error from a loop.
abbrev pub stop_or : {A : Type 0} → Option String → A → A × Outcome → A × Outcome
stop_or (some e) s rest = (s, failed e)
stop_or none s rest = rest

-- GetUserManager(tag): the error, if there is one.
unfoldable pub get_user_manager : String → Handler → Option String
get_user_manager tag (missing e) = some (str_append "no such inbound tag: " e)
get_user_manager tag no_inbound =
    some (str_append "handler " (str_append tag " is not implement proxy.GetInbound"))
get_user_manager tag no_user_manager =
    some (str_append "handler " (str_append tag " is not implement proxy.UserManager"))
get_user_manager tag managed = none

-- uidMap[email], 0 where there is no entry
unfoldable pub uid_of : Dict String ℤ → String → ℤ
uid_of uids email = elim (lookup email uids) [ none ↦ pos 0 | some id ↦ id ]

module _ {W : Type 0} where
  -- The id, the counters and the links of a user go; the links are closed.
  unfoldable pub forget : String → String → Xray W → Xray W
  unfolding close_all
  forget tag user s =
      let counters : Dict String TrafficCounter = elim (lookup tag s.counters) [
        | none ↦ s.counters
        | some c ↦ insert tag (delete_counter c user) s.counters
      ] in
      let closed : List (ℕ × ℕ) = elim (lookup user s.link_managers) [
        | none ↦ []
        | some m ↦ (close_all m).1
      ] in
      record s {
        uid_map = delete user s.uid_map;
        counters = counters;
        link_managers = delete user s.link_managers;
        closed_links = s.closed_links ++ closed;
      }

  unfoldable pub least_of : String → Xray W → ℤ
  least_of tag s = elim (lookup tag s.node_report_min_traffic_bytes) [ none ↦ pos 0 | some n ↦ n ]

  -- GetUserTrafficSlice(tag, reset), which has no error.
  unfoldable pub get_user_traffic_slice : String → Bool → Xray W → Xray W × List UserTraffic
  unfolding traffic_slice uid_of least_of
  get_user_traffic_slice tag reset s = elim (lookup tag s.counters) [
    | none ↦ (s, [])
    | some c ↦
        let (c', slice) = traffic_slice (least_of tag s) (uid_of s.uid_map) reset c in
        (record s { counters = insert tag c' s.counters }, slice)
  ]

module _ {W M T : Type 0} (server : Server W M T) where
  open server use {
    get_handler, to_memory_user, add_user, remove_user, update_dns, build_inbound, build_outbound,
    add_inbound, add_outbound, remove_inbound, remove_outbound, lower,
  }

  -- The loop of DelUsers, from the users that are left.
  unfoldable pub remove_each : String → List UserInfo → Xray W → Xray W × Outcome
  unfolding forget user_tag
  remove_each tag [] s = (s, done)
  remove_each tag (u ∷ us) s =
      let user = user_tag tag u.uuid in
      let (w, result) = remove_user tag user s.server in
      let s' : Xray W = record s { server = w } in
      let rest = remove_each tag us (forget tag user s') in stop_or result s' rest

  -- DelUsers(users, tag, info)
  unfoldable pub del_users : List UserInfo → String → Xray W → Xray W × Outcome
  unfolding get_user_manager remove_each
  del_users users tag s = elim (get_user_manager tag (get_handler tag s.server)) [
    | some e ↦ (s, failed (str_append "get user manager error: " e))
    | none ↦ remove_each tag users s
  ]

  -- The switch of AddUsers on the node's type.
  unfoldable pub build_users : String → List UserInfo → Node → Result (List User)
  unfolding build_vmess_users build_vless_users build_trojan_users build_ss_users
  build_users tag users info =
      if info.type == "vmess"
      then ok (build_vmess_users tag users)
      else if info.type == "vless"
      then (elim info.origin.v_allss [
        | none ↦ crashed
        | some v ↦ ok (build_vless_users tag users v.flow)
      ])
      else if info.type == "trojan"
      then ok (build_trojan_users tag users)
      else if info.type == "shadowsocks"
      then (elim info.origin.shadowsocks [
        | none ↦ crashed
        | some n ↦ elim (build_ss_users lower tag n.cipher n.server_key users) [
          | none ↦ crashed
          | some built ↦ ok built
        ]
      ])
      else err (str_append "unsupported node type: " info.type)

  -- The loop of AddUsers over xray's users.
  unfoldable pub add_each : String → List User → W → W × Outcome
  add_each tag [] w = (w, done)
  add_each tag (u ∷ us) w = elim (to_memory_user u) [
    | err e ↦ (w, failed e)
    | crashed ↦ (w, panicked)
    | ok m ↦
        let (w', result) = add_user tag m w in
        let rest = add_each tag us w' in stop_or result w' rest
  ]

  -- AddUsers(p). The ids are stored before anything else.
  unfoldable pub add_users : String → List UserInfo → Node → Xray W → Xray W × Outcome
  unfolding put_uids build_users get_user_manager add_each
  add_users tag users info s =
      let s' : Xray W = record s { uid_map = put_uids tag users s.uid_map } in
      elim (build_users tag users info) [
        | err e ↦ (s', failed e)
        | crashed ↦ (s', panicked)
        | ok built ↦ elim (get_user_manager tag (get_handler tag s.server)) [
          | some e ↦ (s', failed (str_append "get user manager error: " e))
          | none ↦
              let (w, result) = add_each tag built s.server in (record s' { server = w }, result)
        ]
      ]

  -- An error with a text in front, or the rest of the function on the state that the call leaves.
  unfoldable pub try_call :
      String → Xray W → W × Option String → (Xray W → Xray W × Outcome) → Xray W × Outcome
  try_call text s (w, some e) rest = (record s { server = w }, failed (str_append text e))
  try_call text s (w, none) rest = rest (record s { server = w })

  -- AddNode(tag, info, config)
  unfoldable pub add_node : Calls T → String → Node → NodeOptions → Xray W → Xray W × Outcome
  unfolding try_call inbound_detour outbound_detour
  add_node calls tag info config s =
      let s0 : Xray W = record s {
        node_report_min_traffic_bytes =
            insert tag (mul64 config.report_min_traffic (pos 1024)) s.node_report_min_traffic_bytes;
      } in
      try_call "build dns error: " s0 (update_dns info s0.server) (λ s1.
        elim (inbound_detour calls config info tag) [
          | err e ↦ (s1, failed (str_append "build inbound error: " e))
          | crashed ↦ (s1, panicked)
          | ok d ↦
              try_call "build inbound error: " s1 (s1.server, build_inbound d)
                (λ s2. try_call "add inbound error: " s2 (add_inbound d s2.server) (λ s3.
                  let out = outbound_detour config tag in
                  try_call "build outbound error: " s3 (s3.server, build_outbound out)
                    (λ s4.
                      try_call "add outbound error: " s4 (add_outbound out s4.server)
                        (λ s5. (s5, done)))))
        ])

  -- DelNode(tag)
  unfoldable pub del_node : String → Xray W → Xray W × Outcome
  unfolding try_call
  del_node tag s =
      try_call "remove in error: " s (remove_inbound tag s.server)
        (λ s1. try_call "remove out error: " s1 (remove_outbound tag s1.server) (λ s2. (s2, done)))
