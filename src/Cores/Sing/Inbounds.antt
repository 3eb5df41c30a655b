-- ===== src/Cores/Sing/Inbounds.antt =====
-- field/sing/user.go, refreshInboundUsers: an inbound gets its whole list of users at once.
use v2b_x_liusu.Prelude.{
  ◌⊎◌, inl, inr, ℕ, zero, suc, String, Bool, not, ◌&&◌, ◌||◌, List, [], ◌∷◌, Option, none, some,
  map, if◌then◌else◌,
}
use Prim.Native.String.{◌++◌ as str_append}
use v2b_x_liusu.Prelude.Eq.{◌==◌, string_eq}
use v2b_x_liusu.Text.Base64.{bytes, encode, std_alphabet}
use v2b_x_liusu.Panel.Types.{UserInfo}
use v2b_x_liusu.Selector.{Outcome, done, failed, panicked}
use v2b_x_liusu.Cores.Nodes.{Node}
use v2b_x_liusu.Cores.Sing.{
  Box, Update, vless_users, vmess_users, shadowsocks_users, password_users, tuic_users,
  anytls_users, Field, vless_list, vmess_list, trojan_list, authenticator, names,
}
use v2b_x_liusu.Cores.Sing.Sort.{indexes_from}

abbrev pub uuids : List UserInfo → List String
uuids = map (λ (u : UserInfo). u.uuid)

-- The UUID as name and password, or as name and UUID, of each user.
abbrev pub pairs : List UserInfo → List (String × String)
pairs = map (λ (u : UserInfo). (u.uuid, u.uuid))

-- userIndexes(len(users))
abbrev pub user_indexes : List UserInfo → List ℕ
user_indexes = indexes_from 0

-- password[:n]; `none` is a panic.
unfoldable pub prefix_bytes : ℕ → List ℕ → Option (List ℕ)
prefix_bytes zero s = some []
prefix_bytes (suc n) [] = none
prefix_bytes (suc n) (b ∷ s) = elim (prefix_bytes n s) [ none ↦ none | some p ↦ some (b ∷ p) ]

unfoldable pub encode_prefix : ℕ → String → Option String
unfolding prefix_bytes encode
encode_prefix n password = elim (prefix_bytes n (bytes password)) [
  | none ↦ none
  | some p ↦ some (encode std_alphabet "=" p)
]

-- shadowsocksPassword(cipher, password)
unfoldable pub shadowsocks_password : String → String → Option String
unfolding encode_prefix
shadowsocks_password cipher password =
    if cipher == "2022-blake3-aes-128-gcm"
    then encode_prefix 16 password
    else if cipher == "2022-blake3-aes-256-gcm"
    then encode_prefix 32 password
    else some password

-- A function of every user; one that panics ends the loop.
unfoldable pub each : {A : Type 0} → (UserInfo → Option A) → List UserInfo → Option (List A)
each f [] = some []
each f (u ∷ us) = elim (f u) [
  | none ↦ none
  | some a ↦ elim (each f us) [ none ↦ none | some as' ↦ some (a ∷ as') ]
]

-- nodeInfo.VAllss.Flow, nodeInfo.Shadowsocks.Cipher; nil panics.
abbrev pub flow_of : Node → UserInfo → Option String
flow_of n u = elim n.origin.v_allss [ none ↦ none | some p ↦ some p.flow ]

abbrev pub password_of : Node → UserInfo → Option String
password_of n u = elim n.origin.shadowsocks [
  | none ↦ none
  | some p ↦ shadowsocks_password p.cipher u.uuid
]

abbrev pub with_flows : List UserInfo → List String → List (String × (String × String))
with_flows (u ∷ us) (flow ∷ flows) = (u.uuid, (flow, u.uuid)) ∷ with_flows us flows
with_flows _ _ = []

-- nil, or the error.
abbrev pub outcome : Option String → Outcome
outcome none = done
outcome (some e) = failed e

-- panelUsers(users); `random` stands for the user that no one knows.
unfoldable pub panel_users : String → List UserInfo → List (String × String)
panel_users random [] = (random, random) ∷ []
panel_users random (u ∷ us) = pairs (u ∷ us)

-- Whether the switch has a branch for the type.
unfoldable pub has_branch : String → Bool
has_branch type =
    type == "vless"
    || type == "vmess"
    || type == "shadowsocks"
    || type == "trojan"
    || type == "tuic"
    || type == "hysteria"
    || type == "hysteria2"
    || type == "anytls"
    || type == "socks"
    || type == "http"
    || type == "naive"

module _ {W U : Type 0} (box : Box W U) where
  -- callUnsafeFieldMethod, and setUnsafeField behind it.
  unfoldable pub update_and_set : String → Update U → Field → W → W × Outcome
  update_and_set tag update field w =
      let (w', err) = box.update tag update w in
      elim err [
        | some e ↦ (w', failed e)
        | none ↦ (let (w'', err') = box.set_field tag field w' in (w'', outcome err'))
      ]

  unfoldable pub only_update : String → Update U → W → W × Outcome
  only_update tag update w = let (w', err) = box.update tag update w in (w', outcome err)

  unfoldable pub only_set : String → Field → W → W × Outcome
  only_set tag field w = let (w', err) = box.set_field tag field w in (w', outcome err)

  -- The branches of the switch that build lists, which may panic or fail before the call.
  unfoldable pub refresh_vless : String → Node → List UserInfo → W → W × Outcome
  unfolding update_and_set each
  refresh_vless tag n users w = elim (each (flow_of n) users) [
    | none ↦ (w, panicked)
    | some flows ↦
        update_and_set tag (vless_users (user_indexes users) (uuids users) flows)
          (vless_list (with_flows users flows)) w
  ]

  unfoldable pub refresh_shadowsocks : String → Node → List UserInfo → W → W × Outcome
  unfolding only_update each
  refresh_shadowsocks tag n users w = elim (each (password_of n) users) [
    | none ↦ (w, panicked)
    | some passwords ↦ only_update tag (shadowsocks_users (uuids users) passwords) w
  ]

  -- tuicUUIDs(users)
  unfoldable pub tuic_uuids : List UserInfo → String ⊎ List U
  tuic_uuids [] = inr []
  tuic_uuids (u ∷ us) = elim (box.parse_uuid u.uuid) [
    | inl e ↦ inl (str_append "invalid uuid " (str_append (box.quote u.uuid) (str_append ": " e)))
    | inr parsed ↦ elim (tuic_uuids us) [ inl e ↦ inl e | inr rest ↦ inr (parsed ∷ rest) ]
  ]

  unfoldable pub refresh_tuic : String → List UserInfo → W → W × Outcome
  unfolding update_and_set tuic_uuids
  refresh_tuic tag users w = elim (tuic_uuids users) [
    | inl e ↦ (w, failed e)
    | inr parsed ↦
        update_and_set tag (tuic_users (user_indexes users) parsed (uuids users))
          (names (uuids users)) w
  ]

  -- The switch on the node's type.
  unfoldable pub refresh_by_type : String → Node → List UserInfo → W → W × Outcome
  unfolding refresh_vless refresh_shadowsocks refresh_tuic update_and_set only_update only_set
      panel_users
  refresh_by_type tag n users w =
      if n.type == "vless"
      then refresh_vless tag n users w
      else if n.type == "vmess"
      then update_and_set tag
          (vmess_users (user_indexes users) (uuids users) (map (λ (u : UserInfo). 0) users))
          (vmess_list (pairs users)) w
      else if n.type == "shadowsocks"
      then refresh_shadowsocks tag n users w
      else if n.type == "trojan"
      then update_and_set tag (password_users (user_indexes users) (uuids users))
          (trojan_list (pairs users)) w
      else if n.type == "tuic"
      then refresh_tuic tag users w
      else if n.type == "hysteria" || n.type == "hysteria2"
      then update_and_set tag (password_users (user_indexes users) (uuids users))
          (names (uuids users)) w
      else if n.type == "anytls"
      then only_update tag (anytls_users (pairs users)) w
      else if n.type == "socks" || n.type == "http" || n.type == "naive"
      then only_set tag (authenticator (panel_users box.random_password users)) w
      else (w, failed (str_append "unsupported sing node type: " n.type))

  -- An inbound of another type than the node's: the assertion of the branch panics. Only the branch
  -- of tuic can fail before it.
  unfoldable pub refresh_mismatch : Node → List UserInfo → Outcome
  unfolding tuic_uuids
  refresh_mismatch n users =
      if n.type == "tuic"
      then (elim (tuic_uuids users) [ inl e ↦ failed e | inr parsed ↦ panicked ])
      else panicked

  -- refreshInboundUsers(tag, nodeInfo, users)
  unfoldable pub refresh_inbound_users : String → Node → List UserInfo → W → W × Outcome
  unfolding refresh_by_type refresh_mismatch has_branch
  refresh_inbound_users tag n users w = elim (box.inbound_type tag w) [
    | none ↦ (w, failed "the inbound not found")
    | some type ↦
        if has_branch n.type && not (type == n.type)
        then (w, refresh_mismatch n users)
        else refresh_by_type tag n users w
  ]
