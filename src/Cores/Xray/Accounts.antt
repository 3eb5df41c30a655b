-- ===== src/Cores/Xray/Accounts.antt =====
-- field/xray/vmess.go, trojan.go and ss.go: the users of a node as xray takes them.
use v2b_x_liusu.Prelude.{ℕ, String, ◌||◌, List, Option, none, some, map, if◌then◌else◌}
use v2b_x_liusu.Prelude.Eq.{◌==◌, string_eq}
use v2b_x_liusu.Text.{user_tag}
use v2b_x_liusu.Panel.Types.{UserInfo}
use v2b_x_liusu.Cores.Sing.Inbounds.{encode_prefix, each}

-- shadowsocks.CipherType
pub data CipherType : Type 0 where
  aes_128_gcm aes_256_gcm chacha20_poly1305 no_cipher unknown : CipherType

-- The accounts, with the fields that are set.
pub data Account : Type 0 where
  vmess_account : (id security : String) → Account
  vless_account : (id flow : String) → Account
  trojan_account : (password : String) → Account
  ss_account : (password : String) (cipher_type : CipherType) → Account
  ss_2022_account : (key : String) → Account

-- protocol.User, whose level is 0.
pub record User : Type 0 where
  pub email : String
  pub account : Account

-- buildVmessUsers(tag, userInfo)
unfoldable pub build_vmess_users : String → List UserInfo → List User
unfolding user_tag
build_vmess_users tag = map (λ (u : UserInfo). record {
  email = user_tag tag u.uuid;
  account = vmess_account u.uuid "auto";
})

-- buildVlessUsers(tag, userInfo, flow)
unfoldable pub build_vless_users : String → List UserInfo → String → List User
unfolding user_tag
build_vless_users tag users flow =
    map
      (λ (u : UserInfo). record {
        email = user_tag tag u.uuid;
        account = vless_account u.uuid flow;
      })
      users

-- buildTrojanUsers(tag, userInfo)
unfoldable pub build_trojan_users : String → List UserInfo → List User
unfolding user_tag
build_trojan_users tag =
    map (λ (u : UserInfo). record { email = user_tag tag u.uuid; account = trojan_account u.uuid })

-- getCipherFromString(c), from the text in lower case.
unfoldable pub get_cipher_from_string : String → CipherType
get_cipher_from_string c =
    if c == "aes-128-gcm" || c == "aead_aes_128_gcm"
    then aes_128_gcm
    else if c == "aes-256-gcm" || c == "aead_aes_256_gcm"
    then aes_256_gcm
    else if c == "chacha20-poly1305"
        || c == "aead_chacha20_poly1305"
        || c == "chacha20-ietf-poly1305"
    then chacha20_poly1305
    else if c == "none" || c == "plain"
    then no_cipher
    else unknown

-- keyLength, which stays 0 for other ciphers.
abbrev pub key_length : String → ℕ
key_length cypher =
    if cypher == "2022-blake3-aes-128-gcm"
    then 16
    else if cypher == "2022-blake3-aes-256-gcm" || cypher == "2022-blake3-chacha20-poly1305"
    then 32
    else 0

-- buildSSUser(tag, userInfo, cypher, serverKey); `none` is the panic of a UUID that is too short.
-- `lower` is strings.ToLower.
unfoldable pub build_ss_user : (String → String) → String → String → String → UserInfo → Option User
unfolding get_cipher_from_string encode_prefix user_tag
build_ss_user lower tag cypher server_key u =
    if server_key == ""
    then some (record {
      email = user_tag tag u.uuid;
      account = ss_account u.uuid (get_cipher_from_string (lower cypher));
    })
    else (elim (encode_prefix (key_length cypher) u.uuid) [
      | none ↦ none
      | some key ↦ some (record { email = user_tag tag u.uuid; account = ss_2022_account key })
    ])

-- The loop of buildSSUsers(tag, userInfo, cypher, serverKey)
unfoldable pub build_ss_users :
    (String → String) → String → String → String → List UserInfo → Option (List User)
unfolding build_ss_user each
build_ss_users lower tag cypher server_key = each (build_ss_user lower tag cypher server_key)
