-- ===== src/Panel/Users.antt =====
-- mirror/panel/user.go, GetUserList. The HTTP client enters by its reply, the decoders of msgpack and
-- of JSON by what they read.
pub mod Reads
pub mod Ends
use v2b_x_liusu.Prelude.{
  ◌≡◌, refl, ◌⊎◌, inl, inr, ℕ, zero, suc, ◌<◌, ◌≤◌, ◌+◌, String, Bool, true, false, List, [], ◌∷◌,
  Option, none, some, if◌then◌else◌, leb, arith,
}
use Prim.Native.String.{◌++◌ as str_append}
use v2b_x_liusu.Prelude.Eq.{◌==◌, nat_eq}
use v2b_x_liusu.Text.{contains}
use v2b_x_liusu.Panel.Types.{UserInfo}
use v2b_x_liusu.Panel.Fetch.{Fetched, fetched, failed}

-- A token, as far as the code looks at it.
pub data Token : Type 0 where
  users_name opens_array other : Token

-- jsontext.Decoder over what is left of a body, with json.Unmarshal of a value that it read; an error
-- is its text. `left` is the number of bytes that are not read yet.
pub record Decoder (D V : Type 0) : Type 0 where
  pub read_token : D → (String ⊎ Token) × D
  pub peeks_end : D → Bool
  pub read_value : D → (String ⊎ V) × D
  pub unmarshal : V → String ⊎ UserInfo
  pub left : D → ℕ

-- RawResponse and its headers; both decoders start at the body.
pub record RawResponse (D : Type 0) : Type 0 where
  pub etag : String
  pub content_type : String
  pub msgpack : String ⊎ List UserInfo
  pub body : D

-- What a request comes to; `text` is Body().
pub data UsersReply (D : Type 0) : Type 0 where
  broken : String → UsersReply D
  answered : (status : ℕ) (text : String) (raw : Option (RawResponse D)) → UsersReply D

abbrev pub list_error : String → String
list_error e = str_append "decode user list error: " e

-- An error, or what a function by clauses does with the value.
abbrev pub or_error :
    {A B : Type 0}
    → (String → String)
    → String ⊎ A
    → (A → Option (String ⊎ B))
    → Option (String ⊎ B)
or_error text (inl e) rest = some (inl (text e))
or_error text (inr a) rest = rest a

abbrev pub is_users_name : Token → Bool
is_users_name users_name = true
is_users_name _ = false

abbrev pub is_array : Token → Bool
is_array opens_array = true
is_array _ = false

abbrev pub prepend : UserInfo → Option (String ⊎ List UserInfo) → Option (String ⊎ List UserInfo)
prepend u none = none
prepend u (some (inl e)) = some (inl e)
prepend u (some (inr us)) = some (inr (u ∷ us))

-- The body of a reply, and the ETag after it.
abbrev pub keep_etag :
    String → String → Option (String ⊎ List UserInfo) → Option (String × Fetched (List UserInfo))
keep_etag old new none = none
keep_etag old new (some (inl e)) = some (old, failed e)
keep_etag old new (some (inr us)) = some (new, fetched us)

module _ {D V : Type 0} (dec : Decoder D V) where
  -- The loop that looks for the name "users", on fuel; what is left of the body behind it.
  unfoldable pub find_users : ℕ → D → Option (String ⊎ D)
  find_users zero d = none
  find_users (suc fuel) d =
      let d' = (dec.read_token d).1 in
      let rest = find_users fuel d' in
      or_error list_error (dec.read_token d).0
        (λ t. if is_users_name t then some (inr d') else rest)

  -- The loop over the objects of the array, on fuel.
  unfoldable pub read_users : ℕ → D → Option (String ⊎ List UserInfo)
  read_users zero d = none
  read_users (suc fuel) d =
      let rest = read_users fuel (dec.read_value d).1 in
      if dec.peeks_end d
      then some (inr [])
      else or_error (λ e. list_error (str_append "read user object: " e)) (dec.read_value d).0
          (λ v.
            or_error (λ e. list_error (str_append "unmarshal user error: " e)) (dec.unmarshal v)
              (λ u. prepend u rest))

  -- The array behind the name.
  unfoldable pub read_array : D → Option (String ⊎ List UserInfo)
  unfolding read_users
  read_array d =
      let d' = (dec.read_token d).1 in
      or_error list_error (dec.read_token d).0 (λ t.
        if is_array t
        then read_users (suc (dec.left d')) d'
        else some (inl (list_error "expected \"users\" array")))

  -- The users of a body in JSON.
  unfoldable pub decode_json : D → Option (String ⊎ List UserInfo)
  unfolding find_users read_array
  decode_json d = elim (find_users (suc (dec.left d)) d) [
    | none ↦ none
    | some found ↦ or_error (λ e. e) found read_array
  ]

  -- The users of a body, in the format that its header names.
  unfoldable pub decode_users : RawResponse D → Option (String ⊎ List UserInfo)
  unfolding decode_json
  decode_users raw =
      if contains raw.content_type "application/x-msgpack"
      then or_error list_error raw.msgpack (λ us. some (inr us))
      else decode_json raw.body

  module _ (request_failed : String → String) (empty_raw_response : String) where
    -- GetUserList(), for the reply to its request and the ETag that is kept; nil is the empty list.
    unfoldable pub get_user_list : UsersReply D → String → Option (String × Fetched (List UserInfo))
    unfolding decode_users
    get_user_list (broken e) kept = some (kept, failed (request_failed e))
    get_user_list (answered status text none) kept =
        if leb 400 status
        then some (kept, failed (request_failed text))
        else some (kept, failed empty_raw_response)
    get_user_list (answered status text (some raw)) kept =
        if leb 400 status
        then some (kept, failed (request_failed text))
        else if status == 304
        then some (kept, fetched [])
        else keep_etag kept raw.etag (decode_users raw)
