-- ===== src/Secret.antt =====
-- base/secret/apikey.go: the key of the panel, encrypted in the configuration by a secret of the machine.
pub mod RoundTrip
use v2b_x_liusu.Prelude.{
  ℕ, zero, suc, String, Bool, true, false, List, [], ◌∷◌, ◌++◌, Option, none, some, is_some, not,
  if◌then◌else◌,
}
use Prim.Native.String.{◌++◌ as str_append}
use v2b_x_liusu.Prelude.Eq.{◌==◌, string_eq}
use v2b_x_liusu.Dict.{Dict, lookup, insert}
use v2b_x_liusu.Text.{cut_prefix, trim_prefix}
use v2b_x_liusu.Text.Base64.{encode, url_alphabet}

-- apiKeyCipherPrefix
abbrev pub api_key_cipher_prefix : String
api_key_cipher_prefix = "enc:v1:"

-- A value, or the text of the error.
pub data Checked (A : Type 0) : Type 0 where
  good : A → Checked A
  bad : String → Checked A

-- What the package calls of crypto and encoding: `new_gcm` is aes.NewCipher and cipher.NewGCM, `seal` and
-- `open_sealed` the methods of the result `G`, between the bytes of a text and the sealed bytes.
-- `decode` is DecodeString of
-- base64.RawURLEncoding, whose EncodeToString is `encode`.
pub record Crypto (G : Type 0) : Type 0 where
  pub trim_space : String → String
  pub sum256 : String → List ℕ
  pub new_gcm : List ℕ → Checked G
  pub nonce_size : G → ℕ
  pub seal : G → List ℕ → String → List ℕ
  pub open_sealed : G → List ℕ → List ℕ → Checked String
  pub decode : String → Checked (List ℕ)

-- payload[:n] and payload[n:]; `none` where the payload is shorter.
unfoldable pub split_at : ℕ → List ℕ → Option (List ℕ × List ℕ)
split_at zero bytes = some ([], bytes)
split_at (suc n) [] = none
split_at (suc n) (b ∷ bytes) = elim (split_at n bytes) [
  | none ↦ none
  | some (front, back) ↦ some (b ∷ front, back)
]

-- IsEncryptedAPIKey(value)
unfoldable pub is_encrypted_api_key : String → Bool
unfolding cut_prefix
is_encrypted_api_key value = is_some (cut_prefix value api_key_cipher_prefix)

-- RawURLEncoding.EncodeToString(b)
abbrev pub encode_url : List ℕ → String
encode_url b = encode url_alphabet "" b

-- The early return of an error, with a text in front.
abbrev pub check : {A B : Type 0} → String → Checked A → (A → Checked B) → Checked B
check text (good a) rest = rest a
check text (bad e) rest = bad (str_append text e)

module _ {G : Type 0} (crypto : Crypto G) where
  open crypto use {trim_space, sum256, new_gcm, nonce_size, seal, open_sealed, decode}

  -- deriveKey(secret)
  unfoldable pub derive_key : String → List ℕ
  derive_key secret = sum256 (trim_space secret)

  -- EncryptAPIKey(plainText, secret); `random n` is the `n` bytes that are read, or the error.
  unfoldable pub encrypt_api_key : (ℕ → Checked (List ℕ)) → String → String → Checked String
  unfolding derive_key
  encrypt_api_key random plain secret =
      let plain_text = trim_space plain in
      if plain_text == ""
      then bad "api key is empty"
      else check "" (new_gcm (derive_key secret)) (λ gcm.
        check "" (random (nonce_size gcm)) (λ nonce.
          good
            (str_append api_key_cipher_prefix (encode_url (nonce ++ seal gcm nonce plain_text)))))

  -- DecryptAPIKey(value, secret)
  unfoldable pub decrypt_api_key : String → String → Checked String
  unfolding derive_key is_encrypted_api_key trim_prefix split_at
  decrypt_api_key value secret =
      if is_encrypted_api_key value
      then check "decode encrypted api key error: "
          (decode (trim_prefix value api_key_cipher_prefix))
          (λ payload. check "" (new_gcm (derive_key secret)) (λ gcm.
            elim (split_at (nonce_size gcm) payload) [
              | none ↦ bad "encrypted api key payload is invalid"
              | some parts ↦
                  check "decrypt encrypted api key error: " (open_sealed gcm parts.0 parts.1) good
            ]))
      else good value

-- The machine: its environment, and what the calls of os and crypto/rand give; `mkdir_all` makes the
-- directory of a file.
pub record Machine : Type 0 where
  pub env : String → String
  pub mkdir_all : String → Option String
  pub random_key : Checked (List ℕ)
  pub write_error : String → Option String

-- The files that exist, with the error of one that cannot be read.
abbrev pub Files : Type 0
Files = Dict String (Checked String)

-- The name of the file that the secret is kept in.
unfoldable pub secret_file_name : (String → String) → String → Machine → String
secret_file_name trim_space secret_file m =
    let named = trim_space (m.env "QINGSU_API_KEY_SECRET_FILE") in
    if not (secret_file == "")
    then secret_file
    else if named == ""
    then "/etc/qingsu/apikey.secret"
    else named

-- A new secret is made and written.
unfoldable pub create_secret : String → Machine → Files → Files × Checked (String × String)
create_secret file m files = elim (m.mkdir_all file) [
  | some e ↦ (files, bad (str_append "create api key secret dir error: " e))
  | none ↦ elim m.random_key [
    | bad e ↦ (files, bad (str_append "generate api key secret error: " e))
    | good key ↦ elim (m.write_error file) [
      | some e ↦ (files, bad (str_append "write api key secret file error: " e))
      | none ↦
          (insert file (good (str_append (encode_url key) "\n")) files, good (encode_url key, file))
    ]
  ]
]

-- ResolveAPIKeySecret(secretFile, create): the secret and where it is from.
unfoldable pub resolve_api_key_secret :
    (String → String) → String → Bool → Machine → Files → Files × Checked (String × String)
unfolding secret_file_name create_secret
resolve_api_key_secret trim_space secret_file create m files =
    let value = trim_space (m.env "QINGSU_API_KEY_SECRET") in
    let file = secret_file_name trim_space secret_file m in
    if not (value == "")
    then (files, good (value, "env:QINGSU_API_KEY_SECRET"))
    else (elim (lookup file files) [
      | some (good text) ↦
          let secret = trim_space text in
          if secret == ""
          then (files, bad (str_append "api key secret file is empty: " file))
          else (files, good (secret, file))
      | some (bad e) ↦ (files, bad (str_append "read api key secret file error: " e))
      | none ↦
          let made = create_secret file m files in
          if create then made else (files, bad (str_append "api key secret file not found: " file))
    ])
