-- ===== src/Secret/RoundTrip.antt =====
-- base/secret/apikey.go: what is encrypted is decrypted again, and a secret that is made is found again.
use v2b_x_liusu.Prelude.{
  ◌≡◌, refl, sym, ap, ◌∙◌, ℕ, String, Bool, true, false, List, [], ◌∷◌, ◌++◌, none, some, length,
}
use Prim.Native.String.{◌++◌ as str_append}
use v2b_x_liusu.Prelude.Eq.{◌==◌, string_eq}
use v2b_x_liusu.Dict.{lookup, insert, lookup-insert_self}
use v2b_x_liusu.Text.{cut_prefix-append, trim_prefix}
use v2b_x_liusu.Secret.{
  api_key_cipher_prefix, Checked, good, Crypto, split_at, is_encrypted_api_key, encode_url, check,
  derive_key, encrypt_api_key, decrypt_api_key, Machine, Files, secret_file_name, create_secret,
  resolve_api_key_secret,
}

-- The nonce that stands in front of the sealed bytes.
split_at-append :
    (front back : List ℕ) → split_at (length front) (front ++ back) ≡ some (front, back)
unfolding split_at
split_at-append [] back = refl
split_at-append (b ∷ front) back = rw (split_at-append front back) refl

module _ {G : Type 0} (crypto : Crypto G) (random : ℕ → Checked (List ℕ)) (plain secret : String)
    (gcm : G) (nonce : List ℕ) where
  -- A key that is not blank is encrypted to a value with the mark of an encrypted key, which
  -- DecryptAPIKey with the same secret turns into the key without the space around it. The cipher is
  -- made of the secret, a nonce of its size is read, the base64 of the payload decodes to the payload
  -- and the cipher opens what it has sealed.
  pub encrypt_api_key-decrypt_api_key :
      (crypto.trim_space plain == "") ≡ false
      → crypto.new_gcm (derive_key crypto secret) ≡ good gcm
      → random (crypto.nonce_size gcm) ≡ good nonce
      → length nonce ≡ crypto.nonce_size gcm
      → let sealed = crypto.seal gcm nonce (crypto.trim_space plain) in
        crypto.decode (encode_url (nonce ++ sealed)) ≡ good (nonce ++ sealed)
        → crypto.open_sealed gcm nonce sealed ≡ good (crypto.trim_space plain)
        → let value = str_append api_key_cipher_prefix (encode_url (nonce ++ sealed)) in
          (encrypt_api_key crypto random plain secret ≡ good value)
          × (is_encrypted_api_key value ≡ true)
          × (decrypt_api_key crypto value secret ≡ good (crypto.trim_space plain))
  unfolding encrypt_api_key decrypt_api_key is_encrypted_api_key trim_prefix
  encrypt_api_key-decrypt_api_key filled made read size decodes opens =
      let sealed = crypto.seal gcm nonce (crypto.trim_space plain) in
      let parts : split_at (crypto.nonce_size gcm) (nonce ++ sealed) ≡ some (nonce, sealed) =
        ap (λ n. split_at n (nonce ++ sealed)) (sym size) ∙ split_at-append nonce sealed in
      let text = encode_url (nonce ++ sealed) in
      let cut = cut_prefix-append api_key_cipher_prefix text in
      let marked : is_encrypted_api_key (str_append api_key_cipher_prefix text) ≡ true =
        rw (cut, is_encrypted_api_key) refl in
      let bare : trim_prefix (str_append api_key_cipher_prefix text) api_key_cipher_prefix ≡ text =
        rw (cut, trim_prefix) refl in
      (
        rw (filled, made, read, encrypt_api_key) refl,
        marked,
        rw (marked, bare, decodes, decrypt_api_key)
            (rw (made) (rw (parts, check) (rw (opens) refl))),
      )

module _ (trim_space : String → String) (named : String) (m : Machine) (files : Files)
    (key : List ℕ) where
  abbrev file : String
  file = secret_file_name trim_space named m

  -- Where no secret is in the environment and the file is not there, the secret that is made and
  -- written is found again by every later call, with or without leave to make one.
  pub resolve_api_key_secret-resolve_api_key_secret :
      (again : Bool)
      → (trim_space (m.env "QINGSU_API_KEY_SECRET") == "") ≡ true
      → lookup file files ≡ none
      → m.mkdir_all file ≡ none
      → m.random_key ≡ good key
      → m.write_error file ≡ none
      → trim_space (str_append (encode_url key) "\n") ≡ encode_url key
      → (encode_url key == "") ≡ false
      → let (files', result) = resolve_api_key_secret trim_space named true m files in
        (result ≡ good (encode_url key, file))
        × (resolve_api_key_secret trim_space named again m files'
            ≡ (files', good (encode_url key, file)))
  unfolding resolve_api_key_secret create_secret
  resolve_api_key_secret-resolve_api_key_secret again unset absent' dir random written trims
        filled =
      let files' : Files = insert file (good (str_append (encode_url key) "\n")) files in
      let created : create_secret file m files ≡ (files', good (encode_url key, file)) =
        rw (dir, random, written, create_secret) refl in
      let first : resolve_api_key_secret trim_space named true m files
          ≡ (files', good (encode_url key, file)) =
        rw (unset, absent', created, resolve_api_key_secret) refl in
      let next : resolve_api_key_secret trim_space named again m files'
          ≡ (files', good (encode_url key, file)) =
        rw (unset, resolve_api_key_secret)
          (rw (lookup-insert_self file (good (str_append (encode_url key) "\n")) files)
            (rw (trims) (rw (filled) refl))) in
      (
        ap (λ r. r.1) first,
        ap (λ r. resolve_api_key_secret trim_space named again m r.0) first
            ∙ next
            ∙ ap (λ r. (r.0, good (encode_url key, file))) (sym first),
      )
