-- ===== src/Branch/Cloudflare.antt =====
-- branch/lego.go, sanitizeCloudflareAuthEnv: with a token configured, the older credentials leave the
-- environment of the process.
use v2b_x_liusu.Prelude.{
  ◌≡◌, refl, String, Bool, true, false, not, ◌&&◌, ◌||◌, List, [], ◌∷◌, none, some, if◌then◌else◌,
  leb, arith, Bool-cases, inl, inr,
}
use Prim.Native.Char.{code, Char}
use v2b_x_liusu.Prelude.Eq.{◌==◌, nat_eq, string_eq}
use v2b_x_liusu.Dict.{Dict, lookup, delete, lookup-delete}

abbrev pub cloudflare_token_env_keys : List String
cloudflare_token_env_keys =
    "CF_DNS_API_TOKEN" ∷ "CF_ZONE_API_TOKEN" ∷ "CLOUDFLARE_DNS_API_TOKEN"
    ∷ "CLOUDFLARE_ZONE_API_TOKEN" ∷ "CF_DNS_API_TOKEN_FILE" ∷ "CF_ZONE_API_TOKEN_FILE"
    ∷ "CLOUDFLARE_DNS_API_TOKEN_FILE" ∷ "CLOUDFLARE_ZONE_API_TOKEN_FILE" ∷ []

abbrev pub cloudflare_legacy_auth_env_keys : List String
cloudflare_legacy_auth_env_keys =
    "CF_API_EMAIL" ∷ "CF_API_KEY" ∷ "CLOUDFLARE_EMAIL" ∷ "CLOUDFLARE_API_KEY" ∷ "CF_API_EMAIL_FILE"
    ∷ "CF_API_KEY_FILE" ∷ "CLOUDFLARE_EMAIL_FILE" ∷ "CLOUDFLARE_API_KEY_FILE" ∷ []

-- unicode.IsSpace
unfoldable pub is_space : Char → Bool
is_space c =
    leb 9 (code c) && leb (code c) 13
    || (code c == 32)
    || (code c == 133)
    || (code c == 160)
    || (code c == 5760)
    || (leb 8192 (code c) && leb (code c) 8202)
    || (code c == 8232)
    || (code c == 8233)
    || (code c == 8239)
    || (code c == 8287)
    || (code c == 12288)

-- strings.TrimSpace(s) == ""
unfoldable pub is_blank : String → Bool
unfolding is_space
is_blank String.[] = true
is_blank (String.◌∷◌ c s) = let rest = is_blank s in is_space c && rest

-- env[key], "" where there is none
unfoldable pub env_value : String → Dict String String → String
env_value key env = elim (lookup key env) [ none ↦ "" | some v ↦ v ]

-- The loop of cloudflareTokenAuthConfigured.
unfoldable pub any_set : List String → Dict String String → Bool
unfolding env_value is_blank
any_set [] env = false
any_set (key ∷ keys) env =
    let rest = any_set keys env in if not (is_blank (env_value key env)) then true else rest

unfoldable pub cloudflare_token_auth_configured : Dict String String → Bool
unfolding any_set
cloudflare_token_auth_configured env = any_set cloudflare_token_env_keys env

-- The loop over os.Unsetenv, on the environment of the process.
unfoldable pub unset_all : List String → Dict String String → Dict String String
unset_all [] process = process
unset_all (key ∷ keys) process = unset_all keys (delete key process)

-- sanitizeCloudflareAuthEnv(env)
unfoldable pub sanitize_cloudflare_auth_env :
    Dict String String → Dict String String → Dict String String
unfolding unset_all cloudflare_token_auth_configured
sanitize_cloudflare_auth_env env process =
    if not (cloudflare_token_auth_configured env)
    then process
    else unset_all cloudflare_legacy_auth_env_keys process

-- Whether the list has the key.
unfoldable pub has : String → List String → Bool
has key [] = false
has key (k ∷ ks) = k == key || has key ks

lookup-unset_all :
    (key : String) (keys : List String) (process : Dict String String)
    → lookup key (unset_all keys process) ≡ (if has key keys then none else lookup key process)
unfolding unset_all has
lookup-unset_all key [] process = refl
lookup-unset_all key (k ∷ ks) process =
    ground (arith, lookup-unset_all key ks (delete k process), lookup-delete k key process)

-- A variable of the process is gone afterwards exactly if a token is configured and the variable is
-- one of the older credentials, or it was not there; all other variables keep their values.
pub lookup-sanitize_cloudflare_auth_env :
    (key : String) (env process : Dict String String)
    → lookup key (sanitize_cloudflare_auth_env env process) ≡ (
        if cloudflare_token_auth_configured env && has key cloudflare_legacy_auth_env_keys
        then none
        else lookup key process)
unfolding sanitize_cloudflare_auth_env
lookup-sanitize_cloudflare_auth_env key env process =
    elim (Bool-cases (cloudflare_token_auth_configured env)) [
      | inl e ↦
          rw (e, sanitize_cloudflare_auth_env)
            (lookup-unset_all key cloudflare_legacy_auth_env_keys process)
      | inr e ↦ rw (e, sanitize_cloudflare_auth_env) refl
    ]
