-- ===== src/Text/Base64.antt =====
-- encoding/base64: StdEncoding and RawURLEncoding, on bytes. A text is its characters, which are its
-- bytes where it is ASCII.
use v2b_x_liusu.Prelude.{
  ◌≡◌, refl, ℕ, zero, suc, ◌+◌, ◌*◌, ◌/◌, ◌%◌, String, List, [], ◌∷◌, Option, none, some,
}
use Prim.Native.Char.{Char, code}
use Prim.Native.String.{◌++◌ as str_append}
use v2b_x_liusu.Prelude.Eq.{nat_eq}

abbrev pub bytes : String → List ℕ
bytes String.[] = []
bytes (String.◌∷◌ c s) = code c ∷ bytes s

abbrev pub std_alphabet : String
std_alphabet = "ABCDEFGHIJKLMNOPQRSTUVWXYZabcdefghijklmnopqrstuvwxyz0123456789+/"

abbrev pub url_alphabet : String
url_alphabet = "ABCDEFGHIJKLMNOPQRSTUVWXYZabcdefghijklmnopqrstuvwxyz0123456789-_"

-- The character of six bits.
unfoldable pub digit_at : String → ℕ → Option Char
digit_at String.[] n = none
digit_at (String.◌∷◌ c s) zero = some c
digit_at (String.◌∷◌ c s) (suc n) = digit_at s n

unfoldable pub put_digit : String → ℕ → String → String
unfolding digit_at
put_digit alphabet n rest = elim (digit_at alphabet n) [ none ↦ rest | some c ↦ String.◌∷◌ c rest ]

-- EncodeToString; `pad` is "=" or empty.
unfoldable pub encode : String → String → List ℕ → String
unfolding put_digit
encode alphabet pad [] = ""
encode alphabet pad (a ∷ []) =
    put_digit alphabet (a / 4) (put_digit alphabet (a % 4 * 16) (str_append pad pad))
encode alphabet pad (a ∷ b ∷ []) =
    put_digit alphabet (a / 4)
      (put_digit alphabet (a % 4 * 16 + b / 16) (put_digit alphabet (b % 16 * 4) pad))
encode alphabet pad (a ∷ b ∷ c ∷ rest) = put_digit alphabet (a / 4) (
    put_digit alphabet (a % 4 * 16 + b / 16) (
      put_digit alphabet (b % 16 * 4 + c / 64)
        (put_digit alphabet (c % 64) (encode alphabet pad rest))))

many : encode std_alphabet "=" (bytes "Many hands m") ≡ "TWFueSBoYW5kcyBt"
unfolding encode
many = refl

one : encode std_alphabet "=" (bytes "M") ≡ "TQ=="
unfolding encode
one = refl
