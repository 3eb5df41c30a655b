-- ===== src/Text.antt =====
-- Text operations of Go's `strings`, and base/format/user.go.
pub mod Decimal
pub mod Base64
use Prim.Native.Char.{code}
use Prim.Native.String.{◌++◌}
use text.Mathlib.TextLemmas.{append_cancel_left, nil-append, cons-append}
use v2b_x_liusu.Prelude.{
  Bool, is_some, ◌||◌, String, ◌≡◌, refl, Option, none, some, if◌then◌else◌, arith, eq_iff,
}
use v2b_x_liusu.Prelude.Eq.{◌==◌, nat_eq, string_eq}

-- strings.CutPrefix(s, prefix)
unfoldable pub cut_prefix : String → String → Option String
cut_prefix s String.[] = some s
cut_prefix String.[] (String.◌∷◌ d t) = none
cut_prefix (String.◌∷◌ c s) (String.◌∷◌ d t) =
    let rest = cut_prefix s t in if code c == code d then rest else none

-- strings.TrimPrefix(s, prefix)
unfoldable pub trim_prefix : String → String → String
unfolding cut_prefix
trim_prefix s t = elim (cut_prefix s t) [ none ↦ s | some rest ↦ rest ]

pub cut_prefix-append : (t s : String) → cut_prefix (t ++ s) t ≡ some s
unfolding cut_prefix
cut_prefix-append String.[] s = rw (nil-append s) refl
cut_prefix-append (String.◌∷◌ c t) s =
    rw (cons-append c t s, cut_prefix) (ground (arith, cut_prefix-append t s))

-- strings.Contains(s, t)
unfoldable pub contains : String → String → Bool
unfolding cut_prefix
contains String.[] t = is_some (cut_prefix String.[] t)
contains (String.◌∷◌ c s) t =
    let rest = contains s t in is_some (cut_prefix (String.◌∷◌ c s) t) || rest

-- fmt.Sprintf("%s|%s", tag, uuid)
unfoldable pub user_tag : String → String → String
user_tag tag uuid = tag ++ ("|" ++ uuid)

-- Users of one node have different keys.
pub user_tag_injective : (tag : String) (u v : String) → user_tag tag u ≡ user_tag tag v → u ≡ v
unfolding user_tag
user_tag_injective tag u v h =
    append_cancel_left "|" u v (append_cancel_left tag ("|" ++ u) ("|" ++ v) h)

pub user_tag_beq : (tag : String) (u v : String) → (user_tag tag u == user_tag tag v) ≡ (u == v)
user_tag_beq tag u v =
    ground (arith, eq_iff (user_tag tag u) (user_tag tag v), eq_iff u v, user_tag_injective tag u v)

trim_mapped : trim_prefix "::ffff:10.0.0.1" "::ffff:" ≡ "10.0.0.1"
unfolding trim_prefix
trim_mapped = refl
