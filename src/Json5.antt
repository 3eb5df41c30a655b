-- ===== src/Json5.antt =====
-- base/json5/json5.go: a text of bytes is cleaned of comments and of trailing commas, in place.
pub mod Blanks
use v2b_x_liusu.Prelude.{
  ℕ, zero, suc, ◌+◌, ◌-◌, Bool, true, false, not, ◌&&◌, ◌||◌, List, [], ◌∷◌, Option, none, some,
  length, get_elem?, set, leb, ltb, if◌then◌else◌,
}
use v2b_x_liusu.Prelude.Eq.{◌==◌, nat_eq}

-- s[i] == c, where s[i] is there
abbrev pub is_at : List ℕ → ℕ → ℕ → Bool
is_at s i c = elim (get_elem? s i) [ none ↦ false | some b ↦ b == c ]

-- isNL(s[i])
abbrev pub is_nl : List ℕ → ℕ → Bool
is_nl s i = is_at s i 10 || is_at s i 13

-- isWS(s[i])
abbrev pub is_ws : List ℕ → ℕ → Bool
is_ws s i = is_at s i 32 || is_at s i 9 || is_nl s i

-- s[i] = ' '
abbrev pub blank : ℕ → List ℕ → List ℕ
blank i s = set s i 32

-- The loop over a comment to the end of the line, from `i` with the number of bytes that are left.
unfoldable pub blank_line : ℕ → ℕ → List ℕ → List ℕ × ℕ
blank_line zero i s = (s, i)
blank_line (suc n) i s = if is_nl s i then (s, i) else blank_line n (i + 1) (blank i s)

-- The loop over a comment between /* and */, from `i` with the number of bytes that are left. After a
-- star the next byte is looked at only for the slash.
unfoldable pub blank_block : ℕ → ℕ → List ℕ → List ℕ × ℕ
blank_block zero i s = (s, i)
blank_block (suc zero) i s = if is_at s i 42 then (blank i s, i + 2) else (blank i s, i + 1)
blank_block (suc (suc n)) i s =
    let after_star = blank_block n (i + 2) (blank i s) in
    let after_byte = blank_block (suc n) (i + 1) (blank i s) in
    if is_at s i 42
    then (if is_at s (i + 1) 47 then (blank (i + 1) (blank i s), i + 1) else after_star)
    else after_byte

-- consumeComment(s, i)
unfoldable pub consume_comment : ℕ → List ℕ → List ℕ × ℕ
unfolding blank_line blank_block
consume_comment i s =
    let (s1, i1) = if is_at s i 47 then blank_line (length s - i) i (blank (i - 1) s) else (s, i) in
    if is_at s1 i1 42
    then blank_block (length s1 - i1) i1 (blank i1 (blank (i1 - 1) s1))
    else (s1, i1)

-- The loop over the bytes of a string, from `i` with the number of bytes that are left.
unfoldable pub skip_string : ℕ → ℕ → List ℕ → ℕ
skip_string zero i s = i
skip_string (suc zero) i s = if is_at s i 92 then i + 2 else i + 1
skip_string (suc (suc n)) i s =
    let escaped = skip_string n (i + 2) s in
    let next = skip_string (suc n) (i + 1) s in
    if is_at s i 34 then i + 1 else if is_at s i 92 then escaped else next

-- The loop after the comma at `j`, on fuel; each round moves `i` on.
unfoldable pub after_comma : ℕ → ℕ → ℕ → List ℕ → Option (List ℕ × ℕ)
unfolding consume_comment
after_comma zero i j s = if leb (length s) (i + 1) then some (s, i + 1) else none
after_comma (suc fuel) i j s =
    let k = i + 1 in
    let (s', k') = consume_comment (k + 1) s in
    let commented = after_comma fuel k' j s' in
    let blanks = after_comma fuel k j s in
    if leb (length s) k
    then some (s, k)
    else if is_at s k 125 || is_at s k 93
    then some (blank j s, k)
    else if is_at s k 47
    then commented
    else if not (is_ws s k)
    then some (s, k)
    else blanks

-- The switch of prep on the byte at `i`.
unfoldable pub step : ℕ → List ℕ → Option (List ℕ × ℕ)
unfolding consume_comment skip_string after_comma
step i s =
    if is_at s i 34
    then some (s, skip_string (length s - (i + 1)) (i + 1) s)
    else if is_at s i 47
    then some (consume_comment (i + 1) s)
    else if is_at s i 44
    then after_comma (length s) i i s
    else some (s, i + 1)

-- prep, from `i` and on fuel.
unfoldable pub prep_from : ℕ → ℕ → List ℕ → Option (List ℕ)
unfolding step
prep_from zero i s = if leb (length s) i then some s else none
prep_from (suc fuel) i s =
    if leb (length s) i
    then some s
    else (elim (step i s) [ none ↦ none | some (s', i') ↦ prep_from fuel i' s' ])

-- prep(r), on the bytes that were read.
unfoldable pub prep : List ℕ → Option (List ℕ)
unfolding prep_from
prep s = prep_from (length s) 0 s
