-- ===== src/Panel/Interval.antt =====
-- mirror/panel/node.go, intervalToTime, and strconv.Atoi.
use v2b_x_liusu.Prelude.{
  ◌≡◌, refl, ℕ, zero, suc, ◌+◌, ◌*◌, ◌-◌, ◌^◌, String, ◌&&◌, Option, none, some, if◌then◌else◌, ltb,
  leb,
}
use Prim.Native.Char.{code}
use v2b_x_liusu.Prelude.Int.{ℤ, pos, negsuc}
use v2b_x_liusu.Prelude.Eq.{◌==◌, nat_eq}
use v2b_x_liusu.Time.{seconds}

-- The value of decimal digits after those of `acc`; `none` where a character is no digit.
unfoldable pub digits_value : ℕ → String → Option ℕ
digits_value acc String.[] = some acc
digits_value acc (String.◌∷◌ c s) =
    let rest = digits_value (acc * 10 + (code c - 48)) s in
    if leb 48 (code c) && leb (code c) 57 then rest else none

-- A text without its sign; the empty text is no number.
unfoldable pub unsigned : String → Option ℕ
unfolding digits_value
unsigned String.[] = none
unsigned (String.◌∷◌ c s) = digits_value 0 (String.◌∷◌ c s)

-- What Atoi returns beside its error: 0 for a text that is no number, and the nearest 64-bit value
-- for one out of range.
unfoldable pub clamp : Option ℕ → ℤ
clamp none = pos 0
clamp (some n) = if ltb n (2 ^ 63) then pos n else pos (2 ^ 63 - 1)

unfoldable pub clamp_negative : Option ℕ → ℤ
clamp_negative none = pos 0
clamp_negative (some zero) = pos 0
clamp_negative (some (suc n)) = if ltb n (2 ^ 63) then negsuc n else negsuc (2 ^ 63 - 1)

unfoldable pub atoi : String → ℤ
unfolding unsigned clamp clamp_negative
atoi String.[] = pos 0
atoi (String.◌∷◌ c s) =
    if code c == 45
    then clamp_negative (unsigned s)
    else if code c == 43
    then clamp (unsigned s)
    else clamp (unsigned (String.◌∷◌ c s))

-- An interval as JSON decodes it. A float is given by its value rounded towards zero; `other` is a
-- value that reflection finds no integer in.
pub data Interval : Type 0 where
  number float : ℤ → Interval
  text : String → Interval
  other : Interval

-- intervalToTime(i); `none` is a panic.
unfoldable pub interval_to_time : Interval → Option ℤ
unfolding atoi
interval_to_time (number n) = some (seconds n)
interval_to_time (text s) = some (seconds (atoi s))
interval_to_time (float n) = some (seconds n)
interval_to_time other = none

minute : interval_to_time (text "-60") ≡ some (seconds (negsuc 59))
unfolding interval_to_time seconds
minute = refl
