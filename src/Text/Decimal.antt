-- ===== src/Text/Decimal.antt =====
-- strconv.Itoa.
use Prim.Native.Char.{Char, code}
use Prim.Native.String.{◌++◌}
use text.Mathlib.TextLemmas.{nil-append, cons-append, append_cancel_left}
use v2b_x_liusu.Prelude.{
  ℕ, zero, suc, ◌+◌, ◌-◌, ◌*◌, ◌/◌, ◌%◌, ◌≤◌, ◌<◌, ◌≡◌, refl, ap, sym, ◌∙◌, String, arith, ltb, inl,
  inr, Bool-cases, if◌then◌else◌,
}
use v2b_x_liusu.Prelude.Int.{ℤ, pos, negsuc}

-- The digit of a number below 10.
digit : ℕ → String
digit zero = "0"
digit (suc zero) = "1"
digit (suc (suc zero)) = "2"
digit (suc (suc (suc zero))) = "3"
digit (suc (suc (suc (suc zero)))) = "4"
digit (suc (suc (suc (suc (suc zero))))) = "5"
digit (suc (suc (suc (suc (suc (suc zero)))))) = "6"
digit (suc (suc (suc (suc (suc (suc (suc zero))))))) = "7"
digit (suc (suc (suc (suc (suc (suc (suc (suc zero)))))))) = "8"
digit (suc (suc (suc (suc (suc (suc (suc (suc (suc n))))))))) = "9"

-- On fuel; `n` rounds are enough for `n`.
print_nat : ℕ → ℕ → String
print_nat zero n = digit n
print_nat (suc fuel) n =
    let rest = print_nat fuel (n / 10) in if ltb n 10 then digit n else rest ++ digit (n % 10)

-- strconv.Itoa(n)
unfoldable pub itoa : ℤ → String
unfolding print_nat digit
itoa (pos n) = print_nat n n
itoa (negsuc n) = "-" ++ print_nat (suc n) (suc n)

-- The number that a text of digits stands for, after the digits of `acc`.
value : ℕ → String → ℕ
value acc String.[] = acc
value acc (String.◌∷◌ c s) = value (acc * 10 + (code c - 48)) s

value-append : (acc : ℕ) (s t : String) → value acc (s ++ t) ≡ value (value acc s) t
unfolding value
value-append acc String.[] t = ap (value acc) (nil-append t)
value-append acc (String.◌∷◌ c s) t =
    ap (value acc) (cons-append c s t) ∙ value-append (acc * 10 + (code c - 48)) s t

value-digit : (acc d : ℕ) → d < 10 → value acc (digit d) ≡ acc * 10 + d
unfolding value digit
value-digit acc zero h = omega arith
value-digit acc (suc zero) h = omega arith
value-digit acc (suc (suc zero)) h = omega arith
value-digit acc (suc (suc (suc zero))) h = omega arith
value-digit acc (suc (suc (suc (suc zero)))) h = omega arith
value-digit acc (suc (suc (suc (suc (suc zero))))) h = omega arith
value-digit acc (suc (suc (suc (suc (suc (suc zero)))))) h = omega arith
value-digit acc (suc (suc (suc (suc (suc (suc (suc zero))))))) h = omega arith
value-digit acc (suc (suc (suc (suc (suc (suc (suc (suc zero)))))))) h = omega arith
value-digit acc (suc (suc (suc (suc (suc (suc (suc (suc (suc n))))))))) h = omega arith

value-print_nat : (fuel n : ℕ) → n ≤ fuel → value 0 (print_nat fuel n) ≡ n
unfolding print_nat
value-print_nat zero n h = ground (arith, value-digit 0 n)
value-print_nat (suc fuel) n h = elim (Bool-cases (ltb n 10)) [
  | inl e ↦ rw e (ground (arith, value-digit 0 n))
  | inr e ↦
      rw (e, value-append 0 (print_nat fuel (n / 10)) (digit (n % 10)))
        (ground (arith, value-print_nat fuel (n / 10), value-digit (n / 10) (n % 10)))
]

forty_two : itoa (negsuc 41) ≡ "-42"
unfolding itoa
forty_two = refl

-- The code of the first character, or 0.
first : String → ℕ
first String.[] = 0
first (String.◌∷◌ c s) = code c

first-append : (s t : String) → 48 ≤ first s → 48 ≤ first (s ++ t)
unfolding first
first-append String.[] t h = absurd (omega arith)
first-append (String.◌∷◌ c s) t h = rw (cons-append c s t) h

first-digit : (d : ℕ) → 48 ≤ first (digit d)
unfolding first digit
first-digit zero = omega arith
first-digit (suc zero) = omega arith
first-digit (suc (suc zero)) = omega arith
first-digit (suc (suc (suc zero))) = omega arith
first-digit (suc (suc (suc (suc zero)))) = omega arith
first-digit (suc (suc (suc (suc (suc zero))))) = omega arith
first-digit (suc (suc (suc (suc (suc (suc zero)))))) = omega arith
first-digit (suc (suc (suc (suc (suc (suc (suc zero))))))) = omega arith
first-digit (suc (suc (suc (suc (suc (suc (suc (suc zero)))))))) = omega arith
first-digit (suc (suc (suc (suc (suc (suc (suc (suc (suc n))))))))) = omega arith

first-print_nat : (fuel n : ℕ) → 48 ≤ first (print_nat fuel n)
unfolding print_nat
first-print_nat zero n = first-digit n
first-print_nat (suc fuel) n = elim (Bool-cases (ltb n 10)) [
  | inl e ↦ rw e (first-digit n)
  | inr e ↦ rw e (first-append _ (digit (n % 10)) (first-print_nat fuel (n / 10)))
]

minus_first : (m n : ℕ) → print_nat m m ≡ "-" ++ print_nat (suc n) (suc n) → ⊥
unfolding first
minus_first m n h = omega (
  arith,
  first-print_nat m m,
  ap first h,
  ap first (cons-append minus String.[] (print_nat (suc n) (suc n))),
)
  where
    minus : Char
    minus = "-"

-- Two numbers are written alike only if they are equal.
pub itoa_injective : (a b : ℤ) → itoa a ≡ itoa b → a ≡ b
unfolding itoa
itoa_injective (pos m) (pos n) h =
    ap pos (omega (arith, value-print_nat m m, value-print_nat n n, ap (value 0) h))
itoa_injective (negsuc m) (negsuc n) h = ap negsuc (
    omega (
      arith,
      value-print_nat (suc m) (suc m),
      value-print_nat (suc n) (suc n),
      ap (value 0)
          (append_cancel_left "-" (print_nat (suc m) (suc m)) (print_nat (suc n) (suc n)) h),
    ))
itoa_injective (pos m) (negsuc n) h = absurd (minus_first m n h)
itoa_injective (negsuc m) (pos n) h = absurd (minus_first n m (sym h))
