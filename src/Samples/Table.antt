-- ===== src/Samples/Table.antt =====
-- veil/limiter.go: the table of limiters with one node, to which another is added.
use v2b_x_liusu.Dict.{lookup}
use v2b_x_liusu.Prelude.{String, [], ◌∷◌, arith}
use v2b_x_liusu.Prelude.Int.{ℤ, pos}
use v2b_x_liusu.Prelude.Eq.{string_eq, nat_eq}
use v2b_x_liusu.Dict.{lookup}
use v2b_x_liusu.Limiter.Registry.{
  Registry, IsValid, init, get_limiter, deref, add_limiter, add_limiter-IsValid,
}
use v2b_x_liusu.Samples.{alice}

empty-IsValid : IsValid (init {B = ℤ} {R = String})
unfolding init get_limiter deref lookup
empty-IsValid = record { in_table = λ tag p h. ground arith; in_heap = λ p l h. ground arith }

abbrev one : Registry ℤ String
one = (add_limiter "n" (pos 0) (alice ∷ []) [] init).0

one-IsValid : IsValid one
one-IsValid = add_limiter-IsValid "n" (pos 0) (alice ∷ []) [] init empty-IsValid
