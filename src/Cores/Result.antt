-- ===== src/Cores/Result.antt =====
-- The errors of the functions of field/sing/node.go and field/xray/inbound.go that build the inbound of a
-- node: a value, an error, or the panic of a nil pointer.
use v2b_x_liusu.Prelude.{◌≡◌, refl, String, Bool, true, false, Option, none, some, if◌then◌else◌}
use Prim.Native.String.{◌++◌ as str_append}

-- What a function with an error gives; `crashed` is a nil pointer that is read.
pub data Result (A : Type 0) : Type 0 where
  ok : A → Result A
  err : String → Result A
  crashed : Result A

-- The rest of a function, after an error is returned with the text in front.
unfoldable pub after : {A B : Type 0} → String → Result A → (A → Result B) → Result B
after text (ok a) rest = rest a
after text (err e) rest = err (str_append text e)
after text crashed rest = crashed

-- A pointer that must not be nil.
unfoldable pub read : {A B : Type 0} → Option A → (A → Result B) → Result B
read none rest = crashed
read (some a) rest = rest a

-- Every value of the result satisfies `P`.
abbrev pub Holds : {A : Type 0} → (A → Type 0) → Result A → Type 0
Holds P (ok a) = P a
Holds P (err e) = Unit
Holds P crashed = Unit

module _ {B : Type 0} (P : B → Type 0) where
  pub read-Holds :
      {A : Type 0} (x : Option A) (rest : A → Result B)
      → ((a : A) → Holds P (rest a))
      → Holds P (read x rest)
  unfolding read
  read-Holds none rest h = tt
  read-Holds (some a) rest h = h a

  pub after-Holds :
      {A : Type 0} (text : String) (x : Result A) (rest : A → Result B)
      → ((a : A) → Holds P (rest a))
      → Holds P (after text x rest)
  unfolding after
  after-Holds text (ok a) rest h = h a
  after-Holds text (err e) rest h = tt
  after-Holds text crashed rest h = tt

  pub after-Holds_of :
      {A : Type 0} (Q : A → Type 0) (text : String) (x : Result A) (rest : A → Result B)
      → Holds Q x
      → ((a : A) → Q a → Holds P (rest a))
      → Holds P (after text x rest)
  unfolding after
  after-Holds_of Q text (ok a) rest q h = h a q
  after-Holds_of Q text (err e) rest q h = tt
  after-Holds_of Q text crashed rest q h = tt

  pub if-Holds :
      (b : Bool) (x y : Result B)
      → (b ≡ true → Holds P x)
      → (b ≡ false → Holds P y)
      → Holds P (if b then x else y)
  if-Holds true x y h k = h refl
  if-Holds false x y h k = k refl

pub Holds-weaken :
    {A : Type 0} (P Q : A → Type 0) (x : Result A) → ((a : A) → P a → Q a) → Holds P x → Holds Q x
Holds-weaken P Q (ok a) w h = w a h
Holds-weaken P Q (err e) w h = tt
Holds-weaken P Q crashed w h = tt
