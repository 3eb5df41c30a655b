-- ===== src/Branch/Flow.antt =====
-- The control flow of the controller's methods: a step goes on with a value, returns from the method
-- with an error or nil, or panics. What was written before stays written in every case.
use v2b_x_liusu.Prelude.{◌≡◌, ap, String, Bool, true, false, Option}

pub data Flow {ℓ} (A : Type ℓ) : Type ℓ where
  next : A → Flow A
  returned : Option String → Flow A
  panicked : Flow A

abbrev pub Step {ℓ} : Type ℓ → Type ℓ → Type ℓ
Step W A = W → Flow A × W

module _ {ℓ} {W A B : Type ℓ} where
  abbrev pub continue : Flow A → (A → Step W B) → Step W B
  continue (next a) f w = f a w
  continue (returned err) f w = (returned err, w)
  continue panicked f w = (panicked, w)

  infixl 5 ◌>>=◌ ◌>>◌
  abbrev pub ◌>>=◌ : Step W A → (A → Step W B) → Step W B
  ◌>>=◌ m f w = let (r, w') = m w in continue r f w'

  abbrev pub ◌>>◌ : Step W A → Step W B → Step W B
  m >> n = m >>= λ _. n

module _ {ℓ} {W A : Type ℓ} where
  abbrev pub pure : A → Step W A
  pure a w = (next a, w)

  abbrev pub return : Option String → Step W A
  return err w = (returned err, w)

  abbrev pub panic : Step W A
  panic w = (panicked, w)

module _ {W : Type 0} where
  abbrev pub modify : (W → W) → Step W (Unit {0})
  modify f w = (next tt, f w)

  abbrev pub when : Bool → Step W (Unit {0}) → Step W (Unit {0})
  when true m = m
  when false m = pure tt

-- A step that goes on.
pub bind_next :
    {W A C : Type 0} (m : Step W A) (f : A → Step W C) (w w' : W) (a : A)
    → m w ≡ (next a, w')
    → (m >>= f) w ≡ f a w'
bind_next m f w w' a h = ap (λ r. continue r.0 f r.1) h

-- A step that returns.
pub bind_returned :
    {W A C : Type 0} (m : Step W A) (f : A → Step W C) (w w' : W) (err : Option String)
    → m w ≡ (returned err, w')
    → (m >>= f) w ≡ (returned err, w')
bind_returned m f w w' err h = ap (λ r. continue r.0 f r.1) h
