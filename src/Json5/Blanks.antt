-- ===== src/Json5/Blanks.antt =====
-- base/json5/json5.go: prep ends, and does nothing but turn bytes into spaces.
use v2b_x_liusu.Prelude.{
  ◌≡◌, refl, ◌∙◌, ap, ◌⊎◌, inl, inr, ℕ, zero, suc, ◌+◌, ◌-◌, ◌≤◌, Bool, true, false, not, ◌||◌,
  List, [], ◌∷◌, Option, none, some, length, get_elem?, set, leb, if◌then◌else◌, arith, Bool-cases,
}
use v2b_x_liusu.Json5.{
  is_at, is_nl, is_ws, blank, blank_line, blank_block, consume_comment, skip_string, after_comma,
  step, prep_from, prep,
}

-- The second text is the first with some bytes turned into spaces.
abbrev pub Blanked : List ℕ → List ℕ → Type 0
Blanked s t =
    (length t ≡ length s) × ((j : ℕ) → (get_elem? t j ≡ get_elem? s j) ⊎ (get_elem? t j ≡ some 32))

Blanked-refl : (s : List ℕ) → Blanked s s
Blanked-refl s = (refl, λ j. inl refl)

Blanked-trans : (s t u : List ℕ) → Blanked s t → Blanked t u → Blanked s u
Blanked-trans s t u a b = (
  b.0 ∙ a.0,
  λ j. elim (b.1 j) [
    | inr e ↦ inr e
    | inl e ↦ elim (a.1 j) [ inl d ↦ inl (e ∙ d) | inr d ↦ inr (e ∙ d) ]
  ],
)

length-set : (s : List ℕ) (i v : ℕ) → length (set s i v) ≡ length s
length-set [] i v = refl
length-set (x ∷ s) zero v = refl
length-set (x ∷ s) (suc i) v = ap suc (length-set s i v)

get_elem?-set :
    (s : List ℕ) (i v j : ℕ)
    → (get_elem? (set s i v) j ≡ get_elem? s j) ⊎ (get_elem? (set s i v) j ≡ some v)
get_elem?-set [] i v j = inl refl
get_elem?-set (x ∷ s) zero v zero = inr refl
get_elem?-set (x ∷ s) zero v (suc j) = inl refl
get_elem?-set (x ∷ s) (suc i) v zero = inl refl
get_elem?-set (x ∷ s) (suc i) v (suc j) = get_elem?-set s i v j

blank-Blanked : (i : ℕ) (s : List ℕ) → Blanked s (blank i s)
blank-Blanked i s = (length-set s i 32, get_elem?-set s i 32)

-- A loop has blanked some bytes, and has come to `lower` at least.
abbrev Moves : ℕ → List ℕ → List ℕ × ℕ → Type 0
Moves lower s r = Blanked s r.0 × (lower ≤ r.1)

if-both : {A : Type 0} (P : A → Type 0) (b : Bool) (x y : A) → P x → P y → P (if b then x else y)
if-both P true x y p q = p
if-both P false x y p q = q

-- What follows a move.
Moves-trans :
    (low high : ℕ) (s t : List ℕ) (r : List ℕ × ℕ)
    → low ≤ high
    → Blanked s t
    → Moves high t r
    → Moves low s r
Moves-trans low high s t r le a b = (Blanked-trans s t r.0 a b.0, omega (arith, le, b.1))

blank_line-Moves : (n i : ℕ) (s : List ℕ) → Moves i s (blank_line n i s)
unfolding blank_line
blank_line-Moves zero i s = (Blanked-refl s, omega arith)
blank_line-Moves (suc n) i s =
    if-both (Moves i s) (is_nl s i) _ _ (Blanked-refl s, omega arith)
      (Moves-trans i (i + 1) s (blank i s) _ (omega arith) (blank-Blanked i s)
        (blank_line-Moves n (i + 1) (blank i s)))

blank_block-Moves : (n i : ℕ) (s : List ℕ) → Moves i s (blank_block n i s)
unfolding blank_block
blank_block-Moves zero i s = (Blanked-refl s, omega arith)
blank_block-Moves (suc zero) i s =
    if-both (Moves i s) (is_at s i 42) _ _ (blank-Blanked i s, omega arith)
      (blank-Blanked i s, omega arith)
blank_block-Moves (suc (suc n)) i s =
    if-both (Moves i s) (is_at s i 42) _ _
      (if-both (Moves i s) (is_at s (i + 1) 47) _ _
        (
          Blanked-trans s (blank i s) _ (blank-Blanked i s) (blank-Blanked (i + 1) (blank i s)),
          omega arith,
        )
        (Moves-trans i (i + 2) s (blank i s) _ (omega arith) (blank-Blanked i s)
          (blank_block-Moves n (i + 2) (blank i s))))
      (Moves-trans i (i + 1) s (blank i s) _ (omega arith) (blank-Blanked i s)
        (blank_block-Moves (suc n) (i + 1) (blank i s)))

consume_comment-Moves : (i : ℕ) (s : List ℕ) → Moves i s (consume_comment i s)
unfolding consume_comment
consume_comment-Moves i s =
    let r : List ℕ × ℕ =
      if is_at s i 47 then blank_line (length s - i) i (blank (i - 1) s) else (s, i) in
    let first : Moves i s r =
      if-both (Moves i s) (is_at s i 47) _ _
        (Moves-trans i i s (blank (i - 1) s) _ (omega arith) (blank-Blanked (i - 1) s)
          (blank_line-Moves (length s - i) i (blank (i - 1) s)))
        (Blanked-refl s, omega arith) in
    if-both (Moves i s) (is_at r.0 r.1 42) _ _
      (Moves-trans i r.1 s (blank r.1 (blank (r.1 - 1) r.0)) _ first.1
        (Blanked-trans s r.0 _ first.0 (
          Blanked-trans r.0 (blank (r.1 - 1) r.0) _ (blank-Blanked (r.1 - 1) r.0)
            (blank-Blanked r.1 (blank (r.1 - 1) r.0))))
        (blank_block-Moves (length r.0 - r.1) r.1 (blank r.1 (blank (r.1 - 1) r.0))))
      first

skip_string-le : (n i : ℕ) (s : List ℕ) → i ≤ skip_string n i s
unfolding skip_string
skip_string-le zero i s = omega arith
skip_string-le (suc zero) i s = if-both (λ k. i ≤ k) (is_at s i 92) _ _ (omega arith) (omega arith)
skip_string-le (suc (suc n)) i s =
    if-both (λ k. i ≤ k) (is_at s i 34) _ _ (omega arith)
      (if-both (λ k. i ≤ k) (is_at s i 92) _ _ (omega (arith, skip_string-le n (i + 2) s))
        (omega (arith, skip_string-le (suc n) (i + 1) s)))

-- The fuel was enough, and the loop has moved.
abbrev Done : ℕ → List ℕ → Option (List ℕ × ℕ) → Type 0
Done lower s none = ⊥
Done lower s (some r) = Moves lower s r

Done-trans :
    (low high : ℕ) (s t : List ℕ) (x : Option (List ℕ × ℕ))
    → low ≤ high
    → Blanked s t
    → Done high t x
    → Done low s x
Done-trans low high s t none le a d = d
Done-trans low high s t (some r) le a d = Moves-trans low high s t r le a d

after_comma-Done :
    (fuel i j : ℕ) (s : List ℕ)
    → length s ≤ fuel + (i + 1)
    → Done (i + 1) s (after_comma fuel i j s)
unfolding after_comma
after_comma-Done zero i j s h = elim (Bool-cases (leb (length s) (i + 1))) [
  | inl e ↦ rw (e) (Blanked-refl s, omega arith)
  | inr e ↦ absurd (ground (arith, e, h))
]
after_comma-Done (suc fuel) i j s h =
    let k = i + 1 in
    let r = consume_comment (k + 1) s in
    let moved = consume_comment-Moves (k + 1) s in
    let P = Done (i + 1) s in
    if-both P (leb (length s) k) _ _ (Blanked-refl s, omega arith)
      (if-both P (is_at s k 125 || is_at s k 93) _ _ (blank-Blanked j s, omega arith)
        (if-both P (is_at s k 47) _ _
          (Done-trans (i + 1) (r.1 + 1) s r.0 _ (omega (arith, moved.1)) moved.0
            (after_comma-Done fuel r.1 j r.0 (omega (arith, h, moved.1, moved.0.0))))
          (if-both P (not (is_ws s k)) _ _ (Blanked-refl s, omega arith)
            (Done-trans (i + 1) (k + 1) s s _ (omega arith) (Blanked-refl s)
              (after_comma-Done fuel k j s (omega (arith, h)))))))

step-Done : (i : ℕ) (s : List ℕ) → Done (i + 1) s (step i s)
unfolding step
step-Done i s =
    let P = Done (i + 1) s in
    if-both P (is_at s i 34) _ _ (Blanked-refl s, skip_string-le (length s - (i + 1)) (i + 1) s)
      (if-both P (is_at s i 47) _ _ (consume_comment-Moves (i + 1) s) (
        if-both P (is_at s i 44) _ _ (after_comma-Done (length s) i i s (omega arith))
          (Blanked-refl s, omega arith)))

-- What prep gives.
abbrev Ends : List ℕ → Option (List ℕ) → Type 0
Ends s none = ⊥
Ends s (some t) = Blanked s t

Ends-trans : (s t : List ℕ) (x : Option (List ℕ)) → Blanked s t → Ends t x → Ends s x
Ends-trans s t none a d = d
Ends-trans s t (some u) a d = Blanked-trans s t u a d

-- One step, and what follows from where it leads.
after_step-Ends :
    (s : List ℕ) (low : ℕ) (x : Option (List ℕ × ℕ)) (next : ℕ → List ℕ → Option (List ℕ))
    → Done low s x
    → ((t : List ℕ) → (k : ℕ) → low ≤ k → length t ≡ length s → Ends t (next k t))
    → Ends s (elim x [ none ↦ none | some (t, k) ↦ next k t ])
after_step-Ends s low none next d f = d
after_step-Ends s low (some (t, k)) next d f = Ends-trans s t (next k t) d.0 (f t k d.1 d.0.0)

prep_from-Ends : (fuel i : ℕ) (s : List ℕ) → length s ≤ fuel + i → Ends s (prep_from fuel i s)
unfolding prep_from
prep_from-Ends zero i s h = elim (Bool-cases (leb (length s) i)) [
  | inl e ↦ rw (e) (Blanked-refl s)
  | inr e ↦ absurd (ground (arith, e, h))
]
prep_from-Ends (suc fuel) i s h = if-both (Ends s) (leb (length s) i) _ _ (Blanked-refl s) (
    after_step-Ends s (i + 1) (step i s) (prep_from fuel) (step-Done i s)
      (λ t k le e. prep_from-Ends fuel k t (omega (arith, h, le, e))))

Ends-some :
    (s : List ℕ) (x : Option (List ℕ)) → Ends s x → (t : List ℕ) × (x ≡ some t) × Blanked s t
Ends-some s none d = absurd d
Ends-some s (some t) d = (t, refl, d)

-- prep ends on every text, and the text it gives is as long as the one it was given, each byte of it
-- either the byte of the old text at that place or a space.
pub prep_lem : (s : List ℕ) → (t : List ℕ) × (prep s ≡ some t) × Blanked s t
unfolding prep
prep_lem s = Ends-some s (prep s) (prep_from-Ends (length s) 0 s (omega arith))
