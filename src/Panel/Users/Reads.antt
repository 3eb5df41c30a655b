-- ===== src/Panel/Users/Reads.antt =====
-- mirror/panel/user.go, GetUserList: the loops over a body end, and give the users that the body has.
use v2b_x_liusu.Prelude.{
  ◌≡◌, refl, Bool-cases, ◌⊎◌, inl, inr, ℕ, zero, suc, ◌<◌, String, Bool, true, false, List, [], ◌∷◌,
  Option, none, some, if◌then◌else◌, arith,
}
use v2b_x_liusu.Prelude.Eq.{nat_eq}
use v2b_x_liusu.Text.{contains}
use v2b_x_liusu.Panel.Types.{UserInfo}
use v2b_x_liusu.Panel.Users.{
  Token, users_name, opens_array, other, Decoder, RawResponse, list_error, or_error, is_users_name,
  is_array, prepend, find_users, read_users, read_array, decode_json, decode_users,
}

-- A result, or an error; a result has the property.
abbrev pub Gives : {A : Type 0} → (A → Type 0) → Option (String ⊎ A) → Type 0
Gives P none = ⊥
Gives P (some (inl e)) = Unit
Gives P (some (inr a)) = P a

Gives-map :
    {A : Type 0} (P Q : A → Type 0) (x : Option (String ⊎ A))
    → ((a : A) → P a → Q a)
    → Gives P x
    → Gives Q x
Gives-map P Q none h g = g
Gives-map P Q (some (inl e)) h g = tt
Gives-map P Q (some (inr a)) h g = h a g

or_error-Gives :
    {A B : Type 0} (P : B → Type 0) (text : String → String) (x : String ⊎ A)
    (rest : A → Option (String ⊎ B))
    → ((a : A) → x ≡ inr a → Gives P (rest a))
    → Gives P (or_error text x rest)
or_error-Gives P text (inl e) rest h = tt
or_error-Gives P text (inr a) rest h = h a refl

prepend-Gives :
    (P Q : List UserInfo → Type 0) (u : UserInfo) (x : Option (String ⊎ List UserInfo))
    → ((us : List UserInfo) → P us → Q (u ∷ us))
    → Gives P x
    → Gives Q (prepend u x)
prepend-Gives P Q u none h g = g
prepend-Gives P Q u (some (inl e)) h g = tt
prepend-Gives P Q u (some (inr us)) h g = h us g

module _ {D V : Type 0} (dec : Decoder D V) where
  -- The decoder reads `n` other tokens and then the name, and stands at `d'`.
  abbrev pub SkipsTo : ℕ → D → D → Type 0
  SkipsTo zero d d' = ((dec.read_token d).0 ≡ inr users_name) × (d' ≡ (dec.read_token d).1)
  SkipsTo (suc n) d d' =
      (t : Token) × ((dec.read_token d).0 ≡ inr t)
      × (is_users_name t ≡ false)
      × SkipsTo n (dec.read_token d).1 d'

  -- The decoder reads an object for each user, without an error, and then stands at the end.
  abbrev pub Lists : D → List UserInfo → Type 0
  Lists d [] = dec.peeks_end d ≡ true
  Lists d (u ∷ us) =
      (dec.peeks_end d ≡ false)
      × (v : V) × ((dec.read_value d).0 ≡ inr v)
      × (dec.unmarshal v ≡ inr u)
      × Lists (dec.read_value d).1 us

  abbrev pub Opens : D → List UserInfo → Type 0
  Opens d us = ((dec.read_token d).0 ≡ inr opens_array) × Lists (dec.read_token d).1 us

  -- The body is a list of these users, in the format of its header.
  abbrev pub HasUsers : RawResponse D → List UserInfo → Type 0
  HasUsers raw us =
      if contains raw.content_type "application/x-msgpack"
      then raw.msgpack ≡ inr us
      else (n : ℕ) × (d : D) × SkipsTo n raw.body d × Opens d us

-- A decoder that moves on with each token and each value that it reads.
abbrev pub MovesOn : {D V : Type 0} → Decoder D V → Type 0
MovesOn {D} {V} dec =
    ((d : D) (t : Token)
      → (dec.read_token d).0 ≡ inr t
      → dec.left (dec.read_token d).1 < dec.left d)
    × ((d : D) (v : V) → (dec.read_value d).0 ≡ inr v → dec.left (dec.read_value d).1 < dec.left d)

module _ {D V : Type 0} (dec : Decoder D V) (moves : MovesOn dec) where
  abbrev Finds : D → D → Type 0
  Finds d d' = (n : ℕ) × SkipsTo dec n d d'

  find_step :
      (d : D) (t : Token) (rest : Option (String ⊎ D))
      → (dec.read_token d).0 ≡ inr t
      → Gives (Finds (dec.read_token d).1) rest
      → Gives (Finds d) (if is_users_name t then some (inr (dec.read_token d).1) else rest)
  find_step d users_name rest e g = (zero, (e, refl))
  find_step d opens_array rest e g =
      Gives-map (Finds (dec.read_token d).1) (Finds d) rest
        (λ d' f. (suc f.0, (opens_array, e, refl, f.1))) g
  find_step d other rest e g =
      Gives-map (Finds (dec.read_token d).1) (Finds d) rest
        (λ d' f. (suc f.0, (other, e, refl, f.1))) g

  find_users-Gives :
      (fuel : ℕ) (d : D) → dec.left d < fuel → Gives (Finds d) (find_users dec fuel d)
  unfolding find_users
  find_users-Gives zero d h = absurd (omega (arith, h))
  find_users-Gives (suc fuel) d h =
      or_error-Gives (Finds d) list_error (dec.read_token d).0 _ (λ t e.
        find_step d t (find_users dec fuel (dec.read_token d).1) e
          (find_users-Gives fuel (dec.read_token d).1 (omega (arith, h, moves.0 d t e))))

  read_users-Gives :
      (fuel : ℕ) (d : D) → dec.left d < fuel → Gives (Lists dec d) (read_users dec fuel d)
  unfolding read_users
  read_users-Gives zero d h = absurd (omega (arith, h))
  read_users-Gives (suc fuel) d h = elim (Bool-cases (dec.peeks_end d)) [
    | inl e ↦ rw (e) e
    | inr more ↦ rw (more) (
        or_error-Gives (Lists dec d) _ (dec.read_value d).0 _ (λ v e.
          or_error-Gives (Lists dec d) _ (dec.unmarshal v) _ (λ u e'.
            prepend-Gives (Lists dec (dec.read_value d).1) (Lists dec d) u
              (read_users dec fuel (dec.read_value d).1) (λ us g. (more, v, e, e', g))
              (read_users-Gives fuel (dec.read_value d).1 (omega (arith, h, moves.1 d v e))))))
  ]

  array_step :
      (d : D) (t : Token)
      → (dec.read_token d).0 ≡ inr t
      → Gives (Opens dec d) (
          let d' = (dec.read_token d).1 in
          if is_array t
          then read_users dec (suc (dec.left d')) d'
          else some (inl (list_error "expected \"users\" array")))
  array_step d users_name e = tt
  array_step d other e = tt
  array_step d opens_array e =
      let d' = (dec.read_token d).1 in
      Gives-map (Lists dec d') (Opens dec d) (read_users dec (suc (dec.left d')) d')
        (λ us g. (e, g)) (read_users-Gives (suc (dec.left d')) d' (omega arith))

  read_array-Gives : (d : D) → Gives (Opens dec d) (read_array dec d)
  unfolding read_array
  read_array-Gives d =
      or_error-Gives (Opens dec d) list_error (dec.read_token d).0 _ (λ t e. array_step d t e)

  abbrev InJson : D → List UserInfo → Type 0
  InJson body us = (n : ℕ) × (d : D) × SkipsTo dec n body d × Opens dec d us

  then-Gives :
      (body : D) (x : Option (String ⊎ D))
      → Gives (Finds body) x
      → Gives
          (InJson body)
          (elim x [ none ↦ none | some found ↦ or_error (λ e. e) found (read_array dec) ])
  then-Gives body none g = g
  then-Gives body (some (inl e)) g = tt
  then-Gives body (some (inr d)) g =
      Gives-map (Opens dec d) (InJson body) (read_array dec d) (λ us o. (g.0, d, g.1, o))
        (read_array-Gives d)

  decode_json-Gives : (body : D) → Gives (InJson body) (decode_json dec body)
  unfolding decode_json
  decode_json-Gives body =
      then-Gives body (find_users dec (suc (dec.left body)) body)
        (find_users-Gives (suc (dec.left body)) body (omega arith))

  format-Gives :
      (is_msgpack : Bool) (raw : RawResponse D)
      → Gives
          (λ us. if is_msgpack then raw.msgpack ≡ inr us else InJson raw.body us)
          (if is_msgpack
            then or_error list_error raw.msgpack (λ us. some (inr us))
            else decode_json dec raw.body)
  format-Gives true raw =
      or_error-Gives (λ us. raw.msgpack ≡ inr us) list_error raw.msgpack (λ us. some (inr us))
        (λ us h. h)
  format-Gives false raw = decode_json-Gives raw.body

  pub decode_users-Gives : (raw : RawResponse D) → Gives (HasUsers dec raw) (decode_users dec raw)
  unfolding decode_users
  decode_users-Gives raw = format-Gives (contains raw.content_type "application/x-msgpack") raw
