-- ===== src/Cores/Traffic/Slice.antt =====
-- GetUserTrafficSlice: what is reported, and what the counters hold afterwards.
use mathlib.Core.Path.{subst}
use mathlib.Core.List.{append-nil, append_assoc}
use v2b_x_liusu.Prelude.{
  ◌≡◌, refl, sym, ap, ◌∙◌, ℕ, String, Bool, false, List, [], ◌∷◌, ◌++◌, none, some, is_some, All,
  if◌then◌else◌, arith, Bool-cases, inl, inr, eq_iff,
}
use v2b_x_liusu.Prelude.Int.{ℤ, pos}
use v2b_x_liusu.Prelude.Eq.{◌==◌, int_eq, string_eq, nat_eq}
use v2b_x_liusu.Dict.{Dict, lookup, lookup-delete}
use v2b_x_liusu.Dict.Keys.{HasDistinctKeys, lookup-entry}
use v2b_x_liusu.Panel.Types.{UserTraffic}
use v2b_x_liusu.Counter.{
  TrafficStorage, TrafficCounter, empty_storage, deref, write, delete_counter,
}
use v2b_x_liusu.Counter.Laws.{
  IsValid, counts, counts-write, counts-deref, delete_counter-IsValid, deleted_counts,
  write-IsValid,
}
use v2b_x_liusu.Cores.Traffic.{is_due, visit, visit_all, traffic_slice}

-- Both counts of a user as a storage.
abbrev storage : ℤ × ℤ → TrafficStorage
storage n = record { up_counter = n.0; down_counter = n.1 }

-- What a visit leaves of the counts of its user.
abbrev pub settle : ℤ → ℤ → Bool → ℤ × ℤ → ℤ × ℤ
settle least uid reset n =
    if is_due least (storage n)
    then (if reset then (pos 0, pos 0) else if uid == pos 0 then (pos 0, pos 0) else n)
    else n

absent :
    (key : String) (es : Dict String ℕ) → lookup key es ≡ none → All (λ e. (key == e.0) ≡ false) es
unfolding lookup
absent key [] h = tt
absent key (e ∷ es) h =
    (ground (arith, h, eq_iff key e.0, eq_iff e.0 key), absent key es (ground (arith, h)))

-- The report on one user, from its counts `n`.
unfoldable pub bill : ℤ → (String → ℤ) → (String → ℤ × ℤ) → String → List UserTraffic
bill least uid_of n key =
    if is_due least (storage (n key))
    then (if uid_of key == pos 0
        then []
        else record { uid = uid_of key; upload = (n key).0; download = (n key).1 } ∷ [])
    else []

-- The reports on all users of the list.
unfoldable pub bills : ℤ → (String → ℤ) → (String → ℤ × ℤ) → Dict String ℕ → List UserTraffic
bills least uid_of n [] = []
bills least uid_of n ((key, p) ∷ es) = bill least uid_of n key ++ bills least uid_of n es

module _ (least : ℤ) (uid_of : String → ℤ) (reset : Bool) where
  module _ (key : String) (p : ℕ) (c : TrafficCounter) (slice : List UserTraffic)
      (valid : IsValid c) (found : lookup key c.counters ≡ some p) where
    visit-IsValid : IsValid (visit least uid_of reset key p (c, slice)).0
    unfolding visit
    visit-IsValid = elim (Bool-cases (is_due least (deref c p))) [
      | inl e ↦ elim (Bool-cases reset) [
        | inl r ↦ elim (Bool-cases (uid_of key == pos 0)) [
          | inl z ↦
              rw (e, r, z, visit)
                (delete_counter-IsValid (write c p empty_storage) key
                  (write-IsValid c p empty_storage valid))
          | inr z ↦ rw (e, r, z, visit) (write-IsValid c p empty_storage valid)
        ]
        | inr r ↦ elim (Bool-cases (uid_of key == pos 0)) [
          | inl z ↦ rw (e, r, z, visit) (delete_counter-IsValid c key valid)
          | inr z ↦ rw (e, r, z, visit) valid
        ]
      ]
      | inr e ↦ rw (e, visit) valid
    ]

    counts-visit :
        (v : String)
        → counts (visit least uid_of reset key p (c, slice)).0 v
          ≡ (if key == v then settle least (uid_of key) reset (counts c key) else counts c v)
    unfolding visit
    counts-visit v = ground (
      arith,
      found,
      eq_iff key v,
      counts-deref c key p found,
      counts-write c key v valid p empty_storage found,
      deleted_counts c key v valid,
      deleted_counts (write c p empty_storage) key v (write-IsValid c p empty_storage valid),
      int_eq.beq_iff (uid_of key) (pos 0),
    )

    visit_others :
        (v : String)
        → (key == v) ≡ false
        → lookup v (visit least uid_of reset key p (c, slice)).0.counters ≡ lookup v c.counters
    unfolding visit write delete_counter
    visit_others v ne = ground (arith, ne, lookup-delete key v c.counters)

    visit_other_counts :
        (v : String)
        → (key == v) ≡ false
        → counts (visit least uid_of reset key p (c, slice)).0 v ≡ counts c v
    visit_other_counts v ne = counts-visit v ∙ (rw (ne) refl)

    -- What a visit appends.
    visit_slice :
        (visit least uid_of reset key p (c, slice)).1 ≡ slice ++ bill least uid_of (counts c) key
    unfolding visit bill
    visit_slice =
        ground
          (arith, append-nil slice, counts-deref c key p found, int_eq.beq_iff (uid_of key) (pos 0))

bills_cong :
    (least : ℤ) (uid_of : String → ℤ) (n n' : String → ℤ × ℤ) (key : String) (es : Dict String ℕ)
    → ((v : String) → (key == v) ≡ false → n v ≡ n' v)
    → All (λ e. (key == e.0) ≡ false) es
    → bills least uid_of n es ≡ bills least uid_of n' es
unfolding bills bill
bills_cong least uid_of n n' key [] same other = refl
bills_cong least uid_of n n' key (e ∷ es) same other =
    cc (same e.0 other.0, bills_cong least uid_of n n' key es same other.1)

-- Every entry of the list is the one that a lookup finds.
abbrev Found : TrafficCounter → Dict String ℕ → Type 0
Found c es = All (λ e. lookup e.0 c.counters ≡ some e.1) es

Found-other :
    (c c' : TrafficCounter) (key : String) (es : Dict String ℕ)
    → ((v : String) → (key == v) ≡ false → lookup v c'.counters ≡ lookup v c.counters)
    → All (λ e. (key == e.0) ≡ false) es
    → Found c es
    → Found c' es
Found-other c c' key [] same other found = tt
Found-other c c' key (e ∷ es) same other found =
    (same e.0 other.0 ∙ found.0, Found-other c c' key es same other.1 found.1)

module _ (least : ℤ) (uid_of : String → ℤ) (reset : Bool) where
  visit_all_slice :
      (es : Dict String ℕ) (c : TrafficCounter) (slice : List UserTraffic)
      → IsValid c
      → HasDistinctKeys es
      → Found c es
      → (visit_all least uid_of reset es (c, slice)).1 ≡ slice ++ bills least uid_of (counts c) es
  unfolding visit_all bills
  visit_all_slice [] c slice valid distinct found = sym (append-nil slice)
  visit_all_slice ((key, p) ∷ es) c slice valid distinct found =
      let (c', slice') = visit least uid_of reset key p (c, slice) in
      let other = absent key es distinct.0 in
      visit_all_slice es c' slice' (visit-IsValid least uid_of reset key p c slice valid found.0)
        distinct.1
        (Found-other c c' key es (visit_others least uid_of reset key p c slice valid found.0) other
          found.1)
      ∙ ap (λ xs. slice' ++ xs)
          (bills_cong least uid_of (counts c') (counts c) key es
            (visit_other_counts least uid_of reset key p c slice valid found.0) other)
      ∙ ap (λ xs. xs ++ bills least uid_of (counts c) es)
          (visit_slice least uid_of reset key p c slice valid found.0)
      ∙ append_assoc slice (bill least uid_of (counts c) key) (bills least uid_of (counts c) es)

  counts-visit_all :
      (es : Dict String ℕ) (c : TrafficCounter) (slice : List UserTraffic) (v : String)
      → IsValid c
      → HasDistinctKeys es
      → Found c es
      → counts (visit_all least uid_of reset es (c, slice)).0 v
        ≡ (if is_some (lookup v es) then settle least (uid_of v) reset (counts c v) else counts c v)
  unfolding visit_all lookup
  counts-visit_all [] c slice v valid distinct found = refl
  counts-visit_all ((key, p) ∷ es) c slice v valid distinct found =
      let (c', slice') = visit least uid_of reset key p (c, slice) in
      let other = absent key es distinct.0 in
      let rest =
        counts-visit_all es c' slice' v
          (visit-IsValid least uid_of reset key p c slice valid found.0) distinct.1
          (Found-other c c' key es (visit_others least uid_of reset key p c slice valid found.0)
            other found.1) in
      elim (Bool-cases (key == v)) [
        | inl e ↦
            let k : key ≡ v = (eq_iff key v).0 e in
            let gone : lookup v es ≡ none = subst (λ k'. lookup k' es ≡ none) k distinct.0 in
            let visited = counts-visit least uid_of reset key p c slice valid found.0 v in
            rw (e) (
              rest
              ∙ rw (gone)
                  (visited ∙ rw (e) (ap (λ k'. settle least (uid_of k') reset (counts c k')) k)))
        | inr e ↦ rw (e) (
            rest
            ∙ ap (λ n. if is_some (lookup v es) then settle least (uid_of v) reset n else n)
                (visit_other_counts least uid_of reset key p c slice valid found.0 v e))
      ]

module _ (least : ℤ) (uid_of : String → ℤ) (reset : Bool) (c : TrafficCounter) (valid : IsValid c)
    (distinct : HasDistinctKeys c.counters) where
  -- GetUserTrafficSlice reports exactly the users of the node that are known to the core and whose
  -- counts together are above the least traffic, each with the counts that it had before the call.
  -- The counts of the others stay as they are. Those of the users above it are 0 afterwards, where
  -- they are reset or the user is not known; where they are not reset, a known user keeps them.
  pub traffic_slice_lem :
      ((traffic_slice least uid_of reset c).1 ≡ bills least uid_of (counts c) c.counters)
      × ((v : String)
          → counts (traffic_slice least uid_of reset c).0 v ≡ (
              if is_some (lookup v c.counters)
              then settle least (uid_of v) reset (counts c v)
              else counts c v))
  unfolding traffic_slice
  traffic_slice_lem =
      let found = lookup-entry c.counters distinct in
      (
        visit_all_slice least uid_of reset c.counters c [] valid distinct found,
        λ v. counts-visit_all least uid_of reset c.counters c [] v valid distinct found,
      )
