-- ===== src/Counter/Laws.antt =====
-- What the counters of a user show after each call.
use v2b_x_liusu.Prelude.{
  ℕ, ◌<◌, ◌≡◌, String, none, some, arith, eq_iff, if◌then◌else◌, inl, inr, Option-cases,
}
use v2b_x_liusu.Prelude.Eq.{◌==◌, nat_eq, string_eq, nat_beq_iff}
use v2b_x_liusu.Prelude.Int.{ℤ, pos, add64}
use v2b_x_liusu.Dict.{lookup, lookup-insert, lookup-delete}
use v2b_x_liusu.Counter.{
  TrafficStorage, empty_storage, TrafficCounter, new_traffic_counter, deref, write, add_up,
  add_down, get_counter, get_up_count, get_down_count, reset, delete_counter, rx, tx,
}

-- Every pointer of the map has been handed out, and no two users share one.
pub record IsValid (c : TrafficCounter) : Type 0 where
  pub handed_out : (u : String) (p : ℕ) → lookup u c.counters ≡ some p → p < c.next
  pub not_shared :
      (u v : String) (p : ℕ) → lookup u c.counters ≡ some p → lookup v c.counters ≡ some p → u ≡ v

pub new_traffic_counter-IsValid : IsValid new_traffic_counter
unfolding new_traffic_counter lookup
new_traffic_counter-IsValid = record {
  handed_out = λ u p h. absurd (ground arith);
  not_shared = λ u v p h k. absurd (ground arith);
}

pub get_counter-IsValid :
    (c : TrafficCounter) (u : String) → IsValid c → IsValid (get_counter c u).0
unfolding get_counter
get_counter-IsValid c u v = record {
  handed_out =
      λ x p h. ground (arith, v.handed_out x p, eq_iff u x, lookup-insert u x c.next c.counters);
  not_shared = λ x y p h k. ground (
    arith,
    v.handed_out x p,
    v.handed_out y p,
    v.not_shared x y p,
    eq_iff u x,
    eq_iff u y,
    lookup-insert u x c.next c.counters,
    lookup-insert u y c.next c.counters,
  );
}

pub write-IsValid :
    (c : TrafficCounter) (p : ℕ) (s : TrafficStorage) → IsValid c → IsValid (write c p s)
unfolding write
write-IsValid c p s v = record { handed_out = v.handed_out; not_shared = v.not_shared }

pub rx-IsValid : (c : TrafficCounter) (u : String) (n : ℤ) → IsValid c → IsValid (rx c u n)
unfolding rx
rx-IsValid c u n v = write-IsValid _ _ _ (get_counter-IsValid c u v)

pub tx-IsValid : (c : TrafficCounter) (u : String) (n : ℤ) → IsValid c → IsValid (tx c u n)
unfolding tx
tx-IsValid c u n v = write-IsValid _ _ _ (get_counter-IsValid c u v)

pub delete_counter-IsValid :
    (c : TrafficCounter) (u : String) → IsValid c → IsValid (delete_counter c u)
unfolding delete_counter
delete_counter-IsValid c u v = record {
  handed_out = λ x p h. ground (arith, v.handed_out x p, lookup-delete u x c.counters);
  not_shared = λ x y p h k.
      ground
        (arith, v.not_shared x y p, lookup-delete u x c.counters, lookup-delete u y c.counters);
}

-- Both counts of a user.
abbrev pub counts : TrafficCounter → String → ℤ × ℤ
counts c u = (get_up_count c u, get_down_count c u)

module _ (c : TrafficCounter) (u v : String) (valid : IsValid c) where
  -- GetCounter changes no count: new counters start at 0.
  pub counts-get_counter : counts (get_counter c u).0 v ≡ counts c v
  unfolding get_counter get_up_count get_down_count
  counts-get_counter = elim (Option-cases (lookup v c.counters)) [
    | inl e ↦ ground (
      arith,
      eq_iff u v,
      lookup-insert u v c.next c.counters,
      nat_beq_iff c.next c.next,
      lookup-insert c.next c.next empty_storage c.heap,
    )
    | inr (p, e) ↦ ground (
      arith,
      eq_iff u v,
      valid.handed_out v p,
      lookup-insert u v c.next c.counters,
      nat_beq_iff c.next p,
      lookup-insert c.next p empty_storage c.heap,
    )
  ]

  -- A write at the pointer of one user changes the counts of that user only.
  pub counts-write :
      (p : ℕ) (s : TrafficStorage)
      → lookup u c.counters ≡ some p
      → counts (write c p s) v ≡ (if u == v then (s.up_counter, s.down_counter) else counts c v)
  unfolding write get_up_count get_down_count
  counts-write p s h = elim (Option-cases (lookup v c.counters)) [
    | inl e ↦ ground (arith, eq_iff u v)
    | inr (q, e) ↦
        ground
          (arith, eq_iff u v, valid.not_shared u v p, nat_beq_iff p q, lookup-insert p q s c.heap)
  ]

module _ (c : TrafficCounter) (u : String) where
  pub get_counter_found : lookup u (get_counter c u).0.counters ≡ some (get_counter c u).1
  unfolding get_counter
  get_counter_found = ground (arith, eq_iff u u, lookup-insert u u c.next c.counters)

  pub counts-deref :
      (p : ℕ)
      → lookup u c.counters ≡ some p
      → ((deref c p).up_counter, (deref c p).down_counter) ≡ counts c u
  unfolding get_up_count get_down_count
  counts-deref p h = rw (h, get_up_count, get_down_count)

module _ (c : TrafficCounter) (u v : String) (n : ℤ) (valid : IsValid c) where
  -- Rx adds to the bytes down of its user and Tx to the bytes up; a user that is not known counts
  -- from 0. The other count, and those of all other users, stay.
  pub counts-rx-tx :
      (counts (rx c u n) v
        ≡ (if u == v then (get_up_count c u, add64 (get_down_count c u) n) else counts c v))
      × (counts (tx c u n) v
          ≡ (if u == v then (add64 (get_up_count c u) n, get_down_count c u) else counts c v))
  unfolding rx tx
  counts-rx-tx =
      let (c', p) = get_counter c u in
      let valid' = get_counter-IsValid c u valid in
      let found = get_counter_found c u in
      let same = counts-deref c' u p found in
      (
        ground (
          arith,
          same,
          counts-get_counter c u v valid,
          counts-get_counter c u u valid,
          counts-write c' u v valid' p (add_down (deref c' p) n) found,
        ),
        ground (
          arith,
          same,
          counts-get_counter c u v valid,
          counts-get_counter c u u valid,
          counts-write c' u v valid' p (add_up (deref c' p) n) found,
        ),
      )

module _ (c : TrafficCounter) (u v : String) (valid : IsValid c) where
  missing_counts : lookup v c.counters ≡ none → counts c v ≡ (pos 0, pos 0)
  unfolding get_up_count get_down_count
  missing_counts h = ground arith

  pub deleted_counts :
      counts (delete_counter c u) v ≡ (if u == v then (pos 0, pos 0) else counts c v)
  unfolding delete_counter get_up_count get_down_count
  deleted_counts = ground (arith, lookup-delete u v c.counters)

  -- After Reset or Delete both counts of the user are 0, and those of all other users stay.
  pub counts-reset-delete_counter :
      (counts (reset c u) v ≡ (if u == v then (pos 0, pos 0) else counts c v))
      × (counts (delete_counter c u) v ≡ (if u == v then (pos 0, pos 0) else counts c v))
  unfolding reset
  counts-reset-delete_counter = (
    elim (Option-cases (lookup u c.counters)) [
      | inl e ↦ rw (e, reset) (ground (arith, eq_iff u v, missing_counts))
      | inr (p, e) ↦ rw (e, reset) (counts-write c u v valid p empty_storage e)
    ],
    deleted_counts,
  )
