-- ===== src/Cores/Sing/Hook/Counts.antt =====
-- field/sing/hook.go: which connections are closed, and whose counts their bytes reach.
use mathlib.Core.Path.{subst}
use v2b_x_liusu.Prelude.{
  ◌≡◌, refl, sym, ap, ◌∙◌, ℕ, ◌+◌, ◌<◌, ◌^◌, String, Bool, ◌&&◌, List, Option, some, if◌then◌else◌,
  Bool-cases, Option-cases, inl, inr, arith, eq_iff,
}
use v2b_x_liusu.Prelude.Int.{ℤ, pos}
use v2b_x_liusu.Prelude.Eq.{◌==◌, string_eq, beq_self}
use v2b_x_liusu.Dict.{Dict, lookup, insert, lookup-insert}
use v2b_x_liusu.Text.{user_tag}
use v2b_x_liusu.Limiter.{Limiter}
use v2b_x_liusu.Limiter.Check.{check_limit}
use v2b_x_liusu.Limiter.Registry.{Registry, deref, get_limiter}
use v2b_x_liusu.Counter.{TrafficStorage, TrafficCounter, get_counter, write, deref as deref_counter}
use v2b_x_liusu.Counter.Conn.{Transfer, transfers}
use v2b_x_liusu.Counter.Conn.Sums.{AllBuffered, bytes_in, bytes_out, transfers_exact}
use v2b_x_liusu.Counter.Laws.{
  IsValid, counts, get_counter-IsValid, counts-get_counter, get_counter_found, counts-deref,
  counts-write,
}
use v2b_x_liusu.Cores.Sing.Hook.{
  Connection, Routed, counted, Hook, counter_at, count_user, rejected_by_rule, pass_rules,
  bucket_for, route,
}

-- The counters of every inbound are valid.
abbrev pub AllValid : Dict String TrafficCounter → Type 0
AllValid counters = (t : String) → IsValid (counter_at t counters)

module _ (inbound user : String) (counters : Dict String TrafficCounter)
    (valid : AllValid counters) where
  counter_at-insert :
      (t : String) (c : TrafficCounter)
      → counter_at t (insert inbound c counters)
        ≡ (if inbound == t then c else counter_at t counters)
  unfolding counter_at
  counter_at-insert t c = ground (arith, lookup-insert inbound t c counters)

  counter_at-insert_self : (c : TrafficCounter) → counter_at inbound (insert inbound c counters) ≡ c
  counter_at-insert_self c = ground (arith, counter_at-insert inbound c, beq_self inbound)

  count_user-found :
      lookup user (counter_at inbound (count_user inbound user counters).0).counters
      ≡ some (count_user inbound user counters).1
  unfolding count_user
  count_user-found =
      let c = counter_at inbound counters in
      ap (λ x. lookup user x.counters) (counter_at-insert_self (get_counter c user).0)
      ∙ get_counter_found c user

  count_user-counts :
      (t v : String)
      → counts (counter_at t (count_user inbound user counters).0) v
        ≡ counts (counter_at t counters) v
  unfolding count_user
  count_user-counts t v =
      let c = counter_at inbound counters in
      ap (λ x. counts x v) (counter_at-insert t (get_counter c user).0)
      ∙ elim (Bool-cases (inbound == t)) [
        | inl e ↦ rw (e) (
            counts-get_counter c user v (valid inbound)
            ∙ ap (λ t. counts (counter_at t counters) v) ((eq_iff inbound t).0 e))
        | inr e ↦ rw (e) refl
      ]

  count_user-AllValid : AllValid (count_user inbound user counters).0
  unfolding count_user
  count_user-AllValid t =
      let c = counter_at inbound counters in
      subst IsValid (sym (counter_at-insert t (get_counter c user).0))
        (elim (Bool-cases (inbound == t)) [
          | inl e ↦ rw (e) (get_counter-IsValid c user (valid inbound))
          | inr e ↦ rw (e) (valid t)
        ])

-- The counters at the pointer are those of the user of the connection.
abbrev BelongsTo : {B : Type 0} → Connection → Dict String TrafficCounter → Routed B → Type 0
BelongsTo m counters (counted bucket q) =
    lookup m.user (counter_at m.inbound counters).counters ≡ some q
BelongsTo m counters _ = Unit

-- A handler keeps the counters valid and every count, and counts for the user.
abbrev Keeps : {B R : Type 0} → Connection → Hook B R → Hook B R × Routed B → Type 0
Keeps m h (h', result) =
    AllValid h'.counters
    × ((t v : String) → counts (counter_at t h'.counters) v ≡ counts (counter_at t h.counters) v)
    × BelongsTo m h'.counters result

module _ {B R : Type 0} (new_bucket : ℤ → B) (match_string : R → String → Bool) (now : ℤ)
    (m : Connection) (h : Hook B R) (valid : AllValid h.counters) where
  pass_rules-Keeps :
      (l : Limiter B R) (bucket : Option B) (registry : Registry B R)
      → Keeps m h (pass_rules new_bucket match_string l m bucket (record h { registry = registry }))
  unfolding pass_rules
  pass_rules-Keeps l bucket registry =
      elim (Bool-cases (rejected_by_rule new_bucket match_string l m)) [
        | inl e ↦ rw (e, pass_rules) (valid, λ t v. refl, tt)
        | inr e ↦
            rw (e, pass_rules)
              (
                count_user-AllValid m.inbound m.user h.counters valid,
                count_user-counts m.inbound m.user h.counters valid,
                count_user-found m.inbound m.user h.counters valid,
              )
      ]

  route-Keeps : (stream : Bool) → Keeps m h (route new_bucket match_string stream now m h)
  unfolding route
  route-Keeps stream = elim (Option-cases (get_limiter m.inbound h.registry)) [
    | inl e ↦ rw (e, route) (valid, λ t v. refl, tt)
    | inr (p, e) ↦ elim (Option-cases (deref p h.registry)) [
      | inl d ↦ rw (e, d, route) (valid, λ t v. refl, tt)
      | inr (l, d) ↦
          let r = check_limit new_bucket now (user_tag m.inbound m.user) m.source stream l in
          rw (e, d, route)
            (elim (Bool-cases r.2) [
              | inl reject ↦ rw (reject) (valid, λ t v. refl, tt)
              | inr accept ↦
                  rw (accept)
                    (pass_rules-Keeps r.0 (bucket_for new_bucket match_string stream r.1) _)
            ])
    ]
  ]

-- The wrapper around the connection counts the transfers by the counters at its pointer.
abbrev pub count_transfers :
    String → ℕ → List Transfer → Dict String TrafficCounter → Dict String TrafficCounter
count_transfers inbound q ts counters =
    let c = counter_at inbound counters in
    insert inbound (write c q (transfers (deref_counter c q) ts)) counters

abbrev both : ℕ → ℕ → ℤ × ℤ
both a b = (pos a, pos b)

storage_counts :
    (s : TrafficStorage) (a b : ℕ)
    → (s.up_counter, s.down_counter) ≡ both a b
    → s ≡ record { up_counter = pos a; down_counter = pos b }
storage_counts s a b h = cc

module _ (inbound user : String) (q : ℕ) (ts : List Transfer) (a b : ℕ) (w : AllBuffered ts)
    (small_in : a + bytes_in ts < 2 ^ 63) (small_out : b + bytes_out ts < 2 ^ 63) where
  count_transfers-counts :
      (counters : Dict String TrafficCounter)
      → AllValid counters
      → lookup user (counter_at inbound counters).counters ≡ some q
      → counts (counter_at inbound counters) user ≡ both a b
      → (t v : String)
      → counts (counter_at t (count_transfers inbound q ts counters)) v ≡ (
          if inbound == t && user == v
          then both (a + bytes_in ts) (b + bytes_out ts)
          else counts (counter_at t counters) v)
  count_transfers-counts counters valid found before t v =
      let c = counter_at inbound counters in
      let s = transfers (deref_counter c q) ts in
      let after : s
          ≡ record { up_counter = pos (a + bytes_in ts); down_counter = pos (b + bytes_out ts) } =
        ap (λ x. transfers x ts)
          (storage_counts (deref_counter c q) a b (counts-deref c user q found ∙ before))
        ∙ transfers_exact ts a b w small_in small_out in
      ap (λ x. counts x v) (counter_at-insert inbound user counters valid t (write c q s))
      ∙ elim (Bool-cases (inbound == t)) [
        | inl e ↦ rw (e) (
            counts-write c user v (valid inbound) q s found
            ∙ ap (λ x. if user == v then (x.up_counter, x.down_counter) else counts c v) after
            ∙ ap
                (λ k.
                  if user == v
                  then both (a + bytes_in ts) (b + bytes_out ts)
                  else counts (counter_at k counters) v)
                ((eq_iff inbound t).0 e))
        | inr e ↦ rw (e) refl
      ]

module _ {B R : Type 0} (new_bucket : ℤ → B) (match_string : R → String → Bool) (now : ℤ)
    (m : Connection) (h : Hook B R) (bucket : Option B) (q : ℕ) (ts : List Transfer) (a b : ℕ) where
  -- Where the hook counts a connection, the bytes that come in and go out over it by buffers and
  -- packets are added to the counts of its user at its inbound, from counts that with the new bytes
  -- stay below 2^63. The counts of all other users and inbounds are as they were before the
  -- connection came.
  pub routed_bytes_counted :
      (stream : Bool)
      → AllValid h.counters
      → counts (counter_at m.inbound h.counters) m.user ≡ both a b
      → (route new_bucket match_string stream now m h).1 ≡ counted bucket q
      → AllBuffered ts
      → a + bytes_in ts < 2 ^ 63
      → b + bytes_out ts < 2 ^ 63
      → (t v : String)
      → counts
          (counter_at t (
            count_transfers m.inbound q ts
              (route new_bucket match_string stream now m h).0.counters))
          v
        ≡ (if m.inbound == t && m.user == v
            then both (a + bytes_in ts) (b + bytes_out ts)
            else counts (counter_at t h.counters) v)
  routed_bytes_counted stream valid before result w small_in small_out t v =
      let (valid', same, owned) = route-Keeps new_bucket match_string now m h valid stream in
      let h' = (route new_bucket match_string stream now m h).0 in
      count_transfers-counts m.inbound m.user q ts a b w small_in small_out h'.counters valid'
        (subst (BelongsTo m h'.counters) result owned) (same m.inbound m.user ∙ before) t v
      ∙ ap
          (λ n.
            if m.inbound == t && m.user == v then both (a + bytes_in ts) (b + bytes_out ts) else n)
          (same t v)
