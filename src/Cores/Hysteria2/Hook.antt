-- ===== src/Cores/Hysteria2/Hook.antt =====
-- field/hy2/hook.go, LogTraffic: the traffic that hysteria reports for a user.
use mathlib.Core.Path.{subst}
use v2b_x_liusu.Prelude.{
  ◌≡◌, refl, ap, ◌∙◌, Bool-cases, inl, inr, ℕ, String, Bool, true, false, not, Option, none, some,
  if◌then◌else◌, arith, eq_iff,
}
use v2b_x_liusu.Prelude.Int.{ℤ, pos, to_int64, add64}
use v2b_x_liusu.Prelude.Eq.{◌==◌, string_eq, nat_eq}
use v2b_x_liusu.Dict.{Dict, lookup, insert, lookup-insert_self}
use v2b_x_liusu.Text.{user_tag}
use v2b_x_liusu.Limiter.{Limiter, UserLimitInfo}
use v2b_x_liusu.Limiter.Check.{check_limit}
use v2b_x_liusu.Limiter.Registry.{Registry, deref, write, deref-write, get_limiter}
use v2b_x_liusu.Counter.{TrafficCounter, new_traffic_counter, rx, tx, get_up_count, get_down_count}
use v2b_x_liusu.Counter.Laws.{IsValid, counts, counts-rx-tx, rx-IsValid}
use v2b_x_liusu.Cores.Hysteria2.{HookServer}

-- h.Counter.Load(h.Tag), or new counters.
unfoldable pub counter_at : String → Dict String TrafficCounter → TrafficCounter
counter_at tag counters = elim (lookup tag counters) [ none ↦ new_traffic_counter | some c ↦ c ]

counter_at-insert :
    (tag : String) (c : TrafficCounter) (counters : Dict String TrafficCounter)
    → counter_at tag (insert tag c counters) ≡ c
unfolding counter_at
counter_at-insert tag c counters = ground (arith, lookup-insert_self tag c counters)

-- The counts of a report: what came in is Rx, and what went out Tx.
unfoldable pub count : String → ℕ → ℕ → HookServer → HookServer
unfolding counter_at
count id sent received h =
    let c = counter_at h.tag h.counter in
    record h {
      counter =
          insert h.tag (tx (rx c id (to_int64 (pos received))) id (to_int64 (pos sent))) h.counter;
    }

-- The user's flag is taken back, and the report is refused.
abbrev pub clear_over_limit : {B R : Type 0} → String → UserLimitInfo → Limiter B R → Limiter B R
clear_over_limit taguuid u l = record l {
  user_limit_info = insert taguuid (record u { over_limit = false }) l.user_limit_info;
}

module _ {B R : Type 0} where
  -- LogTraffic(id, tx, rx): false makes hysteria close the connection.
  unfoldable pub log_traffic :
      String → ℕ → ℕ → Registry B R × HookServer → (Registry B R × HookServer) × Bool
  unfolding count
  log_traffic id sent received (r, h) = elim (get_limiter h.tag r) [
    | none ↦ ((r, h), false)
    | some p ↦ elim (deref p r) [
      | none ↦ ((r, h), false)
      | some l ↦ elim (lookup (user_tag h.tag id) l.user_limit_info) [
        | none ↦ ((r, count id sent received h), true)
        | some u ↦
            if u.over_limit
            then ((write p (clear_over_limit (user_tag h.tag id) u l) r, h), false)
            else ((r, count id sent received h), true)
      ]
    ]
  ]

module _ {B R : Type 0} (new_bucket : ℤ → B) (now : ℤ) where
  -- The user's flag is whether CheckLimit rejects.
  unfoldable pub flag_over_limit : String → String → Limiter B R → Limiter B R
  unfolding check_limit
  flag_over_limit taguuid ip l =
      let (l', bucket, reject) = check_limit new_bucket now taguuid ip true l in
      elim (lookup taguuid l'.user_limit_info) [
        | none ↦ l'
        | some u ↦ record l' {
          user_limit_info = insert taguuid (record u { over_limit = reject }) l'.user_limit_info;
        }
      ]

  -- Connect(addr, uuid, tx), told of a client; `none` is the panic where the node has no limiter.
  unfoldable pub connect : String → String → String → Registry B R → Option (Registry B R)
  unfolding flag_over_limit user_tag
  connect tag uuid ip r = elim (get_limiter tag r) [
    | none ↦ none
    | some p ↦ elim (deref p r) [
      | none ↦ none
      | some l ↦ some (write p (flag_over_limit (user_tag tag uuid) ip l) r)
    ]
  ]

  -- TCPRequest and UDPRequest, told of a stream and of a session, do the same.
  unfoldable pub tcp_request : String → String → String → Registry B R → Option (Registry B R)
  unfolding connect
  tcp_request = connect

  unfoldable pub udp_request : String → String → String → Registry B R → Option (Registry B R)
  unfolding connect
  udp_request = connect

module _ (id v : String) (sent received : ℕ) (h : HookServer)
    (valid : IsValid (counter_at h.tag h.counter)) where
  -- The counts of a user at the hook.
  abbrev counts_at : HookServer → ℤ × ℤ
  counts_at h' = counts (counter_at h'.tag h'.counter) v

  -- A report of LogTraffic that is taken adds the bytes that were sent to the bytes up of its user
  -- and those received to the bytes down, and changes the counts of no other user of the node.
  pub count-counts : counts_at (count id sent received h) ≡ (
      if id == v
      then (
        add64 (get_up_count (counter_at h.tag h.counter) id) (to_int64 (pos sent)),
        add64 (get_down_count (counter_at h.tag h.counter) id) (to_int64 (pos received)),
      )
      else counts_at h)
  unfolding count
  count-counts =
      let c = counter_at h.tag h.counter in
      let n = to_int64 (pos received) in
      let k = to_int64 (pos sent) in
      let c' = rx c id n in
      ap (λ x. counts x v) (counter_at-insert h.tag (tx c' id k) h.counter)
      ∙ (counts-rx-tx c' id v k (rx-IsValid c id n valid)).1
      ∙ ground
          (arith, (counts-rx-tx c id v n valid).0, (counts-rx-tx c id id n valid).0, eq_iff id id)

module _ {B R : Type 0} (p : ℕ) (l : Limiter B R) (r : Registry B R) where
  get_limiter-write :
      (tag : String) → get_limiter tag r ≡ some p → get_limiter tag (write p l r) ≡ some p
  unfolding get_limiter write
  get_limiter-write tag h = h

-- What LogTraffic does for a user that the limiter knows.
log_traffic_known :
    {B R : Type 0} (id : String) (sent received : ℕ) (h : HookServer) (p : ℕ) (r : Registry B R)
    (l : Limiter B R) (u : UserLimitInfo)
    → get_limiter h.tag r ≡ some p
    → deref p r ≡ some l
    → lookup (user_tag h.tag id) l.user_limit_info ≡ some u
    → log_traffic id sent received (r, h) ≡ (
        if u.over_limit
        then ((write p (clear_over_limit (user_tag h.tag id) u l) r, h), false)
        else ((r, count id sent received h), true))
unfolding log_traffic
log_traffic_known id sent received h p r l u found at known =
    rw (found, at, known, log_traffic) refl

-- The verdicts of LogTraffic on two reports of such a user.
log_traffic_twice :
    {B R : Type 0} (id : String) (sent received sent' received' : ℕ) (h : HookServer) (p : ℕ)
    (r : Registry B R) (l : Limiter B R) (u : UserLimitInfo)
    → get_limiter h.tag r ≡ some p
    → deref p r ≡ some l
    → lookup (user_tag h.tag id) l.user_limit_info ≡ some u
    → let first = log_traffic id sent received (r, h) in
      (first.1 ≡ not u.over_limit) × ((log_traffic id sent' received' first.0).1 ≡ true)
unfolding count
log_traffic_twice id sent received sent' received' h p r l u found at known =
    let first = log_traffic_known id sent received h p r l u found at known in
    elim (Bool-cases u.over_limit) [
      | inl flagged ↦
          let l' = clear_over_limit (user_tag h.tag id) u l in
          (
            rw (first, flagged) refl,
            rw (first, flagged)
                (ap (λ x. x.1)
                  (log_traffic_known id sent' received' h p (write p l' r) l'
                    (record u { over_limit = false }) (get_limiter-write p l' r h.tag found)
                    (deref-write p l' r) (lookup-insert_self _ _ _))),
          )
      | inr clear ↦ (
        rw (first, clear) refl,
        rw (first, clear)
            (ap (λ x. x.1)
                (log_traffic_known id sent' received' (count id sent received h) p r l u found at
                  known)
              ∙ (rw (clear) refl)),
      )
    ]

module _ {B R : Type 0} (new_bucket : ℤ → B) (now : ℤ) (id ip : String) (h : HookServer)
    (r r' : Registry B R) (p : ℕ) (l : Limiter B R) (u : UserLimitInfo) where
  flag_over_limit-user :
      let (l', bucket, reject) = check_limit new_bucket now (user_tag h.tag id) ip true l in
      lookup (user_tag h.tag id) l'.user_limit_info ≡ some u
      → lookup
          (user_tag h.tag id)
          (flag_over_limit new_bucket now (user_tag h.tag id) ip l).user_limit_info
        ≡ some (record u { over_limit = reject })
  unfolding flag_over_limit
  flag_over_limit-user known = rw (known, flag_over_limit) (lookup-insert_self _ _ _)

  -- After a Connect of a user that the limiter knows still, LogTraffic takes the next report of the
  -- user, from whichever of its devices, exactly where CheckLimit took the connection. Where
  -- nothing comes in between, it takes the report after that in every case: a refusal refuses one
  -- report, and not a device.
  pub connect-log_traffic :
      (sent received sent' received' : ℕ)
      → get_limiter h.tag r ≡ some p
      → deref p r ≡ some l
      → lookup
          (user_tag h.tag id)
          (check_limit new_bucket now (user_tag h.tag id) ip true l).0.user_limit_info
        ≡ some u
      → connect new_bucket now h.tag id ip r ≡ some r'
      → let first = log_traffic id sent received (r', h) in
        (first.1 ≡ not (check_limit new_bucket now (user_tag h.tag id) ip true l).2)
        × ((log_traffic id sent' received' first.0).1 ≡ true)
  unfolding connect
  connect-log_traffic sent received sent' received' found at known connected =
      let l' = flag_over_limit new_bucket now (user_tag h.tag id) ip l in
      let same : write p l' r ≡ r' = ground (arith, rw (found, at, connect) at connected) in
      subst
        (λ x.
          let first = log_traffic id sent received (x, h) in
          (first.1 ≡ not (check_limit new_bucket now (user_tag h.tag id) ip true l).2)
          × ((log_traffic id sent' received' first.0).1 ≡ true))
        same
        (log_traffic_twice id sent received sent' received' h p (write p l' r) l' _
          (get_limiter-write p l' r h.tag found) (deref-write p l' r) (flag_over_limit-user known))
