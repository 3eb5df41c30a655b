-- ===== src/Cores/Sing/Hook.antt =====
-- field/sing/hook.go: a connection that the box has routed, as the hook passes, closes or counts it.
pub mod Closes
pub mod Counts
use v2b_x_liusu.Prelude.{
  ℕ, String, Bool, true, false, not, ◌&&◌, ◌||◌, Option, none, some, if◌then◌else◌,
}
use v2b_x_liusu.Prelude.Int.{ℤ}
use v2b_x_liusu.Prelude.Eq.{◌==◌, string_eq}
use v2b_x_liusu.Dict.{Dict, lookup, insert}
use v2b_x_liusu.Text.{user_tag}
use v2b_x_liusu.Limiter.{Limiter}
use v2b_x_liusu.Limiter.Check.{check_limit}
use v2b_x_liusu.Limiter.Rules.{check_domain_rule, check_protocol_rule}
use v2b_x_liusu.Limiter.Registry.{Registry, deref, write, get_limiter}
use v2b_x_liusu.Counter.{TrafficCounter, new_traffic_counter, get_counter}

-- What adapter.InboundContext says of the connection. `protocol` is m.Protocol of a stream, and
-- m.Destination.Network() of packets.
pub record Connection : Type 0 where
  pub inbound : String
  pub user : String
  pub source : String
  pub destination : String
  pub protocol : String

-- What becomes of it: it is left as it is, closed, or counted by the counters at a pointer, with the
-- bucket that slows it.
pub data Routed (B : Type 0) : Type 0 where
  passed closed : Routed B
  counted : Option B → ℕ → Routed B

-- The state that the hook reaches: the table of limiters, and its own counters.
pub record Hook (B R : Type 0) : Type 0 where
  pub registry : Registry B R
  pub counters : Dict String TrafficCounter

-- h.counter.Load(inbound), or a new one.
unfoldable pub counter_at : String → Dict String TrafficCounter → TrafficCounter
counter_at inbound counters = elim (lookup inbound counters) [
  | none ↦ new_traffic_counter
  | some c ↦ c
]

-- t.GetCounter(user) of the inbound's counters, which are stored where they are new.
unfoldable pub count_user :
    String → String → Dict String TrafficCounter → Dict String TrafficCounter × ℕ
unfolding counter_at
count_user inbound user counters =
    let (c, p) = get_counter (counter_at inbound counters) user in (insert inbound c counters, p)

module _ {B R : Type 0} (new_bucket : ℤ → B) (match_string : R → String → Bool) where
  -- A rule on the destination, or on the protocol where there is one, rejects the connection.
  unfoldable pub rejected_by_rule : Limiter B R → Connection → Bool
  rejected_by_rule l m =
      check_domain_rule match_string l m.destination
      || (not (m.protocol == "") && check_protocol_rule l m.protocol)

  -- The end of the handlers: the rules, then the counters.
  unfoldable pub pass_rules : Limiter B R → Connection → Option B → Hook B R → Hook B R × Routed B
  unfolding rejected_by_rule count_user
  pass_rules l m bucket h =
      let (counters, p) = count_user m.inbound m.user h.counters in
      if rejected_by_rule l m
      then (h, closed)
      else (record h { counters = counters }, counted bucket p)

  -- The bucket of a stream; packets have none.
  abbrev pub bucket_for : Bool → Option B → Option B
  bucket_for true bucket = bucket
  bucket_for false bucket = none

  -- Both handlers, at the time `now`: streams count devices and are slowed, packets are not.
  unfoldable pub route : Bool → ℤ → Connection → Hook B R → Hook B R × Routed B
  unfolding pass_rules
  route stream now m h = elim (get_limiter m.inbound h.registry) [
    | none ↦ (h, passed)
    | some p ↦ elim (deref p h.registry) [
      | none ↦ (h, passed)
      | some l ↦
          let (l', bucket, reject) =
            check_limit new_bucket now (user_tag m.inbound m.user) m.source stream l in
          let h' : Hook B R = record h { registry = write p l' h.registry } in
          if reject then (h', closed) else pass_rules l' m (bucket_for stream bucket) h'
    ]
  ]

  -- RoutedConnection
  unfoldable pub routed_connection : ℤ → Connection → Hook B R → Hook B R × Routed B
  unfolding route
  routed_connection = route true

  -- RoutedPacketConnection
  unfoldable pub routed_packet_connection : ℤ → Connection → Hook B R → Hook B R × Routed B
  unfolding route
  routed_packet_connection = route false
