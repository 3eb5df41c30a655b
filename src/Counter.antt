-- ===== src/Counter.antt =====
-- base/counter/traffic.go: the bytes that each user has sent and received. A connection holds a
-- pointer to its user's counters, so the counters stand in a heap: an entry that leaves the map lives
-- on. Each atomic access is one step.
pub mod Laws
pub mod Conn
use v2b_x_liusu.Prelude.{ℕ, ◌+◌, String, [], none, some, length}
use v2b_x_liusu.Prelude.Eq.{nat_eq, string_eq}
use v2b_x_liusu.Prelude.Int.{ℤ, pos, add64}
use v2b_x_liusu.Dict.{Dict, lookup, insert, delete}

pub record TrafficStorage : Type 0 where
  pub up_counter : ℤ
  pub down_counter : ℤ

abbrev pub empty_storage : TrafficStorage
empty_storage = record { up_counter = pos 0; down_counter = pos 0 }

pub record TrafficCounter : Type 0 where
  pub counters : Dict String ℕ
  pub heap : Dict ℕ TrafficStorage
  pub next : ℕ

-- NewTrafficCounter()
unfoldable pub new_traffic_counter : TrafficCounter
new_traffic_counter = record { counters = []; heap = []; next = 0 }

-- The counters at a pointer. Every pointer that is handed out has some.
unfoldable pub deref : TrafficCounter → ℕ → TrafficStorage
deref c p = elim (lookup p c.heap) [ none ↦ empty_storage | some s ↦ s ]

unfoldable pub write : TrafficCounter → ℕ → TrafficStorage → TrafficCounter
write c p s = record c { heap = insert p s c.heap }

-- UpCounter.Add(n) and DownCounter.Add(n), which wrap around.
unfoldable pub add_up : TrafficStorage → ℤ → TrafficStorage
unfolding add64
add_up s n = record s { up_counter = add64 s.up_counter n }

unfoldable pub add_down : TrafficStorage → ℤ → TrafficStorage
unfolding add64
add_down s n = record s { down_counter = add64 s.down_counter n }

-- GetCounter(uuid). The load and the LoadOrStore that follows it are one step here: only a key that
-- both do not find makes new counters.
unfoldable pub get_counter : TrafficCounter → String → TrafficCounter × ℕ
get_counter c uuid = elim (lookup uuid c.counters) [
  | some p ↦ (c, p)
  | none ↦ (
    record {
      counters = insert uuid c.next c.counters;
      heap = insert c.next empty_storage c.heap;
      next = c.next + 1;
    },
    c.next,
  )
]

-- GetUpCount(uuid)
unfoldable pub get_up_count : TrafficCounter → String → ℤ
unfolding deref
get_up_count c uuid = elim (lookup uuid c.counters) [
  | some p ↦ (deref c p).up_counter
  | none ↦ pos 0
]

-- GetDownCount(uuid)
unfoldable pub get_down_count : TrafficCounter → String → ℤ
unfolding deref
get_down_count c uuid = elim (lookup uuid c.counters) [
  | some p ↦ (deref c p).down_counter
  | none ↦ pos 0
]

-- Len()
unfoldable pub len : TrafficCounter → ℕ
len c = length c.counters

-- Reset(uuid)
unfoldable pub reset : TrafficCounter → String → TrafficCounter
unfolding write
reset c uuid = elim (lookup uuid c.counters) [ some p ↦ write c p empty_storage | none ↦ c ]

-- Delete(uuid)
unfoldable pub delete_counter : TrafficCounter → String → TrafficCounter
delete_counter c uuid = record c { counters = delete uuid c.counters }

-- Rx(uuid, n)
unfoldable pub rx : TrafficCounter → String → ℤ → TrafficCounter
unfolding get_counter write deref add_down
rx c uuid n = let (c', p) = get_counter c uuid in write c' p (add_down (deref c' p) n)

-- Tx(uuid, n)
unfoldable pub tx : TrafficCounter → String → ℤ → TrafficCounter
unfolding get_counter write deref add_up
tx c uuid n = let (c', p) = get_counter c uuid in write c' p (add_up (deref c' p) n)
