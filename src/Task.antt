-- ===== src/Task.antt =====
-- base/task/task.go: a function that is called again and again until it fails or is stopped.
-- A state holds the fields of a `Task` and every goroutine that a Start has left behind; an event is
-- one step of a caller or of a goroutine. The mutex makes Start and Close one step each. A goroutine
-- reads `t.stop` each time it comes to the `select`, without the mutex, and that is a step too.
pub mod Invariant
pub mod Restart
use v2b_x_liusu.Prelude.{
  ℕ, ◌+◌, Bool, true, false, not, ◌&&◌, ◌||◌, List, [], ◌∷◌, ◌++◌, Option, none, some, get_elem?,
  set, if◌then◌else◌,
}
use v2b_x_liusu.Prelude.Eq.{◌==◌, nat_eq}
use v2b_x_liusu.Prelude.Int.{ℤ}

-- Where a goroutine stands: before the `select`, in it with the channel that it read, in
-- `Execute`, or gone. A nil channel is `none`.
pub data Phase : Type 0 where
  ready : Phase
  waiting : Option ℕ → Phase
  executing : Phase
  ended : Phase

-- Channels are numbered as they are made; `crashed` is a panic on closing a closed or nil channel.
pub record Task : Type 0 where
  pub interval : ℤ
  pub running : Bool
  pub stop : Option ℕ
  pub made : ℕ
  pub closed : ℕ → Bool
  pub loops : List Phase
  pub crashed : Bool

-- &task.Task{Interval: interval, Execute: …}
unfoldable pub new_task : ℤ → Task
new_task interval = record {
  interval = interval;
  running = false;
  stop = none;
  made = 0;
  closed = λ c. false;
  loops = [];
  crashed = false;
}

abbrev pub is_closed : Task → Option ℕ → Bool
is_closed t none = false
is_closed t (some c) = t.closed c

-- close(t.stop)
unfoldable pub close_stop : Option ℕ → Task → Task
close_stop none t = record t { crashed = true }
close_stop (some c) t =
    if t.closed c
    then record t { crashed = true }
    else record t { closed = λ d. d == c || t.closed d }

-- A new channel and a goroutine.
unfoldable pub launch : Bool → Task → Task
launch first t = record t {
  running = true;
  stop = some t.made;
  made = t.made + 1;
  loops = t.loops ++ (if first then executing else ready) ∷ [];
}

-- Start(first)
unfoldable pub start : Bool → Task → Task
unfolding launch
start first t = if t.running then t else launch first t

-- Close()
unfoldable pub close : Task → Task
unfolding close_stop
close t = if t.running then close_stop t.stop (record t { running = false }) else t

-- `Execute` of a goroutine returns; on an error the goroutine stops the task and returns.
unfoldable pub returns : Bool → ℕ → Task → Task
unfolding close_stop
returns true i t = record t { loops = set t.loops i ready }
returns false i t = close_stop t.stop (record t { running = false; loops = set t.loops i ended })

pub data Event : Type 0 where
  starts : Bool → Event
  closes : Event
  selects : ℕ → Event
  fires : ℕ → Event
  stops : ℕ → Event
  finishes : Bool → ℕ → Event

-- What goroutine `i` does at an event, by where it stands: it comes to the `select`; its timer
-- fires; it takes the closed channel; its `Execute` returns. Elsewhere the event is no step.
unfoldable pub goroutine : Event → ℕ → Phase → Task → Task
unfolding returns
goroutine (selects j) i ready t = record t { loops = set t.loops i (waiting t.stop) }
goroutine (fires j) i (waiting c) t = record t { loops = set t.loops i executing }
goroutine (stops j) i (waiting c) t =
    if is_closed t c then record t { loops = set t.loops i ended } else t
goroutine (finishes success j) i executing t = returns success i t
goroutine _ i phase t = t

unfoldable pub at_loop : Event → ℕ → Task → Task
unfolding goroutine
at_loop e i t = elim (get_elem? t.loops i) [ none ↦ t | some phase ↦ goroutine e i phase t ]

-- A panic ends the program.
unfoldable pub step : Task → Event → Task
unfolding start close at_loop
step t (starts first) = if t.crashed then t else start first t
step t closes = if t.crashed then t else close t
step t (selects i) = if t.crashed then t else at_loop (selects i) i t
step t (fires i) = if t.crashed then t else at_loop (fires i) i t
step t (stops i) = if t.crashed then t else at_loop (stops i) i t
step t (finishes success i) = if t.crashed then t else at_loop (finishes success i) i t

unfoldable pub run : Task → List Event → Task
run t [] = t
run t (e ∷ es) = run (step t e) es
