-- ===== src/Task/Invariant.antt =====
-- The state of a task at every point of every schedule.
use mathlib.Core.Path.{subst}
use v2b_x_liusu.Prelude.{
  ℕ, ◌<◌, ◌≡◌, refl, Bool, true, false, List, [], ◌∷◌, Option, none, some, arith, ◌⊎◌, inl, inr,
  sym, is_some, get_elem?-set_cases, get_elem?-append_cases, get_elem?, set, if◌then◌else◌,
  Option-cases,
}
use v2b_x_liusu.Prelude.Eq.{nat_eq, nat_beq_iff}
use v2b_x_liusu.Prelude.Int.{ℤ}
use v2b_x_liusu.Task.{
  Phase, ready, waiting, executing, ended, Task, new_task, is_closed, close_stop, launch, start,
  close, Event, starts, closes, selects, fires, stops, finishes, goroutine, at_loop, step, run,
}

-- Every goroutine runs after a Start; in the `select` it waits on the channel of the task, or on a
-- closed one.
abbrev pub Waits : Task → Phase → Type 0
Waits t (waiting c) = (is_some t.stop ≡ true) × ((is_closed t c ≡ true) ⊎ (t.stop ≡ c))
Waits t ended = Unit
Waits t _ = is_some t.stop ≡ true

pub record IsValid (t : Task) : Type 0 where
  pub made_stop : (c : ℕ) → t.stop ≡ some c → c < t.made
  pub made_closed : (c : ℕ) → t.closed c ≡ true → c < t.made
  pub running_open : t.running ≡ true → (is_some t.stop ≡ true) × (is_closed t t.stop ≡ false)
  pub stopped_closed : t.running ≡ false → (t.stop ≡ none) ⊎ (is_closed t t.stop ≡ true)
  pub waits : (i : ℕ) (p : Phase) → get_elem? t.loops i ≡ some p → Waits t p

new_task-IsValid : (interval : ℤ) → IsValid (new_task interval)
unfolding new_task
new_task-IsValid interval = record {
  made_stop = λ c h. ground arith;
  made_closed = λ c h. ground arith;
  running_open = λ h. ground arith;
  stopped_closed = λ h. inl refl;
  waits = λ i p h. absurd (ground arith);
}

-- Only the goroutine at `i` moves, to a phase that may stand there.
set_loop-IsValid :
    (t : Task) (i : ℕ) (p : Phase)
    → IsValid t
    → Waits t p
    → IsValid (record t { loops = set t.loops i p })
set_loop-IsValid t i p v w = record {
  made_stop = v.made_stop;
  made_closed = v.made_closed;
  running_open = v.running_open;
  stopped_closed = v.stopped_closed;
  waits = λ j q h. elim (get_elem?-set_cases t.loops i j p q h) [
    | inl e ↦ subst (Waits t) (sym e) w
    | inr e ↦ v.waits j q e
  ];
}

-- A goroutine may stay where it stands when only channels are closed.
Waits-more_closed :
    (t t' : Task) (p : Phase)
    → t'.stop ≡ t.stop
    → ((c : Option ℕ) → is_closed t c ≡ true → is_closed t' c ≡ true)
    → Waits t p
    → Waits t' p
Waits-more_closed t t' ready same more w = ground arith
Waits-more_closed t t' executing same more w = ground arith
Waits-more_closed t t' ended same more w = tt
Waits-more_closed t t' (waiting c) same more w = ground (arith, more c)

pub close_stop-more :
    (t : Task) (d : Option ℕ)
    → is_closed t d ≡ true
    → is_closed (close_stop t.stop (record t { running = false })) d ≡ true
unfolding close_stop
close_stop-more t none h = ground arith
close_stop-more t (some d) h = ground arith

close_stop-IsValid :
    (t : Task) → IsValid t → IsValid (close_stop t.stop (record t { running = false }))
unfolding close_stop
close_stop-IsValid t v = record {
  made_stop = λ c h. ground (arith, v.made_stop c);
  made_closed = λ c h. elim (Option-cases t.stop) [
    | inl e ↦ ground (arith, v.made_closed c)
    | inr (d, e) ↦ ground (arith, nat_beq_iff c d, v.made_closed c, v.made_stop d e)
  ];
  running_open = λ h. ground arith;
  stopped_closed = λ h. elim (Option-cases t.stop) [
    | inl e ↦ ground arith
    | inr (d, e) ↦ ground (arith, nat_beq_iff d d)
  ];
  waits = λ j q h.
      Waits-more_closed t (close_stop t.stop (record t { running = false })) q (ground arith)
        (close_stop-more t) (v.waits j q (ground arith));
}

if-IsValid :
    (b : Bool) (x y : Task)
    → (b ≡ true → IsValid x)
    → (b ≡ false → IsValid y)
    → IsValid (if b then x else y)
if-IsValid true x y hx hy = hx refl
if-IsValid false x y hx hy = hy refl

-- What waited before a Start waits on a closed channel.
Waits-launch :
    (first : Bool) (t : Task) (p : Phase)
    → t.running ≡ false
    → IsValid t
    → Waits t p
    → Waits (launch first t) p
unfolding launch
Waits-launch first t ready stopped v w = refl
Waits-launch first t executing stopped v w = refl
Waits-launch first t ended stopped v w = tt
Waits-launch first t (waiting c) stopped v w = ground (arith, v.stopped_closed stopped)

Waits-new : (first : Bool) (t : Task) → Waits (launch first t) (if first then executing else ready)
unfolding launch
Waits-new true t = refl
Waits-new false t = refl

launch-IsValid :
    (first : Bool) (t : Task) → t.running ≡ false → IsValid t → IsValid (launch first t)
unfolding launch
launch-IsValid first t stopped v = record {
  made_stop = λ c h. ground arith;
  made_closed = λ c h. ground (arith, v.made_closed c);
  running_open = λ h. ground (arith, v.made_closed t.made);
  stopped_closed = λ h. ground arith;
  waits = λ j q h.
      elim (get_elem?-append_cases t.loops j (if first then executing else ready) q h) [
        | inl e ↦ subst (Waits (launch first t)) (sym e) (Waits-new first t)
        | inr e ↦ Waits-launch first t q stopped v (v.waits j q e)
      ];
}

start-IsValid : (first : Bool) (t : Task) → IsValid t → IsValid (start first t)
unfolding start
start-IsValid first t v =
    if-IsValid t.running t (launch first t) (λ e. v) (λ e. launch-IsValid first t e v)

close-IsValid : (t : Task) → IsValid t → IsValid (close t)
unfolding close
close-IsValid t v = if-IsValid t.running _ t (λ e. close_stop-IsValid t v) (λ e. v)

goroutine-IsValid :
    (e : Event) (i : ℕ) (p : Phase) (t : Task) → IsValid t → Waits t p → IsValid (goroutine e i p t)
unfolding goroutine
goroutine-IsValid (selects j) i ready t v w = set_loop-IsValid t i (waiting t.stop) v (w, inr refl)
goroutine-IsValid (fires j) i (waiting c) t v w = set_loop-IsValid t i executing v w.0
goroutine-IsValid (stops j) i (waiting c) t v w =
    if-IsValid (is_closed t c) _ t (λ e. set_loop-IsValid t i ended v tt) (λ e. v)
goroutine-IsValid (finishes true j) i executing t v w = set_loop-IsValid t i ready v w
goroutine-IsValid (finishes false j) i executing t v w =
    close_stop-IsValid (record t { loops = set t.loops i ended }) (set_loop-IsValid t i ended v tt)
goroutine-IsValid _ i p t v w = v

at_loop-IsValid : (e : Event) (i : ℕ) (t : Task) → IsValid t → IsValid (at_loop e i t)
unfolding at_loop
at_loop-IsValid e i t v = elim (Option-cases (get_elem? t.loops i)) [
  | inl h ↦ rw (h, at_loop) v
  | inr (p, h) ↦ rw (h, at_loop) (goroutine-IsValid e i p t v (v.waits i p h))
]

unless_crashed : (t x : Task) → IsValid t → IsValid x → IsValid (if t.crashed then t else x)
unless_crashed t x v w = if-IsValid t.crashed t x (λ e. v) (λ e. w)

pub step-IsValid : (t : Task) (e : Event) → IsValid t → IsValid (step t e)
unfolding step
step-IsValid t (starts first) v = unless_crashed t _ v (start-IsValid first t v)
step-IsValid t closes v = unless_crashed t _ v (close-IsValid t v)
step-IsValid t (selects i) v = unless_crashed t _ v (at_loop-IsValid (selects i) i t v)
step-IsValid t (fires i) v = unless_crashed t _ v (at_loop-IsValid (fires i) i t v)
step-IsValid t (stops i) v = unless_crashed t _ v (at_loop-IsValid (stops i) i t v)
step-IsValid t (finishes b i) v = unless_crashed t _ v (at_loop-IsValid (finishes b i) i t v)

pub run-IsValid : (t : Task) (es : List Event) → IsValid t → IsValid (run t es)
unfolding run
run-IsValid t [] v = v
run-IsValid t (e ∷ es) v = run-IsValid (step t e) es (step-IsValid t e v)

-- Whatever callers and goroutines do, and in whatever order: a task that runs has an open stop
-- channel, a task that does not run has closed its channel, and every goroutine that waits in the
-- `select` waits on the current channel or on a closed one.
pub schedule-IsValid : (interval : ℤ) (es : List Event) → IsValid (run (new_task interval) es)
schedule-IsValid interval es = run-IsValid (new_task interval) es (new_task-IsValid interval)

no_panic :
    (first : Bool) (t : Task)
    → IsValid t
    → ((start first t).crashed ≡ t.crashed) × ((close t).crashed ≡ t.crashed)
unfolding start close
no_panic first t v = elim (Option-cases t.stop) [
  | inl e ↦ ground (arith, v.running_open)
  | inr (c, e) ↦ ground (arith, v.running_open)
]

-- Start and Close never panic, at any point of any schedule.
pub start_close_no_panic :
    (interval : ℤ) (es : List Event) (first : Bool)
    → let t = run (new_task interval) es in
      ((start first t).crashed ≡ t.crashed) × ((close t).crashed ≡ t.crashed)
start_close_no_panic interval es first =
    no_panic first (run (new_task interval) es) (schedule-IsValid interval es)
