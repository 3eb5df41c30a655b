-- ===== src/Task/Restart.antt =====
-- Close and Start while a goroutine waits, and while it is in `Execute`.
use mathlib.Core.Path.{subst}
use v2b_x_liusu.Prelude.{
  ℕ, ◌≡◌, ◌≢◌, sym, ◌∙◌, Bool, true, false, [], ◌∷◌, ◌++◌, Option, some, arith, inl, inr, get_elem?,
  set, if◌then◌else◌, Option-cases, length, get_elem?-append_left, get_elem?-append_last,
  get_elem?-set_self, get_elem?-set_ne, get_elem?_bound,
}
use v2b_x_liusu.Prelude.Eq.{nat_eq, nat_beq_iff}
use v2b_x_liusu.Task.{
  Phase, ready, waiting, executing, ended, Task, is_closed, starts, closes, selects, stops,
  finishes, step, run,
}
use v2b_x_liusu.Task.Invariant.{IsValid, close_stop-more, step-IsValid}

-- A step that moves goroutine `i` to the phase `p` and leaves the rest of the task.
record Moves (t t' : Task) (i : ℕ) (p : Phase) : Type 0 where
  alive : t'.crashed ≡ false
  loops : t'.loops ≡ set t.loops i p
  stop : t'.stop ≡ t.stop
  closed : (c : Option ℕ) → is_closed t' c ≡ is_closed t c

selects-Moves :
    (t : Task) (i : ℕ)
    → t.crashed ≡ false
    → get_elem? t.loops i ≡ some ready
    → Moves t (step t (selects i)) i (waiting t.stop)
unfolding step
selects-Moves t i a h = record {
  alive = ground arith;
  loops = ground arith;
  stop = ground arith;
  closed = λ c. ground arith;
}

returns-Moves :
    (t : Task) (i : ℕ)
    → t.crashed ≡ false
    → get_elem? t.loops i ≡ some executing
    → Moves t (step t (finishes true i)) i ready
unfolding step
returns-Moves t i a h = record {
  alive = ground arith;
  loops = ground arith;
  stop = ground arith;
  closed = λ c. ground arith;
}

-- A Start of a task that does not run.
starts_lem :
    (t : Task) (first : Bool)
    → t.crashed ≡ false
    → t.running ≡ false
    → let t' = step t (starts first) in
      (t'.crashed ≡ false)
      × (t'.stop ≡ some t.made)
      × (t'.loops ≡ t.loops ++ (if first then executing else ready) ∷ [])
      × ((c : Option ℕ) → is_closed t' c ≡ is_closed t c)
      × (t'.running ≡ true)
unfolding step
starts_lem t first a s =
    (ground arith, ground arith, ground arith, (λ c. ground arith), ground arith)

failing_lem :
    (t : Task) (i : ℕ)
    → t.crashed ≡ false
    → get_elem? t.loops i ≡ some executing
    → (is_closed t t.stop ≡ true)
    → (step t (finishes false i)).crashed ≡ true
unfolding step
failing_lem t i a h s = elim (Option-cases t.stop) [
  | inl e ↦ ground arith
  | inr (c, e) ↦ ground arith
]

stops_lem :
    (t : Task) (i : ℕ) (c : Option ℕ)
    → t.crashed ≡ false
    → get_elem? t.loops i ≡ some (waiting c)
    → is_closed t c ≡ true
    → (step t (stops i)).loops ≡ set t.loops i ended
unfolding step
stops_lem t i c a h s = ground arith

module _ (t : Task) (v : IsValid t) (alive : t.crashed ≡ false) (runs : t.running ≡ true) where
  -- The task after a Close: it stands as before, but for the flag and the channel.
  closed_lem :
      let t' = step t closes in
      (t'.crashed ≡ false)
      × (t'.running ≡ false)
      × (t'.stop ≡ t.stop)
      × (t'.made ≡ t.made)
      × (t'.loops ≡ t.loops)
      × (is_closed t' t.stop ≡ true)
  unfolding step
  closed_lem = elim (Option-cases t.stop) [
    | inl e ↦ absurd (ground (arith, v.running_open runs))
    | inr (c, e) ↦ ground (arith, v.running_open runs, nat_beq_iff c c)
  ]

  closes_more : (d : Option ℕ) → is_closed t d ≡ true → is_closed (step t closes) d ≡ true
  unfolding step
  closes_more d h = ground (arith, close_stop-more t d h)

  waiting_closed :
      (i : ℕ) (c : Option ℕ)
      → get_elem? t.loops i ≡ some (waiting c)
      → is_closed (step t closes) c ≡ true
  waiting_closed i c h = elim (v.waits i (waiting c) h).1 [
    | inl e ↦ closes_more c e
    | inr e ↦ subst (λ d. is_closed (step t closes) d ≡ true) e closed_lem.5
  ]

  -- Close during `Execute`, and then `Execute` fails: the goroutine closes the channel again, which
  -- panics.
  pub error_after_close_panics :
      (i : ℕ)
      → get_elem? t.loops i ≡ some executing
      → (run t (closes ∷ finishes false i ∷ [])).crashed ≡ true
  unfolding run
  error_after_close_panics i h =
      let (alive', _, stop', _, loops', shut) = closed_lem in
      failing_lem (step t closes) i alive' (rw loops' h) (rw stop' shut)

  -- Close and then Start while a goroutine waits: the goroutine's channel is closed, so that it ends.
  pub restart_while_waiting :
      (first : Bool) (i : ℕ) (c : Option ℕ)
      → get_elem? t.loops i ≡ some (waiting c)
      → get_elem? (run t (closes ∷ starts first ∷ stops i ∷ [])).loops i ≡ some ended
  unfolding run
  restart_while_waiting first i c h =
      let t₁ = step t closes in
      let (alive₁, stopped₁, _, _, loops₁, shut₁) = closed_lem in
      let t₂ = step t₁ (starts first) in
      let (alive₂, _, loops₂, closed₂, _) = starts_lem t₁ first alive₁ stopped₁ in
      let waits₂ : get_elem? t₂.loops i ≡ some (waiting c) =
        rw (loops₂, loops₁) (get_elem?-append_left t.loops _ i (waiting c) h) in
      rw (stops_lem t₂ i c alive₂ waits₂ (closed₂ c ∙ waiting_closed i c h))
        (get_elem?-set_self t₂.loops i ended (waiting c) waits₂)

  -- Close and then Start from within `Execute`, as the node monitor does: the goroutine reads the
  -- new channel when it comes back, so that it goes on beside the new one. Both then wait on the
  -- same open channel.
  pub restart_in_execute :
      (i : ℕ)
      → get_elem? t.loops i ≡ some executing
      → let j = length t.loops in
        let t' = run t (closes ∷ starts false ∷ finishes true i ∷ selects i ∷ selects j ∷ []) in
        (i ≢ j)
        × (get_elem? t'.loops i ≡ some (waiting t'.stop))
        × (get_elem? t'.loops j ≡ some (waiting t'.stop))
        × (is_closed t' t'.stop ≡ false)
  unfolding run
  restart_in_execute i h =
      let j = length t.loops in
      let i_ne_j : i ≢ j = λ e. omega (arith, get_elem?_bound t.loops i executing h) in
      let t₁ = step t closes in
      let (alive₁, stopped₁, _, _, loops₁, _) = closed_lem in
      let t₂ = step t₁ (starts false) in
      let (alive₂, _, loops₂, _, runs₂) = starts_lem t₁ false alive₁ stopped₁ in
      let loops₂' : t₂.loops ≡ t.loops ++ ready ∷ [] = rw (loops₂, loops₁) in
      let at_i : get_elem? t₂.loops i ≡ some executing =
        rw loops₂' (get_elem?-append_left t.loops (ready ∷ []) i executing h) in
      let at_j : get_elem? t₂.loops j ≡ some ready =
        rw loops₂' (get_elem?-append_last t.loops ready) in
      let valid₂ = step-IsValid t₁ (starts false) (step-IsValid t closes v) in
      let t₃ = step t₂ (finishes true i) in
      let m₃ = returns-Moves t₂ i alive₂ at_i in
      let at_i₃ : get_elem? t₃.loops i ≡ some ready =
        rw m₃.loops (get_elem?-set_self t₂.loops i ready executing at_i) in
      let at_j₃ : get_elem? t₃.loops j ≡ some ready =
        rw (m₃.loops, get_elem?-set_ne t₂.loops i j ready i_ne_j) at_j in
      let t₄ = step t₃ (selects i) in
      let m₄ = selects-Moves t₃ i m₃.alive at_i₃ in
      let at_i₄ : get_elem? t₄.loops i ≡ some (waiting t₃.stop) =
        rw m₄.loops (get_elem?-set_self t₃.loops i (waiting t₃.stop) ready at_i₃) in
      let at_j₄ : get_elem? t₄.loops j ≡ some ready =
        rw (m₄.loops, get_elem?-set_ne t₃.loops i j (waiting t₃.stop) i_ne_j) at_j₃ in
      let m₅ = selects-Moves t₄ j m₄.alive at_j₄ in
      (
        i_ne_j,
        rw
            (
              m₅.loops,
              get_elem?-set_ne t₄.loops j i (waiting t₄.stop) (λ e. i_ne_j (sym e)),
              m₅.stop,
              m₄.stop,
            )
            at_i₄,
        rw (m₅.loops, m₅.stop) (get_elem?-set_self t₄.loops j (waiting t₄.stop) ready at_j₄),
        m₅.closed _
            ∙ m₄.closed _
            ∙ m₃.closed _
            ∙ rw (m₅.stop, m₄.stop, m₃.stop) (valid₂.running_open runs₂).1,
      )
