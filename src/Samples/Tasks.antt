-- ===== src/Samples/Tasks.antt =====
-- base/task: schedules of one task.
use v2b_x_liusu.Prelude.{◌≡◌, ◌≢◌, refl, ℕ, true, false, some, List, [], ◌∷◌, get_elem?}
use v2b_x_liusu.Prelude.Int.{pos}
use v2b_x_liusu.Task.{
  waiting, new_task, is_closed, Event, starts, closes, selects, fires, finishes, run, step,
}
use v2b_x_liusu.Task.Invariant.{IsValid, schedule-IsValid}
use v2b_x_liusu.Task.Restart.{error_after_close_panics, restart_in_execute}

-- A task that executes, and one that waits.
abbrev to_executing : List Event
to_executing = starts true ∷ []

abbrev to_waiting : List Event
to_waiting = starts false ∷ selects 0 ∷ []

schedule-IsValid_example :
    IsValid (run (new_task (pos 60)) (starts false ∷ selects 0 ∷ fires 0 ∷ closes ∷ []))
schedule-IsValid_example =
    schedule-IsValid (pos 60) (starts false ∷ selects 0 ∷ fires 0 ∷ closes ∷ [])

error_after_close_panics_example :
    (run (run (new_task (pos 60)) to_executing) (closes ∷ finishes false 0 ∷ [])).crashed ≡ true
unfolding run step new_task
error_after_close_panics_example =
    error_after_close_panics (run (new_task (pos 60)) to_executing)
      (schedule-IsValid (pos 60) to_executing) refl refl 0 refl

restart_in_execute_example :
    let t' =
      run
        (run (new_task (pos 60)) to_executing)
        (closes ∷ starts false ∷ finishes true 0 ∷ selects 0 ∷ selects 1 ∷ []) in
    (◌≢◌ {A = ℕ} 0 1)
    × (get_elem? t'.loops 0 ≡ some (waiting t'.stop))
    × (get_elem? t'.loops 1 ≡ some (waiting t'.stop))
    × (is_closed t' t'.stop ≡ false)
unfolding run step new_task
restart_in_execute_example =
    restart_in_execute (run (new_task (pos 60)) to_executing)
      (schedule-IsValid (pos 60) to_executing) refl refl 0 refl
