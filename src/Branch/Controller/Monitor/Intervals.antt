-- ===== src/Branch/Controller/Monitor/Intervals.antt =====
-- branch/task.go, nodeInfoMonitor: the intervals after a reload.
use v2b_x_liusu.Prelude.{ℕ, Bool-cases, inl, inr, ◌≡◌, ◌||◌, if◌then◌else◌, false, Option, arith}
use v2b_x_liusu.Prelude.Int.{ℤ, pos, ℤ_eq_iff}
use v2b_x_liusu.Prelude.Eq.{◌==◌, int_eq, string_eq, nat_eq}
use v2b_x_liusu.Panel.Types.{NodeInfo}
use v2b_x_liusu.Task.{Task, close_stop, start, launch, close}
use v2b_x_liusu.Branch.Controller.{Controller}
use v2b_x_liusu.Branch.Controller.Monitor.{restart, check_intervals}

close_stop_interval : (c : Option ℕ) (t : Task) → (close_stop c t).interval ≡ t.interval
unfolding close_stop
close_stop_interval c t = ground arith

restart_interval : (i : ℤ) (t : Task) → (restart i t).interval ≡ i
unfolding restart start launch close
restart_interval i t = elim (Bool-cases t.running) [
  | inl e ↦ ground (arith, close_stop_interval t.stop (record t { interval = i; running = false }))
  | inr e ↦ ground arith
]

-- After the checks a task whose interval was neither zero nor the one that the panel asks for has the
-- pull interval, also the report, for which the panel asks for the push interval; a task with the right
-- interval, or without one in the node, is as it was.
pub check_intervals_lem :
    {X N : Type 0} (n : NodeInfo N) (c : Controller X N)
    → let c' = check_intervals n c in
      (c'.node_info_monitor_periodic.interval ≡ (
        if n.pull_interval == pos 0
        then c.node_info_monitor_periodic.interval
        else n.pull_interval))
      × (c'.user_report_periodic.interval ≡ (
          if c.user_report_periodic.interval == n.push_interval || n.push_interval == pos 0
          then c.user_report_periodic.interval
          else n.pull_interval))
unfolding check_intervals
check_intervals_lem n c = (
  ground (
    arith,
    ℤ_eq_iff c.node_info_monitor_periodic.interval n.pull_interval,
    restart_interval n.pull_interval c.node_info_monitor_periodic,
  ),
  ground (arith, restart_interval n.pull_interval c.user_report_periodic),
)
