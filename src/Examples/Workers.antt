-- ===== src/Examples/Workers.antt =====
-- A daemon with one worker slot, from its start to a running job, and the reservation that a board
-- switch forgets.
use task_board_tools.Base.{[], ◌≡◌, refl, codes, text_eq, false, ◌≤◌, ◌+◌, ◌⊎◌, arith}
use task_board_tools.Daemon.{
  Daemon, QueuedTask, new_daemon, activate, try_enqueue, send, take_task, start_job, deactivate,
  see_drained, finish_reservation, reserve_slot, release_automation_run, reset_active,
}
use task_board_tools.Daemon.Steps.{
  Reachable, next, start, task_taken, activated, job_started, enqueue_tried, sent,
}
use task_board_tools.Daemon.Runs.{
  Reachable-free, Reachable-IsAccounted, Step-limit, Reachable-single,
}
use task_board_tools.Daemon.Counts.{tally, count}
use task_board_tools.Daemon.Invariant.{IsAccounted}

abbrev queued : QueuedTask
queued = record { id = codes "PR-1"; generation = 1 }

abbrev opened : Daemon
opened = activate (new_daemon 1 8)

abbrev wanted : Daemon
wanted = try_enqueue false queued opened

abbrev filled : Daemon
filled = send queued [] wanted

abbrev held : Daemon
held = take_task queued [] filled

abbrev running : Daemon
running = start_job queued held

filled-Reachable : Reachable (new_daemon 1 8) filled
unfolding new_daemon activate try_enqueue send take_task start_job text_eq
filled-Reachable =
    next (next (next start (activated refl) tt) (enqueue_tried false queued) tt)
      (sent [] [] queued refl (omega arith)) tt

running-Reachable : Reachable (new_daemon 1 8) running
unfolding new_daemon activate try_enqueue send take_task start_job text_eq
running-Reachable =
    next (next filled-Reachable (task_taken queued [] refl refl) tt)
      (job_started queued 0 refl refl) tt

Reachable-IsAccounted_example : IsAccounted running
Reachable-IsAccounted_example = Reachable-IsAccounted 1 8 running running-Reachable

Reachable-single_example :
    tally (codes "PR-1") running.queue
      + tally (codes "PR-1") running.waiting
      + tally (codes "PR-1") running.jobs
      + count (codes "PR-1") running.automation_active
    ≤ 1
Reachable-single_example = Reachable-single 1 8 running (codes "PR-1") running-Reachable

Reachable-free_example : filled.running_workers ≡ 0
unfolding new_daemon activate try_enqueue send take_task start_job text_eq
Reachable-free_example = Reachable-free 1 8 filled filled-Reachable refl refl refl refl

Step-limit_example :
    (running.running_workers ≤ held.running_workers)
    ⊎ (running.running_workers ≤ running.max_workers)
unfolding new_daemon activate try_enqueue send take_task start_job text_eq
Step-limit_example = Step-limit held running (job_started queued 0 refl refl)

abbrev switching : Daemon
switching = see_drained (deactivate opened)

-- A run is reserved between the last look at the active set and its reset.
abbrev reserved : Daemon
reserved = finish_reservation 1 (codes "PR-2") [] (reserve_slot (codes "PR-2") switching)

abbrev forgotten : Daemon
forgotten = release_automation_run (codes "PR-2") (reset_active reserved)

-- Its slot is lost: the end of the run gives nothing back.
slot_lost :
    (forgotten.running_workers ≡ 1)
    × (forgotten.leaving ≡ 0)
    × (forgotten.active ≡ [])
    × (forgotten.jobs ≡ [])
unfolding new_daemon activate deactivate see_drained finish_reservation reserve_slot
    release_automation_run reset_active text_eq
slot_lost = (refl, refl, refl, refl)
