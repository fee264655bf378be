-- ===== src/Daemon/Runs.antt =====
-- The accounts hold in every run, and what follows from them.
use task_board_tools.Base.{◌+◌, ◌≤◌, ◌⊎◌, inl, inr, ℕ, Text, ◌≡◌, [], length, arith, ltb→lt}
use task_board_tools.Daemon.{
  Daemon, new_daemon, set_max_workers, reserve_slot, activate, deactivate, see_drained, try_enqueue,
  send, drop_send, release, take_task, drop_task, start_job, end_job, release_worker_slot,
  finish_reservation, release_automation_run, reset_active,
}
use task_board_tools.Daemon.Steps.{
  Step, Undisturbed, Reachable, next, start, workers_set, enqueue_tried, sent, send_dropped,
  task_taken, task_dropped, job_started, job_ended, slot_released, slot_reserved,
  reservation_finished, automation_released, activated, deactivated, drain_seen, active_reset,
}
use task_board_tools.Daemon.Invariant.{
  IsAccounted, new_daemon-IsAccounted, try_enqueue-IsAccounted, send-IsAccounted,
  drop_send-IsAccounted, take_task-IsAccounted, drop_task-IsAccounted, start_job-IsAccounted,
  end_job-IsAccounted, release_worker_slot-IsAccounted, finish_reservation-IsAccounted,
  release_automation_run-IsAccounted, reset_active-IsAccounted,
}
use task_board_tools.Daemon.Counts.{tally, count}

-- Every step keeps the accounts, if it is no reset that a reservation or a late call of `Enqueue` has
-- come before.
pub Step-IsAccounted : (d e : Daemon) (s : Step d e) → Undisturbed s → IsAccounted d → IsAccounted e
unfolding set_max_workers reserve_slot activate deactivate see_drained
Step-IsAccounted d _ (workers_set cpus n) u a = record {
  owned = a.owned;
  once = a.once;
  slots = a.slots;
}
Step-IsAccounted d _ (enqueue_tried has_run q) u a = try_enqueue-IsAccounted has_run q d a
Step-IsAccounted d _ (sent before after q e h) u a = send-IsAccounted before after q d e a
Step-IsAccounted d _ (send_dropped before after q e h) u a =
    drop_send-IsAccounted before after q d e a
Step-IsAccounted d _ (task_taken q rest e h) u a = take_task-IsAccounted q rest d e h a
Step-IsAccounted d _ (task_dropped q e h) u a = drop_task-IsAccounted q d e a
Step-IsAccounted d _ (job_started q extra e h) u a = start_job-IsAccounted q d e a
Step-IsAccounted d _ (job_ended before after q e) u a = end_job-IsAccounted before after q d e a
Step-IsAccounted d _ (slot_released n e) u a = release_worker_slot-IsAccounted n d e a
Step-IsAccounted d _ (slot_reserved id extra h) u a = record {
  owned = a.owned;
  once = a.once;
  slots = omega (arith, a.slots);
}
Step-IsAccounted d _ (reservation_finished max_seen before after id e) u a =
    finish_reservation-IsAccounted max_seen before after id d e a
Step-IsAccounted d _ (automation_released id) u a = release_automation_run-IsAccounted id d a
Step-IsAccounted d _ (activated h) u a = record { owned = a.owned; once = a.once; slots = a.slots }
Step-IsAccounted d _ (deactivated h) u a = record {
  owned = a.owned;
  once = a.once;
  slots = a.slots;
}
Step-IsAccounted d _ (drain_seen h) u a = record { owned = a.owned; once = a.once; slots = a.slots }
Step-IsAccounted d _ (active_reset h) u a = reset_active-IsAccounted d u a

-- A new daemon, after any undisturbed steps of its goroutines, has its accounts in order: every place in
-- the active set has one owner, and every worker slot in use is a job's, a reservation's, or about to be
-- given back.
pub Reachable-IsAccounted :
    (max_workers buffer : ℕ) (d : Daemon)
    → Reachable (new_daemon max_workers buffer) d
    → IsAccounted d
Reachable-IsAccounted max_workers buffer _ start = new_daemon-IsAccounted max_workers buffer
Reachable-IsAccounted max_workers buffer d (next {e} r s u) =
    Step-IsAccounted e d s u (Reachable-IsAccounted max_workers buffer e r)

-- After any undisturbed steps of a new daemon no task is in hand twice: queued, with the dispatcher,
-- running, and reserved by an automation are four places, and a task has at most one of them, and once
-- only.
pub Reachable-single :
    (max_workers buffer : ℕ) (d : Daemon) (id : Text)
    → Reachable (new_daemon max_workers buffer) d
    → tally id d.queue + tally id d.waiting + tally id d.jobs + count id d.automation_active ≤ 1
Reachable-single max_workers buffer d id r =
    let a = Reachable-IsAccounted max_workers buffer d r in omega (arith, a.owned id, a.once id)

-- No slot is lost in undisturbed steps of a new daemon: once no job runs, nothing is reserved and no slot is about to be given
-- back, all slots are free.
pub Reachable-free :
    (max_workers buffer : ℕ) (d : Daemon)
    → Reachable (new_daemon max_workers buffer) d
    → d.jobs ≡ []
    → d.automation_active ≡ []
    → d.reserving ≡ []
    → d.leaving ≡ 0
    → d.running_workers ≡ 0
Reachable-free max_workers buffer d r e f g h =
    let a = Reachable-IsAccounted max_workers buffer d r in
    let no_jobs : length d.jobs ≡ 0 = rw e in
    let no_runs : length d.automation_active ≡ 0 = rw f in
    let no_calls : length d.reserving ≡ 0 = rw g in
    omega (arith, a.slots, h, no_jobs, no_runs, no_calls)

-- A step that takes a worker slot keeps to the limit of that moment, whatever the limit was before.
pub Step-limit :
    (d e : Daemon)
    → Step d e
    → (e.running_workers ≤ d.running_workers) ⊎ (e.running_workers ≤ e.max_workers)
unfolding set_max_workers try_enqueue send drop_send release take_task drop_task start_job end_job
    release_worker_slot reserve_slot finish_reservation release_automation_run activate deactivate
    see_drained reset_active
Step-limit d _ (workers_set cpus n) = inl (omega arith)
Step-limit d _ (enqueue_tried has_run q) = inl (ground arith)
Step-limit d _ (sent before after q e h) = inl (omega arith)
Step-limit d _ (send_dropped before after q e h) = inl (omega arith)
Step-limit d _ (task_taken q rest e h) = inl (omega arith)
Step-limit d _ (task_dropped q e h) = inl (omega arith)
Step-limit d _ (job_started q extra e h) =
    inr (omega (arith, ltb→lt (d.running_workers + extra) d.max_workers h))
Step-limit d _ (job_ended before after q e) = inl (omega arith)
Step-limit d _ (slot_released n e) = inl (ground arith)
Step-limit d _ (slot_reserved id extra h) =
    inr (omega (arith, ltb→lt (d.running_workers + extra) d.max_workers h))
Step-limit d _ (reservation_finished max_seen before after id e) = inl (ground arith)
Step-limit d _ (automation_released id) = inl (ground arith)
Step-limit d _ (activated h) = inl (omega arith)
Step-limit d _ (deactivated h) = inl (omega arith)
Step-limit d _ (drain_seen h) = inl (omega arith)
Step-limit d _ (active_reset h) = inl (omega arith)
