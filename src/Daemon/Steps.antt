-- ===== src/Daemon/Steps.antt =====
-- The steps of the daemon: any goroutine may run its next section, in any order. Where the program has
-- read something before a section, in `Enqueue` and `TryReserveAutomationRun`, the section runs here
-- whatever it has read: the steps are at least those of the program.
use task_board_tools.Base.{
  ℕ, ◌<◌, Bool, true, false, List, [], ◌∷◌, ◌++◌, ◌≡◌, ◌⊎◌, Text, length, ◌≤◌, suc,
}
use task_board_tools.Daemon.{
  Daemon, QueuedTask, set_max_workers, try_enqueue, send, drop_send, is_stale, take_task, drop_task,
  has_slot, start_job, end_job, release_worker_slot, reserve_slot, finish_reservation,
  release_automation_run, activate, deactivate, see_drained, reset_active,
}

-- One section, with the conditions under which the program comes to run it. `before` and `after` are
-- the other goroutines of the same kind.
pub data Step (d : Daemon) : Daemon → Type 0 where
  workers_set : (cpus n : ℕ) → Step d (set_max_workers cpus n d)
  enqueue_tried : (has_run : Bool) (q : QueuedTask) → Step d (try_enqueue has_run q d)
  sent :
      (before after : List QueuedTask) (q : QueuedTask)
      → d.enqueuing ≡ before ++ q ∷ after
      → length d.queue < d.buffer
      → Step d (send q (before ++ after) d)
  send_dropped :
      (before after : List QueuedTask) (q : QueuedTask)
      → d.enqueuing ≡ before ++ q ∷ after
      → (d.buffer ≤ length d.queue) ⊎ (is_stale d q ≡ true)
      → Step d (drop_send q (before ++ after) d)
  task_taken :
      (q : QueuedTask) (rest : List QueuedTask)
      → d.queue ≡ q ∷ rest
      → d.waiting ≡ []
      → Step d (take_task q rest d)
  task_dropped :
      (q : QueuedTask) → d.waiting ≡ q ∷ [] → is_stale d q ≡ true → Step d (drop_task q d)
  job_started :
      (q : QueuedTask) (extra : ℕ)
      → d.waiting ≡ q ∷ []
      → has_slot d extra ≡ true
      → Step d (start_job q d)
  job_ended :
      (before after : List QueuedTask) (q : QueuedTask)
      → d.jobs ≡ before ++ q ∷ after
      → Step d (end_job q (before ++ after) d)
  slot_released : (n : ℕ) → d.leaving ≡ suc n → Step d (release_worker_slot d)
  slot_reserved : (id : Text) (extra : ℕ) → has_slot d extra ≡ true → Step d (reserve_slot id d)
  reservation_finished :
      (max_seen : ℕ) (before after : List Text) (id : Text)
      → d.reserving ≡ before ++ id ∷ after
      → Step d (finish_reservation max_seen id (before ++ after) d)
  automation_released : (id : Text) → Step d (release_automation_run id d)
  activated : d.activated ≡ false → Step d (activate d)
  deactivated : d.activated ≡ true → Step d (deactivate d)
  drain_seen : d.active ≡ [] → Step d (see_drained d)
  active_reset : d.drained ≡ true → Step d (reset_active d)

-- The reset at the end of a deactivation finds the active set as empty as it was when it was seen so.
abbrev pub Undisturbed : {d e : Daemon} → Step d e → Type 0
Undisturbed {d} (active_reset h) = d.active ≡ []
Undisturbed (workers_set cpus n) = Unit
Undisturbed (enqueue_tried has_run q) = Unit
Undisturbed (sent before after q e h) = Unit
Undisturbed (send_dropped before after q e h) = Unit
Undisturbed (task_taken q rest e h) = Unit
Undisturbed (task_dropped q e h) = Unit
Undisturbed (job_started q extra e h) = Unit
Undisturbed (job_ended before after q e) = Unit
Undisturbed (slot_released n e) = Unit
Undisturbed (slot_reserved id extra h) = Unit
Undisturbed (reservation_finished max_seen before after id e) = Unit
Undisturbed (automation_released id) = Unit
Undisturbed (activated h) = Unit
Undisturbed (deactivated h) = Unit
Undisturbed (drain_seen h) = Unit

-- What a daemon can become in undisturbed steps.
pub data Reachable (d : Daemon) : Daemon → Type 0 where
  start : Reachable d d
  next : {e f : Daemon} → Reachable d e → (s : Step e f) → Undisturbed s → Reachable d f
