-- ===== src/Daemon.antt =====
-- gui/internal/daemon/daemon.go: which queued tasks run, and how many at a time. A function here is one
-- critical section of the program, on the fields that its mutexes guard, together with what the
-- goroutines hold between two sections. What a goroutine has read before, and may be out of date, is an
-- argument.
pub mod Counts
pub mod Steps
pub mod Invariant
pub mod Runs
use task_board_tools.Base.{
  ℕ, suc, ◌-◌, Bool, true, false, ◌||◌, ◌&&◌, not, List, [], ◌∷◌, ◌++◌, Text, text_eq, ltb, leb,
  ◌==◌, if◌then◌else◌, length, any, filter, ◌+◌,
}

-- `queuedTask`
pub record QueuedTask : Type 0 where
  pub id : Text
  pub generation : ℕ

-- `Daemon`, its two sets as lists. `enqueuing` are the tasks of the calls of `Enqueue` that own their
-- place in `active` and have not sent yet; `waiting` is what the dispatcher holds; `jobs` are the
-- running goroutines; `reserving` are the reservations that have a slot and are not in `active` yet;
-- `leaving` counts the slots that are about to be given back; `drained` is set once a deactivation has
-- seen `active` empty.
pub record Daemon : Type 0 where
  pub max_workers : ℕ
  pub running_workers : ℕ
  pub active : List Text
  pub automation_active : List Text
  pub queue : List QueuedTask
  pub buffer : ℕ
  pub activated : Bool
  pub generation : ℕ
  pub enqueuing : List QueuedTask
  pub waiting : List QueuedTask
  pub jobs : List QueuedTask
  pub reserving : List Text
  pub leaving : ℕ
  pub drained : Bool

abbrev pub is_in : List Text → Text → Bool
is_in xs id = any (λ x. text_eq id x) xs

abbrev pub delete : List Text → Text → List Text
delete xs id = filter (λ x. not (text_eq id x)) xs

-- `Options`: no work yet.
unfoldable pub new_daemon : ℕ → ℕ → Daemon
new_daemon max_workers buffer = record {
  max_workers = if ltb max_workers 1 then 1 else max_workers;
  running_workers = 0;
  active = [];
  automation_active = [];
  queue = [];
  buffer = if ltb buffer 1 then 256 else buffer;
  activated = false;
  generation = 0;
  enqueuing = [];
  waiting = [];
  jobs = [];
  reserving = [];
  leaving = 0;
  drained = false;
}

-- `SetMaxWorkers` on a machine with `cpus` processors.
unfoldable pub set_max_workers : ℕ → ℕ → Daemon → Daemon
set_max_workers cpus n d =
    let low = if ltb n 1 then 1 else n in
    let top = if ltb cpus 1 then 1 else cpus in
    record d { max_workers = if ltb top low then top else low }

-- `tryEnqueue`, for a task and the generation that `activationState` gave; `has_run` is the answer of
-- `HasActiveRun`.
unfoldable pub try_enqueue : Bool → QueuedTask → Daemon → Daemon
try_enqueue has_run q d =
    if has_run || is_in d.active q.id
    then d
    else record d { active = q.id ∷ d.active; enqueuing = q ∷ d.enqueuing }

-- `release`
unfoldable pub release : Text → Daemon → Daemon
release id d = record d { active = delete d.active id }

-- The end of `Enqueue`: the task is sent, or dropped. `rest` are the other calls under way.
unfoldable pub send : QueuedTask → List QueuedTask → Daemon → Daemon
send q rest d = record d { queue = d.queue ++ q ∷ []; enqueuing = rest }

unfoldable pub drop_send : QueuedTask → List QueuedTask → Daemon → Daemon
drop_send q rest d = record (release q.id d) { enqueuing = rest }

-- Whether a task belongs to an activation that has ended, as `activationContextFor` finds.
abbrev pub is_stale : Daemon → QueuedTask → Bool
is_stale d q = not (d.activated && (d.generation == q.generation))

-- `worker` and `dispatchOne`: the dispatcher takes a task, and drops it or starts it on a slot.
unfoldable pub take_task : QueuedTask → List QueuedTask → Daemon → Daemon
take_task q rest d = record d { queue = rest; waiting = q ∷ [] }

unfoldable pub drop_task : QueuedTask → Daemon → Daemon
drop_task q d = record (release q.id d) { waiting = [] }

-- The test of `acquireWorkerSlot` and `tryAcquireWorkerSlotNow`; `extra` counts the runs outside.
abbrev pub has_slot : Daemon → ℕ → Bool
has_slot d extra = ltb (d.running_workers + extra) d.max_workers

unfoldable pub start_job : QueuedTask → Daemon → Daemon
start_job q d = record d {
  running_workers = suc d.running_workers;
  waiting = [];
  jobs = q ∷ d.jobs;
}

-- The deferred calls of `runOne` and of its goroutine, in their order.
unfoldable pub end_job : QueuedTask → List QueuedTask → Daemon → Daemon
end_job q rest d = record (release q.id d) { jobs = rest; leaving = suc d.leaving }

-- `releaseWorkerSlot`
unfoldable pub release_worker_slot : Daemon → Daemon
release_worker_slot d = record d {
  running_workers = if ltb 0 d.running_workers then d.running_workers - 1 else d.running_workers;
  leaving = d.leaving - 1;
}

-- `TryReserveAutomationRun`: the slot, and then the place in both sets; `max_seen` is what it has read
-- of `maxWorkers`.
unfoldable pub reserve_slot : Text → Daemon → Daemon
reserve_slot id d = record d {
  running_workers = suc d.running_workers;
  reserving = id ∷ d.reserving;
}

unfoldable pub finish_reservation : ℕ → Text → List Text → Daemon → Daemon
finish_reservation max_seen id rest d =
    if is_in d.active id || leb max_seen (length d.active)
    then record d { reserving = rest; leaving = suc d.leaving }
    else record d {
      active = id ∷ d.active;
      automation_active = id ∷ d.automation_active;
      reserving = rest;
    }

-- `ReleaseAutomationRun`, less the slot.
unfoldable pub release_automation_run : Text → Daemon → Daemon
release_automation_run id d =
    if is_in d.automation_active id
    then record d {
      automation_active = delete d.automation_active id;
      active = delete d.active id;
      leaving = suc d.leaving;
    }
    else d

-- `ActivateWithStartupGrace` and the three sections of `deactivate`.
unfoldable pub activate : Daemon → Daemon
activate d = record d { activated = true; generation = suc d.generation }

unfoldable pub deactivate : Daemon → Daemon
deactivate d = record d { activated = false }

unfoldable pub see_drained : Daemon → Daemon
see_drained d = record d { drained = true }

unfoldable pub reset_active : Daemon → Daemon
reset_active d = record d { active = []; automation_active = []; drained = false }
