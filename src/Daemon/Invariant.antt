-- ===== src/Daemon/Invariant.antt =====
-- Whose task is in `active`, and who holds a worker slot.
use task_board_tools.Base.{
  ◌+◌, ◌||◌, ◌++◌, ◌∷◌, ℕ, Text, ◌≡◌, arith, Bool, Bool-cases, ◌≤◌, length, inl, List, [], suc, inr,
  false, leb, text_eq, ◌∙◌, refl, text_eq_sound,
}
use task_board_tools.Daemon.{
  Daemon, QueuedTask, new_daemon, try_enqueue, is_in, send, drop_send, take_task, drop_task,
  start_job, end_job, release_worker_slot, finish_reservation, release_automation_run, reset_active,
  release,
}
use task_board_tools.Daemon.Counts.{
  count, tally, weight, length-middle, count_present, new_once, tally-middle, released,
  tally-append, released_once, count-delete_other, length-delete, nil_of_count, count-delete_same,
}

-- Every place in `active` belongs to one goroutine, queue entry or reservation, and every slot in use
-- to a job, a reservation, or one that is about to give it back.
pub record IsAccounted (d : Daemon) : Type 0 where
  pub owned :
      (x : Text)
      → count x d.active
        ≡ tally x d.enqueuing
          + tally x d.queue
          + tally x d.waiting
          + tally x d.jobs
          + count x d.automation_active
  pub once : (x : Text) → count x d.active ≤ 1
  pub slots :
      d.running_workers
      ≡ length d.jobs + length d.automation_active + length d.reserving + d.leaving

pub new_daemon-IsAccounted : (max_workers buffer : ℕ) → IsAccounted (new_daemon max_workers buffer)
unfolding new_daemon count tally
new_daemon-IsAccounted max_workers buffer = record {
  owned = λ x. omega arith;
  once = λ x. omega arith;
  slots = omega arith;
}

pub try_enqueue-IsAccounted :
    (has_run : Bool) (q : QueuedTask) (d : Daemon)
    → IsAccounted d
    → IsAccounted (try_enqueue has_run q d)
unfolding try_enqueue count tally
try_enqueue-IsAccounted has_run q d a = elim (Bool-cases (has_run || is_in d.active q.id)) [
  | inl e ↦ rw e a
  | inr e ↦
      let absent : is_in d.active q.id ≡ false = ground arith in
      rw e (record {
        owned = λ x. omega (arith, a.owned x);
        once = λ x. new_once d.active q.id x absent (a.once x);
        slots = a.slots;
      })
]

pub send-IsAccounted :
    (before after : List QueuedTask) (q : QueuedTask) (d : Daemon)
    → d.enqueuing ≡ before ++ q ∷ after
    → IsAccounted d
    → IsAccounted (send q (before ++ after) d)
unfolding send
send-IsAccounted before after q d e a = record {
  owned = λ x.
      let at : tally x d.enqueuing ≡ weight x q.id + tally x (before ++ after) =
        rw e (tally-middle x before q after) in
      let sent : tally x (d.queue ++ q ∷ []) ≡ tally x d.queue + (weight x q.id + 0) =
        tally-append x d.queue (q ∷ []) ∙ (unfold tally in refl) in
      omega (arith, a.owned x, at, sent);
  once = a.once;
  slots = a.slots;
}

pub drop_send-IsAccounted :
    (before after : List QueuedTask) (q : QueuedTask) (d : Daemon)
    → d.enqueuing ≡ before ++ q ∷ after
    → IsAccounted d
    → IsAccounted (drop_send q (before ++ after) d)
unfolding drop_send release
drop_send-IsAccounted before after q d e a = record {
  owned = λ x.
      let at : tally x d.enqueuing ≡ weight x q.id + tally x (before ++ after) =
        rw e (tally-middle x before q after) in
      released d.active q.id x
        (tally x (before ++ after)
          + tally x d.queue
          + tally x d.waiting
          + tally x d.jobs
          + count x d.automation_active)
        (omega (arith, a.owned x, at)) (a.once x);
  once = λ x. released_once d.active q.id x (a.once x);
  slots = a.slots;
}

pub take_task-IsAccounted :
    (q : QueuedTask) (rest : List QueuedTask) (d : Daemon)
    → d.queue ≡ q ∷ rest
    → d.waiting ≡ []
    → IsAccounted d
    → IsAccounted (take_task q rest d)
unfolding take_task tally
take_task-IsAccounted q rest d e idle a = record {
  owned = λ x.
      let at : tally x d.queue ≡ weight x q.id + tally x rest = rw e in
      let none_waits : tally x d.waiting ≡ 0 = rw idle in omega (arith, a.owned x, at, none_waits);
  once = a.once;
  slots = a.slots;
}

pub drop_task-IsAccounted :
    (q : QueuedTask) (d : Daemon) → d.waiting ≡ q ∷ [] → IsAccounted d → IsAccounted (drop_task q d)
unfolding drop_task release tally
drop_task-IsAccounted q d e a = record {
  owned = λ x.
      let at : tally x d.waiting ≡ weight x q.id + 0 = rw e in
      released d.active q.id x
        (tally x d.enqueuing + tally x d.queue + 0 + tally x d.jobs + count x d.automation_active)
        (omega (arith, a.owned x, at)) (a.once x);
  once = λ x. released_once d.active q.id x (a.once x);
  slots = a.slots;
}

pub start_job-IsAccounted :
    (q : QueuedTask) (d : Daemon) → d.waiting ≡ q ∷ [] → IsAccounted d → IsAccounted (start_job q d)
unfolding start_job tally
start_job-IsAccounted q d e a = record {
  owned =
      λ x. let at : tally x d.waiting ≡ weight x q.id + 0 = rw e in omega (arith, a.owned x, at);
  once = a.once;
  slots = omega (arith, a.slots);
}

pub end_job-IsAccounted :
    (before after : List QueuedTask) (q : QueuedTask) (d : Daemon)
    → d.jobs ≡ before ++ q ∷ after
    → IsAccounted d
    → IsAccounted (end_job q (before ++ after) d)
unfolding end_job release
end_job-IsAccounted before after q d e a = record {
  owned = λ x.
      let at : tally x d.jobs ≡ weight x q.id + tally x (before ++ after) =
        rw e (tally-middle x before q after) in
      released d.active q.id x
        (tally x d.enqueuing
          + tally x d.queue
          + tally x d.waiting
          + tally x (before ++ after)
          + count x d.automation_active)
        (omega (arith, a.owned x, at)) (a.once x);
  once = λ x. released_once d.active q.id x (a.once x);
  slots =
      let at : length d.jobs ≡ suc (length (before ++ after)) =
        rw e (length-middle before q after) in
      omega (arith, a.slots, at);
}

-- The slot that is given back is in use, so that the program's test never stops it.
pub release_worker_slot-IsAccounted :
    (n : ℕ) (d : Daemon) → d.leaving ≡ suc n → IsAccounted d → IsAccounted (release_worker_slot d)
unfolding release_worker_slot
release_worker_slot-IsAccounted n d e a = record {
  owned = a.owned;
  once = a.once;
  slots = ground (arith, a.slots, e);
}

pub finish_reservation-IsAccounted :
    (max_seen : ℕ) (before after : List Text) (id : Text) (d : Daemon)
    → d.reserving ≡ before ++ id ∷ after
    → IsAccounted d
    → IsAccounted (finish_reservation max_seen id (before ++ after) d)
unfolding finish_reservation count
finish_reservation-IsAccounted max_seen before after id d e a =
    let at : length d.reserving ≡ suc (length (before ++ after)) =
      rw e (length-middle before id after) in
    elim (Bool-cases (is_in d.active id || leb max_seen (length d.active))) [
      | inl refused ↦
          rw refused (record { owned = a.owned; once = a.once; slots = omega (arith, a.slots, at) })
      | inr free ↦
          let absent : is_in d.active id ≡ false = ground arith in
          rw free (record {
            owned = λ x. omega (arith, a.owned x);
            once = λ x. new_once d.active id x absent (a.once x);
            slots = omega (arith, a.slots, at);
          })
    ]

pub release_automation_run-IsAccounted :
    (id : Text) (d : Daemon) → IsAccounted d → IsAccounted (release_automation_run id d)
unfolding release_automation_run
release_automation_run-IsAccounted id d a = elim (Bool-cases (is_in d.automation_active id)) [
  | inr e ↦ rw e a
  | inl e ↦
      let here : 1 ≤ count id d.automation_active = count_present d.automation_active id e in
      rw e (record {
        owned = λ x. elim (Bool-cases (text_eq x id)) [
          | inl same ↦ rw (text_eq_sound x id same) (
              omega (
                arith,
                count-delete_same d.active id,
                count-delete_same d.automation_active id,
                a.owned id,
                a.once id,
                here,
              ))
          | inr other ↦ omega (
            arith,
            a.owned x,
            count-delete_other d.active id x other,
            count-delete_other d.automation_active id x other,
          )
        ];
        once = λ x. released_once d.active id x (a.once x);
        slots =
            omega
              (arith, a.slots, here, length-delete d.automation_active id, a.owned id, a.once id);
      })
]

pub reset_active-IsAccounted :
    (d : Daemon) → d.active ≡ [] → IsAccounted d → IsAccounted (reset_active d)
unfolding reset_active count
reset_active-IsAccounted d e a =
    let empty : d.automation_active ≡ [] =
      nil_of_count d.automation_active
        (λ x. let none : count x d.active ≡ 0 = rw e in omega (arith, a.owned x, none)) in
    let no_length : length d.automation_active ≡ 0 = rw empty in
    record {
      owned = λ x. let none : count x d.active ≡ 0 = rw e in omega (arith, a.owned x, none);
      once = λ x. omega arith;
      slots = omega (arith, a.slots, no_length);
    }
