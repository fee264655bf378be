-- ===== src/Reconcile/History.antt =====
-- `latestReconcileRun`: what the events of a task's run history say of its latest run. The lines are
-- decoded events, those that do not decode left out.
use task_board_tools.Base.{
  Bool, true, false, List, [], ◌∷◌, Option, none, some, Text, codes, text_eq, if◌then◌else◌,
}

pub data EventKind : Type 0 where
  ev_queued ev_started ev_finished ev_other : EventKind

-- The fields of `agent.Event` that count here.
pub record Event : Type 0 where
  pub run_id : Text
  pub kind : EventKind
  pub mode : Text
  pub initiator : Text
  pub status : Text

pub record ReconcileRun : Type 0 where
  pub id : Text
  pub run_mode : Text
  pub run_initiator : Text
  pub run_status : Text
  pub was_queued : Bool
  pub was_started : Bool
  pub finished : Bool

unfoldable pub parse_reconcile_mode : Text → Text
parse_reconcile_mode mode =
    if text_eq mode (codes "groom")
    then codes "groom"
    else if text_eq mode (codes "review")
    then codes "review"
    else if text_eq mode (codes "resume")
    then codes "resume"
    else codes "implement"

abbrev pub new_run : Text → ReconcileRun
new_run id = record {
  id = id;
  run_mode = [];
  run_initiator = [];
  run_status = [];
  was_queued = false;
  was_started = false;
  finished = false;
}

abbrev pub note_kind : EventKind → Event → ReconcileRun → ReconcileRun
note_kind ev_queued ev r = record r { was_queued = true; run_initiator = ev.initiator }
note_kind ev_started ev r = record r { was_started = true }
note_kind ev_finished ev r = record r { finished = true; run_status = ev.status }
note_kind ev_other ev r = r

-- What one event adds to its run.
unfoldable pub note_event : Event → ReconcileRun → ReconcileRun
unfolding parse_reconcile_mode
note_event ev r =
    note_kind ev.kind ev
      (if text_eq ev.mode [] then r else record r { run_mode = parse_reconcile_mode ev.mode })

-- The runs in the order of their first events; a run that is not known yet comes last.
unfoldable pub update_runs : List ReconcileRun → Event → List ReconcileRun
unfolding note_event
update_runs [] ev = note_event ev (new_run ev.run_id) ∷ []
update_runs (r ∷ rs) ev =
    let rest = update_runs rs ev in
    if text_eq r.id ev.run_id then note_event ev r ∷ rs else r ∷ rest

unfoldable pub read_events : List ReconcileRun → List Event → List ReconcileRun
unfolding update_runs
read_events rs [] = rs
read_events rs (ev ∷ evs) =
    if text_eq ev.run_id [] then read_events rs evs else read_events (update_runs rs ev) evs

unfoldable pub last_run : List ReconcileRun → Option ReconcileRun
last_run [] = none
last_run (r ∷ []) = some r
last_run (r ∷ q ∷ rs) = last_run (q ∷ rs)

-- A history that is not there or cannot be read has no run.
unfoldable pub latest_reconcile_run : Option (List Event) → Option ReconcileRun
unfolding read_events last_run
latest_reconcile_run none = none
latest_reconcile_run (some evs) = last_run (read_events [] evs)
