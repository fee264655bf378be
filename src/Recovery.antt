-- ===== src/Recovery.antt =====
-- gui/app/agent_recovery.go: what becomes of runs that were under way when the program ended.
pub mod Laws
use task_board_tools.Base.{
  ℕ, Bool, true, false, ◌||◌, ◌&&◌, not, List, [], ◌∷◌, ◌++◌, Option, none, some, Text, codes,
  text_eq, ltb, if◌then◌else◌, filter,
}
use task_board_tools.Automation.Tasks.{BoardTask, Snapshot}

pub data RunEventKind : Type 0 where
  run_queued run_started run_session run_finished run_other : RunEventKind

-- The fields of `agent.Event` that recovery reads; 0 is no process.
pub record RunEvent : Type 0 where
  pub run_id : Text
  pub kind : RunEventKind
  pub agent : Text
  pub pid : ℕ
  pub session : Text
  pub status : Text

-- `runRecoveryView`, less the mode and what only a resumption needs; `last_finished` is the status of the
-- last finished event.
pub record RunView : Type 0 where
  pub id : Text
  pub agent_name : Text
  pub process : ℕ
  pub session_id : Text
  pub last_finished : Option Text

abbrev pub or_old : Text → Text → Text
or_old new old = if text_eq new [] then old else new

abbrev pub or_old_pid : ℕ → ℕ → ℕ
or_old_pid new old = if ltb 0 new then new else old

abbrev pub note_run : RunEventKind → RunEvent → RunView → RunView
note_run run_queued ev v = record v { agent_name = or_old ev.agent v.agent_name }
note_run run_started ev v = record v {
  process = or_old_pid ev.pid v.process;
  agent_name = or_old ev.agent v.agent_name;
}
note_run run_session ev v = record v {
  session_id = or_old ev.session v.session_id;
  process = or_old_pid ev.pid v.process;
}
note_run run_finished ev v = record v { last_finished = some ev.status }
note_run run_other ev v = v

abbrev pub new_view : Text → RunView
new_view id = record {
  id = id;
  agent_name = [];
  process = 0;
  session_id = [];
  last_finished = none;
}

-- The views in the order of their first events.
unfoldable pub update_views : List RunView → RunEvent → List RunView
update_views [] ev = note_run ev.kind ev (new_view ev.run_id) ∷ []
update_views (v ∷ vs) ev =
    let rest = update_views vs ev in
    if text_eq v.id ev.run_id then note_run ev.kind ev v ∷ vs else v ∷ rest

unfoldable pub views_from : List RunView → List RunEvent → List RunView
unfolding update_views
views_from vs [] = vs
views_from vs (ev ∷ evs) =
    if text_eq ev.run_id [] then views_from vs evs else views_from (update_views vs ev) evs

-- `readRunViews`, on decoded events; a history that is not there has none.
unfoldable pub read_run_views : List RunEvent → List RunView
unfolding views_from
read_run_views evs = views_from [] evs

-- What recovery does: finished events with their status, edits of the agent status of the task, and runs
-- adopted as still alive.
pub data Deed : Type 0 where
  appended : Text → Text → Deed
  status_set : Text → Deed
  adopted : Text → Deed

-- The answers of the outside world. `skip_tracked` is the mode of the periodic tick; `fresh_id` is the ID
-- that is generated where there is none.
pub record Recovery : Type 0 where
  pub skip_tracked : Bool
  pub active : Bool
  pub active_run : Text → Bool
  pub alive : ℕ → Text → Bool
  pub can_append : Text → Bool
  pub can_edit : Text → Bool
  pub fresh_id : Text

-- What has been done, the last first, and whether all has gone well.
abbrev pub Outcome : Type 0
Outcome = List Deed × Bool

abbrev pub edit_status : Recovery → Text → List Deed → Outcome
edit_status w status ds = if w.can_edit status then (status_set status ∷ ds, true) else (ds, false)

-- `appendRecoveredFinished`
unfoldable pub append_recovered_finished : Recovery → Text → Text → List Deed → Outcome
append_recovered_finished w id status ds =
    let named = if text_eq id [] then w.fresh_id else id in
    if w.can_append named then (appended named status ∷ ds, true) else (ds, false)

abbrev pub then_edit : Recovery → Text → Outcome → Outcome
then_edit w status (ds, false) = (ds, false)
then_edit w status (ds, true) = edit_status w status ds

-- `markInterrupted` and `markLost`, by the status.
unfoldable pub mark : Recovery → Text → Text → List Deed → Outcome
unfolding append_recovered_finished
mark w id status ds = then_edit w status (append_recovered_finished w id status ds)

abbrev pub expected_agent : BoardTask → RunView → Text
expected_agent t v = if text_eq v.agent_name [] then t.agent else v.agent_name

-- A process that runs on.
abbrev pub is_alive : Recovery → BoardTask → RunView → Bool
is_alive w t v = ltb 0 v.process && w.alive v.process (expected_agent t v)

-- The terminal status of a run that has gone.
abbrev pub gone_status : RunView → Text
gone_status v = if text_eq v.session_id [] then codes "lost" else codes "interrupted"

abbrev pub end_run : Recovery → Bool → RunView → List Deed → Outcome
end_run w true v ds = mark w v.id (gone_status v) ds
end_run w false v ds = append_recovered_finished w v.id (gone_status v) ds

abbrev pub sync_status : Recovery → Bool → Text → List Deed → Outcome
sync_status w true status ds = edit_status w status ds
sync_status w false status ds = (ds, true)

-- A run without a finished event, behind the test for one that this process owns.
abbrev pub recover_unfinished : Recovery → BoardTask → Bool → RunView → List Deed → Outcome
recover_unfinished w t is_latest v ds =
    if is_alive w t v then (adopted v.id ∷ ds, true) else end_run w is_latest v ds

abbrev pub recover_view : Recovery → BoardTask → Bool → RunView → Option Text → List Deed → Outcome
recover_view w t is_latest v (some status) ds = sync_status w is_latest status ds
recover_view w t is_latest v none ds = recover_unfinished w t is_latest v ds

-- One round of the loop of `recoverOne`.
unfoldable pub recover_run : Recovery → BoardTask → Bool → RunView → List Deed → Outcome
unfolding mark append_recovered_finished
recover_run w t is_latest v ds =
    if w.skip_tracked && w.active_run v.id
    then (ds, true)
    else recover_view w t is_latest v v.last_finished ds

abbrev pub is_last : List RunView → Bool
is_last [] = true
is_last (_ ∷ _) = false

-- The loop; the first error ends it.
unfoldable pub recover_runs : Recovery → BoardTask → List RunView → List Deed → Outcome
unfolding recover_run
recover_runs w t [] ds = (ds, true)
recover_runs w t (v ∷ vs) ds =
    let (done, goes_on) = recover_run w t (is_last vs) v ds in
    let rest = recover_runs w t vs done in if goes_on then rest else (done, false)

-- `recoverOne`, on the history, `none` if it cannot be read.
unfoldable pub recover_one : Recovery → BoardTask → Option (List RunEvent) → Outcome
unfolding recover_runs read_run_views mark
recover_one w t none = ([], false)
recover_one w t (some evs) = elim (read_run_views evs) [
  | [] ↦ if w.skip_tracked && w.active then ([], true) else mark w [] (codes "lost") []
  | v ∷ vs ↦ recover_runs w t (v ∷ vs) []
]

-- The tasks that recovery looks at, in all columns.
unfoldable pub stale_candidates : Snapshot → List BoardTask
stale_candidates snap =
    filter (λ t. text_eq t.agent_status (codes "running"))
      (snap.backlog ++ snap.ready ++ snap.in_progress ++ snap.code_review ++ snap.done
        ++ snap.archive)
