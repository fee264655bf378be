-- ===== src/Automation/Scan.antt =====
-- `scan` of gui/app/auto_implement.go, from the settings to the last start.
use task_board_tools.Base.{
  ℕ, Bool, true, false, ◌||◌, not, List, [], Option, none, some, Text, codes, text_eq,
  if◌then◌else◌, any, ◌≡◌, Bool-cases, inr, inl, refl,
}
use task_board_tools.Strings.{trim_space, has_prefix, split, cut_at}
use task_board_tools.Board.{sort_by}
use task_board_tools.Automation.Tasks.{BoardTask, Snapshot}
use task_board_tools.Automation.Filter.{AutoImplementFilter, is_empty}
use task_board_tools.Automation.Implement.{
  Calls, Action, Skip, Scan, prune_resume_attempts, resume_sweep, candidate_pass, starts_before,
  start_loop,
}

-- What a scan reads: the settings, the answers of `tb` (`none` for an error), the text of the
-- configuration file, the remaining workers and the time.
pub record Inputs : Type 0 where
  pub services : Bool
  pub enabled : Bool
  pub query : AutoImplementFilter
  pub default_agent : Text
  pub board : Option Snapshot
  pub ready_tasks : Option (List BoardTask)
  pub triage : Option (List Text)
  pub config : Option Text
  pub capacity : ℕ
  pub now : ℕ

-- What the coordinator keeps from scan to scan, and what the last one has done.
pub record Coordinator : Type 0 where
  pub needs_default : Bool
  pub needs_query : Bool
  pub skips : List (Text × Skip)
  pub attempts : List (Text × ℕ)
  pub done_actions : List Action

abbrev pub is_valid_default_agent : Text → Bool
is_valid_default_agent agent = text_eq agent (codes "claude") || text_eq agent (codes "codex")

abbrev pub is_wip_key : Option (Text × Text) → Bool
is_wip_key none = false
is_wip_key (some (key, _)) =
    text_eq (trim_space key) (codes "wip_limit")
    || text_eq (trim_space key) (codes "wip_limit_in_progress")

abbrev pub is_wip_line : Text → Bool
is_wip_line line =
    let trimmed = trim_space line in
    if text_eq trimmed [] || has_prefix trimmed (codes "#")
    then false
    else is_wip_key (cut_at b':' trimmed)

-- `hasExplicitInProgressWIPConfig`, on the text of the file.
unfoldable pub has_explicit_wip : Option Text → Bool
has_explicit_wip none = false
has_explicit_wip (some text) = any is_wip_line (split text b'\n')

-- `explicitInProgressWIPLimit`
unfoldable pub explicit_limit : Inputs → Snapshot → ℕ
unfolding has_explicit_wip
explicit_limit i snap =
    if has_explicit_wip i.config then snap.wip_limits (codes "in-progress") else 0

-- The resume sweep on a fresh ledger.
unfoldable pub swept : Calls → Inputs → Snapshot → List (Text × ℕ) → Scan
swept k i snap attempts = resume_sweep k i.now snap.in_progress (record {
  workers = i.capacity;
  in_progress = snap.wip_counts (codes "in-progress");
  last_skip = [];
  resume_attempts = prune_resume_attempts i.now attempts;
  actions = [];
})

-- The scan behind the resume sweep.
unfoldable pub started_from : Calls → Inputs → Snapshot → List BoardTask → Scan → Scan
started_from k i snap ready s = elim i.triage [
  | none ↦ s
  | some flagged ↦
      let (candidates, s') = candidate_pass k flagged snap ready s in
      start_loop k i.default_agent (explicit_limit i snap) (sort_by starts_before candidates) s'
]

abbrev pub finish_scan : Scan → Coordinator → Coordinator
finish_scan s c = record c {
  skips = s.last_skip;
  attempts = s.resume_attempts;
  done_actions = s.actions;
}

-- What the board and the list of ready tasks lead to; without one of them nothing is done.
unfoldable pub scan_board :
    Calls → Inputs → Option Snapshot → Option (List BoardTask) → Coordinator → Coordinator
unfolding swept started_from
scan_board k i none ready c = c
scan_board k i (some snap) none c = c
scan_board k i (some snap) (some ready) c =
    finish_scan (started_from k i snap ready (swept k i snap c.attempts)) c

unfoldable pub scan : Calls → Inputs → Coordinator → Coordinator
unfolding scan_board
scan k i c =
    let fresh = record c { skips = []; done_actions = [] } in
    if not i.services
    then record c { done_actions = [] }
    else if not i.enabled
    then record fresh { needs_default = false; needs_query = false }
    else if is_empty i.query
    then record fresh { needs_query = true; needs_default = false }
    else if not (is_valid_default_agent i.default_agent)
    then record fresh { needs_query = false; needs_default = true }
    else scan_board k i i.board i.ready_tasks
        (record fresh { needs_query = false; needs_default = false })

-- What holds of no action, and of the actions of every scan that reaches the board, holds of all scans.
pub scan_any {ℓ} :
    (P : List Action → Type ℓ) (k : Calls) (i : Inputs) (c : Coordinator)
    → P []
    → ((snap : Snapshot) (ready : List BoardTask)
        → i.board ≡ some snap
        → i.ready_tasks ≡ some ready
        → P (started_from k i snap ready (swept k i snap c.attempts)).actions)
    → P (scan k i c).done_actions
unfolding scan scan_board explicit_limit
scan_any P k i c base step = elim (Bool-cases i.services) [
  | inr e ↦ rw e base
  | inl e ↦ elim (Bool-cases i.enabled) [
    | inr e2 ↦ rw (e, e2) base
    | inl e2 ↦ elim (Bool-cases (is_empty i.query)) [
      | inl e3 ↦ rw (e, e2, e3) base
      | inr e3 ↦ elim (Bool-cases (is_valid_default_agent i.default_agent)) [
        | inr e4 ↦ rw (e, e2, e3, e4) base
        | inl e4 ↦ rw (e, e2, e3, e4) (on_board i.board i.ready_tasks refl refl)
      ]
    ]
  ]
]
  where
    on_board :
        (b : Option Snapshot) (r : Option (List BoardTask))
        → i.board ≡ b
        → i.ready_tasks ≡ r
        → P
            (scan_board k i b r (record c {
              skips = [];
              done_actions = [];
              needs_query = false;
              needs_default = false;
            })).done_actions
    on_board none r e q = base
    on_board (some snap) none e q = base
    on_board (some snap) (some ready) e q = step snap ready e q
