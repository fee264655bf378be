-- ===== src/Reconcile/Repair.antt =====
-- One attempt at a repair, and the file of the attempts that have failed: what is tried again, and when.
-- The hash is a parameter.
use task_board_tools.Base.{
  ℕ, ◌+◌, Bool, true, false, ◌&&◌, not, List, [], ◌∷◌, ◌++◌, Option, none, some, Text, codes,
  text_eq, ltb, leb, ◌==◌, if◌then◌else◌,
}
use task_board_tools.Strings.{trim_space, split, join, has_prefix}
use task_board_tools.Strings.Decimal.{format}
use task_board_tools.Automation.Tasks.{Snapshot, look_up, erase, put}

pub data Transition : Type 0 where
  auto_groom_ready auto_implement_start auto_implement_submit : Transition
  implement_needs_user review_failed_ready : Transition

unfoldable pub transition_name : Transition → Text
transition_name auto_groom_ready = codes "auto-groom-ready"
transition_name auto_implement_start = codes "auto-implement-start"
transition_name auto_implement_submit = codes "auto-implement-submit"
transition_name implement_needs_user = codes "implement-needs-user-ready"
transition_name review_failed_ready = codes "review-failed-ready"

-- `reconcileSkipEntry`, less the reason and the time.
pub record SkipEntry : Type 0 where
  pub fingerprint : Text
  pub attempts : ℕ

abbrev pub Skips : Type 0
Skips = List (Text × SkipEntry)

-- The commands of `tb` that repair.
pub data Command : Type 0 where
  ready_task pull_task submit_review move_to_ready : Text → Command
  fail_review : Text → Text → Command

-- The world of a reconciler: the file of skips, `none` if it cannot be read, and the commands given so
-- far, the last first.
pub record Desk : Type 0 where
  pub skip_file : Option Skips
  pub commands : List Command

-- What the world answers: whether a command succeeds, and whether the file can be written.
pub record World : Type 0 where
  pub hash : Text → Text
  pub obeys : Command → Bool
  pub can_write : Bool

unfoldable pub skip_key : Text → Transition → Text
unfolding transition_name
skip_key id t = id ++ b'|' ∷ transition_name t

abbrev pub same_fingerprint : Text → Option SkipEntry → Bool
same_fingerprint fp none = false
same_fingerprint fp (some e) = text_eq e.fingerprint fp

abbrev pub readable : Option Skips → Skips
readable none = []
readable (some es) = es

unfoldable pub has_current_skip : Text → Transition → Text → Desk → Bool
unfolding skip_key
has_current_skip id t fp d = elim d.skip_file [
  | none ↦ false
  | some es ↦ same_fingerprint fp (look_up es (skip_key id t))
]

-- `writeReconcileSkipFile`: a write that fails leaves the old file.
abbrev pub write_skips : World → Skips → Desk → Desk
write_skips w es d = if w.can_write then record d { skip_file = some es } else d

abbrev pub next_attempt : Option SkipEntry → ℕ
next_attempt none = 1
next_attempt (some e) = e.attempts + 1

unfoldable pub record_repair_skip : World → Text → Transition → Text → Desk → Desk
unfolding skip_key put
record_repair_skip w id t fp d =
    let es = readable d.skip_file in
    let old = look_up es (skip_key id t) in
    if same_fingerprint fp old
    then d
    else write_skips w
        (put es (skip_key id t) (record { fingerprint = fp; attempts = next_attempt old })) d

abbrev pub is_known : Option SkipEntry → Bool
is_known none = false
is_known (some e) = true

unfoldable pub clear_skip : World → Text → Transition → Desk → Desk
unfolding skip_key
clear_skip w id t d = elim d.skip_file [
  | none ↦ d
  | some es ↦
      if is_known (look_up es (skip_key id t))
      then write_skips w (erase es (skip_key id t)) d
      else d
]

abbrev pub give : Command → Desk → Desk
give c d = record d { commands = c ∷ d.commands }

-- `attemptRepair`; `full` is the test on the WIP limit that its function makes first.
unfoldable pub attempt_repair : World → Text → Transition → Text → Bool → Command → Desk → Desk
unfolding has_current_skip record_repair_skip clear_skip
attempt_repair w id t fp full c d =
    if has_current_skip id t fp d
    then d
    else if full
    then record_repair_skip w id t fp d
    else if w.obeys c
    then clear_skip w id t (give c d)
    else record_repair_skip w id t fp (give c d)

unfoldable pub wip_strict_blocked : Snapshot → Text → Bool
wip_strict_blocked snap status =
    if not (text_eq snap.wip_enforcement (codes "strict"))
    then false
    else if snap.wip_limits status == 0
    then false
    else leb (snap.wip_limits status) (snap.wip_counts status)

unfoldable pub auto_groom_ready_wip_full : Snapshot → Bool
auto_groom_ready_wip_full snap =
    ltb 0 (snap.wip_limits (codes "ready"))
    && leb (snap.wip_limits (codes "ready")) (snap.wip_counts (codes "ready"))

unfoldable pub wip_fingerprint : Snapshot → Text → Text
wip_fingerprint snap status =
    codes "wip:"
    ++ status
    ++ codes ":"
    ++ snap.wip_enforcement
    ++ codes ":"
    ++ format (snap.wip_counts status)
    ++ codes ":"
    ++ format (snap.wip_limits status)

unfoldable pub reconcile_fingerprint : World → List Text → Text
reconcile_fingerprint w parts = w.hash (join parts (0 ∷ []))

-- The lines up to the next heading of the second level.
unfoldable pub lines_before_heading : List Text → List Text
lines_before_heading [] = []
lines_before_heading (line ∷ lines) =
    let rest = lines_before_heading lines in
    if has_prefix (trim_space line) (codes "## ") then [] else line ∷ rest

unfoldable pub lines_behind_heading : Text → List Text → Option (List Text)
lines_behind_heading heading [] = none
lines_behind_heading heading (line ∷ lines) =
    let rest = lines_behind_heading heading lines in
    if text_eq (trim_space line) heading then some lines else rest

-- The text of a section, the empty one for a section that is not there: the callers ask for both.
unfoldable pub markdown_section_body : Text → Text → Text
unfolding lines_before_heading lines_behind_heading
markdown_section_body content heading = elim (lines_behind_heading heading (split content b'\n')) [
  | none ↦ []
  | some lines ↦ trim_space (join (lines_before_heading lines) (codes "\n"))
]
