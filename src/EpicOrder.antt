-- ===== src/EpicOrder.antt =====
-- gui/internal/automation/epicorder/epicorder.go: which children of an epic auto-implement may
-- start. `Result.Reason`, a message for the log, is reduced to its kind.
pub mod Laws
use task_board_tools.Base.{
  ℕ, Bool, true, false, List, [], ◌∷◌, Text, codes, text_eq, leb, if◌then◌else◌, ◌||◌, not,
}

pub record Task : Type 0 where
  pub id : Text
  pub numeric : ℕ
  pub parent : Text
  pub status : Text
  pub agent_status : Text
  pub tags : List Text

pub data Reason : Type 0 where
  tagged_epic unloaded needs_attention still_open : Reason

pub data Result : Type 0 where
  eligible : Result
  blocked : Text → Reason → Result

unfoldable pub contains_tag : List Text → Text → Bool
contains_tag [] target = false
contains_tag (t ∷ ts) target = text_eq t target || contains_tag ts target

-- The siblings that the loop passes over with `continue`: the candidate itself, another parent's
-- children, and those that do not come earlier.
unfoldable pub skipped : Task → Task → Bool
skipped candidate sib =
    text_eq sib.id candidate.id
    || not (text_eq sib.parent candidate.parent)
    || leb candidate.numeric sib.numeric

unfoldable pub is_closed : Text → Bool
is_closed status = text_eq status (codes "done") || text_eq status (codes "archive")

unfoldable pub wants_user : Text → Bool
wants_user s =
    text_eq s (codes "needs-user")
    || text_eq s (codes "interrupted")
    || text_eq s (codes "cancelled")

-- The loop over the siblings, in the order of its tests.
unfoldable pub scan_siblings : Task → List Task → Result
scan_siblings candidate [] = Result.eligible
scan_siblings candidate (sib ∷ siblings) =
    let rest = scan_siblings candidate siblings in
    if skipped candidate sib
    then rest
    else if text_eq sib.status []
    then blocked sib.id unloaded
    else if is_closed sib.status
    then rest
    else if wants_user sib.agent_status
    then blocked sib.id needs_attention
    else blocked sib.id still_open

unfoldable pub eligible_for_epic_order : Task → List Task → Result
unfolding scan_siblings skipped is_closed wants_user contains_tag
eligible_for_epic_order candidate siblings =
    if contains_tag candidate.tags (codes "epic")
    then blocked candidate.id tagged_epic
    else if text_eq candidate.parent []
    then Result.eligible
    else scan_siblings candidate siblings
