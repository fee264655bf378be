-- ===== src/Status.antt =====
-- The columns of the board and the words that name them: the directory lists and aliases of
-- cli/board.go, the ranks of cli/epic.go and cli/list.go, task IDs (cli/move.go, cli/list.go).
pub mod Laws
use task_board_tools.Base.{
  ℕ, Bool, true, false, ◌||◌, List, [], ◌∷◌, ◌++◌, Option, none, some, Text, codes, text_eq,
  if◌then◌else◌, ℤ, pos,
}
use task_board_tools.Strings.{to_lower, to_upper, has_prefix, cut_at}
use task_board_tools.Strings.Decimal.{atoi}

-- A status directory.
pub data Status : Type 0 where
  backlog ready in_progress code_review done archive : Status

pub Status-discrete : Discrete Status
Status-discrete = hlevel

-- The directory's name.
unfoldable pub status_name : Status → Text
status_name backlog = codes "backlog"
status_name ready = codes "ready"
status_name in_progress = codes "in-progress"
status_name code_review = codes "code-review"
status_name done = codes "done"
status_name archive = codes "archive"

unfoldable pub status_eq : Status → Status → Bool
status_eq backlog backlog = true
status_eq ready ready = true
status_eq in_progress in_progress = true
status_eq code_review code_review = true
status_eq done done = true
status_eq archive archive = true
status_eq _ _ = false

abbrev pub status_dirs : List Status
status_dirs = backlog ∷ ready ∷ in_progress ∷ code_review ∷ done ∷ []

abbrev pub all_status_dirs : List Status
all_status_dirs = backlog ∷ ready ∷ in_progress ∷ code_review ∷ done ∷ archive ∷ []

-- One of the alternatives of a `case`.
unfoldable pub one_of : Text → List Text → Bool
one_of s [] = false
one_of s (t ∷ ts) = text_eq s t || one_of s ts

-- The `switch` of `resolveStatus`, after lowering; `none` is the error.
unfoldable pub status_of_alias : Text → Option Status
unfolding one_of text_eq
status_of_alias s =
    if one_of s (codes "b" ∷ codes "backlog" ∷ [])
    then some backlog
    else if one_of s (codes "r" ∷ codes "ready" ∷ [])
    then some ready
    else if one_of s (codes "ip" ∷ codes "in-progress" ∷ codes "wip" ∷ [])
    then some in_progress
    else if one_of s (codes "cr" ∷ codes "code-review" ∷ codes "review" ∷ [])
    then some code_review
    else if one_of s (codes "d" ∷ codes "done" ∷ [])
    then some done
    else if text_eq s (codes "archive")
    then some archive
    else none

unfoldable pub resolve_status : Text → Option Status
unfolding status_of_alias to_lower
resolve_status input = status_of_alias (to_lower input)

abbrev single : Option Status → Option (List Status)
single none = none
single (some s) = some (s ∷ [])

unfoldable pub resolve_status_filter : Text → Option (List Status)
unfolding resolve_status to_lower text_eq
resolve_status_filter input =
    if text_eq (to_lower input) (codes "active")
    then some status_dirs
    else if text_eq (to_lower input) (codes "all")
    then some all_status_dirs
    else single (resolve_status input)

-- Active work first; the last rank, of a misspelt status, has no `Status` here.
unfoldable pub status_rank : Status → ℕ
status_rank in_progress = 0
status_rank code_review = 1
status_rank ready = 2
status_rank backlog = 3
status_rank done = 4
status_rank archive = 5

unfoldable pub priority_rank : Text → ℕ
unfolding to_upper text_eq
priority_rank p =
    if text_eq (to_upper p) (codes "P0")
    then 0
    else if text_eq (to_upper p) (codes "P1")
    then 1
    else if text_eq (to_upper p) (codes "P2")
    then 2
    else if text_eq (to_upper p) (codes "P3")
    then 3
    else 9

-- `PREFIX-N` or `N`, in capitals, with the prefix.
unfoldable pub normalize_task_id : Text → Text → Text
unfolding has_prefix to_upper
normalize_task_id config_prefix raw =
    if has_prefix (to_upper raw) (to_upper config_prefix ++ codes "-")
    then to_upper raw
    else to_upper (config_prefix ++ (codes "-" ++ raw))

-- The number behind the first dash; 0 without one, and where `Atoi` reads none.
abbrev number_behind : Option (Text × Text) → ℤ
number_behind none = pos 0
number_behind (some (before, behind)) = (atoi behind).0

unfoldable pub numeric_id : Text → ℤ
unfolding cut_at atoi
numeric_id id = number_behind (cut_at b'-' id)
