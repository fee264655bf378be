-- ===== src/Edit/Done.antt =====
-- What `tb edit` has done to the board when it reports success.
use task_board_tools.Edit.Applied.{AllChanged, AllPlaced}
use task_board_tools.Edit.Renamed.{Renamed}
use task_board_tools.Edit.Given.{asked_changes, AskedTitle}
use task_board_tools.Edit.Bodies.{BodiesGiven}
use task_board_tools.Base.{Bool, List, [], All, Option, Text, codes, ◌≡◌, none}
use task_board_tools.Strings.{split, join}
use task_board_tools.Status.{all_status_dirs}
use task_board_tools.Board.{Board, ok, TaskRef, resolve_task_ref, read_ref}
use task_board_tools.Gates.{Config}
use task_board_tools.Move.{Disk, M, ◌>>=◌, check}
use task_board_tools.Edit.{EditFlags, EditChange}
use task_board_tools.Edit.Values.{Offered}
use task_board_tools.Edit.Command.{
  edit_locked, BodyEdit, BodySources, EditInput, collect_bodies, apply_title, edited_text,
  applied_labels, some_change, write_edit,
}
use task_board_tools.Edit.Written.{labels_told, WroteEdit}

-- Something is to be changed.
abbrev pub Wanted : List EditChange → List BodyEdit → Option Text → Type 0
Wanted changes bodies title = (changes ≡ []) × (bodies ≡ []) × (title ≡ none) → ⊥

-- What an edit of a task has found and done: it ran on valid values, those of its flags and sources, it
-- resolved the task and read its file, and it wrote the file with the title, then all changes in order,
-- then all sections in order, and the log entry, or nothing at all.
pub record EditDone (c : Config) (d : Disk) (i : EditInput) (id : Text) (flags : EditFlags)
    (sources : BodySources) (b b' : Board) (wrote : Bool) : Type 0 where
  pub changes : List EditChange
  pub title : Option Text
  pub bodies : List BodyEdit
  pub asked : changes ≡ asked_changes d.redact_line flags
  pub offered : All Offered changes
  pub titled : AskedTitle d.redact_line flags.title title
  pub bodied : BodiesGiven i sources bodies
  pub wanted : Wanted changes bodies title
  pub ref : TaskRef
  pub resolved : resolve_task_ref c.prefix b id all_status_dirs ≡ ok ref
  pub content : Text
  pub reads : read_ref b ref ≡ ok content
  pub lines : List Text
  pub retitled : Bool
  pub renamed : Renamed c.prefix (split content b'\n') title lines retitled
  pub changed_lines : List Text
  pub changed : AllChanged lines changes changed_lines
  pub text : Text
  pub placed : AllPlaced (join changed_lines (codes "\n")) bodies text
  pub writes : WroteEdit d ref text (labels_told changes title retitled bodies) b b' wrote

-- The parts after the locked resolution, each as it follows the part before.
abbrev pub after_read :
    Config → Disk → List EditChange → List BodyEdit → Option Text → TaskRef → Text → M Bool
after_read c d changes bodies title ref content =
    check (λ _. apply_title c.prefix (split content b'\n') title) >>= λ titled.
    write_edit d ref (edited_text titled.0 changes bodies)
      (applied_labels changes title titled.1 bodies)

-- The locked part.
abbrev Locked :
    Config
    → Disk
    → Text
    → List EditChange
    → List BodyEdit
    → Option Text
    → Board
    → Board
    → Bool
    → Type 0
Locked c d id changes bodies title b b' wrote =
    (ref : TaskRef) × (content : Text) × (lines : List Text) × (retitled : Bool) × (resolve_task_ref
        c.prefix b id all_status_dirs
      ≡ ok ref)
    × (read_ref b ref ≡ ok content)
    × (apply_title c.prefix (split content b'\n') title ≡ ok (lines, retitled))
    × WroteEdit d ref (edited_text lines changes bodies)
        (applied_labels changes title retitled bodies) b b' wrote

abbrev pub after_bodies :
    Config → Disk → Text → List EditChange → Option Text → List BodyEdit → M Bool
after_bodies c d id changes title bodies =
    check (λ _. some_change changes bodies title) >>= λ _. edit_locked c d id changes bodies title

abbrev pub after_title :
    Config → Disk → EditInput → Text → BodySources → List EditChange → Option Text → M Bool
after_title c d i id sources changes title =
    check (λ _. collect_bodies i sources) >>= after_bodies c d id changes title
