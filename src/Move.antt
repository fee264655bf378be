-- ===== src/Move.antt =====
-- `moveTaskOnBoardWithGuard` of cli/move.go and what it writes. The board lock makes a move one step;
-- an error keeps the writes made before it.
pub mod Frame
pub mod Success
pub mod Errors
use task_board_tools.Base.{
  ℕ, Bool, true, false, ◌||◌, ◌&&◌, not, List, [], ◌∷◌, ◌++◌, Option, none, some, Text, codes,
  if◌then◌else◌,
}
use task_board_tools.Status.{Status, code_review, archive, status_eq, status_name}
use task_board_tools.Sections.{append_log_entry}
use task_board_tools.Board.{
  Board, Error, Result, ok, err, TaskRef, Form, folder_form, file_form, Node, absent, file,
  directory, unreadable, Slot, slot_at, put, read_ref, mkdir_failed, rename_failed, write_failed,
  stat_failed, folder_markdown,
}
use task_board_tools.Gates.{
  Config, MoveGuard, resolve_move_source, ensure_review_ref, ensure_move_destination_free,
}

-- How the file system answers the writes of one command, the date, and the masking of credentials.
pub record Disk : Type 0 where
  pub mkdir_ok : Bool
  pub remove_ok : Bool
  pub rename_ok : Bool
  pub write_ok : Bool
  pub today : Text
  pub redact_line : Text → Text

-- `taskMoveResult`, less the paths.
pub record TaskMove : Type 0 where
  pub src_status : Status
  pub noop : Bool

-- Steps on the board; an error keeps the board as it is then.
abbrev pub M : Type 0 → Type 0
M A = Board → Board × Result A

infixl 5 ◌>>=◌ ◌>>◌
abbrev pub ◌>>=◌ : {A B : Type 0} → M A → (A → M B) → M B
◌>>=◌ m f b = let (b', r) = m b in elim r [ ok a ↦ f a b' | err e ↦ (b', err e) ]

abbrev pub ◌>>◌ : {A B : Type 0} → M A → M B → M B
m >> k = m >>= λ _. k

abbrev pub pure : {A : Type 0} → A → M A
pure a b = (b, ok a)

-- A check of the board.
abbrev pub check : {A : Type 0} → (Board → Result A) → M A
check f b = (b, f b)

abbrev pub attempt : Bool → Error → M Bool
attempt done e b = (b, if done then ok true else err e)

abbrev pub update_slot : Status → Text → (Slot → Slot) → M Bool
update_slot s id f b = (put b s id (f (slot_at b s id)), ok true)

abbrev pub clear_file : Slot → Slot
clear_file x = record x { file_form = absent }

abbrev pub clear_folder : Slot → Slot
clear_folder x = record x { folder = none }

abbrev pub set_folder : Option Node → Slot → Slot
set_folder n x = record x { folder = n }

abbrev pub set_file : Node → Slot → Slot
set_file n x = record x { file_form = n }

-- `os.Remove` of a sibling: a missing one is no error.
abbrev remove_file : Disk → Status → Text → Node → M Bool
remove_file d s id absent = pure true
remove_file d s id (file t) = attempt d.remove_ok write_failed >> update_slot s id clear_file
remove_file d s id directory = attempt d.remove_ok write_failed >> update_slot s id clear_file
remove_file d s id unreadable = attempt d.remove_ok write_failed >> update_slot s id clear_file

-- `cleanupOrphanFileFormSibling` (cli/board.go).
abbrev cleanup_beside : Disk → Status → Text → Node → Node → M Bool
cleanup_beside d s id absent sibling = pure true
cleanup_beside d s id unreadable sibling = attempt false stat_failed
cleanup_beside d s id directory sibling = remove_file d s id sibling
cleanup_beside d s id (file t) sibling = remove_file d s id sibling

unfoldable pub cleanup_orphan : Disk → Status → Text → M Bool
cleanup_orphan d s id b =
    cleanup_beside d s id (folder_markdown (slot_at b s id).folder) (slot_at b s id).file_form b

-- The rename of the folder or the file, from one status directory to another.
unfoldable pub rename_task : Disk → Form → Status → Status → Text → M Bool
rename_task d folder_form src target id b =
    (attempt d.rename_ok rename_failed
        >> update_slot target id (set_folder (slot_at b src id).folder)
        >> update_slot src id clear_folder)
      b
rename_task d file_form src target id b =
    (attempt d.rename_ok rename_failed
        >> update_slot target id (set_file (slot_at b src id).file_form)
        >> update_slot src id clear_file)
      b

-- A folder task loses an orphan sibling first.
abbrev pub before_rename : Disk → Form → Status → Text → M Bool
before_rename d folder_form s id = cleanup_orphan d s id
before_rename d file_form s id = pure true

-- `writeFileAtomic` of the markdown: either the whole text, or an error and no change.
abbrev pub place_text : Form → Text → Slot → Slot
place_text folder_form t x = record x { folder = some (file t) }
place_text file_form t x = record x { file_form = file t }

unfoldable pub write_markdown : Disk → Form → Status → Text → Text → M Bool
write_markdown d form s id content =
    attempt d.write_ok write_failed >> update_slot s id (place_text form content)

abbrev pub run_guard : Option MoveGuard → Text → Status → Status → Board → Result Bool
run_guard none id src target b = ok true
run_guard (some g) id src target b = g b id src target

-- Only an entry into code-review wants a review reference.
abbrev pub review_gate : Config → TaskRef → Status → Board → Result Bool
review_gate c src target b =
    if status_eq target code_review then ensure_review_ref c b src else ok true

abbrev pub log_line : Disk → Text → Text
log_line d message = codes "- " ++ (d.today ++ (codes ": " ++ (message ++ codes "\n")))

-- All that comes before the first write.
unfoldable pub move_checks : Config → Disk → Text → Status → Option MoveGuard → TaskRef → M Text
move_checks c d id target guard src = do
  check (review_gate c src target)
  check (run_guard guard id src.status target)
  attempt d.mkdir_ok mkdir_failed
  check (λ b. ensure_move_destination_free b target id)
  check (λ b. read_ref b src)

-- The writes: the orphan's removal, the rename and the log entry.
unfoldable pub move_writes : Disk → Text → Status → (Status → Text) → TaskRef → Text → M TaskMove
move_writes d id target message src content = do
  before_rename d src.form src.status id
  rename_task d src.form src.status target id
  write_markdown d src.form target id
      (append_log_entry d.redact_line content (log_line d (message src.status)))
  pure (record { src_status = src.status; noop = false })

abbrev pub move_from :
    Config → Disk → Text → Status → Option MoveGuard → (Status → Text) → TaskRef × Bool → M TaskMove
move_from c d id target guard message (src, true) =
    pure (record { src_status = src.status; noop = true })
move_from c d id target guard message (src, false) =
    move_checks c d id target guard src >>= move_writes d id target message src

unfoldable pub move_task_with_guard :
    Config → Disk → Text → Status → Option MoveGuard → (Status → Text) → M TaskMove
move_task_with_guard c d id target guard message =
    check (λ b. resolve_move_source b id target) >>= move_from c d id target guard message

unfoldable pub move_task : Config → Disk → Text → Status → Text → M TaskMove
move_task c d id target message = move_task_with_guard c d id target none (λ _. message)

unfoldable pub archive_task : Config → Disk → Text → M TaskMove
archive_task c d id =
    move_task_with_guard c d id archive none
      (λ src. codes "Closed (archived from " ++ (status_name src ++ codes ")"))
