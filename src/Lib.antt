-- ===== src/Lib.antt =====
-- The task board of the command-line tool `tb` and the rules of its desktop companion.
--
-- A board is a directory with one directory for each status. A task is a file `<ID>.md` or a directory
-- `<ID>` with a `TASK.md`; its column is the directory it stands in. Commands change the board under a
-- lock on it. The desktop program starts agents on tasks and asks the same tool to move them.
--
-- Which file models which part:
--   Base        Boolean tests, texts as lists of bytes, lists, integers of either sign
--   Strings     the functions of Go's strings and strconv that the program calls, on ASCII texts
--   Status      columns, their aliases and ranks, task IDs (cli/board.go, cli/list.go, cli/move.go)
--   Task        the parser of task files (cli/task.go)
--   Tags        hasTag, addTag (cli/task.go) and removeTag (cli/review.go)
--   Sections    headings outside code fences (cli/task_sections.go) and appendLogEntry (cli/move.go)
--   Metadata    setField and clearField (cli/edit.go)
--   Board       lookup and discovery of tasks (cli/board.go)
--   Gates       what a move checks before it writes: source, destination, WIP limits (cli/ready.go), the
--               review reference (cli/review.go) and guards (cli/move.go)
--   Move        moveTaskOnBoardWithGuard (cli/move.go), with the writes in their order
--   Triage      checkNeedsGrooming (cli/triage.go)
--   Ready       tb ready, tb pull (cli/ready.go), tb mv and tb start (cli/move.go)
--   EpicOrder   EligibleForEpicOrder (gui/internal/automation/epicorder/epicorder.go)
--   Listing     the flags, the filters and the order of tb ls (cli/list.go)
--   Daemon      the queue, worker slots and reservations (gui/internal/daemon/daemon.go): one function for
--               each critical section, and a step relation that runs them in any order
--   Allocate    allocateID (cli/board.go)
--   Edit        tb edit: flags, title, changes and bodies (cli/edit.go)
--   SectionEdit upsertTaskSection (cli/edit.go)
--   Review      tb review --submit, --pass, --fail and its section edits (cli/review.go)
--   Config      parseSimpleYAML and parseWipLimits (cli/board.go)
--   Automation  one scan of auto-implement and its parts: the remaining workers, the saved query, the
--               gates, the order of starts (gui/app/auto_implement.go, auto_implement_filter.go,
--               automation_capacity.go)
--   Reconcile   repairs of transitions that were left undone (gui/app/stage_reconciler.go)
--   Recovery    runs that were under way when the program ended (gui/app/agent_recovery.go)
--   Args        reorderArgs and reorderReviewArgs (cli/create.go, cli/review.go)
--   Examples    the theorems at concrete inputs
--
-- A text is a list of bytes, `Text`; trimming and letter case are those of ASCII, and a line of a task
-- file is shorter than the 64 KiB that the scanner takes. A board is a list of entries, one for each
-- status and ID, and a place holds nothing, a directory, a file with its text, or what cannot be read. A
-- status directory can always be listed. A command is a function from a board to a board and a result,
-- and an error keeps the writes made before it. How the file system answers each kind of write, the date
-- and the masking of credentials in a log line are a record, `Disk`, an argument of the model. Errors
-- are kept as kinds; messages and warnings are left out. A WIP limit of 0 stands for a missing one, as
-- both mean no limit to the program. `sort.Slice` is insertion sort; the order of equal elements, which
-- Go leaves open, is the one that gives. The lock makes each locked section one step; what other
-- processes do between two locked sections of one command is a function on boards, also an argument.
-- Loops are structural recursion on a list or a text.
-- One loop has fuel, the search for a free number: it gets one round more than the board has entries, and
-- Allocate/Search proves that this finds one.
-- The answers of the services that a coordinator or the reconciler calls are arguments, by task ID: whether
-- a run is active, whether a call or a command of `tb` succeeds. What they did before an answer changes is
-- recorded as a list of actions or commands. Times are numbers of seconds, and the hash is any function.
--
-- Not modelled: printing, the flags of other commands than tb ls, JSON, the generated BOARD.md (its failure is a warning
-- only), file copies, source scanning, child processes and their streams, file watching, settings, the
-- bindings of the desktop framework and its frontend.
pub mod Allocate
pub mod Args
pub mod Automation
pub mod Base
pub mod Board
pub mod Config
pub mod Daemon
pub mod Edit
pub mod EpicOrder
pub mod Examples
pub mod Gates
pub mod Listing
pub mod Metadata
pub mod Move
pub mod Ready
pub mod Reconcile
pub mod Recovery
pub mod Review
pub mod SectionEdit
pub mod Sections
pub mod Status
pub mod Strings
pub mod Tags
pub mod Task
pub mod Triage
