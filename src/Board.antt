-- ===== src/Board.antt =====
-- cli/board.go: where the tasks of a board stand. The directories of a board are a list of entries,
-- one for each status and task ID, and a path of the program is a place in one of them: `<ID>.md`,
-- the directory `<ID>`, or `<ID>/TASK.md`. A status directory that exists can be read. Warnings on
-- stderr are left out, and an error is kept as its kind.
pub mod Slots
pub mod Sorting
pub mod Forms
pub mod Lookup
use task_board_tools.Base.{
  ℕ, Bool, true, false, ◌||◌, ◌&&◌, not, List, [], ◌∷◌, ◌++◌, Option, none, some, Text, codes,
  text_eq, if◌then◌else◌, ltb_ℤ, ℤ,
}
use task_board_tools.Strings.{has_prefix, has_suffix, equal_fold}
use task_board_tools.Status.{Status, status_eq, numeric_id}
use task_board_tools.Task.{Task, Parsed, parsed, refused, parse_task_file}

-- What `os.Stat` and `os.ReadFile` see at a path; `unreadable` is any other error than a missing file.
pub data Node : Type 0 where
  absent directory unreadable : Node
  file : Text → Node

-- `<status>/<ID>.md`, and the directory `<status>/<ID>` with the node of its `TASK.md`.
pub record Slot : Type 0 where
  pub file_form : Node
  pub folder : Option Node

pub record Entry : Type 0 where
  pub status : Status
  pub id : Text
  pub slot : Slot

abbrev pub Board : Type 0
Board = List Entry

abbrev pub empty_slot : Slot
empty_slot = record { file_form = absent; folder = none }

-- What can go wrong; the program's messages say more.
pub data Error : Type 0 where
  stat_failed duplicate_task not_found ambiguous_source destination_taken : Error
  no_review_ref malformed_task unreadable_file : Error
  mkdir_failed rename_failed write_failed : Error
  wip_limit_reached wrong_source needs_grooming not_promotable no_body bad_flag no_changes : Error
  no_title_line : Error

pub data Result {ℓ} (X : Type ℓ) : Type ℓ where
  ok : X → Result X
  err : Error → Result X

infixl 5 ◌>>=◌
abbrev pub ◌>>=◌ {ℓ κ} : {X : Type ℓ} {Y : Type κ} → Result X → (X → Result Y) → Result Y
err fault >>= next = err fault
ok x >>= next = next x

-- `isFolderTaskPath` tells the two forms apart by the path.
pub data Form : Type 0 where
  folder_form file_form : Form

pub record TaskRef : Type 0 where
  pub id : Text
  pub status : Status
  pub form : Form

unfoldable pub place_eq : Status → Text → Status → Text → Bool
place_eq s i t j = status_eq s t && text_eq i j

-- Reading and writing a place.
unfoldable pub slot_at : Board → Status → Text → Slot
slot_at [] status id = empty_slot
slot_at (e ∷ b) status id =
    let rest = slot_at b status id in if place_eq e.status e.id status id then e.slot else rest

unfoldable pub put : Board → Status → Text → Slot → Board
put [] status id s = record { status = status; id = id; slot = s } ∷ []
put (e ∷ b) status id s =
    let rest = put b status id s in
    if place_eq e.status e.id status id then record e { slot = s } ∷ b else e ∷ rest

-- `os.Stat` of a markdown path: whether there is a file; a directory there is an error.
abbrev pub stat_markdown : Node → Result Bool
stat_markdown absent = ok false
stat_markdown directory = err stat_failed
stat_markdown unreadable = err stat_failed
stat_markdown (file _) = ok true

abbrev pub folder_markdown : Option Node → Node
folder_markdown none = absent
folder_markdown (some n) = n

abbrev choose_form : Bool → Bool → Option Form
choose_form true _ = some folder_form
choose_form false true = some file_form
choose_form false false = none

-- The form in which a slot holds a task: the folder form wins.
unfoldable pub resolve_form : Slot → Result (Option Form)
resolve_form s = do
  folder_exists ← stat_markdown (folder_markdown s.folder)
  file_exists ← stat_markdown s.file_form
  ok (choose_form folder_exists file_exists)

abbrev ref_of : Text → Status → Option Form → Option TaskRef
ref_of id status none = none
ref_of id status (some f) = some (record { id = id; status = status; form = f })

unfoldable pub resolve_task_ref_in_status : Board → Status → Text → Result (Option TaskRef)
resolve_task_ref_in_status b status id = do
  form ← resolve_form (slot_at b status id)
  ok (ref_of id status form)

abbrev pub add_ref : Option TaskRef → List TaskRef → List TaskRef
add_ref none refs = refs
add_ref (some r) refs = r ∷ refs

unfoldable pub resolve_task_refs_for_id : Board → Text → List Status → Result (List TaskRef)
resolve_task_refs_for_id b id [] = ok []
resolve_task_refs_for_id b id (status ∷ statuses) =
    let rest = resolve_task_refs_for_id b id statuses in
    resolve_task_ref_in_status b status id >>= λ r. rest >>= λ refs. ok (add_ref r refs)

-- `isTaskFile` and `taskIDFromFileName`, for the file name `<id>.md`.
unfoldable pub is_task_file : Text → Text → Bool
unfolding has_prefix has_suffix
is_task_file prefix name = has_prefix name (prefix ++ codes "-") && has_suffix name (codes ".md")

unfoldable pub is_task_dir_name : Text → Text → Bool
unfolding has_prefix has_suffix
is_task_dir_name prefix name =
    not (has_prefix name (codes "."))
    && (has_prefix name (prefix ++ codes "-") && not (has_suffix name (codes ".md")))

-- Whether the directory listing shows a task file `<id>.md`: no directory, and not hidden.
abbrev listed_file : Text → Text → Node → Bool
listed_file prefix id absent = false
listed_file prefix id directory = false
listed_file prefix id unreadable =
    not (has_prefix (id ++ codes ".md") (codes ".")) && is_task_file prefix (id ++ codes ".md")
listed_file prefix id (file _) =
    not (has_prefix (id ++ codes ".md") (codes ".")) && is_task_file prefix (id ++ codes ".md")

-- Whether it shows a task folder: a directory of that name with a `TASK.md`.
abbrev listed_folder : Text → Text → Option Node → Result Bool
listed_folder prefix id none = ok false
listed_folder prefix id (some n) = if is_task_dir_name prefix id then stat_markdown n else ok false

unfoldable pub discover_entry : Text → Entry → Result (Option TaskRef)
discover_entry prefix e = do
  folder_exists ← listed_folder prefix e.id e.slot.folder
  ok (ref_of e.id e.status (choose_form folder_exists (listed_file prefix e.id e.slot.file_form)))

-- The loop over the entries of one directory.
unfoldable pub collect_refs : Text → Status → Board → Result (List TaskRef)
collect_refs prefix status [] = ok []
collect_refs prefix status (e ∷ b) =
    let rest = collect_refs prefix status b in
    if status_eq e.status status
    then (discover_entry prefix e >>= λ r. rest >>= λ refs. ok (add_ref r refs))
    else rest

-- `sort.Slice` by a test, as an insertion sort; which order equal items get is not specified there.
module _ {ℓ} {A : Type ℓ} (less : A → A → Bool) where
  unfoldable pub insert_by : A → List A → List A
  insert_by x [] = x ∷ []
  insert_by x (y ∷ ys) = let rest = insert_by x ys in if less y x then y ∷ rest else x ∷ y ∷ ys

  unfoldable pub sort_by : List A → List A
  sort_by [] = []
  sort_by (x ∷ xs) = insert_by x (sort_by xs)

unfoldable pub discover_in_status : Text → Board → Status → Result (List TaskRef)
discover_in_status prefix b status = do
  refs ← collect_refs prefix status b
  ok (sort_by (λ r q. ltb_ℤ (numeric_id r.id) (numeric_id q.id)) refs)

-- The `seen` map of `discoverTaskRefs`: an ID may turn up once only.
abbrev pub seen_id : List TaskRef → Text → Bool
seen_id [] id = false
seen_id (r ∷ rs) id = text_eq r.id id || seen_id rs id

unfoldable pub add_unseen : List TaskRef → List TaskRef → Result (List TaskRef)
add_unseen seen [] = ok seen
add_unseen seen (r ∷ rs) =
    let rest = add_unseen (seen ++ r ∷ []) rs in
    if seen_id seen r.id then err duplicate_task else rest

unfoldable pub discover_from : Text → Board → List TaskRef → List Status → Result (List TaskRef)
discover_from prefix b seen [] = ok seen
discover_from prefix b seen (status ∷ statuses) = discover_in_status prefix b status >>= λ refs.
    add_unseen seen refs >>= λ seen'. discover_from prefix b seen' statuses

unfoldable pub discover_task_refs : Text → Board → List Status → Result (List TaskRef)
discover_task_refs prefix b statuses = discover_from prefix b [] statuses

abbrev find_ref : Text → List TaskRef → Result TaskRef
find_ref id [] = err not_found
find_ref id (r ∷ rs) = let rest = find_ref id rs in if equal_fold r.id id then ok r else rest

unfoldable pub resolve_task_ref : Text → Board → Text → List Status → Result TaskRef
resolve_task_ref prefix b id statuses = discover_task_refs prefix b statuses >>= find_ref id

-- `os.ReadFile` of a task's markdown.
abbrev pub node_of : Form → Slot → Node
node_of folder_form s = folder_markdown s.folder
node_of file_form s = s.file_form

abbrev pub read_node : Node → Result Text
read_node (file t) = ok t
read_node absent = err unreadable_file
read_node directory = err unreadable_file
read_node unreadable = err unreadable_file

unfoldable pub read_ref : Board → TaskRef → Result Text
read_ref b r = read_node (node_of r.form (slot_at b r.status r.id))

abbrev pub task_result : Parsed → Result Task
task_result (parsed t) = ok t
task_result (refused e) = err malformed_task

unfoldable pub parse_task_ref : Text → Board → TaskRef → Result Task
parse_task_ref prefix b r = read_ref b r >>= λ content. task_result (parse_task_file prefix content)
