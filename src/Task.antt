-- ===== src/Task.antt =====
-- cli/task.go: the metadata of a task file. A file is given by the lines that `bufio.Scanner`
-- reads, each below its limit of 64 KiB; `cfg.Prefix` is an argument.
use task_board_tools.Base.{
  ℕ, ◌+◌, Bool, true, false, ◌||◌, List, [], ◌∷◌, ◌++◌, Option, none, some, Text, codes, text_eq,
  if◌then◌else◌, take,
}
use task_board_tools.Strings.{after_prefix, trim_prefix, trim_suffix, trim_space, split}
use task_board_tools.Strings.Decimal.{is_digit}

-- The metadata fields, in the order in which `parseTaskFile` tries them.
pub data Field : Type 0 where
  task_type priority size task_module tags branch review_ref parent : Field
  groomed_by groom_status implemented_by implement_status reviewed_by review_status : Field
  agent agent_status : Field

unfoldable pub field_name : Field → Text
field_name task_type = codes "Type"
field_name priority = codes "Priority"
field_name size = codes "Size"
field_name task_module = codes "Module"
field_name tags = codes "Tags"
field_name branch = codes "Branch"
field_name review_ref = codes "ReviewRef"
field_name parent = codes "Parent"
field_name groomed_by = codes "GroomedBy"
field_name groom_status = codes "GroomStatus"
field_name implemented_by = codes "ImplementedBy"
field_name implement_status = codes "ImplementStatus"
field_name reviewed_by = codes "ReviewedBy"
field_name review_status = codes "ReviewStatus"
field_name agent = codes "Agent"
field_name agent_status = codes "AgentStatus"

pub Field-discrete : Discrete Field
Field-discrete = hlevel

abbrev pub fields : List Field
fields =
    task_type ∷ priority ∷ size ∷ task_module ∷ tags ∷ branch ∷ review_ref ∷ parent ∷ groomed_by
    ∷ groom_status ∷ implemented_by ∷ implement_status ∷ reviewed_by ∷ review_status ∷ agent
    ∷ agent_status ∷ []

-- `Task`, less the status and the path, which the directory gives.
pub record Task : Type 0 where
  pub id : Text
  pub title : Text
  pub meta : Field → Text

abbrev pub blank_task : Task
blank_task = record { id = []; title = []; meta = λ _. [] }

-- The value behind a marker.
abbrev pub value_of : Option Text → Option Text
value_of none = none
value_of (some rest) = some (trim_space rest)

abbrev pub or_else : Option Text → Option Text → Option Text
or_else (some v) other = some v
or_else none other = other

-- `**Field:** value` or `**Field**: value`
unfoldable pub extract_field_any : Text → Text → Option Text
unfolding after_prefix
extract_field_any line name =
    or_else (value_of (after_prefix line (codes "**" ++ (name ++ codes ":**"))))
      (value_of (after_prefix line (codes "**" ++ (name ++ codes "**:"))))

-- The digits at the start, and what follows them.
unfoldable pub span_digits : Text → Text × Text
unfolding is_digit
span_digits [] = ([], [])
span_digits (c ∷ s) =
    let (digits, tail) = span_digits s in if is_digit c then (c ∷ digits, tail) else ([], c ∷ s)

pub data Header : Type 0 where
  no_header : Header
  malformed : Header
  header : Text → Text → Header

-- Behind the ID: a colon and a title that is not blank.
abbrev header_title : Text → Option Text → Header
header_title id none = malformed
header_title id (some tail) =
    if text_eq (trim_space tail) [] then malformed else header id (trim_space tail)

unfoldable pub header_rest : Text → Option Text → Header
unfolding span_digits after_prefix
header_rest prefix none = no_header
header_rest prefix (some rest) =
    let (digits, tail) = span_digits rest in
    if text_eq digits []
    then no_header
    else header_title (prefix ++ (codes "-" ++ digits)) (after_prefix tail (codes ":"))

-- `# PREFIX-N: Title`
unfoldable pub parse_task_header : Text → Text → Header
unfolding header_rest after_prefix
parse_task_header prefix line =
    header_rest prefix (after_prefix line (codes "# " ++ (prefix ++ codes "-")))

-- The first field, in the order of `fs`, whose marker the line starts with.
unfoldable pub first_field : Text → List Field → Option (Field × Text)
unfolding extract_field_any field_name
first_field line [] = none
first_field line (f ∷ fs) =
    let rest = first_field line fs in
    elim (extract_field_any line (field_name f)) [ some v ↦ some (f, v) | none ↦ rest ]

abbrev field_eq : Field → Field → Bool
field_eq f g = text_eq (field_name f) (field_name g)

abbrev pub set_meta : Task → Option (Field × Text) → Task
set_meta t none = t
set_meta t (some (f, v)) = record t { meta = λ g. if field_eq f g then v else t.meta g }

pub data ParseError : Type 0 where
  malformed_header : ℕ → ParseError
  missing_header : ParseError

pub data Parsed : Type 0 where
  parsed : Task → Parsed
  refused : ParseError → Parsed

abbrev pub max_metadata_lines : ℕ
max_metadata_lines = 28

abbrev parse_line : Header → Text → Task → Task
parse_line no_header line t = set_meta t (first_field (trim_prefix line (codes "- ")) fields)
parse_line malformed line t = t
parse_line (header id title) line t = record t { id = id; title = title }

abbrev is_header : Header → Bool
is_header (header _ _) = true
is_header _ = false

abbrev is_malformed : Header → Bool
is_malformed malformed = true
is_malformed _ = false

-- The loop: the lines left, the number of lines read, whether a header was found, the task so far.
unfoldable pub parse_lines : Text → List Text → ℕ → Bool → Task → Parsed
unfolding parse_task_header first_field trim_prefix
parse_lines prefix [] line_num true t = parsed t
parse_lines prefix [] line_num false t = refused missing_header
parse_lines prefix (line ∷ lines) line_num found t =
    let h = parse_task_header prefix line in
    let rest =
      parse_lines prefix lines (line_num + 1) (found || is_header h) (parse_line h line t) in
    if is_malformed h then refused (malformed_header (line_num + 1)) else rest

-- `bufio.ScanLines`: no empty line behind the last line feed, no carriage return at a line's end.
unfoldable pub drop_last_empty : List Text → List Text
drop_last_empty [] = []
drop_last_empty ([] ∷ []) = []
drop_last_empty (line ∷ lines) = line ∷ drop_last_empty lines

unfoldable pub scan_lines : Text → List Text
scan_lines content = strip (drop_last_empty (split content b'\n'))
  where
    strip : List Text → List Text
    strip [] = []
    strip (line ∷ lines) = trim_suffix line (codes "\r") ∷ strip lines

unfoldable pub parse_task_file : Text → Text → Parsed
unfolding parse_lines scan_lines
parse_task_file prefix content =
    parse_lines prefix (take max_metadata_lines (scan_lines content)) 0 false blank_task
