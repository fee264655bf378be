-- ===== src/Listing/Flags.antt =====
-- The front of `cmdList` of cli/list.go: its flags, read as the flag package of the standard library
-- reads them, up to the filters.
use task_board_tools.Base.{
  ℕ, Bool, true, false, ◌||◌, ◌&&◌, List, [], ◌∷◌, Option, none, some, Text, codes, text_eq,
  if◌then◌else◌, ◌==◌,
}
use task_board_tools.SectionEdit.{is_one_of}
use task_board_tools.Listing.{ListFilters, build_list_filters}

-- The values of the flags.
pub record LsFlags : Type 0 where
  pub tags_flag : Text
  pub size_flag : Text
  pub module_flag : Text
  pub type_flag : Text
  pub priority_flag : Text
  pub parent_flag : Text
  pub agent_flag : Text
  pub search_flag : Text
  pub status_flag : Text
  pub limit_flag : Text
  pub json_flag : Bool

abbrev pub default_flags : LsFlags
default_flags = record {
  tags_flag = [];
  size_flag = [];
  module_flag = [];
  type_flag = [];
  priority_flag = [];
  parent_flag = [];
  agent_flag = [];
  search_flag = [];
  status_flag = codes "backlog";
  limit_flag = codes "0";
  json_flag = false;
}

-- Where an argument is no flag, the flags end; so they do behind a terminator.
pub data FlagArg : Type 0 where
  no_flag : FlagArg
  bad_name : FlagArg
  named : Text → FlagArg
  valued : Text → Text → FlagArg

-- A name and, behind the first equals sign that does not start it, a value.
abbrev pub onto_name : ℕ → FlagArg → FlagArg
onto_name c no_flag = no_flag
onto_name c bad_name = bad_name
onto_name c (named name) = named (c ∷ name)
onto_name c (valued name value) = valued (c ∷ name) value

unfoldable pub cut_name : Text → FlagArg
cut_name [] = named []
cut_name (c ∷ text) =
    let rest = cut_name text in if c == b'=' then valued [] text else onto_name c rest

abbrev pub flag_name : Text → FlagArg
flag_name [] = bad_name
flag_name (c ∷ text) = if c == b'-' || c == b'=' then bad_name else onto_name c (cut_name text)

-- One argument: one dash or two in front, and more than that.
abbrev pub after_dash : Text → FlagArg
after_dash [] = no_flag
after_dash (c ∷ text) =
    if c == b'-' then if text_eq text [] then no_flag else flag_name text else flag_name (c ∷ text)

unfoldable pub flag_arg : Text → FlagArg
unfolding cut_name
flag_arg [] = no_flag
flag_arg (c ∷ text) = if c == b'-' then after_dash text else no_flag

-- The names of the flags with a text, as `cmdList` declares them, and how one is set; an unknown one is
-- an error. Whether a text is a number is a question to the standard library.
unfoldable pub set_flag : (Text → Bool) → Text → Text → LsFlags → Option LsFlags
set_flag is_int name v f =
    if text_eq name (codes "t")
    then some (record f { tags_flag = v })
    else if text_eq name (codes "s")
    then some (record f { size_flag = v })
    else if text_eq name (codes "m")
    then some (record f { module_flag = v })
    else if text_eq name (codes "T")
    then some (record f { type_flag = v })
    else if text_eq name (codes "p")
    then some (record f { priority_flag = v })
    else if text_eq name (codes "parent")
    then some (record f { parent_flag = v })
    else if text_eq name (codes "agent")
    then some (record f { agent_flag = v })
    else if text_eq name (codes "search")
    then some (record f { search_flag = v })
    else if text_eq name (codes "status")
    then some (record f { status_flag = v })
    else if text_eq name (codes "n") && is_int v
    then some (record f { limit_flag = v })
    else none

abbrev pub true_words : List Text
true_words = codes "1" ∷ codes "t" ∷ codes "T" ∷ codes "TRUE" ∷ codes "true" ∷ codes "True" ∷ []

abbrev pub false_words : List Text
false_words = codes "0" ∷ codes "f" ∷ codes "F" ∷ codes "FALSE" ∷ codes "false" ∷ codes "False" ∷ []

-- The one flag without a text, where it has a value behind an equals sign.
abbrev pub set_json : Text → LsFlags → Option LsFlags
set_json v f =
    if is_one_of true_words v
    then some (record f { json_flag = true })
    else if is_one_of false_words v
    then some (record f { json_flag = false })
    else none

abbrev pub set_valued : (Text → Bool) → Text → Text → LsFlags → Option LsFlags
set_valued is_int name v f =
    if text_eq name (codes "json") then set_json v f else set_flag is_int name v f

-- The loop; the first argument is the name of a flag that waits for its text.
unfoldable pub read_flags : (Text → Bool) → Option Text → List Text → LsFlags → Option LsFlags
unfolding flag_arg set_flag
read_flags is_int none [] f = some f
read_flags is_int (some name) [] f = none
read_flags is_int (some name) (v ∷ args) f = elim (set_flag is_int name v f) [
  | none ↦ none
  | some f' ↦ read_flags is_int none args f'
]
read_flags is_int none (arg ∷ args) f = elim (flag_arg arg) [
  | no_flag ↦ some f
  | bad_name ↦ none
  | valued name v ↦ elim (set_valued is_int name v f) [
    | none ↦ none
    | some f' ↦ read_flags is_int none args f'
  ]
  | named name ↦ elim (text_eq name (codes "json")) [
    | true ↦ read_flags is_int none args (record f { json_flag = true })
    | false ↦ read_flags is_int (some name) args f
  ]
]

-- What a list is asked for.
pub record LsRequest : Type 0 where
  pub asked_status : Text
  pub asked_limit : Text
  pub as_json : Bool
  pub asked_filters : ListFilters

abbrev pub request_with : LsFlags → Option ListFilters → Option LsRequest
request_with f none = none
request_with f (some filters) = some (record {
  asked_status = f.status_flag;
  asked_limit = f.limit_flag;
  as_json = f.json_flag;
  asked_filters = filters;
})

abbrev pub request_of : Text → LsFlags → Option LsRequest
request_of prefix f = request_with f (
    build_list_filters prefix f.tags_flag f.size_flag f.module_flag f.type_flag f.priority_flag
      f.parent_flag f.agent_flag f.search_flag)

abbrev pub request_from : Text → Option LsFlags → Option LsRequest
request_from prefix none = none
request_from prefix (some f) = request_of prefix f

unfoldable pub ls_request : Text → (Text → Bool) → List Text → Option LsRequest
unfolding read_flags
ls_request prefix is_int args = request_from prefix (read_flags is_int none args default_flags)
