-- ===== src/Config.antt =====
-- The configuration file `.tb.yaml`: parseSimpleYAML and parseWipLimits of cli/board.go. A map from
-- keys to values is a function.
pub mod Laws
use task_board_tools.Base.{
  ℕ, zero, suc, ◌+◌, Bool, true, false, ◌||◌, ◌&&◌, ◌==◌, List, [], ◌∷◌, Option, none, some, Text,
  codes, text_eq, if◌then◌else◌, ℤ, pos, negsuc,
}
use task_board_tools.Strings.{trim_space, has_prefix, cut_at, split}
use task_board_tools.Strings.Decimal.{atoi}
use task_board_tools.Status.{Status, backlog, ready, in_progress, code_review, done, archive}

abbrev pub Values : Type 0
Values = Text → Option Text

abbrev pub no_values : Values
no_values key = none

abbrev pub assign : Values → Text → Text → Values
assign values key value other = if text_eq key other then some value else values other

-- Whether a text ends in a byte, and the text before its last byte.
abbrev pub ends_in : ℕ → Text → Bool
ends_in q [] = false
ends_in q (c ∷ []) = c == q
ends_in q (c ∷ d ∷ s) = ends_in q (d ∷ s)

abbrev pub but_last : Text → Text
but_last [] = []
but_last (c ∷ []) = []
but_last (c ∷ d ∷ s) = c ∷ but_last (d ∷ s)

-- A pair of quotes of one kind around a value is taken off.
abbrev pub unquote : Text → Text
unquote [] = []
unquote (c ∷ s) = if (c == 34 || c == 39) && ends_in c s then but_last s else c ∷ s

abbrev pub assign_cut : Values → Option (Text × Text) → Values
assign_cut values none = values
assign_cut values (some (key, value)) = assign values (trim_space key) (unquote (trim_space value))

-- One line, trimmed.
abbrev pub read_trimmed : Values → Text → Values
read_trimmed values line =
    if text_eq line [] || has_prefix line (codes "#")
    then values
    else assign_cut values (cut_at b':' line)

unfoldable pub read_lines : Values → List Text → Values
read_lines values [] = values
read_lines values (line ∷ lines) = read_lines (read_trimmed values (trim_space line)) lines

unfoldable pub parse_simple_yaml : Text → Values
parse_simple_yaml content = read_lines no_values (split content b'\n')

-- `wipLimitConfigKey`
abbrev pub limit_key : Status → Option Text
limit_key backlog = none
limit_key ready = some (codes "wip_limit_ready")
limit_key in_progress = some (codes "wip_limit_in_progress")
limit_key code_review = some (codes "wip_limit_code_review")
limit_key done = none
limit_key archive = none

-- A limit that is no number, or a negative one, is passed over.
abbrev pub limit_value : ℤ × Bool → Option ℕ
limit_value (pos n, true) = some n
limit_value (negsuc n, true) = none
limit_value (n, false) = none

unfoldable pub read_limit : Option Text → Option ℕ
read_limit none = none
read_limit (some raw) = limit_value (atoi (trim_space raw))

abbrev pub or_limit : Option ℕ → ℕ → ℕ
or_limit none n = n
or_limit (some m) n = m

abbrev pub value_at : Values → Option Text → Option Text
value_at values none = none
value_at values (some key) = values key

-- The limit without a key of its own: two tasks in progress, or what `wip_limit` says.
abbrev pub default_limit : Values → Status → ℕ
default_limit values backlog = 0
default_limit values ready = 0
default_limit values in_progress = or_limit (read_limit (values (codes "wip_limit"))) 2
default_limit values code_review = 0
default_limit values done = 0
default_limit values archive = 0

unfoldable pub parse_wip_limits : Values → Status → ℕ
parse_wip_limits values status =
    or_limit (read_limit (value_at values (limit_key status))) (default_limit values status)
