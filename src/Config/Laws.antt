-- ===== src/Config/Laws.antt =====
-- What a line of the file sets.
use task_board_tools.Base.{
  ◌≤◌, false, List, [], ◌∷◌, ◌++◌, ◌≡◌, refl, ap, Text, codes, text_eq, ℕ, some, text_eq_refl,
}
use task_board_tools.Strings.{trim_space, has_prefix, split}
use task_board_tools.Strings.Parts.{Lacks, split_behind}
use task_board_tools.Config.{
  Values, no_values, assign, unquote, read_trimmed, read_lines, parse_simple_yaml, parse_wip_limits,
  read_limit, Status, limit_key,
}
use task_board_tools.Status.Laws.{cut_at-Lacks}
use task_board_tools.Metadata.Laws.{trim_space-blank}
use task_board_tools.Status.{Status}
use task_board_tools.Strings.Decimal.{format, max_int, atoi-format}

abbrev pub entry_line : Text → Text → Text
entry_line key value = key ++ b':' ∷ b' ' ∷ value

-- A key and a value as they are written in a file: on one line, without blank ends, the key no comment
-- and without a colon, the value without quotes.
pub record IsEntry (key value : Text) : Type 0 where
  pub one_line : Lacks b'\n' (entry_line key value)
  pub no_colon : Lacks b':' key
  pub no_comment : has_prefix (entry_line key value) (codes "#") ≡ false
  pub trimmed_line : trim_space (entry_line key value) ≡ entry_line key value
  pub trimmed_key : trim_space key ≡ key
  pub trimmed_value : trim_space value ≡ value
  pub unquoted : unquote value ≡ value

read_lines-append :
    (values : Values) (ls : List Text) (l : Text)
    → read_lines values (ls ++ l ∷ []) ≡ read_trimmed (read_lines values ls) (trim_space l)
unfolding read_lines
read_lines-append values [] l = refl
read_lines-append values (k ∷ ls) l = read_lines-append (read_trimmed values (trim_space k)) ls l

entry_line-ne-nil : (key value : Text) → text_eq (entry_line key value) [] ≡ false
unfolding text_eq
entry_line-ne-nil [] value = refl
entry_line-ne-nil (c ∷ key) value = refl

read_trimmed-entry :
    (values : Values) (key value : Text)
    → IsEntry key value
    → read_trimmed values (entry_line key value) ≡ assign values key value
read_trimmed-entry values key value h =
    rw (entry_line-ne-nil key value, h.no_comment, cut_at-Lacks b':' key (b' ' ∷ value) h.no_colon)
      (rw (h.trimmed_key, trim_space-blank value, h.trimmed_value, h.unquoted))

-- The last line of the file that sets a key wins: behind any other text, `key: value` gives the key this
-- value and leaves the value of every other key as the text before it has set it.
pub parse_simple_yaml-entry :
    (content key value other : Text)
    → IsEntry key value
    → parse_simple_yaml (content ++ b'\n' ∷ entry_line key value) other
      ≡ assign (parse_simple_yaml content) key value other
unfolding parse_simple_yaml
parse_simple_yaml-entry content key value other h =
    rw
      (
        split_behind content (entry_line key value) b'\n' h.one_line,
        read_lines-append no_values (split content b'\n') (entry_line key value),
        h.trimmed_line,
      )
      (ap (λ (v : Values). v other)
        (read_trimmed-entry (read_lines no_values (split content b'\n')) key value h))

-- A limit that is written as the last line of the file, under the key of a column and as a decimal number
-- that fits an `int`, is the limit of that column, whatever the text before it says.
pub parse_wip_limits-written :
    (content key : Text) (s : Status) (n : ℕ)
    → limit_key s ≡ some key
    → IsEntry key (format n)
    → n ≤ max_int
    → parse_wip_limits (parse_simple_yaml (content ++ b'\n' ∷ entry_line key (format n))) s ≡ n
unfolding parse_wip_limits read_limit
parse_wip_limits-written content key s n at h le = rw (
  at,
  parse_simple_yaml-entry content key (format n) key h,
  text_eq_refl key,
  h.trimmed_value,
  atoi-format n le,
)
