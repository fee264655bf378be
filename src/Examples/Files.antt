-- ===== src/Examples/Files.antt =====
-- A configuration file with a limit twice.
use task_board_tools.Strings.Decimal.{format}
use task_board_tools.Strings.{trim_space, has_prefix, trim_right, is_space, trim_left}
use task_board_tools.Base.{refl, codes, Text}
use task_board_tools.Config.Laws.{IsEntry, entry_line}
use task_board_tools.Strings.Parts.{any-Lacks}

abbrev limit_name : Text
limit_name = codes "wip_limit_in_progress"

abbrev config_text : Text
config_text = codes "# board\nwip_limit_in_progress: 5"

limit-IsEntry : IsEntry limit_name (format 3)
unfolding trim_space format has_prefix trim_right is_space trim_left
limit-IsEntry = record {
  one_line = any-Lacks b'\n' (entry_line limit_name (format 3)) refl;
  no_colon = any-Lacks b':' limit_name refl;
  no_comment = refl;
  trimmed_line = refl;
  trimmed_key = refl;
  trimmed_value = refl;
  unquoted = refl;
}
