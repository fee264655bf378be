-- ===== src/Listing/Order.antt =====
-- The order of `tb ls`: cli/list.go. Active tasks go by priority and number; the places of the done tasks
-- are filled anew, the last completed first, by the dates in their logs.
use task_board_tools.Base.{
  ℕ, ◌+◌, ◌*◌, ◌%◌, Bool, true, false, ◌||◌, ◌&&◌, not, List, [], ◌∷◌, Option, none, some, Text,
  codes, ltb, leb, ◌==◌, if◌then◌else◌, filter, take, drop, length, ltb_ℤ,
}
use task_board_tools.Strings.{trim_space, trim_prefix, to_lower, has_prefix, cut_at, split}
use task_board_tools.Strings.Decimal.{all_digits, value}
use task_board_tools.Status.{Status, done, status_eq, priority_rank, numeric_id}
use task_board_tools.Task.{Task, priority}
use task_board_tools.Sections.{find_task_section}
use task_board_tools.Board.{sort_by}

-- `listItem`, with the column of the task; a date is the number YYYYMMDD.
pub record ListItem : Type 0 where
  pub task : Task
  pub column : Status
  pub done_completed : Option ℕ

abbrev pub is_leap : ℕ → Bool
is_leap y = (y % 4 == 0) && (not (y % 100 == 0) || (y % 400 == 0))

abbrev pub days_in : ℕ → ℕ → ℕ
days_in y m =
    if m == 2
    then if is_leap y then 29 else 28
    else if m == 4 || (m == 6 || (m == 9 || m == 11))
    then 30
    else 31

abbrev pub calendar_date : ℕ → ℕ → ℕ → Option ℕ
calendar_date y m d =
    if (leb 1 m && leb m 12) && (leb 1 d && leb d (days_in y m))
    then some (y * 10000 + m * 100 + d)
    else none

-- `time.Parse("2006-01-02", s)`
unfoldable pub parse_date : Text → Option ℕ
parse_date (a ∷ b ∷ c ∷ d ∷ h ∷ e ∷ f ∷ i ∷ g ∷ k ∷ []) =
    if (h == b'-' && i == b'-') && all_digits (a ∷ b ∷ c ∷ d ∷ e ∷ f ∷ g ∷ k ∷ [])
    then calendar_date (value 0 (a ∷ b ∷ c ∷ d ∷ [])) (value 0 (e ∷ f ∷ [])) (value 0 (g ∷ k ∷ []))
    else none
parse_date _ = none

unfoldable pub is_ascii_letter_or_digit : ℕ → Bool
is_ascii_letter_or_digit c = (leb b'a' c && leb c b'z') || (leb b'0' c && leb c b'9')

abbrev pub ends_word : Text → Bool
ends_word [] = true
ends_word (c ∷ _) = not (is_ascii_letter_or_digit c)

unfoldable pub has_completion_message_prefix : Text → Text → Bool
unfolding is_ascii_letter_or_digit
has_completion_message_prefix message prefix =
    has_prefix message prefix && ends_word (drop (length prefix) message)

abbrev pub completion_of : Option (Text × Text) → Option ℕ
completion_of none = none
completion_of (some (date, message)) =
    let said = to_lower (trim_space message) in
    if has_completion_message_prefix said (codes "done")
      || has_completion_message_prefix said (codes "moved to done")
    then parse_date (trim_space date)
    else none

unfoldable pub parse_done_completion_log_line : Text → Option ℕ
unfolding parse_date has_completion_message_prefix
parse_done_completion_log_line line =
    completion_of (cut_at b':' (trim_prefix (trim_space line) (codes "- ")))

abbrev pub later_of : Option ℕ → Option ℕ → Option ℕ
later_of latest none = latest
later_of none (some d) = some d
later_of (some l) (some d) = if ltb l d then some d else some l

-- The loop over the lines of the log.
unfoldable pub latest_in : Option ℕ → List Text → Option ℕ
unfolding parse_done_completion_log_line
latest_in latest [] = latest
latest_in latest (line ∷ lines) =
    latest_in (later_of latest (parse_done_completion_log_line line)) lines

-- `latestDoneCompletionTime`, on the text of the file, if it can be read.
unfoldable pub latest_done_completion_time : Option Text → Option ℕ
unfolding latest_in
latest_done_completion_time none = none
latest_done_completion_time (some content) = elim (find_task_section content (codes "## Log")) [
  | none ↦ none
  | some r ↦ latest_in none (split (drop r.body_start (take r.stop content)) b'\n')
]

unfoldable pub new_list_item : Task → Status → Option Text → ListItem
unfolding latest_done_completion_time
new_list_item t column content = record {
  task = t;
  column = column;
  done_completed = if status_eq column done then latest_done_completion_time content else none;
}

unfoldable pub list_priority_less : ListItem → ListItem → Bool
list_priority_less a b =
    let p = priority_rank (a.task.meta priority) in
    let q = priority_rank (b.task.meta priority) in
    if not (p == q) then ltb p q else ltb_ℤ (numeric_id a.task.id) (numeric_id b.task.id)

-- Whether a completion, if there is one, comes before another, or says nothing.
abbrev pub completion_less : Option ℕ → Option ℕ → Bool → Bool
completion_less none none otherwise = otherwise
completion_less none (some e) otherwise = false
completion_less (some d) none otherwise = true
completion_less (some d) (some e) otherwise = if not (d == e) then ltb e d else otherwise

unfoldable pub done_less : ListItem → ListItem → Bool
unfolding list_priority_less
done_less a b = completion_less a.done_completed b.done_completed (list_priority_less a b)

unfoldable pub is_done : ListItem → Bool
is_done a = status_eq a.column done

-- The sorted done tasks, put back into the places of the done ones.
unfoldable pub refill : List ListItem → List ListItem → List ListItem
refill [] sorted = []
refill (x ∷ xs) [] = x ∷ refill xs []
refill (x ∷ xs) (s ∷ sorted) =
    if is_done x then s ∷ refill xs sorted else x ∷ refill xs (s ∷ sorted)

unfoldable pub sort_done_slots : List ListItem → List ListItem
unfolding refill done_less
sort_done_slots items =
    let finished = filter is_done items in
    if ltb (length finished) 2 then items else refill items (sort_by done_less finished)

unfoldable pub sort_list_items : List ListItem → List ListItem
unfolding sort_done_slots list_priority_less
sort_list_items items = sort_done_slots (sort_by list_priority_less items)

-- `--limit`
unfoldable pub limited : ℕ → List ListItem → List ListItem
limited n items = if ltb 0 n && ltb n (length items) then take n items else items
