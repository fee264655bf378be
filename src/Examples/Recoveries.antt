-- ===== src/Examples/Recoveries.antt =====
-- Two runs of one task at a restart, the older one gone and the latest cancelled, and a list of tasks.
use task_board_tools.Strings.Decimal.{atoi, all_digits, value, is_digit}
use task_board_tools.Strings.{
  to_upper, cut_at, upper, trim_prefix, trim_space, to_lower, after_prefix, trim_right, is_space,
  trim_left, lower, has_prefix,
}
use task_board_tools.Board.{sort_by, insert_by}
use task_board_tools.Base.{
  ℕ, true, false, List, [], ◌∷◌, Option, none, some, Text, codes, ◌≡◌, refl, text_eq,
}
use task_board_tools.Automation.Tasks.{BoardTask}
use task_board_tools.Recovery.{
  Recovery, RunEvent, RunEventKind, recover_runs, read_run_views, run_started, recover_one,
  run_session, status_set, run_finished, appended, mark, views_from, append_recovered_finished,
  recover_run, update_views,
}
use task_board_tools.Recovery.Laws.{IsRecovered, recover_runs-IsRecovered}
use task_board_tools.Examples.Automation.{a_task}
use task_board_tools.Status.{Status, done, ready, priority_rank, numeric_id, status_eq}
use task_board_tools.Task.{blank_task}
use task_board_tools.Listing.Order.{
  ListItem, sort_list_items, parse_done_completion_log_line, sort_done_slots, list_priority_less,
  is_done, refill, done_less, has_completion_message_prefix, parse_date, is_ascii_letter_or_digit,
}

abbrev run_event : Text → RunEventKind → Text → RunEvent
run_event id kind status = record {
  run_id = id;
  kind = kind;
  agent = codes "claude";
  pid = 7;
  session = codes "s";
  status = status;
}

abbrev run_history : List RunEvent
run_history =
    run_event (codes "r1") run_started []
    ∷ run_event (codes "r1") run_session []
    ∷ run_event (codes "r2") run_started []
    ∷ run_event (codes "r2") run_finished (codes "cancelled")
    ∷ []

-- No process lives, and everything succeeds.
abbrev restart : Recovery
restart = record {
  skip_tracked = false;
  active = false;
  active_run = λ id. false;
  alive = λ pid agent. false;
  can_append = λ id. true;
  can_edit = λ status. true;
  fresh_id = codes "r9";
}

abbrev running_task : BoardTask
running_task = a_task (codes "TB-4") (codes "in-progress") (codes "P1") (codes "running")

recover_runs-IsRecovered_example :
    IsRecovered restart running_task
      (read_run_views run_history)
      []
      (recover_runs restart running_task (read_run_views run_history) [])
recover_runs-IsRecovered_example =
    recover_runs-IsRecovered restart running_task (read_run_views run_history) []

recovers :
    recover_one restart running_task (some run_history)
    ≡ (status_set (codes "cancelled") ∷ appended (codes "r1") (codes "interrupted") ∷ [], true)
unfolding recover_one read_run_views mark recover_runs views_from append_recovered_finished
    recover_run text_eq update_views
recovers = refl

abbrev an_item : Text → Status → Option ℕ → ListItem
an_item id column completed = record {
  task = record blank_task { id = id };
  column = column;
  done_completed = completed;
}

abbrev some_items : List ListItem
some_items =
    an_item (codes "TB-3") done (some 20260101)
    ∷ an_item (codes "TB-2") ready none
    ∷ an_item (codes "TB-1") done none
    ∷ an_item (codes "TB-5") done (some 20260201)
    ∷ []

-- The place of TB-2, which is not done, stays; the done tasks go by their dates.
lists :
    sort_list_items some_items
    ≡ an_item (codes "TB-5") done (some 20260201)
      ∷ an_item (codes "TB-2") ready none
      ∷ an_item (codes "TB-3") done (some 20260101)
      ∷ an_item (codes "TB-1") done none
      ∷ []
unfolding sort_list_items sort_done_slots sort_by list_priority_less is_done refill done_less
    insert_by priority_rank numeric_id status_eq text_eq to_upper cut_at upper atoi
lists = refl

completes : parse_done_completion_log_line (codes "- 2026-02-28: Done, at last") ≡ some 20260228
unfolding parse_done_completion_log_line cut_at trim_prefix trim_space to_lower
    has_completion_message_prefix parse_date after_prefix trim_right is_space trim_left lower
    has_prefix all_digits value is_ascii_letter_or_digit is_digit
completes = refl

-- The entry that a passed review writes is no completion.
not_completed : parse_done_completion_log_line (codes "- 2026-02-28: Passed code review") ≡ none
unfolding parse_done_completion_log_line cut_at trim_prefix trim_space to_lower
    has_completion_message_prefix parse_date after_prefix trim_right is_space trim_left lower
    has_prefix all_digits value is_ascii_letter_or_digit is_digit
not_completed = refl
