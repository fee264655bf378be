-- ===== src/Examples/Arguments.antt =====
-- Arguments in other orders.
use task_board_tools.Strings.Decimal.{all_digits, is_digit}
use task_board_tools.Strings.{has_prefix}
use task_board_tools.Base.{List, [], ◌∷◌, Text, codes, ◌≡◌, refl, text_eq}
use task_board_tools.Args.{
  reorder_args, reorder_review_args, sort_args, takes_value, is_flag, looks_like_task_id_arg,
  cut_last_dash,
}
use task_board_tools.Args.Order.{occurrences, reorder_args_settles}
use task_board_tools.Args.Review.{reorder_review_args-orders}

-- A title in front of a flag with a value, and a flag that waits for one at the end.
abbrev mixed : List Text
mixed = codes "title" ∷ codes "-m" ∷ codes "cli" ∷ codes "--epic" ∷ codes "-p" ∷ []

reorder_args_settles_example :
    ((x : Text) → occurrences x (reorder_args mixed) ≡ occurrences x mixed)
    × (reorder_args (reorder_args mixed) ≡ reorder_args mixed)
reorder_args_settles_example = reorder_args_settles mixed

-- The flag at the end then stands in front of the title.
mixed_reordered :
    reorder_args mixed ≡ codes "-m" ∷ codes "cli" ∷ codes "--epic" ∷ codes "-p" ∷ codes "title" ∷ []
unfolding reorder_args sort_args takes_value text_eq is_flag has_prefix
mixed_reordered = refl

reorder_review_args-orders_example :
    (reorder_review_args (codes "--pass" ∷ codes "TB-7" ∷ codes "notes.md" ∷ [])
      ≡ codes "--pass" ∷ codes "notes.md" ∷ codes "TB-7" ∷ [])
    × (reorder_review_args (codes "--pass" ∷ codes "notes.md" ∷ codes "TB-7" ∷ [])
        ≡ codes "--pass" ∷ codes "notes.md" ∷ codes "TB-7" ∷ [])
unfolding looks_like_task_id_arg is_flag text_eq cut_last_dash takes_value has_prefix all_digits
    is_digit
reorder_review_args-orders_example =
    reorder_review_args-orders (codes "--pass") (codes "TB-7") (codes "notes.md") refl refl refl
      refl
