-- ===== src/Args.antt =====
-- The order of the arguments of a command: `reorderArgs` of cli/create.go and the arrangement of the
-- arguments of `tb review` of cli/review.go.
pub mod Order
pub mod Review
use task_board_tools.Base.{
  Bool, true, false, ◌||◌, ◌&&◌, List, [], ◌∷◌, ◌++◌, Option, none, some, not, Text, codes, text_eq,
  if◌then◌else◌, ℕ, ◌==◌,
}
use task_board_tools.Strings.{has_prefix}
use task_board_tools.SectionEdit.{is_one_of}
use task_board_tools.Strings.Decimal.{all_digits}

-- `flagsWithValue`
abbrev pub flags_with_value : List Text
flags_with_value =
    codes "-p"
    ∷ codes "-T"
    ∷ codes "-s"
    ∷ codes "-m"
    ∷ codes "-t"
    ∷ codes "-d"
    ∷ codes "-a"
    ∷ codes "--status"
    ∷ codes "--parent"
    ∷ codes "--agent"
    ∷ codes "--agent-status"
    ∷ codes "--goal"
    ∷ codes "--context"
    ∷ codes "--constraints"
    ∷ codes "--acceptance"
    ∷ codes "--user-attention"
    ∷ codes "--title"
    ∷ codes "--review-ref"
    ∷ codes "--groomed-by"
    ∷ codes "--groom-status"
    ∷ codes "--implemented-by"
    ∷ codes "--implement-status"
    ∷ codes "--reviewed-by"
    ∷ codes "--review-status"
    ∷ []

unfoldable pub takes_value : Text → Bool
takes_value arg = is_one_of flags_with_value arg

-- The arguments as they are told apart; `rest` are those behind a terminator.
pub record Sorted : Type 0 where
  pub flags : List Text
  pub positional : List Text
  pub ended : Bool
  pub rest : List Text

abbrev pub put_flag : Text → Sorted → Sorted
put_flag arg s = record s { flags = arg ∷ s.flags }

abbrev pub put_positional : Text → Sorted → Sorted
put_positional arg s = record s { positional = arg ∷ s.positional }

abbrev pub ends_at : List Text → Sorted
ends_at rest = record { flags = []; positional = []; ended = true; rest = rest }

unfoldable pub is_flag : Text → Bool
is_flag arg = takes_value arg || has_prefix arg (codes "-")

-- The loop; the first argument says whether the next one is the value of a flag.
unfoldable pub sort_args : Bool → List Text → Sorted
sort_args _ [] = record { flags = []; positional = []; ended = false; rest = [] }
sort_args true (arg ∷ args) = put_flag arg (sort_args false args)
sort_args false (arg ∷ args) =
    let others = sort_args (takes_value arg) args in
    if text_eq arg (codes "--")
    then ends_at args
    else if is_flag arg
    then put_flag arg others
    else put_positional arg others

abbrev pub laid_out : Sorted → List Text
laid_out s =
    if s.ended then s.flags ++ (codes "--" ∷ (s.positional ++ s.rest)) else s.flags ++ s.positional

-- `reorderArgs`
unfoldable pub reorder_args : List Text → List Text
reorder_args args = laid_out (sort_args false args)

-- The text before the last dash and the text behind it.
abbrev pub onto_cut : ℕ → Option (Text × Text) → Text → Option (Text × Text)
onto_cut c (some (before, after)) text = some (c ∷ before, after)
onto_cut c none text = if c == b'-' then some ([], text) else none

unfoldable pub cut_last_dash : Text → Option (Text × Text)
cut_last_dash [] = none
cut_last_dash (c ∷ text) = onto_cut c (cut_last_dash text) text

-- `allDigits`: an empty text is none.
abbrev pub is_number : Text → Bool
is_number [] = false
is_number (c ∷ text) = all_digits (c ∷ text)

abbrev pub ends_in_number : Option (Text × Text) → Bool
ends_in_number none = false
ends_in_number (some ([], after)) = false
ends_in_number (some (c ∷ before, after)) = is_number after

-- `looksLikeTaskIDArg`
unfoldable pub looks_like_task_id_arg : Text → Bool
unfolding cut_last_dash
looks_like_task_id_arg arg = is_number arg || ends_in_number (cut_last_dash arg)

-- `reviewSourceFlag`
abbrev pub review_source_flags : List Text
review_source_flags =
    codes "--target" ∷ codes "--notes" ∷ codes "--findings" ∷ codes "--pass" ∷ codes "--fail" ∷ []

abbrev pub arranged : Text → Text → Text → List Text → List Text
arranged flag first second args =
    if text_eq first (codes "-")
    then flag ∷ first ∷ second ∷ args
    else if text_eq second (codes "-") || looks_like_task_id_arg first
    then flag ∷ second ∷ first ∷ args
    else flag ∷ first ∷ second ∷ args

-- `reorderReviewArgs`
unfoldable pub reorder_review_args : List Text → List Text
reorder_review_args [] = reorder_args []
reorder_review_args (a ∷ []) = reorder_args (a ∷ [])
reorder_review_args (a ∷ b ∷ []) = reorder_args (a ∷ b ∷ [])
reorder_review_args (flag ∷ first ∷ second ∷ args) =
    if is_one_of review_source_flags flag
    then reorder_args (arranged flag first second args)
    else reorder_args (flag ∷ first ∷ second ∷ args)
