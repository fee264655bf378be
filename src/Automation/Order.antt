-- ===== src/Automation/Order.antt =====
-- The order in which the candidates start.
use task_board_tools.Base.{
  Bool, true, false, not, List, ◌≡◌, arith, filter, ℕ, ◌==◌, ltb, if◌then◌else◌,
}
use task_board_tools.Automation.Tasks.{BoardTask, rank_of, parse_numeric}
use task_board_tools.Automation.Implement.{starts_before, review_failed}
use task_board_tools.Board.Sorting.{IsWeak, IsSorted, tied, sort_by-IsSorted, sort_by_stable}
use task_board_tools.Board.{sort_by}

abbrev lex : ℕ → Bool → ℕ → ℕ → Bool → ℕ → Bool
lex p f n q g m =
    if not (p == q)
    then ltb p q
    else if f
    then if g then ltb n m else true
    else if g
    then false
    else ltb n m

lex_asym :
    (p : ℕ) (f : Bool) (n q : ℕ) (g : Bool) (m : ℕ)
    → lex p f n q g m ≡ true
    → lex q g m p f n ≡ false
lex_asym p f n q g m h = ground arith

lex-neg_trans :
    (p : ℕ) (f : Bool) (n q : ℕ) (g : Bool) (m r : ℕ) (e : Bool) (o : ℕ)
    → lex p f n q g m ≡ false
    → lex q g m r e o ≡ false
    → lex p f n r e o ≡ false
lex-neg_trans p f n q g m r e o h h' = ground arith

starts_before-IsWeak : IsWeak starts_before
unfolding starts_before
starts_before-IsWeak = record {
  asym = λ a b.
      lex_asym (rank_of a.priority) (review_failed a) (parse_numeric a.id).0 (rank_of b.priority)
        (review_failed b) (parse_numeric b.id).0;
  neg_trans = λ a b c.
      lex-neg_trans (rank_of a.priority) (review_failed a) (parse_numeric a.id).0
        (rank_of b.priority) (review_failed b) (parse_numeric b.id).0 (rank_of c.priority)
        (review_failed c) (parse_numeric c.id).0;
}

-- The candidates start in an order in which none comes before an earlier one, by priority, failed review
-- and number; those that the order ties keep the order of the list, and none is lost or repeated.
pub candidates-IsSorted :
    (cs : List BoardTask)
    → IsSorted starts_before (sort_by starts_before cs)
      × ((z : BoardTask)
          → filter (tied starts_before z) (sort_by starts_before cs)
            ≡ filter (tied starts_before z) cs)
candidates-IsSorted cs = (
  sort_by-IsSorted starts_before starts_before-IsWeak cs,
  λ z. sort_by_stable starts_before starts_before-IsWeak z cs,
)
