-- ===== src/Gates/Review.antt =====
-- A task enters `code-review` only with something to review.
use task_board_tools.Base.{if◌then◌else◌, Bool, true, text_eq, arith, text_eq_iff}
use task_board_tools.Task.{Task, review_ref}
use task_board_tools.Gates.{ensure_review_ref, Config, Board, Bool, normalize_review_ref}
use task_board_tools.Board.{Board, TaskRef, ok, parse_task_ref, err, no_review_ref}
use task_board_tools.Base.{Bool, ◌≡◌, ◌≢◌, []}
use task_board_tools.Board.Lookup.{>>=-eq-ok}

pub review_gate_lem :
    (c : Config) (b : Board) (src : TaskRef) (x : Bool)
    → ensure_review_ref c b src ≡ ok x
    → (t : Task) × (parse_task_ref c.prefix b src ≡ ok t)
      × (normalize_review_ref (t.meta review_ref) ≢ [])
unfolding ensure_review_ref
review_gate_lem c b src x h =
    let (t, parses, k) =
      >>=-eq-ok (parse_task_ref c.prefix b src)
        (λ t.
          if text_eq (normalize_review_ref (t.meta review_ref)) []
          then err no_review_ref
          else ok true)
        h in
    (
      t,
      parses,
      λ e. absurd (ground (arith, (text_eq_iff (normalize_review_ref (t.meta review_ref)) []).1 e)),
    )
