-- ===== src/Review/Passed.antt =====
-- What a passed or failed review has found and done.
use task_board_tools.Base.{
  Bool, true, false, [], ◌∷◌, ◌≡◌, inl, inr, none, some, arith, Text, Bool-cases, not, ap, Option,
  text_eq, sym, any,
}
use task_board_tools.Board.{Board, ok, err, Result, TaskRef, resolve_task_ref, read_ref}
use task_board_tools.Move.Success.{MoveDone, move_task_done}
use task_board_tools.Move.{
  ◌>>=◌, Disk, M, TaskMove, check, pure, move_task_with_guard, write_markdown, run_guard,
}
use task_board_tools.Move.Frame.{check_ok, bind_ok}
use task_board_tools.Review.Verdict.{
  review_pass, read_review_body, then_in_review, strip_leading_heading, trim_blank_lines,
  findings_heading, pass_message, write_pass_metadata,
}
use task_board_tools.Review.Body.{Given, stripped-Given}
use task_board_tools.SectionEdit.Kept.{Edited, replaced, upsert_task_section-Edited}
use task_board_tools.Gates.{Config, expected_source_guard}
use task_board_tools.Strings.{trim_space}
use task_board_tools.Ready.{Others, meanwhile}
use task_board_tools.Status.{code_review, status_eq, all_status_dirs, done, Status}
use task_board_tools.SectionEdit.{
  markdown_section_block, find_markdown_sections, upsert_task_section,
}
use task_board_tools.Status.Laws.{status_eq_iff}
use task_board_tools.Gates.Wip.{expected_source_lem}

read_review_body-Given :
    (heading body : Text) (input : Option Text)
    → read_review_body heading input ≡ ok body
    → Given heading input body
unfolding read_review_body
read_review_body-Given heading body none h = absurd (ground arith)
read_review_body-Given heading body (some input) h =
    let found = strip_leading_heading (trim_blank_lines input) heading in
    elim (Bool-cases (text_eq (trim_space found) [])) [
      | inl e ↦ let k = rw e at h in absurd (ground arith)
      | inr e ↦
          let same : found ≡ body = let k = rw e at h in ground arith in
          stripped-Given heading input body e same
    ]

in_review_lem :
    (found : Result TaskRef) (ref : TaskRef)
    → then_in_review found ≡ ok ref
    → (found ≡ ok ref) × (ref.status ≡ code_review)
in_review_lem (err e) ref h = absurd (ground arith)
in_review_lem (ok r) ref h = elim (Bool-cases (status_eq r.status code_review)) [
  | inr e ↦ let k = rw e at h in absurd (ground arith)
  | inl e ↦
      let same : r ≡ ref = let k = rw e at h in ground arith in
      (ap ok same, rw (sym same) ((status_eq_iff r.status code_review).0 e))
]

wrote_pass :
    (c : Config) (d : Disk) (id body : Text) (b b' : Board) (x : Bool)
    → write_pass_metadata c d id body b ≡ (b', ok x)
    → (ref : TaskRef) × (content : Text) × (resolve_task_ref c.prefix b id all_status_dirs ≡ ok ref)
      × (ref.status ≡ code_review)
      × (read_ref b ref ≡ ok content)
      × (write_markdown d ref.form ref.status ref.id
            (upsert_task_section content findings_heading body)
            b
          ≡ (b', ok x))
unfolding write_pass_metadata
wrote_pass c d id body b b' x h =
    let (ref, found, h₁) =
      check_ok (λ b. then_in_review (resolve_task_ref c.prefix b id all_status_dirs))
        (λ ref. check (λ b. read_ref b ref) >>= λ content.
          write_markdown d ref.form ref.status ref.id
            (upsert_task_section content findings_heading body))
        b b' x h in
    let (content, reads, h₂) =
      check_ok (λ b. read_ref b ref)
        (λ content.
          write_markdown d ref.form ref.status ref.id
            (upsert_task_section content findings_heading body))
        b b' x h₁ in
    let (resolved, at) = in_review_lem (resolve_task_ref c.prefix b id all_status_dirs) ref found in
    (ref, content, resolved, at, reads, h₂)

source_in_review :
    (c : Config) (id : Text) (src target : Status) (b : Board) (x : Bool)
    → run_guard (some (expected_source_guard (code_review ∷ []))) id src target b ≡ ok x
    → src ≡ code_review
source_in_review c id src target b x h =
    let at : any (λ s. status_eq s src) (code_review ∷ []) ≡ true =
      expected_source_lem (code_review ∷ []) b id src target x h in
    sym ((status_eq_iff code_review src).0 (ground arith))

-- What the first locked section of a pass has written, and what the second has moved: `locked` is the
-- board that the second finds.
pub record Passed (c : Config) (d : Disk) (others : Others) (redact_text : Text → Text) (id : Text)
    (input : Option Text) (b b' : Board) : Type 0 where
  pub body : Text
  pub given : Given findings_heading input body
  pub ref : TaskRef
  pub resolved : resolve_task_ref c.prefix b id all_status_dirs ≡ ok ref
  pub from_review : ref.status ≡ code_review
  pub content : Text
  pub reads : read_ref b ref ≡ ok content
  pub text : Text
  pub edited :
      Edited content
        (markdown_section_block findings_heading (redact_text body))
        (replaced findings_heading (find_markdown_sections content findings_heading))
        text
  pub written : Board
  pub writes : (x : Bool) × (write_markdown d ref.form ref.status ref.id text b ≡ (written, ok x))
  pub result : TaskMove
  pub moved :
      MoveDone c d id done
        (some (expected_source_guard (code_review ∷ [])))
        pass_message
        (others written)
        b'
        result
  pub still_in_review : moved.src.status ≡ code_review

-- A pass that reports a move found the task in code-review twice, under each of its two locks; the first
-- wrote the findings of its input, masked, into the file and kept all else there outside the old
-- findings: they are not blank and consist of all lines of the input but blank ones at its end and, in
-- front, blank ones and one of the heading; the second moved the task to done on the board that it found,
-- whatever other processes did between.
pub review_pass-Passed :
    (c : Config) (d : Disk) (others : Others) (redact_text : Text → Text) (id : Text)
    (input : Option Text) (b b' : Board)
    → review_pass c d others redact_text id input b ≡ (b', ok true)
    → Passed c d others redact_text id input b b'
unfolding review_pass
review_pass-Passed c d others redact_text id input b b' h =
    let (body, read, h₁) =
      check_ok (λ _. read_review_body findings_heading input)
        (λ body. write_pass_metadata c d id (redact_text body) >>= λ _. moves) b b' true h in
    let (b₁, x, wrote, h₂) =
      bind_ok (write_pass_metadata c d id (redact_text body)) (λ _. moves) b b' true h₁ in
    let (ref, content, resolved, at, reads, writes) =
      wrote_pass c d id (redact_text body) b b₁ x wrote in
    let (b₂, r, e, k) =
      bind_ok
        (move_task_with_guard c d id done (some (expected_source_guard (code_review ∷ [])))
          pass_message)
        (λ r. pure (not r.noop)) (others b₁) b' true h₂ in
    let same : b' ≡ b₂ = ground arith in
    let went : r.noop ≡ false = ground arith in
    let p =
      move_task_done c d id done (some (expected_source_guard (code_review ∷ []))) pass_message
        (others b₁) b' r went (rw same e) in
    let (y, guarded) = p.checked.guarded in
    record {
      body = body;
      given = read_review_body-Given findings_heading body input read;
      ref = ref;
      resolved = resolved;
      from_review = at;
      content = content;
      reads = reads;
      text = upsert_task_section content findings_heading (redact_text body);
      edited = upsert_task_section-Edited content findings_heading (redact_text body);
      written = b₁;
      writes = (x, writes);
      result = r;
      moved = p;
      still_in_review = source_in_review c id p.src.status done (others b₁) y guarded;
    }
  where
    moves : M Bool
    moves = meanwhile others >>= λ _.
        move_task_with_guard c d id done (some (expected_source_guard (code_review ∷ [])))
          pass_message
        >>= λ r. pure (not r.noop)
