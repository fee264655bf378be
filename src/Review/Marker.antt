-- ===== src/Review/Marker.antt =====
-- How a submission takes the marker of a failed review away: `reviewClearFailedMarker` of cli/review.go.
use task_board_tools.Base.{
  Bool, false, not, ◌&&◌, List, [], ◌≡◌, ◌≢◌, ◌⊎◌, inl, inr, arith, Text, codes, Bool-cases, refl,
  text_eq, text_eq_iff, text_eq_sound,
}
use task_board_tools.Strings.{split, join, equal_fold}
use task_board_tools.Metadata.{clear_field, set_field}
use task_board_tools.Sections.{append_log_entry}
use task_board_tools.Task.{Task, tags}
use task_board_tools.Tags.{has_tag, remove_tag}
use task_board_tools.Tags.Laws.{has_tag-remove_tag}
use task_board_tools.Board.{Board, ok, TaskRef, parse_task_ref, read_ref, slot_at}
use task_board_tools.Gates.{Config}
use task_board_tools.Move.{Disk, M, ◌>>=◌, check, place_text, write_markdown, log_line}
use task_board_tools.Move.Frame.{Wrote, check_ok, write_markdown_lem}
use task_board_tools.Review.{
  clear_marker, clear_failed_marker, failed_tag, is_rework, write_untagged, untagged_lines,
}

-- The tags of the file, and the lines with these instead: without any, the metadata line goes.
abbrev pub Retagged : List Text → Text → List Text → Type 0
Retagged lines new_tags lines' =
    ((new_tags ≡ []) × (lines' ≡ clear_field lines (codes "Tags")))
    ⊎ ((new_tags ≢ []) × (lines' ≡ set_field lines (codes "Tags") new_tags))

-- The file as it is on this board, without the marker among its tags and with a log entry; a file whose
-- tags are the same without the marker is left alone. No other place changes.
abbrev pub Untagged : Disk → TaskRef → Text → Text → Text → Board → Board → Type 0
Untagged d ref content old_tags new_tags b b' =
    ((new_tags ≡ old_tags) × (b' ≡ b))
    ⊎ ((lines : List Text) × Retagged (split content b'\n') new_tags lines
        × Wrote b b' ref.status ref.id (
            place_text ref.form
              (append_log_entry d.redact_line (join lines (codes "\n"))
                (log_line d (codes "Cleared review-failed marker on resubmit")))
              (slot_at b ref.status ref.id)))

-- The tags that are left: the same without the marker in any case.
abbrev pub WithoutMarker : Text → Text → Type 0
WithoutMarker old_tags new_tags =
    (tag : Text)
    → tag ≢ []
    → has_tag new_tags tag ≡ (has_tag old_tags tag && not (equal_fold tag failed_tag))

-- A task that is not reworked keeps its file.
abbrev pub MarkerCleared : Config → Disk → TaskRef → Task → Board → Board → Type 0
MarkerCleared c d ref t b b' =
    (((is_rework ref.status && has_tag (t.meta tags) failed_tag) ≡ false) × (b' ≡ b))
    ⊎ ((content : Text) × (now : Task) × (new_tags : Text) × (read_ref b ref ≡ ok content)
        × (parse_task_ref c.prefix b ref ≡ ok now)
        × WithoutMarker (now.meta tags) new_tags
        × Untagged d ref content (now.meta tags) new_tags b b')

untagged_lines-Retagged :
    (lines : List Text) (new_tags : Text) → Retagged lines new_tags (untagged_lines lines new_tags)
untagged_lines-Retagged lines new_tags = elim (Bool-cases (text_eq new_tags [])) [
  | inl e ↦ rw e (inl (text_eq_sound new_tags [] e, refl))
  | inr e ↦ rw e (inr ((λ z. absurd (ground (arith, text_eq_iff new_tags []))), refl))
]

write_untagged-Untagged :
    (d : Disk) (ref : TaskRef) (content old_tags new_tags : Text) (b b' : Board) (x : Bool)
    → write_untagged d ref content old_tags new_tags b ≡ (b', ok x)
    → Untagged d ref content old_tags new_tags b b'
write_untagged-Untagged d ref content old_tags new_tags b b' x h =
    let lines = untagged_lines (split content b'\n') new_tags in
    let text =
      append_log_entry d.redact_line (join lines (codes "\n"))
        (log_line d (codes "Cleared review-failed marker on resubmit")) in
    elim (Bool-cases (text_eq new_tags old_tags)) [
      | inl e ↦
          let k = rw e at h in
          let stays : b' ≡ b = ground arith in inl (text_eq_sound new_tags old_tags e, stays)
      | inr e ↦
          let k : write_markdown d ref.form ref.status ref.id text b ≡ (b', ok x) = rw e at h in
          inr (
            lines,
            untagged_lines-Retagged (split content b'\n') new_tags,
            write_markdown_lem d ref.form ref.status ref.id text b b' x k,
          )
    ]

pub clear_marker-MarkerCleared :
    (c : Config) (d : Disk) (ref : TaskRef) (t : Task) (b b' : Board) (x : Bool)
    → clear_marker c d ref t b ≡ (b', ok x)
    → MarkerCleared c d ref t b b'
unfolding clear_failed_marker
clear_marker-MarkerCleared c d ref t b b' x h =
    elim (Bool-cases (is_rework ref.status && has_tag (t.meta tags) failed_tag)) [
      | inr e ↦ let k = rw e at h in let stays : b' ≡ b = ground arith in inl (e, stays)
      | inl e ↦
          let k : clear_failed_marker c d ref b ≡ (b', ok x) = rw e at h in
          let rewrite : Text → Task → M Bool = λ content t.
            write_untagged d ref content (t.meta tags) (remove_tag (t.meta tags) failed_tag) in
          let (content, reads, h₁) =
            check_ok (λ b. read_ref b ref)
              (λ content. check (λ b. parse_task_ref c.prefix b ref) >>= rewrite content) b b' x
              k in
          let (now, parses, h₂) =
            check_ok (λ b. parse_task_ref c.prefix b ref) (rewrite content) b b' x h₁ in
          let new_tags = remove_tag (now.meta tags) failed_tag in
          inr (
            content,
            now,
            new_tags,
            reads,
            parses,
            (λ tag filled. has_tag-remove_tag (now.meta tags) failed_tag tag filled),
            write_untagged-Untagged d ref content (now.meta tags) new_tags b b' x h₂,
          )
    ]
