-- ===== src/Ready/Cleared.antt =====
-- What the clean-up behind a promotion does to the task file: `clearReadyAgentStatus` of cli/ready.go.
use task_board_tools.Base.{
  Bool, false, List, [], ◌∷◌, ◌++◌, ◌≡◌, ◌⊎◌, inl, inr, arith, Text, codes, length, length-append,
  ◌==◌,
}
use task_board_tools.Strings.{split, join}
use task_board_tools.Status.{ready}
use task_board_tools.Metadata.{clear_field}
use task_board_tools.Metadata.Laws.{FieldLine, clear_field_lem}
use task_board_tools.Metadata.Search.{Lacking, metadata_lines}
use task_board_tools.Board.{Board, ok, TaskRef, resolve_task_ref, read_ref, slot_at}
use task_board_tools.Gates.{Config}
use task_board_tools.Move.{Disk, M, ◌>>=◌, check, place_text, write_markdown}
use task_board_tools.Move.Frame.{Wrote, check_ok, write_markdown_lem}
use task_board_tools.Ready.{clear_ready_agent_status, write_cleared}

abbrev pub status_field : Text
status_field = codes "AgentStatus"

-- The file without the first metadata line of the agent status, and every other place as it was; or no
-- metadata line holds one, and the board is as it was.
abbrev pub Cleared : TaskRef → List Text → Board → Board → Type 0
Cleared ref lines b b' =
    ((f : FieldLine lines status_field) × Wrote b b' ref.status ref.id (
        place_text ref.form (join (f.before ++ f.after) (codes "\n"))
          (slot_at b ref.status ref.id)))
    ⊎ (Lacking status_field (metadata_lines lines) × (b' ≡ b))

pub record StatusCleared (c : Config) (id : Text) (b b' : Board) : Type 0 where
  pub ref : TaskRef
  pub resolved : resolve_task_ref c.prefix b id (ready ∷ []) ≡ ok ref
  pub content : Text
  pub reads : read_ref b ref ≡ ok content
  pub cleared : Cleared ref (split content b'\n') b b'

shorter :
    (before after : List Text) (line : Text)
    → (length (before ++ after) == length (before ++ line ∷ after)) ≡ false
shorter before after line =
    rw (length-append before after, length-append before (line ∷ after)) (ground arith)

write_cleared-Cleared :
    (d : Disk) (ref : TaskRef) (lines : List Text) (b b' : Board) (x : Bool)
    → write_cleared d ref lines (clear_field lines status_field) b ≡ (b', ok x)
    → Cleared ref lines b b'
write_cleared-Cleared d ref lines b b' x h = elim (clear_field_lem lines status_field) [
  | inr (lacking, same) ↦
      let k = rw same at h in let stays : b' ≡ b = ground arith in inr (lacking, stays)
  | inl (f, dropped) ↦
      let text = join (f.before ++ f.after) (codes "\n") in
      let differs : (length (f.before ++ f.after) == length lines) ≡ false =
        rw f.whole (shorter f.before f.after f.line) in
      let k : write_markdown d ref.form ref.status ref.id text b ≡ (b', ok x) =
        rw (dropped, differs) at h in
      inl (f, write_markdown_lem d ref.form ref.status ref.id text b b' x k)
]

pub clear_ready_agent_status-StatusCleared :
    (c : Config) (d : Disk) (id : Text) (b b' : Board) (x : Bool)
    → clear_ready_agent_status c d id b ≡ (b', ok x)
    → StatusCleared c id b b'
unfolding clear_ready_agent_status
clear_ready_agent_status-StatusCleared c d id b b' x h =
    let rewrite : TaskRef → Text → M Bool = λ ref content.
      write_cleared d ref (split content b'\n') (clear_field (split content b'\n') status_field) in
    let (ref, resolved, h₁) =
      check_ok (λ b. resolve_task_ref c.prefix b id (ready ∷ []))
        (λ ref. check (λ b. read_ref b ref) >>= rewrite ref) b b' x h in
    let (content, reads, h₂) = check_ok (λ b. read_ref b ref) (rewrite ref) b b' x h₁ in
    record {
      ref = ref;
      resolved = resolved;
      content = content;
      reads = reads;
      cleared = write_cleared-Cleared d ref (split content b'\n') b b' x h₂;
    }
