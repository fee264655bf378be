-- ===== src/Sections/Log.antt =====
-- What a log entry does to a task file.
use task_board_tools.Base.{
  ℕ, [], ◌∷◌, ◌++◌, append-nil, Option, none, some, ◌≡◌, ◌⊎◌, inl, inr, refl, sym, ap, ◌∙◌, arith,
  Text, codes, take, drop, take-append_drop, ◌==◌, if◌then◌else◌,
}
use task_board_tools.Strings.{trim_last}
use task_board_tools.Sections.{
  TaskSectionRange, find_task_section, trim_newlines, append_log_entry, log_at,
}

-- The bytes of a text that are not line feeds.
unfoldable pub visible : Text → Text
visible [] = []
visible (c ∷ s) = let rest = visible s in if c == b'\n' then rest else c ∷ rest

pub visible-append : (s t : Text) → visible (s ++ t) ≡ visible s ++ visible t
unfolding visible
visible-append [] t = refl
visible-append (c ∷ s) t = ground (arith, visible-append s t)

visible-trim_last : (c : ℕ) (r : Text) → visible (trim_last (c == b'\n') c r) ≡ visible (c ∷ r)
unfolding visible
visible-trim_last c [] = ground arith
visible-trim_last c (d ∷ r) = ground arith

visible_cons : (c : ℕ) (s t : Text) → visible s ≡ visible t → visible (c ∷ s) ≡ visible (c ∷ t)
unfolding visible
visible_cons c s t h = rw h

pub visible-trim_newlines : (s : Text) → visible (trim_newlines s) ≡ visible s
unfolding trim_newlines
visible-trim_newlines [] = refl
visible-trim_newlines (c ∷ s) =
    visible-trim_last c (trim_newlines s)
    ∙ visible_cons c (trim_newlines s) s (visible-trim_newlines s)

-- The text is cut in two, and only the entry, with a heading if there was none, comes between.
pub record Logged (content entry result : Text) (log : Option TaskSectionRange) : Type 0 where
  pub before : Text
  pub after : Text
  pub heading : Text
  pub whole : content ≡ before ++ after
  pub known_heading : (heading ≡ []) ⊎ ((heading ≡ codes "## Log") × (after ≡ []))
  pub at_log : (r : TaskSectionRange) → log ≡ some r → before ≡ take r.stop content
  pub no_log : log ≡ none → heading ≡ codes "## Log"
  pub placed : visible result ≡ visible before ++ (heading ++ (visible entry ++ visible after))

visible_cut :
    (s t : Text) → visible (codes "\n" ++ (s ++ (codes "\n" ++ t))) ≡ visible s ++ visible t
unfolding visible
visible_cut s t = rw (visible-append s (codes "\n" ++ t))

log_at-Logged :
    (content entry : Text) (found : Option TaskSectionRange)
    → Logged content entry (log_at content entry found) found
unfolding visible
log_at-Logged content entry none = record {
  before = content;
  after = [];
  heading = codes "## Log";
  whole = sym (append-nil content);
  known_heading = inr (refl, refl);
  at_log = λ r e. absurd (cc);
  no_log = λ e. refl;
  placed = rw (visible-append, append-nil {0});
}
log_at-Logged content entry (some r) = record {
  before = take r.stop content;
  after = drop r.stop content;
  heading = [];
  whole = sym (take-append_drop r.stop content);
  known_heading = inl refl;
  at_log = λ q e. ground arith;
  no_log = λ e. absurd (cc);
  placed =
      rw (visible-append, visible-trim_newlines)
        (ap (λ t. visible (take r.stop content) ++ t) (visible_cut entry (drop r.stop content)));
}

-- Appending a log entry loses nothing: apart from line feeds, every byte of the file is still there, in
-- order, and the masked entry stands in one piece between two parts of it: what comes before it is the
-- text up to the end of the log section. Where the file had no log, a heading is added, and then the
-- entry is the last thing in the file.
pub append_log_entry_conserves :
    (redact_line : Text → Text) (content entry : Text)
    → Logged content
        (redact_line entry)
        (append_log_entry redact_line content entry)
        (find_task_section content (codes "## Log"))
unfolding append_log_entry
append_log_entry_conserves redact_line content entry =
    log_at-Logged content (redact_line entry) (find_task_section content (codes "## Log"))
