-- ===== src/Edit/Given.antt =====
-- What the flags of `tb edit` ask for.
use task_board_tools.Base.{
  false, List, [], ◌∷◌, ◌++◌, Option, none, some, Text, codes, text_eq, text_eq_iff, text_eq_sound,
  if◌then◌else◌, ◌≡◌, ◌≢◌, inl, inr, refl, arith, Bool-cases, if_any,
}
use task_board_tools.Strings.{trim_space, to_lower, to_upper, equal_fold}
use task_board_tools.Board.{Result, ok, ◌>>=◌}
use task_board_tools.SectionEdit.{is_one_of}
use task_board_tools.Edit.{
  EditFlags, EditChange, enum_change, text_change, review_ref_change, collect_changes, new_title,
  valid_priorities, valid_types, valid_sizes, valid_agents, valid_agent_statuses, or_none,
}
use task_board_tools.Edit.Values.{IfOk, IfOk-bind, IfOk-of}

-- The change of a field to a value, reported under the name of its flag; a flag without a text is not
-- given.
abbrev pub given : Text → Text → Text → Text → List EditChange
given raw field name value =
    if text_eq raw []
    then []
    else record { field = field; value = value; label = name ++ b'=' ∷ value } ∷ []

-- A free text is not given either if nothing is left of it when it is masked.
abbrev pub masked : (Text → Text) → Text → Text
masked redact_line raw = if text_eq raw [] then [] else redact_line raw

-- The review reference that is asked for: `none` in any case takes it away.
abbrev pub asked_ref : (Text → Text) → Text → Text
asked_ref redact_line raw =
    if equal_fold (trim_space raw) (codes "none")
    then codes "none"
    else redact_line (trim_space raw)

-- The changes of all flags that are given, in order.
abbrev pub asked_changes : (Text → Text) → EditFlags → List EditChange
asked_changes redact_line f =
    given f.priority (codes "Priority") (codes "priority") (to_upper f.priority)
    ++ given f.type_name (codes "Type") (codes "type") (to_lower f.type_name)
    ++ given f.size (codes "Size") (codes "size") (to_upper f.size)
    ++ given (masked redact_line f.module_name) (codes "Module") (codes "module")
        (redact_line f.module_name)
    ++ given (masked redact_line f.tags) (codes "Tags") (codes "tags") (redact_line f.tags)
    ++ given f.agent (codes "Agent") (codes "agent") (to_lower f.agent)
    ++ given f.agent_status (codes "AgentStatus") (codes "agentstatus") (to_lower f.agent_status)
    ++ given f.groomed_by (codes "GroomedBy") (codes "groomed-by") (to_lower f.groomed_by)
    ++ given f.groom_status (codes "GroomStatus") (codes "groom-status") (to_lower f.groom_status)
    ++ given f.implemented_by (codes "ImplementedBy") (codes "implemented-by")
        (to_lower f.implemented_by)
    ++ given f.implement_status (codes "ImplementStatus") (codes "implement-status")
        (to_lower f.implement_status)
    ++ given f.reviewed_by (codes "ReviewedBy") (codes "reviewed-by") (to_lower f.reviewed_by)
    ++ given f.review_status (codes "ReviewStatus") (codes "review-status")
        (to_lower f.review_status)
    ++ given f.review_ref (codes "ReviewRef") (codes "reviewref")
        (asked_ref redact_line f.review_ref)

enum_change-given :
    (valid : List Text) (in_case : Text → Text) (field name raw : Text)
    → IfOk
        (λ cs. cs ≡ given raw field name (in_case raw))
        (enum_change valid in_case field name raw)
unfolding enum_change
enum_change-given valid in_case field name raw =
    let P = IfOk (λ (cs : List EditChange). cs ≡ given raw field name (in_case raw)) in
    if_any P (text_eq raw []) (λ e. rw e refl)
      (λ e. if_any P (is_one_of valid (in_case raw)) (λ _. rw e refl) (λ _. tt))

text_change-given :
    (redact_line : Text → Text) (field name raw : Text)
    → text_change redact_line field name raw
      ≡ given (masked redact_line raw) field name (redact_line raw)
unfolding text_change
text_change-given redact_line field name raw = elim (Bool-cases (text_eq raw [])) [
  | inl e ↦ rw e (unfold text_eq in refl)
  | inr e ↦ rw e refl
]

review_ref_change-given :
    (redact_line : Text → Text) (raw : Text)
    → IfOk
        (λ cs. cs ≡ given raw (codes "ReviewRef") (codes "reviewref") (asked_ref redact_line raw))
        (review_ref_change redact_line raw)
unfolding review_ref_change
review_ref_change-given redact_line raw =
    let P = IfOk (λ (cs : List EditChange).
      cs ≡ given raw (codes "ReviewRef") (codes "reviewref") (asked_ref redact_line raw)) in
    if_any P (text_eq raw []) (λ e. rw e refl)
      (λ e. if_any P (text_eq (trim_space raw) []) (λ _. tt) (λ _. rw e refl))

-- A flag with fixed values, and the flags after it.
enum_then :
    (valid : List Text) (in_case : Text → Text) (field name raw : Text)
    (Q : List EditChange → Type 0) (rest : List EditChange → Result (List EditChange))
    → ((cs : List EditChange) → cs ≡ given raw field name (in_case raw) → IfOk Q (rest cs))
    → IfOk Q (enum_change valid in_case field name raw >>= rest)
enum_then valid in_case field name raw Q rest k =
    IfOk-bind (λ cs. cs ≡ given raw field name (in_case raw)) Q
      (enum_change valid in_case field name raw) rest
      (enum_change-given valid in_case field name raw) k

collected :
    (redact_line : Text → Text) (f : EditFlags)
    → IfOk (λ cs. cs ≡ asked_changes redact_line f) (collect_changes redact_line f)
unfolding collect_changes
collected redact_line f =
    let Q = λ (cs : List EditChange). cs ≡ asked_changes redact_line f in
    enum_then valid_priorities to_upper (codes "Priority") (codes "priority") f.priority Q _
      (λ p h_p.
        enum_then valid_types to_lower (codes "Type") (codes "type") f.type_name Q _ (λ t h_t.
          enum_then valid_sizes to_upper (codes "Size") (codes "size") f.size Q _ (λ s h_s.
            enum_then (or_none valid_agents) to_lower (codes "Agent") (codes "agent") f.agent Q _
              (λ a h_a.
                enum_then (or_none valid_agent_statuses) to_lower (codes "AgentStatus")
                  (codes "agentstatus") f.agent_status Q _
                  (λ st h_st.
                    enum_then (or_none valid_agents) to_lower (codes "GroomedBy")
                      (codes "groomed-by") f.groomed_by Q _
                      (λ gb h_gb.
                        enum_then (or_none valid_agents) to_lower (codes "ImplementedBy")
                          (codes "implemented-by") f.implemented_by Q _
                          (λ ib h_ib.
                            enum_then (or_none valid_agents) to_lower (codes "ReviewedBy")
                              (codes "reviewed-by") f.reviewed_by Q _
                              (λ rb h_rb.
                                enum_then (or_none valid_agent_statuses) to_lower
                                  (codes "GroomStatus") (codes "groom-status") f.groom_status Q _
                                  (λ gs h_gs.
                                    enum_then (or_none valid_agent_statuses) to_lower
                                      (codes "ImplementStatus") (codes "implement-status")
                                      f.implement_status Q _
                                      (λ is h_is.
                                        enum_then (or_none valid_agent_statuses) to_lower
                                          (codes "ReviewStatus") (codes "review-status")
                                          f.review_status Q _
                                          (λ rs h_rs.
                                            IfOk-bind
                                              (λ cs.
                                                cs
                                                ≡ given f.review_ref (codes "ReviewRef")
                                                    (codes "reviewref")
                                                    (asked_ref redact_line f.review_ref))
                                              Q (review_ref_change redact_line f.review_ref) _
                                              (review_ref_change-given redact_line f.review_ref)
                                              (λ rr h_rr.
                                                rw
                                                  (
                                                    h_p,
                                                    h_t,
                                                    h_s,
                                                    text_change-given redact_line (codes "Module")
                                                        (codes "module") f.module_name,
                                                    text_change-given redact_line (codes "Tags")
                                                        (codes "tags") f.tags,
                                                    h_a,
                                                    h_st,
                                                    h_gb,
                                                    h_gs,
                                                    h_ib,
                                                    h_is,
                                                    h_rb,
                                                    h_rs,
                                                    h_rr,
                                                  )
                                                  refl))))))))))))

-- The changes of an edit are those that its flags ask for.
pub collect_changes-asked :
    (redact_line : Text → Text) (flags : EditFlags) (changes : List EditChange)
    → collect_changes redact_line flags ≡ ok changes
    → changes ≡ asked_changes redact_line flags
collect_changes-asked redact_line flags changes h =
    IfOk-of (λ cs. cs ≡ asked_changes redact_line flags) (collect_changes redact_line flags) changes
      (collected redact_line flags) h

-- The new title, masked and without blanks at its ends; no text, no new title.
abbrev pub AskedTitle : (Text → Text) → Text → Option Text → Type 0
AskedTitle redact_line raw none = raw ≡ []
AskedTitle redact_line raw (some title) =
    (trim_space raw ≢ []) × (title ≡ redact_line (trim_space raw))

pub new_title-AskedTitle :
    (redact_line : Text → Text) (raw : Text) (title : Option Text)
    → new_title redact_line raw ≡ ok title
    → AskedTitle redact_line raw title
unfolding new_title
new_title-AskedTitle redact_line raw none h = elim (Bool-cases (text_eq raw [])) [
  | inl e ↦ text_eq_sound raw [] e
  | inr e ↦ let k = rw e at h in absurd (ground arith)
]
new_title-AskedTitle redact_line raw (some title) h =
    let full : text_eq (trim_space raw) [] ≡ false = ground arith in
    ((λ z. absurd (ground (arith, text_eq_iff (trim_space raw) []))), ground arith)
