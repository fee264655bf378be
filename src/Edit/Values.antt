-- ===== src/Edit/Values.antt =====
-- The values that `tb edit` puts into a task file.
use task_board_tools.Base.{
  true, List, [], ◌∷◌, All, All-append, Option, none, some, Text, codes, text_eq, if◌then◌else◌,
  ◌≡◌, refl, if_any,
}
use task_board_tools.Board.{Result, ok, err, ◌>>=◌}
use task_board_tools.SectionEdit.{is_one_of}
use task_board_tools.Edit.{
  EditFlags, EditChange, enum_change, text_change, review_ref_change, collect_changes,
  valid_priorities, valid_types, valid_sizes, valid_agents, valid_agent_statuses, or_none,
  trim_space, to_upper, to_lower,
}
use task_board_tools.Strings.{trim_space, to_upper, to_lower}

abbrev pub agent_fields : List Text
agent_fields = codes "Agent" ∷ codes "GroomedBy" ∷ codes "ImplementedBy" ∷ codes "ReviewedBy" ∷ []

abbrev pub status_fields : List Text
status_fields =
    codes "AgentStatus" ∷ codes "GroomStatus" ∷ codes "ImplementStatus" ∷ codes "ReviewStatus" ∷ []

-- The values of a field that has a fixed set of them.
abbrev pub values_of : Text → Option (List Text)
values_of field =
    if text_eq field (codes "Priority")
    then some valid_priorities
    else if text_eq field (codes "Type")
    then some valid_types
    else if text_eq field (codes "Size")
    then some valid_sizes
    else if is_one_of agent_fields field
    then some (or_none valid_agents)
    else if is_one_of status_fields field
    then some (or_none valid_agent_statuses)
    else none

abbrev pub Offers : Option (List Text) → Text → Type 0
Offers none value = Unit
Offers (some values) value = is_one_of values value ≡ true

-- The value is one of those of its field, which has a name.
abbrev pub Offered : EditChange → Type 0
Offered c = Offers (values_of c.field) c.value

abbrev pub IfOk : {A : Type 0} → (A → Type 0) → Result A → Type 0
IfOk P (err e) = Unit
IfOk P (ok a) = P a

pub IfOk-bind :
    {A B : Type 0} (P : A → Type 0) (Q : B → Type 0) (m : Result A) (f : A → Result B)
    → IfOk P m
    → ((a : A) → P a → IfOk Q (f a))
    → IfOk Q (m >>= f)
IfOk-bind P Q (err e) f h k = tt
IfOk-bind P Q (ok a) f h k = k a h

enum_change-Offered :
    (valid : List Text) (in_case : Text → Text) (field name raw : Text)
    → values_of field ≡ some valid
    → IfOk (All Offered) (enum_change valid in_case field name raw)
unfolding enum_change
enum_change-Offered valid in_case field name raw known =
    if_any (IfOk (All Offered)) (text_eq raw []) (λ _. tt)
      (λ _.
        if_any (IfOk (All Offered)) (is_one_of valid (in_case raw)) (λ e. rw known (e, tt))
          (λ _. tt))

text_change-Offered :
    (redact_line : Text → Text) (field name raw : Text)
    → values_of field ≡ none
    → All Offered (text_change redact_line field name raw)
unfolding text_change
text_change-Offered redact_line field name raw free =
    if_any (All Offered) (text_eq raw []) (λ _. tt)
      (λ _. if_any (All Offered) (text_eq (redact_line raw) []) (λ _. tt) (λ _. rw free (tt, tt)))

review_ref_change-Offered :
    (redact_line : Text → Text) (raw : Text)
    → IfOk (All Offered) (review_ref_change redact_line raw)
unfolding review_ref_change text_eq
review_ref_change-Offered redact_line raw =
    if_any (IfOk (All Offered)) (text_eq raw []) (λ _. tt)
      (λ _. if_any (IfOk (All Offered)) (text_eq (trim_space raw) []) (λ _. tt) (λ _. (tt, tt)))

-- A flag with fixed values, and the flags after it.
enum_then :
    (valid : List Text) (in_case : Text → Text) (field name raw : Text)
    (rest : List EditChange → Result (List EditChange))
    → values_of field ≡ some valid
    → ((cs : List EditChange) → All Offered cs → IfOk (All Offered) (rest cs))
    → IfOk (All Offered) (enum_change valid in_case field name raw >>= rest)
enum_then valid in_case field name raw rest known k =
    IfOk-bind (All Offered) (All Offered) (enum_change valid in_case field name raw) rest
      (enum_change-Offered valid in_case field name raw known) k

offered :
    (redact_line : Text → Text) (flags : EditFlags)
    → IfOk (All Offered) (collect_changes redact_line flags)
unfolding collect_changes text_eq
offered redact_line f =
    enum_then valid_priorities to_upper (codes "Priority") (codes "priority") f.priority _ refl
      (λ p h_p.
        enum_then valid_types to_lower (codes "Type") (codes "type") f.type_name _ refl (λ t h_t.
          enum_then valid_sizes to_upper (codes "Size") (codes "size") f.size _ refl (λ s h_s.
            enum_then (or_none valid_agents) to_lower (codes "Agent") (codes "agent") f.agent _ refl
              (λ a h_a.
                enum_then (or_none valid_agent_statuses) to_lower (codes "AgentStatus")
                  (codes "agentstatus") f.agent_status _ refl
                  (λ st h_st.
                    enum_then (or_none valid_agents) to_lower (codes "GroomedBy")
                      (codes "groomed-by") f.groomed_by _ refl
                      (λ gb h_gb.
                        enum_then (or_none valid_agents) to_lower (codes "ImplementedBy")
                          (codes "implemented-by") f.implemented_by _ refl
                          (λ ib h_ib.
                            enum_then (or_none valid_agents) to_lower (codes "ReviewedBy")
                              (codes "reviewed-by") f.reviewed_by _ refl
                              (λ rb h_rb.
                                enum_then (or_none valid_agent_statuses) to_lower
                                  (codes "GroomStatus") (codes "groom-status") f.groom_status _ refl
                                  (λ gs h_gs.
                                    enum_then (or_none valid_agent_statuses) to_lower
                                      (codes "ImplementStatus") (codes "implement-status")
                                      f.implement_status _ refl
                                      (λ is h_is.
                                        enum_then (or_none valid_agent_statuses) to_lower
                                          (codes "ReviewStatus") (codes "review-status")
                                          f.review_status _ refl
                                          (λ rs h_rs.
                                            IfOk-bind (All Offered) (All Offered)
                                              (review_ref_change redact_line f.review_ref) _
                                              (review_ref_change-Offered redact_line f.review_ref)
                                              (λ rr h_rr.
                                                (All-append Offered _ _
                                                  (All-append Offered _ _
                                                    (All-append Offered _ _
                                                      (All-append Offered _ _
                                                        (All-append Offered _ _
                                                          (All-append Offered _ _
                                                            (All-append Offered _ _
                                                            (All-append Offered _ _
                                                            (All-append Offered _ _
                                                            (All-append Offered _ _
                                                            (All-append Offered _ _
                                                            (All-append Offered _ _
                                                            (All-append Offered _ _ h_p h_t) h_s)
                                                            (text_change-Offered redact_line
                                                            (codes "Module") (codes "module")
                                                            f.module_name refl))
                                                            (text_change-Offered redact_line
                                                            (codes "Tags") (codes "tags") f.tags
                                                            refl))
                                                            h_a)
                                                            h_st)
                                                            h_gb)
                                                            h_gs)
                                                          h_ib)
                                                        h_is)
                                                      h_rb)
                                                    h_rs)
                                                  h_rr)))))))))))))

pub IfOk-of : {A : Type 0} (P : A → Type 0) (r : Result A) (a : A) → IfOk P r → r ≡ ok a → P a
IfOk-of P r a h e = let k = rw e at h in k

-- Every change of an edit that is not refused for its flags has a value that its field may have: a
-- priority, a type, a size, an agent or a status of the fixed sets, where an agent or a status may also
-- be none.
pub collect_changes-Offered :
    (redact_line : Text → Text) (flags : EditFlags) (changes : List EditChange)
    → collect_changes redact_line flags ≡ ok changes
    → All Offered changes
collect_changes-Offered redact_line flags changes h =
    IfOk-of (All Offered) (collect_changes redact_line flags) changes (offered redact_line flags) h
