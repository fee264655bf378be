-- ===== src/Listing.antt =====
-- The filters of `tb ls`: cli/list.go. An empty list of values leaves a field unfiltered.
pub mod Flags
pub mod Laws
pub mod Order
pub mod Slots
use task_board_tools.Base.{
  Bool, true, false, ◌||◌, ◌&&◌, not, List, [], ◌∷◌, Option, none, some, Text, codes, text_eq,
  if◌then◌else◌, any, filter, map,
}
use task_board_tools.Strings.{trim_space, split, to_lower, equal_fold, contains}
use task_board_tools.Status.{normalize_task_id}
use task_board_tools.Tags.{has_tag}
use task_board_tools.Task.{Task, tags, size, task_module, task_type, priority, parent, agent}

-- `listFilters`
pub record ListFilters : Type 0 where
  pub with_tags : List Text
  pub with_sizes : List Text
  pub with_modules : List Text
  pub with_types : List Text
  pub with_priorities : List Text
  pub with_parents : List Text
  pub with_agents : List Text
  pub term : Text

abbrev pub filled_parts : List Text → List Text
filled_parts [] = []
filled_parts (p ∷ ps) =
    let rest = filled_parts ps in if text_eq (trim_space p) [] then rest else trim_space p ∷ rest

unfoldable pub split_csv_filter : Text → List Text
split_csv_filter raw = if text_eq (trim_space raw) [] then [] else filled_parts (split raw b',')

abbrev pub is_agent : Text → Bool
is_agent name =
    text_eq name (codes "none") || (text_eq name (codes "claude") || text_eq name (codes "codex"))

-- The agents in small letters; an unknown one is an error, given back as it was written.
unfoldable pub canonical_agents : List Text → Option (List Text)
canonical_agents [] = some []
canonical_agents (raw ∷ raws) =
    let rest = canonical_agents raws in
    if is_agent (to_lower raw)
    then elim rest [ none ↦ none | some names ↦ some (to_lower raw ∷ names) ]
    else none

unfoldable pub build_list_filters :
    Text → Text → Text → Text → Text → Text → Text → Text → Text → Option ListFilters
build_list_filters prefix raw_tags sizes modules types priorities parents agents term =
    elim (canonical_agents (split_csv_filter agents)) [
      | none ↦ none
      | some names ↦ some (record {
        with_tags = split_csv_filter raw_tags;
        with_sizes = split_csv_filter sizes;
        with_modules = split_csv_filter modules;
        with_types = split_csv_filter types;
        with_priorities = split_csv_filter priorities;
        with_parents = map (normalize_task_id prefix) (split_csv_filter parents);
        with_agents = names;
        term = trim_space term;
      })
    ]

abbrev pub any_equal_fold : List Text → Text → Bool
any_equal_fold values candidate = any (λ v. equal_fold candidate v) values

abbrev pub any_tag_matches : Text → List Text → Bool
any_tag_matches task_tags wanted = any (λ t. has_tag task_tags t) wanted

abbrev pub any_module_substring : List Text → Text → Bool
any_module_substring wanted name = any (λ m. contains (to_lower name) (to_lower m)) wanted

-- `none` stands for a task without an agent.
abbrev pub agent_matches : Text → Text → Bool
agent_matches name wanted =
    if text_eq wanted (codes "none") then text_eq name [] else text_eq wanted name

abbrev pub any_agent_matches : List Text → Text → Bool
any_agent_matches wanted name = any (λ a. agent_matches (to_lower (trim_space name)) a) wanted

abbrev pub matches_search : Text → Text → Text → Bool
matches_search wanted id title =
    contains (to_lower id) (to_lower wanted) || contains (to_lower title) (to_lower wanted)

abbrev pub rejects : List Text → Bool → Bool
rejects [] found = false
rejects (_ ∷ _) found = not found

-- `listFilters.match`, in the order of its tests.
unfoldable pub list_match : ListFilters → Task → Bool
list_match f t =
    if rejects f.with_tags (any_tag_matches (t.meta tags) f.with_tags)
    then false
    else if rejects f.with_sizes (any_equal_fold f.with_sizes (t.meta size))
    then false
    else if rejects f.with_modules (any_module_substring f.with_modules (t.meta task_module))
    then false
    else if rejects f.with_types (any_equal_fold f.with_types (t.meta task_type))
    then false
    else if rejects f.with_priorities (any_equal_fold f.with_priorities (t.meta priority))
    then false
    else if rejects f.with_parents (any_equal_fold f.with_parents (t.meta parent))
    then false
    else if rejects f.with_agents (any_agent_matches f.with_agents (t.meta agent))
    then false
    else not (not (text_eq f.term []) && not (matches_search f.term t.id t.title))
