-- ===== src/Listing/Laws.antt =====
-- What a filter accepts.
use mathlib.Core.Option
use task_board_tools.Base.{
  Bool, Text, List, ◌≡◌, [], any, ◌⊎◌, false, true, ◌↔◌, inl, ◌∷◌, arith, refl, text_eq_iff, ◌≢◌,
  All, Bool-cases, some, text_eq, inr, Option-cases, sym,
}
use task_board_tools.Task.{Task, tags, size, task_module, task_type, priority, parent, agent}
use task_board_tools.Listing.{
  ListFilters, has_tag, tags, rejects, equal_fold, size, contains, to_lower, task_module, task_type,
  priority, parent, agent_matches, trim_space, agent, matches_search, list_match, split_csv_filter,
  canonical_agents, build_list_filters, filled_parts, is_agent, split,
}
use task_board_tools.Tags.{has_tag}
use task_board_tools.Strings.{equal_fold, contains, to_lower, trim_space, split}
use task_board_tools.Strings.Trim.{trim_space-trim_space}

-- A field filter accepts a task if it has no values, or one of them fits.
abbrev pub Accepts : (Text → Bool) → List Text → Type 0
Accepts fits values = (values ≡ []) ⊎ (any fits values ≡ true)

rejects_iff :
    (fits : Text → Bool) (values : List Text)
    → (rejects values (any fits values) ≡ false) ↔ Accepts fits values
rejects_iff fits [] = ((λ h. inl refl), (λ h. refl))
rejects_iff fits (v ∷ vs) = ground arith

-- What a task has to fulfil, each part independent of the others.
pub record Matches (f : ListFilters) (t : Task) : Type 0 where
  pub tag : Accepts (λ v. has_tag (t.meta tags) v) f.with_tags
  pub a_size : Accepts (λ v. equal_fold (t.meta size) v) f.with_sizes
  pub a_module : Accepts (λ v. contains (to_lower (t.meta task_module)) (to_lower v)) f.with_modules
  pub a_type : Accepts (λ v. equal_fold (t.meta task_type) v) f.with_types
  pub a_priority : Accepts (λ v. equal_fold (t.meta priority) v) f.with_priorities
  pub a_parent : Accepts (λ v. equal_fold (t.meta parent) v) f.with_parents
  pub an_agent : Accepts (λ v. agent_matches (to_lower (trim_space (t.meta agent))) v) f.with_agents
  pub found : (f.term ≡ []) ⊎ (matches_search f.term t.id t.title ≡ true)

-- A task is listed exactly when every field with values has one that fits, and the search term, if any,
-- occurs in its ID or its title: the values of one field are alternatives, and the fields add up.
pub list_match_iff : (f : ListFilters) (t : Task) → (list_match f t ≡ true) ↔ Matches f t
unfolding list_match
list_match_iff f t = (
  (λ h. record {
    tag = (rejects_iff (λ v. has_tag (t.meta tags) v) f.with_tags).0 (ground arith);
    a_size = (rejects_iff (λ v. equal_fold (t.meta size) v) f.with_sizes).0 (ground arith);
    a_module =
        (rejects_iff (λ v. contains (to_lower (t.meta task_module)) (to_lower v)) f.with_modules).0
          (ground arith);
    a_type = (rejects_iff (λ v. equal_fold (t.meta task_type) v) f.with_types).0 (ground arith);
    a_priority =
        (rejects_iff (λ v. equal_fold (t.meta priority) v) f.with_priorities).0 (ground arith);
    a_parent = (rejects_iff (λ v. equal_fold (t.meta parent) v) f.with_parents).0 (ground arith);
    an_agent =
        (rejects_iff (λ v. agent_matches (to_lower (trim_space (t.meta agent))) v) f.with_agents).0
          (ground arith);
    found = ground (arith, text_eq_iff f.term []);
  }),
  λ m.
      rw
        (
          (rejects_iff (λ v. has_tag (t.meta tags) v) f.with_tags).1 m.tag,
          (rejects_iff (λ v. equal_fold (t.meta size) v) f.with_sizes).1 m.a_size,
          (rejects_iff (λ v. contains (to_lower (t.meta task_module)) (to_lower v))
                f.with_modules).1
              m.a_module,
          (rejects_iff (λ v. equal_fold (t.meta task_type) v) f.with_types).1 m.a_type,
          (rejects_iff (λ v. equal_fold (t.meta priority) v) f.with_priorities).1 m.a_priority,
          (rejects_iff (λ v. equal_fold (t.meta parent) v) f.with_parents).1 m.a_parent,
          (rejects_iff (λ v. agent_matches (to_lower (trim_space (t.meta agent))) v)
                f.with_agents).1
              m.an_agent,
        )
        (ground (arith, m.found, text_eq_iff f.term [])),
)

-- A value that is there, and has no blank ends.
abbrev pub IsValue : Text → Type 0
IsValue v = (v ≢ []) × (trim_space v ≡ v)

filled_parts-IsValue : (ps : List Text) → All IsValue (filled_parts ps)
filled_parts-IsValue [] = tt
filled_parts-IsValue (p ∷ ps) = elim (Bool-cases (text_eq (trim_space p) [])) [
  | inl e ↦ rw e (filled_parts-IsValue ps)
  | inr e ↦ rw e (
    ((λ z. absurd (ground (arith, text_eq_iff (trim_space p) []))), trim_space-trim_space p),
    filled_parts-IsValue ps,
  )
]

split_csv_filter-IsValue : (raw : Text) → All IsValue (split_csv_filter raw)
unfolding split_csv_filter
split_csv_filter-IsValue raw = elim (Bool-cases (text_eq (trim_space raw) [])) [
  | inl e ↦ rw e tt
  | inr e ↦ rw e (filled_parts-IsValue (split raw b','))
]

canonical_agents_known :
    (raws names : List Text)
    → canonical_agents raws ≡ some names
    → All (λ a. is_agent a ≡ true) names
unfolding canonical_agents
canonical_agents_known [] names h = let e : names ≡ [] = ground arith in rw e tt
canonical_agents_known (raw ∷ raws) names h = elim (Bool-cases (is_agent (to_lower raw))) [
  | inr e ↦ absurd (let k = rw e at h in ground arith)
  | inl e ↦ elim (Option-cases (canonical_agents raws)) [
    | inl q ↦ absurd (let k = rw (e, q) at h in ground arith)
    | inr (rest, q) ↦
        let same : names ≡ to_lower raw ∷ rest = let k = rw (e, q) at h in ground arith in
        rw same (e, canonical_agents_known raws rest q)
  ]
]

-- Filters that are built have clean values: no empty one and none with blank ends, only known agents,
-- and a search term without blank ends.
pub build_list_filters_lem :
    (prefix raw_tags sizes modules types priorities parents agents term : Text) (f : ListFilters)
    → build_list_filters prefix raw_tags sizes modules types priorities parents agents term ≡ some f
    → All IsValue f.with_tags
      × All IsValue f.with_sizes
      × All IsValue f.with_modules
      × All IsValue f.with_types
      × All IsValue f.with_priorities
      × All (λ a. is_agent a ≡ true) f.with_agents
      × (trim_space f.term ≡ f.term)
unfolding build_list_filters
build_list_filters_lem prefix raw_tags sizes modules types priorities parents agents term f h =
    elim (Option-cases (canonical_agents (split_csv_filter agents))) [
      | inl q ↦ absurd (let k = rw (q, build_list_filters) at h in ground arith)
      | inr (names, q) ↦
          let k = rw (q, build_list_filters) at h in
          let same = mathlib.Core.Option.some-injective _ _ k in
          rw (sym same) (
            split_csv_filter-IsValue raw_tags,
            split_csv_filter-IsValue sizes,
            split_csv_filter-IsValue modules,
            split_csv_filter-IsValue types,
            split_csv_filter-IsValue priorities,
            canonical_agents_known (split_csv_filter agents) names q,
            trim_space-trim_space term,
          )
    ]
