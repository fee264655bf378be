-- ===== src/Automation/Query.antt =====
-- How `tb ls` reads the arguments that a saved query becomes: the meeting point of
-- gui/app/auto_implement_filter.go and cli/list.go.
use task_board_tools.Base.{
  false, List, [], ◌∷◌, ◌≡◌, refl, arith, All, Bool-cases, inl, inr, Text, codes, text_eq,
  text_eq_iff, text_eq_sound, sym, ◌∙◌, map, Bool, none, some, if◌then◌else◌, ap, true, Bool, none,
  some, if◌then◌else◌, Option-cases, Option,
}
use task_board_tools.Automation.Filter.{
  list_with_filter_args, clean_string_slice, AutoImplementFilter, normalize,
}
use task_board_tools.Listing.Laws.{IsValue}
use task_board_tools.Strings.Parts.{Lacks, split-join}
use task_board_tools.Listing.{
  filled_parts, split_csv_filter, ListFilters, build_list_filters, canonical_agents,
}
use task_board_tools.Strings.{trim_space, join}
use task_board_tools.Strings.Trim.{trim_space-trim_space, trim_space-Lacks}
use task_board_tools.Strings.Blank.{trim_space-join}
use task_board_tools.Status.{normalize_task_id}
use task_board_tools.Listing.Flags.{ls_request, request_with, request_from, LsRequest}
use task_board_tools.Automation.Arguments.{query_flags, read_flags-query}

clean_string_slice-IsValue : (vs : List Text) → All IsValue (clean_string_slice vs)
unfolding clean_string_slice
clean_string_slice-IsValue [] = tt
clean_string_slice-IsValue (v ∷ vs) = elim (Bool-cases (text_eq (trim_space v) [])) [
  | inl e ↦ rw e (clean_string_slice-IsValue vs)
  | inr e ↦ rw e (
    ((λ z. absurd (ground (arith, text_eq_iff (trim_space v) []))), trim_space-trim_space v),
    clean_string_slice-IsValue vs,
  )
]

filled_parts_values : (vs : List Text) → All IsValue vs → filled_parts vs ≡ vs
filled_parts_values [] h = refl
filled_parts_values (v ∷ vs) ((full, trimmed), h) =
    let filled : text_eq v [] ≡ false = ground (arith, text_eq_iff v []) in
    rw (trimmed, filled, filled_parts_values vs h) refl

-- Values without blank ends and commas, joined by commas.
split_csv_filter-join :
    (vs : List Text)
    → All IsValue vs
    → All (Lacks b',') vs
    → split_csv_filter (join vs (codes ",")) ≡ vs
unfolding split_csv_filter text_eq trim_space
split_csv_filter-join [] h l = unfold join in refl
split_csv_filter-join (v ∷ vs) ((full, trimmed), h) l =
    elim (Bool-cases (text_eq (trim_space (join (v ∷ vs) (codes ","))) [])) [
      | inl e ↦
          let blank = trim_space-join v vs (codes ",") (text_eq_sound _ [] e) in
          absurd (full (sym trimmed ∙ blank))
      | inr e ↦
          rw (e, split-join (v ∷ vs) b',' (λ z. cc) l)
            (filled_parts_values (v ∷ vs) ((full, trimmed), h))
    ]

clean_string_slice-Lacks :
    (vs : List Text) → All (Lacks b',') vs → All (Lacks b',') (clean_string_slice vs)
unfolding clean_string_slice
clean_string_slice-Lacks [] h = tt
clean_string_slice-Lacks (v ∷ vs) (h, hs) = elim (Bool-cases (text_eq (trim_space v) [])) [
  | inl e ↦ rw e (clean_string_slice-Lacks vs hs)
  | inr e ↦ rw e (trim_space-Lacks b',' v h, clean_string_slice-Lacks vs hs)
]

clean-joined :
    (vs : List Text)
    → All (Lacks b',') vs
    → split_csv_filter (join (clean_string_slice vs) (codes ",")) ≡ clean_string_slice vs
clean-joined vs h =
    split_csv_filter-join (clean_string_slice vs) (clean_string_slice-IsValue vs)
      (clean_string_slice-Lacks vs h)

-- No value of a field holds the comma, which separates them.
pub record HasNoComma (f : AutoImplementFilter) : Type 0 where
  pub types : All (Lacks b',') f.wanted_types
  pub priorities : All (Lacks b',') f.wanted_priorities
  pub modules : All (Lacks b',') f.wanted_modules
  pub sizes : All (Lacks b',') f.wanted_sizes
  pub tags : All (Lacks b',') f.wanted_tags
  pub agents : All (Lacks b',') f.wanted_agents
  pub parents : All (Lacks b',') f.wanted_parents

-- The filters of `tb ls` that a saved query asks for.
abbrev pub asked : Text → AutoImplementFilter → List Text → ListFilters
asked prefix f names = record {
  with_tags = f.wanted_tags;
  with_sizes = f.wanted_sizes;
  with_modules = f.wanted_modules;
  with_types = f.wanted_types;
  with_priorities = f.wanted_priorities;
  with_parents = map (normalize_task_id prefix) f.wanted_parents;
  with_agents = names;
  term = f.wanted_search;
}

-- `buildListFilters` on the values of a query.
abbrev filters_of : Text → AutoImplementFilter → Option ListFilters
filters_of prefix f =
    build_list_filters prefix (join f.wanted_tags (codes ",")) (join f.wanted_sizes (codes ","))
      (join f.wanted_modules (codes ",")) (join f.wanted_types (codes ","))
      (join f.wanted_priorities (codes ",")) (join f.wanted_parents (codes ","))
      (join f.wanted_agents (codes ",")) (trim_space f.wanted_search)

filters_of-normalize :
    (prefix : Text) (f : AutoImplementFilter)
    → HasNoComma f
    → filters_of prefix (normalize f)
      ≡ mathlib.Core.Option.map
          (asked prefix (normalize f))
          (canonical_agents (normalize f).wanted_agents)
unfolding build_list_filters normalize
filters_of-normalize prefix f h =
    elim (Option-cases (canonical_agents (clean_string_slice f.wanted_agents))) [
      | inl e ↦ rw (build_list_filters, clean-joined f.wanted_agents h.agents, e) refl
      | inr (names, e) ↦
          rw
            (
              build_list_filters,
              clean-joined f.wanted_agents h.agents,
              e,
              clean-joined f.wanted_types h.types,
              clean-joined f.wanted_priorities h.priorities,
              clean-joined f.wanted_modules h.modules,
              clean-joined f.wanted_sizes h.sizes,
              clean-joined f.wanted_tags h.tags,
              clean-joined f.wanted_parents h.parents,
              trim_space-trim_space (trim_space f.wanted_search),
              trim_space-trim_space f.wanted_search,
            )
            refl
    ]

-- What a query asks for.
abbrev pub request : Text → Text → AutoImplementFilter → List Text → LsRequest
request prefix status f names = record {
  asked_status = if text_eq status [] then codes "ready" else status;
  asked_limit = codes "0";
  as_json = true;
  asked_filters = asked prefix f names;
}

request_with-map :
    (prefix status : Text) (f : AutoImplementFilter) (agents : Option (List Text))
    → request_with
        (query_flags (if text_eq status [] then codes "ready" else status) f)
        (mathlib.Core.Option.map (asked prefix f) agents)
      ≡ mathlib.Core.Option.map (request prefix status f) agents
request_with-map prefix status f none = refl
request_with-map prefix status f (some names) = refl

-- A query without commas in its values survives the command line: from the arguments that become of the
-- normalized query, `tb ls` reads a request for JSON and for the status, `ready` if there is none, without
-- a limit, and filters with just the values of the query, field by field, and with its search term and
-- its parents, normalized; unknown agents are an error, as the same names are on the command line.
pub ls_request-normalize :
    (prefix : Text) (is_int : Text → Bool) (status : Text) (f : AutoImplementFilter)
    → HasNoComma f
    → ls_request prefix is_int (list_with_filter_args status (normalize f))
      ≡ mathlib.Core.Option.map
          (request prefix status (normalize f))
          (canonical_agents (normalize f).wanted_agents)
unfolding ls_request
ls_request-normalize prefix is_int status f h =
    let flags = query_flags (if text_eq status [] then codes "ready" else status) (normalize f) in
    ap (request_from prefix) (read_flags-query is_int status (normalize f))
    ∙ (ap (request_with flags) (filters_of-normalize prefix f h)
        ∙ request_with-map prefix status (normalize f)
            (canonical_agents (normalize f).wanted_agents))
