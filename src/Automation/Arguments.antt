-- ===== src/Automation/Arguments.antt =====
-- What `tb ls` reads from the arguments that a query becomes.
use task_board_tools.Base.{
  List, [], ◌∷◌, ◌≡◌, refl, Bool-cases, inl, inr, Text, codes, text_eq, text_eq_sound, sym, ◌∙◌,
  Bool, none, some, if◌then◌else◌, ap, append-nil, ◌++◌, true, Bool, none, ◌++◌, some,
  if◌then◌else◌,
}
use task_board_tools.Automation.Filter.{
  flag, list_with_filter_args, to_ls_args, AutoImplementFilter,
}
use task_board_tools.Strings.{trim_space, join}
use task_board_tools.Listing.Flags.{
  LsFlags, read_flags, default_flags, flag_arg, cut_name, set_flag,
}

-- The flags that a query sets, in the order in which it gives them.
abbrev pub flags_set : Text → Text → Text → Text → Text → Text → Text → Text → Text → LsFlags
flags_set status types priorities modules sizes tags agents parents term = record {
  tags_flag = tags;
  size_flag = sizes;
  module_flag = modules;
  type_flag = types;
  priority_flag = priorities;
  parent_flag = parents;
  agent_flag = agents;
  search_flag = term;
  status_flag = status;
  limit_flag = codes "0";
  json_flag = true;
}

abbrev pub query_flags : Text → AutoImplementFilter → LsFlags
query_flags status f =
    flags_set status (join f.wanted_types (codes ",")) (join f.wanted_priorities (codes ","))
      (join f.wanted_modules (codes ",")) (join f.wanted_sizes (codes ","))
      (join f.wanted_tags (codes ",")) (join f.wanted_agents (codes ","))
      (join f.wanted_parents (codes ",")) (trim_space f.wanted_search)

-- A flag that is given where its value is not empty, and that is empty before.
flag-read :
    (is_int : Text → Bool) (name value : Text) (rest : List Text) (set : Text → LsFlags)
    → read_flags is_int none (name ∷ value ∷ rest) (set [])
      ≡ read_flags is_int none rest (set value)
    → read_flags is_int none (flag name value ++ rest) (set [])
      ≡ read_flags is_int none rest (set value)
flag-read is_int name value rest set h = elim (Bool-cases (text_eq value [])) [
  | inl e ↦ rw (e, text_eq_sound value [] e) refl
  | inr e ↦ rw e h
]

flag-read_last :
    (is_int : Text → Bool) (name value : Text) (set : Text → LsFlags)
    → read_flags is_int none (name ∷ value ∷ []) (set []) ≡ read_flags is_int none [] (set value)
    → read_flags is_int none (flag name value) (set []) ≡ some (set value)
unfolding read_flags
flag-read_last is_int name value set h =
    ap (λ args. read_flags is_int none args (set [])) (sym (append-nil (flag name value)))
    ∙ flag-read is_int name value [] set h

pub read_flags-query :
    (is_int : Text → Bool) (status : Text) (f : AutoImplementFilter)
    → read_flags is_int none (list_with_filter_args status f) default_flags
      ≡ some (query_flags (if text_eq status [] then codes "ready" else status) f)
unfolding read_flags list_with_filter_args to_ls_args flag_arg cut_name set_flag text_eq
read_flags-query is_int status f =
    let at = if text_eq status [] then codes "ready" else status in
    let from_search = flag (codes "--search") (trim_space f.wanted_search) in
    let from_parent = flag (codes "--parent") (join f.wanted_parents (codes ",")) ++ from_search in
    let from_agent = flag (codes "--agent") (join f.wanted_agents (codes ",")) ++ from_parent in
    let from_tags = flag (codes "-t") (join f.wanted_tags (codes ",")) ++ from_agent in
    let from_size = flag (codes "-s") (join f.wanted_sizes (codes ",")) ++ from_tags in
    let from_module = flag (codes "-m") (join f.wanted_modules (codes ",")) ++ from_size in
    let from_priority = flag (codes "-p") (join f.wanted_priorities (codes ",")) ++ from_module in
    flag-read is_int (codes "-T") (join f.wanted_types (codes ",")) from_priority
      (λ v. flags_set at v [] [] [] [] [] [] []) refl
    ∙ flag-read is_int (codes "-p") (join f.wanted_priorities (codes ",")) from_module
        (λ v. flags_set at (join f.wanted_types (codes ",")) v [] [] [] [] [] []) refl
    ∙ flag-read is_int (codes "-m") (join f.wanted_modules (codes ",")) from_size
        (λ v.
          flags_set at (join f.wanted_types (codes ",")) (join f.wanted_priorities (codes ",")) v []
            [] [] [] [])
        refl
    ∙ flag-read is_int (codes "-s") (join f.wanted_sizes (codes ",")) from_tags
        (λ v.
          flags_set at (join f.wanted_types (codes ",")) (join f.wanted_priorities (codes ","))
            (join f.wanted_modules (codes ",")) v [] [] [] [])
        refl
    ∙ flag-read is_int (codes "-t") (join f.wanted_tags (codes ",")) from_agent
        (λ v.
          flags_set at (join f.wanted_types (codes ",")) (join f.wanted_priorities (codes ","))
            (join f.wanted_modules (codes ",")) (join f.wanted_sizes (codes ",")) v [] [] [])
        refl
    ∙ flag-read is_int (codes "--agent") (join f.wanted_agents (codes ",")) from_parent
        (λ v.
          flags_set at (join f.wanted_types (codes ",")) (join f.wanted_priorities (codes ","))
            (join f.wanted_modules (codes ",")) (join f.wanted_sizes (codes ","))
            (join f.wanted_tags (codes ",")) v [] [])
        refl
    ∙ flag-read is_int (codes "--parent") (join f.wanted_parents (codes ",")) from_search
        (λ v.
          flags_set at (join f.wanted_types (codes ",")) (join f.wanted_priorities (codes ","))
            (join f.wanted_modules (codes ",")) (join f.wanted_sizes (codes ","))
            (join f.wanted_tags (codes ",")) (join f.wanted_agents (codes ",")) v [])
        refl
    ∙ flag-read_last is_int (codes "--search") (trim_space f.wanted_search)
        (λ v.
          flags_set at (join f.wanted_types (codes ",")) (join f.wanted_priorities (codes ","))
            (join f.wanted_modules (codes ",")) (join f.wanted_sizes (codes ","))
            (join f.wanted_tags (codes ",")) (join f.wanted_agents (codes ","))
            (join f.wanted_parents (codes ",")) v)
        refl
