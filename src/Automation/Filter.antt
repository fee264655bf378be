-- ===== src/Automation/Filter.antt =====
-- gui/app/auto_implement_filter.go: the saved query, and the arguments of `tb ls` that it becomes.
use task_board_tools.Base.{
  Bool, true, false, ◌&&◌, not, List, [], ◌∷◌, ◌++◌, Text, codes, text_eq, if◌then◌else◌,
}
use task_board_tools.Strings.{trim_space, join}

pub record AutoImplementFilter : Type 0 where
  pub wanted_search : Text
  pub wanted_types : List Text
  pub wanted_priorities : List Text
  pub wanted_modules : List Text
  pub wanted_sizes : List Text
  pub wanted_tags : List Text
  pub wanted_agents : List Text
  pub wanted_parents : List Text

abbrev pub is_nil : List Text → Bool
is_nil [] = true
is_nil (_ ∷ _) = false

unfoldable pub is_empty : AutoImplementFilter → Bool
is_empty f =
    if not (text_eq (trim_space f.wanted_search) [])
    then false
    else (is_nil f.wanted_types
        && (is_nil f.wanted_priorities
            && (is_nil f.wanted_modules
                && (is_nil f.wanted_sizes
                    && (is_nil f.wanted_tags
                        && (is_nil f.wanted_agents && is_nil f.wanted_parents))))))

unfoldable pub clean_string_slice : List Text → List Text
clean_string_slice [] = []
clean_string_slice (v ∷ vs) =
    let rest = clean_string_slice vs in
    if text_eq (trim_space v) [] then rest else trim_space v ∷ rest

unfoldable pub normalize : AutoImplementFilter → AutoImplementFilter
unfolding clean_string_slice
normalize f = record {
  wanted_search = trim_space f.wanted_search;
  wanted_types = clean_string_slice f.wanted_types;
  wanted_priorities = clean_string_slice f.wanted_priorities;
  wanted_modules = clean_string_slice f.wanted_modules;
  wanted_sizes = clean_string_slice f.wanted_sizes;
  wanted_tags = clean_string_slice f.wanted_tags;
  wanted_agents = clean_string_slice f.wanted_agents;
  wanted_parents = clean_string_slice f.wanted_parents;
}

abbrev pub flag : Text → Text → List Text
flag name value = if text_eq value [] then [] else name ∷ value ∷ []

unfoldable pub to_ls_args : AutoImplementFilter → List Text
to_ls_args f =
    flag (codes "-T") (join f.wanted_types (codes ","))
    ++ (flag (codes "-p") (join f.wanted_priorities (codes ","))
        ++ (flag (codes "-m") (join f.wanted_modules (codes ","))
            ++ (flag (codes "-s") (join f.wanted_sizes (codes ","))
                ++ (flag (codes "-t") (join f.wanted_tags (codes ","))
                    ++ (flag (codes "--agent") (join f.wanted_agents (codes ","))
                        ++ (flag (codes "--parent") (join f.wanted_parents (codes ","))
                            ++ flag (codes "--search") (trim_space f.wanted_search)))))))

-- What `ListWithFilter` (gui/app/board_service.go) gives to `tb ls`, behind the name of the command.
unfoldable pub list_with_filter_args : Text → AutoImplementFilter → List Text
unfolding to_ls_args
list_with_filter_args status f =
    codes "--json"
    ∷ codes "--status"
    ∷ (if text_eq status [] then codes "ready" else status)
    ∷ to_ls_args f
