-- ===== src/Tags.antt =====
-- Comma-separated tags: `hasTag` and `addTag` of cli/task.go, `removeTag` of cli/review.go.
pub mod Laws
use task_board_tools.Base.{
  Bool, true, false, ◌||◌, List, [], ◌∷◌, ◌++◌, Text, codes, text_eq, if◌then◌else◌,
}
use task_board_tools.Strings.{trim_space, equal_fold, split, join}

-- Whether a tag stands among those of a comma-separated text, in either case.
abbrev pub any_tag : List Text → Text → Bool
any_tag [] tag = false
any_tag (t ∷ ts) tag = equal_fold (trim_space t) tag || any_tag ts tag

unfoldable pub has_tag : Text → Text → Bool
unfolding split
has_tag existing tag = any_tag (split existing b',') tag

unfoldable pub add_tag : Text → Text → Text
unfolding has_tag
add_tag existing tag =
    if has_tag existing tag
    then existing
    else if text_eq existing []
    then tag
    else existing ++ (codes "," ++ tag)

-- The loop of `removeTag` (cli/review.go).
unfoldable pub kept_tags : List Text → Text → List Text
kept_tags [] tag = []
kept_tags (t ∷ ts) tag =
    let rest = kept_tags ts tag in
    if text_eq (trim_space t) []
    then rest
    else if equal_fold (trim_space t) tag
    then rest
    else trim_space t ∷ rest

unfoldable pub remove_tag : Text → Text → Text
unfolding kept_tags split join
remove_tag existing tag =
    if text_eq existing [] then [] else join (kept_tags (split existing b',') tag) (codes ",")
