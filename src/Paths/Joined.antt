-- ===== src/Paths/Joined.antt =====
-- `join`, `parent`, `==`, `ends_with` and `starts_with` of `std::path::Path`. What `parent` and `join`
-- give is written out from the components, which is the same path.
use supertag.Base.{
  ◌-◌, Bool, true, false, ◌&&◌, ◌||◌, List, [], ◌∷◌, ◌++◌, map, Option, none, some, Text, codes,
  length, take, last?, text_eq, starts_with, ends_with, if◌then◌else◌,
}
use supertag.Db.Remove.{is_nil}
use supertag.Paths.{Component, root_dir, cur_dir, parent_dir, normal, as_text, components}

abbrev pub slash : Text
slash = codes "/"

-- An absolute second path replaces the first.
unfoldable pub path_join : Text → Text → Text
path_join base name =
    if starts_with name slash
    then name
    else if is_nil base || ends_with base slash
    then base ++ name
    else base ++ slash ++ name

unfoldable pub join_names : List Text → Text
join_names [] = []
join_names (s ∷ []) = s
join_names (s ∷ t ∷ rest) = s ++ slash ++ join_names (t ∷ rest)

unfoldable pub from_components : List Component → Text
from_components [] = []
from_components (root_dir ∷ rest) = slash ++ join_names (map as_text rest)
from_components (c ∷ rest) = join_names (as_text c ∷ map as_text rest)

-- `parent`: none for a path that ends in the root, and for the empty one.
unfoldable pub parent : Text → Option Text
unfolding from_components
parent path = elim (last? (components path)) [
  | none ↦ none
  | some c ↦ elim c [
    | root_dir ↦ none
    | cur_dir ↦ some (from_components (take (length (components path) - 1) (components path)))
    | parent_dir ↦ some (from_components (take (length (components path) - 1) (components path)))
    | normal _ ↦ some (from_components (take (length (components path) - 1) (components path)))
  ]
]

-- `file_name`: the last component, if it is a name.
unfoldable pub file_name : Text → Option Text
file_name path = elim (last? (components path)) [
  | none ↦ none
  | some c ↦ elim c [ root_dir ↦ none | cur_dir ↦ none | parent_dir ↦ none | normal s ↦ some s ]
]

abbrev pub same_component : Component → Component → Bool
same_component root_dir root_dir = true
same_component cur_dir cur_dir = true
same_component parent_dir parent_dir = true
same_component (normal s) (normal t) = text_eq s t
same_component _ _ = false

abbrev pub begins : List Component → List Component → Bool
begins cs [] = true
begins [] (d ∷ ds) = false
begins (c ∷ cs) (d ∷ ds) = same_component c d && begins cs ds

unfoldable pub path_starts_with : Text → Text → Bool
path_starts_with path base = begins (components path) (components base)

unfoldable pub path_eq : Text → Text → Bool
path_eq path other =
    begins (components path) (components other) && begins (components other) (components path)

-- `ends_with` of one name
unfoldable pub ends_with_name : Text → Text → Bool
ends_with_name path name = elim (last? (components path)) [
  | none ↦ false
  | some c ↦ same_component c (normal name)
]
