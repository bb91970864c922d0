-- ===== src/Paths.antt =====
-- `std::path::Path` over texts: the components of a path, as `components()` yields them.
pub mod Split
pub mod Joined
use supertag.Base.{
  ℕ, ◌≡◌, refl, List, [], ◌∷◌, ◌++◌, Text, codes, ◌==◌, if◌then◌else◌, text_eq, starts_with,
}

pub data Component : Type 0 where
  root_dir : Component
  cur_dir : Component
  parent_dir : Component
  normal : Text → Component

-- `as_os_str`
unfoldable pub as_text : Component → Text
as_text root_dir = codes "/"
as_text cur_dir = codes "."
as_text parent_dir = codes ".."
as_text (normal s) = s

-- The pieces between separators; `current` is the piece under way.
unfoldable pub split_from : ℕ → Text → Text → List Text
split_from c current [] = current ∷ []
split_from c current (x ∷ s) =
    let cut = current ∷ split_from c [] s in
    let go_on = split_from c (current ++ x ∷ []) s in if x == c then cut else go_on

-- A piece that is not the first: empty pieces and `.` are skipped.
unfoldable pub piece : Text → List Component
piece s =
    if text_eq s []
    then []
    else if text_eq s (codes ".")
    then []
    else if text_eq s (codes "..")
    then parent_dir ∷ []
    else normal s ∷ []

unfoldable pub pieces : List Text → List Component
pieces [] = []
pieces (s ∷ rest) = piece s ++ pieces rest

-- The first piece of a relative path may be `.`, which is kept.
unfoldable pub first_pieces : List Text → List Component
first_pieces [] = []
first_pieces (s ∷ rest) = if text_eq s (codes ".") then cur_dir ∷ pieces rest else pieces (s ∷ rest)

unfoldable pub components : Text → List Component
components path =
    if starts_with path (codes "/")
    then root_dir ∷ pieces (split_from b'/' [] path)
    else first_pieces (split_from b'/' [] path)

absolute :
    components (codes "//a/./b/../c.d/")
    ≡ root_dir ∷ normal (codes "a") ∷ normal (codes "b") ∷ parent_dir ∷ normal (codes "c.d") ∷ []
unfolding components first_pieces pieces piece text_eq starts_with split_from
absolute = refl

relative : components (codes "./a/.") ≡ cur_dir ∷ normal (codes "a") ∷ []
unfolding components first_pieces pieces piece text_eq starts_with split_from
relative = refl
