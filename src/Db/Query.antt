-- ===== src/Db/Query.antt =====
-- The subquery that selects the files of a path, as a tree with numbered parameters.
pub mod Meaning
pub mod Numbering
mod Tests
use supertag.Base.{
  ℕ, zero, suc, ◌+◌, ◌&&◌, ◌||◌, List, [], ◌∷◌, ◌++◌, map, none, some, Text, length, last?, ◌==◌,
  if◌then◌else◌, select, mem, text_eq, nat_eq, chars_eq,
}
use supertag.Db.Lookup.{group_named}
use supertag.Db.Store.{Db}
use supertag.Tags.Types.{TagType, regular, negation, group, file_dir, device_file_symlink, symlink}

-- A parameter, `?1`, `?2` and so on
abbrev pub Param : Type 0
Param = ℕ

-- The two templates: the file ids with a tag of one name, or of one of several.
pub data Subquery : Type 0 where
  tag_name_is : Param → Subquery
  tag_name_in : List Param → Subquery

-- Subqueries joined by INTERSECT, with nothing or others joined so behind EXCEPT; `()` is empty.
pub data Query : Type 0 where
  intersection : List Subquery → Query
  except : List Subquery → List Subquery → Query
  nothing : Query

-- `make_params`
unfoldable pub make_params : ℕ → ℕ → List Param
make_params zero offset = []
make_params (suc num) offset = suc offset ∷ make_params num (suc offset)

unfoldable pub intersects_of : List TagType → List Text
intersects_of [] = []
intersects_of (regular name ∷ tags) = name ∷ intersects_of tags
intersects_of (_ ∷ tags) = intersects_of tags

unfoldable pub excepts_of : List TagType → List Text
excepts_of [] = []
excepts_of (negation name ∷ tags) = name ∷ excepts_of tags
excepts_of (_ ∷ tags) = excepts_of tags

-- The names of the tags in a group
unfoldable pub tag_names_for_tag_group : Db → Text → List Text
tag_names_for_tag_group db name =
    let groups = map (λ g. g.id) (select (group_named name) db.tag_groups) in
    let ids = map (λ r. r.tag_id) (select (λ r. mem r.tg_id groups) db.tag_group_tag) in
    map (λ t. t.tag_name) (select (λ t. mem t.id ids) db.tags)

-- Only a group at the end counts.
unfoldable pub groups_of : Db → List TagType → List Text
unfolding tag_names_for_tag_group
groups_of db tags = elim (last? tags) [
  | some t ↦ elim t [
    | group last_group ↦ tag_names_for_tag_group db last_group
    | regular _ ↦ []
    | negation _ ↦ []
    | file_dir ↦ []
    | device_file_symlink _ ↦ []
    | symlink _ ↦ []
  ]
  | none ↦ []
]

-- The subqueries for single names, with the parameters behind the offset.
unfoldable pub single_subqueries : ℕ → ℕ → List Subquery
single_subqueries zero param_offset = []
single_subqueries (suc n) param_offset =
    tag_name_is (param_offset + 1) ∷ single_subqueries n (param_offset + 1)

unfoldable pub group_subqueries : List Text → ℕ → List Subquery
unfolding make_params
group_subqueries [] param_offset = []
group_subqueries (g ∷ groups) param_offset =
    tag_name_in (make_params (length (g ∷ groups)) param_offset) ∷ []

-- The query, from the three lists of subqueries.
unfoldable pub assemble : List Subquery → List Subquery → List Subquery → Query
assemble intersects groups [] = intersection (intersects ++ groups)
assemble [] groups (e ∷ excepts) = nothing
assemble (i ∷ intersects) groups (e ∷ excepts) = except ((i ∷ intersects) ++ groups) (e ∷ excepts)

unfoldable pub intersection_subquery : Db → List TagType → ℕ → Query × List Text
unfolding group_subqueries
intersection_subquery db tags offset =
    let excepts = excepts_of tags in
    let intersects = intersects_of tags in
    let groups = groups_of db tags in
    let intersect_subqueries = single_subqueries (length intersects) offset in
    let group_offset = offset + length intersects in
    let except_offset = group_offset + length groups in
    (
      assemble intersect_subqueries (group_subqueries groups group_offset)
          (single_subqueries (length excepts) except_offset),
      intersects ++ groups ++ excepts,
    )
