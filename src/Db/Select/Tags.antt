-- ===== src/Db/Select/Tags.antt =====
-- `get_all_tags`, `intersect_tag` and `num_files_for_intersection`: the tags below a path.
use supertag.Base.{
  ℕ, Bool, true, not, ◌&&◌, List, [], ◌∷◌, map, Option, none, some, Text, length, take, ◌-◌, last?,
  find, select, mem, text_eq, nat_eq, chars_eq, ◌==◌, if◌then◌else◌,
}
use supertag.Base.Order.{order_by}
use supertag.Db.Lookup.{to_tag}
use supertag.Db.Monad.{Sql, pure, gets, fail_if, ◌>>=◌, ◌>>◌}
use supertag.Db.Query.{intersection_subquery, tag_names_for_tag_group}
use supertag.Db.Query.Meaning.{selects}
use supertag.Db.Select.Files.{is_nothing, latest}
use supertag.Db.Store.{TagRow, FileTagRow}
use supertag.Errors.{other_failure}
use supertag.Rows.{Tag}
use supertag.Rows.Int.{ℤ, pos}
use supertag.Tags.Collect.{collect_regular, collect_regular_names}
use supertag.Tags.Types.{TagType, regular, negation, group, file_dir, device_file_symlink, symlink}

unfoldable pub get_all_tags : Sql (List Tag)
unfolding to_tag
get_all_tags = gets (λ db. order_by (λ t. t.name) (map to_tag db.tags))

-- The names of the tags with these ids
unfoldable pub resolve_tag_ids : List ℕ → Sql (List Text)
resolve_tag_ids tag_ids =
    gets (λ db. map (λ t. t.tag_name) (select (λ t. mem t.id tag_ids) db.tags))

-- The row that `GROUP BY tags.id` makes of the links of a tag: the latest time and the number of
-- them.
abbrev pub counted : TagRow → List FileTagRow → List Tag → List Tag
counted t [] rest = rest
counted t (r ∷ links) rest =
    (record (to_tag t) { mtime = (latest r links).mtime; num_files = pos (length (r ∷ links)) })
    ∷ rest

unfoldable pub intersecting : List FileTagRow → (TagRow → Bool) → List TagRow → List Tag
unfolding to_tag
intersecting links listed [] = []
intersecting links listed (t ∷ tags) =
    let rest = intersecting links listed tags in
    if listed t then counted t (select (λ r. r.tag_id == t.id) links) rest else rest

-- Below a group, only its tags.
unfoldable pub prune : Option TagType → List Tag → Sql (List Tag)
unfolding tag_names_for_tag_group
prune (some (group last_group)) isect_tags = do
  tag_groups ← gets (λ db. tag_names_for_tag_group db last_group)
  pure (select (λ itag. mem itag.name tag_groups) isect_tags)
prune _ isect_tags = pure isect_tags

unfoldable pub intersect_tag : List TagType → Bool → Sql (List Tag)
unfolding intersecting
intersect_tag [] exclude_provided = get_all_tags
intersect_tag (tag ∷ tags) exclude_provided = do
  (subquery, params) ← gets (λ db. intersection_subquery db (tag ∷ tags) 0)
  fail_if (is_nothing subquery) other_failure
  isect_tags ← gets (λ db.
      order_by (λ t. t.name)
        (intersecting (select (λ r. selects db params r.file_id subquery) db.file_tag)
          (λ t. not (exclude_provided && mem t.tag_name (collect_regular_names (tag ∷ tags))))
          db.tags))
  prune (last? (tag ∷ tags)) isect_tags

-- The number of files of the tag that is found
abbrev pub found_files : Option Tag → ℤ
found_files none = pos 0
found_files (some found) = found.num_files

-- `pop`
abbrev pub init : List TagType → List TagType
init tags = take (length tags - 1) tags

unfoldable pub num_files_for_intersection : List TagType → Sql ℤ
num_files_for_intersection tags = elim (last? (collect_regular tags)) [
  | some t ↦ do
    itags ← intersect_tag (init (collect_regular tags)) true
    elim t [
      | regular last_tag_name ↦
          pure (found_files (find (λ tag. text_eq tag.name last_tag_name) itags))
      | negation _ ↦ pure (pos 0)
      | group _ ↦ pure (pos 0)
      | file_dir ↦ pure (pos 0)
      | device_file_symlink _ ↦ pure (pos 0)
      | symlink _ ↦ pure (pos 0)
    ]
  | none ↦ pure (pos 0)
]
