-- ===== src/Db/Select/Groups.antt =====
-- The queries for tag groups and their tags.
use supertag.Base.{
  ℕ, ◌+◌, Bool, true, ◌&&◌, List, [], ◌∷◌, map, Option, none, some, Text, find, select, mem, nat_eq,
  chars_eq, ◌==◌, if◌then◌else◌,
}
use supertag.Base.Order.{order_by}
use supertag.Base.Unique.{is_some}
use supertag.Db.Lookup.{to_tag, group_named}
use supertag.Db.Monad.{Sql, pure, gets, ◌>>=◌}
use supertag.Db.Query.{tag_names_for_tag_group}
use supertag.Db.Select.Tags.{intersect_tag, num_files_for_intersection}
use supertag.Db.Store.{Db, GroupRow, GroupTagRow}
use supertag.Perms.Permissions
use supertag.Rows.{Tag, TagGroup}
use supertag.Rows.Int.{ℤ, pos}
use supertag.Tags.Types.{TagType}

-- `to_tag_group`, with what `GROUP_CONCAT` joins and `split` parts again as a list
unfoldable pub to_tag_group : GroupRow → List GroupTagRow → TagGroup
to_tag_group g members = record {
  id = g.id;
  name = g.name;
  mtime = g.mtime;
  uid = g.uid;
  gid = g.gid;
  permissions = Permissions.from_mode g.permissions;
  tag_ids = map (λ r. r.tag_id) members;
  num_files = pos 0;
}

abbrev pub members_of : Db → GroupRow → List GroupTagRow
members_of db g = select (λ r. r.tg_id == g.id) db.tag_group_tag

abbrev pub with_members : GroupRow → List GroupTagRow → List TagGroup → List TagGroup
with_members g [] rest = rest
with_members g (r ∷ members) rest = to_tag_group g (r ∷ members) ∷ rest

-- A condition on the joined row, which drops the groups that have none.
unfoldable pub groups_where :
    (GroupTagRow → Bool) → List GroupTagRow → List GroupRow → List TagGroup
unfolding to_tag_group
groups_where p members [] = []
groups_where p members (g ∷ groups) =
    with_members g (select (λ r. r.tg_id == g.id && p r) members) (groups_where p members groups)

unfoldable pub get_tags_in_tag_group : Text → Sql (List Tag)
unfolding to_tag
get_tags_in_tag_group name = gets (λ db.
    let groups = map (λ g. g.id) (select (group_named name) db.tag_groups) in
    let ids = map (λ r. r.tag_id) (select (λ r. mem r.tg_id groups) db.tag_group_tag) in
    map to_tag (select (λ t. mem t.id ids) db.tags))

unfoldable pub get_tag_group : Text → Sql (Option TagGroup)
unfolding to_tag_group
get_tag_group name = gets (λ db. elim (find (group_named name) db.tag_groups) [
  | none ↦ none
  | some g ↦ some (to_tag_group g (members_of db g))
])

abbrev pub first_group : List TagGroup → Option TagGroup
first_group [] = none
first_group (g ∷ groups) = some g

-- `WHERE tgt.tg_id=?1`: the condition is on the joined row.
unfoldable pub get_tag_group_by_id : ℕ → Sql (Option TagGroup)
unfolding groups_where
get_tag_group_by_id id =
    gets (λ db. first_group (groups_where (λ r. r.tg_id == id) db.tag_group_tag db.tag_groups))

unfoldable pub get_all_tag_groups : Sql (List TagGroup)
unfolding to_tag_group
get_all_tag_groups =
    gets (λ db. order_by (λ g. g.name) (map (λ g. to_tag_group g (members_of db g)) db.tag_groups))

unfoldable pub tag_groups_for_tag : ℕ → Sql (List TagGroup)
unfolding groups_where
tag_groups_for_tag tag_id =
    gets (λ db. groups_where (λ r. r.tag_id == tag_id) db.tag_group_tag db.tag_groups)

unfoldable pub tag_groups_for_tags : List ℕ → Sql (List TagGroup)
unfolding groups_where
tag_groups_for_tags [] = pure []
tag_groups_for_tags (tag_id ∷ tag_ids) =
    gets (λ db. groups_where (λ r. mem r.tag_id (tag_id ∷ tag_ids)) db.tag_group_tag db.tag_groups)

-- `COUNT(DISTINCT …)`
unfoldable pub count_distinct : List ℕ → ℕ
count_distinct [] = 0
count_distinct (i ∷ is) = let rest = count_distinct is in if mem i is then rest else 1 + rest

unfoldable pub num_files_for_tag_group : Text → Sql ℤ
unfolding count_distinct
num_files_for_tag_group tg = do
  tags ← get_tags_in_tag_group tg
  gets (λ db. pos (
      count_distinct (
        map (λ r. r.file_id)
          (select
            (λ r.
              is_some (find (λ f. f.id == r.file_id) db.files)
              && mem r.tag_id (map (λ t. t.id) tags))
            db.file_tag))))

-- The order of the groups is that of a `HashSet` in the source.
unfoldable pub tag_group_intersections : List TagType → Sql (List TagGroup)
tag_group_intersections tags = do
  itags ← intersect_tag tags true
  sum_tag_files ← num_files_for_intersection tags
  groups ← tag_groups_for_tags (map (λ t. t.id) itags)
  pure (map (λ (tg : TagGroup). record tg { num_files = sum_tag_files }) groups)

unfoldable pub tag_is_in_group : Text → Text → Sql Bool
unfolding tag_names_for_tag_group
tag_is_in_group group tag = gets (λ db. mem tag (tag_names_for_tag_group db group))
