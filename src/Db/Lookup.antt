-- ===== src/Db/Lookup.antt =====
-- The queries for single tags, groups and files, and the updates of modification times.
use supertag.Base.{ℕ, Bool, ◌&&◌, Option, none, some, Text, ◌==◌, text_eq, find, update}
use supertag.Base.Unique.{is_some}
use supertag.Db.Monad.{Sql, gets, modify}
use supertag.Db.Store.{Db, FileRow, TagRow, GroupRow}
use supertag.Perms.Permissions
use supertag.Rows.{Tag}

abbrev pub named : Text → TagRow → Bool
named name t = text_eq t.tag_name name

abbrev pub group_named : Text → GroupRow → Bool
group_named name g = text_eq g.name name

abbrev pub at_inode : ℕ → ℕ → FileRow → Bool
at_inode device inode f = f.device == device && f.inode == inode

-- `(SELECT id FROM tags WHERE tag_name=?)`, `get_tag_id`
unfoldable pub get_tag_id : Db → Text → Option ℕ
get_tag_id db name = elim (find (named name) db.tags) [ none ↦ none | some t ↦ some t.id ]

unfoldable pub get_tag_group_id : Db → Text → Option ℕ
get_tag_group_id db name = elim (find (group_named name) db.tag_groups) [
  | none ↦ none
  | some g ↦ some g.id
]

unfoldable pub file_id_at : Db → ℕ → ℕ → Option ℕ
file_id_at db device inode = elim (find (at_inode device inode) db.files) [
  | none ↦ none
  | some f ↦ some f.id
]

unfoldable pub tag_exists : Db → Text → Bool
tag_exists db name = is_some (find (named name) db.tags)

unfoldable pub tag_group_exists : Db → Text → Bool
tag_group_exists db name = is_some (find (group_named name) db.tag_groups)

-- `to_tag`
unfoldable pub to_tag : TagRow → Tag
to_tag t = record {
  id = t.id;
  name = t.tag_name;
  mtime = t.mtime;
  uid = t.uid;
  gid = t.gid;
  permissions = Permissions.from_mode t.permissions;
  num_files = t.num_files;
}

unfoldable pub get_tag : Db → Text → Option Tag
unfolding to_tag
get_tag db name = elim (find (named name) db.tags) [ none ↦ none | some t ↦ some (to_tag t) ]

unfoldable pub get_tag_by_id : Db → ℕ → Option Tag
unfolding to_tag
get_tag_by_id db id = elim (find (λ t. t.id == id) db.tags) [
  | none ↦ none
  | some t ↦ some (to_tag t)
]

unfoldable pub update_tag_mtime : Text → ℕ → Sql (Unit {0})
update_tag_mtime tag now =
    modify (λ db. record db { tags = update (named tag) (λ t. record t { mtime = now }) db.tags })

unfoldable pub update_tag_group_mtime : Text → ℕ → Sql (Unit {0})
update_tag_group_mtime name now = modify (λ db. record db {
  tag_groups = update (group_named name) (λ g. record g { mtime = now }) db.tag_groups;
})

unfoldable pub update_root_mtime : ℕ → Sql (Unit {0})
update_root_mtime now = modify (λ db. record db { root_mtime = now })

-- The row of `supertag_meta` is there from the migration on.
unfoldable pub get_root_mtime : Sql ℕ
get_root_mtime = gets (λ db. db.root_mtime)
