-- ===== src/Db/Select/Files.antt =====
-- `files_tagged_with` and `contains_file`: the files of a path.
use supertag.Base.{
  ℕ, Bool, true, false, ◌&&◌, List, [], ◌∷◌, Option, length, ltb, find, select, ◌==◌, nat_eq,
  if◌then◌else◌,
}
use supertag.Base.Order.{order_by}
use supertag.Base.Unique.{is_some}
use supertag.Db.Monad.{Sql, pure, gets, fail_if, ◌>>=◌, ◌>>◌}
use supertag.Db.Query
use supertag.Db.Query.{intersection, except, nothing, intersection_subquery}
use supertag.Db.Query.Meaning.{selects}
use supertag.Db.Store.{Db, FileRow, TagRow, FileTagRow}
use supertag.Errors.{other_failure}
use supertag.Perms.Permissions
use supertag.Rows.{TaggedFile}
use supertag.Tags.Types.{TagType}

-- The rows of `file_tag` that the joins with `files` and `tags` pair with the file.
unfoldable pub links_of : List TagRow → ℕ → List FileTagRow → List FileTagRow
links_of tags file_id links =
    select (λ r. r.file_id == file_id && is_some (find (λ t. t.id == r.tag_id) tags)) links

-- `MAX(mtime)`: the other columns of the group are those of the row that has the maximum.
abbrev pub latest : FileTagRow → List FileTagRow → FileTagRow
latest r [] = r
latest r (s ∷ rows) = latest (if ltb r.mtime s.mtime then s else r) rows

-- `to_taggedfile`
abbrev pub to_taggedfile : FileRow → FileTagRow → TaggedFile
to_taggedfile f r = record {
  id = f.id;
  inode = f.inode;
  device = f.device;
  path = f.path;
  primary_tag = f.primary_tag;
  mtime = r.mtime;
  uid = r.uid;
  gid = r.gid;
  permissions = Permissions.from_mode r.permissions;
  alias_file = f.alias_file;
}

-- The row that `GROUP BY files.id` makes of the links of a file, if there are any.
abbrev pub group_links : FileRow → List FileTagRow → List TaggedFile → List TaggedFile
group_links f [] rest = rest
group_links f (r ∷ links) rest = to_taggedfile f (latest r links) ∷ rest

unfoldable pub tagged_rows : Db → (ℕ → Bool) → List FileRow → List TaggedFile
unfolding links_of
tagged_rows db wanted [] = []
tagged_rows db wanted (f ∷ files) =
    let rest = tagged_rows db wanted files in
    if wanted f.id then group_links f (links_of db.tags f.id db.file_tag) rest else rest

-- A subquery without parameters, for which others are bound: an error of the statement.
abbrev pub is_nothing : Query.Query → Bool
is_nothing nothing = true
is_nothing (intersection _) = false
is_nothing (except _ _) = false

unfoldable pub files_tagged_with : List TagType → Sql (List TaggedFile)
unfolding tagged_rows
files_tagged_with tags = do
  (query, params) ← gets (λ db. intersection_subquery db tags 0)
  fail_if (is_nothing query) other_failure
  gets (λ db.
      order_by (λ tf. tf.primary_tag)
        (tagged_rows db (λ file_id. selects db params file_id query) db.files))

unfoldable pub contains_file : List TagType → (TaggedFile → Bool) → Sql (Option TaggedFile)
contains_file tags pred = do ifiles ← files_tagged_with tags; pure (find pred ifiles)

unfoldable pub get_num_files : List TagType → Sql ℕ
get_num_files tags = do files ← files_tagged_with tags; pure (length files)
