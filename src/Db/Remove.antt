-- ===== src/Db/Remove.antt =====
-- The operations that take files, tags and links away; deletions cascade as the schema says.
use supertag.Base.{
  ℕ, Bool, true, false, ◌&&◌, List, [], ◌∷◌, ◌++◌, map, Option, none, some, Text, ◌==◌, length,
  text_eq, select, update, delete, mem, nat_eq,
}
use supertag.Db.Lookup.{named, group_named, at_inode, file_id_at, get_tag_id, update_root_mtime}
use supertag.Db.Monad.{Sql, pure, gets, modify, fail, or_fail, ◌>>=◌, ◌>>◌}
use supertag.Db.Store.{FileRow, TagRow, FileTagRow}
use supertag.Errors.{query_returned_no_rows, other_failure}
use supertag.Rows.Int.{◌-ℤ◌}
use supertag.Tags.Types.{DeviceFile}

-- `DELETE FROM files`, with `ON DELETE CASCADE` on `file_tag.file_id`
unfoldable pub delete_files : (FileRow → Bool) → Sql (Unit {0})
delete_files p = modify (λ db.
    let gone = map (λ f. f.id) (select p db.files) in
    record db {
      files = delete p db.files;
      file_tag = delete (λ r. mem r.file_id gone) db.file_tag;
    })

-- `num_files=num_files-1` for the tags of the files that `p` selects
unfoldable pub count_down : (FileRow → Bool) → Sql (Unit {0})
count_down p = modify (λ db.
    let ids = map (λ f. f.id) (select p db.files) in
    let tag_ids = map (λ r. r.tag_id) (select (λ r. mem r.file_id ids) db.file_tag) in
    record db {
      tags =
          update (λ t. mem t.id tag_ids) (λ t. record t { num_files = t.num_files -ℤ 1 }) db.tags;
    })

unfoldable pub purge_devicefile : DeviceFile → ℕ → Sql (Unit {0})
purge_devicefile df now = do
  count_down (at_inode df.device df.inode)
  delete_files (at_inode df.device df.inode)
  update_root_mtime now

unfoldable pub purge_path : Text → ℕ → Sql (Unit {0})
purge_path path now = do
  count_down (λ f. text_eq f.path path)
  delete_files (λ f. text_eq f.path path)
  update_root_mtime now

-- `file_id=?1 AND tag_id=(SELECT id FROM tags WHERE tag_name=?2)`
abbrev pub is_link : ℕ → Option ℕ → FileTagRow → Bool
is_link file_id none r = false
is_link file_id (some tag_id) r = r.file_id == file_id && r.tag_id == tag_id

abbrev pub is_nil {ℓ} : {A : Type ℓ} → List A → Bool
is_nil [] = true
is_nil (_ ∷ _) = false

-- One round of the loops of `remove_devicefile` and `remove_links`: the row ids that went.
unfoldable pub unlink_tag : ℕ → Text → Sql (List ℕ)
unlink_tag file_id tag = do
  link ← gets (λ db. is_link file_id (get_tag_id db tag))
  removed_ids ← gets (λ db. map (λ r. r.rowid) (select link db.file_tag))
  modify (λ db. record db { file_tag = delete link db.file_tag })
  elim (is_nil removed_ids) [
    | true ↦ pure tt
    | false ↦ modify (λ db. record db {
      tags =
          update (named tag) (λ t. record t { num_files = t.num_files -ℤ length removed_ids })
            db.tags;
    })
  ]
  pure removed_ids

unfoldable pub unlink_tags : ℕ → List Text → Sql (List ℕ)
unlink_tags file_id [] = pure []
unlink_tags file_id (tag ∷ tags) = do
  removed_ids ← unlink_tag file_id tag
  rest ← unlink_tags file_id tags
  pure (removed_ids ++ rest)

unfoldable pub remove_devicefile : DeviceFile → List Text → ℕ → Sql (List ℕ)
remove_devicefile device_file tags now = do
  maybe_file ← gets (λ db. file_id_at db device_file.device device_file.inode)
  file_id ← or_fail maybe_file query_returned_no_rows
  all_removed_ids ← unlink_tags file_id tags
  update_root_mtime now
  pure all_removed_ids

-- `DELETE FROM tags`: links and group memberships cascade.
unfoldable pub delete_tags : (TagRow → Bool) → Sql (Unit {0})
delete_tags p = modify (λ db.
    let gone = map (λ t. t.id) (select p db.tags) in
    record db {
      tags = delete p db.tags;
      file_tag = delete (λ r. mem r.tag_id gone) db.file_tag;
      tag_group_tag = delete (λ r. mem r.tag_id gone) db.tag_group_tag;
    })

-- Without `immediate` the first statement sets the column `rm_time`, which no migration creates.
unfoldable pub remove_tag : Text → ℕ → Bool → Sql (Unit {0})
remove_tag tag now true = do delete_tags (named tag); update_root_mtime now
remove_tag tag now false = fail other_failure

unfoldable pub remove_taggroup : Text → Sql (Unit {0})
remove_taggroup group = modify (λ db.
    let gone = map (λ g. g.id) (select (group_named group) db.tag_groups) in
    record db {
      tag_groups = delete (group_named group) db.tag_groups;
      tag_group_tag = delete (λ r. mem r.tg_id gone) db.tag_group_tag;
    })
