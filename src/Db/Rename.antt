-- ===== src/Db/Rename.antt =====
-- The operations that rename tags, groups and files.
use supertag.Base.{ℕ, not, ◌&&◌, Text, text_eq, find, update}
use supertag.Base.Unique.{is_some}
use supertag.Db.Lookup.{
  named, group_named, at_inode, update_tag_mtime, update_tag_group_mtime, update_root_mtime,
}
use supertag.Db.Monad.{Sql, gets, modify, fail_if, ◌>>=◌, ◌>>◌}
use supertag.Errors.{constraint_violation}
use supertag.Tags.Types.{DeviceFile}

-- The update fails if another row has the new name.
unfoldable pub rename_tag : Text → Text → ℕ → Sql (Unit {0})
rename_tag old_tag new_tag now = do
  clash ← gets (λ db.
      is_some (find (named old_tag) db.tags)
      && is_some (find (named new_tag) db.tags)
      && not (text_eq old_tag new_tag))
  fail_if clash constraint_violation
  modify (λ db. record db {
    tags = update (named old_tag) (λ t. record t { tag_name = new_tag }) db.tags;
  })
  update_tag_mtime new_tag now
  update_root_mtime now

unfoldable pub rename_tag_group : Text → Text → ℕ → Sql (Unit {0})
rename_tag_group old_name new_name now = do
  clash ← gets (λ db.
      is_some (find (group_named old_name) db.tag_groups)
      && is_some (find (group_named new_name) db.tag_groups)
      && not (text_eq old_name new_name))
  fail_if clash constraint_violation
  modify (λ db. record db {
    tag_groups = update (group_named old_name) (λ g. record g { name = new_name }) db.tag_groups;
  })
  update_tag_group_mtime new_name now
  update_root_mtime now

unfoldable pub rename_file : DeviceFile → Text → ℕ → Sql (Unit {0})
rename_file device_file new_name now = do
  modify (λ db. record db {
    files =
        update (at_inode device_file.device device_file.inode)
          (λ f. record f { primary_tag = new_name; mtime = now }) db.files;
  })
  update_root_mtime now
