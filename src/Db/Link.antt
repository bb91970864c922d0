-- ===== src/Db/Link.antt =====
-- `link_file_to_tag` and `add_file`.
use supertag.Base.{
  ℕ, Bool, true, false, ◌&&◌, ◌||◌, List, [], ◌∷◌, ◌++◌, map, Option, none, some, Text, ◌==◌, find,
  update, mem, text_eq, nat_eq, pair_eq, chars_eq,
}
use supertag.Db.Ensure.{ensure_tag}
use supertag.Base.Unique.{is_some}
use supertag.Db.Lookup.{
  named, at_inode, file_id_at, get_tag_id, update_tag_mtime, update_root_mtime,
}
use supertag.Db.Monad.{Sql, pure, gets, modify, fail_if, or_fail, ◌>>=◌, ◌>>◌}
use supertag.Db.Store.{Db, FileTagRow, Engine}
use supertag.Errors.{constraint_violation}
use supertag.Perms.Permissions
use supertag.Perms.Permissions.{Permissions}
use supertag.Perms.Umask
use supertag.Perms.Umask.{UMask}
use supertag.Rows.{TaggedFile}
use supertag.Rows.Int.{◌+ℤ◌}

-- The key of a row of `file_tag`.
abbrev pub link_key : FileTagRow → ℕ × ℕ
link_key r = (r.file_id, r.tag_id)

-- A row of the join of `file_tag` with `files` and `tags` that names this file and tag.
unfoldable pub joins : Db → ℕ → ℕ → Text → FileTagRow → Bool
joins db device inode tag r =
    is_some (find (λ f. f.id == r.file_id && at_inode device inode f) db.files)
    && is_some (find (λ t. t.id == r.tag_id && named tag t) db.tags)

unfoldable pub count_up : Text → Sql (Unit {0})
count_up tag = modify (λ db. record db {
  tags = update (named tag) (λ t. record t { num_files = t.num_files +ℤ 1 }) db.tags;
})

module _ (engine : Engine) where
  -- `INSERT INTO file_tag`: a subquery without a row gives NULL, which the columns refuse, and the
  -- pair is the primary key.
  unfoldable pub insert_link : ℕ → ℕ → Text → ℕ → ℕ → Permissions → ℕ → Sql (Unit {0})
  insert_link device inode tag uid gid permissions now = do
    maybe_file ← gets (λ db. file_id_at db device inode)
    maybe_tag ← gets (λ db. get_tag_id db tag)
    file_id ← or_fail maybe_file constraint_violation
    tag_id ← or_fail maybe_tag constraint_violation
    taken ← gets (λ db. mem (file_id, tag_id) (map link_key db.file_tag))
    fail_if taken constraint_violation
    modify (λ db. record db {
      file_tag =
          db.file_tag
          ++ record {
            rowid = engine.new_id (map (λ r. r.rowid) db.file_tag);
            file_id = file_id;
            tag_id = tag_id;
            ts = now;
            mtime = now;
            uid = uid;
            gid = gid;
            permissions = Permissions.mode permissions;
          }
            ∷ [];
    })

  unfoldable pub link_file_to_tag : ℕ → ℕ → Text → ℕ → ℕ → Permissions → ℕ → Sql (Unit {0})
  link_file_to_tag device inode tag uid gid permissions now = do
    maybe_row ← gets (λ db. find (joins db device inode tag) db.file_tag)
    elim maybe_row [
      | some _ ↦ pure tt
      | none ↦ do count_up tag; insert_link device inode tag uid gid permissions now
    ]
    update_tag_mtime tag now
    update_root_mtime now

  -- `INSERT OR IGNORE INTO files`: a row with this path, or this device and inode, stays.
  unfoldable pub insert_file : ℕ → ℕ → Text → Text → ℕ → Option Text → Sql (Unit {0})
  insert_file device inode path primary_tag now alias_file = do
    taken ←
        gets (λ db. is_some (find (λ f. at_inode device inode f || text_eq f.path path) db.files))
    elim taken [
      | true ↦ pure tt
      | false ↦ modify (λ db. record db {
        files =
            db.files
            ++ record {
              id = engine.new_id (map (λ f. f.id) db.files);
              device = device;
              inode = inode;
              path = path;
              primary_tag = primary_tag;
              ts = now;
              mtime = now;
              alias_file = alias_file;
            }
              ∷ [];
      })
    ]

  -- The loop over the tags; it returns one `TaggedFile` for each.
  unfoldable pub link_tags :
      ℕ → ℕ → Text → Text → ℕ → ℕ → UMask → ℕ → Option Text → List Text → Sql (List TaggedFile)
  link_tags device inode path primary_tag uid gid umask now alias_file [] = pure []
  link_tags device inode path primary_tag uid gid umask now alias_file (tag ∷ tags) = do
    (auth_tag, _) ← ensure_tag engine tag uid gid (Umask.dir_perms umask) now
    link_file_to_tag device inode auth_tag uid gid (Umask.file_perms umask) now
    tagged ← link_tags device inode path primary_tag uid gid umask now alias_file tags
    pure (
        record {
          id = 0;
          inode = inode;
          device = device;
          path = path;
          primary_tag = primary_tag;
          mtime = now;
          uid = uid;
          gid = gid;
          permissions = Umask.file_perms umask;
          alias_file = alias_file;
        }
        ∷ tagged)

  unfoldable pub add_file :
      ℕ → ℕ → Text → Text → List Text → ℕ → ℕ → UMask → ℕ → Option Text → Sql (List TaggedFile)
  add_file device inode path primary_tag tags uid gid umask now alias_file = do
    insert_file device inode path primary_tag now alias_file
    tagged ← link_tags device inode path primary_tag uid gid umask now alias_file tags
    update_root_mtime now
    pure tagged
