-- ===== src/Db/Preserve/History.antt =====
-- Runs of transactions: whatever the calls and their arguments, the tables stay consistent.
use mathlib.Core.Path.{subst}
use supertag.Base.{ℕ, ◌≡◌, Bool, List, Option, Text}
use supertag.Db.Consistent.{IsConsistent}
use supertag.Db.Ensure.{ensure_tag}
use supertag.Db.Link.{add_file}
use supertag.Db.Monad.{Outcome, done}
use supertag.Db.Preserve.Anyhow.{
  Keeps, Ensures-of_Returns, add_file-Keeps, remove_devicefile-Keeps, remove_tag-Keeps,
  rename_file-Keeps, rename_tag-Keeps,
}
use supertag.Db.Preserve.Ensure.{ensure_tag_lem}
use supertag.Db.Preserve.Purge.{purge_devicefile_lem, purge_path_lem}
use supertag.Db.Remove.{remove_devicefile, remove_tag, purge_devicefile, purge_path}
use supertag.Db.Rename.{rename_tag, rename_file}
use supertag.Db.Store.{Db, Engine, IsFresh, migrate}
use supertag.Perms.Permissions.{Permissions}
use supertag.Perms.Umask.{UMask}
use supertag.Rows.{TaggedFile}
use supertag.Tags.Types.{DeviceFile}

-- One transaction that succeeds, with its result.
pub data Step (engine : Engine) : Db → Db → Type 0 where
  tag_ensured :
      {a b : Db} (tag : Text) (uid gid : ℕ) (permissions : Permissions) (now : ℕ) (r : Text × ℕ)
      → ensure_tag engine tag uid gid permissions now a ≡ done r b
      → Step engine a b
  file_added :
      {a b : Db} (device inode : ℕ) (path primary_tag : Text) (tags : List Text) (uid gid : ℕ)
      (umask : UMask) (now : ℕ) (alias_file : Option Text) (r : List TaggedFile)
      → add_file engine device inode path primary_tag tags uid gid umask now alias_file a ≡ done r b
      → Step engine a b
  file_removed :
      {a b : Db} (df : DeviceFile) (tags : List Text) (now : ℕ) (r : List ℕ)
      → remove_devicefile df tags now a ≡ done r b
      → Step engine a b
  file_purged :
      {a b : Db} (df : DeviceFile) (now : ℕ)
      → purge_devicefile df now a ≡ done tt b
      → Step engine a b
  path_purged :
      {a b : Db} (path : Text) (now : ℕ) → purge_path path now a ≡ done tt b → Step engine a b
  tag_removed :
      {a b : Db} (tag : Text) (now : ℕ) (immediate : Bool)
      → remove_tag tag now immediate a ≡ done tt b
      → Step engine a b
  tag_renamed :
      {a b : Db} (old new : Text) (now : ℕ) → rename_tag old new now a ≡ done tt b → Step engine a b
  file_renamed :
      {a b : Db} (df : DeviceFile) (name : Text) (now : ℕ)
      → rename_file df name now a ≡ done tt b
      → Step engine a b

-- What transactions make of the tables of a new database.
pub data Reaches (engine : Engine) : Db → Type 0 where
  created : (now : ℕ) → Reaches engine (migrate now)
  stepped : {a b : Db} → Reaches engine a → Step engine a b → Reaches engine b

holds : {E A : Type 0} (r : Outcome E A) (x : A) (b : Db) → r ≡ done x b → Keeps r → IsConsistent b
holds r x b e k = subst Keeps e k

module _ (engine : Engine) (fresh : IsFresh engine) where
  step-IsConsistent : {a b : Db} → Step engine a b → IsConsistent a → IsConsistent b
  step-IsConsistent {a} {b} (tag_ensured tag uid gid permissions now r e) c = holds _ r b e (
      Ensures-of_Returns _ _ (ensure_tag engine tag uid gid permissions now a)
        (λ _ d (k, _, _, _, _). k) (ensure_tag_lem engine fresh tag uid gid permissions now a c))
  step-IsConsistent {a} {b}
        (file_added device inode path primary_tag tags uid gid umask now alias_file r e) c =
      holds _ r b e (
        add_file-Keeps engine fresh device inode path primary_tag uid gid umask now alias_file tags
          a c)
  step-IsConsistent {a} {b} (file_removed df tags now r e) c =
      holds _ r b e (remove_devicefile-Keeps engine fresh df tags now a c)
  step-IsConsistent {a} {b} (file_purged df now e) c = holds _ tt b e (
      Ensures-of_Returns _ _ (purge_devicefile df now a) (λ _ d (k, _). k)
        (purge_devicefile_lem df now a c))
  step-IsConsistent {a} {b} (path_purged path now e) c = holds _ tt b e (
      Ensures-of_Returns _ _ (purge_path path now a) (λ _ d (k, _, _, _, _). k)
        (purge_path_lem path now a c))
  step-IsConsistent {a} {b} (tag_removed tag now immediate e) c =
      holds _ tt b e (remove_tag-Keeps engine fresh tag now immediate a c)
  step-IsConsistent {a} {b} (tag_renamed old new now e) c =
      holds _ tt b e (rename_tag-Keeps engine fresh old new now a c)
  step-IsConsistent {a} {b} (file_renamed df name now e) c =
      holds _ tt b e (rename_file-Keeps engine fresh df name now a c)

  migrate-IsConsistent : (now : ℕ) → IsConsistent (migrate now)
  unfolding migrate
  migrate-IsConsistent now = record {
    tag_ids = tt;
    tag_names = tt;
    file_ids = tt;
    file_nodes = tt;
    file_paths = tt;
    link_keys = tt;
    link_tags = tt;
    link_files = tt;
    tallies = tt;
  }

  -- With an engine that gives fresh ids, every database that `ensure_tag`, `add_file`,
  -- `remove_devicefile`, the two purges, `remove_tag`, `rename_tag` and `rename_file` make of a new one,
  -- in any order, with any arguments and with failures rolled back, is consistent: keys do not repeat,
  -- links lead to rows that exist, and `num_files` of every tag is the number of its links.
  pub Reaches-IsConsistent : (db : Db) → Reaches engine db → IsConsistent db
  Reaches-IsConsistent _ (created now) = migrate-IsConsistent now
  Reaches-IsConsistent _ (stepped {a} {b} r s) = step-IsConsistent s (Reaches-IsConsistent a r)
