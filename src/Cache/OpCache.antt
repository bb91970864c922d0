-- ===== src/Cache/OpCache.antt =====
-- `OpCache`: five expiring maps. A path stands for itself as a key.
use supertag.Base.{ℕ, ◌*◌, Bool, Option, Text}
use supertag.Base.Unique.{is_some}
use supertag.Cache.Alias.{Alias}
use supertag.Cache.Ttl.{Ttl}
use supertag.Rows.{TaggedFile, Tag, TagGroup}

abbrev pub symlink_expire_ms : ℕ
symlink_expire_ms = 500

abbrev pub unlink_expire_ms : ℕ
unlink_expire_ms = 2000

abbrev pub readdir_expire_s : ℕ
readdir_expire_s = 1

-- `Duration::from_secs`, in milliseconds
abbrev pub from_secs : ℕ → ℕ
from_secs s = s * 1000

-- `fuse_sys::Request`
pub record Request : Type 0 where
  pub uid : ℕ
  pub gid : ℕ
  pub pid : ℕ
  pub umask : ℕ

pub record SymlinkRequest : Type 0 where
  pub req : Request
  pub path : Text

pub data ReaddirCacheEntry : Type 0 where
  file : TaggedFile → ReaddirCacheEntry
  tag : Tag → ReaddirCacheEntry
  tag_group : TagGroup → ReaddirCacheEntry

-- The crate's map at each of the five types.
pub record Maps (F S R A U D : Type 0) : Type 0 where
  pub symlinks : Ttl SymlinkRequest TaggedFile S
  pub readdirs : Ttl Text ReaddirCacheEntry R
  pub aliases : Ttl Text (Alias F) A
  pub canaries : Ttl ℕ (Unit {0}) U
  pub deletes : Ttl Text (Unit {0}) D

pub record OpCache (S R A U D : Type 0) : Type 0 where
  pub symlink_cache : S
  pub readdir_cache : R
  pub alias_cache : A
  pub unlink_canary_cache : U
  pub rename_delete_cache : D

module _ {F S R A U D : Type 0} (maps : Maps F S R A U D) where
  unfoldable pub new : OpCache S R A U D
  new = record {
    symlink_cache = maps.symlinks.empty 10000;
    readdir_cache = maps.readdirs.empty 100000;
    alias_cache = maps.aliases.empty 10000;
    unlink_canary_cache = maps.canaries.empty 100000;
    rename_delete_cache = maps.deletes.empty 100000;
  }

  unfoldable pub check_alias_entry : OpCache S R A U D → Text → ℕ → Option (Alias F)
  check_alias_entry c path now = maps.aliases.get c.alias_cache path now

  unfoldable pub add_deny_delete_pid : OpCache S R A U D → ℕ → ℕ → OpCache S R A U D
  add_deny_delete_pid c pid now =
      let ttl = from_secs unlink_expire_ms in
      record c { unlink_canary_cache = maps.canaries.insert c.unlink_canary_cache pid tt ttl now }

  unfoldable pub check_delete_pid : OpCache S R A U D → ℕ → ℕ → Bool
  check_delete_pid c pid now = is_some (maps.canaries.get c.unlink_canary_cache pid now)

  unfoldable pub add_readdir_entry :
      OpCache S R A U D → Text → ReaddirCacheEntry → ℕ → OpCache S R A U D
  add_readdir_entry c path entry now =
      let ttl = from_secs readdir_expire_s in
      record c { readdir_cache = maps.readdirs.insert c.readdir_cache path entry ttl now }

  unfoldable pub check_readdir_entry : OpCache S R A U D → Text → ℕ → Option ReaddirCacheEntry
  check_readdir_entry c path now = maps.readdirs.get c.readdir_cache path now

  unfoldable pub clear_readdir_entry :
      OpCache S R A U D → Text → ℕ → OpCache S R A U D × Option ReaddirCacheEntry
  clear_readdir_entry c path now =
      let (m, maybe_entry) = maps.readdirs.remove c.readdir_cache path now in
      (record c { readdir_cache = m }, maybe_entry)

  unfoldable pub add_symlink :
      OpCache S R A U D → Request → Text → TaggedFile → ℕ → OpCache S R A U D
  add_symlink c req path tagged_file now = record c {
    symlink_cache =
        maps.symlinks.insert c.symlink_cache (record { req = req; path = path }) tagged_file
          symlink_expire_ms now;
  }

  unfoldable pub consume_symlink :
      OpCache S R A U D → Request → Text → ℕ → OpCache S R A U D × Option TaggedFile
  consume_symlink c req path now =
      let (m, v) = maps.symlinks.remove c.symlink_cache (record { req = req; path = path }) now in
      (record c { symlink_cache = m }, v)

  unfoldable pub add_rename_delete_entry : OpCache S R A U D → Text → ℕ → OpCache S R A U D
  add_rename_delete_entry c path now = record c {
    rename_delete_cache = maps.deletes.insert c.rename_delete_cache path tt symlink_expire_ms now;
  }

  unfoldable pub consume_rename_delete : OpCache S R A U D → Text → ℕ → OpCache S R A U D × Bool
  consume_rename_delete c path now =
      let (m, v) = maps.deletes.remove c.rename_delete_cache path now in
      (record c { rename_delete_cache = m }, is_some v)
