-- ===== src/Fuse/Dirs.antt =====
-- fuse/fs/mod.rs: the handlers of directories, and `rename` and `statfs`, on Linux.
use supertag.Base.{ℕ, true, false, Text}
use supertag.Cache.OpCache
use supertag.Cache.OpCache.{Maps, Request, add_rename_delete_entry}
use supertag.Fsops.{mkdir, rm, rmdir}
use supertag.Fsops.Move.{move_or_merge}
use supertag.Fuse.Env.{Env, or_refuse, notified}
use supertag.Fuse.Errno.{eio, enosys, shim, from_stag}
use supertag.Fuse.Flush.{flush_paths_tags, flush_readdir_cache, is_filedir}
use supertag.Fuse.State.{Fuse, answer, refuse, change, committed, transact, ◌>>=◌, ◌>>◌}
use supertag.Names.{get_filename, should_unlink}
use supertag.Perms.Permissions
use supertag.Tags.Collection
use supertag.Tags.Types.{TagType, regular, group, device_file_symlink, symlink}

module _ {F S R A U D : Type 0} (maps : Maps F S R A U D) (env : Env) (now ms : ℕ) where
  abbrev Handler : Type 0 → Type 0
  Handler X = Fuse (OpCache.OpCache S R A U D) X

  unfoldable pub make_dir : Request → Text → ℕ → Handler (Unit {0})
  make_dir req path mode =
      transact shim
        (mkdir env.engine env.syms path req.uid req.gid (Permissions.from_mode mode) now)

  -- Only the directory of files can be removed, which does nothing.
  unfoldable pub remove_tag_dir : Text → Handler (Unit {0})
  remove_tag_dir path = do
    pt ← or_refuse from_stag (Collection.primary_type (Collection.new env.syms path))
    elim (is_filedir pt) [
      | true ↦ answer tt
      | false ↦ do notified (env.notifier.unlink (env.abs_mountpoint path)); refuse enosys
    ]

  -- A rename to `delete`: the cache is changed before the commit.
  unfoldable pub delete_renamed : Text → Text → TagType → Handler (Unit {0})
  delete_renamed src dst (device_file_symlink _) = do
    _ ← transact from_stag (rm env.syms src now)
    change (flush_paths_tags maps env.syms ms src)
  delete_renamed src dst (symlink _) = do
    _ ← transact from_stag (rm env.syms src now)
    change (flush_paths_tags maps env.syms ms src)
  delete_renamed src dst (regular _) = do
    transact from_stag (rmdir env.syms src now)
    change (λ c. add_rename_delete_entry maps c dst ms)
  delete_renamed src dst (group _) = do
    transact from_stag (rmdir env.syms src now)
    change (λ c. add_rename_delete_entry maps c dst ms)
  delete_renamed src dst _ = refuse eio

  unfoldable pub rename_or_delete : Request → Text → Text → Text → Handler (Unit {0})
  unfolding delete_renamed
  rename_or_delete req src dst dst_name = elim (should_unlink dst_name) [
    | true ↦ do
      pt ← or_refuse from_stag (Collection.primary_type (Collection.new env.syms src))
      delete_renamed src dst pt
    | false ↦ transact from_stag (
        move_or_merge env.engine env.syms env.notifier req.uid req.gid (record { bits = req.umask })
          now src dst)
  ]

  unfoldable pub rename : Request → Text → Text → Handler (Unit {0})
  unfolding rename_or_delete
  rename req src dst = do
    committed (env.commit ms) (do
      dst_name ← or_refuse from_stag (get_filename dst)
      rename_or_delete req src dst dst_name)
    change (flush_readdir_cache maps env.syms ms src)
    change (flush_readdir_cache maps env.syms ms dst)
    change (flush_paths_tags maps env.syms ms dst)

-- `statvfs`: what `statfs` fills in
pub record Statvfs : Type 0 where
  pub bsize : ℕ
  pub frsize : ℕ
  pub blocks : ℕ
  pub bfree : ℕ
  pub bavail : ℕ
  pub files : ℕ
  pub ffree : ℕ
  pub favail : ℕ

-- 100 GB in blocks of 4 KB
unfoldable pub statfs : Statvfs
statfs = record {
  bsize = 4096;
  frsize = 4096;
  blocks = 26214400;
  bfree = 26214400;
  bavail = 26214400;
  files = 100;
  ffree = 10000;
  favail = 10000;
}
