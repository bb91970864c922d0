-- ===== src/Fuse/Calm.antt =====
-- Every call but the deletion of the canary leaves the processes that may not delete.
use supertag.Base.{ℕ, ◌≡◌, refl, ◌∙◌, Bool, true, false, none, Text}
use supertag.Cache.OpCache
use supertag.Cache.OpCache.{Maps, Request, check_delete_pid, add_rename_delete_entry}
use supertag.Fsops.{rm, rmdir, ln}
use supertag.Fsops.Move.{move_or_merge}
use supertag.Fuse.Calls.{
  Call, stats, lists, lists_common, reads_link, links, unlinks, creates, opens, makes_dir,
  removes_dir, renames, serve,
}
use supertag.Fuse.Canaries.{
  flush_readdir_cache-Leaves, flush_paths_tags-Leaves, clear_alias-Leaves, add_symlinks-Leaves,
  add_rename_delete_entry-Leaves,
}
use supertag.Fuse.Dirs.{make_dir, remove_tag_dir, delete_renamed, rename_or_delete, rename}
use supertag.Fuse.Env.{Env, or_refuse, io}
use supertag.Fuse.Errno.{shim, from_stag, enosys}
use supertag.Fuse.Flush.{flush_paths_tags}
use supertag.Fuse.Getattr.Tagdirs.{getattr}
use supertag.Fuse.Getattr.Whole.{getattr-Still}
use supertag.Fuse.Handlers.{readlink-Still, open_path-Still, create-Still, remove_tag_dir-Still}
use supertag.Fuse.Kept.{canaries, or_refuse-Still, io-Still}
use supertag.Fuse.Links.{
  readlink, make_symlink, stop_process, delete_link, unlink, unlink_canary, create, open_path,
  add_symlinks,
}
use supertag.Fuse.Lists.{readdir-Still, readdir_common-Still}
use supertag.Fuse.Readdir.{readdir, readdir_common}
use supertag.Fuse.State.{refuse, change, transact, committed, ◌>>=◌}
use supertag.Names.{get_filename, should_unlink}
use supertag.Paths.Joined.{ends_with_name}
use supertag.Tags.Collection
use supertag.Tags.Types.{TagType, regular, negation, group, file_dir, device_file_symlink, symlink}
use supertag.Fuse.Denied.{
  Calm, Calm-bind, Still-Calm, done_with-Calm, transact-Calm, committed-Calm,
}

-- A call that does not ask for the deletion of the canary
abbrev pub IsCalm : Call → Type 0
IsCalm (unlinks req path) = ends_with_name path unlink_canary ≡ false
IsCalm _ = Unit

module _ {F S R A U D : Type 0} (maps : Maps F S R A U D) (env : Env) (now ms : ℕ) where
  abbrev Cached : Type 0
  Cached = OpCache.OpCache S R A U D

  make_symlink-Calm :
      (req : Request) (src dst : Text) → Calm (make_symlink maps env now ms req src dst)
  unfolding make_symlink
  make_symlink-Calm req src dst =
      Calm-bind (io (env.canonicalize src)) _
        (Still-Calm (io (env.canonicalize src)) (io-Still (env.canonicalize src)))
        (λ abs_src.
          Calm-bind (or_refuse from_stag (get_filename abs_src)) _
            (Still-Calm (or_refuse from_stag (get_filename abs_src))
              (or_refuse-Still from_stag (get_filename abs_src)))
            (λ name.
              let above = (Collection.pop (Collection.new env.syms dst)).0 in
              let linking =
                ln env.engine env.syms env.host env.notifier abs_src
                  (Collection.join_path env.syms above) name req.uid req.gid
                  (record { bits = req.umask }) none now in
              Calm-bind (transact shim linking) _ (transact-Calm shim linking) (λ res w.
                flush_paths_tags-Leaves maps env.syms ms dst
                  (add_symlinks maps env now ms req dst res w.op_cache)
                ∙ add_symlinks-Leaves maps env ms now req dst res w.op_cache)))

  delete_link-Calm : (path : Text) → Calm (delete_link maps env now ms path)
  unfolding delete_link
  delete_link-Calm path =
      Calm-bind (transact from_stag (rm env.syms path now)) _ (transact-Calm from_stag _) (λ _ w.
        flush_readdir_cache-Leaves maps env.syms ms path _
        ∙ flush_paths_tags-Leaves maps env.syms ms path _
        ∙ clear_alias-Leaves maps env.syms ms path w.op_cache)

  unlink-Calm :
      (req : Request) (path : Text)
      → ends_with_name path unlink_canary ≡ false
      → Calm (unlink maps env now ms req path)
  unfolding unlink
  unlink-Calm req path h w = go (check_delete_pid maps w.op_cache req.pid ms) w
    where
      go :
          (denied : Bool)
          → Calm {C = Cached} {X = Unit {0}} (elim denied [
            | true ↦ refuse enosys
            | false ↦ elim (ends_with_name path unlink_canary) [
              | true ↦ stop_process maps env now ms req path
              | false ↦ delete_link maps env now ms path
            ]
          ])
      go true = λ v. refl
      go false = rw h (delete_link-Calm path)

  removed_link-Calm :
      (src : Text)
      → Calm {C = Cached} {X = Unit {0}} (
          transact from_stag (rm env.syms src now) >>= λ _.
          change (flush_paths_tags maps env.syms ms src))
  removed_link-Calm src =
      Calm-bind (transact from_stag (rm env.syms src now)) _ (transact-Calm from_stag _)
        (λ _ w. flush_paths_tags-Leaves maps env.syms ms src w.op_cache)

  removed_dir-Calm :
      (src dst : Text)
      → Calm {C = Cached} {X = Unit {0}} (
          transact from_stag (rmdir env.syms src now) >>= λ _.
          change (λ c. add_rename_delete_entry maps c dst ms))
  removed_dir-Calm src dst =
      Calm-bind (transact from_stag (rmdir env.syms src now)) _ (transact-Calm from_stag _)
        (λ _ w. add_rename_delete_entry-Leaves maps dst ms w.op_cache)

  delete_renamed-Calm :
      (src dst : Text) (t : TagType) → Calm (delete_renamed maps env now ms src dst t)
  unfolding delete_renamed
  delete_renamed-Calm src dst (device_file_symlink _) = removed_link-Calm src
  delete_renamed-Calm src dst (symlink _) = removed_link-Calm src
  delete_renamed-Calm src dst (regular _) = removed_dir-Calm src dst
  delete_renamed-Calm src dst (group _) = removed_dir-Calm src dst
  delete_renamed-Calm src dst (negation _) = λ w. refl
  delete_renamed-Calm src dst file_dir = λ w. refl

  rename_or_delete-Calm :
      (req : Request) (src dst name : Text)
      → Calm (rename_or_delete maps env now ms req src dst name)
  unfolding rename_or_delete
  rename_or_delete-Calm req src dst name = go (should_unlink name)
    where
      go :
          (deletes : Bool)
          → Calm {C = Cached} {X = Unit {0}} (elim deletes [
            | true ↦
                or_refuse from_stag (Collection.primary_type (Collection.new env.syms src)) >>= λ t.
                delete_renamed maps env now ms src dst t
            | false ↦ transact from_stag (
                move_or_merge env.engine env.syms env.notifier req.uid req.gid
                  (record { bits = req.umask })
                  now
                  src
                  dst)
          ])
      go true =
          let r = Collection.primary_type (Collection.new env.syms src) in
          Calm-bind (or_refuse from_stag r) _
            (Still-Calm (or_refuse from_stag r) (or_refuse-Still from_stag r))
            (delete_renamed-Calm src dst)
      go false = transact-Calm from_stag _

  rename-Calm : (req : Request) (src dst : Text) → Calm (rename maps env now ms req src dst)
  unfolding rename
  rename-Calm req src dst =
      Calm-bind (committed (env.commit ms) _) _
        (committed-Calm (env.commit ms) _ (
          Calm-bind (or_refuse from_stag (get_filename dst)) _
            (Still-Calm (or_refuse from_stag (get_filename dst))
              (or_refuse-Still from_stag (get_filename dst)))
            (rename_or_delete-Calm req src dst)))
        (λ _ w.
          flush_paths_tags-Leaves maps env.syms ms dst _
          ∙ flush_readdir_cache-Leaves maps env.syms ms dst _
          ∙ flush_readdir_cache-Leaves maps env.syms ms src w.op_cache)

  make_dir-Calm :
      (req : Request) (path : Text) (mode : ℕ) → Calm (make_dir maps env now ms req path mode)
  unfolding make_dir
  make_dir-Calm req path mode = transact-Calm shim _

  pub serve-Calm : (call : Call) → IsCalm call → Calm (serve maps env now ms call)
  unfolding serve
  serve-Calm (stats req path) h =
      done_with-Calm (getattr maps env now ms req path) (getattr-Still maps env now ms req path)
  serve-Calm (lists path) h =
      done_with-Calm (readdir maps env ms path) (readdir-Still maps env ms path)
  serve-Calm (lists_common path) h =
      done_with-Calm (readdir_common maps env ms path) (readdir_common-Still maps env ms path)
  serve-Calm (reads_link path) h =
      done_with-Calm (readlink maps env now ms path) (readlink-Still maps env now ms path)
  serve-Calm (links req src dst) h = make_symlink-Calm req src dst
  serve-Calm (unlinks req path) h = unlink-Calm req path h
  serve-Calm creates h = done_with-Calm (create maps env now ms) (create-Still maps env now ms)
  serve-Calm (opens path flags) h =
      done_with-Calm (open_path maps env now ms path flags)
        (open_path-Still maps env now ms path flags)
  serve-Calm (makes_dir req path mode) h = make_dir-Calm req path mode
  serve-Calm (removes_dir path) h =
      Still-Calm (remove_tag_dir maps env now ms path) (remove_tag_dir-Still maps env now ms path)
  serve-Calm (renames req src dst) h = rename-Calm req src dst
