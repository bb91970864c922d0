-- ===== src/Fuse/Serves.antt =====
-- What a call keeps of the tables, from what the transactions keep.
use supertag.Base.{ℕ, refl, Bool, true, false, none, Text}
use supertag.Cache.OpCache
use supertag.Cache.OpCache.{Maps, Request, check_delete_pid, add_rename_delete_entry}
use supertag.Db.Monad.{STag, Ensures}
use supertag.Db.Store.{Db}
use supertag.Fsops.{mkdir, rm, rmdir, ln}
use supertag.Fsops.Move.{move_or_merge}
use supertag.Fuse.Calls.{
  Call, done_with, stats, lists, lists_common, reads_link, links, unlinks, creates, opens,
  makes_dir, removes_dir, renames, serve,
}
use supertag.Fuse.Dirs.{make_dir, remove_tag_dir, delete_renamed, rename_or_delete, rename}
use supertag.Fuse.Env.{Env, or_refuse, io, notified}
use supertag.Fuse.Errno.{shim, from_stag, enosys}
use supertag.Fuse.Flush.{flush_paths_tags}
use supertag.Fuse.Getattr.Tagdirs.{getattr}
use supertag.Fuse.Getattr.Whole.{getattr-Still}
use supertag.Fuse.Handlers.{
  Kept-if, readlink-Still, open_path-Still, create-Still, remove_tag_dir-Still,
}
use supertag.Fuse.Kept.{
  canaries, SameDb, On, Still, Quiet, Kept, Still-bind, From, From-after, From-before,
  transact-From, Kept-after, Kept-before, Still-Kept, transact-Kept, committed-From,
  or_refuse-Still, io-Still,
}
use supertag.Fuse.Lists.{readdir-Still, readdir_common-Still}
use supertag.Fuse.Readdir.{readdir, readdir_common}
use supertag.Fuse.Links.{
  readlink, make_symlink, stop_process, delete_link, unlink, unlink_canary, create, open_path,
}
use supertag.Fuse.Settles.{Settles}
use supertag.Fuse.State.{Fuse, World, refuse, change, look, transact, committed, ◌>>=◌, ◌>>◌}
use supertag.Names.{get_filename, should_unlink}
use supertag.Paths.Joined.{ends_with_name}
use supertag.Perms.Permissions
use supertag.Tags.Collection
use supertag.Tags.Types.{TagType, regular, negation, group, file_dir, device_file_symlink, symlink}

-- A transaction keeps `J`.
abbrev pub KeepsIn : {A : Type 0} → (Db → Type 0) → STag A → Type 0
KeepsIn J m = (db : Db) → J db → Ensures (λ _ d. J d) (m db)

-- What the transactions of the handlers keep, the move of a rename aside
pub record Invariant (env : Env) (now : ℕ) (J : Db → Type 0) : Type 0 where
  pub by_mkdir :
      (req : Request) (path : Text) (mode : ℕ)
      → KeepsIn J (mkdir env.engine env.syms path req.uid req.gid (Permissions.from_mode mode) now)
  pub by_rmdir : (path : Text) → KeepsIn J (rmdir env.syms path now)
  pub by_rm : (path : Text) → KeepsIn J (rm env.syms path now)
  pub by_ln :
      (req : Request) (src dst name : Text)
      → KeepsIn J (
          ln env.engine env.syms env.host env.notifier src dst name req.uid req.gid
            (record { bits = req.umask })
            none
            now)

-- The move of a rename
abbrev pub move_of : Env → ℕ → Request → Text → Text → STag (Unit {0})
move_of env now req src dst =
    move_or_merge env.engine env.syms env.notifier req.uid req.gid (record { bits = req.umask }) now
      src dst

module _ {F S R A U D : Type 0} (maps : Maps F S R A U D) (env : Env) (now ms : ℕ) (J : Db → Type 0)
    (inv : Invariant env now J) where
  abbrev Cached : Type 0
  Cached = OpCache.OpCache S R A U D

  change-Quiet : (f : Cached → Cached) → Quiet (change f)
  change-Quiet f w = refl

  -- Whether or not the host is notified, the refusal leaves the tables.
  notified_refused :
      (sent : Bool) (v : World Cached)
      → Settles
          (On J)
          (SameDb v)
          ((notified sent >>= λ (_ : Unit {0}). refuse {X = Unit {0}} enosys) v)
  notified_refused true v = refl
  notified_refused false v = refl

  make_symlink-Kept :
      (req : Request) (src dst : Text) → Kept J (make_symlink maps env now ms req src dst)
  unfolding make_symlink
  make_symlink-Kept req src dst =
      Kept-after (io (env.canonicalize src)) _ J (io-Still (env.canonicalize src)) (λ abs_src.
        Kept-after (or_refuse from_stag (get_filename abs_src)) _ J
          (or_refuse-Still from_stag (get_filename abs_src))
          (λ name.
            Kept-before (transact shim _) _ J
              (transact-Kept J shim
                (ln env.engine env.syms env.host env.notifier abs_src
                  (Collection.join_path env.syms (Collection.pop (Collection.new env.syms dst)).0)
                  name req.uid req.gid (record { bits = req.umask }) none now)
                (inv.by_ln req abs_src _ name))
              (λ files w. refl)))

  stop_process-Kept : (req : Request) (path : Text) → Kept J (stop_process maps env now ms req path)
  unfolding stop_process
  stop_process-Kept req path w j =
      notified_refused (env.notifier.unlink (env.abs_mountpoint path)) _

  delete_link-Kept : (path : Text) → Kept J (delete_link maps env now ms path)
  unfolding delete_link
  delete_link-Kept path =
      Kept-before (transact from_stag (rm env.syms path now)) _ J
        (transact-Kept J from_stag (rm env.syms path now) (inv.by_rm path)) (λ _ w. refl)

  unlink-Kept : (req : Request) (path : Text) → Kept J (unlink maps env now ms req path)
  unfolding unlink
  unlink-Kept req path =
      Kept-after (look (λ c. check_delete_pid maps c req.pid ms)) _ J (λ w. refl)
        (λ denied.
          Kept-if J denied (refuse enosys) _ (λ w j. refl)
            (Kept-if J (ends_with_name path unlink_canary) (stop_process maps env now ms req path)
              (delete_link maps env now ms path) (stop_process-Kept req path)
              (delete_link-Kept path)))

  make_dir-Kept :
      (req : Request) (path : Text) (mode : ℕ) → Kept J (make_dir maps env now ms req path mode)
  unfolding make_dir
  make_dir-Kept req path mode =
      transact-Kept J shim
        (mkdir env.engine env.syms path req.uid req.gid (Permissions.from_mode mode) now)
        (inv.by_mkdir req path mode)

  remembers :
      (dst : Text) (m : STag (Unit {0}))
      → KeepsIn J m
      → Kept J (transact from_stag m >> change (λ c. add_rename_delete_entry maps c dst ms))
  remembers dst m h =
      Kept-before (transact from_stag m) _ J (transact-Kept J from_stag m h) (λ _ w. refl)

  removes :
      (src : Text)
      → Kept {C = Cached} J (
          transact from_stag (rm env.syms src now) >>= λ _.
          change (flush_paths_tags maps env.syms ms src))
  removes src =
      Kept-before (transact from_stag (rm env.syms src now)) _ J
        (transact-Kept J from_stag (rm env.syms src now) (inv.by_rm src)) (λ _ w. refl)

  delete_renamed-Kept :
      (src dst : Text) (t : TagType) → Kept J (delete_renamed maps env now ms src dst t)
  unfolding delete_renamed
  delete_renamed-Kept src dst (device_file_symlink _) = removes src
  delete_renamed-Kept src dst (symlink _) = removes src
  delete_renamed-Kept src dst (regular _) =
      remembers dst (rmdir env.syms src now) (inv.by_rmdir src)
  delete_renamed-Kept src dst (group _) = remembers dst (rmdir env.syms src now) (inv.by_rmdir src)
  delete_renamed-Kept src dst (negation _) = λ w j. refl
  delete_renamed-Kept src dst file_dir = λ w j. refl

  -- The tables before a rename, from which its move leads to `J`.
  abbrev Movable : Request → Text → Text → Db → Type 0
  Movable req src dst db = J db × Ensures (λ _ d. J d) (move_of env now req src dst db)

  chosen :
      (req : Request) (src dst : Text) (deletes : Bool)
      → From {C = Cached} {X = Unit {0}} (Movable req src dst) J (elim deletes [
        | true ↦
            or_refuse from_stag (Collection.primary_type (Collection.new env.syms src)) >>= λ t.
            delete_renamed maps env now ms src dst t
        | false ↦ transact from_stag (move_of env now req src dst)
      ])
  chosen req src dst true w (j, _) =
      let r = Collection.primary_type (Collection.new env.syms src) in
      Kept-after (or_refuse from_stag r) _ J (or_refuse-Still from_stag r)
        (delete_renamed-Kept src dst) w j
  chosen req src dst false w k =
      transact-From (Movable req src dst) J from_stag (move_of env now req src dst) (λ db (j, h). h)
        w k

  rename-From :
      (req : Request) (src dst : Text)
      → From (Movable req src dst) J (rename maps env now ms req src dst)
  unfolding rename rename_or_delete
  rename-From req src dst =
      let I = Movable req src dst in
      From-before (committed (env.commit ms) _) _ I J
        (committed-From I J (env.commit ms) _ (
          From-after (or_refuse from_stag (get_filename dst)) _ I J
            (or_refuse-Still from_stag (get_filename dst))
            (λ name. chosen req src dst (should_unlink name))))
        (λ _ w. refl)

  -- What a rename asks for, and no other call
  abbrev pub Moves : Call → Db → Type 0
  Moves (renames req src dst) db = Ensures (λ _ d. J d) (move_of env now req src dst db)
  Moves _ db = Unit

  -- A call that only asks
  asks-Kept : {X : Type 0} (m : Fuse Cached X) → Still m → Kept J (done_with m)
  asks-Kept m h = Still-Kept J (done_with m) (Still-bind m _ h (λ _ v. refl))

  pub serve-Kept :
      (call : Call) (w : World Cached)
      → J w.db
      → Moves call w.db
      → Settles (On J) (SameDb w) (serve maps env now ms call w)
  unfolding serve
  serve-Kept (stats req path) w j h =
      asks-Kept (getattr maps env now ms req path) (getattr-Still maps env now ms req path) w j
  serve-Kept (lists path) w j h =
      asks-Kept (readdir maps env ms path) (readdir-Still maps env ms path) w j
  serve-Kept (lists_common path) w j h =
      asks-Kept (readdir_common maps env ms path) (readdir_common-Still maps env ms path) w j
  serve-Kept (reads_link path) w j h =
      asks-Kept (readlink maps env now ms path) (readlink-Still maps env now ms path) w j
  serve-Kept (links req src dst) w j h = make_symlink-Kept req src dst w j
  serve-Kept (unlinks req path) w j h = unlink-Kept req path w j
  serve-Kept creates w j h = asks-Kept (create maps env now ms) (create-Still maps env now ms) w j
  serve-Kept (opens path flags) w j h =
      asks-Kept (open_path maps env now ms path flags) (open_path-Still maps env now ms path flags)
        w j
  serve-Kept (makes_dir req path mode) w j h = make_dir-Kept req path mode w j
  serve-Kept (removes_dir path) w j h =
      Still-Kept J (remove_tag_dir maps env now ms path) (remove_tag_dir-Still maps env now ms path)
        w j
  serve-Kept (renames req src dst) w j h = rename-From req src dst w (j, h)
