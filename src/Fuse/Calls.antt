-- ===== src/Fuse/Calls.antt =====
-- The calls that the kernel makes, and what a handler's reply says of the tables.
use supertag.Base.{ℕ, Text}
use supertag.Cache.OpCache
use supertag.Cache.OpCache.{Maps, Request}
use supertag.Fuse.Dirs.{make_dir, remove_tag_dir, rename}
use supertag.Fuse.Env.{Env}
use supertag.Fuse.Getattr.Tagdirs.{getattr}
use supertag.Fuse.Readdir.{readdir, readdir_common}
use supertag.Fuse.Links.{readlink, make_symlink, unlink, create, open_path}
use supertag.Fuse.State.{Fuse, answer, ◌>>=◌}

-- The methods of `Filesystem` with a handler here
pub data Call : Type 0 where
  stats : Request → Text → Call
  lists : Text → Call
  lists_common : Text → Call
  reads_link : Text → Call
  links : Request → Text → Text → Call
  unlinks : Request → Text → Call
  creates : Call
  opens : Text → ℕ → Call
  makes_dir : Request → Text → ℕ → Call
  removes_dir : Text → Call
  renames : Request → Text → Text → Call

abbrev pub done_with : {C X : Type 0} → Fuse C X → Fuse C (Unit {0})
done_with m = m >>= λ _. answer tt

module _ {F S R A U D : Type 0} (maps : Maps F S R A U D) (env : Env) (now ms : ℕ) where
  -- A call to its handler
  unfoldable pub serve : Call → Fuse (OpCache.OpCache S R A U D) (Unit {0})
  serve (stats req path) = done_with (getattr maps env now ms req path)
  serve (lists path) = done_with (readdir maps env ms path)
  serve (lists_common path) = done_with (readdir_common maps env ms path)
  serve (reads_link path) = done_with (readlink maps env now ms path)
  serve (links req src dst) = make_symlink maps env now ms req src dst
  serve (unlinks req path) = unlink maps env now ms req path
  serve creates = done_with (create maps env now ms)
  serve (opens path flags) = done_with (open_path maps env now ms path flags)
  serve (makes_dir req path mode) = make_dir maps env now ms req path mode
  serve (removes_dir path) = remove_tag_dir maps env now ms path
  serve (renames req src dst) = rename maps env now ms req src dst
