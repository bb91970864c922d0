-- ===== src/Fuse/Mounted.antt =====
-- A mounted collection: any sequence of calls, with what they refuse.
use mathlib.Core.Path.{subst}
use supertag.Base.{ℕ, ◌≡◌, sym, none}
use supertag.Cache.OpCache
use supertag.Cache.OpCache.{Maps}
use supertag.Db.Consistent.{IsConsistent}
use supertag.Db.Monad.{Outcome, done, failed, panicked, Ensures}
use supertag.Db.Store.{Db, IsFresh}
use supertag.Fsops.Keeps.{mkdir-Keeps, rmdir-Keeps, rm-Keeps, ln-Keeps}
use supertag.Fsops.Moves.{NoMerge, move_or_merge-Keeps}
use supertag.Fuse.Calls.{
  Call, stats, lists, lists_common, reads_link, links, unlinks, creates, opens, makes_dir,
  removes_dir, renames, serve,
}
use supertag.Fuse.Env.{Env}
use supertag.Fuse.Kept.{SameDb, On}
use supertag.Fuse.Serves.{Invariant, move_of, Moves, serve-Kept}
use supertag.Fuse.Settles.{Settles}
use supertag.Fuse.State.{World, Reply, answered, refused, crashed}
use supertag.Perms.Permissions

any_Ensures : {E A : Type 0} (r : Outcome E A) → Ensures (λ _ _. Unit {0}) r
any_Ensures (done a db) = tt
any_Ensures (failed e) = tt
any_Ensures panicked = tt

-- A reply leaves this state.
abbrev pub Leaves : {C X : Type 0} → Reply C X → World C → Type 0
Leaves (answered x v) u = v ≡ u
Leaves (refused e v) u = v ≡ u
Leaves crashed u = ⊥

-- A rename that merges no tags
abbrev pub Unmerged : Env → Call → Db → Type 0
Unmerged env (renames req src dst) db = NoMerge env.syms db src dst
Unmerged env _ db = Unit

module _ {F S R A U D : Type 0} (maps : Maps F S R A U D) (env : Env) where
  abbrev State : Type 0
  State = World (OpCache.OpCache S R A U D)

  -- What a sequence of calls reaches, the refused ones included, where no rename merges tags.
  pub data Mounted (a : State) : State → Type 0 where
    started : Mounted a a
    replied :
        {b d : State} (call : Call) (now ms : ℕ)
        → Mounted a b
        → Unmerged env call b.db
        → Leaves (serve maps env now ms call b) d
        → Mounted a d

  -- Nothing is asked of the tables.
  anything : (now : ℕ) → Invariant env now (λ _. Unit {0})
  anything now = record {
    by_mkdir = λ req path mode db _. any_Ensures _;
    by_rmdir = λ path db _. any_Ensures _;
    by_rm = λ path db _. any_Ensures _;
    by_ln = λ req src dst name db _. any_Ensures _;
  }

  anything-Moves :
      (now ms : ℕ) (call : Call) (db : Db)
      → Moves maps env now ms (λ _. Unit {0}) (anything now) call db
  anything-Moves now ms (renames req src dst) db = any_Ensures (move_of env now req src dst db)
  anything-Moves now ms (stats _ _) db = tt
  anything-Moves now ms (lists _) db = tt
  anything-Moves now ms (lists_common _) db = tt
  anything-Moves now ms (reads_link _) db = tt
  anything-Moves now ms (links _ _ _) db = tt
  anything-Moves now ms (unlinks _ _) db = tt
  anything-Moves now ms creates db = tt
  anything-Moves now ms (opens _ _) db = tt
  anything-Moves now ms (makes_dir _ _ _) db = tt
  anything-Moves now ms (removes_dir _) db = tt

  -- Whatever call of `Call` is refused, whatever the number and on whichever branch, the tables are
  -- those before the call.
  pub serve-refused :
      (now ms : ℕ) (call : Call) (w : State)
      → Settles (λ _ v. Unit) (λ e v. v.db ≡ w.db) (serve maps env now ms call w)
  serve-refused now ms call w =
      serve-Kept maps env now ms (λ _. Unit {0}) (anything now) call w tt
        (anything-Moves now ms call w.db)

  module _ (fresh : IsFresh env.engine) where
    consistent : (now : ℕ) → Invariant env now IsConsistent
    consistent now = record {
      by_mkdir = λ req path mode.
          mkdir-Keeps env.engine fresh env.syms path req.uid req.gid (Permissions.from_mode mode)
            now;
      by_rmdir = λ path. rmdir-Keeps env.engine fresh env.syms path now;
      by_rm = λ path. rm-Keeps env.engine fresh env.syms path now;
      by_ln = λ req src dst name.
          ln-Keeps env.engine fresh env.syms env.host env.notifier src dst name req.uid req.gid
            (record { bits = req.umask }) none now;
    }

    consistent-Moves :
        (now ms : ℕ) (call : Call) (db : Db)
        → IsConsistent db
        → Unmerged env call db
        → Moves maps env now ms IsConsistent (consistent now) call db
    consistent-Moves now ms (renames req src dst) db c h =
        move_or_merge-Keeps env.engine fresh env.syms env.notifier req.uid req.gid
          (record { bits = req.umask }) now src dst db c h
    consistent-Moves now ms (stats _ _) db c h = tt
    consistent-Moves now ms (lists _) db c h = tt
    consistent-Moves now ms (lists_common _) db c h = tt
    consistent-Moves now ms (reads_link _) db c h = tt
    consistent-Moves now ms (links _ _ _) db c h = tt
    consistent-Moves now ms (unlinks _ _) db c h = tt
    consistent-Moves now ms creates db c h = tt
    consistent-Moves now ms (opens _ _) db c h = tt
    consistent-Moves now ms (makes_dir _ _ _) db c h = tt
    consistent-Moves now ms (removes_dir _) db c h = tt

    -- An answer and a refusal leave consistent tables.
    left :
        (r : Reply (OpCache.OpCache S R A U D) (Unit {0})) (w d : State)
        → IsConsistent w.db
        → Settles (On IsConsistent) (SameDb w) r
        → Leaves r d
        → IsConsistent d.db
    left (answered x v) w d c k e = subst (λ u. IsConsistent u.db) e k
    left (refused n v) w d c k e = subst (λ u. IsConsistent u.db) e (subst IsConsistent (sym k) c)
    left crashed w d c k e = absurd e

    -- With fresh rowids, any sequence of stats, listings, links, deletions, new directories, renames
    -- that merge no tags and the other calls of `Call`, refused ones included, leads from consistent
    -- tables to consistent tables.
    pub Mounted-IsConsistent : {a b : State} → Mounted a b → IsConsistent a.db → IsConsistent b.db
    Mounted-IsConsistent started c = c
    Mounted-IsConsistent (replied {b} {d} call now ms before unmerged leaves) c =
        let c' = Mounted-IsConsistent before c in
        left (serve maps env now ms call b) b d c'
          (serve-Kept maps env now ms IsConsistent (consistent now) call b c'
            (consistent-Moves now ms call b.db c' unmerged))
          leaves
