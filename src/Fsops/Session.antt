-- ===== src/Fsops/Session.antt =====
-- What users do through the file system, in any order: the tables stay consistent.
use mathlib.Core.Path.{subst}
use supertag.Base.{ℕ, ◌≡◌, List, Option, Text}
use supertag.Db.Consistent.{IsConsistent}
use supertag.Db.Monad.{Outcome, done}
use supertag.Db.Preserve.Anyhow.{Keeps}
use supertag.Db.Preserve.History.{Reaches, Reaches-IsConsistent}
use supertag.Db.Store.{Db, Engine, IsFresh}
use supertag.Fsops.{Notifier, Host, mkdir, rmdir, rm, ln}
use supertag.Fsops.Keeps.{mkdir-Keeps, rmdir-Keeps, rm-Keeps, ln-Keeps}
use supertag.Fsops.Move.{move_or_merge}
use supertag.Fsops.Moves.{NoMerge, move_or_merge-Keeps}
use supertag.Perms.Permissions.{Permissions}
use supertag.Perms.Umask.{UMask}
use supertag.Rows.{TaggedFile}
use supertag.Symbols.{Symbols}

module _ (engine : Engine) (syms : Symbols) where
  -- One call that succeeds; a move is one that does not merge.
  pub data Act : Db → Db → Type 0 where
    made_dir :
        {a b : Db} (dir : Text) (uid gid : ℕ) (permissions : Permissions) (now : ℕ)
        → mkdir engine syms dir uid gid permissions now a ≡ done tt b
        → Act a b
    removed_dir : {a b : Db} (path : Text) (now : ℕ) → rmdir syms path now a ≡ done tt b → Act a b
    removed_file :
        {a b : Db} (file : Text) (now : ℕ) (r : List ℕ) → rm syms file now a ≡ done r b → Act a b
    linked :
        {a b : Db} (host : Host) (notifier : Notifier) (src rel_dst primary_tag : Text)
        (uid gid : ℕ) (umask : UMask) (alias_file : Option Text) (now : ℕ) (r : List TaggedFile)
        → ln engine syms host notifier src rel_dst primary_tag uid gid umask alias_file now a
          ≡ done r b
        → Act a b
    moved :
        {a b : Db} (notifier : Notifier) (uid gid : ℕ) (umask : UMask) (now : ℕ) (src dst : Text)
        → NoMerge syms a src dst
        → move_or_merge engine syms notifier uid gid umask now src dst a ≡ done tt b
        → Act a b

  -- A run of calls
  pub data Session (a : Db) : Db → Type 0 where
    opened : Session a a
    acted : {b d : Db} → Session a b → Act b d → Session a d

holds : {E A : Type 0} (r : Outcome E A) (x : A) (b : Db) → r ≡ done x b → Keeps r → IsConsistent b
holds r x b e k = subst Keeps e k

module _ (engine : Engine) (fresh : IsFresh engine) (syms : Symbols) where
  Act-IsConsistent : {a b : Db} → Act engine syms a b → IsConsistent a → IsConsistent b
  Act-IsConsistent {a} {b} (made_dir dir uid gid permissions now e) c =
      holds _ tt b e (mkdir-Keeps engine fresh syms dir uid gid permissions now a c)
  Act-IsConsistent {a} {b} (removed_dir path now e) c =
      holds _ tt b e (rmdir-Keeps engine fresh syms path now a c)
  Act-IsConsistent {a} {b} (removed_file file now r e) c =
      holds _ r b e (rm-Keeps engine fresh syms file now a c)
  Act-IsConsistent {a} {b}
        (linked host notifier src rel_dst primary_tag uid gid umask alias_file now r e) c =
      holds _ r b e (
        ln-Keeps engine fresh syms host notifier src rel_dst primary_tag uid gid umask alias_file
          now a c)
  Act-IsConsistent {a} {b} (moved notifier uid gid umask now src dst h e) c =
      holds _ tt b e
        (move_or_merge-Keeps engine fresh syms notifier uid gid umask now src dst a c h)

  -- With an engine that gives fresh ids, and tables that transactions made of a new database, any
  -- run of `mkdir`, `rmdir`, `rm`, `ln` and of moves that do not merge a tag into one that exists
  -- leaves consistent tables, whatever the paths and the answers of the file system and the notifier:
  -- keys do not repeat, links lead to rows that exist, and every tag's `num_files` is the number of
  -- its links.
  pub Session-IsConsistent :
      (a b : Db) → Reaches engine a → Session engine syms a b → IsConsistent b
  Session-IsConsistent a _ r opened = Reaches-IsConsistent engine fresh a r
  Session-IsConsistent a _ r (acted {b} s act) = Act-IsConsistent act (Session-IsConsistent a b r s)
