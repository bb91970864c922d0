-- ===== src/Fuse/Env.antt =====
-- What the handlers use besides the database and the cache: the settings, the notifier and the
-- files of the host.
use supertag.Base.{ℕ, ◌-◌, Bool, true, false, [], ◌∷◌, Option, none, some, Text, ok, err}
use supertag.Base.{length, take, ends_with}
use supertag.Db.Store.{Engine}
use supertag.Errors.{SqlError, STagError, STagResult}
use supertag.Fsops.{Host, Notifier}
use supertag.Fuse.Errno.{Errno, IoKind, eio, map_io_err}
use supertag.Fuse.Stat.{OpenOptions}
use supertag.Fuse.State.{Fuse, answer, refuse, choose, crash, expect, ◌>>=◌}
use supertag.Names.{get_filename}
use supertag.Paths.Joined.{path_join, parent}
use supertag.Perms.Permissions.{Permissions}
use supertag.Symbols.{Symbols}

-- `std::io::Result`
pub data Io (X : Type 0) : Type 0 where
  did : X → Io X
  broken : IoKind → Io X

-- The `mount` part of the configuration, the collection's database file and its mountpoint, and what
-- SQLite answers to the commit of a rename at a time
pub record Env : Type 0 where
  pub engine : Engine
  pub commit : ℕ → Option SqlError
  pub syms : Symbols
  pub host : Host
  pub notifier : Notifier
  pub abs_mountpoint : Text → Text
  pub db_path : Text
  pub mount_uid : ℕ
  pub mount_gid : ℕ
  pub mount_permissions : Permissions
  pub canonicalize : Text → Io Text
  pub open_file : OpenOptions → Text → Io ℕ

module _ {C X : Type 0} where
  -- `?` on a result, with the conversion of its error
  abbrev pub or_refuse : (STagError → Errno) → STagResult X → Fuse C X
  or_refuse to_errno (ok x) = answer x
  or_refuse to_errno (err e) = refuse (to_errno e)

  -- `?` on an `io::Result`
  abbrev pub io : Io X → Fuse C X
  io (did x) = answer x
  io (broken kind) = refuse (map_io_err kind)

-- `?` on the result of the notifier
abbrev pub notified : {C : Type 0} → Bool → Fuse C (Unit {0})
notified true = answer tt
notified false = refuse eio

-- `unwrap` on a result
abbrev pub expect_ok : {C X : Type 0} → STagResult X → Fuse C X
expect_ok (ok x) = answer x
expect_ok (err e) = crash

-- The path without the sync character at its end, if it is there.
unfoldable pub strip_sync_char : {C : Type 0} → Symbols → Text → Fuse C (Option Text)
strip_sync_char syms path = do
  fname ← expect_ok (get_filename path)
  choose (ends_with fname (syms.sync_char ∷ []))
      (do up ← expect (parent path); answer (some (path_join up (take (length fname - 1) fname))))
      (answer none)
