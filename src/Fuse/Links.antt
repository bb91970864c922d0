-- ===== src/Fuse/Links.antt =====
-- fuse/fs/mod.rs: the handlers of links and files, on Linux.
use supertag.Base.{ℕ, true, false, List, [], ◌∷◌, Option, none, some, Text, codes, ok, err}
use supertag.Cache.OpCache
use supertag.Cache.OpCache.{
  Maps, Request, ReaddirCacheEntry, file, check_readdir_entry, add_readdir_entry, check_alias_entry,
  add_symlink, check_delete_pid, add_deny_delete_pid,
}
use supertag.Db.Select.Files.{contains_file}
use supertag.Errors.{STagResult, not_enough_tags}
use supertag.Fsops.{ln, rm}
use supertag.Fuse.Env.{Env, or_refuse, io, notified}
use supertag.Fuse.Errno.{enoent, enosys, shim, from_stag}
use supertag.Fuse.Flush.{clear_alias, flush_paths_tags, flush_readdir_cache}
use supertag.Fuse.Stat.{open_opts_from_mode}
use supertag.Fuse.State.{Fuse, answer, refuse, look, expect, change, transact, query, ◌>>=◌, ◌>>◌}
use supertag.Names.{get_filename}
use supertag.Paths.Joined.{path_eq, ends_with_name}
use supertag.Rows.{TaggedFile}
use supertag.Base.{text_eq}
use supertag.Tags.Collection
use supertag.Tags.Collection.{TagCollection}
use supertag.Tags.Types.{TagType, matches, device_file_symlink, symlink}

-- DB_FILE_PATH and UNLINK_CANARY
abbrev pub db_file_path : Text
db_file_path = codes "/.supertag/db.sqlite3"

abbrev pub unlink_canary : Text
unlink_canary = codes ".unlink_canary"

-- A file in the directory cache
abbrev pub cached_file : Option ReaddirCacheEntry → Option TaggedFile
cached_file (some (file tf)) = some tf
cached_file _ = none

-- It is asked for by a link alone.
abbrev pub cached_link : TagType → Option ReaddirCacheEntry → Option TaggedFile
cached_link (device_file_symlink _) entry = cached_file entry
cached_link (symlink _) entry = cached_file entry
cached_link _ entry = none

abbrev pub alias_of : Option TaggedFile → Option Text
alias_of none = none
alias_of (some tf) = tf.alias_file

module _ {F S R A U D : Type 0} (maps : Maps F S R A U D) (env : Env) (now ms : ℕ) where
  abbrev Handler : Type 0 → Type 0
  Handler X = Fuse (OpCache.OpCache S R A U D) X

  -- On Linux a file resolves to its path.
  unfoldable pub serve_link : Text → Option TaggedFile → Handler Text
  serve_link path none = refuse enoent
  serve_link path (some tf) = do
    change (λ c. add_readdir_entry maps c path (file tf) ms)
    answer tf.path

  -- The database of the collection has a link of its own.
  unfoldable pub link_to_db : Text → Handler Text
  link_to_db path = elim (path_eq path db_file_path) [
    | true ↦ answer env.db_path
    | false ↦ refuse enoent
  ]

  unfoldable pub read_link_at : Text → TagCollection → TagType → Handler Text
  unfolding serve_link link_to_db
  read_link_at path tags (device_file_symlink device_file) = do
    found ← query (contains_file tags.tags (matches device_file))
    serve_link path found
  read_link_at path tags (symlink filename) = do
    found ← query (contains_file tags.tags (λ (tf : TaggedFile). text_eq tf.primary_tag filename))
    serve_link path found
  read_link_at path tags _ = link_to_db path

  unfoldable pub readlink : Text → Handler Text
  unfolding read_link_at
  readlink path = do
    let tags = Collection.new env.syms path
    pt ← or_refuse shim (Collection.primary_type tags)
    cached ← look (λ c. check_readdir_entry maps c path ms)
    elim (cached_file cached) [ some tf ↦ answer tf.path | none ↦ read_link_at path tags pt ]

  unfoldable pub add_symlinks :
      Request → Text → List TaggedFile → OpCache.OpCache S R A U D → OpCache.OpCache S R A U D
  add_symlinks req path [] c = c
  add_symlinks req path (tf ∷ files) c =
      add_symlinks req path files (add_symlink maps c req path tf ms)

  unfoldable pub make_symlink : Request → Text → Text → Handler (Unit {0})
  unfolding add_symlinks
  make_symlink req src dst = do
    let tags = (Collection.pop (Collection.new env.syms dst)).0
    abs_src ← io (env.canonicalize src)
    primary_tag ← or_refuse from_stag (get_filename abs_src)
    res ← transact shim (
        ln env.engine env.syms env.host env.notifier abs_src (Collection.join_path env.syms tags)
          primary_tag req.uid req.gid (record { bits = req.umask }) none now)
    change (add_symlinks req dst res)
    change (flush_paths_tags maps env.syms ms dst)

  -- The process that deletes the canary is stopped.
  unfoldable pub stop_process : Request → Text → Handler (Unit {0})
  stop_process req path = do
    change (λ c. add_deny_delete_pid maps c req.pid ms)
    notified (env.notifier.unlink (env.abs_mountpoint path))
    refuse enosys

  unfoldable pub delete_link : Text → Handler (Unit {0})
  delete_link path = do
    _ ← transact from_stag (rm env.syms path now)
    change (clear_alias maps env.syms ms path)
    change (flush_paths_tags maps env.syms ms path)
    change (flush_readdir_cache maps env.syms ms path)

  unfoldable pub unlink : Request → Text → Handler (Unit {0})
  unfolding stop_process delete_link
  unlink req path = do
    denied ← look (λ c. check_delete_pid maps c req.pid ms)
    elim denied [
      | true ↦ refuse enosys
      | false ↦ elim (ends_with_name path unlink_canary) [
        | true ↦ stop_process req path
        | false ↦ delete_link path
      ]
    ]

  -- `create` and `release` are not there on Linux, and `flush` does nothing.
  unfoldable pub create : Handler ℕ
  create = do notified env.notifier.bad_copy; refuse enosys

  unfoldable pub find_alias : TagCollection → TagType → Handler (Option Text)
  find_alias tags (device_file_symlink device_file) = do
    parts ← expect (Collection.all_but_last tags)
    found ← query (contains_file parts (matches device_file))
    answer (alias_of found)
  find_alias tags (symlink primary_tag) = do
    parts ← expect (Collection.all_but_last tags)
    found ← query (contains_file parts (λ (tf : TaggedFile). text_eq tf.primary_tag primary_tag))
    answer (alias_of found)
  find_alias tags _ = answer none

  unfoldable pub resolve_as : Text → TagCollection → STagResult TagType → Handler (Option Text)
  unfolding find_alias
  resolve_as path tags (err not_enough_tags) = answer none
  resolve_as path tags (err e) = refuse (from_stag e)
  resolve_as path tags (ok pt) = do
    cached ← look (λ c. check_readdir_entry maps c path ms)
    alias ← look (λ c. check_alias_entry maps c path ms)
    elim (cached_link pt cached) [
      | some tf ↦ answer tf.alias_file
      | none ↦ elim alias [
        | some bmark ↦ answer (some bmark.managed_file)
        | none ↦ find_alias tags pt
      ]
    ]

  unfoldable pub resolve_to_alias_file : Text → Handler (Option Text)
  unfolding resolve_as
  resolve_to_alias_file path =
      let tags = Collection.new env.syms path in resolve_as path tags (Collection.primary_type tags)

  unfoldable pub open_path : Text → ℕ → Handler ℕ
  open_path path flags = do
    managed ← resolve_to_alias_file path
    elim managed [
      | some file_path ↦ io (env.open_file (open_opts_from_mode flags) file_path)
      | none ↦ refuse enoent
    ]
