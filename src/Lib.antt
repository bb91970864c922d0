-- ===== src/Lib.antt =====
-- SuperTag: a tag-based filesystem. A path below the mount point is a list of tags, and a directory
-- holds the files that carry all of them. Files, tags, tag groups and the links between files and
-- tags are rows of an SQLite database; the FUSE handlers and the command line parse paths, call the
-- operations on the database and write names back.
--
-- The parts and the files here:
-- (Base) lists, texts (lists of code points), tests, results, keys and tables. `Base.Unique` and
--   `Base.Deletion` hold the lemmas on tables whose ids and keys do not repeat.
-- (Radix) `format!` of numbers with padding, and `from_str_radix`, for any base from 2 on.
-- (Perms) src/common/types/file_perms.rs. `Perms.Class`, `Perms.Permissions` and `Perms.Umask` have the
--   structs and their conversions; modes are natural numbers and `!` is taken on 32 bits.
-- (Names) the functions on tag names of src/common/mod.rs (get_filename, primary_tag, strip_ext_prefix,
--   has_ext_prefix, set_ext_prefix, read_from_slice and their neighbours).
-- (Paths) `std::path::Path::components` over texts, and `Paths.Joined` what the handlers use of paths.
-- (Tags) src/common/types/mod.rs: DeviceFile, TagType, TagCollection, and TagCollectible as functions on
--   lists.
-- (Settings, Symbols) path_to_tags, inodify_filename and filename_to_device_file of
--   src/common/settings/mod.rs, whose loop over the characters is `capture`, and the symbols of
--   src/common/settings/config.rs. `Settings.Collections` has the places of a collection's files and the
--   collection of a path, `Settings.Resolve` that it is found again.
-- (Errors, Rows) src/common/err.rs and src/sql/types.rs.
-- (Db) src/sql/mod.rs over the schema of src/sql/migrations/m0.rs. A transaction is a function from
--   the tables to an outcome: done, with the tables that it leaves, failed, or panicked. A statement
--   that fails ends the operation. `UNIQUE`, `NOT NULL` and `ON DELETE CASCADE` are written out in the
--   insertions and deletions. `Db.Consistent` says when tables are well formed: ids and keys do not
--   repeat, links lead to rows that exist, and `num_files` of every tag is the number of its links.
--   `Db.Preserve` has the proofs that operations keep this. `Db.Groups` has the same for tag
--   groups and their members. `Db.Query` has the subquery of a path as a tree; the set of a group's
--   names is a list here, in the order of the table.
--   `Db.Select` has the listings: of the files and tags of a path, and of groups. Rows that tie in
--   `ORDER BY`, which SQLite leaves open, keep the order of the table, and of the links of a file with
--   the same latest time the first one counts. `Db.Intersect` has the operations on the files of a
--   path, in chunks of five hundred, and the merge of tags; `Db.Pins` has the pins, with `LIKE` in
--   `Db.Pins.Like`; `Db.Migrations` has sql/migrations/mod.rs, whose list of migrations after the first
--   is still empty. A query that binds parameters that its text does not have fails.
-- (Fsops) src/common/fsops: mkdir, rmdir, rm, ln, and move_or_merge in `Fsops.Move`, each from the
--   path that it is given to the outcome of its transaction. `Host` stands for the file system below
--   and `Notifier` for what its calls return. `Fsops.Session` has runs of such calls.
-- (Cache) src/fuse/opcache.rs: `Cache.Alias` has a file under way and the check of its header, over an
--   interface for files; `Cache.OpCache` has the maps of pending operations over `Cache.Ttl`, which is
--   the crate ttl_cache as an interface with a law. Each call is given the time at which it happens.
-- (Fuse) src/fuse: `Fuse.State` has the database and the cache of a mounted file system and what a
--   handler replies; `Fuse.Env` has the settings and files around it. `Fuse.Links` and `Fuse.Dirs` have
--   the handlers of fs/mod.rs, `Fuse.Getattr` and `Fuse.Readdir` those of their files, `Fuse.Flush` what
--   they clear from the cache, `Fuse.Stat` and `Fuse.Errno` util.rs and the numbers of errors, all on
--   Linux. A commit does not fail, but for that of a rename, before which the cache is changed: what
--   SQLite answers to it is in `Fuse.Env`. What a listing adds to the cache while it is read is added
--   at once. `Fuse.Calls` sends a call to its handler, `Fuse.Mounted` has sequences of them, and
--   `Fuse.Calm` the calls that leave the processes that may not delete.
-- (Db.View) a collection as its user sees it, a relation between files and names of tags: the changes
--   that add_file, remove_devicefile, purge_devicefile, remove_tag and rename_tag make of it, and what
--   listings show of it.
-- (Notify) src/common/notify and src/common/types/note.rs: the connections of uds.rs, and in
--   `Notify.Listener` its listener, whose loops are given what the socket, the flag and the clock
--   give in each round; `Notify.Log` has the log that the buffer is the end of, `Notify.Wait` the
--   waiting, `Notify.Channel` the way of notes through a connection, with serde_json as an interface
--   with laws, and `Notify.Desktop` has desktop.rs.
--
-- SQLite's choice of a row id is the parameter `Engine`, with the documented property `IsFresh` that
-- a new row's id is not in use. Times are natural numbers, as only their copying matters. Numbers of
-- 64 bits that the database keeps are not cast to signed ones. All loops are recursions on lists,
-- but for `Radix.format`, with the number itself plus one as fuel, which bounds its digits, and
-- `wait_for_pred`, with the number of its looks, which the timeout bounds.
--
-- Not modelled: the connections to the database, the handlers read, write and truncate, which go to
-- the files of aliases that only macOS makes, the command line, the sockets and threads of notifications,
-- logging, and platform code, which are system calls or build on what is here.
pub mod Base
pub mod Radix
pub mod Perms
pub mod Errors
pub mod Symbols
pub mod Paths
pub mod Names
pub mod Rows
pub mod Tags
pub mod Settings
pub mod Db
pub mod Fsops
pub mod Fuse
pub mod Cache
pub mod Notify
