-- ===== src/Fuse/Getattr/Tagdirs.antt =====
-- fuse/fs/getattr.rs on Linux: the directory of a tag, and `getattr_impl` itself.
use supertag.Base.{ℕ, true, List, Option, none, some, Text, length, last?, ltb}
use supertag.Cache.OpCache
use supertag.Cache.OpCache.{
  Maps, Request, check_readdir_entry, add_readdir_entry, consume_symlink, consume_rename_delete,
}
use supertag.Db.Lookup.{get_tag, get_root_mtime}
use supertag.Db.Monad.{gets, lift}
use supertag.Db.Pins.{is_pinned}
use supertag.Db.Select.Groups.{get_tag_group}
use supertag.Db.Select.Tags.{intersect_tag, init}
use supertag.Fuse.Env.{Env, or_refuse}
use supertag.Fuse.Errno.{enoent, shim, from_stag}
use supertag.Fuse.Getattr.{
  tracker_ignore, conf_path, cached_tag, tag_stat, find_tag, check_pairs, stat_synced,
  stat_device_link, stat_link, stat_group, stat_filedir,
}
use supertag.Fuse.Links.{db_file_path, unlink_canary}
use supertag.Fuse.Stat.{Stat, new_dir, new_link, new_regfile, db_file}
use supertag.Fuse.State.{
  Fuse, answer, refuse, served, choose, crash, look, change, transact, query, take_out,
  unwrap_query, ◌>>=◌, ◌>>◌,
}
use supertag.Paths.Joined.{path_eq, path_starts_with, ends_with_name, slash}
use supertag.Perms.Permissions.{Permissions}
use supertag.Perms.Umask
use supertag.Rows.{TaggedFile, Tag, TagGroup}
use supertag.Rows.Int.{pos}
use supertag.Settings.{path_to_tags}
use supertag.Tags.Collect.{taggroup_pairs}
use supertag.Tags.Collection
use supertag.Tags.Collection.{TagCollection}
use supertag.Tags.Types.{TagType, regular, negation, group, file_dir, device_file_symlink, symlink}

-- The permissions of a new directory and of a new file, by the umask of the request
abbrev pub new_dir_perms : Request → Permissions
new_dir_perms req = Umask.dir_perms (record { bits = req.umask })

abbrev pub new_file_perms : Request → Permissions
new_file_perms req = Umask.file_perms (record { bits = req.umask })

module _ {F S R A U D : Type 0} (maps : Maps F S R A U D) (env : Env) (now ms : ℕ) where
  abbrev Handler : Type 0 → Type 0
  Handler X = Fuse (OpCache.OpCache S R A U D) X

  abbrev pub stat_record : Option Tag → Handler Stat
  stat_record none = refuse enoent
  stat_record (some t) = answer (tag_stat t)

  abbrev pub stat_group_record : Option TagGroup → Handler Stat
  stat_group_record none = refuse enoent
  stat_group_record (some g) = answer (new_dir g.mtime g.uid g.gid g.permissions (pos 0))

  -- A pinned directory, by its last part
  unfoldable pub stat_pinned : Option TagType → Handler Stat
  stat_pinned none = crash
  stat_pinned (some (regular last_tag)) = do
    found ← query (gets (λ db. get_tag db last_tag))
    stat_record found
  stat_pinned (some (group last_tag)) = do
    found ← query (get_tag_group last_tag)
    stat_group_record found
  stat_pinned (some _) = refuse enoent

  abbrev pub remember_tag : Text → Tag → Handler Stat
  remember_tag path t =
      change (λ c. add_readdir_entry maps c path (OpCache.tag t) ms) >> answer (tag_stat t)

  abbrev pub stat_top_tag : Text → Option Tag → Handler Stat
  stat_top_tag path none = refuse enoent
  stat_top_tag path (some t) = remember_tag path t

  abbrev pub stat_intersection : Text → List TagType → Option Tag → Handler Stat
  stat_intersection path query_tags (some itag) = remember_tag path itag
  stat_intersection path query_tags none = do
    pinned ← query (gets (λ db. is_pinned db query_tags))
    choose pinned (stat_pinned (last? query_tags)) (refuse enoent)

  -- The last tag must intersect the tags before it, or be pinned below them.
  unfoldable pub stat_tag_in_db : Text → Text → List TagType → Handler Stat
  unfolding stat_pinned
  stat_tag_in_db path name query_tags =
      choose (ltb 1 (length query_tags))
        (do
          itags ← unwrap_query (intersect_tag (init query_tags) true)
          stat_intersection path query_tags (find_tag name itags))
        (do found ← query (gets (λ db. get_tag db name)); stat_top_tag path found)

  -- The directory of a tag: cached, just linked, just deleted by renaming, or in the database.
  unfoldable pub stat_tag : Request → Text → Text → Handler Stat
  unfolding stat_tag_in_db
  stat_tag req path name = do
    cached ← look (λ c. check_readdir_entry maps c path ms)
    served tag_stat (cached_tag cached) (do
      linked ← take_out (λ c. consume_symlink maps c req path ms)
      served (λ (f : TaggedFile). new_link now f.uid f.gid f.permissions 0) linked
          (do
            deleted ← take_out (λ c. consume_rename_delete maps c path ms)
            choose deleted (answer (new_dir now req.uid req.gid (new_dir_perms req) (pos 0)))
                (stat_tag_in_db path name (path_to_tags env.syms path))))

  -- By the type of the last part; a link, a tag and a group are flushed if the path asks for it.
  unfoldable pub stat_as : Request → Text → TagCollection → TagType → Handler Stat
  unfolding stat_tag
  stat_as req path tags (symlink sfile) =
      choose tags.unlinking (stat_synced maps env now ms path)
        (stat_link maps env now ms path tags sfile)
  stat_as req path tags (device_file_symlink device_file) =
      choose tags.unlinking (stat_synced maps env now ms path)
        (stat_device_link maps env now ms path tags device_file)
  stat_as req path tags (regular name) =
      choose tags.unlinking (stat_synced maps env now ms path) (stat_tag req path name)
  stat_as req path tags (group name) =
      choose tags.unlinking (stat_synced maps env now ms path)
        (stat_group maps env now ms path tags name)
  stat_as req path tags file_dir = stat_filedir maps env now ms path tags
  stat_as req path tags (negation name) = stat_tag req path name

  unfoldable pub stat_tags : Request → Text → Handler Stat
  unfolding stat_as
  stat_tags req path = do
    let tags = Collection.new env.syms path
    pt ← or_refuse shim (Collection.primary_type tags)
    check_pairs (taggroup_pairs tags.tags)
    stat_as req path tags pt

  unfoldable pub getattr_supertag_root_conf : Request → Text → ℕ → Handler Stat
  getattr_supertag_root_conf req path mtime =
      choose (path_eq path db_file_path) (answer (db_file req.uid req.gid mtime)) (refuse enoent)

  unfoldable pub stat_root : Handler Stat
  stat_root = do
    mtime ← query get_root_mtime
    answer (new_dir mtime env.mount_uid env.mount_gid env.mount_permissions (pos 0))

  -- The configuration, the root and everything else
  unfoldable pub stat_path : Request → Text → ℕ → Handler Stat
  unfolding stat_tags getattr_supertag_root_conf stat_root
  stat_path req path root_mtime =
      choose (path_eq path conf_path)
        (answer (new_dir root_mtime req.uid req.gid (new_dir_perms req) (pos 0)))
        (choose (path_starts_with path conf_path) (getattr_supertag_root_conf req path root_mtime)
          (choose (path_eq path slash) stat_root (stat_tags req path)))

  abbrev pub stat_empty : Request → ℕ → Handler Stat
  stat_empty req root_mtime = answer (new_regfile root_mtime req.uid req.gid (new_file_perms req) 0)

  unfoldable pub getattr : Request → Text → Handler Stat
  unfolding stat_path
  getattr req path = do
    root_mtime ← transact from_stag (lift get_root_mtime)
    choose (ends_with_name path tracker_ignore) (stat_empty req root_mtime) (
        choose (ends_with_name path unlink_canary) (stat_empty req root_mtime)
          (stat_path req path root_mtime))
