-- ===== src/Fuse/Getattr.antt =====
-- fuse/fs/getattr.rs on Linux.
pub mod Panics
pub mod Whole
pub mod Still
pub mod Tagdirs
use supertag.Base.{
  ℕ, Bool, true, false, List, [], ◌∷◌, Option, none, some, Text, codes, text_eq, length, ◌==◌,
  select,
}
use supertag.Cache.OpCache
use supertag.Cache.OpCache.{
  Maps, ReaddirCacheEntry, file, tag_group, check_readdir_entry, add_readdir_entry,
}
use supertag.Db.Lookup.{get_tag}
use supertag.Db.Monad.{gets}
use supertag.Db.Select.Files.{files_tagged_with, contains_file, get_num_files}
use supertag.Db.Select.Groups.{
  get_tag_group, num_files_for_tag_group, tag_group_intersections, tag_is_in_group,
}
use supertag.Fuse.Env.{Env, strip_sync_char}
use supertag.Fuse.Errno.{enoent}
use supertag.Fuse.Flush.{flush_readdir_cache}
use supertag.Fuse.Links.{cached_file}
use supertag.Fuse.Stat.{Stat, new_dir, new_statfile}
use supertag.Fuse.State.{
  Fuse, answer, refuse, served, choose, look, expect, change, query, ◌>>=◌, ◌>>◌,
}
use supertag.Paths.Joined.{path_eq}
use supertag.Perms.Umask
use supertag.Rows.{TaggedFile, Tag, TagGroup}
use supertag.Rows.Int.{pos}
use supertag.Tags.Collection
use supertag.Tags.Collection.{TagCollection}
use supertag.Tags.Types.{
  TagType, DeviceFile, matches, regular, negation, group, file_dir, device_file_symlink, symlink,
}

-- TRACKER_IGNORE and STAG_ROOT_CONF_PATH
abbrev pub tracker_ignore : Text
tracker_ignore = codes ".trackerignore"

abbrev pub conf_path : Text
conf_path = codes "/.supertag"

-- A tag and a group in the directory cache
abbrev pub cached_tag : Option ReaddirCacheEntry → Option Tag
cached_tag (some (OpCache.tag t)) = some t
cached_tag _ = none

abbrev pub cached_group : Option ReaddirCacheEntry → Option TagGroup
cached_group (some (tag_group g)) = some g
cached_group _ = none

abbrev pub tag_stat : Tag → Stat
tag_stat t = new_dir t.mtime t.uid t.gid t.permissions t.num_files

abbrev pub group_stat : TagGroup → Stat
group_stat g = new_dir g.mtime g.uid g.gid g.permissions g.num_files

-- Two groups follow each other.
unfoldable pub two_groups : Bool → List TagType → Bool
two_groups last_was_group [] = false
two_groups last_was_group (group _ ∷ tags) =
    let rest = two_groups true tags in elim last_was_group [ true ↦ true | false ↦ rest ]
two_groups last_was_group (regular _ ∷ tags) = two_groups false tags
two_groups last_was_group (negation _ ∷ tags) = two_groups false tags
two_groups last_was_group (file_dir ∷ tags) = two_groups false tags
two_groups last_was_group (device_file_symlink _ ∷ tags) = two_groups false tags
two_groups last_was_group (symlink _ ∷ tags) = two_groups false tags

unfoldable pub find_tag : Text → List Tag → Option Tag
find_tag name [] = none
find_tag name (t ∷ tags) =
    let rest = find_tag name tags in elim (text_eq t.name name) [ true ↦ some t | false ↦ rest ]

unfoldable pub find_group : Text → List TagGroup → Option TagGroup
find_group name [] = none
find_group name (g ∷ groups) =
    let rest = find_group name groups in elim (text_eq g.name name) [ true ↦ some g | false ↦ rest ]

-- A tag that follows a group in the path must belong to it.
unfoldable pub check_pairs : {C : Type 0} → List (Text × Text) → Fuse C (Unit {0})
check_pairs [] = answer tt
check_pairs ((tg, tg_tag) ∷ pairs) =
    let rest = check_pairs pairs in
    query (tag_is_in_group tg tg_tag) >>= λ member. choose member rest (refuse enoent)

module _ {F S R A U D : Type 0} (maps : Maps F S R A U D) (env : Env) (now ms : ℕ) where
  abbrev Handler : Type 0 → Type 0
  Handler X = Fuse (OpCache.OpCache S R A U D) X

  -- The entry is put into the directory cache, and this is answered.
  abbrev pub remember : Text → ReaddirCacheEntry → Stat → Handler Stat
  remember path entry stat = change (λ c. add_readdir_entry maps c path entry ms) >> answer stat

  unfoldable pub flush_stripped : Option Text → Handler Stat
  flush_stripped none = refuse enoent
  flush_stripped (some stripped) = do
    change (flush_readdir_cache maps env.syms ms stripped)
    refuse enoent

  -- A path with the sync character asks for the cache to be flushed.
  unfoldable pub stat_synced : Text → Handler Stat
  unfolding flush_stripped
  stat_synced path = strip_sync_char env.syms path >>= flush_stripped

  abbrev pub stat_match : Option TaggedFile → Handler Stat
  stat_match none = refuse enoent
  stat_match (some match_file) = answer (new_statfile match_file)

  unfoldable pub stat_device_link : Text → TagCollection → DeviceFile → Handler Stat
  stat_device_link path tags device_file = do
    cached ← look (λ c. check_readdir_entry maps c path ms)
    served new_statfile (cached_file cached) (do
      parts ← expect (Collection.all_but_last tags)
      found ← query (contains_file parts (matches device_file))
      stat_match found)

  -- A single match by name counts.
  abbrev pub stat_single : Text → List TaggedFile → Handler Stat
  stat_single path (tf ∷ []) = remember path (file tf) (new_statfile tf)
  stat_single path _ = refuse enoent

  unfoldable pub stat_link : Text → TagCollection → Text → Handler Stat
  stat_link path tags sfile = do
    cached ← look (λ c. check_readdir_entry maps c path ms)
    served new_statfile (cached_file cached) (do
      parts ← expect (Collection.all_but_last tags)
      ifiles ← query (files_tagged_with parts)
      stat_single path (select (λ (tf : TaggedFile). text_eq sfile tf.primary_tag) ifiles))

  -- A group at the top counts the files of all its tags.
  unfoldable pub stat_top_group : Text → Text → Option TagGroup → Handler Stat
  stat_top_group path name none = refuse enoent
  stat_top_group path name (some tg) = do
    num_files ← query (num_files_for_tag_group name)
    let counted = record tg { num_files = num_files }
    remember path (tag_group counted) (group_stat counted)

  abbrev pub stat_found_group : Text → Option TagGroup → Handler Stat
  stat_found_group path none = refuse enoent
  stat_found_group path (some tg) = remember path (tag_group tg) (group_stat tg)

  unfoldable pub stat_group : Text → TagCollection → Text → Handler Stat
  unfolding stat_top_group
  stat_group path tags name = do
    cached ← look (λ c. check_readdir_entry maps c path ms)
    served group_stat (cached_group cached) (
        choose (length tags.tags == 1)
          (do tg ← query (get_tag_group name); stat_top_group path name tg)
          (choose (two_groups false tags.tags) (refuse enoent) (do
            tag_groups ← query (tag_group_intersections tags.tags)
            stat_found_group path (find_group name tag_groups))))

  unfoldable pub stat_filedir_of : Text → ℕ → Option Tag → Handler Stat
  stat_filedir_of path num_files none = refuse enoent
  stat_filedir_of path num_files (some t) =
      let counted = record t { num_files = pos num_files } in
      remember path (OpCache.tag counted) (tag_stat counted)

  -- The tag above a directory of files
  abbrev pub named_parent : Option TagType → Option Text
  named_parent (some (regular name)) = some name
  named_parent (some (negation name)) = some name
  named_parent _ = none

  unfoldable pub stat_below : Text → TagCollection → Option Text → Handler Stat
  unfolding stat_filedir_of
  stat_below path tags none = refuse enoent
  stat_below path tags (some parent_tag) = do
    maybe_tag ← query (gets (λ db. get_tag db parent_tag))
    num_files ← query (get_num_files tags.tags)
    stat_filedir_of path num_files maybe_tag

  unfoldable pub stat_filedir : Text → TagCollection → Handler Stat
  unfolding stat_below
  stat_filedir path tags = do
    cached ← look (λ c. check_readdir_entry maps c path ms)
    served tag_stat (cached_tag cached)
        (stat_below path tags (named_parent (Collection.primary_parent tags)))
