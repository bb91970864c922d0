-- ===== src/Fuse/Readdir.antt =====
-- fuse/fs/readdir.rs. What the listing adds to the cache while it is read is added at once here.
use supertag.Base.{
  ℕ, Bool, true, false, ◌||◌, not, List, [], ◌∷◌, ◌++◌, map, Text, codes, text_eq, length, ltb, mem,
  nat_eq, select, if◌then◌else◌,
}
use supertag.Cache.OpCache
use supertag.Cache.OpCache.{Maps, file, tag_group, add_readdir_entry}
use supertag.Db.Lookup.{get_root_mtime}
use supertag.Db.Monad.{lift}
use supertag.Db.Pins.{pinned_subdirs}
use supertag.Db.Remove.{is_nil}
use supertag.Db.Select.Files.{files_tagged_with}
use supertag.Db.Select.Groups.{get_all_tag_groups, tag_groups_for_tags}
use supertag.Db.Select.Tags.{get_all_tags, intersect_tag}
use supertag.Fuse.Env.{Env, or_refuse}
use supertag.Fuse.Errno.{from_stag}
use supertag.Fuse.Flush.{is_filedir}
use supertag.Fuse.Getattr.{conf_path, check_pairs}
use supertag.Fuse.Links.{unlink_canary}
use supertag.Fuse.State.{Fuse, answer, choose, change, transact, query, ◌>>=◌, ◌>>◌}
use supertag.Paths.Joined.{path_eq, path_join, slash}
use supertag.Rows.{
  TaggedFile, Tag, TagGroup, TagOrTagGroup, FileEntry, tag, group, tag_entry, group_entry,
  to_fileentry,
}
use supertag.Settings.{inodify_filename}
use supertag.Symbols.{Symbols}
use supertag.Tags.Collect.{taggroup_pairs}
use supertag.Tags.Collection
use supertag.Tags.Collection.{TagCollection}
use supertag.Tags.Types
use supertag.Tags.Types.{TagType}

-- DB_FILE_NAME
abbrev pub db_file_name : Text
db_file_name = codes "db.sqlite3"

abbrev pub is_group : TagType → Bool
is_group (Types.group _) = true
is_group _ = false

abbrev pub id_of : Tag → ℕ
id_of t = t.id

-- The tags that a group of the listing stands for
unfoldable pub grouped_ids : List TagGroup → List ℕ
grouped_ids [] = []
grouped_ids (tg ∷ groups) = tg.tag_ids ++ grouped_ids groups

abbrev pub ungrouped : List ℕ → List Tag → List Tag
ungrouped has_taggroup tags = select (λ (t : Tag). not (mem t.id has_taggroup)) tags

-- `name_count`
abbrev pub name_count : Text → List TaggedFile → ℕ
name_count name files = length (select (λ (tf : TaggedFile). text_eq tf.primary_tag name) files)

-- The name of a file in the listing: with its device and inode where another has the same.
unfoldable pub listed_name : Symbols → List TaggedFile → TaggedFile → Text
listed_name syms files tf =
    if ltb 1 (name_count tf.primary_tag files)
    then inodify_filename syms tf.primary_tag tf.device tf.inode
    else tf.primary_tag

unfoldable pub listed_file : Symbols → List TaggedFile → TaggedFile → FileEntry
unfolding listed_name
listed_file syms files tf = record { name = listed_name syms files tf; mtime = tf.mtime }

-- The pins that are listed: groups, and tags that were not seen and are in no listed group.
unfoldable pub unseen : List ℕ → List ℕ → List TagOrTagGroup → List TagOrTagGroup
unseen has_taggroup seen [] = []
unseen has_taggroup seen (group g ∷ pins) = group g ∷ unseen has_taggroup seen pins
unseen has_taggroup seen (tag t ∷ pins) =
    let skip = unseen has_taggroup seen pins in
    let take = unseen has_taggroup (t.id ∷ seen) pins in
    if mem t.id seen || mem t.id has_taggroup then skip else tag t ∷ take

module _ {F S R A U D : Type 0} (maps : Maps F S R A U D) (env : Env) (ms : ℕ) where
  abbrev Cached : Type 0
  Cached = OpCache.OpCache S R A U D

  abbrev Listing : Type 0
  Listing = Fuse Cached (List FileEntry)

  unfoldable pub cache_files : Text → List TaggedFile → List TaggedFile → Cached → Cached
  unfolding listed_name
  cache_files path all [] c = c
  cache_files path all (tf ∷ files) c =
      let full_path = path_join path (listed_name env.syms all tf) in
      cache_files path all files (add_readdir_entry maps c full_path (file tf) ms)

  unfoldable pub cache_groups : Text → List TagGroup → Cached → Cached
  cache_groups path [] c = c
  cache_groups path (tg ∷ groups) c =
      cache_groups path groups (add_readdir_entry maps c (path_join path tg.name) (tag_group tg) ms)

  unfoldable pub cache_tags : Text → List Tag → Cached → Cached
  cache_tags path [] c = c
  cache_tags path (t ∷ tags) c =
      cache_tags path tags (add_readdir_entry maps c (path_join path t.name) (OpCache.tag t) ms)

  unfoldable pub cache_pins : Text → List TagOrTagGroup → Cached → Cached
  cache_pins path [] c = c
  cache_pins path (group g ∷ pins) c = cache_pins path pins c
  cache_pins path (tag t ∷ pins) c =
      cache_pins path pins (add_readdir_entry maps c (path_join path t.name) (OpCache.tag t) ms)

  -- The root lists the groups, and the tags that are in none.
  unfoldable pub read_root : Listing
  unfolding grouped_ids
  read_root = do
    tags ← query get_all_tags
    tag_groups ← query get_all_tag_groups
    answer (
        map tag_entry (ungrouped (grouped_ids tag_groups) tags)
        ++ map (group_entry env.syms) tag_groups)

  -- A directory of files lists the canary and the files of its path.
  unfoldable pub read_filedir : Text → TagCollection → ℕ → Listing
  unfolding cache_files listed_file
  read_filedir path tags root_mtime = do
    intersect_files ← query (files_tagged_with tags.tags)
    change (cache_files path intersect_files intersect_files)
    answer (
        record { name = unlink_canary; mtime = root_mtime }
        ∷ map (listed_file env.syms intersect_files) intersect_files)

  -- A tag lists the groups and tags that intersect its path, and the pins below it. In a group tags
  -- are not grouped any further.
  unfoldable pub read_tagdir : Text → TagCollection → Bool → Listing
  unfolding cache_groups cache_tags cache_pins unseen grouped_ids
  read_tagdir path tags in_a_taggroup = do
    intersect_tags ← query (intersect_tag tags.tags true)
    tag_groups ← query (tag_groups_for_tags (map id_of intersect_tags))
    pinned ← query (pinned_subdirs tags.tags)
    let has_taggroup = if in_a_taggroup then [] else grouped_ids tag_groups
    let shown = ungrouped has_taggroup intersect_tags
    let pins = unseen has_taggroup (map id_of shown) pinned
    change (cache_groups path tag_groups)
    change (cache_tags path shown)
    change (cache_pins path pins)
    answer (
        (if in_a_taggroup then [] else map (group_entry env.syms) tag_groups)
        ++ map tag_entry shown
        ++ map (to_fileentry env.syms) pins)

  unfoldable pub read_as : Text → TagCollection → ℕ → TagType → Listing
  unfolding read_filedir read_tagdir
  read_as path tags root_mtime pt =
      choose (is_filedir pt) (read_filedir path tags root_mtime)
        (read_tagdir path tags (is_group pt))

  unfoldable pub readdir_supertag_root_conf : ℕ → List FileEntry
  readdir_supertag_root_conf mtime = record { name = db_file_name; mtime = mtime } ∷ []

  unfoldable pub readdir_root_filedir : Listing
  readdir_root_filedir = do
    tags ← transact from_stag (lift get_all_tags)
    answer (map tag_entry tags)

  unfoldable pub read_below : Text → TagCollection → ℕ → Listing
  unfolding read_as readdir_supertag_root_conf readdir_root_filedir
  read_below path tags root_mtime =
      choose (path_eq path conf_path) (answer (readdir_supertag_root_conf root_mtime)) (
        choose (path_eq path (slash ++ env.syms.filedir_str)) readdir_root_filedir (do
          check_pairs (taggroup_pairs tags.tags)
          pt ← or_refuse from_stag (Collection.primary_type tags)
          read_as path tags root_mtime pt))

  unfoldable pub readdir : Text → Listing
  unfolding read_root read_below
  readdir path = do
    root_mtime ← transact from_stag (lift get_root_mtime)
    let query_tags = Collection.new env.syms path
    choose (is_nil query_tags.tags) read_root (read_below path query_tags root_mtime)

  abbrev pub dots : ℕ → List FileEntry
  dots now =
      record { name = codes "."; mtime = now } ∷ record { name = codes ".."; mtime = now } ∷ []

  -- A path with files, which is neither a group nor a directory of files, has such a directory.
  unfoldable pub readdir_common : Text → Listing
  readdir_common path = do
    now ← transact from_stag (lift get_root_mtime)
    let tags = Collection.new env.syms path
    choose (is_nil tags.tags) (answer (dots now)) (do
      pt ← or_refuse from_stag (Collection.primary_type tags)
      choose (is_filedir pt || is_group pt) (answer (dots now)) (do
        intersect_files ← query (files_tagged_with tags.tags)
        choose (is_nil intersect_files) (answer (dots now))
            (answer (dots now ++ record { name = env.syms.filedir_str; mtime = now } ∷ []))))
