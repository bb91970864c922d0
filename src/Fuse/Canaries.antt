-- ===== src/Fuse/Canaries.antt =====
-- The changes of the cache that leave the processes that may not delete.
use supertag.Base.{ℕ, ◌≡◌, refl, ◌∙◌, List, [], ◌∷◌, Text}
use supertag.Cache.OpCache
use supertag.Cache.OpCache.{
  Maps, Request, add_readdir_entry, clear_readdir_entry, add_symlink, add_rename_delete_entry,
}
use supertag.Fuse.Flush.{
  flush_filedir_cache, flush_readdir_cache, flush_names, flush_paths_tags, clear_alias,
}
use supertag.Fuse.Env.{Env}
use supertag.Fuse.Links.{add_symlinks}
use supertag.Fuse.Readdir.{cache_files, cache_groups, cache_tags, cache_pins}
use supertag.Paths.{Component, root_dir, cur_dir, parent_dir, normal, components}
use supertag.Paths.Joined.{path_join, slash}
use supertag.Rows.{TaggedFile, Tag, TagGroup, TagOrTagGroup, tag, group}
use supertag.Symbols.{Symbols}

module _ {F S R A U D : Type 0} (maps : Maps F S R A U D) where
  abbrev Cached : Type 0
  Cached = OpCache.OpCache S R A U D

  -- The same processes may not delete.
  abbrev pub Leaves : (Cached → Cached) → Type 0
  Leaves f = (c : Cached) → (f c).unlink_canary_cache ≡ c.unlink_canary_cache

  pub add_rename_delete_entry-Leaves :
      (path : Text) (ms : ℕ) → Leaves (λ c. add_rename_delete_entry maps c path ms)
  unfolding add_rename_delete_entry
  add_rename_delete_entry-Leaves path ms c = refl

  module _ (syms : Symbols) (ms : ℕ) where
    pub clear_alias-Leaves : (path : Text) → Leaves (clear_alias maps syms ms path)
    unfolding clear_alias
    clear_alias-Leaves path c = refl

    pub flush_readdir_cache-Leaves : (path : Text) → Leaves (flush_readdir_cache maps syms ms path)
    unfolding flush_readdir_cache flush_filedir_cache clear_readdir_entry
    flush_readdir_cache-Leaves path c = refl

    flush_names-Leaves : (comps : List Component) → Leaves (flush_names maps syms ms comps)
    unfolding flush_names
    flush_names-Leaves [] c = refl
    flush_names-Leaves (normal name ∷ comps) c =
        flush_names-Leaves comps (flush_readdir_cache maps syms ms (path_join slash name) c)
        ∙ flush_readdir_cache-Leaves (path_join slash name) c
    flush_names-Leaves (root_dir ∷ comps) c = flush_names-Leaves comps c
    flush_names-Leaves (cur_dir ∷ comps) c = flush_names-Leaves comps c
    flush_names-Leaves (parent_dir ∷ comps) c = flush_names-Leaves comps c

    pub flush_paths_tags-Leaves : (path : Text) → Leaves (flush_paths_tags maps syms ms path)
    unfolding flush_paths_tags
    flush_paths_tags-Leaves path = flush_names-Leaves (components path)

  module _ (env : Env) (ms : ℕ) where
    pub add_symlinks-Leaves :
        (now : ℕ) (req : Request) (path : Text) (files : List TaggedFile)
        → Leaves (add_symlinks maps env now ms req path files)
    unfolding add_symlinks add_symlink
    add_symlinks-Leaves now req path [] c = refl
    add_symlinks-Leaves now req path (tf ∷ files) c =
        add_symlinks-Leaves now req path files (add_symlink maps c req path tf ms)

    pub cache_files-Leaves :
        (path : Text) (all files : List TaggedFile)
        → Leaves (cache_files maps env ms path all files)
    unfolding cache_files add_readdir_entry
    cache_files-Leaves path all [] c = refl
    cache_files-Leaves path all (tf ∷ files) c = cache_files-Leaves path all files _

    pub cache_groups-Leaves :
        (path : Text) (groups : List TagGroup) → Leaves (cache_groups maps env ms path groups)
    unfolding cache_groups add_readdir_entry
    cache_groups-Leaves path [] c = refl
    cache_groups-Leaves path (tg ∷ groups) c = cache_groups-Leaves path groups _

    pub cache_tags-Leaves :
        (path : Text) (tags : List Tag) → Leaves (cache_tags maps env ms path tags)
    unfolding cache_tags add_readdir_entry
    cache_tags-Leaves path [] c = refl
    cache_tags-Leaves path (t ∷ tags) c = cache_tags-Leaves path tags _

    pub cache_pins-Leaves :
        (path : Text) (pins : List TagOrTagGroup) → Leaves (cache_pins maps env ms path pins)
    unfolding cache_pins add_readdir_entry
    cache_pins-Leaves path [] c = refl
    cache_pins-Leaves path (group g ∷ pins) c = cache_pins-Leaves path pins c
    cache_pins-Leaves path (tag t ∷ pins) c = cache_pins-Leaves path pins _
