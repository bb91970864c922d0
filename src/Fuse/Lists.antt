-- ===== src/Fuse/Lists.antt =====
-- The listings leave the tables, and the processes that may not delete, as they are.
use supertag.Base.{
  ℕ, refl, ap, ◌∙◌, Bool, true, ◌||◌, if◌then◌else◌, List, [], ◌∷◌, ◌++◌, map, Text,
}
use supertag.Cache.OpCache.{Maps}
use supertag.Db.Lookup.{get_root_mtime}
use supertag.Db.Monad.{lift}
use supertag.Db.Pins.{pinned_subdirs}
use supertag.Db.Pins.Reads.{pinned_subdirs-Reads}
use supertag.Db.Remove.{is_nil}
use supertag.Db.Select.Files.{files_tagged_with}
use supertag.Db.Select.Groups.{get_all_tag_groups, tag_groups_for_tags}
use supertag.Db.Select.Reads.{
  files_tagged_with-Reads, intersect_tag-Reads, tag_groups_for_tags-Reads,
}
use supertag.Db.Select.Tags.{get_all_tags, intersect_tag}
use supertag.Fuse.Canaries.{
  Leaves, cache_files-Leaves, cache_groups-Leaves, cache_tags-Leaves, cache_pins-Leaves,
}
use supertag.Fuse.Env.{Env, or_refuse}
use supertag.Fuse.Errno.{from_stag}
use supertag.Fuse.Flush.{is_filedir}
use supertag.Fuse.Getattr.{conf_path, check_pairs}
use supertag.Fuse.Getattr.Still.{check_pairs-Still}
use supertag.Fuse.Getattr.Whole.{root_mtime-Reads}
use supertag.Fuse.Kept.{
  canaries, Still, Still-bind, choose-Still, query-Still, transact-Still, or_refuse-Still,
}
use supertag.Fuse.Readdir.{
  is_group, id_of, grouped_ids, ungrouped, unseen, cache_groups, cache_tags, cache_pins, read_root,
  read_filedir, read_tagdir, read_as, readdir_supertag_root_conf, readdir_root_filedir, read_below,
  readdir, dots, readdir_common,
}
use supertag.Fuse.State.{answer, transact, query}
use supertag.Paths.Joined.{path_eq, slash}
use supertag.Rows.{Tag, TagGroup, TagOrTagGroup}
use supertag.Tags.Collect.{taggroup_pairs}
use supertag.Tags.Collection
use supertag.Tags.Collection.{TagCollection}
use supertag.Tags.Types.{TagType}

module _ {F S R A U D : Type 0} (maps : Maps F S R A U D) (env : Env) (ms : ℕ) where
  read_root-Still : Still (read_root maps env ms)
  unfolding read_root get_all_tags get_all_tag_groups
  read_root-Still w = refl

  read_filedir-Still :
      (path : Text) (tags : TagCollection) (mtime : ℕ)
      → Still (read_filedir maps env ms path tags mtime)
  unfolding read_filedir
  read_filedir-Still path tags mtime =
      Still-bind (query (files_tagged_with tags.tags)) _
        (query-Still (files_tagged_with tags.tags) (files_tagged_with-Reads tags.tags))
        (λ files w.
          ap (λ u. (w.db, u)) (cache_files-Leaves maps env ms path files files w.op_cache))

  -- What a tag lists is put into the cache.
  cached_tagdir :
      (path : Text) (groups : List TagGroup) (tags : List Tag) (pins : List TagOrTagGroup)
      → Leaves maps (λ c.
        cache_pins maps env ms path pins
          (cache_tags maps env ms path tags (cache_groups maps env ms path groups c)))
  cached_tagdir path groups tags pins c =
      cache_pins-Leaves maps env ms path pins _
      ∙ cache_tags-Leaves maps env ms path tags _
      ∙ cache_groups-Leaves maps env ms path groups c

  read_tagdir-Still :
      (path : Text) (tags : TagCollection) (in_a_taggroup : Bool)
      → Still (read_tagdir maps env ms path tags in_a_taggroup)
  unfolding read_tagdir
  read_tagdir-Still path tags in_a_taggroup =
      Still-bind (query (intersect_tag tags.tags true)) _
        (query-Still (intersect_tag tags.tags true) (intersect_tag-Reads tags.tags true))
        (λ itags.
          Still-bind (query (tag_groups_for_tags (map id_of itags))) _
            (query-Still (tag_groups_for_tags (map id_of itags))
              (tag_groups_for_tags-Reads (map id_of itags)))
            (λ groups.
              Still-bind (query (pinned_subdirs tags.tags)) _
                (query-Still (pinned_subdirs tags.tags) (pinned_subdirs-Reads tags.tags))
                (λ pinned w.
                  let has_taggroup = if in_a_taggroup then [] else grouped_ids groups in
                  let shown = ungrouped has_taggroup itags in
                  let pins = unseen has_taggroup (map id_of shown) pinned in
                  ap (λ u. (w.db, u)) (cached_tagdir path groups shown pins w.op_cache))))

  read_as-Still :
      (path : Text) (tags : TagCollection) (mtime : ℕ) (t : TagType)
      → Still (read_as maps env ms path tags mtime t)
  unfolding read_as
  read_as-Still path tags mtime t =
      choose-Still (is_filedir t) (read_filedir maps env ms path tags mtime)
        (read_tagdir maps env ms path tags (is_group t)) (read_filedir-Still path tags mtime)
        (read_tagdir-Still path tags (is_group t))

  root_filedir-Still : Still (readdir_root_filedir maps env ms)
  unfolding readdir_root_filedir get_all_tags
  root_filedir-Still w = refl

  read_below-Still :
      (path : Text) (tags : TagCollection) (mtime : ℕ)
      → Still (read_below maps env ms path tags mtime)
  unfolding read_below
  read_below-Still path tags mtime =
      choose-Still (path_eq path conf_path) (answer (readdir_supertag_root_conf maps env ms mtime))
        _ (λ w. refl)
        (choose-Still (path_eq path (slash ++ env.syms.filedir_str))
          (readdir_root_filedir maps env ms) _ root_filedir-Still
          (Still-bind (check_pairs (taggroup_pairs tags.tags)) _
            (check_pairs-Still (taggroup_pairs tags.tags))
            (λ _.
              Still-bind (or_refuse from_stag (Collection.primary_type tags)) _
                (or_refuse-Still from_stag (Collection.primary_type tags))
                (read_as-Still path tags mtime))))

  pub readdir-Still : (path : Text) → Still (readdir maps env ms path)
  unfolding readdir
  readdir-Still path =
      let tags = Collection.new env.syms path in
      Still-bind (transact from_stag (lift get_root_mtime)) _
        (transact-Still from_stag (lift get_root_mtime) root_mtime-Reads)
        (λ mtime.
          choose-Still (is_nil tags.tags) (read_root maps env ms)
            (read_below maps env ms path tags mtime) read_root-Still
            (read_below-Still path tags mtime))

  pub readdir_common-Still : (path : Text) → Still (readdir_common maps env ms path)
  unfolding readdir_common
  readdir_common-Still path =
      let tags = Collection.new env.syms path in
      let some_files = λ (mtime : ℕ).
        dots maps env ms mtime ++ record { name = env.syms.filedir_str; mtime = mtime } ∷ [] in
      Still-bind (transact from_stag (lift get_root_mtime)) _
        (transact-Still from_stag (lift get_root_mtime) root_mtime-Reads)
        (λ mtime.
          choose-Still (is_nil tags.tags) (answer (dots maps env ms mtime)) _ (λ w. refl)
            (Still-bind (or_refuse from_stag (Collection.primary_type tags)) _
              (or_refuse-Still from_stag (Collection.primary_type tags))
              (λ t.
                choose-Still (is_filedir t || is_group t) (answer (dots maps env ms mtime)) _
                  (λ w. refl)
                  (Still-bind (query (files_tagged_with tags.tags)) _
                    (query-Still (files_tagged_with tags.tags) (files_tagged_with-Reads tags.tags))
                    (λ files.
                      choose-Still (is_nil files) (answer (dots maps env ms mtime))
                        (answer (some_files mtime)) (λ w. refl) (λ w. refl))))))
