-- ===== src/Fuse/Getattr/Still.antt =====
-- `getattr` leaves the tables, and the processes that may not delete, as they are.
use supertag.Base.{
  ℕ, refl, false, List, [], ◌∷◌, Option, none, some, Text, text_eq, length, ◌==◌, select,
}
use supertag.Cache.OpCache
use supertag.Cache.OpCache.{Maps, check_readdir_entry}
use supertag.Db.Lookup.{get_tag}
use supertag.Db.Monad.{gets}
use supertag.Db.Select.Files.{files_tagged_with, contains_file, get_num_files}
use supertag.Db.Select.Groups.{
  get_tag_group, num_files_for_tag_group, tag_group_intersections, tag_is_in_group,
}
use supertag.Db.Select.Reads.{
  files_tagged_with-Reads, get_num_files-Reads, num_files_for_tag_group-Reads,
  tag_group_intersections-Reads,
}
use supertag.Fuse.Env.{Env}
use supertag.Fuse.Errno.{enoent}
use supertag.Fuse.Flush.{flush_readdir_cache}
use supertag.Fuse.Getattr.{
  cached_tag, cached_group, tag_stat, group_stat, two_groups, find_group, check_pairs,
  flush_stripped, stat_match, stat_device_link, stat_single, stat_link, stat_top_group,
  stat_found_group, stat_group, stat_filedir_of, named_parent, stat_below, stat_filedir,
}
use supertag.Fuse.Kept.{
  canaries, Lasting, Still, Still-bind, choose-Still, served-Still, query-Still, expect-Still,
  contains_file-Still,
}
use supertag.Fuse.Links.{cached_file}
use supertag.Fuse.Stat.{new_statfile}
use supertag.Fuse.State.{refuse, look, expect, query}
use supertag.Rows.{TaggedFile, Tag, TagGroup}
use supertag.Tags.Collection
use supertag.Tags.Collection.{TagCollection}
use supertag.Tags.Types.{DeviceFile, matches}

pub check_pairs-Still :
    {C : Type 0} ⦃l : Lasting C⦄ (pairs : List (Text × Text)) → Still {C = C} (check_pairs pairs)
unfolding check_pairs tag_is_in_group
check_pairs-Still [] = λ w. refl
check_pairs-Still ((tg, tg_tag) ∷ pairs) =
    Still-bind (query (tag_is_in_group tg tg_tag)) _
      (query-Still (tag_is_in_group tg tg_tag) (λ db. refl))
      (λ member.
        choose-Still member (check_pairs pairs) (refuse enoent) (check_pairs-Still pairs)
          (λ w. refl))

module _ {F S R A U D : Type 0} (maps : Maps F S R A U D) (env : Env) (now ms : ℕ) where
  abbrev Cached : Type 0
  Cached = OpCache.OpCache S R A U D

  pub flush_stripped-Still : (o : Option Text) → Still (flush_stripped maps env now ms o)
  unfolding flush_stripped flush_readdir_cache OpCache.clear_readdir_entry
  flush_stripped-Still none w = refl
  flush_stripped-Still (some p) w = refl

  stat_match-Still : (found : Option TaggedFile) → Still (stat_match maps env now ms found)
  stat_match-Still none w = refl
  stat_match-Still (some tf) w = refl

  pub stat_device_link-Still :
      (path : Text) (tags : TagCollection) (df : DeviceFile)
      → Still (stat_device_link maps env now ms path tags df)
  unfolding stat_device_link
  stat_device_link-Still path tags df =
      Still-bind (look (λ c. check_readdir_entry maps c path ms)) _ (λ w. refl)
        (λ cached. served-Still new_statfile (cached_file cached) _ (
          Still-bind (expect (Collection.all_but_last tags)) _
            (expect-Still (Collection.all_but_last tags))
            (λ parts.
              Still-bind (query (contains_file parts (matches df))) _
                (contains_file-Still parts (matches df)) stat_match-Still)))

  stat_single-Still :
      (path : Text) (files : List TaggedFile) → Still (stat_single maps env now ms path files)
  unfolding OpCache.add_readdir_entry
  stat_single-Still path [] w = refl
  stat_single-Still path (tf ∷ []) w = refl
  stat_single-Still path (tf ∷ tf' ∷ files) w = refl

  pub stat_link-Still :
      (path : Text) (tags : TagCollection) (sfile : Text)
      → Still (stat_link maps env now ms path tags sfile)
  unfolding stat_link
  stat_link-Still path tags sfile =
      Still-bind (look (λ c. check_readdir_entry maps c path ms)) _ (λ w. refl)
        (λ cached. served-Still new_statfile (cached_file cached) _ (
          Still-bind (expect (Collection.all_but_last tags)) _
            (expect-Still (Collection.all_but_last tags))
            (λ parts.
              Still-bind (query (files_tagged_with parts)) _
                (query-Still (files_tagged_with parts) (files_tagged_with-Reads parts))
                (λ files.
                  stat_single-Still path
                    (select (λ (tf : TaggedFile). text_eq sfile tf.primary_tag) files)))))

  stat_top_group-Still :
      (path name : Text) (tg : Option TagGroup)
      → Still (stat_top_group maps env now ms path name tg)
  unfolding stat_top_group OpCache.add_readdir_entry
  stat_top_group-Still path name none = λ w. refl
  stat_top_group-Still path name (some tg) =
      Still-bind (query (num_files_for_tag_group name)) _
        (query-Still (num_files_for_tag_group name) (num_files_for_tag_group-Reads name))
        (λ n w. refl)

  stat_found_group-Still :
      (path : Text) (tg : Option TagGroup) → Still (stat_found_group maps env now ms path tg)
  unfolding OpCache.add_readdir_entry
  stat_found_group-Still path none w = refl
  stat_found_group-Still path (some tg) w = refl

  pub stat_group-Still :
      (path : Text) (tags : TagCollection) (name : Text)
      → Still (stat_group maps env now ms path tags name)
  unfolding stat_group get_tag_group
  stat_group-Still path tags name =
      Still-bind (look (λ c. check_readdir_entry maps c path ms)) _ (λ w. refl)
        (λ cached. served-Still group_stat (cached_group cached) _ (
          choose-Still (length tags.tags == 1) _ _
            (Still-bind (query (get_tag_group name)) _
              (query-Still (get_tag_group name) (λ db. refl)) (stat_top_group-Still path name))
            (choose-Still (two_groups false tags.tags) (refuse enoent) _ (λ w. refl)
              (Still-bind (query (tag_group_intersections tags.tags)) _
                (query-Still (tag_group_intersections tags.tags)
                  (tag_group_intersections-Reads tags.tags))
                (λ groups. stat_found_group-Still path (find_group name groups))))))

  stat_filedir_of-Still :
      (path : Text) (n : ℕ) (t : Option Tag) → Still (stat_filedir_of maps env now ms path n t)
  unfolding stat_filedir_of OpCache.add_readdir_entry
  stat_filedir_of-Still path n none w = refl
  stat_filedir_of-Still path n (some t) w = refl

  stat_below-Still :
      (path : Text) (tags : TagCollection) (o : Option Text)
      → Still (stat_below maps env now ms path tags o)
  unfolding stat_below
  stat_below-Still path tags none = λ w. refl
  stat_below-Still path tags (some name) =
      Still-bind (query (gets (λ db. get_tag db name))) _
        (query-Still (gets (λ db. get_tag db name)) (λ db. refl))
        (λ maybe_tag.
          Still-bind (query (get_num_files tags.tags)) _
            (query-Still (get_num_files tags.tags) (get_num_files-Reads tags.tags))
            (λ n. stat_filedir_of-Still path n maybe_tag))

  pub stat_filedir-Still :
      (path : Text) (tags : TagCollection) → Still (stat_filedir maps env now ms path tags)
  unfolding stat_filedir
  stat_filedir-Still path tags =
      Still-bind (look (λ c. check_readdir_entry maps c path ms)) _ (λ w. refl)
        (λ cached. served-Still tag_stat (cached_tag cached) _ (
          stat_below-Still path tags
            (named_parent maps env now ms (Collection.primary_parent tags))))
