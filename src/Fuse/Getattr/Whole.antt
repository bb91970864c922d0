-- ===== src/Fuse/Getattr/Whole.antt =====
-- The directory of a tag, and `getattr` as a whole, leave the tables, and the processes that may not
-- delete, as they are.
use supertag.Base.{
  ℕ, refl, true, List, [], ◌∷◌, Option, none, some, Text, length, last?, ltb, ends_with, ok, err,
}
use supertag.Cache.OpCache
use supertag.Cache.OpCache.{
  Maps, Request, check_readdir_entry, consume_symlink, consume_rename_delete,
}
use supertag.Db.Lookup.{get_tag, get_root_mtime}
use supertag.Db.Monad.{gets, lift}
use supertag.Db.Pins.{is_pinned}
use supertag.Db.Select.Groups.{get_tag_group}
use supertag.Db.Select.Reads.{Reads, intersect_tag-Reads}
use supertag.Db.Select.Tags.{intersect_tag, init}
use supertag.Errors.{STagResult}
use supertag.Fuse.Env.{Env, or_refuse, expect_ok, strip_sync_char}
use supertag.Fuse.Errno.{shim, from_stag, enoent}
use supertag.Fuse.Getattr.{
  tracker_ignore, conf_path, cached_tag, tag_stat, find_tag, check_pairs, stat_synced,
}
use supertag.Fuse.Getattr.Still.{
  check_pairs-Still, flush_stripped-Still, stat_device_link-Still, stat_link-Still,
  stat_group-Still, stat_filedir-Still,
}
use supertag.Fuse.Getattr.Tagdirs.{
  new_dir_perms, stat_pinned, stat_record, stat_group_record, stat_top_tag, stat_intersection,
  stat_tag_in_db, stat_tag, stat_as, stat_tags, getattr_supertag_root_conf, stat_root, stat_path,
  stat_empty, getattr,
}
use supertag.Fuse.Kept.{
  canaries, Lasting, Still, Still-bind, choose-Still, served-Still, query-Still, transact-Still,
  unwrap_query-Still, or_refuse-Still, expect-Still,
}
use supertag.Fuse.Links.{db_file_path, unlink_canary}
use supertag.Fuse.Stat.{new_dir, new_link, db_file}
use supertag.Fuse.State.{answer, refuse, look, expect, transact, query, take_out, unwrap_query}
use supertag.Names.{get_filename}
use supertag.Paths.Joined.{parent, path_eq, path_starts_with, ends_with_name, slash}
use supertag.Rows.{TaggedFile, Tag, TagGroup}
use supertag.Rows.Int.{pos}
use supertag.Settings.{path_to_tags}
use supertag.Tags.Collect.{taggroup_pairs}
use supertag.Tags.Collection
use supertag.Tags.Collection.{TagCollection}
use supertag.Tags.Types.{TagType, regular, negation, group, file_dir, device_file_symlink, symlink}

expect_ok-Still : {C X : Type 0} ⦃l : Lasting C⦄ (r : STagResult X) → Still {C = C} (expect_ok r)
expect_ok-Still (ok x) w = refl
expect_ok-Still (err e) w = tt

pub root_mtime-Reads : Reads (lift get_root_mtime)
unfolding get_root_mtime
root_mtime-Reads db = refl

module _ {F S R A U D : Type 0} (maps : Maps F S R A U D) (env : Env) (now ms : ℕ) where
  stat_record-Still : (o : Option Tag) → Still (stat_record maps env now ms o)
  stat_record-Still none w = refl
  stat_record-Still (some t) w = refl

  stat_group_record-Still : (o : Option TagGroup) → Still (stat_group_record maps env now ms o)
  stat_group_record-Still none w = refl
  stat_group_record-Still (some g) w = refl

  stat_pinned-Still : (o : Option TagType) → Still (stat_pinned maps env now ms o)
  unfolding stat_pinned get_tag_group
  stat_pinned-Still none = λ w. tt
  stat_pinned-Still (some (regular name)) =
      Still-bind (query (gets (λ db. get_tag db name))) _
        (query-Still (gets (λ db. get_tag db name)) (λ db. refl)) stat_record-Still
  stat_pinned-Still (some (group name)) =
      Still-bind (query (get_tag_group name)) _ (query-Still (get_tag_group name) (λ db. refl))
        stat_group_record-Still
  stat_pinned-Still (some (negation _)) = λ w. refl
  stat_pinned-Still (some file_dir) = λ w. refl
  stat_pinned-Still (some (device_file_symlink _)) = λ w. refl
  stat_pinned-Still (some (symlink _)) = λ w. refl

  stat_top_tag-Still : (path : Text) (o : Option Tag) → Still (stat_top_tag maps env now ms path o)
  unfolding OpCache.add_readdir_entry
  stat_top_tag-Still path none w = refl
  stat_top_tag-Still path (some t) w = refl

  stat_intersection-Still :
      (path : Text) (tags : List TagType) (o : Option Tag)
      → Still (stat_intersection maps env now ms path tags o)
  unfolding OpCache.add_readdir_entry
  stat_intersection-Still path tags (some t) = λ w. refl
  stat_intersection-Still path tags none =
      Still-bind (query (gets (λ db. is_pinned db tags))) _
        (query-Still (gets (λ db. is_pinned db tags)) (λ db. refl))
        (λ pinned.
          choose-Still pinned (stat_pinned maps env now ms (last? tags)) (refuse enoent)
            (stat_pinned-Still (last? tags)) (λ w. refl))

  stat_tag_in_db-Still :
      (path name : Text) (tags : List TagType)
      → Still (stat_tag_in_db maps env now ms path name tags)
  unfolding stat_tag_in_db
  stat_tag_in_db-Still path name tags =
      choose-Still (ltb 1 (length tags)) _ _
        (Still-bind (unwrap_query (intersect_tag (init tags) true)) _
          (unwrap_query-Still (intersect_tag (init tags) true)
            (intersect_tag-Reads (init tags) true))
          (λ itags. stat_intersection-Still path tags (find_tag name itags)))
        (Still-bind (query (gets (λ db. get_tag db name))) _
          (query-Still (gets (λ db. get_tag db name)) (λ db. refl)) (stat_top_tag-Still path))

  stat_tag-Still :
      (req : Request) (path name : Text) → Still (stat_tag maps env now ms req path name)
  unfolding stat_tag consume_symlink consume_rename_delete
  stat_tag-Still req path name =
      Still-bind (look (λ c. check_readdir_entry maps c path ms)) _ (λ w. refl)
        (λ cached. served-Still tag_stat (cached_tag cached) _ (
          Still-bind (take_out (λ c. consume_symlink maps c req path ms)) _ (λ w. refl)
            (λ linked.
              served-Still (λ (f : TaggedFile). new_link now f.uid f.gid f.permissions 0) linked _
                (Still-bind (take_out (λ c. consume_rename_delete maps c path ms)) _ (λ w. refl)
                  (λ deleted.
                    choose-Still deleted
                      (answer (new_dir now req.uid req.gid (new_dir_perms req) (pos 0)))
                      (stat_tag_in_db maps env now ms path name (path_to_tags env.syms path))
                      (λ w. refl) (stat_tag_in_db-Still path name (path_to_tags env.syms path)))))))

  strip_sync_char-Still :
      (path : Text) → Still {C = OpCache.OpCache S R A U D} (strip_sync_char env.syms path)
  unfolding strip_sync_char
  strip_sync_char-Still path =
      Still-bind (expect_ok (get_filename path)) _ (expect_ok-Still (get_filename path)) (λ fname.
        choose-Still (ends_with fname (env.syms.sync_char ∷ [])) _ _
          (Still-bind (expect (parent path)) _ (expect-Still (parent path)) (λ up w. refl))
          (λ w. refl))

  stat_synced-Still : (path : Text) → Still (stat_synced maps env now ms path)
  unfolding stat_synced
  stat_synced-Still path =
      Still-bind (strip_sync_char env.syms path) _ (strip_sync_char-Still path)
        (flush_stripped-Still maps env now ms)

  stat_as-Still :
      (req : Request) (path : Text) (tags : TagCollection) (t : TagType)
      → Still (stat_as maps env now ms req path tags t)
  unfolding stat_as
  stat_as-Still req path tags (symlink sfile) =
      choose-Still tags.unlinking (stat_synced maps env now ms path) _ (stat_synced-Still path)
        (stat_link-Still maps env now ms path tags sfile)
  stat_as-Still req path tags (device_file_symlink df) =
      choose-Still tags.unlinking (stat_synced maps env now ms path) _ (stat_synced-Still path)
        (stat_device_link-Still maps env now ms path tags df)
  stat_as-Still req path tags (regular name) =
      choose-Still tags.unlinking (stat_synced maps env now ms path) _ (stat_synced-Still path)
        (stat_tag-Still req path name)
  stat_as-Still req path tags (group name) =
      choose-Still tags.unlinking (stat_synced maps env now ms path) _ (stat_synced-Still path)
        (stat_group-Still maps env now ms path tags name)
  stat_as-Still req path tags file_dir = stat_filedir-Still maps env now ms path tags
  stat_as-Still req path tags (negation name) = stat_tag-Still req path name

  stat_tags-Still : (req : Request) (path : Text) → Still (stat_tags maps env now ms req path)
  unfolding stat_tags
  stat_tags-Still req path =
      let tags = Collection.new env.syms path in
      Still-bind (or_refuse shim (Collection.primary_type tags)) _
        (or_refuse-Still shim (Collection.primary_type tags))
        (λ t.
          Still-bind (check_pairs (taggroup_pairs tags.tags)) _
            (check_pairs-Still (taggroup_pairs tags.tags)) (λ _. stat_as-Still req path tags t))

  stat_root-Still : Still (stat_root maps env now ms)
  unfolding stat_root get_root_mtime
  stat_root-Still w = refl

  conf-Still :
      (req : Request) (path : Text) (mtime : ℕ)
      → Still (getattr_supertag_root_conf maps env now ms req path mtime)
  unfolding getattr_supertag_root_conf
  conf-Still req path mtime =
      choose-Still (path_eq path db_file_path) (answer (db_file req.uid req.gid mtime))
        (refuse enoent) (λ w. refl) (λ w. refl)

  stat_path-Still :
      (req : Request) (path : Text) (mtime : ℕ) → Still (stat_path maps env now ms req path mtime)
  unfolding stat_path
  stat_path-Still req path mtime =
      choose-Still (path_eq path conf_path)
        (answer (new_dir mtime req.uid req.gid (new_dir_perms req) (pos 0))) _ (λ w. refl)
        (choose-Still (path_starts_with path conf_path)
          (getattr_supertag_root_conf maps env now ms req path mtime) _ (conf-Still req path mtime)
          (choose-Still (path_eq path slash) (stat_root maps env now ms)
            (stat_tags maps env now ms req path) stat_root-Still (stat_tags-Still req path)))

  pub getattr-Still : (req : Request) (path : Text) → Still (getattr maps env now ms req path)
  unfolding getattr
  getattr-Still req path =
      Still-bind (transact from_stag (lift get_root_mtime)) _
        (transact-Still from_stag (lift get_root_mtime) root_mtime-Reads)
        (λ mtime.
          choose-Still (ends_with_name path tracker_ignore) (stat_empty maps env now ms req mtime) _
            (λ w. refl)
            (choose-Still (ends_with_name path unlink_canary) (stat_empty maps env now ms req mtime)
              _ (λ w. refl) (stat_path-Still req path mtime)))
