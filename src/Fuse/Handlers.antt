-- ===== src/Fuse/Handlers.antt =====
-- Every handler keeps what the transactions keep.
use supertag.Base.{ℕ, refl, Bool, true, false, Option, none, some, Text, text_eq, ok, err}
use supertag.Cache.Alias.{Alias}
use supertag.Cache.OpCache
use supertag.Cache.OpCache.{Maps, check_readdir_entry, check_alias_entry}
use supertag.Db.Store.{Db}
use supertag.Db.Select.Files.{contains_file}
use supertag.Errors.{
  STagResult, bad_tag, bad_tag_group, database_error, not_enough_tags, invalid_path,
  non_collection_path, bad_device_file, path_exists, recursive_link, io_error, other,
}
use supertag.Fuse.Dirs.{remove_tag_dir}
use supertag.Fuse.Env.{Env, or_refuse, io, notified}
use supertag.Fuse.Errno.{enoent, enosys, shim, from_stag}
use supertag.Fuse.Flush.{is_filedir}
use supertag.Fuse.Kept.{
  canaries, Lasting, Still, Kept, Still-bind, or_refuse-Still, io-Still, expect-Still,
  notified-Still, contains_file-Still,
}
use supertag.Fuse.Links.{
  cached_file, cached_link, db_file_path, link_to_db, serve_link, read_link_at, readlink, create,
  find_alias, resolve_as, resolve_to_alias_file, open_path,
}
use supertag.Fuse.Stat.{open_opts_from_mode}
use supertag.Fuse.State.{Fuse, answer, refuse, query, look, expect, ◌>>◌}
use supertag.Paths.Joined.{path_eq}
use supertag.Rows.{TaggedFile}
use supertag.Tags.Collection
use supertag.Tags.Collection.{TagCollection}
use supertag.Tags.Types.{
  TagType, matches, regular, negation, group, file_dir, device_file_symlink, symlink,
}

-- A choice on a test
pub Still-if :
    {C X : Type 0} ⦃l : Lasting C⦄ (b : Bool) (m m' : Fuse C X)
    → Still m
    → Still m'
    → Still {C = C} {X = X} (elim b [ true ↦ m | false ↦ m' ])
Still-if true m m' h h' = h
Still-if false m m' h h' = h'

pub Kept-if :
    {C X : Type 0} (J : Db → Type 0) (b : Bool) (m m' : Fuse C X)
    → Kept J m
    → Kept J m'
    → Kept {C = C} {X = X} J (elim b [ true ↦ m | false ↦ m' ])
Kept-if J true m m' h h' = h
Kept-if J false m m' h h' = h'

module _ {F S R A U D : Type 0} (maps : Maps F S R A U D) (env : Env) (now ms : ℕ) where
  abbrev Cached : Type 0
  Cached = OpCache.OpCache S R A U D

  serve_link-Still :
      (path : Text) (found : Option TaggedFile) → Still (serve_link maps env now ms path found)
  unfolding serve_link OpCache.add_readdir_entry
  serve_link-Still path none w = refl
  serve_link-Still path (some tf) w = refl

  link_to_db-Still : (path : Text) → Still (link_to_db maps env now ms path)
  unfolding link_to_db
  link_to_db-Still path =
      Still-if {C = Cached} (path_eq path db_file_path) (answer env.db_path) (refuse enoent)
        (λ w. refl) (λ w. refl)

  read_link_at-Still :
      (path : Text) (tags : TagCollection) (t : TagType)
      → Still (read_link_at maps env now ms path tags t)
  unfolding read_link_at
  read_link_at-Still path tags (device_file_symlink df) =
      Still-bind (query (contains_file tags.tags (matches df))) _
        (contains_file-Still tags.tags (matches df)) (serve_link-Still path)
  read_link_at-Still path tags (symlink filename) =
      let named = λ (tf : TaggedFile). text_eq tf.primary_tag filename in
      Still-bind (query (contains_file tags.tags named)) _ (contains_file-Still tags.tags named)
        (serve_link-Still path)
  read_link_at-Still path tags (regular _) = link_to_db-Still path
  read_link_at-Still path tags (negation _) = link_to_db-Still path
  read_link_at-Still path tags (group _) = link_to_db-Still path
  read_link_at-Still path tags file_dir = link_to_db-Still path

  cached_or :
      (path : Text) (tags : TagCollection) (t : TagType) (found : Option TaggedFile)
      → Still {C = Cached} {X = Text} (elim found [
        | some tf ↦ answer tf.path
        | none ↦ read_link_at maps env now ms path tags t
      ])
  cached_or path tags t none = read_link_at-Still path tags t
  cached_or path tags t (some tf) = λ w. refl

  pub readlink-Still : (path : Text) → Still (readlink maps env now ms path)
  unfolding readlink
  readlink-Still path =
      let tags = Collection.new env.syms path in
      Still-bind (or_refuse shim (Collection.primary_type tags)) _
        (or_refuse-Still shim (Collection.primary_type tags))
        (λ t.
          Still-bind (look (λ c. check_readdir_entry maps c path ms)) _ (λ w. refl)
            (λ cached. cached_or path tags t (cached_file cached)))

  -- The alias is looked up where no cache has it.
  find_alias-Still :
      (tags : TagCollection) (t : TagType) → Still (find_alias maps env now ms tags t)
  unfolding find_alias
  find_alias-Still tags (device_file_symlink df) =
      Still-bind (expect (Collection.all_but_last tags)) _
        (expect-Still (Collection.all_but_last tags))
        (λ parts.
          Still-bind (query (contains_file parts (matches df))) _
            (contains_file-Still parts (matches df)) (λ found w. refl))
  find_alias-Still tags (symlink primary_tag) =
      let named = λ (tf : TaggedFile). text_eq tf.primary_tag primary_tag in
      Still-bind (expect (Collection.all_but_last tags)) _
        (expect-Still (Collection.all_but_last tags))
        (λ parts.
          Still-bind (query (contains_file parts named)) _ (contains_file-Still parts named)
            (λ found w. refl))
  find_alias-Still tags (regular _) = λ w. refl
  find_alias-Still tags (negation _) = λ w. refl
  find_alias-Still tags (group _) = λ w. refl
  find_alias-Still tags file_dir = λ w. refl

  remembered :
      (tags : TagCollection) (t : TagType) (link : Option TaggedFile) (alias : Option (Alias F))
      → Still {C = Cached} {X = Option Text} (elim link [
        | some tf ↦ answer tf.alias_file
        | none ↦ elim alias [
          | some bmark ↦ answer (some bmark.managed_file)
          | none ↦ find_alias maps env now ms tags t
        ]
      ])
  remembered tags t (some tf) alias = λ w. refl
  remembered tags t none (some bmark) = λ w. refl
  remembered tags t none none = find_alias-Still tags t

  resolve_as-Still :
      (path : Text) (tags : TagCollection) (r : STagResult TagType)
      → Still (resolve_as maps env now ms path tags r)
  unfolding resolve_as
  resolve_as-Still path tags (ok t) =
      Still-bind (look (λ c. check_readdir_entry maps c path ms)) _ (λ w. refl)
        (λ cached.
          Still-bind (look (λ c. check_alias_entry maps c path ms)) _ (λ w. refl)
            (λ alias. remembered tags t (cached_link t cached) alias))
  resolve_as-Still path tags (err not_enough_tags) = λ w. refl
  resolve_as-Still path tags (err (bad_tag _)) = λ w. refl
  resolve_as-Still path tags (err (bad_tag_group _)) = λ w. refl
  resolve_as-Still path tags (err (database_error _)) = λ w. refl
  resolve_as-Still path tags (err (invalid_path _)) = λ w. refl
  resolve_as-Still path tags (err (non_collection_path _)) = λ w. refl
  resolve_as-Still path tags (err (bad_device_file _)) = λ w. refl
  resolve_as-Still path tags (err (path_exists _)) = λ w. refl
  resolve_as-Still path tags (err (recursive_link _)) = λ w. refl
  resolve_as-Still path tags (err (io_error _)) = λ w. refl
  resolve_as-Still path tags (err (other _)) = λ w. refl

  opened :
      (flags : ℕ) (managed : Option Text)
      → Still {C = Cached} {X = ℕ} (elim managed [
        | some file_path ↦ io (env.open_file (open_opts_from_mode flags) file_path)
        | none ↦ refuse enoent
      ])
  opened flags none = λ w. refl
  opened flags (some file_path) = io-Still (env.open_file (open_opts_from_mode flags) file_path)

  pub open_path-Still : (path : Text) (flags : ℕ) → Still (open_path maps env now ms path flags)
  unfolding open_path resolve_to_alias_file
  open_path-Still path flags =
      let tags = Collection.new env.syms path in
      Still-bind (resolve_as maps env now ms path tags (Collection.primary_type tags)) _
        (resolve_as-Still path tags (Collection.primary_type tags)) (opened flags)

  pub create-Still : Still (create maps env now ms)
  unfolding create
  create-Still =
      Still-bind (notified env.notifier.bad_copy) _ (notified-Still env.notifier.bad_copy)
        (λ _ w. refl)

  pub remove_tag_dir-Still : (path : Text) → Still (remove_tag_dir maps env now ms path)
  unfolding remove_tag_dir
  remove_tag_dir-Still path =
      let tags = Collection.new env.syms path in
      let sent = env.notifier.unlink (env.abs_mountpoint path) in
      Still-bind (or_refuse from_stag (Collection.primary_type tags)) _
        (or_refuse-Still from_stag (Collection.primary_type tags))
        (λ t.
          Still-if (is_filedir t) (answer tt) (notified sent >> refuse enosys) (λ w. refl)
            (Still-bind (notified sent) _ (notified-Still sent) (λ _ w. refl)))
