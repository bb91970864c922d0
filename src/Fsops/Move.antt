-- ===== src/Fsops/Move.antt =====
-- common/fsops/mv.rs: `move_or_merge`.
use supertag.Base.{
  ℕ, Bool, true, false, ◌&&◌, List, [], ◌∷◌, ◌++◌, none, some, Text, text_eq, codes, ◌==◌,
}
use supertag.Db.Ensure.{ensure_tag_group, add_tag_to_group}
use supertag.Db.Intersect.{merge_tags}
use supertag.Db.Lookup.{tag_exists, tag_group_exists}
use supertag.Db.Monad.{STag, pure, fail, gets, lift, map_err, or_fail, unwrap, ◌>>=◌, ◌>>◌}
use supertag.Db.Pins.{pin_tags}
use supertag.Db.Remove.{is_nil, remove_tag}
use supertag.Db.Rename.{rename_tag, rename_tag_group, rename_file}
use supertag.Db.Select.Files.{files_tagged_with, contains_file}
use supertag.Db.Store.{Engine}
use supertag.Errors.{
  SqlError, STagError, constraint_violation, query_returned_no_rows, other_failure, bad_tag,
  bad_tag_group, invalid_path, path_exists, other, sql,
}
use supertag.Fsops.{Notifier, from_result, ignore}
use supertag.Names.{creatable_tag_group, get_filename, primary_tag}
use supertag.Perms.Umask
use supertag.Perms.Umask.{UMask}
use supertag.Rows.{TaggedFile}
use supertag.Symbols.{Symbols}
use supertag.Tags.Collection
use supertag.Tags.Collection.{TagCollection}
use supertag.Tags.Collect.{collect_regular_names, collect_pinnable}
use supertag.Tags.Types
use supertag.Tags.Types.{TagType, regular, negation, group, file_dir, device_file_symlink, symlink}

-- `map_rename`
abbrev pub map_rename : Text → SqlError → STagError
map_rename dst constraint_violation = path_exists dst
map_rename dst query_returned_no_rows = other (sql query_returned_no_rows)
map_rename dst other_failure = other (sql other_failure)

-- The derived `PartialEq` of `TagType`
abbrev pub same_tag : TagType → TagType → Bool
same_tag (regular a) (regular b) = text_eq a b
same_tag (negation a) (negation b) = text_eq a b
same_tag (group a) (group b) = text_eq a b
same_tag file_dir file_dir = true
same_tag (device_file_symlink a) (device_file_symlink b) =
    text_eq a.filename b.filename && a.device == b.device && a.inode == b.inode
same_tag (symlink a) (symlink b) = text_eq a b
same_tag _ _ = false

module _ (engine : Engine) (syms : Symbols) (notifier : Notifier) (uid gid : ℕ) (umask : UMask)
    (now : ℕ) where
  -- A tag moved onto a tag: renamed, or merged into one that exists.
  unfoldable pub move_to_tag : Text → List TagType → Text → TagCollection → STag (Unit {0})
  move_to_tag src_tag src_tags new_name dst_tags = do
    exists ← gets (λ db. tag_exists db new_name)
    elim exists [
      | false ↦ lift (rename_tag src_tag new_name now)
      | true ↦ lift (merge_tags engine src_tag src_tags (collect_regular_names dst_tags.tags) now)
    ]

  -- A group that is missing: a tag without files becomes it.
  unfoldable pub become_group : Text → Text → List TaggedFile → STag (Unit {0})
  become_group src_tag new_name tagged_files = elim (is_nil tagged_files) [
    | true ↦ do
      lift (remove_tag src_tag now true)
      lift (ensure_tag_group engine new_name uid gid (Umask.dir_perms umask) now)
    | false ↦ do ignore (notifier.tag_to_tg src_tag); fail (bad_tag_group new_name)
  ]

  -- A tag without files that joined a group is pinned below it.
  unfoldable pub pin_moved : Text → TagCollection → List TaggedFile → STag (Unit {0})
  pin_moved src_tag dst_tags tagged_files = elim (is_nil tagged_files) [
    | false ↦ pure tt
    | true ↦ elim (is_nil (collect_pinnable dst_tags.tags)) [
      | true ↦ pure tt
      | false ↦ lift (
          pin_tags engine uid gid (Umask.dir_perms umask) now
            (collect_pinnable dst_tags.tags ++ regular src_tag ∷ []))
    ]
  ]

  unfoldable pub move_to_group : Text → Text → TagCollection → STag (Unit {0})
  unfolding become_group pin_moved
  move_to_group src_tag new_name dst_tags = elim (creatable_tag_group syms new_name) [
    | false ↦ fail (bad_tag_group new_name)
    | true ↦ do
      tagged_files ← lift (files_tagged_with (regular src_tag ∷ []))
      exists ← gets (λ db. tag_group_exists db new_name)
      elim exists [
        | false ↦ become_group src_tag new_name tagged_files
        | true ↦ do
          lift (add_tag_to_group src_tag new_name uid gid (Umask.dir_perms umask) now)
          pin_moved src_tag dst_tags tagged_files
      ]
  ]

  -- The destination without the name of the source at its end.
  unfoldable pub without_same : TagCollection → TagCollection → STag TagCollection
  without_same src_tags dst_tags = do
    src_last ← unwrap (Collection.last src_tags)
    dst_last ← unwrap (Collection.last dst_tags)
    elim (same_tag src_last dst_last) [
      | true ↦ pure (Collection.pop dst_tags).0
      | false ↦ pure dst_tags
    ]

  -- By the type of the destination's last part
  unfoldable pub move_to : Text → List TagType → TagCollection → TagType → STag (Unit {0})
  unfolding move_to_tag move_to_group
  move_to src_tag src_tags dst_tags (regular new_name) =
      move_to_tag src_tag src_tags new_name dst_tags
  move_to src_tag src_tags dst_tags (group new_name) = move_to_group src_tag new_name dst_tags
  move_to src_tag src_tags dst_tags _ = fail (bad_tag (codes "unknown"))

  unfoldable pub move_tag : Text → TagCollection → TagCollection → STag (Unit {0})
  unfolding move_to without_same
  move_tag src_tag src_tags all_dst_tags = do
    exists ← gets (λ db. tag_exists db src_tag)
    elim exists [
      | false ↦ fail (bad_tag src_tag)
      | true ↦ do
        dst_tags ← without_same src_tags all_dst_tags
        pt ← from_result (Collection.primary_type dst_tags)
        move_to src_tag src_tags.tags dst_tags pt
    ]

  unfoldable pub rename_group_to : Text → Text → TagType → STag (Unit {0})
  rename_group_to dst tag_group (group new_name) = lift (rename_tag_group tag_group new_name now)
  rename_group_to dst tag_group (regular new_name) = lift (rename_tag_group tag_group new_name now)
  rename_group_to dst tag_group _ = fail (invalid_path dst)

  unfoldable pub move_group : Text → Text → TagCollection → STag (Unit {0})
  unfolding rename_group_to
  move_group dst tag_group dst_tags = do
    pt ← from_result (Collection.primary_type dst_tags)
    rename_group_to dst tag_group pt

  -- The file is found below the path of the link first.
  unfoldable pub move_link : Text → Text → Text → TagCollection → STag (Unit {0})
  move_link src dst filename src_tags = do
    new_name ← from_result (get_filename dst)
    maybe_tf ←
        lift (contains_file src_tags.tags (λ (tf : TaggedFile). text_eq tf.primary_tag filename))
    elim maybe_tf [
      | none ↦ fail (invalid_path src)
      | some tf ↦ map_err (map_rename dst) (rename_file (Types.from_tagged_file tf) new_name now)
    ]

  -- By the type of the source's last part
  unfoldable pub move_from : Text → Text → TagCollection → TagCollection → TagType → STag (Unit {0})
  unfolding move_tag move_group move_link
  move_from src dst src_tags dst_tags (device_file_symlink device_file) = do
    maybe_name ← from_result (primary_tag dst syms.device_char)
    new_name ← or_fail maybe_name (invalid_path dst)
    map_err (map_rename dst) (rename_file device_file new_name now)
  move_from src dst src_tags dst_tags (symlink filename) = move_link src dst filename src_tags
  move_from src dst src_tags dst_tags (regular src_tag) = move_tag src_tag src_tags dst_tags
  move_from src dst src_tags dst_tags (group tag_group) = move_group dst tag_group dst_tags
  move_from src dst src_tags dst_tags _ = fail (invalid_path src)

  unfoldable pub move_or_merge : Text → Text → STag (Unit {0})
  unfolding move_from
  move_or_merge src dst = do
    let src_tags = Collection.new syms src
    let dst_tags = Collection.new syms dst
    src_pt ← from_result (Collection.primary_type src_tags)
    move_from src dst src_tags dst_tags src_pt
