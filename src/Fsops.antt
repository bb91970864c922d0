-- ===== src/Fsops.antt =====
-- common/fsops: what the command line and the mounted file system call, on a transaction. The time
-- is an argument.
pub mod Move
pub mod Keeps
pub mod Moves
pub mod Session
pub mod Mkdir
pub mod Panics
mod Tests
use supertag.Base.{
  ℕ, Bool, true, false, List, [], ◌∷◌, Option, none, some, Text, length, last?, ◌==◌, text_eq, ok,
  err,
}
use supertag.Db.Ensure.{ensure_tag, ensure_tag_group}
use supertag.Db.Intersect.{
  remove_links, remove_taggroup_from_itersection, remove_tag_from_intersection,
}
use supertag.Db.Link.{add_file}
use supertag.Db.Monad.{STag, pure, fail, lift, unwrap, ◌>>=◌, ◌>>◌}
use supertag.Db.Pins.{pin_tags}
use supertag.Db.Remove.{is_nil, remove_devicefile, remove_tag, remove_taggroup}
use supertag.Db.Store.{Engine}
use supertag.Errors.{STagResult, invalid_path, recursive_link}
use supertag.Perms.Permissions.{Permissions}
use supertag.Perms.Umask.{UMask}
use supertag.Rows.{TaggedFile}
use supertag.Symbols.{Symbols}
use supertag.Tags.Collection
use supertag.Tags.Collect.{
  collect_regular_names, collect_regular, collect_pinnable, collect_tags_and_groups,
}
use supertag.Tags.Types.{TagType, regular, group, device_file_symlink, symlink}

-- `?` on a result without a transaction
abbrev pub from_result : {A : Type 0} → STagResult A → STag A
from_result (ok a) = pure a
from_result (err e) = fail e

-- `let _ = …`: the call is made, and its result dropped.
abbrev pub ignore : {A : Type 0} → STagResult A → STag (Unit {0})
ignore _ = pure tt

-- `Notifier`, by what its calls return
pub record Notifier : Type 0 where
  pub dragged_to_root : STagResult (Unit {0})
  pub tag_to_tg : Text → STagResult (Unit {0})
  -- Whether the message is sent
  pub unlink : Text → Bool
  pub bad_copy : Bool

module _ (engine : Engine) where
  -- A directory at the top
  unfoldable pub make_top : ℕ → ℕ → Permissions → ℕ → TagType → STag (Unit {0})
  make_top uid gid permissions now (group tag) =
      lift (ensure_tag_group engine tag uid gid permissions now)
  make_top uid gid permissions now (regular tag) = do
    (_, _) ← lift (ensure_tag engine tag uid gid permissions now)
    pure tt
  make_top uid gid permissions now _ = pure tt

  unfoldable pub mkdir : Symbols → Text → ℕ → ℕ → Permissions → ℕ → STag (Unit {0})
  unfolding make_top
  mkdir syms dir uid gid permissions now =
      let tags = Collection.new syms dir in
      elim (length tags.tags == 1) [
        | true ↦ do top ← unwrap (Collection.first tags); make_top uid gid permissions now top
        | false ↦ elim (is_nil (collect_pinnable tags.tags)) [
          | true ↦ pure tt
          | false ↦ lift (pin_tags engine uid gid permissions now (collect_pinnable tags.tags))
        ]
      ]

-- The number of parts decides how a tag or group is removed.
unfoldable pub remove_group_at : Text → Text → List TagType → List TagType → STag (Unit {0})
remove_group_at path name tags [] = fail (invalid_path path)
remove_group_at path name tags (part ∷ []) = lift (remove_taggroup name)
remove_group_at path name tags (part ∷ part' ∷ parts) =
    lift (remove_taggroup_from_itersection name tags)

unfoldable pub remove_tag_at : Text → Text → ℕ → List TagType → STag (Unit {0})
remove_tag_at path tag now [] = fail (invalid_path path)
remove_tag_at path tag now (part ∷ []) = lift (remove_tag tag now true)
remove_tag_at path tag now (part ∷ part' ∷ parts) = do
  _ ← lift (remove_tag_from_intersection tag (part ∷ part' ∷ parts) now)
  pure tt

-- `rmdir` by the type of the last part
unfoldable pub remove_dir : Text → List TagType → ℕ → TagType → STag (Unit {0})
unfolding remove_group_at remove_tag_at
remove_dir path tags now (group name) =
    remove_group_at path name tags (collect_tags_and_groups tags)
remove_dir path tags now (regular tag) = remove_tag_at path tag now (collect_tags_and_groups tags)
remove_dir path tags now _ = fail (invalid_path path)

unfoldable pub rmdir : Symbols → Text → ℕ → STag (Unit {0})
unfolding remove_dir
rmdir syms path now = do
  let tags = Collection.new syms path
  pt ← from_result (Collection.primary_type tags)
  remove_dir path tags.tags now pt

-- `rm` by the type of the last part
unfoldable pub remove_file : Text → List TagType → ℕ → TagType → STag (List ℕ)
remove_file file tags now (device_file_symlink device_file) = do
  last_tag ← unwrap (last? (collect_regular_names tags))
  lift (remove_devicefile device_file (last_tag ∷ []) now)
remove_file file tags now (symlink filename) = do
  last_tag ← unwrap (last? (collect_regular tags))
  lift (remove_links filename (last_tag ∷ []) now)
remove_file file tags now _ = fail (invalid_path file)

unfoldable pub rm : Symbols → Text → ℕ → STag (List ℕ)
unfolding remove_file
rm syms file now = do
  let tags = Collection.new syms file
  pt ← from_result (Collection.primary_type tags)
  remove_file file tags.tags now pt

-- The collection that a path lies in is this one.
abbrev pub same_collection : Option Text → Text → Bool
same_collection none cur_col = false
same_collection (some src_col) cur_col = text_eq src_col cur_col

-- Of the file system: the collection of a path, and `stat` of the source.
pub record Host : Type 0 where
  pub collection_from_path : Text → Option Text
  pub get_collection : Text
  pub get_device_inode : Text → STagResult (ℕ × ℕ)

module _ (engine : Engine) (syms : Symbols) (host : Host) (notifier : Notifier) where
  -- Paths are valid UTF-8 here, so the conversion of the source to text does not fail.
  unfoldable pub ln : Text → Text → Text → ℕ → ℕ → UMask → Option Text → ℕ → STag (List TaggedFile)
  ln src rel_dst primary_tag uid gid umask alias_file now =
      elim (same_collection (host.collection_from_path src) host.get_collection) [
        | true ↦ fail (recursive_link src)
        | false ↦ elim (is_nil rel_dst) [
          | true ↦ do from_result notifier.dragged_to_root; fail (invalid_path rel_dst)
          | false ↦ do
            let tag_parts = Collection.new syms rel_dst
            (device, inode) ← from_result (host.get_device_inode src)
            lift (
                add_file engine device inode src primary_tag (collect_regular_names tag_parts.tags)
                  uid gid umask now alias_file)
        ]
      ]
