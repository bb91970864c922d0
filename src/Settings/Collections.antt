-- ===== src/Settings/Collections.antt =====
-- common/settings/mod.rs and dirs.rs: where the files of a collection are, and which collection a path
-- belongs to. The directories of the platform and of the configuration are arguments.
use supertag.Base.{
  ℕ, ◌≡◌, refl, sym, ap, ◌∙◌, Bool, true, false, List, [], ◌∷◌, ◌++◌, Option, none, some, Text,
  codes, length, drop, arith, starts_with, append_assoc, if◌then◌else◌, ok, err, ok_or, ◌>>=◌,
  Result,
}
use supertag.Errors.{STagResult, invalid_path}
use supertag.Names.{get_filename}
use supertag.Paths.{Component, root_dir, as_text, components, pieces, piece, split_from}
use supertag.Paths.Joined.{slash, path_join, parent, begins, from_components}
use supertag.Symbols.{Symbols}

-- `Dirs`, by what settings ask of it
pub record Dirs : Type 0 where
  pub config_dir : Text
  pub data_dir : Text
  pub data_local_dir : Text

-- MANAGED_FILES_DIR_NAME
abbrev pub managed_files_dir_name : Text
managed_files_dir_name = codes "managed_files"

abbrev pub collections_dir : Dirs → Text
collections_dir dirs = path_join dirs.config_dir (codes "collections")

abbrev pub collection_dir : Dirs → Text → Text
collection_dir dirs col = path_join (collections_dir dirs) col

abbrev pub managed_dir : Dirs → Text → Text
managed_dir dirs col = path_join (collection_dir dirs col) managed_files_dir_name

abbrev pub log_dir : Dirs → Text → Text
log_dir dirs col = path_join (collection_dir dirs col) (codes "logs/")

abbrev pub col_db_file : Dirs → Text → Text
col_db_file dirs col = path_join (collection_dir dirs col) (col ++ codes ".db")

abbrev pub notify_socket_file : Dirs → Text → Text
notify_socket_file dirs col = path_join (collection_dir dirs col) (codes "notify.sock")

abbrev pub base_config_file : Dirs → Text
base_config_file dirs = path_join dirs.config_dir (codes "config.toml")

abbrev pub config_file : Dirs → Text → Text
config_file dirs col = path_join (collection_dir dirs col) (codes "config.toml")

-- `Path::strip_prefix`, by the components that are left
unfoldable pub strip_prefix : Text → Text → Option (List Component)
strip_prefix path base =
    if begins (components path) (components base)
    then some (drop (length (components base)) (components path))
    else none

-- `base_dir` is that of the mount configuration.
module _ (base_dir : Text) where
  abbrev pub mountpoint : Text → Text
  mountpoint col = path_join base_dir col

  unfoldable pub abs_mountpoint : Text → Text → Text
  abs_mountpoint col rel = elim (strip_prefix rel slash) [
    | some stripped ↦ path_join (mountpoint col) (from_components stripped)
    | none ↦ path_join (mountpoint col) rel
  ]

  abbrev pub first_comp : Option (List Component) → Option Text
  first_comp none = none
  first_comp (some []) = none
  first_comp (some (c ∷ rest)) = some (as_text c)

  module _ (dirs : Dirs) (exists : Text → Bool) where
    abbrev pub confirmed : Bool → Option Text → Option Text
    confirmed confirm_exists none = none
    confirmed true (some col) = if exists (collection_dir dirs col) then some col else none
    confirmed false (some col) = some col

    unfoldable pub collection_from_path : Text → Bool → Option Text
    collection_from_path path confirm_exists =
        confirmed confirm_exists (first_comp (strip_prefix path base_dir))

    -- The collection that is set, and the result. `primary_collection` is the platform's.
    unfoldable pub resolve_collection :
        Result Text (Option Text) → Text → Option Text → Option Text × Result Text Text
    resolve_collection primary_collection path collection = elim (collection_from_path path true) [
      | some col ↦ (some col, ok col)
      | none ↦ elim primary_collection [
        | err e ↦ (collection, err e)
        | ok none ↦ (collection, err (codes "Couldn't find primary collection"))
        | ok (some pc) ↦ (some pc, ok pc)
      ]
    ]

unfoldable pub suffix_sync_char : Symbols → Text → STagResult Text
suffix_sync_char syms path = do
  sync_file_name ← get_filename path
  up ← ok_or (parent path) (invalid_path path)
  ok (path_join up (sync_file_name ++ syms.sync_char ∷ []))

split_from-cut :
    (c : ℕ) (current a b : Text)
    → split_from c current (a ++ c ∷ b) ≡ split_from c current a ++ split_from c [] b
unfolding split_from
split_from-cut c current [] b = ground arith
split_from-cut c current (x ∷ a) b =
    ground (arith, split_from-cut c [] a b, split_from-cut c (current ++ x ∷ []) a b)

pieces-append : (xs ys : List Text) → pieces (xs ++ ys) ≡ pieces xs ++ pieces ys
unfolding pieces
pieces-append [] ys = refl
pieces-append (x ∷ xs) ys =
    ap (λ t. piece x ++ t) (pieces-append xs ys)
    ∙ sym (append_assoc (piece x) (pieces xs) (pieces ys))

-- The components of a path that is written behind an absolute one
pub components-slash :
    (base s : Text)
    → starts_with base slash ≡ true
    → components (base ++ b'/' ∷ s) ≡ components base ++ pieces (split_from b'/' [] s)
unfolding components starts_with
components-slash [] s h = absurd (cc)
components-slash (x ∷ base) s h = rw h (
    ap (λ l. root_dir ∷ pieces l) (split_from-cut b'/' [] (x ∷ base) s)
    ∙ ap (◌∷◌ root_dir) (pieces-append (split_from b'/' [] (x ∷ base)) (split_from b'/' [] s)))
