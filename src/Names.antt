-- ===== src/Names.antt =====
-- common/mod.rs: tag names, and the marks before a file extension.
pub mod ExtPrefix
pub mod Slices
pub mod Primary
mod Tests
use supertag.Base.{
  ℕ, ◌+◌, ◌-◌, min, Bool, false, not, ◌&&◌, List, [], ◌∷◌, ◌++◌, Option, none, some, Text, codes,
  length, take, drop, last?, ltb, ◌==◌, if◌then◌else◌, text_eq, starts_with, ends_with,
  contains_char, strip_len, ok, ok_or, ◌>>=◌,
}
use supertag.Errors.{STagResult, invalid_path}
use supertag.Paths.{components, as_text}
use supertag.Symbols.{Symbols}

abbrev pub dot : ℕ
dot = b'.'

abbrev pub separator : ℕ
separator = b'/'

-- NEGATIVE_TAG_PREFIX
abbrev pub negative_tag_prefix : Text
negative_tag_prefix = codes "-"

-- UNLINK_NAME
abbrev pub unlink_name : Text
unlink_name = codes "delete"

unfoldable pub get_filename : Text → STagResult Text
get_filename path = do comp ← ok_or (last? (components path)) (invalid_path path); ok (as_text comp)

-- The characters before the first `device_char`.
unfoldable pub until_char : ℕ → Text → Text
until_char c [] = []
until_char c (x ∷ s) = let rest = until_char c s in if x == c then [] else x ∷ rest

unfoldable pub primary_tag : Text → ℕ → STagResult (Option Text)
primary_tag path device_char = do
  filename ← get_filename path
  let chars = until_char device_char filename
  if ltb 1 (length chars) then ok (some chars) else ok none

unfoldable pub strip_negative_tag : Text → Option Text
strip_negative_tag tag =
    if starts_with tag negative_tag_prefix
    then some (drop (length negative_tag_prefix) tag)
    else none

-- The text before and after the last `c`.
unfoldable pub rsplit_once : ℕ → Text → Option (Text × Text)
rsplit_once c [] = none
rsplit_once c (x ∷ s) = elim (rsplit_once c s) [
  | some (before, after) ↦ some (x ∷ before, after)
  | none ↦ if x == c then some ([], s) else none
]

-- `name.rsplitn(2, ".")`: the part behind the last dot comes first.
unfoldable pub rsplitn : Text → List Text
rsplitn name = elim (rsplit_once dot name) [
  | some (before, after) ↦ after ∷ before ∷ []
  | none ↦ name ∷ []
]

strip_parts : List Text → Text → Option Text
strip_parts [] prefix = none
strip_parts (name ∷ []) prefix =
    if ends_with name prefix then some (strip_len name prefix) else none
strip_parts (ext ∷ name ∷ _) prefix =
    if ends_with name prefix then some (strip_len name prefix ++ dot ∷ ext) else none

unfoldable pub strip_ext_prefix : Text → Text → Option Text
unfolding strip_parts
strip_ext_prefix name prefix = strip_parts (rsplitn name) prefix

has_in_parts : List Text → Text → Bool
has_in_parts [] to_check = false
has_in_parts (name ∷ []) to_check = ends_with name to_check
has_in_parts (ext ∷ name ∷ _) to_check = ends_with name to_check

unfoldable pub has_ext_prefix : Text → Text → Bool
unfolding has_in_parts
has_ext_prefix name to_check = has_in_parts (rsplitn name) to_check

set_in_parts : List Text → Text → Text → Text
set_in_parts (ext ∷ stem ∷ _) name to_prefix = stem ++ to_prefix ++ dot ∷ ext
set_in_parts _ name to_prefix = name ++ to_prefix

unfoldable pub set_ext_prefix : Text → Text → Text
unfolding set_in_parts
set_ext_prefix name to_prefix = set_in_parts (rsplitn name) name to_prefix

unfoldable pub creatable_tag_group : Symbols → Text → Bool
creatable_tag_group syms name =
    not (has_ext_prefix name syms.tag_group_str)
    && not (contains_char name separator)
    && not (text_eq name syms.filedir_str)

unfoldable pub name_to_tag_group : Symbols → Text → Text
name_to_tag_group syms name = set_ext_prefix name syms.tag_group_str

-- Where the target is not macOS.
unfoldable pub should_unlink : Text → Bool
should_unlink name = text_eq name unlink_name

-- The filled destination, and the number of items read.
unfoldable pub read_from_slice {ℓ} : {A : Type ℓ} → List A → List A → ℕ → List A × ℕ
read_from_slice src dst offset =
    let desired = length dst in
    if ltb (length src) offset
    then (dst, 0)
    else let read = min (length src - offset) desired in
      (take read (drop offset src) ++ drop read dst, read)
