-- ===== src/Settings.antt =====
-- common/settings/mod.rs: device file names, and the parts of a path as tags.
pub mod DeviceFiles
pub mod RoundTrip
pub mod Collections
pub mod Resolve
mod Tests
use supertag.Base.{
  ℕ, ◌^◌, Bool, true, false, not, ◌&&◌, ◌||◌, List, [], ◌∷◌, ◌++◌, Option, none, some, Text, ◌==◌,
  if◌then◌else◌, text_eq, ok, ok_or, ◌>>=◌,
}
use supertag.Errors.{STagResult, bad_device_file}
use supertag.Names.{
  get_filename, strip_negative_tag, strip_ext_prefix, set_ext_prefix, negative_tag_prefix,
}
use supertag.Paths.{Component, root_dir, cur_dir, parent_dir, normal, components}
use supertag.Radix
use supertag.Symbols.{Symbols}
use supertag.Tags.Types.{
  DeviceFile, TagType, regular, negation, group, file_dir, device_file_symlink, symlink,
}

-- filename, device_char, device, inode_char, inode
unfoldable pub inodify_filename : Symbols → Text → ℕ → ℕ → Text
inodify_filename syms filename device inode =
    filename
    ++ syms.device_char ∷ (Radix.format 10 device ++ syms.inode_char ∷ Radix.format 10 inode)

-- The variables of the loop over the characters of a file name.
pub record Capture : Type 0 where
  pub inode_nums : Text
  pub device_nums : Text
  pub start_device_capture : Bool
  pub start_inode_capture : Bool
  pub real_filename_chars : Text

abbrev pub no_capture : Capture
no_capture = record {
  inode_nums = [];
  device_nums = [];
  start_device_capture = false;
  start_inode_capture = false;
  real_filename_chars = [];
}

unfoldable pub capture_letter : Symbols → Capture → ℕ → Capture
capture_letter syms c letter =
    if letter == syms.device_char
    then record c { start_device_capture = true }
    else if (letter == syms.inode_char) && c.start_device_capture
    then record c { start_inode_capture = true; start_device_capture = false }
    else if letter == syms.sync_char
    then c
    else if c.start_device_capture
    then record c { device_nums = c.device_nums ++ letter ∷ [] }
    else if c.start_inode_capture
    then record c { inode_nums = c.inode_nums ++ letter ∷ [] }
    else if not c.start_inode_capture && not c.start_device_capture
    then record c { real_filename_chars = c.real_filename_chars ++ letter ∷ [] }
    else c

unfoldable pub capture : Symbols → Capture → Text → Capture
capture syms c [] = c
capture syms c (letter ∷ s) = capture syms (capture_letter syms c letter) s

-- Both numbers are parsed as `u64`.
unfoldable pub captured_file : Text → Capture → STagResult (Option DeviceFile)
captured_file filename c = do
  device ← ok_or (Radix.parse 10 (2 ^ 64) c.device_nums) (bad_device_file filename)
  inode ← ok_or (Radix.parse 10 (2 ^ 64) c.inode_nums) (bad_device_file filename)
  ok (some (record { filename = c.real_filename_chars; device = device; inode = inode }))

unfoldable pub filename_to_device_file : Symbols → Text → STagResult (Option DeviceFile)
unfolding captured_file
filename_to_device_file syms filename =
    let c = capture syms no_capture filename in
    if not c.start_inode_capture then ok none else captured_file filename c

unfoldable pub path_to_device_file : Symbols → Text → STagResult (Option DeviceFile)
path_to_device_file syms path = do
  filename ← get_filename path
  filename_to_device_file syms filename

-- The last two cases of the chain: the part behind a file directory is a symlink.
plain_tag : Option TagType → Text → TagType
plain_tag (some file_dir) s = symlink s
plain_tag _ s = regular s

device_or_plain : STagResult (Option DeviceFile) → Option TagType → Text → TagType
unfolding plain_tag
device_or_plain (ok (some df)) prev s = device_file_symlink df
device_or_plain _ prev s = plain_tag prev s

-- `determined_tag`: what a normal path part stands for, behind the part `prev`.
unfoldable pub determined_tag : Symbols → Option TagType → Text → TagType
unfolding device_or_plain
determined_tag syms prev s = elim (strip_negative_tag s) [
  | some trimmed ↦ negation trimmed
  | none ↦ elim (strip_ext_prefix s syms.tag_group_str) [
    | some trimmed ↦ group trimmed
    | none ↦
        if text_eq s syms.filedir_str || text_eq s syms.filedir_cli_str
        then file_dir
        else device_or_plain (filename_to_device_file syms s) prev s
  ]
]

tags_from : Symbols → Option TagType → List Component → List TagType
tags_from syms prev [] = []
tags_from syms prev (root_dir ∷ rest) = tags_from syms prev rest
tags_from syms prev (normal s ∷ rest) =
    determined_tag syms prev s ∷ tags_from syms (some (determined_tag syms prev s)) rest
tags_from syms prev (cur_dir ∷ rest) = tags_from syms prev rest
tags_from syms prev (parent_dir ∷ rest) = tags_from syms prev rest

unfoldable pub path_to_tags : Symbols → Text → List TagType
unfolding tags_from
path_to_tags syms path = tags_from syms none (components path)

-- `DeviceFile::inodify`
unfoldable pub inodify : Symbols → DeviceFile → Text
unfolding inodify_filename
inodify syms df = inodify_filename syms df.filename df.device df.inode

-- `TagType::to_path_part`
unfoldable pub to_path_part : Symbols → TagType → Text
unfolding inodify
to_path_part syms (regular tag) = tag
to_path_part syms (negation tag) = negative_tag_prefix ++ tag
to_path_part syms (group tag) = set_ext_prefix tag syms.tag_group_str
to_path_part syms file_dir = syms.filedir_str
to_path_part syms (device_file_symlink df) = inodify syms df
to_path_part syms (symlink f) = f
