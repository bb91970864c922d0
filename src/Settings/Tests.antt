-- ===== src/Settings/Tests.antt =====
-- Examples for device file names and paths, with the default symbols.
use supertag.Base.{
  ◌≡◌, ◌≢◌, refl, Bool, true, false, not, ◌&&◌, if◌then◌else◌, List, All, [], ◌∷◌, ◌++◌, none, some,
  ok, Text, codes, Lacks, arith, starts_with, ends_with, text_eq, text_eq_iff,
}
use supertag.Names.{has_ext_prefix, set_ext_prefix, rsplitn, rsplit_once}
use supertag.Paths.{components, pieces, piece, split_from, as_text}
use supertag.Paths.Joined.{slash, path_join}
use supertag.Paths.Split.{IsPart}
use supertag.Settings.{filename_to_device_file, inodify, path_to_tags, to_path_part}
use supertag.Settings.Collections.{
  Dirs, strip_prefix, collection_from_path, abs_mountpoint, collection_dir,
}
use supertag.Settings.Resolve.{collection_from_path-abs_mountpoint}
use supertag.Settings.DeviceFiles.{IsDistinct, IsWritable, filename_to_device_file-inodify}
use supertag.Settings.RoundTrip.{IsUnmarked, IsUsable, AreReadable, path_to_tags-join_path}
use supertag.Symbols.{default_symbols}
use supertag.Tags.Collection.{TagCollection, join_path, join}
use supertag.Tags.Types.{DeviceFile, regular, negation, group, file_dir}

default-IsDistinct : IsDistinct default_symbols
default-IsDistinct = record {
  device_ne_inode = omega arith;
  device_ne_sync = omega arith;
  inode_ne_sync = omega arith;
  digits_plain = λ c h. (omega arith, omega arith, omega arith);
}

abbrev song : DeviceFile
song = record { device = 66306; inode = 1234; filename = codes "so" }

song-IsWritable : IsWritable default_symbols song
song-IsWritable = record {
  no_device_char = (omega arith, (omega arith, tt));
  no_sync_char = (omega arith, (omega arith, tt));
  device_fits = omega arith;
  inode_fits = omega arith;
}

filename_to_device_file-inodify_example :
    (filename_to_device_file default_symbols (inodify default_symbols song) ≡ ok (some song))
    × (filename_to_device_file default_symbols (inodify default_symbols song ++ 0x7f ∷ [])
        ≡ ok (some song))
filename_to_device_file-inodify_example =
    filename_to_device_file-inodify default_symbols song default-IsDistinct song-IsWritable

default-IsUsable : IsUsable default_symbols
unfolding starts_with has_ext_prefix rsplitn rsplit_once ends_with text_eq
default-IsUsable = record {
  distinct = default-IsDistinct;
  mark_no_dot = (omega arith, tt);
  filedir_positive = refl;
  filedir_no_mark = refl;
}

abbrev browsing : TagCollection
browsing = record {
  path = codes "/t/ab/-c";
  tags = group (codes "g") ∷ regular (codes "ab") ∷ negation (codes "c") ∷ file_dir ∷ [];
  unlinking = false;
}

ne_of_text_eq : (s t : Text) → text_eq s t ≡ false → s ≢ t
ne_of_text_eq s t h e = absurd (cc ((text_eq_iff s t).1 e))

IsPart-of :
    (s : Text)
    → text_eq s [] ≡ false
    → Lacks b'/' s
    → text_eq s (codes ".") ≡ false
    → text_eq s (codes "..") ≡ false
    → IsPart s
IsPart-of s h l d e = record {
  nonempty = ne_of_text_eq s [] h;
  one_part = l;
  not_here = ne_of_text_eq s (codes ".") d;
  not_parent = ne_of_text_eq s (codes "..") e;
}

ab-IsUnmarked : IsUnmarked default_symbols (codes "ab")
unfolding starts_with has_ext_prefix rsplitn rsplit_once ends_with text_eq
ab-IsUnmarked = record {
  positive = refl;
  no_group_mark = refl;
  not_filedir = ne_of_text_eq (codes "ab") _ refl;
  not_filedir_cli = ne_of_text_eq (codes "ab") _ refl;
}

browsing-AreReadable : AreReadable default_symbols none browsing.tags
unfolding to_path_part set_ext_prefix rsplitn rsplit_once starts_with text_eq
browsing-AreReadable = (
  IsPart-of _ refl (omega arith, (omega arith, tt)) refl refl,
  refl,
  (
    IsPart-of _ refl (omega arith, (omega arith, tt)) refl refl,
    (ab-IsUnmarked, (omega arith, (omega arith, tt)), λ e. absurd (cc e)),
    (
      IsPart-of _ refl (omega arith, (omega arith, tt)) refl refl,
      tt,
      (IsPart-of _ refl (omega arith, tt) refl refl, tt, tt),
    ),
  ),
)

path_to_tags-join_path_example :
    path_to_tags default_symbols (join_path default_symbols browsing) ≡ browsing.tags
path_to_tags-join_path_example =
    path_to_tags-join_path default_symbols browsing default-IsUsable browsing-AreReadable

abbrev host_dirs : Dirs
host_dirs = record {
  config_dir = codes "/home/u/.config/supertag";
  data_dir = codes "/home/u/.data";
  data_local_dir = codes "/home/u/.data";
}

abbrev is_there : Text → Bool
is_there path = text_eq path (codes "/home/u/.config/supertag/collections/books")

abbrev below : List Text
below = codes "ab" ∷ codes "c" ∷ []

mnt_absolute : starts_with (codes "/mnt") slash ≡ true
unfolding starts_with
mnt_absolute = refl

books-IsPart : IsPart (codes "books")
unfolding text_eq
books-IsPart =
    IsPart-of _ refl (omega arith, (omega arith, (omega arith, (omega arith, (omega arith, tt)))))
      refl refl

below-IsPart : All IsPart below
unfolding text_eq
below-IsPart = (
  IsPart-of _ refl (omega arith, (omega arith, tt)) refl refl,
  (IsPart-of _ refl (omega arith, tt) refl refl, tt),
)

collection_from_path-abs_mountpoint_example :
    collection_from_path
      (codes "/mnt")
      host_dirs
      is_there
      (abs_mountpoint (codes "/mnt") (codes "books") (slash ++ join b'/' below))
      true
    ≡ (if true && not (is_there (collection_dir host_dirs (codes "books")))
        then none
        else some (codes "books"))
collection_from_path-abs_mountpoint_example =
    collection_from_path-abs_mountpoint (codes "/mnt") mnt_absolute (codes "books") books-IsPart
      host_dirs is_there below true below-IsPart

-- The path and its collection, by computation
found_again :
    collection_from_path (codes "/mnt") host_dirs is_there (codes "/mnt/books/ab") true
    ≡ some (codes "books")
unfolding collection_from_path strip_prefix components pieces piece split_from starts_with text_eq
    as_text path_join ends_with
found_again = refl
