-- ===== src/Names/Tests.antt =====
-- Examples for the names.
use supertag.Base.{
  ◌≡◌, refl, none, some, ok, codes, Lacks, arith, starts_with, ends_with, strip_len, text_eq,
}
use supertag.Paths.{components, as_text, pieces, piece, split_from}
use supertag.Names.{
  dot, get_filename, until_char, primary_tag, rsplit_once, rsplitn, strip_ext_prefix,
  set_ext_prefix,
}
use supertag.Names.ExtPrefix.{strip_ext_prefix-set_ext_prefix}

set_plus : set_ext_prefix (codes "song.mp3") (codes "+") ≡ codes "song+.mp3"
unfolding set_ext_prefix rsplitn rsplit_once
set_plus = refl

strip_plus : strip_ext_prefix (codes "song+.mp3") (codes "+") ≡ some (codes "song.mp3")
unfolding strip_ext_prefix rsplitn rsplit_once ends_with strip_len text_eq
strip_plus = refl

plus_Lacks : Lacks dot (codes "+")
plus_Lacks = (omega arith, tt)

strip_ext_prefix-set_ext_prefix_example :
    strip_ext_prefix (set_ext_prefix (codes "song.mp3") (codes "+")) (codes "+")
    ≡ some (codes "song.mp3")
strip_ext_prefix-set_ext_prefix_example =
    strip_ext_prefix-set_ext_prefix (codes "song.mp3") (codes "+") plus_Lacks

long_name : get_filename (codes "/t/song@1-2") ≡ ok (codes "song@1-2")
unfolding get_filename components as_text pieces piece split_from starts_with text_eq
long_name = refl

one_letter : primary_tag (codes "/t/a") b'@' ≡ ok none
unfolding primary_tag until_char get_filename components as_text pieces piece split_from starts_with
    text_eq
one_letter = refl
