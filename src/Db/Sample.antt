-- ===== src/Db/Sample.antt =====
-- A small library of one file, and an engine that counts row ids up, for the examples.
use supertag.Base.{
  ℕ, suc, ◌<◌, ◌≡◌, refl, false, List, [], ◌∷◌, none, arith, codes, Text, mem, count, text_eq,
  ==_iff, leb, if◌then◌else◌, nat_eq, chars_eq, pair_eq,
}
use supertag.Db.Consistent.{IsConsistent}
use supertag.Db.Store.{Db, FileRow, TagRow, FileTagRow, Engine, IsFresh}
use supertag.Perms.Permissions
use supertag.Perms.Permissions.{Permissions}
use supertag.Rows.Int.{pos}

-- The highest id in use.
unfoldable pub top : List ℕ → ℕ
top [] = 0
top (i ∷ ids) = let rest = top ids in if leb rest i then i else rest

abbrev pub counting : Engine
counting = record { new_id = λ ids. suc (top ids) }

above_top : (ids : List ℕ) (n : ℕ) → top ids < n → mem n ids ≡ false
unfolding top mem
above_top [] n h = refl
above_top (i ∷ ids) n h = ground (arith, above_top ids n, ==_iff i n)

pub counting-IsFresh : IsFresh counting
counting-IsFresh ids = above_top ids (suc (top ids)) (omega arith)

abbrev pub usual : Permissions
usual = Permissions.from_mode 0o755

abbrev pub song : FileRow
song = record {
  id = 1;
  device = 5;
  inode = 77;
  path = codes "/m/song.mp3";
  primary_tag = codes "song.mp3";
  ts = 3;
  mtime = 3;
  alias_file = none;
}

abbrev pub tag_row : ℕ → Text → ℕ → TagRow
tag_row id name n = record {
  id = id;
  tag_name = name;
  ts = 3;
  mtime = 3;
  uid = 0;
  gid = 0;
  permissions = 0o755;
  num_files = pos n;
}

abbrev pub rock_link : FileTagRow
rock_link = record {
  rowid = 1;
  file_id = 1;
  tag_id = 1;
  ts = 3;
  mtime = 3;
  uid = 0;
  gid = 0;
  permissions = 0o644;
}

-- One file with the tag `rock`, and a tag `live` without files.
abbrev pub library : Db
library = record {
  files = song ∷ [];
  tags = tag_row 1 (codes "rock") 1 ∷ tag_row 2 (codes "live") 0 ∷ [];
  file_tag = rock_link ∷ [];
  pins = [];
  tag_groups = [];
  tag_group_tag = [];
  root_mtime = 3;
}

pub library-IsConsistent : IsConsistent library
unfolding mem count text_eq
library-IsConsistent = record {
  tag_ids = (refl, (refl, tt));
  tag_names = (refl, (refl, tt));
  file_ids = (refl, tt);
  file_nodes = (refl, tt);
  file_paths = (refl, tt);
  link_keys = (refl, tt);
  link_tags = (refl, tt);
  link_files = (refl, tt);
  tallies = (refl, (refl, tt));
}
