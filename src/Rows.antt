-- ===== src/Rows.antt =====
-- sql/types.rs: the rows that queries return, and directory entries made from them.
-- A time is a number of ticks; ids and counts are the database's integers.
pub mod Int
use supertag.Base.{ℕ, List, Option, Text}
use supertag.Names.{name_to_tag_group}
use supertag.Perms.Permissions.{Permissions}
use supertag.Rows.Int.{ℤ}
use supertag.Symbols.{Symbols}

pub record TaggedFile : Type 0 where
  pub id : ℕ
  pub inode : ℕ
  pub device : ℕ
  pub path : Text
  pub primary_tag : Text
  pub mtime : ℕ
  pub uid : ℕ
  pub gid : ℕ
  pub permissions : Permissions
  pub alias_file : Option Text

pub record Tag : Type 0 where
  pub id : ℕ
  pub name : Text
  pub mtime : ℕ
  pub uid : ℕ
  pub gid : ℕ
  pub permissions : Permissions
  pub num_files : ℤ

pub record TagGroup : Type 0 where
  pub id : ℕ
  pub name : Text
  pub mtime : ℕ
  pub uid : ℕ
  pub gid : ℕ
  pub permissions : Permissions
  pub tag_ids : List ℕ
  pub num_files : ℤ

pub data TagOrTagGroup : Type 0 where
  tag : Tag → TagOrTagGroup
  group : TagGroup → TagOrTagGroup

pub record FileEntry : Type 0 where
  pub name : Text
  pub mtime : ℕ

-- `From<TaggedFile>`, `From<Tag>` and `TagGroup::to_fileentry`
unfoldable pub file_entry : TaggedFile → FileEntry
file_entry tf = record { name = tf.primary_tag; mtime = tf.mtime }

unfoldable pub tag_entry : Tag → FileEntry
tag_entry t = record { name = t.name; mtime = t.mtime }

unfoldable pub group_entry : Symbols → TagGroup → FileEntry
group_entry syms tg = record { name = name_to_tag_group syms tg.name; mtime = tg.mtime }

-- `TagOrTagGroup::to_fileentry`
unfoldable pub to_fileentry : Symbols → TagOrTagGroup → FileEntry
unfolding tag_entry group_entry
to_fileentry syms (group g) = group_entry syms g
to_fileentry syms (tag t) = tag_entry t
