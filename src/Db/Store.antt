-- ===== src/Db/Store.antt =====
-- The tables, with the columns that m0.rs creates. `new_id` stands for SQLite's choice of a row id.
use supertag.Base.{ℕ, ◌≡◌, false, List, [], Option, Text, mem, nat_eq}
use supertag.Rows.Int.{ℤ}

pub record FileRow : Type 0 where
  pub id : ℕ
  pub device : ℕ
  pub inode : ℕ
  pub path : Text
  pub primary_tag : Text
  pub ts : ℕ
  pub mtime : ℕ
  pub alias_file : Option Text

pub record TagRow : Type 0 where
  pub id : ℕ
  pub tag_name : Text
  pub ts : ℕ
  pub mtime : ℕ
  pub uid : ℕ
  pub gid : ℕ
  pub permissions : ℕ
  pub num_files : ℤ

pub record FileTagRow : Type 0 where
  pub rowid : ℕ
  pub file_id : ℕ
  pub tag_id : ℕ
  pub ts : ℕ
  pub mtime : ℕ
  pub uid : ℕ
  pub gid : ℕ
  pub permissions : ℕ

pub record GroupRow : Type 0 where
  pub id : ℕ
  pub name : Text
  pub ts : ℕ
  pub mtime : ℕ
  pub uid : ℕ
  pub gid : ℕ
  pub permissions : ℕ

pub record GroupTagRow : Type 0 where
  pub tg_id : ℕ
  pub tag_id : ℕ
  pub ts : ℕ
  pub mtime : ℕ
  pub uid : ℕ
  pub gid : ℕ
  pub permissions : ℕ

pub record Db : Type 0 where
  pub files : List FileRow
  pub tags : List TagRow
  pub file_tag : List FileTagRow
  pub pins : List Text
  pub tag_groups : List GroupRow
  pub tag_group_tag : List GroupTagRow
  pub root_mtime : ℕ

-- What `m0::migrate` leaves, at the time `now`.
unfoldable pub migrate : ℕ → Db
migrate now = record {
  files = [];
  tags = [];
  file_tag = [];
  pins = [];
  tag_groups = [];
  tag_group_tag = [];
  root_mtime = now;
}

-- The row id of a new row, from those in use.
pub record Engine : Type 0 where
  pub new_id : List ℕ → ℕ

-- SQLite gives a new row an id that no row of the table has.
abbrev pub IsFresh : Engine → Type 0
IsFresh engine = (ids : List ℕ) → mem (engine.new_id ids) ids ≡ false
