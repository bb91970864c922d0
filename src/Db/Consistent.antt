-- ===== src/Db/Consistent.antt =====
-- The well-formedness of the tables: what the schema demands, and that `num_files` counts.
use supertag.Base.{
  ℕ, ◌≡◌, Bool, true, List, map, Text, All, mem, count, Distinct, map-update, update, nat_eq,
  chars_eq, pair_eq,
}
use supertag.Db.Link.{link_key}
use supertag.Db.Store.{Db, FileRow, TagRow, FileTagRow}
use supertag.Rows.Int.{ℤ, pos}

abbrev pub tag_id_of : TagRow → ℕ
tag_id_of t = t.id

abbrev pub tag_name_of : TagRow → Text
tag_name_of t = t.tag_name

abbrev pub tally : TagRow → ℕ × ℤ
tally t = (t.id, t.num_files)

abbrev pub file_id_of : FileRow → ℕ
file_id_of f = f.id

abbrev pub node_of : FileRow → ℕ × ℕ
node_of f = (f.device, f.inode)

abbrev pub path_of : FileRow → Text
path_of f = f.path

abbrev pub linked_tag : FileTagRow → ℕ
linked_tag r = r.tag_id

abbrev pub linked_file : FileTagRow → ℕ
linked_file r = r.file_id

-- A tag's counter is the number of its links.
abbrev pub IsTallied : List ℕ → ℕ × ℤ → Type 0
IsTallied links p = p.1 ≡ pos (count p.0 links)

abbrev pub IsIn : List ℕ → ℕ → Type 0
IsIn ids i = mem i ids ≡ true

pub record IsConsistent (db : Db) : Type 0 where
  pub tag_ids : Distinct (map tag_id_of db.tags)
  pub tag_names : Distinct (map tag_name_of db.tags)
  pub file_ids : Distinct (map file_id_of db.files)
  pub file_nodes : Distinct (map node_of db.files)
  pub file_paths : Distinct (map path_of db.files)
  pub link_keys : Distinct (map link_key db.file_tag)
  pub link_tags : All (IsIn (map tag_id_of db.tags)) (map linked_tag db.file_tag)
  pub link_files : All (IsIn (map file_id_of db.files)) (map linked_file db.file_tag)
  pub tallies : All (IsTallied (map linked_tag db.file_tag)) (map tally db.tags)

-- Nothing of it is about the time of the root.
pub root-IsConsistent :
    (db : Db) (now : ℕ) → IsConsistent db → IsConsistent (record db { root_mtime = now })
root-IsConsistent db now c = record {
  tag_ids = c.tag_ids;
  tag_names = c.tag_names;
  file_ids = c.file_ids;
  file_nodes = c.file_nodes;
  file_paths = c.file_paths;
  link_keys = c.link_keys;
  link_tags = c.link_tags;
  link_files = c.link_files;
  tallies = c.tallies;
}

-- Nor about a column of `tags` other than the id, the name and the counter.
pub update_tags-IsConsistent :
    (db : Db) (p : TagRow → Bool) (f : TagRow → TagRow)
    → ((t : TagRow) → (f t).id ≡ t.id)
    → ((t : TagRow) → (f t).tag_name ≡ t.tag_name)
    → ((t : TagRow) → tally (f t) ≡ tally t)
    → IsConsistent db
    → IsConsistent (record db { tags = update p f db.tags })
update_tags-IsConsistent db p f ids names counts c = record {
  tag_ids = rw (map-update tag_id_of p f db.tags ids) c.tag_ids;
  tag_names = rw (map-update tag_name_of p f db.tags names) c.tag_names;
  file_ids = c.file_ids;
  file_nodes = c.file_nodes;
  file_paths = c.file_paths;
  link_keys = c.link_keys;
  link_tags = rw (map-update tag_id_of p f db.tags ids) c.link_tags;
  link_files = c.link_files;
  tallies = rw (map-update tally p f db.tags counts) c.tallies;
}
