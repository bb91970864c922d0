-- ===== src/Db/View.antt =====
-- A collection as its user sees it: which files carry which tags. Ids, counters, times and the order
-- of rows are forgotten.
mod Keys
mod Insert
mod AddFile
mod Delete
mod Deleted
mod Tags
mod Purge
pub mod Refines
pub mod Listing
mod Tests
use supertag.Base.{
  ℕ, Bool, false, not, ◌&&◌, ◌||◌, List, [], ◌∷◌, map, Option, none, some, Text, mem, nat_eq,
  pair_eq, chars_eq, ◌==◌, text_eq, if◌then◌else◌,
}
use supertag.Db.Link.{link_key}
use supertag.Db.Lookup.{file_id_at, get_tag_id}
use supertag.Db.Store.{Db, FileTagRow}

-- Whether the file of a device and inode carries the tag of a name
abbrev pub View : Type 0
View = ℕ × ℕ → Text → Bool

abbrev pub linked_ids : List FileTagRow → Option ℕ → Option ℕ → Bool
linked_ids links none tag_id = false
linked_ids links (some file_id) none = false
linked_ids links (some file_id) (some tag_id) = mem (file_id, tag_id) (map link_key links)

pub carries : Db → View
carries db node name = linked_ids db.file_tag (file_id_at db node.0 node.1) (get_tag_id db name)

abbrev pub same_node : ℕ × ℕ → ℕ × ℕ → Bool
same_node n node = n.0 == node.0 && n.1 == node.1

-- The file gets a tag, or loses one, or all.
abbrev pub with_tag : ℕ × ℕ → Text → View → View
with_tag node tag v n name = v n name || (same_node n node && text_eq name tag)

abbrev pub without_tag : ℕ × ℕ → Text → View → View
without_tag node tag v n name = v n name && not (same_node n node && text_eq name tag)

abbrev pub without_file : ℕ × ℕ → View → View
without_file node v n name = v n name && not (same_node n node)

-- A tag is taken from all files, or gets a new name.
abbrev pub without_name : Text → View → View
without_name tag v n name = v n name && not (text_eq name tag)

abbrev pub with_name : Text → Text → View → View
with_name old new v n name =
    if text_eq name new then v n old else v n name && not (text_eq name old)

abbrev pub each {ℓ} : {A : Type 0} {V : Type ℓ} → (A → V → V) → List A → V → V
each f [] v = v
each f (x ∷ xs) v = each f xs (f x v)
