-- ===== src/Db/Select/Tests.antt =====
-- Examples for the files of a path, and for what is removed from one.
use supertag.Base.{
  ℕ, ◌≡◌, refl, true, false, ◌&&◌, List, [], ◌∷◌, map, some, codes, mem, find, delete, select,
  update, text_eq, ◌==◌, length, if◌then◌else◌, nat_eq, chars_eq,
}
use supertag.Base.Order.{IsOrdered, order_by, insert_by}
use supertag.Db.Consistent.{IsConsistent}
use supertag.Db.Intersect.{
  remove_links, remove_tag_from_intersection, merge_tags, remove_chunks, remove_chunk, relink_tags,
  relink_files, relink_file,
}
use supertag.Db.Intersect.Chunks.{chunks}
use supertag.Db.Intersect.Links.{UnlinksFrom, file_of, remove_links_lem}
use supertag.Db.Intersect.Removal.{remove_tag_from_intersection_lem}
use supertag.Db.Lookup.{get_tag_id, update_root_mtime, update_tag_mtime}
use supertag.Db.Monad.{Outcome, done, failed, Returns}
use supertag.Db.Query.{
  intersects_of, excepts_of, groups_of, intersection_subquery, single_subqueries, group_subqueries,
  assemble,
}
use supertag.Db.Sample.{library, library-IsConsistent, counting, top}
use supertag.Db.Select.Files.{files_tagged_with, tagged_rows, links_of}
use supertag.Db.Select.Found.{only_negated, listed_id, wants, files_tagged_with_lem}
use supertag.Errors.{SqlError, other_failure}
use supertag.Rows.{TaggedFile}
use supertag.Rows.Int.{ℤ, pos, ◌-ℤ◌}
use supertag.Tags.Types.{TagType, regular}

abbrev path : List TagType
path = regular (codes "rock") ∷ []

files_tagged_with_lem_example :
    (rows : List TaggedFile) × (files_tagged_with path library ≡ (
      if only_negated (intersects_of path) (excepts_of path)
      then failed other_failure
      else done rows library))
    × IsOrdered (map (λ tf. tf.primary_tag) rows)
    × ((i : ℕ) → mem i (map listed_id rows) ≡ wants path library i)
files_tagged_with_lem_example = files_tagged_with_lem path library library-IsConsistent

-- The file is listed.
listed_song : wants path library 1 ≡ true
unfolding intersects_of excepts_of groups_of find text_eq
listed_song = refl

rock_id : get_tag_id library (codes "rock") ≡ some 1
unfolding get_tag_id find text_eq
rock_id = refl

has_names : only_negated (intersects_of path) (excepts_of path) ≡ false
unfolding intersects_of excepts_of
has_names = refl

remove_tag_from_intersection_lem_example :
    Returns
      (λ files db'.
        IsConsistent db'
        × (db'.files ≡ library.files)
        × ((i : ℕ) → mem i (map listed_id files) ≡ wants path library i)
        × (db'.file_tag
            ≡ delete (λ r. wants path library r.file_id && r.tag_id == 1) library.file_tag))
      (remove_tag_from_intersection (codes "rock") path 9 library)
remove_tag_from_intersection_lem_example =
    remove_tag_from_intersection_lem (codes "rock") path 9 library 1 library-IsConsistent rock_id
      has_names

remove_links_lem_example :
    Returns
      (λ _ db'.
        IsConsistent db'
        × UnlinksFrom
            (codes "song.mp3")
            path
            9
            library
            (file_of (codes "song.mp3") path 9 library)
            db')
      (remove_links (codes "song.mp3") path 9 library)
remove_links_lem_example =
    remove_links_lem (codes "song.mp3") path 9 library library-IsConsistent has_names

-- The counters after the merge of `rock` into `live`: the file moves, and `live` still counts none.
counters : Outcome SqlError (Unit {0}) → List ℤ × ℕ
counters (done _ db) = (map (λ t. t.num_files) db.tags, length db.file_tag)
counters _ = ([], 0)

merged :
    counters (merge_tags counting (codes "rock") path (codes "live" ∷ []) 9 library)
    ≡ (pos 0 ∷ pos 0 ∷ [], 1)
unfolding counters merge_tags remove_tag_from_intersection remove_chunks remove_chunk relink_tags
    relink_files relink_file files_tagged_with tagged_rows links_of order_by insert_by chunks
    intersection_subquery single_subqueries group_subqueries assemble intersects_of excepts_of
    groups_of get_tag_id find select delete update mem text_eq top update_root_mtime
    update_tag_mtime ◌-ℤ◌
merged = refl
