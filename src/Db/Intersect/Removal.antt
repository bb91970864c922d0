-- ===== src/Db/Intersect/Removal.antt =====
-- `remove_tag_from_intersection`: in chunks the links of the listed files go, and the counter follows.
use supertag.Base.{
  ℕ, ◌+◌, ◌≡◌, refl, sym, ap, ◌∙◌, Bool, false, ◌&&◌, List, [], ◌∷◌, ◌++◌, map, some, arith, Text,
  All, mem, mem-append, count, length, map-update, select, update, delete, ◌==◌, ==_iff, nat_eq,
  chars_eq, pair_eq, Bool-cases, inl, inr, if◌then◌else◌,
}
use supertag.Base.Deletion
use supertag.Db.Consistent.{
  IsConsistent, IsIn, IsTallied, tag_id_of, tag_name_of, tally, file_id_of, linked_tag, linked_file,
  root-IsConsistent,
}
use supertag.Db.Intersect.{
  in_chunk, remove_chunk, remove_chunks, ids_of, remove_tag_from_intersection,
}
use supertag.Db.Intersect.Chunks.{chunks, concat, concat-chunks}
use supertag.Db.Link.{link_key}
use supertag.Db.Lookup.{get_tag_id, update_root_mtime}
use supertag.Db.Monad.{Returns, Returns-bind, Returns-map}
use supertag.Db.Query.{intersects_of, excepts_of}
use supertag.Db.Select.Files.{files_tagged_with}
use supertag.Db.Select.Found.{
  only_negated, listed_id, wants, found_rows, files_tagged_with-done, mem-found_rows,
}
use supertag.Db.Store.{Db, TagRow, FileTagRow}
use supertag.Rows.Int.{pos, ◌-ℤ◌, pos-sub}
use supertag.Tags.Types.{TagType}

count-in_chunk :
    (tag_id : ℕ) (ids : List ℕ) (rows : List FileTagRow) (i : ℕ)
    → count i (map linked_tag (select (in_chunk tag_id ids) rows))
      ≡ (if i == tag_id then length (select (in_chunk tag_id ids) rows) else 0)
unfolding select count
count-in_chunk tag_id ids [] i = ground arith
count-in_chunk tag_id ids (r ∷ rows) i = ground (
  arith,
  count-in_chunk tag_id ids rows i,
  ==_iff r.tag_id i,
  ==_iff r.tag_id tag_id,
  ==_iff i tag_id,
)

tallies-remove_chunk :
    (rows : List TagRow) (links : List FileTagRow) (tag_id : ℕ) (ids : List ℕ)
    → All (IsTallied (map linked_tag links)) (map tally rows)
    → All (IsTallied (map linked_tag (delete (in_chunk tag_id ids) links))) (
        map tally (
          update
            (λ t. t.id == tag_id)
            (λ t. record t {
              num_files = t.num_files -ℤ length (select (in_chunk tag_id ids) links);
            })
            rows))
unfolding update
tallies-remove_chunk [] links tag_id ids h = tt
tallies-remove_chunk (t ∷ rows) links tag_id ids (ht, h) =
    let chunk = in_chunk tag_id ids in
    let n = length (select chunk links) in
    let left = count t.id (map linked_tag (delete chunk links)) in
    let counted : count t.id (map linked_tag links) ≡ left + (if t.id == tag_id then n else 0) =
      omega (
        arith,
        Deletion.count-delete linked_tag chunk t.id links,
        count-in_chunk tag_id ids links t.id,
      ) in
    (
      elim (Bool-cases (t.id == tag_id)) [
        | inl q ↦ rw q (ap (λ z. z -ℤ n) (ht ∙ ap pos (counted ∙ rw q refl)) ∙ pos-sub left n)
        | inr q ↦ rw q (ht ∙ ap pos (counted ∙ rw q (omega arith)))
      ],
      tallies-remove_chunk rows links tag_id ids h,
    )

-- What a chunk's statements leave.
remove_chunk_lem :
    (tag_id : ℕ) (ids : List ℕ) (db : Db)
    → IsConsistent db
    → Returns
        (λ _ db'.
          IsConsistent db'
          × (db'.files ≡ db.files)
          × (db'.file_tag ≡ delete (in_chunk tag_id ids) db.file_tag))
        (remove_chunk tag_id ids db)
unfolding remove_chunk
remove_chunk_lem tag_id ids db c =
    let chunk = in_chunk tag_id ids in
    let down : TagRow → TagRow =
      λ s. record s { num_files = s.num_files -ℤ length (select chunk db.file_tag) } in
    let here : TagRow → Bool = λ t. t.id == tag_id in
    let ids_same = map-update tag_id_of here down db.tags (λ s. refl) in
    (
      record {
        tag_ids = rw ids_same c.tag_ids;
        tag_names = rw (map-update tag_name_of here down db.tags (λ s. refl)) c.tag_names;
        file_ids = c.file_ids;
        file_nodes = c.file_nodes;
        file_paths = c.file_paths;
        link_keys = Deletion.Distinct-delete link_key chunk db.file_tag c.link_keys;
        link_tags = rw ids_same (
            Deletion.All-delete linked_tag chunk (IsIn (map tag_id_of db.tags)) db.file_tag
              c.link_tags);
        link_files =
            Deletion.All-delete linked_file chunk (IsIn (map file_id_of db.files)) db.file_tag
              c.link_files;
        tallies = tallies-remove_chunk db.tags db.file_tag tag_id ids c.tallies;
      },
      refl,
      refl,
    )

delete-in_chunk :
    (tag_id : ℕ) (xs ys : List ℕ) (rows : List FileTagRow)
    → delete (in_chunk tag_id ys) (delete (in_chunk tag_id xs) rows)
      ≡ delete (in_chunk tag_id (xs ++ ys)) rows
unfolding delete
delete-in_chunk tag_id xs ys [] = refl
delete-in_chunk tag_id xs ys (r ∷ rows) =
    ground (arith, delete-in_chunk tag_id xs ys rows, mem-append r.file_id xs ys)

delete-no_chunk : (tag_id : ℕ) (rows : List FileTagRow) → delete (in_chunk tag_id []) rows ≡ rows
unfolding delete mem
delete-no_chunk tag_id [] = refl
delete-no_chunk tag_id (r ∷ rows) = ap (◌∷◌ r) (delete-no_chunk tag_id rows)

-- All chunks together remove what one statement for all of their ids would.
pub remove_chunks_lem :
    (tag_id : ℕ) (cs : List (List ℕ)) (db : Db)
    → IsConsistent db
    → Returns
        (λ _ db'.
          IsConsistent db'
          × (db'.files ≡ db.files)
          × (db'.file_tag ≡ delete (in_chunk tag_id (concat cs)) db.file_tag))
        (remove_chunks tag_id cs db)
unfolding remove_chunks
remove_chunks_lem tag_id [] db c = (c, refl, sym (delete-no_chunk tag_id db.file_tag))
remove_chunks_lem tag_id (ids ∷ cs) db c =
    Returns-bind _ _ (remove_chunk tag_id ids) _ db (remove_chunk_lem tag_id ids db c)
      (λ _ db1 (c1, f1, l1).
        Returns-map _ _ (remove_chunks tag_id cs db1)
          (λ _ db2 (c2, f2, l2). (
            c2,
            f2 ∙ f1,
            l2
                ∙ ap (delete (in_chunk tag_id (concat cs))) l1
                ∙ delete-in_chunk tag_id ids (concat cs) db.file_tag,
          ))
          (remove_chunks_lem tag_id cs db1 c1))

delete-cong :
    (p q : FileTagRow → Bool) (rows : List FileTagRow)
    → ((r : FileTagRow) → p r ≡ q r)
    → delete p rows ≡ delete q rows
unfolding delete
delete-cong p q [] h = refl
delete-cong p q (r ∷ rows) h = ground (arith, h r, delete-cong p q rows h)

module _ (tag : Text) (intersect : List TagType) (now : ℕ) (db : Db) where
  -- For consistent tables, a tag that exists and a path of not only negated tags, the removal of the
  -- tag from the path succeeds. It returns the files that the path asks for; the links of exactly
  -- those files to the tag are gone, in chunks or not, and the tables are consistent, so that the
  -- tag's counter went down by as many.
  pub remove_tag_from_intersection_lem :
      (tag_id : ℕ)
      → IsConsistent db
      → get_tag_id db tag ≡ some tag_id
      → only_negated (intersects_of intersect) (excepts_of intersect) ≡ false
      → Returns
          (λ files db'.
            IsConsistent db'
            × (db'.files ≡ db.files)
            × ((i : ℕ) → mem i (map listed_id files) ≡ wants intersect db i)
            × (db'.file_tag
                ≡ delete (λ r. wants intersect db r.file_id && r.tag_id == tag_id) db.file_tag))
          (remove_tag_from_intersection tag intersect now db)
  unfolding remove_tag_from_intersection update_root_mtime files_tagged_with
  remove_tag_from_intersection_lem tag_id c h k =
      let ids = ids_of (found_rows intersect db) in
      let listed = λ (i : ℕ). mem-found_rows intersect db i c in
      rw (files_tagged_with-done intersect db k, h)
        (Returns-bind _ _ (remove_chunks tag_id (chunks 500 ids)) _ db
          (remove_chunks_lem tag_id (chunks 500 ids) db c)
          (λ _ db1 (c1, f1, l1). (
            root-IsConsistent db1 now c1,
            f1,
            listed,
            l1
                ∙ ap (λ is. delete (in_chunk tag_id is) db.file_tag)
                    (concat-chunks 500 ids (omega arith))
                ∙ delete-cong (in_chunk tag_id ids)
                    (λ r. wants intersect db r.file_id && r.tag_id == tag_id) db.file_tag
                    (λ r. ap (λ b. b && r.tag_id == tag_id) (listed r.file_id)),
          )))
