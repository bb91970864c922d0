-- ===== src/Db/Preserve/Unlink.antt =====
-- `remove_devicefile` keeps the tables consistent and unlinks the file from every tag of its list.
use supertag.Base.{
  ℕ, suc, not, ◌+◌, ◌≡◌, refl, sym, ap, ◌∙◌, Bool, true, false, List, [], ◌∷◌, map, none, some,
  arith, Text, All, mem, count, map-update, find, select, update, delete, ◌==◌, ==_iff, nat_eq,
  chars_eq, pair_eq, Bool-cases, inl, inr, if◌then◌else◌, length,
}
use supertag.Base.Deletion
use supertag.Base.Unique
use supertag.Db.Consistent.{
  IsConsistent, IsIn, IsTallied, tag_id_of, tag_name_of, tally, linked_tag, linked_file,
}
use supertag.Db.Link.{link_key}
use supertag.Db.Lookup.{named, get_tag_id}
use supertag.Db.Monad.{done}
use supertag.Db.Remove.{is_link, is_nil, unlink_tag}
use supertag.Db.Store.{Db, TagRow, FileTagRow}
use supertag.Rows.Int.{pos, ◌-ℤ◌, pos-sub}

-- The links of the other files.
abbrev pub of_others : ℕ → FileTagRow → Bool
of_others file_id r = not (r.file_id == file_id)

-- The rows of one link have that link's tag.
count-select :
    (file_id tag_id : ℕ) (rows : List FileTagRow) (i : ℕ)
    → count i (map linked_tag (select (is_link file_id (some tag_id)) rows))
      ≡ (if i == tag_id then length (select (is_link file_id (some tag_id)) rows) else 0)
unfolding select count
count-select file_id tag_id [] i = ground arith
count-select file_id tag_id (r ∷ rows) i = ground (
  arith,
  count-select file_id tag_id rows i,
  ==_iff r.tag_id i,
  ==_iff r.tag_id tag_id,
  ==_iff i tag_id,
)

count-unlink :
    (file_id tag_id : ℕ) (links : List FileTagRow) (i : ℕ)
    → count i (map linked_tag links)
      ≡ count i (map linked_tag (delete (is_link file_id (some tag_id)) links))
        + (if i == tag_id then length (select (is_link file_id (some tag_id)) links) else 0)
count-unlink file_id tag_id links i = omega (
  arith,
  Deletion.count-delete linked_tag (is_link file_id (some tag_id)) i links,
  count-select file_id tag_id links i,
)

-- Without the links of one tag to the file, and its counter that much lower.
tallies-count_down :
    (rows : List TagRow) (links : List FileTagRow) (tag : Text) (file_id i : ℕ)
    → All (Unique.Agrees tag_id_of tag_name_of tag i) rows
    → All (IsTallied (map linked_tag links)) (map tally rows)
    → All (IsTallied (map linked_tag (delete (is_link file_id (some i)) links))) (
        map tally (
          update
            (named tag)
            (λ t. record t {
              num_files = t.num_files -ℤ length (select (is_link file_id (some i)) links);
            })
            rows))
unfolding update
tallies-count_down [] links tag file_id i a h = tt
tallies-count_down (t ∷ rows) links tag file_id i (at, a) (ht, h) =
    let del = delete (is_link file_id (some i)) links in
    let n = length (select (is_link file_id (some i)) links) in
    let counted = count-unlink file_id i links t.id in
    (
      elim (Bool-cases (named tag t)) [
        | inl q ↦ rw q (
            ap (λ z. z -ℤ n) (ht ∙ ap pos (counted ∙ rw (sym at ∙ q) refl))
            ∙ pos-sub (count t.id (map linked_tag del)) n)
        | inr q ↦ rw q (ht ∙ ap pos (counted ∙ rw (sym at ∙ q) (omega arith)))
      ],
      tallies-count_down rows links tag file_id i a h,
    )

module _ (file_id : ℕ) (tag : Text) (db : Db) where
  -- The tables after the round, for a tag that exists.
  unfoldable pub unlinked : ℕ → Db
  unlinked tag_id = record db {
    tags =
        update (named tag)
          (λ t. record t {
            num_files = t.num_files -ℤ length (select (is_link file_id (some tag_id)) db.file_tag);
          })
          db.tags;
    file_tag = delete (is_link file_id (some tag_id)) db.file_tag;
  }

  pub unlinked-IsConsistent :
      (t : TagRow)
      → IsConsistent db
      → find (named tag) db.tags ≡ some t
      → IsConsistent (unlinked t.id)
  unfolding unlinked
  unlinked-IsConsistent t c h =
      let link = is_link file_id (some t.id) in
      let down : TagRow → TagRow =
        λ s. record s { num_files = s.num_files -ℤ length (select link db.file_tag) } in
      let ids = map-update tag_id_of (named tag) down db.tags (λ s. refl) in
      record {
        tag_ids = rw ids c.tag_ids;
        tag_names = rw (map-update tag_name_of (named tag) down db.tags (λ s. refl)) c.tag_names;
        file_ids = c.file_ids;
        file_nodes = c.file_nodes;
        file_paths = c.file_paths;
        link_keys = Deletion.Distinct-delete link_key link db.file_tag c.link_keys;
        link_tags = rw ids (
            Deletion.All-delete linked_tag link (IsIn (map tag_id_of db.tags)) db.file_tag
              c.link_tags);
        link_files =
            Deletion.All-delete linked_file link (IsIn (map (λ f. f.id) db.files)) db.file_tag
              c.link_files;
        tallies =
            tallies-count_down db.tags db.file_tag tag file_id t.id
              (Unique.keys_agree tag_id_of tag_name_of db.tags tag t c.tag_ids c.tag_names h)
              c.tallies;
      }

-- What every removal of a link of the file keeps.
pub record Shrinks (file_id : ℕ) (db db' : Db) : Type 0 where
  pub same_files : db'.files ≡ db.files
  pub same_ids : (name : Text) → get_tag_id db' name ≡ get_tag_id db name
  pub unlinked_stay :
      (k : ℕ × ℕ)
      → mem k (map link_key db.file_tag) ≡ false
      → mem k (map link_key db'.file_tag) ≡ false
  pub others : select (of_others file_id) db'.file_tag ≡ select (of_others file_id) db.file_tag

pub Shrinks-refl : (file_id : ℕ) (db : Db) → Shrinks file_id db db
Shrinks-refl file_id db = record {
  same_files = refl;
  same_ids = λ name. refl;
  unlinked_stay = λ k h. h;
  others = refl;
}

pub Shrinks-trans :
    (file_id : ℕ) (a b c : Db) → Shrinks file_id a b → Shrinks file_id b c → Shrinks file_id a c
Shrinks-trans file_id a b c g h = record {
  same_files = h.same_files ∙ g.same_files;
  same_ids = λ name. h.same_ids name ∙ g.same_ids name;
  unlinked_stay = λ k e. h.unlinked_stay k (g.unlinked_stay k e);
  others = h.others ∙ g.others;
}

pub select-unlink :
    (file_id tag_id : ℕ) (rows : List FileTagRow)
    → select (of_others file_id) (delete (is_link file_id (some tag_id)) rows)
      ≡ select (of_others file_id) rows
unfolding select delete
select-unlink file_id tag_id [] = refl
select-unlink file_id tag_id (r ∷ rows) = ground (arith, select-unlink file_id tag_id rows)

-- A link that was deleted is not among the links.
pub mem-unlink :
    (file_id tag_id : ℕ) (rows : List FileTagRow)
    → mem (file_id, tag_id) (map link_key (delete (is_link file_id (some tag_id)) rows)) ≡ false
unfolding mem delete
mem-unlink file_id tag_id [] = refl
mem-unlink file_id tag_id (r ∷ rows) = ground (arith, mem-unlink file_id tag_id rows)

-- Where nothing is selected, nothing is deleted.
pub delete-nil :
    (p : FileTagRow → Bool) (rows : List FileTagRow)
    → is_nil (map (λ r. r.rowid) (select p rows)) ≡ true
    → delete p rows ≡ rows
unfolding select delete
delete-nil p [] h = refl
delete-nil p (r ∷ rows) h = ground (arith, delete-nil p rows)

delete-none : (file_id : ℕ) (rows : List FileTagRow) → delete (is_link file_id none) rows ≡ rows
unfolding delete
delete-none file_id [] = refl
delete-none file_id (r ∷ rows) = ap (◌∷◌ r) (delete-none file_id rows)

select-none : (file_id : ℕ) (rows : List FileTagRow) → select (is_link file_id none) rows ≡ []
unfolding select
select-none file_id [] = refl
select-none file_id (r ∷ rows) = select-none file_id rows

length-map_rowid : (rows : List FileTagRow) → length (map (λ r. r.rowid) rows) ≡ length rows
length-map_rowid [] = refl
length-map_rowid (r ∷ rows) = ap suc (length-map_rowid rows)

module _ (file_id : ℕ) (tag : Text) (db : Db) where
  pub unlink_tag-none : get_tag_id db tag ≡ none → unlink_tag file_id tag db ≡ done [] db
  unfolding unlink_tag
  unlink_tag-none h =
      ground (arith, delete-none file_id db.file_tag, select-none file_id db.file_tag)

  pub unlink_tag-nil :
      (tag_id : ℕ)
      → get_tag_id db tag ≡ some tag_id
      → is_nil (map (λ r. r.rowid) (select (is_link file_id (some tag_id)) db.file_tag)) ≡ true
      → unlink_tag file_id tag db
        ≡ done
            (map (λ r. r.rowid) (select (is_link file_id (some tag_id)) db.file_tag))
            (record db { file_tag = delete (is_link file_id (some tag_id)) db.file_tag })
  unfolding unlink_tag
  unlink_tag-nil tag_id h e = ground arith

  pub unlink_tag-some :
      (tag_id : ℕ)
      → get_tag_id db tag ≡ some tag_id
      → is_nil (map (λ r. r.rowid) (select (is_link file_id (some tag_id)) db.file_tag)) ≡ false
      → unlink_tag file_id tag db
        ≡ done
            (map (λ r. r.rowid) (select (is_link file_id (some tag_id)) db.file_tag))
            (unlinked file_id tag db tag_id)
  unfolding unlink_tag unlinked
  unlink_tag-some tag_id h e =
      ground (arith, length-map_rowid (select (is_link file_id (some tag_id)) db.file_tag))
