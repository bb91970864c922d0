-- ===== src/Db/Preserve/RemoveTag.antt =====
-- `remove_tag` keeps the tables consistent: the links of the tag go with it.
use supertag.Base.{
  ℕ, ◌≡◌, refl, ap, ◌∙◌, Bool, true, false, List, [], ◌∷◌, map, none, arith, Text, All, mem, count,
  find, select, delete, ==_iff, nat_eq, chars_eq, pair_eq, Bool-cases, inl, inr,
}
use supertag.Base.Deletion
use supertag.Db.Consistent.{
  IsConsistent, IsIn, IsTallied, tag_id_of, tag_name_of, tally, file_id_of, linked_tag, linked_file,
  root-IsConsistent,
}
use supertag.Db.Link.{link_key}
use supertag.Db.Lookup.{named, get_tag_id, update_root_mtime}
use supertag.Db.Monad.{Returns, Returns-bind}
use supertag.Db.Remove.{delete_tags, remove_tag}
use supertag.Db.Store.{Db, TagRow, FileTagRow}
use supertag.Rows.Int.{pos}

abbrev leads_to : List ℕ → FileTagRow → Bool
leads_to gone r = mem r.tag_id gone

find-delete : (p : TagRow → Bool) (rows : List TagRow) → find p (delete p rows) ≡ none
unfolding find delete
find-delete p [] = refl
find-delete p (r ∷ rows) = ground (arith, find-delete p rows)

get_tag_id-none :
    (db : Db) (tag : Text) → find (named tag) db.tags ≡ none → get_tag_id db tag ≡ none
unfolding get_tag_id
get_tag_id-none db tag h = ground arith

-- A link that stays leads to a tag that stays.
link_tags-delete :
    (p : TagRow → Bool) (rows : List TagRow) (links : List FileTagRow)
    → All (IsIn (map tag_id_of rows)) (map linked_tag links)
    → All
        (IsIn (map tag_id_of (delete p rows)))
        (map linked_tag (delete (leads_to (map tag_id_of (select p rows))) links))
unfolding delete
link_tags-delete p rows [] h = tt
link_tags-delete p rows (r ∷ links) (hr, h) =
    elim (Bool-cases (mem r.tag_id (map tag_id_of (select p rows)))) [
      | inl e ↦ rw e (link_tags-delete p rows links h)
      | inr e ↦ rw e (
        ground (arith, Deletion.mem-select-delete tag_id_of p r.tag_id rows),
        link_tags-delete p rows links h,
      )
    ]

-- No link that goes leads to a tag that is not removed.
count-leads_to :
    (gone : List ℕ) (i : ℕ) (links : List FileTagRow)
    → mem i gone ≡ false
    → count i (map linked_tag (select (leads_to gone) links)) ≡ 0
unfolding select count
count-leads_to gone i [] h = refl
count-leads_to gone i (r ∷ links) h = ground (arith, count-leads_to gone i links, ==_iff r.tag_id i)

tallies-delete :
    (gone : List ℕ) (links : List FileTagRow) (ts : List TagRow)
    → All (λ i. mem i gone ≡ false) (map tag_id_of ts)
    → All (IsTallied (map linked_tag links)) (map tally ts)
    → All (IsTallied (map linked_tag (delete (leads_to gone) links))) (map tally ts)
tallies-delete gone links [] a h = tt
tallies-delete gone links (t ∷ ts) (at, a) (ht, h) = (
  ht
      ∙ ap pos (
          omega (
            arith,
            Deletion.count-delete linked_tag (leads_to gone) t.id links,
            count-leads_to gone t.id links at,
          )),
  tallies-delete gone links ts a h,
)

delete_tags-IsConsistent :
    (p : TagRow → Bool) (db : Db)
    → IsConsistent db
    → Returns
        (λ _ db'. IsConsistent db' × (db'.tags ≡ delete p db.tags) × (db'.files ≡ db.files))
        (delete_tags p db)
unfolding delete_tags
delete_tags-IsConsistent p db c =
    let gone = map tag_id_of (select p db.tags) in
    (
      record {
        tag_ids = Deletion.Distinct-delete tag_id_of p db.tags c.tag_ids;
        tag_names = Deletion.Distinct-delete tag_name_of p db.tags c.tag_names;
        file_ids = c.file_ids;
        file_nodes = c.file_nodes;
        file_paths = c.file_paths;
        link_keys = Deletion.Distinct-delete link_key (leads_to gone) db.file_tag c.link_keys;
        link_tags = link_tags-delete p db.tags db.file_tag c.link_tags;
        link_files =
            Deletion.All-delete linked_file (leads_to gone) (IsIn (map file_id_of db.files))
              db.file_tag c.link_files;
        tallies =
            tallies-delete gone db.file_tag (delete p db.tags)
              (Deletion.apart-delete tag_id_of p db.tags c.tag_ids)
              (Deletion.All-delete tally p (IsTallied (map linked_tag db.file_tag)) db.tags
                c.tallies);
      },
      refl,
      refl,
    )

-- For consistent tables the immediate removal of a tag always succeeds: no tag of the name is left,
-- the other tags and the files stay as they are, and the tables are consistent, so that no link is
-- left that leads to it.
pub remove_tag_lem :
    (tag : Text) (now : ℕ) (db : Db)
    → IsConsistent db
    → Returns
        (λ _ db'.
          IsConsistent db'
          × (get_tag_id db' tag ≡ none)
          × (db'.tags ≡ delete (named tag) db.tags)
          × (db'.files ≡ db.files))
        (remove_tag tag now true db)
unfolding remove_tag update_root_mtime
remove_tag_lem tag now db c =
    Returns-bind _ _ (delete_tags (named tag)) _ db (delete_tags-IsConsistent (named tag) db c)
      (λ _ db1 (c1, t, f). (
        root-IsConsistent db1 now c1,
        get_tag_id-none (record db1 { root_mtime = now }) tag
            (ap (find (named tag)) t ∙ find-delete (named tag) db.tags),
        t,
        f,
      ))
