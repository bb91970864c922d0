-- ===== src/Db/Preserve/Purge.antt =====
-- `purge_devicefile` and `purge_path` keep the tables consistent: a file goes with its links.
use supertag.Base.{
  ℕ, ◌+◌, ◌≡◌, ◌⊎◌, refl, ap, ◌∙◌, Bool, true, false, List, [], ◌∷◌, map, arith, Text, All, mem,
  count, Distinct, select, update, delete, ◌==◌, ==_iff, Eq, nat_eq, chars_eq, pair_eq, Bool-cases,
  inl, inr, if◌then◌else◌, map-update, text_eq, count_of_not-mem,
}
use supertag.Base.Deletion
use supertag.Base.Unique
use supertag.Db.Consistent.{
  IsConsistent, IsIn, IsTallied, tag_id_of, tag_name_of, tally, file_id_of, node_of, path_of,
  linked_tag, linked_file,
}
use supertag.Db.Link.{link_key}
use supertag.Db.Lookup.{at_inode, update_root_mtime}
use supertag.Db.Monad.{Returns}
use supertag.Db.Remove.{count_down, delete_files, purge_devicefile, purge_path}
use supertag.Db.Store.{Db, FileRow, TagRow, FileTagRow}
use supertag.Rows.Int.{pos, ◌-ℤ◌, pos-sub}
use supertag.Tags.Types.{DeviceFile}

abbrev comes_from : List ℕ → FileTagRow → Bool
comes_from gone r = mem r.file_id gone

count-Distinct : (a : ℕ) (xs : List ℕ) → Distinct xs → count a xs ≡ (if mem a xs then 1 else 0)
unfolding mem count
count-Distinct a [] d = refl
count-Distinct a (x ∷ xs) (h, d) = elim (Bool-cases (x == a)) [
  | inl e ↦
      let absent : mem a xs ≡ false = rw ((==_iff x a).0 e) at h in
      rw (e, count_of_not-mem a xs absent) refl
  | inr e ↦ ground (arith, count-Distinct a xs d)
]

-- No file, or a single one.
abbrev IsSingle : List ℕ → Type 0
IsSingle gone = (gone ≡ []) ⊎ ((i : ℕ) × (gone ≡ i ∷ []))

module _ {K : Type 0} ⦃e : Eq K⦄ (key : FileRow → K) (k : K) where
  select-absent :
      (rows : List FileRow)
      → mem k (map key rows) ≡ false
      → select (Unique.has_key file_id_of key k) rows ≡ []
  unfolding select mem
  select-absent [] h = refl
  select-absent (r ∷ rows) h = ground (arith, select-absent rows)

  -- A key selects at most one row.
  select-IsSingle :
      (rows : List FileRow)
      → Distinct (map key rows)
      → IsSingle (map file_id_of (select (Unique.has_key file_id_of key k) rows))
  unfolding select
  select-IsSingle [] d = inl refl
  select-IsSingle (r ∷ rows) (h, d) = elim (Bool-cases (e.beq (key r) k)) [
    | inl q ↦
        let absent : mem k (map key rows) ≡ false = rw ((e.beq_iff _ _).0 q) at h in
        inr (r.id, rw (q, select-absent rows absent) refl)
    | inr q ↦ rw q (select-IsSingle rows d)
  ]

mem-comes_from :
    (i t : ℕ) (links : List FileTagRow)
    → mem t (map linked_tag (select (comes_from (i ∷ [])) links)) ≡ mem (i, t) (map link_key links)
unfolding select mem
mem-comes_from i t [] = refl
mem-comes_from i t (r ∷ links) =
    ground (arith, mem-comes_from i t links, ==_iff i r.file_id, ==_iff r.file_id i)

select-none : (links : List FileTagRow) → select (comes_from []) links ≡ []
unfolding select mem
select-none [] = refl
select-none (r ∷ links) = select-none links

mem-single : (a i : ℕ) → mem a (i ∷ []) ≡ true → a ≡ i
unfolding mem
mem-single a i h = ground (arith, ==_iff i a)

-- The links of a single file lead to tags that do not repeat.
Distinct-comes_from :
    (i : ℕ) (links : List FileTagRow)
    → Distinct (map link_key links)
    → Distinct (map linked_tag (select (comes_from (i ∷ [])) links))
unfolding select
Distinct-comes_from i [] d = tt
Distinct-comes_from i (r ∷ links) (h, d) = elim (Bool-cases (mem r.file_id (i ∷ []))) [
  | inl q ↦
      let same : r.file_id ≡ i = mem-single r.file_id i q in
      rw q (mem-comes_from i r.tag_id links ∙ (rw same at h), Distinct-comes_from i links d)
  | inr q ↦ rw q (Distinct-comes_from i links d)
]

IsSingle-Distinct :
    (gone : List ℕ) (links : List FileTagRow)
    → IsSingle gone
    → Distinct (map link_key links)
    → Distinct (map linked_tag (select (comes_from gone) links))
IsSingle-Distinct gone links (inl e) d = rw (e, select-none links) tt
IsSingle-Distinct gone links (inr (i, e)) d = rw e (Distinct-comes_from i links d)

-- A link that stays comes from a file that stays.
link_files-delete :
    (p : FileRow → Bool) (rows : List FileRow) (links : List FileTagRow)
    → All (IsIn (map file_id_of rows)) (map linked_file links)
    → All
        (IsIn (map file_id_of (delete p rows)))
        (map linked_file (delete (comes_from (map file_id_of (select p rows))) links))
unfolding delete
link_files-delete p rows [] h = tt
link_files-delete p rows (r ∷ links) (hr, h) =
    elim (Bool-cases (mem r.file_id (map file_id_of (select p rows)))) [
      | inl e ↦ rw e (link_files-delete p rows links h)
      | inr e ↦ rw e (
        ground (arith, Deletion.mem-select-delete file_id_of p r.file_id rows),
        link_files-delete p rows links h,
      )
    ]

abbrev lowered : TagRow → TagRow
lowered t = record t { num_files = t.num_files -ℤ 1 }

-- Every tag of the file loses one link and counts one less.
tallies-purge :
    (gone : List ℕ) (links : List FileTagRow) (rows : List TagRow)
    → Distinct (map linked_tag (select (comes_from gone) links))
    → All (IsTallied (map linked_tag links)) (map tally rows)
    → All (IsTallied (map linked_tag (delete (comes_from gone) links))) (
        map tally
          (update (λ t. mem t.id (map linked_tag (select (comes_from gone) links))) lowered rows))
unfolding update
tallies-purge gone links [] d h = tt
tallies-purge gone links (t ∷ rows) d (ht, h) =
    let tags = map linked_tag (select (comes_from gone) links) in
    let left = map linked_tag (delete (comes_from gone) links) in
    let split : count t.id (map linked_tag links)
        ≡ count t.id left + (if mem t.id tags then 1 else 0) =
      omega (
        arith,
        Deletion.count-delete linked_tag (comes_from gone) t.id links,
        count-Distinct t.id tags d,
      ) in
    (
      elim (Bool-cases (mem t.id tags)) [
        | inl q ↦
            rw q (ap (λ z. z -ℤ 1) (ht ∙ ap pos (split ∙ rw q refl)) ∙ pos-sub (count t.id left) 1)
        | inr q ↦ rw q (ht ∙ ap pos (split ∙ rw q (omega arith)))
      ],
      tallies-purge gone links rows d h,
    )

module _ {K : Type 0} ⦃e : Eq K⦄ (key : FileRow → K) (k : K) (now : ℕ) (db : Db) where
  -- The tables without the file that the key selects.
  unfoldable purged : Db
  purged =
      let p = Unique.has_key file_id_of key k in
      let gone = map file_id_of (select p db.files) in
      let tag_ids = map linked_tag (select (comes_from gone) db.file_tag) in
      record db {
        tags = update (λ t. mem t.id tag_ids) lowered db.tags;
        files = delete p db.files;
        file_tag = delete (comes_from gone) db.file_tag;
        root_mtime = now;
      }

  purged-IsConsistent : IsConsistent db → Distinct (map key db.files) → IsConsistent purged
  unfolding purged
  purged-IsConsistent c d =
      let p = Unique.has_key file_id_of key k in
      let gone = map file_id_of (select p db.files) in
      let single = select-IsSingle key k db.files d in
      let hit : TagRow → Bool =
        λ t. mem t.id (map linked_tag (select (comes_from gone) db.file_tag)) in
      let ids = map-update tag_id_of hit lowered db.tags (λ t. refl) in
      record {
        tag_ids = rw ids c.tag_ids;
        tag_names = rw (map-update tag_name_of hit lowered db.tags (λ t. refl)) c.tag_names;
        file_ids = Deletion.Distinct-delete file_id_of p db.files c.file_ids;
        file_nodes = Deletion.Distinct-delete node_of p db.files c.file_nodes;
        file_paths = Deletion.Distinct-delete path_of p db.files c.file_paths;
        link_keys = Deletion.Distinct-delete link_key (comes_from gone) db.file_tag c.link_keys;
        link_tags = rw ids (
            Deletion.All-delete linked_tag (comes_from gone) (IsIn (map tag_id_of db.tags))
              db.file_tag c.link_tags);
        link_files = link_files-delete p db.files db.file_tag c.link_files;
        tallies =
            tallies-purge gone db.file_tag db.tags
              (IsSingle-Distinct gone db.file_tag single c.link_keys) c.tallies;
      }

-- For consistent tables `purge_devicefile` always succeeds: exactly the files of the device and inode
-- go, and the tables are consistent, so that their links go too and every tag counts those it has left.
pub purge_devicefile_lem :
    (df : DeviceFile) (now : ℕ) (db : Db)
    → IsConsistent db
    → Returns
        (λ _ db'. IsConsistent db' × (db'.files ≡ delete (at_inode df.device df.inode) db.files))
        (purge_devicefile df now db)
unfolding purge_devicefile count_down delete_files update_root_mtime purged
purge_devicefile_lem df now db c =
    (purged-IsConsistent node_of (df.device, df.inode) now db c c.file_nodes, refl)

-- For consistent tables `purge_path` always succeeds: exactly the files of the path go, with exactly
-- their links; the other links, and the ids and the names of the tags, are as before, and the tables
-- are consistent, so that every tag counts the links it has left.
pub purge_path_lem :
    (path : Text) (now : ℕ) (db : Db)
    → IsConsistent db
    → let gone = map file_id_of (select (λ f. text_eq f.path path) db.files) in
      Returns
        (λ _ db'.
          IsConsistent db'
          × (db'.files ≡ delete (λ f. text_eq f.path path) db.files)
          × (db'.file_tag ≡ delete (λ r. mem r.file_id gone) db.file_tag)
          × (map tag_id_of db'.tags ≡ map tag_id_of db.tags)
          × (map tag_name_of db'.tags ≡ map tag_name_of db.tags))
        (purge_path path now db)
unfolding purge_path count_down delete_files update_root_mtime purged
purge_path_lem path now db c =
    let gone = map file_id_of (select (λ f. text_eq f.path path) db.files) in
    let hit : TagRow → Bool =
      λ t. mem t.id (map linked_tag (select (comes_from gone) db.file_tag)) in
    (
      purged-IsConsistent path_of path now db c c.file_paths,
      refl,
      refl,
      map-update tag_id_of hit lowered db.tags (λ t. refl),
      map-update tag_name_of hit lowered db.tags (λ t. refl),
    )
