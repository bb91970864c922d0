-- ===== src/Db/Select/Found.antt =====
-- `files_tagged_with` lists the files that the path asks for.
use supertag.Base.{
  ℕ, ◌≡◌, refl, sym, ap, ◌∙◌, Bool, true, false, ◌&&◌, ◌||◌, List, [], ◌∷◌, map, arith, Text, All,
  append-nil, mem, length, find, select, ◌==◌, ==_iff, nat_eq, chars_eq, Bool-cases, inl, inr,
  if◌then◌else◌,
}
use supertag.Base.Order.{IsOrdered, order_by, mem-order_by, order_by-IsOrdered}
use supertag.Base.Unique.{is_some}
use supertag.Db.Consistent.{IsConsistent, IsIn, file_id_of, linked_file}
use supertag.Db.Lookup.{named}
use supertag.Db.Monad.{done, failed}
use supertag.Db.Query
use supertag.Db.Query.{
  intersects_of, excepts_of, groups_of, intersection_subquery, assemble, single_subqueries,
}
use supertag.Db.Query.Meaning.{selects, asked_for}
use supertag.Db.Query.Numbering.{intersection_subquery-asked_for}
use supertag.Db.Select.Files.{links_of, group_links, tagged_rows, is_nothing, files_tagged_with}
use supertag.Db.Store.{Db, FileRow, TagRow, FileTagRow}
use supertag.Errors.{other_failure}
use supertag.Rows.{TaggedFile}
use supertag.Tags.Types.{TagType}

abbrev pub has_rows : List FileTagRow → Bool
has_rows [] = false
has_rows (r ∷ links) = true

abbrev pub listed_id : TaggedFile → ℕ
listed_id tf = tf.id

mem-group_links :
    (i : ℕ) (f : FileRow) (links : List FileTagRow) (rest : List TaggedFile)
    → mem i (map listed_id (group_links f links rest))
      ≡ ((f.id == i && has_rows links) || mem i (map listed_id rest))
unfolding mem
mem-group_links i f [] rest = ground arith
mem-group_links i f (r ∷ links) rest = ground arith

-- A file is listed if it exists, is wanted and has a link.
mem-tagged_rows :
    (db : Db) (wanted : ℕ → Bool) (files : List FileRow) (i : ℕ)
    → mem i (map listed_id (tagged_rows db wanted files))
      ≡ (mem i (map file_id_of files) && wanted i && has_rows (links_of db.tags i db.file_tag))
unfolding tagged_rows mem
mem-tagged_rows db wanted [] i = refl
mem-tagged_rows db wanted (f ∷ files) i = elim (Bool-cases (f.id == i)) [
  | inl e ↦
      let same : f.id ≡ i = (==_iff f.id i).0 e in
      rw same (
        ground (
          arith,
          mem-group_links i f (links_of db.tags i db.file_tag) (tagged_rows db wanted files),
          mem-tagged_rows db wanted files i,
        ))
  | inr e ↦ ground (
    arith,
    mem-group_links i f (links_of db.tags f.id db.file_tag) (tagged_rows db wanted files),
    mem-tagged_rows db wanted files i,
  )
]

find_weaker :
    (p q : TagRow → Bool) (tags : List TagRow)
    → is_some (find (λ t. p t && q t) tags) ≡ true
    → is_some (find p tags) ≡ true
unfolding find
find_weaker p q [] h = h
find_weaker p q (t ∷ tags) h = ground (arith, find_weaker p q tags)

-- A file with a tag has a link.
links_of-tagged :
    (tags : List TagRow) (test : TagRow → Bool) (i : ℕ) (links : List FileTagRow)
    → is_some
        (find (λ r. r.file_id == i && is_some (find (λ t. t.id == r.tag_id && test t) tags)) links)
      ≡ true
    → has_rows (links_of tags i links) ≡ true
unfolding links_of find select
links_of-tagged tags test i [] h = absurd (cc)
links_of-tagged tags test i (r ∷ links) h =
    ground (arith, links_of-tagged tags test i links, find_weaker (λ t. t.id == r.tag_id) test tags)

-- A link of the file is one of the table.
mem-links_of :
    (tags : List TagRow) (i : ℕ) (links : List FileTagRow) (ids : List ℕ)
    → All (IsIn ids) (map linked_file links)
    → has_rows (links_of tags i links) ≡ true
    → mem i ids ≡ true
unfolding links_of select
mem-links_of tags i [] ids a h = absurd (cc)
mem-links_of tags i (r ∷ links) ids (ar, a) h = elim (Bool-cases (r.file_id == i)) [
  | inl e ↦ ap (λ x. mem x ids) (sym ((==_iff r.file_id i).0 e)) ∙ ar
  | inr e ↦ mem-links_of tags i links ids a (ground arith)
]

-- Whoever is asked for has a tag.
asked_for-links :
    (db : Db) (i : ℕ) (intersects groups excepts : List Text)
    → asked_for db i intersects groups excepts ≡ true
    → has_rows (links_of db.tags i db.file_tag) ≡ true
asked_for-links db i [] [] [] h = absurd (cc)
asked_for-links db i [] (g ∷ groups) [] h =
    links_of-tagged db.tags (λ t. mem t.tag_name (g ∷ groups)) i db.file_tag h
asked_for-links db i [] [] (e ∷ excepts) h = absurd (cc)
asked_for-links db i [] (g ∷ groups) (e ∷ excepts) h = absurd (cc)
asked_for-links db i (n ∷ intersects) groups [] h =
    links_of-tagged db.tags (named n) i db.file_tag (ground arith)
asked_for-links db i (n ∷ intersects) groups (e ∷ excepts) h =
    links_of-tagged db.tags (named n) i db.file_tag (ground arith)

-- Negated tags, and no other to take the files from.
abbrev pub only_negated : List Text → List Text → Bool
only_negated [] [] = false
only_negated [] (e ∷ excepts) = true
only_negated (n ∷ intersects) excepts = false

is_nothing-assemble :
    (intersects excepts : List Text) (groups : List Query.Subquery) (a b : ℕ)
    → is_nothing (
        assemble
          (single_subqueries (length intersects) a)
          groups
          (single_subqueries (length excepts) b))
      ≡ only_negated intersects excepts
unfolding assemble single_subqueries
is_nothing-assemble [] [] groups a b = refl
is_nothing-assemble [] (e ∷ excepts) groups a b = refl
is_nothing-assemble (n ∷ intersects) [] groups a b = refl
is_nothing-assemble (n ∷ intersects) (e ∷ excepts) groups a b = refl

module _ (tags : List TagType) (db : Db) where
  abbrev pub wants : ℕ → Bool
  wants i = asked_for db i (intersects_of tags) (groups_of db tags) (excepts_of tags)

  pub query_is_nothing :
      is_nothing (intersection_subquery db tags 0).0
      ≡ only_negated (intersects_of tags) (excepts_of tags)
  unfolding intersection_subquery
  query_is_nothing = is_nothing-assemble (intersects_of tags) (excepts_of tags) _ _ _

  abbrev chosen : ℕ → Bool
  chosen i = let (query, params) = intersection_subquery db tags 0 in selects db params i query

  chosen-wants : (i : ℕ) → chosen i ≡ wants i
  chosen-wants i =
      let (query, params) = intersection_subquery db tags 0 in
      ap (λ env. selects db env i query) (sym (append-nil params))
      ∙ intersection_subquery-asked_for db tags [] [] i

  abbrev pub found_rows : List TaggedFile
  found_rows = order_by (λ tf. tf.primary_tag) (tagged_rows db chosen db.files)

  pub files_tagged_with-done :
      only_negated (intersects_of tags) (excepts_of tags) ≡ false
      → files_tagged_with tags db ≡ done found_rows db
  unfolding files_tagged_with
  files_tagged_with-done h = rw (query_is_nothing ∙ h) refl

  pub files_tagged_with-failed :
      only_negated (intersects_of tags) (excepts_of tags) ≡ true
      → files_tagged_with tags db ≡ failed other_failure
  unfolding files_tagged_with
  files_tagged_with-failed h = rw (query_is_nothing ∙ h) refl

  pub mem-found_rows : (i : ℕ) → IsConsistent db → mem i (map listed_id found_rows) ≡ wants i
  mem-found_rows i c =
      mem-order_by (λ tf. tf.primary_tag) listed_id i (tagged_rows db chosen db.files)
      ∙ mem-tagged_rows db chosen db.files i
      ∙ (elim (Bool-cases (wants i)) [
        | inl w ↦
            let linked =
              asked_for-links db i (intersects_of tags) (groups_of db tags) (excepts_of tags) w in
            let known =
              mem-links_of db.tags i db.file_tag (map file_id_of db.files) c.link_files linked in
            rw (chosen-wants i, w, linked, known) refl
        | inr w ↦ rw (chosen-wants i, w) (ground arith)
      ])

  -- For consistent tables the files of a path are listed without a change of the tables: exactly
  -- those that the path asks for, by their ids, in the order of their names. A path of negated tags
  -- alone makes the statement fail instead.
  pub files_tagged_with_lem :
      IsConsistent db
      → (rows : List TaggedFile) × (files_tagged_with tags db ≡ (
          if only_negated (intersects_of tags) (excepts_of tags)
          then failed other_failure
          else done rows db))
        × IsOrdered (map (λ tf. tf.primary_tag) rows)
        × ((i : ℕ) → mem i (map listed_id rows) ≡ wants i)
  files_tagged_with_lem c = (
    found_rows,
    elim (Bool-cases (only_negated (intersects_of tags) (excepts_of tags))) [
      | inl h ↦ rw h (files_tagged_with-failed h)
      | inr h ↦ rw h (files_tagged_with-done h)
    ],
    order_by-IsOrdered (λ tf. tf.primary_tag) (tagged_rows db chosen db.files),
    λ i. mem-found_rows i c,
  )
