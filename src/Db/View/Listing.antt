-- ===== src/Db/View/Listing.antt =====
-- The listing of a directory of tags, `files_tagged_with`, in the view.
use supertag.Base.{
  ℕ, ◌≡◌, refl, sym, ap, ◌∙◌, Bool, false, not, ◌&&◌, List, [], ◌∷◌, ◌++◌, map, none, some, Text,
  find, mem, ◌==◌, nat_eq, pair_eq, chars_eq, arith, Option-cases, inl, inr,
}
use supertag.Base.Unique
use supertag.Base.Unique.{is_some}
use supertag.Db.Consistent.{IsConsistent, tag_id_of, tag_name_of}
use supertag.Db.Link.{link_key}
use supertag.Db.Lookup.{named, file_id_at, get_tag_id}
use supertag.Db.Monad.{done, Returns, Returns-map}
use supertag.Db.Preserve.Grows.{get_tag_id_of_find}
use supertag.Db.Preserve.History.{created, Reaches-IsConsistent}
use supertag.Db.Query.{intersects_of, excepts_of, groups_of}
use supertag.Db.Query.Meaning.{tagged, every, asked_for}
use supertag.Db.Select.Files.{files_tagged_with}
use supertag.Db.Select.Found.{listed_id, only_negated, wants, files_tagged_with_lem}
use supertag.Db.Store.{Db, TagRow, FileTagRow, Engine, IsFresh, migrate}
use supertag.Db.View.{View, carries, linked_ids, each}
use supertag.Rows.{TaggedFile}
use mathlib.Core.Path.{fun_ext}
use supertag.Tags.Types.{TagType, regular, negation}
use supertag.Db.View.Refines.{Op, meaning, AreAllowed, perform_all, perform_all-carries}

-- The links of a file to a tag, as the subqueries look for them
find-link :
    (i t : ℕ) (links : List FileTagRow)
    → is_some (find (λ r. r.file_id == i && r.tag_id == t) links) ≡ mem (i, t) (map link_key links)
unfolding find mem
find-link i t [] = refl
find-link i t (r ∷ links) = ground (arith, find-link i t links)

find-never :
    (p : FileTagRow → Bool) (links : List FileTagRow)
    → ((r : FileTagRow) → p r ≡ false)
    → is_some (find p links) ≡ false
unfolding find
find-never p [] h = refl
find-never p (r ∷ links) h = rw (h r) (find-never p links h)

no_such_tag :
    (tags : List TagRow) (name : Text) (i : ℕ)
    → find (named name) tags ≡ none
    → is_some (find (λ t. t.id == i && named name t) tags) ≡ false
unfolding find
no_such_tag [] name i h = refl
no_such_tag (t ∷ tags) name i h = ground (arith, no_such_tag tags name i)

module _ (db : Db) (c : IsConsistent db) (i : ℕ) where
  -- A subquery finds a file where the view has the tag.
  tagged-linked_ids :
      (name : Text) → tagged db i name ≡ linked_ids db.file_tag (some i) (get_tag_id db name)
  unfolding get_tag_id
  tagged-linked_ids name = elim (Option-cases (find (named name) db.tags)) [
    | inl e ↦
        let gone : get_tag_id db name ≡ none = ground arith in
        find-never _ db.file_tag (λ r. rw (no_such_tag db.tags name r.tag_id e) (ground arith))
        ∙ sym (ap (linked_ids db.file_tag (some i)) gone)
    | inr (t, e) ↦
        let test : (λ (r : FileTagRow).
          r.file_id == i && is_some (find (λ t. t.id == r.tag_id && named name t) db.tags))
            ≡ (λ r. r.file_id == i && r.tag_id == t.id) =
          fun_ext λ r.
            ap (λ b. r.file_id == i && b)
              (Unique.find_both_agree tag_id_of tag_name_of db.tags name t r.tag_id c.tag_ids
                c.tag_names e) in
        ap (λ p. is_some (find p db.file_tag)) test
        ∙ find-link i t.id db.file_tag
        ∙ sym (ap (linked_ids db.file_tag (some i)) (get_tag_id_of_find db name t e))
  ]

  tagged-carries :
      (n : ℕ × ℕ) (name : Text)
      → file_id_at db n.0 n.1 ≡ some i
      → tagged db i name ≡ carries db n name
  unfolding carries
  tagged-carries n name h =
      tagged-linked_ids name ∙ ap (λ o. linked_ids db.file_tag o (get_tag_id db name)) (sym h)

-- A directory of tags, with the negated ones last
abbrev pub directory : List Text → List Text → List TagType
directory names excepts = map regular names ++ map negation excepts

-- What the view has in it: files with all tags, but not with all negated ones
abbrev pub shows : (Text → Bool) → List Text → List Text → Bool
shows has names [] = every has names
shows has names (e ∷ excepts) = every has names && not (every has (e ∷ excepts))

directory_names :
    (names excepts : List Text)
    → (intersects_of (directory names excepts) ≡ names)
      × (excepts_of (directory names excepts) ≡ excepts)
unfolding intersects_of excepts_of
directory_names [] [] = (refl, refl)
directory_names [] (e ∷ excepts) = let (p, q) = directory_names [] excepts in (p, ap (◌∷◌ e) q)
directory_names (n ∷ names) excepts =
    let (p, q) = directory_names names excepts in (ap (◌∷◌ n) p, q)

no_group_last : (db : Db) (names excepts : List Text) → groups_of db (directory names excepts) ≡ []
unfolding groups_of
no_group_last db [] [] = refl
no_group_last db [] (e ∷ []) = refl
no_group_last db [] (e ∷ f ∷ excepts) = no_group_last db [] (f ∷ excepts)
no_group_last db (n ∷ []) [] = refl
no_group_last db (n ∷ []) (e ∷ excepts) = no_group_last db [] (e ∷ excepts)
no_group_last db (n ∷ m ∷ names) excepts = no_group_last db (m ∷ names) excepts

asked_for-shows :
    (db : Db) (i : ℕ) (n : Text) (names excepts : List Text)
    → asked_for db i (n ∷ names) [] excepts ≡ shows (tagged db i) (n ∷ names) excepts
asked_for-shows db i n names [] = ground arith
asked_for-shows db i n names (e ∷ excepts) = ground arith

wants-directory :
    (db : Db) (i : ℕ) (n : Text) (names excepts : List Text)
    → wants (directory (n ∷ names) excepts) db i ≡ shows (tagged db i) (n ∷ names) excepts
wants-directory db i n names excepts =
    let (p, q) = directory_names (n ∷ names) excepts in
    ap
      (λ l.
        asked_for db i l (groups_of db (directory (n ∷ names) excepts))
          (excepts_of (directory (n ∷ names) excepts)))
      p
    ∙ ap (λ l. asked_for db i (n ∷ names) l (excepts_of (directory (n ∷ names) excepts)))
        (no_group_last db (n ∷ names) excepts)
    ∙ ap (asked_for db i (n ∷ names) []) q
    ∙ asked_for-shows db i n names excepts

-- A listing of a directory shows the view: files that are known are in it exactly if they have all
-- its tags, and not all of its negated ones.
listing-carries :
    (db : Db) (n : Text) (names excepts : List Text)
    → IsConsistent db
    → (rows : List TaggedFile) × (files_tagged_with (directory (n ∷ names) excepts) db
        ≡ done rows db)
      × ((node : ℕ × ℕ) (i : ℕ)
          → file_id_at db node.0 node.1 ≡ some i
          → mem i (map listed_id rows) ≡ shows (carries db node) (n ∷ names) excepts)
listing-carries db n names excepts c =
    let tags = directory (n ∷ names) excepts in
    let (rows, result, ordered, shown) = files_tagged_with_lem tags db c in
    let (p, q) = directory_names (n ∷ names) excepts in
    let positive : only_negated (intersects_of tags) (excepts_of tags) ≡ false =
      ap (λ l. only_negated l (excepts_of tags)) p in
    (
      rows,
      result ∙ (rw positive refl),
      λ node i h.
          shown i
          ∙ wants-directory db i n names excepts
          ∙ ap (λ has. shows has (n ∷ names) excepts)
              (fun_ext λ name. tagged-carries db c i node name h),
    )

migrate-carries : (now : ℕ) → carries (migrate now) ≡ (λ _ _. false)
unfolding carries migrate file_id_at find
migrate-carries now = refl

-- What a user sees is what was asked for: in a new database, for an engine that gives fresh ids, after any allowed run of additions of
-- files, removals of tags from them, purges, and deletions and renamings of tags, the listing of a
-- directory of tags succeeds, and a file that is known is in it exactly if, by these changes alone and
-- in their order, it carries every tag of the directory, and not every negated tag of it if there are
-- any.
pub listing-perform_all :
    (engine : Engine) (fresh : IsFresh engine) (ops : List Op) (start : ℕ) (n : Text)
    (names excepts : List Text)
    → AreAllowed engine fresh ops (migrate start)
    → Returns
        (λ _ db'.
          (rows : List TaggedFile) × (files_tagged_with (directory (n ∷ names) excepts) db'
            ≡ done rows db')
          × ((node : ℕ × ℕ) (i : ℕ)
              → file_id_at db' node.0 node.1 ≡ some i
              → mem i (map listed_id rows)
                ≡ shows (each meaning ops (λ _ _. false) node) (n ∷ names) excepts))
        (perform_all engine fresh ops (migrate start))
listing-perform_all engine fresh ops start n names excepts h =
    Returns-map _ _ (perform_all engine fresh ops (migrate start))
      (λ _ db' (c, view).
        let (rows, result, shown) = listing-carries db' n names excepts c in
        let same : carries db' ≡ each meaning ops (λ _ _. false) =
          view ∙ ap (each meaning ops) (migrate-carries start) in
        (
          rows,
          result,
          λ node i known.
              shown node i known ∙ ap (λ (v : View). shows (v node) (n ∷ names) excepts) same,
        ))
      (perform_all-carries engine fresh ops (migrate start)
        (Reaches-IsConsistent engine fresh (migrate start) (created start)) h)
