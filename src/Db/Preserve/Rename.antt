-- ===== src/Db/Preserve/Rename.antt =====
-- `rename_tag` and `rename_file` keep the tables consistent; a name in use is refused.
use supertag.Base.{
  ℕ, ◌≡◌, ◌⊎◌, refl, sym, ap, ◌∙◌, Bool, false, List, [], ◌∷◌, map, none, some, arith, Text, mem,
  Distinct, find, update, text_eq, text_eq_iff, text_eq_refl, nat_eq, chars_eq, Bool-cases, inl,
  inr, map-update, beq_sym,
}
use supertag.Base.Unique
use supertag.Db.Consistent.{
  IsConsistent, tag_id_of, tag_name_of, tally, update_tags-IsConsistent, root-IsConsistent,
}
use supertag.Db.Lookup.{named, get_tag_id, update_tag_mtime, update_root_mtime}
use supertag.Db.Monad.{done, Returns}
use supertag.Db.Preserve.Grows.{get_tag_id_of_find, get_tag_id-update, find_of_get_tag_id}
use supertag.Db.Rename.{rename_tag}
use supertag.Db.Store.{Db, TagRow}

module _ (old new : Text) where
  renamed : TagRow → TagRow
  renamed t = record t { tag_name = new }

  -- A name that is neither in use nor the new one is not in use afterwards.
  not-mem-renamed :
      (name : Text) (rows : List TagRow)
      → text_eq new name ≡ false
      → mem name (map tag_name_of rows) ≡ false
      → mem name (map tag_name_of (update (named old) renamed rows)) ≡ false
  unfolding mem update renamed
  not-mem-renamed name [] e h = refl
  not-mem-renamed name (r ∷ rows) e h = ground (arith, not-mem-renamed name rows e)

  -- A name that does not occur is not renamed.
  update-absent :
      (rows : List TagRow)
      → mem old (map tag_name_of rows) ≡ false
      → map tag_name_of (update (named old) renamed rows) ≡ map tag_name_of rows
  unfolding mem update renamed
  update-absent [] h = refl
  update-absent (r ∷ rows) h = ground (arith, update-absent rows)

  Distinct-renamed :
      (rows : List TagRow)
      → Distinct (map tag_name_of rows)
      → mem new (map tag_name_of rows) ≡ false
      → Distinct (map tag_name_of (update (named old) renamed rows))
  unfolding mem update
  Distinct-renamed [] d h = tt
  Distinct-renamed (r ∷ rows) (dr, d) h = elim (Bool-cases (named old r)) [
    | inl e ↦
        let absent : mem old (map tag_name_of rows) ≡ false = rw ((text_eq_iff _ _).0 e) at dr in
        rw (e, update-absent rows absent) (unfold renamed in (ground arith, d))
    | inr e ↦ rw e (
      not-mem-renamed r.tag_name rows (beq_sym new r.tag_name ∙ ground arith) dr,
      Distinct-renamed rows d (ground arith),
    )
  ]

-- The name is free, or it is the old one.
abbrev pub IsFree : Db → Text → Text → Type 0
IsFree db old new = (find (named new) db.tags ≡ none) ⊎ (old ≡ new)

update-same :
    (old : Text) (rows : List TagRow)
    → map tag_name_of (update (named old) (λ t. record t { tag_name = old }) rows)
      ≡ map tag_name_of rows
unfolding update
update-same old [] = refl
update-same old (r ∷ rows) = ground (arith, text_eq_iff r.tag_name old, update-same old rows)

Distinct-rename :
    (old new : Text) (db : Db)
    → IsConsistent db
    → IsFree db old new
    → Distinct (map tag_name_of (update (named old) (λ t. record t { tag_name = new }) db.tags))
unfolding renamed
Distinct-rename old new db c (inl free) =
    Distinct-renamed old new db.tags c.tag_names
      (Unique.find-none→not-mem tag_id_of tag_name_of db.tags new free)
Distinct-rename old new db c (inr same) = rw (sym same, update-same old db.tags) c.tag_names

pub rename_tag_done :
    (old new : Text) (now : ℕ) (db : Db)
    → IsFree db old new
    → rename_tag old new now db
      ≡ done tt (record db {
        tags =
            update
              (named new)
              (λ t. record t { mtime = now })
              (update (named old) (λ t. record t { tag_name = new }) db.tags);
        root_mtime = now;
      })
unfolding rename_tag update_tag_mtime update_root_mtime
rename_tag_done old new now db (inl free) = ground arith
rename_tag_done old new now db (inr same) = ground (arith, text_eq_iff old new)

-- The first row of the old name has the new one afterwards, if no other row has it.
find-renamed :
    (old new : Text) (rows : List TagRow) (t : TagRow)
    → (find (named new) rows ≡ none) ⊎ (old ≡ new)
    → find (named old) rows ≡ some t
    → find (named new) (update (named old) (λ t. record t { tag_name = new }) rows)
      ≡ some (record t { tag_name = new })
unfolding find update
find-renamed old new [] t f h = absurd (cc)
find-renamed old new (r ∷ rows) t f h = elim (Bool-cases (named old r)) [
  | inl e ↦
      let same : r ≡ t = ground arith in
      rw (e, text_eq_refl new) (ap (λ (x : TagRow). some (record x { tag_name = new })) same)
  | inr e ↦
      let later : find (named old) rows ≡ some t = ground arith in
      elim f [
        | inl free ↦
            let other : named new r ≡ false = ground arith in
            let free' : find (named new) rows ≡ none = ground arith in
            rw (e, other) (find-renamed old new rows t (inl free') later)
        | inr same ↦
            let other : named new r ≡ false = rw (sym same) e in
            rw (e, other) (find-renamed old new rows t (inr same) later)
      ]
]

pub renamed-IsConsistent :
    (old new : Text) (db : Db)
    → IsConsistent db
    → IsFree db old new
    → IsConsistent
        (record db { tags = update (named old) (λ t. record t { tag_name = new }) db.tags })
renamed-IsConsistent old new db c f =
    let renaming : TagRow → TagRow = λ t. record t { tag_name = new } in
    let ids = map-update tag_id_of (named old) renaming db.tags (λ t. refl) in
    record {
      tag_ids = rw ids c.tag_ids;
      tag_names = Distinct-rename old new db c f;
      file_ids = c.file_ids;
      file_nodes = c.file_nodes;
      file_paths = c.file_paths;
      link_keys = c.link_keys;
      link_tags = rw ids c.link_tags;
      link_files = c.link_files;
      tallies = rw (map-update tally (named old) renaming db.tags (λ t. refl)) c.tallies;
    }

get_tag_id-root :
    (db : Db) (p : TagRow → Bool) (f : TagRow → TagRow) (name : Text) (now : ℕ)
    → ((t : TagRow) → (f t).id ≡ t.id)
    → ((t : TagRow) → (f t).tag_name ≡ t.tag_name)
    → get_tag_id (record db { tags = update p f db.tags; root_mtime = now }) name
      ≡ get_tag_id db name
unfolding get_tag_id
get_tag_id-root db p f name now i n = get_tag_id-update db p f name i n

-- For consistent tables, renaming a tag to a name that is free or its own always succeeds: the tag
-- keeps its id under the new name, links and files are as before, and the tables are consistent.
pub rename_tag_lem :
    (old new : Text) (now : ℕ) (db : Db) (i : ℕ)
    → IsConsistent db
    → IsFree db old new
    → get_tag_id db old ≡ some i
    → Returns
        (λ _ db'.
          IsConsistent db'
          × (get_tag_id db' new ≡ some i)
          × (db'.file_tag ≡ db.file_tag)
          × (db'.files ≡ db.files))
        (rename_tag old new now db)
rename_tag_lem old new now db i c f h =
    let renaming : TagRow → TagRow = λ t. record t { tag_name = new } in
    let met : TagRow → TagRow = λ t. record t { mtime = now } in
    let (t, e, q) = find_of_get_tag_id db old i h in
    let db1 : Db = record db { tags = update (named old) renaming db.tags } in
    rw (rename_tag_done old new now db f) (
      root-IsConsistent (record db1 { tags = update (named new) met db1.tags }) now
          (update_tags-IsConsistent db1 (named new) met (λ t. refl) (λ t. refl) (λ t. refl)
            (renamed-IsConsistent old new db c f)),
      get_tag_id-root db1 (named new) met new now (λ t. refl) (λ t. refl)
          ∙ get_tag_id_of_find db1 new (renaming t) (find-renamed old new db.tags t f e)
          ∙ ap some q,
      refl,
      refl,
    )
