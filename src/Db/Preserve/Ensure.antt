-- ===== src/Db/Preserve/Ensure.antt =====
-- `ensure_tag` keeps the tables consistent, and a tag of the name exists afterwards.
use supertag.Base.{
  ℕ, ◌≡◌, refl, sym, ap, ◌∙◌, false, List, [], ◌∷◌, ◌++◌, map, none, some, arith, Text, All,
  All-append, All-map, mem, Distinct-append_one, mem-append, map-append_one, find, update, ◌==◌,
  ==_iff, nat_eq, chars_eq, pair_eq, Option-cases, inl, inr, count_of_not-mem, Bool-cases,
}
use supertag.Db.Consistent.{
  IsConsistent, IsIn, tag_id_of, tag_name_of, tally, linked_tag, update_tags-IsConsistent,
  root-IsConsistent,
}
use supertag.Base.Unique
use supertag.Db.Ensure.{ensure_tag}
use supertag.Db.Lookup.{named, get_tag_id, update_tag_mtime, update_root_mtime}
use supertag.Db.Monad.{done, Returns, Returns-map}
use supertag.Db.Preserve.Grows.{
  Grows, Grows-root, Grows-update, Grows-new_tag, get_tag_id-update, get_tag_id_of_find,
}
use supertag.Db.Store.{Db, TagRow, Engine, IsFresh}
use supertag.Perms.Permissions
use supertag.Perms.Permissions.{Permissions}
use supertag.Rows.Int.{pos}

-- No link leads to an id that no tag has.
unlinked :
    (ids links : List ℕ) (i : ℕ) → All (IsIn ids) links → mem i ids ≡ false → mem i links ≡ false
unfolding mem
unlinked ids [] i h k = refl
unlinked ids (l ∷ links) i (hl, h) k = elim (Bool-cases (l == i)) [
  | inl e ↦ absurd (cc (ap (λ x. mem x ids) ((==_iff l i).0 e)))
  | inr e ↦ rw (e, unlinked ids links i h k)
]

module _ (engine : Engine) (fresh : IsFresh engine) where
  -- A new row with an unused name, a fresh id and no files.
  new_tag-IsConsistent :
      (db : Db) (t : TagRow)
      → t.id ≡ engine.new_id (map tag_id_of db.tags)
      → t.num_files ≡ pos 0
      → find (named t.tag_name) db.tags ≡ none
      → IsConsistent db
      → IsConsistent (record db { tags = db.tags ++ t ∷ [] })
  new_tag-IsConsistent db t e z h c =
      let unused : mem t.id (map tag_id_of db.tags) ≡ false =
        rw e (fresh (map tag_id_of db.tags)) in
      let ids = map-append_one tag_id_of db.tags t in
      record {
        tag_ids = rw ids (Distinct-append_one _ t.id c.tag_ids unused);
        tag_names = rw (map-append_one tag_name_of db.tags t) (
            Distinct-append_one _ t.tag_name c.tag_names
              (Unique.find-none→not-mem tag_id_of tag_name_of db.tags t.tag_name h));
        file_ids = c.file_ids;
        file_nodes = c.file_nodes;
        file_paths = c.file_paths;
        link_keys = c.link_keys;
        link_tags = rw ids (
            All-map (IsIn (map tag_id_of db.tags)) (IsIn (map tag_id_of db.tags ++ t.id ∷ []))
              (λ i p. mem-append i (map tag_id_of db.tags) (t.id ∷ []) ∙ rw p)
              (map linked_tag db.file_tag) c.link_tags);
        link_files = c.link_files;
        tallies = rw (map-append_one tally db.tags t) (
            All-append _ (map tally db.tags) (tally t ∷ []) c.tallies (
              z
                  ∙ sym (
                      ap pos (
                        count_of_not-mem t.id _
                          (unlinked (map tag_id_of db.tags) _ t.id c.link_tags unused))),
              tt,
            ));
      }

  -- The row that `ensure_tag` inserts.
  abbrev new_tag : Text → ℕ → ℕ → Permissions → ℕ → Db → TagRow
  new_tag tag uid gid permissions now db = record {
    id = engine.new_id (map (λ t. t.id) db.tags);
    tag_name = tag;
    ts = now;
    mtime = now;
    uid = uid;
    gid = gid;
    permissions = Permissions.mode permissions;
    num_files = pos 0;
  }

  module _ (tag : Text) (uid gid : ℕ) (permissions : Permissions) (now : ℕ) (db : Db) where
    ensure_tag_found :
        (t : TagRow)
        → find (named tag) db.tags ≡ some t
        → ensure_tag engine tag uid gid permissions now db
          ≡ done
              (t.tag_name, t.id)
              (record db {
                tags = update (named t.tag_name) (λ t. record t { mtime = now }) db.tags;
              })
    unfolding ensure_tag update_tag_mtime
    ensure_tag_found t e = ground arith

    ensure_tag_new :
        find (named tag) db.tags ≡ none
        → ensure_tag engine tag uid gid permissions now db
          ≡ done
              (tag, engine.new_id (map tag_id_of db.tags))
              (record db {
                tags = db.tags ++ new_tag tag uid gid permissions now db ∷ [];
                root_mtime = now;
              })
    unfolding ensure_tag update_root_mtime get_tag_id
    ensure_tag_new e =
        let t = new_tag tag uid gid permissions now db in
        ground (arith, Unique.find-append_one tag_id_of tag_name_of db.tags tag t e refl)

  pub ensure_tag-Grows :
      (tag : Text) (uid gid : ℕ) (permissions : Permissions) (now : ℕ) (db : Db)
      → IsConsistent db
      → Returns
          (λ r db'.
            IsConsistent db'
            × (r.0 ≡ tag)
            × (get_tag_id db' tag ≡ some r.1)
            × (db'.file_tag ≡ db.file_tag)
            × Grows db db')
          (ensure_tag engine tag uid gid permissions now db)
  ensure_tag-Grows tag uid gid permissions now db c =
      elim (Option-cases (find (named tag) db.tags)) [
        | inr (t, e) ↦ rw (ensure_tag_found tag uid gid permissions now db t e) (
          update_tags-IsConsistent db (named t.tag_name) (λ t. record t { mtime = now }) (λ t. refl)
              (λ t. refl) (λ t. refl) c,
          Unique.find_key tag_id_of tag_name_of db.tags tag t e,
          get_tag_id-update db (named t.tag_name) (λ t. record t { mtime = now }) tag (λ t. refl)
                (λ t. refl)
              ∙ get_tag_id_of_find db tag t e,
          refl,
          Grows-update db (named t.tag_name) (λ t. record t { mtime = now }) (λ t. refl)
              (λ t. refl),
        )
        | inl e ↦
            let t = new_tag tag uid gid permissions now db in
            rw (ensure_tag_new tag uid gid permissions now db e) (
              root-IsConsistent (record db { tags = db.tags ++ t ∷ [] }) now
                  (new_tag-IsConsistent db t refl refl e c),
              refl,
              get_tag_id_of_find (record db { tags = db.tags ++ t ∷ []; root_mtime = now }) tag t
                  (Unique.find-append_one tag_id_of tag_name_of db.tags tag t e refl),
              refl,
              Grows-root db (record db { tags = db.tags ++ t ∷ [] }) now
                  (Grows-new_tag db (t ∷ [])),
            )
      ]

  -- For consistent tables and an engine that gives fresh ids, `ensure_tag` always succeeds: the tables
  -- stay consistent, the name returned is the one asked for, the tag of that name has the id
  -- returned, and files and links are as before.
  pub ensure_tag_lem :
      (tag : Text) (uid gid : ℕ) (permissions : Permissions) (now : ℕ) (db : Db)
      → IsConsistent db
      → Returns
          (λ r db'.
            IsConsistent db'
            × (r.0 ≡ tag)
            × (get_tag_id db' tag ≡ some r.1)
            × (db'.files ≡ db.files)
            × (db'.file_tag ≡ db.file_tag))
          (ensure_tag engine tag uid gid permissions now db)
  ensure_tag_lem tag uid gid permissions now db c =
      Returns-map _ _ (ensure_tag engine tag uid gid permissions now db)
        (λ r db' (k, q, i, l, g). (k, q, i, g.same_files, l))
        (ensure_tag-Grows tag uid gid permissions now db c)
