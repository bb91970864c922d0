-- ===== src/Db/Preserve/AddFile.antt =====
-- `add_file` keeps the tables consistent and links the file to every tag of its list.
use supertag.Base.{
  ℕ, suc, ◌≡◌, ◌⊎◌, refl, sym, ap, ◌∙◌, true, false, ◌||◌, List, [], ◌∷◌, ◌++◌, map, Option, none,
  some, arith, Text, All, All-map, mem, mem-append, Distinct-append_one, map-append_one, find,
  text_eq, nat_eq, chars_eq, pair_eq, Option-cases, inl, inr, length,
}
use supertag.Base.Unique
use supertag.Base.Unique.{is_some}
use supertag.Db.Consistent.{
  IsConsistent, IsIn, file_id_of, node_of, path_of, linked_file, root-IsConsistent,
}
use supertag.Db.Ensure.{ensure_tag}
use supertag.Db.Link.{link_key, link_file_to_tag, insert_file, link_tags, add_file}
use supertag.Db.Lookup.{at_inode, get_tag_id, file_id_at, update_root_mtime}
use supertag.Db.Monad.{done, Returns, Returns-bind}
use supertag.Db.Preserve.Ensure.{ensure_tag-Grows}
use supertag.Db.Preserve.Grows.{Grows, Grows-refl, Grows-trans, Grows-root}
use supertag.Db.Preserve.Link.{link-Grows, file_id_at_of_find}
use supertag.Db.Store.{Db, FileRow, Engine, IsFresh}
use supertag.Perms.Umask
use supertag.Perms.Umask.{UMask}

-- The tag exists and the file is linked to it.
abbrev pub IsLinked : Db → ℕ → Text → Type 0
IsLinked db file_id tag =
    (i : ℕ) × (get_tag_id db tag ≡ some i) × (mem (file_id, i) (map link_key db.file_tag) ≡ true)

Grows-IsLinked :
    (a b : Db) (file_id : ℕ) (tag : Text)
    → Grows a b
    → IsLinked a file_id tag
    → IsLinked b file_id tag
Grows-IsLinked a b file_id tag g (i, h, k) = (i, g.ids_stay tag i h, g.links_stay (file_id, i) k)

file_id_at-same_files :
    (a b : Db) (device inode : ℕ)
    → b.files ≡ a.files
    → file_id_at b device inode ≡ file_id_at a device inode
unfolding file_id_at
file_id_at-same_files a b device inode e = rw e

module _ (engine : Engine) (fresh : IsFresh engine) (device inode : ℕ) (path primary_tag : Text)
    (uid gid : ℕ) (umask : UMask) (now : ℕ) (alias_file : Option Text) where
  -- Every tag of the list is linked after the loop.
  link_tags-Grows :
      (tags : List Text) (db : Db) (file_id : ℕ)
      → IsConsistent db
      → file_id_at db device inode ≡ some file_id
      → Returns
          (λ tagged db'.
            IsConsistent db'
            × (length tagged ≡ length tags)
            × All (IsLinked db' file_id) tags
            × Grows db db')
          (link_tags engine device inode path primary_tag uid gid umask now alias_file tags db)
  unfolding link_tags
  link_tags-Grows [] db file_id c h = (c, refl, tt, Grows-refl db)
  link_tags-Grows (tag ∷ tags) db file_id c h =
      Returns-bind _ _ (ensure_tag engine tag uid gid (Umask.dir_perms umask) now) _ db
        (ensure_tag-Grows engine fresh tag uid gid (Umask.dir_perms umask) now db c)
        (λ r db1 (c1, q, i, _, g1).
          Returns-bind _ _
            (link_file_to_tag engine device inode r.0 uid gid (Umask.file_perms umask) now) _ db1
            (link-Grows engine device inode r.0 uid gid (Umask.file_perms umask) now db1 file_id r.1
              c1 (file_id_at-same_files db db1 device inode g1.same_files ∙ h)
              (ap (get_tag_id db1) q ∙ i))
            (λ _ db2 (c2, m, i2, g2).
              Returns-bind _ _
                (link_tags engine device inode path primary_tag uid gid umask now alias_file tags) _
                db2
                (link_tags-Grows tags db2 file_id c2 (
                  file_id_at-same_files db1 db2 device inode g2.same_files
                  ∙ file_id_at-same_files db db1 device inode g1.same_files
                  ∙ h))
                (λ tagged db3 (c3, n, linked, g3). (
                  c3,
                  ap suc n,
                  (
                    Grows-IsLinked db2 db3 file_id tag g3
                        (r.1, ap (get_tag_id db2) (sym q) ∙ i2, m),
                    linked,
                  ),
                  Grows-trans db db1 db3 g1 (Grows-trans db1 db2 db3 g2 g3),
                ))))

  pub new_file : Db → FileRow
  new_file db = record {
    id = engine.new_id (map file_id_of db.files);
    device = device;
    inode = inode;
    path = path;
    primary_tag = primary_tag;
    ts = now;
    mtime = now;
    alias_file = alias_file;
  }

  IsLinked-root :
      (tags : List Text) (db : Db) (file_id : ℕ)
      → All (IsLinked db file_id) tags
      → All (IsLinked (record db { root_mtime = now }) file_id) tags
  IsLinked-root tags db file_id =
      All-map (IsLinked db file_id) (IsLinked (record db { root_mtime = now }) file_id)
        (λ tag. Grows-IsLinked db _ file_id tag (Grows-root db db now (Grows-refl db))) tags

  pub insert_file_taken :
      (db : Db)
      → is_some (find (λ f. at_inode device inode f || text_eq f.path path) db.files) ≡ true
      → insert_file engine device inode path primary_tag now alias_file db ≡ done tt db
  unfolding insert_file
  insert_file_taken db h = ground arith

  pub insert_file_new :
      (db : Db)
      → is_some (find (λ f. at_inode device inode f || text_eq f.path path) db.files) ≡ false
      → insert_file engine device inode path primary_tag now alias_file db
        ≡ done tt (record db { files = db.files ++ new_file db ∷ [] })
  unfolding insert_file new_file
  insert_file_new db h = ground arith

  -- A new row with a fresh id, where no file has the inode.
  pub new_file-IsConsistent :
      (db : Db)
      → IsConsistent db
      → find (at_inode device inode) db.files ≡ none
      → find (λ f. text_eq f.path path) db.files ≡ none
      → IsConsistent (record db { files = db.files ++ new_file db ∷ [] })
  unfolding new_file
  new_file-IsConsistent db c h k =
      let row = new_file db in
      let ids = map-append_one file_id_of db.files row in
      record {
        tag_ids = c.tag_ids;
        tag_names = c.tag_names;
        file_ids =
            rw ids (Distinct-append_one _ row.id c.file_ids (fresh (map file_id_of db.files)));
        file_nodes = rw (map-append_one node_of db.files row) (
            Distinct-append_one _ (device, inode) c.file_nodes
              (Unique.find-none→not-mem file_id_of node_of db.files (device, inode) h));
        file_paths = rw (map-append_one path_of db.files row) (
            Distinct-append_one _ path c.file_paths
              (Unique.find-none→not-mem file_id_of path_of db.files path k));
        link_keys = c.link_keys;
        link_tags = c.link_tags;
        link_files = rw ids (
            All-map (IsIn (map file_id_of db.files)) (IsIn (map file_id_of db.files ++ row.id ∷ []))
              (λ i p. mem-append i (map file_id_of db.files) (row.id ∷ []) ∙ rw p)
              (map linked_file db.file_tag) c.link_files);
        tallies = c.tallies;
      }

  -- The inode has a row, or no file has the path.
  abbrev pub IsAddable : Db → Type 0
  IsAddable db =
      (is_some (find (at_inode device inode) db.files) ≡ true)
      ⊎ (find (λ f. text_eq f.path path) db.files ≡ none)

  pub either_found :
      (rows : List FileRow)
      → is_some (find (at_inode device inode) rows) ≡ true
      → is_some (find (λ f. at_inode device inode f || text_eq f.path path) rows) ≡ true
  unfolding find
  either_found [] h = absurd (cc)
  either_found (r ∷ rows) h = ground (arith, either_found rows)

  pub neither_found :
      (rows : List FileRow)
      → find (at_inode device inode) rows ≡ none
      → find (λ f. text_eq f.path path) rows ≡ none
      → is_some (find (λ f. at_inode device inode f || text_eq f.path path) rows) ≡ false
  unfolding find
  neither_found [] h k = refl
  neither_found (r ∷ rows) h k = ground (arith, neither_found rows)

  file_id_at-is_some :
      (db : Db)
      → is_some (find (at_inode device inode) db.files) ≡ true
      → (i : ℕ) × (file_id_at db device inode ≡ some i)
  unfolding file_id_at
  file_id_at-is_some db h = elim (Option-cases (find (at_inode device inode) db.files)) [
    | inl e ↦ absurd (ground arith)
    | inr (f, e) ↦ (f.id, ground arith)
  ]

  file_id_at_new :
      (db : Db)
      → find (at_inode device inode) db.files ≡ none
      → file_id_at (record db { files = db.files ++ new_file db ∷ [] }) device inode
        ≡ some (new_file db).id
  unfolding new_file
  file_id_at_new db h =
      file_id_at_of_find (record db { files = db.files ++ new_file db ∷ [] }) device inode
        (new_file db)
        (Unique.find-append_one file_id_of node_of db.files (device, inode) (new_file db) h refl)

  pub insert_file_lem :
      (db : Db)
      → IsConsistent db
      → IsAddable db
      → Returns
          (λ _ db'. IsConsistent db' × ((i : ℕ) × (file_id_at db' device inode ≡ some i)))
          (insert_file engine device inode path primary_tag now alias_file db)
  insert_file_lem db c a = elim (Option-cases (find (at_inode device inode) db.files)) [
    | inr (f, e) ↦
        rw (insert_file_taken db (either_found db.files (ap is_some e)))
          (c, file_id_at-is_some db (ap is_some e))
    | inl e ↦ elim a [
      | inl k ↦ absurd (cc (ap is_some e))
      | inr k ↦
          rw (insert_file_new db (neither_found db.files e k))
            (new_file-IsConsistent db c e k, ((new_file db).id, file_id_at_new db e))
    ]
  ]

  -- For consistent tables and an engine that gives fresh ids, and unless another file has the path,
  -- `add_file` always succeeds: it returns one entry for each tag, the inode has a row of `files`,
  -- every tag of the list exists and has a link to that row, and the tables are consistent, so that
  -- `num_files` counts the links of every tag.
  pub add_file_lem :
      (tags : List Text) (db : Db)
      → IsConsistent db
      → IsAddable db
      → Returns
          (λ tagged db'.
            IsConsistent db'
            × (length tagged ≡ length tags)
            × ((i : ℕ) × (file_id_at db' device inode ≡ some i) × All (IsLinked db' i) tags))
          (add_file engine device inode path primary_tag tags uid gid umask now alias_file db)
  unfolding add_file update_root_mtime file_id_at
  add_file_lem tags db c a =
      Returns-bind _ _ (insert_file engine device inode path primary_tag now alias_file) _ db
        (insert_file_lem db c a)
        (λ _ db1 (c1, (i, h)).
          Returns-bind _ _
            (link_tags engine device inode path primary_tag uid gid umask now alias_file tags) _ db1
            (link_tags-Grows tags db1 i c1 h)
            (λ tagged db2 (c2, n, linked, g). (
              root-IsConsistent db2 now c2,
              n,
              (
                i,
                file_id_at-same_files db1 db2 device inode g.same_files ∙ h,
                IsLinked-root tags db2 i linked,
              ),
            )))
