-- ===== src/Db/Preserve/Link.antt =====
-- `link_file_to_tag` keeps the tables consistent: a tag's counter goes up with its links.
use supertag.Base.{
  ℕ, ◌≡◌, refl, sym, ap, ◌∙◌, true, false, ◌&&◌, List, [], ◌∷◌, ◌++◌, map, none, some, arith, Text,
  All, All-append, mem, count, Distinct-append_one, mem-append_one, count-append, map-append_one,
  map-update, find, update, ◌==◌, ==_iff, nat_eq, chars_eq, pair_eq, Option-cases, inl, inr,
}
use supertag.Base.Unique
use supertag.Base.Unique.{is_some}
use supertag.Db.Consistent.{
  IsConsistent, IsTallied, tag_id_of, tag_name_of, tally, file_id_of, node_of, linked_tag,
  linked_file, update_tags-IsConsistent, root-IsConsistent,
}
use supertag.Db.Link.{link_key, joins, count_up, insert_link, link_file_to_tag}
use supertag.Db.Lookup.{
  named, at_inode, get_tag_id, file_id_at, update_tag_mtime, update_root_mtime,
}
use supertag.Db.Monad.{done, Returns, Returns-map}
use supertag.Db.Preserve.Grows.{
  Grows, Grows-trans, Grows-root, Grows-update, Grows-new_link, get_tag_id-update,
  get_tag_id_of_find, find_of_get_tag_id,
}
use supertag.Db.Store.{Db, FileRow, TagRow, FileTagRow, Engine}
use supertag.Perms.Permissions
use supertag.Perms.Permissions.{Permissions}
use supertag.Rows.Int.{◌+ℤ◌, pos-add}

module _ (db : Db) (device inode : ℕ) (tag : Text) (f : FileRow) (t : TagRow) (c : IsConsistent db)
    (hf : find (at_inode device inode) db.files ≡ some f)
    (ht : find (named tag) db.tags ≡ some t) where
  -- The join finds the links between this file and this tag.
  joins_iff :
      (r : FileTagRow) → joins db device inode tag r ≡ (r.file_id == f.id && r.tag_id == t.id)
  unfolding joins
  joins_iff r = rw (
    Unique.find_both_agree file_id_of node_of db.files (device, inode) f r.file_id c.file_ids
        c.file_nodes hf,
    Unique.find_both_agree tag_id_of tag_name_of db.tags tag t r.tag_id c.tag_ids c.tag_names ht,
  )

  pub find-joins :
      (rows : List FileTagRow)
      → is_some (find (joins db device inode tag) rows) ≡ mem (f.id, t.id) (map link_key rows)
  unfolding find mem
  find-joins [] = refl
  find-joins (r ∷ rows) = ground (arith, joins_iff r, find-joins rows)

-- One more link of a tag, and its counter one higher.
tallies-count_up :
    (rows : List TagRow) (links : List ℕ) (tag : Text) (i : ℕ)
    → All (Unique.Agrees tag_id_of tag_name_of tag i) rows
    → All (IsTallied links) (map tally rows)
    → All
        (IsTallied (links ++ i ∷ []))
        (map tally (update (named tag) (λ t. record t { num_files = t.num_files +ℤ 1 }) rows))
unfolding update ◌+ℤ◌ count
tallies-count_up [] links tag i a h = tt
tallies-count_up (t ∷ rows) links tag i (at, a) (ht, h) = (
  ground (
    arith,
    at,
    ht,
    count-append t.id links (i ∷ []),
    ==_iff t.id i,
    ==_iff i t.id,
    pos-add (count t.id links) 1,
  ),
  tallies-count_up rows links tag i a h,
)

pub file_id_at_of_find :
    (db : Db) (device inode : ℕ) (f : FileRow)
    → find (at_inode device inode) db.files ≡ some f
    → file_id_at db device inode ≡ some f.id
unfolding file_id_at
file_id_at_of_find db device inode f e = ground arith

module _ (engine : Engine) (device inode : ℕ) (tag : Text) (uid gid : ℕ) (permissions : Permissions)
    (now : ℕ) (db : Db) where
  abbrev pub new_link : ℕ → ℕ → FileTagRow
  new_link file_id tag_id = record {
    rowid = engine.new_id (map (λ r. r.rowid) db.file_tag);
    file_id = file_id;
    tag_id = tag_id;
    ts = now;
    mtime = now;
    uid = uid;
    gid = gid;
    permissions = Permissions.mode permissions;
  }

  pub link_found :
      (r : FileTagRow)
      → find (joins db device inode tag) db.file_tag ≡ some r
      → link_file_to_tag engine device inode tag uid gid permissions now db
        ≡ done tt (record db {
          tags = update (named tag) (λ t. record t { mtime = now }) db.tags;
          root_mtime = now;
        })
  unfolding link_file_to_tag update_tag_mtime update_root_mtime
  link_found r e = ground arith

  pub link_new :
      (file_id tag_id : ℕ)
      → find (joins db device inode tag) db.file_tag ≡ none
      → file_id_at db device inode ≡ some file_id
      → get_tag_id db tag ≡ some tag_id
      → mem (file_id, tag_id) (map link_key db.file_tag) ≡ false
      → link_file_to_tag engine device inode tag uid gid permissions now db
        ≡ done tt (record db {
          tags =
              update
                (named tag)
                (λ t. record t { mtime = now })
                (update (named tag) (λ t. record t { num_files = t.num_files +ℤ 1 }) db.tags);
          file_tag = db.file_tag ++ new_link file_id tag_id ∷ [];
          root_mtime = now;
        })
  unfolding link_file_to_tag insert_link count_up update_tag_mtime update_root_mtime file_id_at
  link_new file_id tag_id e hf ht free = ground (
    arith,
    get_tag_id-update db (named tag) (λ t. record t { num_files = t.num_files +ℤ 1 }) tag
        (λ t. refl) (λ t. refl),
  )

  -- The tables with the new link, at its first write and at the counter's.
  new_link-IsConsistent :
      (f : FileRow) (t : TagRow)
      → IsConsistent db
      → find (at_inode device inode) db.files ≡ some f
      → find (named tag) db.tags ≡ some t
      → mem (f.id, t.id) (map link_key db.file_tag) ≡ false
      → IsConsistent (record db {
        tags = update (named tag) (λ t. record t { num_files = t.num_files +ℤ 1 }) db.tags;
        file_tag = db.file_tag ++ new_link f.id t.id ∷ [];
      })
  new_link-IsConsistent f t c hf ht free =
      let up : TagRow → TagRow = λ t. record t { num_files = t.num_files +ℤ 1 } in
      let row = new_link f.id t.id in
      let ids = map-update tag_id_of (named tag) up db.tags (λ t. refl) in
      let tagged = map-append_one linked_tag db.file_tag row in
      record {
        tag_ids = rw ids c.tag_ids;
        tag_names = rw (map-update tag_name_of (named tag) up db.tags (λ t. refl)) c.tag_names;
        file_ids = c.file_ids;
        file_nodes = c.file_nodes;
        file_paths = c.file_paths;
        link_keys =
            rw (map-append_one link_key db.file_tag row)
              (Distinct-append_one _ (f.id, t.id) c.link_keys free);
        link_tags =
            rw (ids, tagged)
              (All-append _ (map linked_tag db.file_tag) (t.id ∷ []) c.link_tags
                (Unique.find-mem tag_id_of tag_name_of db.tags tag t ht, tt));
        link_files = rw (map-append_one linked_file db.file_tag row) (
            All-append _ (map linked_file db.file_tag) (f.id ∷ []) c.link_files
              (Unique.find-mem file_id_of node_of db.files (device, inode) f hf, tt));
        tallies = rw tagged (
            tallies-count_up db.tags (map linked_tag db.file_tag) tag t.id
              (Unique.keys_agree tag_id_of tag_name_of db.tags tag t c.tag_ids c.tag_names ht)
              c.tallies);
      }

  find_of_file_id_at :
      (file_id : ℕ)
      → file_id_at db device inode ≡ some file_id
      → (f : FileRow) × (find (at_inode device inode) db.files ≡ some f) × (f.id ≡ file_id)
  unfolding file_id_at
  find_of_file_id_at file_id h = elim (Option-cases (find (at_inode device inode) db.files)) [
    | inl e ↦ absurd (ground arith)
    | inr (f, e) ↦ (f, e, ground arith)
  ]

  linked :
      (f : FileRow) (t : TagRow)
      → IsConsistent db
      → find (at_inode device inode) db.files ≡ some f
      → find (named tag) db.tags ≡ some t
      → Returns
          (λ _ db'.
            IsConsistent db'
            × (mem (f.id, t.id) (map link_key db'.file_tag) ≡ true)
            × (get_tag_id db' tag ≡ some t.id)
            × Grows db db')
          (link_file_to_tag engine device inode tag uid gid permissions now db)
  unfolding get_tag_id
  linked f t c hf ht =
      let met : TagRow → TagRow = λ t. record t { mtime = now } in
      let up : TagRow → TagRow = λ t. record t { num_files = t.num_files +ℤ 1 } in
      let row = new_link f.id t.id in
      let has_id = get_tag_id_of_find db tag t ht in
      elim (Option-cases (find (joins db device inode tag) db.file_tag)) [
        | inr (r, e) ↦ rw (link_found r e) (
          root-IsConsistent (record db { tags = update (named tag) met db.tags }) now
              (update_tags-IsConsistent db (named tag) met (λ t. refl) (λ t. refl) (λ t. refl) c),
          sym (find-joins db device inode tag f t c hf ht db.file_tag) ∙ ap is_some e,
          get_tag_id-update db (named tag) met tag (λ t. refl) (λ t. refl) ∙ has_id,
          Grows-root db (record db { tags = update (named tag) met db.tags }) now
              (Grows-update db (named tag) met (λ t. refl) (λ t. refl)),
        )
        | inl e ↦
            let free : mem (f.id, t.id) (map link_key db.file_tag) ≡ false =
              sym (find-joins db device inode tag f t c hf ht db.file_tag) ∙ ap is_some e in
            let raised : Db = record db {
              tags = update (named tag) up db.tags;
              file_tag = db.file_tag ++ row ∷ [];
            } in
            rw (link_new f.id t.id e (file_id_at_of_find db device inode f hf) has_id free) (
              root-IsConsistent (record raised { tags = update (named tag) met raised.tags }) now
                  (update_tags-IsConsistent raised (named tag) met (λ t. refl) (λ t. refl)
                    (λ t. refl) (new_link-IsConsistent f t c hf ht free)),
              rw (map-append_one link_key db.file_tag row) (mem-append_one (f.id, t.id) _),
              get_tag_id-update raised (named tag) met tag (λ t. refl) (λ t. refl)
                  ∙ get_tag_id-update db (named tag) up tag (λ t. refl) (λ t. refl)
                  ∙ has_id,
              Grows-root db (record raised { tags = update (named tag) met raised.tags }) now
                  (Grows-trans db raised _
                    (Grows-trans db (record db { tags = update (named tag) up db.tags }) raised
                      (Grows-update db (named tag) up (λ t. refl) (λ t. refl))
                      (Grows-new_link (record db { tags = update (named tag) up db.tags }) row))
                    (Grows-update raised (named tag) met (λ t. refl) (λ t. refl))),
            )
      ]

-- The same for a file and a tag given by their ids.
pub link-Grows :
    (engine : Engine) (device inode : ℕ) (tag : Text) (uid gid : ℕ) (permissions : Permissions)
    (now : ℕ) (db : Db) (file_id tag_id : ℕ)
    → IsConsistent db
    → file_id_at db device inode ≡ some file_id
    → get_tag_id db tag ≡ some tag_id
    → Returns
        (λ _ db'.
          IsConsistent db'
          × (mem (file_id, tag_id) (map link_key db'.file_tag) ≡ true)
          × (get_tag_id db' tag ≡ some tag_id)
          × Grows db db')
        (link_file_to_tag engine device inode tag uid gid permissions now db)
link-Grows engine device inode tag uid gid permissions now db file_id tag_id c hf ht =
    let (f, ef, i) =
      find_of_file_id_at engine device inode tag uid gid permissions now db file_id hf in
    let (t, et, j) = find_of_get_tag_id db tag tag_id ht in
    rw (sym i, sym j) (linked engine device inode tag uid gid permissions now db f t c ef et)

-- For consistent tables, and a file and a tag that exist, `link_file_to_tag` always succeeds: afterwards the two are linked,
-- the tables are consistent, the tag has the id it had, and the files are as before.
pub link_file_to_tag_lem :
    (engine : Engine) (device inode : ℕ) (tag : Text) (uid gid : ℕ) (permissions : Permissions)
    (now : ℕ) (db : Db) (file_id tag_id : ℕ)
    → IsConsistent db
    → file_id_at db device inode ≡ some file_id
    → get_tag_id db tag ≡ some tag_id
    → Returns
        (λ _ db'.
          IsConsistent db'
          × (mem (file_id, tag_id) (map link_key db'.file_tag) ≡ true)
          × (get_tag_id db' tag ≡ some tag_id)
          × (db'.files ≡ db.files))
        (link_file_to_tag engine device inode tag uid gid permissions now db)
link_file_to_tag_lem engine device inode tag uid gid permissions now db file_id tag_id c hf ht =
    Returns-map _ _ (link_file_to_tag engine device inode tag uid gid permissions now db)
      (λ _ db' (k, m, i, g). (k, m, i, g.same_files))
      (link-Grows engine device inode tag uid gid permissions now db file_id tag_id c hf ht)
