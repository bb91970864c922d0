-- ===== src/Db/View/Insert.antt =====
-- The view after insertions: new files and tags carry nothing, and a link is added to it.
use supertag.Base.{
  ℕ, ◌≡◌, refl, sym, ap, ◌∙◌, true, false, ◌&&◌, ◌||◌, List, [], ◌∷◌, ◌++◌, map, Option, none, some,
  Text, All, All-unmap, beq_refl, pair_beq_iff, Distinct, All-ne, Eq, find, arith, nat_eq, pair_eq,
  chars_eq, ◌==◌, ==_iff, Bool-cases, Option-cases, inl, inr, mem, mem-append, map-append_one,
  update,
}
use supertag.Base.Unique
use supertag.Base.Unique.{has_key, is_some}
use supertag.Db.Consistent.{
  IsConsistent, IsIn, tag_id_of, tag_name_of, file_id_of, node_of, linked_file, linked_tag,
}
use supertag.Db.Link.{link_key, joins, link_file_to_tag}
use supertag.Db.Monad.{Ensures}
use supertag.Perms.Permissions.{Permissions}
use supertag.Rows.Int.{◌+ℤ◌}
use supertag.Db.Lookup.{named, file_id_at, get_tag_id}
use supertag.Db.Preserve.Grows.{get_tag_id_of_find, find_of_get_tag_id, get_tag_id-update}
use supertag.Db.Preserve.Link.{file_id_at_of_find, new_link, link_found, link_new, find-joins}
use supertag.Db.Store.{Db, TagRow, FileTagRow, Engine}
use supertag.Db.View.{carries, linked_ids, with_tag}
use supertag.Db.View.Keys.{
  find-All, find_of_file_id_at, file_id_at-inj, get_tag_id-inj, carries-change,
}
use mathlib.Core.Path.{fun_ext}

module _ {A K : Type 0} ⦃e : Eq K⦄ (id : A → ℕ) (key : A → K) where
  -- An id of the table is found by a key.
  mem-found :
      (rows : List A) (i : ℕ)
      → Distinct (map key rows)
      → mem i (map id rows) ≡ true
      → (k : K) × (r : A) × (find (has_key id key k) rows ≡ some r) × (id r ≡ i)
  unfolding find mem
  mem-found [] i d h = absurd (cc)
  mem-found (s ∷ rows) i (ds, d) h = elim (Bool-cases (id s == i)) [
    | inl q ↦ (key s, s, rw ((e.beq_iff (key s) (key s)).1 refl) refl, (==_iff (id s) i).0 q)
    | inr q ↦
        let (k, r, found, same) = mem-found rows i d (ground arith) in
        elim (Bool-cases (has_key id key k s)) [
          | inl o ↦
              let apart : e.beq (key r) (key s) ≡ false =
                find-All (λ x. e.beq (key x) (key s) ≡ false) (has_key id key k) rows r
                  (All-unmap (λ x. e.beq x (key s) ≡ false) key rows (All-ne (key s) _ ds)) found in
              let ks : key s ≡ k = (e.beq_iff (key s) k).0 o in
              let kr : key r ≡ k = Unique.find_key id key rows k r found in
              let kk : e.beq k k ≡ true = beq_refl k in absurd (cc)
          | inr o ↦ (k, r, rw o found, same)
        ]
  ]

linked-IsIn :
    (links : List FileTagRow) (file_ids tag_ids : List ℕ) (i t : ℕ)
    → All (IsIn file_ids) (map linked_file links)
    → All (IsIn tag_ids) (map linked_tag links)
    → mem (i, t) (map link_key links) ≡ true
    → (mem i file_ids ≡ true) × (mem t tag_ids ≡ true)
unfolding mem
linked-IsIn [] file_ids tag_ids i t f g h = absurd (cc)
linked-IsIn (r ∷ links) file_ids tag_ids i t (fr, f) (gr, g) h =
    elim (Bool-cases (r.file_id == i && r.tag_id == t)) [
      | inl q ↦
          let p : r.file_id ≡ i = ground arith in
          let o : r.tag_id ≡ t = ground arith in (rw p at fr, rw o at gr)
      | inr q ↦ linked-IsIn links file_ids tag_ids i t f g (ground arith)
    ]

linked_ids-agree :
    (links : List FileTagRow) (o p q r : Option ℕ)
    → ((i : ℕ) → q ≡ some i → o ≡ some i)
    → ((t : ℕ) → r ≡ some t → p ≡ some t)
    → ((i t : ℕ)
        → o ≡ some i
        → p ≡ some t
        → mem (i, t) (map link_key links) ≡ true
        → (q ≡ some i) × (r ≡ some t))
    → linked_ids links o p ≡ linked_ids links q r
linked_ids-agree links none p none r f g k = refl
linked_ids-agree links (some i) none none r f g k = refl
linked_ids-agree links (some i) (some t) none r f g k =
    elim (Bool-cases (mem (i, t) (map link_key links))) [
      | inl e ↦ absurd (cc ((k i t refl refl e).0))
      | inr e ↦ e
    ]
linked_ids-agree links o none (some j) none f g k = rw (f j refl) refl
linked_ids-agree links o (some t) (some j) none f g k =
    elim (Bool-cases (mem (j, t) (map link_key links))) [
      | inl e ↦ absurd (cc ((k j t (f j refl) refl e).1))
      | inr e ↦ rw (f j refl) e
    ]
linked_ids-agree links o p (some j) (some u) f g k = rw (f j refl, g u refl) refl

module _ (a b : Db) (c : IsConsistent a) (d : IsConsistent b)
    (files : (n : ℕ × ℕ) (i : ℕ) → file_id_at a n.0 n.1 ≡ some i → file_id_at b n.0 n.1 ≡ some i)
    (tags : (name : Text) (t : ℕ) → get_tag_id a name ≡ some t → get_tag_id b name ≡ some t) where
  -- A link of the old table leads to a file and a tag of the old tables.
  known_before :
      (n : ℕ × ℕ) (name : Text) (i t : ℕ)
      → file_id_at b n.0 n.1 ≡ some i
      → get_tag_id b name ≡ some t
      → mem (i, t) (map link_key a.file_tag) ≡ true
      → (file_id_at a n.0 n.1 ≡ some i) × (get_tag_id a name ≡ some t)
  known_before n name i t hi ht h =
      let (kf, kt) =
        linked-IsIn a.file_tag (map file_id_of a.files) (map tag_id_of a.tags) i t c.link_files
          c.link_tags h in
      let (m, f, ef, qf) = mem-found file_id_of node_of a.files i c.file_nodes kf in
      let (old, u, eu, qu) = mem-found tag_id_of tag_name_of a.tags t c.tag_names kt in
      let fa = file_id_at_of_find a m.0 m.1 f ef ∙ ap some qf in
      let ta = get_tag_id_of_find a old u eu ∙ ap some qu in
      let same_file : n ≡ m = file_id_at-inj b d n m i hi (files m i fa) in
      let same_tag : name ≡ old = get_tag_id-inj b d name old t ht (tags old t ta) in
      (ap (λ (x : ℕ × ℕ). file_id_at a x.0 x.1) same_file ∙ fa, ap (get_tag_id a) same_tag ∙ ta)

  -- The view stays where the links do, and no id is taken from a key.
  pub carries-kept : b.file_tag ≡ a.file_tag → carries b ≡ carries a
  unfolding carries
  carries-kept e = fun_ext λ n. fun_ext λ name.
      ap (λ links. linked_ids links (file_id_at b n.0 n.1) (get_tag_id b name)) e
      ∙ linked_ids-agree a.file_tag (file_id_at b n.0 n.1) (get_tag_id b name)
          (file_id_at a n.0 n.1) (get_tag_id a name) (files n) (tags name) (known_before n name)

-- The keys with one more link
mem-new_link :
    (rows : List FileTagRow) (r : FileTagRow) (k : ℕ × ℕ)
    → mem k (map link_key (rows ++ r ∷ []))
      ≡ (mem k (map link_key rows) || (r.file_id == k.0 && r.tag_id == k.1))
unfolding mem
mem-new_link rows r k =
    rw (map-append_one link_key rows r)
      (ground (arith, mem-append k (map link_key rows) (link_key r ∷ [])))

-- The keys with a link that was there
mem-old_link :
    (keys : List (ℕ × ℕ)) (i t : ℕ) (k : ℕ × ℕ)
    → mem (i, t) keys ≡ true
    → mem k keys ≡ (mem k keys || (i == k.0 && t == k.1))
mem-old_link keys i t k h = elim (Bool-cases (i == k.0 && t == k.1)) [
  | inl e ↦
      let same : (i, t) ≡ k = (pair_beq_iff (i, t) k).0 e in
      let there : mem k keys ≡ true = ap (λ (x : ℕ × ℕ). mem x keys) (sym same) ∙ h in rw there refl
  | inr e ↦ rw e (ground arith)
]

module _ (engine : Engine) (node : ℕ × ℕ) (tag : Text) (uid gid : ℕ) (permissions : Permissions)
    (now : ℕ) (db : Db) where
  -- `link_file_to_tag` adds the tag to the file in the view.
  pub link_file_to_tag-carries :
      (file_id tag_id : ℕ)
      → IsConsistent db
      → file_id_at db node.0 node.1 ≡ some file_id
      → get_tag_id db tag ≡ some tag_id
      → Ensures
          (λ _ db'. carries db' ≡ with_tag node tag (carries db))
          (link_file_to_tag engine node.0 node.1 tag uid gid permissions now db)
  unfolding get_tag_id
  link_file_to_tag-carries file_id tag_id c hi ht =
      let (f, ef, qf) = find_of_file_id_at db c node file_id hi in
      let (t, et, qt) = find_of_get_tag_id db tag tag_id ht in
      let met : TagRow → TagRow = λ t. record t { mtime = now } in
      let up : TagRow → TagRow = λ t. record t { num_files = t.num_files +ℤ 1 } in
      let joined = find-joins db node.0 node.1 tag f t c ef et db.file_tag in
      elim (Option-cases (find (joins db node.0 node.1 tag) db.file_tag)) [
        | inr (r, e) ↦
            let there : mem (file_id, tag_id) (map link_key db.file_tag) ≡ true =
              ap (λ i. mem (i, tag_id) (map link_key db.file_tag)) (sym qf)
              ∙ ap (λ j. mem (f.id, j) (map link_key db.file_tag)) (sym qt)
              ∙ sym joined
              ∙ ap is_some e in
            rw (link_found engine node.0 node.1 tag uid gid permissions now db r e) (
              carries-change ◌||◌ refl db _ c node tag file_id tag_id hi ht refl
                (λ name. get_tag_id-update db (named tag) met name (λ t. refl) (λ t. refl))
                (λ k. mem-old_link (map link_key db.file_tag) file_id tag_id k there))
        | inl e ↦
            let free : mem (file_id, tag_id) (map link_key db.file_tag) ≡ false =
              ap (λ i. mem (i, tag_id) (map link_key db.file_tag)) (sym qf)
              ∙ ap (λ j. mem (f.id, j) (map link_key db.file_tag)) (sym qt)
              ∙ sym joined
              ∙ ap is_some e in
            rw
              (link_new engine node.0 node.1 tag uid gid permissions now db file_id tag_id e hi ht
                free)
              (carries-change ◌||◌ refl db _ c node tag file_id tag_id hi ht refl
                (λ name.
                  get_tag_id-update (record db { tags = update (named tag) up db.tags }) (named tag)
                    met name (λ t. refl) (λ t. refl)
                  ∙ get_tag_id-update db (named tag) up name (λ t. refl) (λ t. refl))
                (λ k.
                  mem-new_link db.file_tag
                    (new_link engine node.0 node.1 tag uid gid permissions now db file_id tag_id)
                    k))
      ]
