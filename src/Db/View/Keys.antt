-- ===== src/Db/View/Keys.antt =====
-- Files and tags that are found by their keys: an id belongs to one key.
use supertag.Base.{
  ℕ, ◌≡◌, refl, sym, ap, ◌∙◌, Bool, true, false, ◌&&◌, List, [], ◌∷◌, map, Option, none, some, Text,
  All, Distinct, Eq, find, arith, nat_eq, pair_eq, chars_eq, ◌==◌, ==_iff, Bool-cases, Option-cases,
  inl, inr, text_eq, text_eq_iff, mem,
}
use supertag.Base.Unique
use supertag.Base.Unique.{has_key}
use supertag.Db.Consistent.{IsConsistent, tag_id_of, tag_name_of, file_id_of, node_of}
use supertag.Db.Lookup.{at_inode, file_id_at, get_tag_id}
use supertag.Db.Preserve.Grows.{find_of_get_tag_id}
use supertag.Db.Link.{link_key}
use supertag.Db.Store.{Db, FileRow}
use supertag.Db.View.{carries, linked_ids, same_node}
use mathlib.Core.Path.{fun_ext}

pub find-All {ℓ κ} :
    {A : Type ℓ} (P : A → Type κ) (p : A → Bool) (rows : List A) (s : A)
    → All P rows
    → find p rows ≡ some s
    → P s
unfolding find
find-All P p [] s a h = absurd (cc)
find-All P p (r ∷ rows) s (ar, a) h = elim (Bool-cases (p r)) [
  | inl e ↦ let q : r ≡ s = ground arith in rw (sym q) ar
  | inr e ↦ find-All P p rows s a (ground arith)
]

module _ {A K : Type 0} ⦃e : Eq K⦄ (id : A → ℕ) (key : A → K) where
  -- Two keys that find rows of one id are the same key.
  find-id_inj :
      (rows : List A) (k l : K) (r s : A)
      → Distinct (map id rows)
      → Distinct (map key rows)
      → find (has_key id key k) rows ≡ some r
      → find (has_key id key l) rows ≡ some s
      → id r ≡ id s
      → k ≡ l
  find-id_inj rows k l r s di dk hr hs same =
      let agrees : has_key id key k s ≡ (id s == id r) =
        find-All (Unique.Agrees id key k (id r)) (has_key id key l) rows s
          (Unique.keys_agree id key rows k r di dk hr) hs in
      sym ((e.beq_iff (key s) k).0 (agrees ∙ (==_iff (id s) (id r)).1 (sym same)))
      ∙ Unique.find_key id key rows l s hs

both_ways : {a b : Bool} → (a ≡ true → b ≡ true) → (b ≡ true → a ≡ true) → a ≡ b
both_ways {a} {b} f g = elim (Bool-cases a) [
  | inl e ↦ e ∙ sym (f e)
  | inr e ↦ elim (Bool-cases b) [ inl q ↦ g q ∙ sym q | inr q ↦ e ∙ sym q ]
]

module _ (db : Db) (c : IsConsistent db) where
  pub find_of_file_id_at :
      (node : ℕ × ℕ) (i : ℕ)
      → file_id_at db node.0 node.1 ≡ some i
      → (f : FileRow) × (find (at_inode node.0 node.1) db.files ≡ some f) × (f.id ≡ i)
  unfolding file_id_at
  find_of_file_id_at node i h = elim (Option-cases (find (at_inode node.0 node.1) db.files)) [
    | inl e ↦ absurd (ground arith)
    | inr (f, e) ↦ (f, e, ground arith)
  ]

  pub file_id_at-inj :
      (n m : ℕ × ℕ) (i : ℕ)
      → file_id_at db n.0 n.1 ≡ some i
      → file_id_at db m.0 m.1 ≡ some i
      → n ≡ m
  file_id_at-inj n m i hn hm =
      let (f, ef, qf) = find_of_file_id_at n i hn in
      let (g, eg, qg) = find_of_file_id_at m i hm in
      find-id_inj file_id_of node_of db.files n m f g c.file_ids c.file_nodes ef eg (qf ∙ sym qg)

  pub get_tag_id-inj :
      (a b : Text) (i : ℕ) → get_tag_id db a ≡ some i → get_tag_id db b ≡ some i → a ≡ b
  get_tag_id-inj a b i ha hb =
      let (t, et, qt) = find_of_get_tag_id db a i ha in
      let (u, eu, qu) = find_of_get_tag_id db b i hb in
      find-id_inj tag_id_of tag_name_of db.tags a b t u c.tag_ids c.tag_names et eu (qt ∙ sym qu)

  -- A pair of ids is that of one file and one tag.
  pub same_ids :
      (n node : ℕ × ℕ) (name tag : Text) (i t j u : ℕ)
      → file_id_at db node.0 node.1 ≡ some i
      → get_tag_id db tag ≡ some t
      → file_id_at db n.0 n.1 ≡ some j
      → get_tag_id db name ≡ some u
      → (i == j && t == u) ≡ (n.0 == node.0 && n.1 == node.1 && text_eq name tag)
  same_ids n node name tag i t j u hi ht hj hu =
      both_ways
        (λ h.
          let p : i ≡ j = ground arith in
          let q : t ≡ u = ground arith in
          let m = file_id_at-inj n node i (hj ∙ ap some (sym p)) hi in
          let l = get_tag_id-inj name tag t (hu ∙ ap some (sym q)) ht in
          rw
            (
              (==_iff n.0 node.0).1 (ap (λ (x : ℕ × ℕ). x.0) m),
              (==_iff n.1 node.1).1 (ap (λ (x : ℕ × ℕ). x.1) m),
              (text_eq_iff name tag).1 l,
            )
            refl)
        (λ h.
          let m : n ≡ node = ground (arith, ==_iff n.0 node.0, ==_iff n.1 node.1) in
          let l : name ≡ tag = (text_eq_iff name tag).0 (ground arith) in
          let p : some i ≡ some j =
            sym hi ∙ ap (λ (x : ℕ × ℕ). file_id_at db x.0 x.1) (sym m) ∙ hj in
          let q : some t ≡ some u = sym ht ∙ ap (get_tag_id db) (sym l) ∙ hu in
          ground (arith, ==_iff i j, ==_iff t u))

module _ (db : Db) (node : ℕ × ℕ) (i : ℕ) (h : file_id_at db node.0 node.1 ≡ some i) where
  pub absent-same_node : (n : ℕ × ℕ) → file_id_at db n.0 n.1 ≡ none → same_node n node ≡ false
  absent-same_node n e = elim (Bool-cases (same_node n node)) [
    | inl q ↦
        let m : n ≡ node = ground (arith, ==_iff n.0 node.0, ==_iff n.1 node.1) in
        absurd (cc (ap (λ (x : ℕ × ℕ). file_id_at db x.0 x.1) m))
    | inr q ↦ q
  ]

module _ (db : Db) (tag : Text) (t : ℕ) (h : get_tag_id db tag ≡ some t) where
  pub absent-text_eq : (name : Text) → get_tag_id db name ≡ none → text_eq name tag ≡ false
  absent-text_eq name e = elim (Bool-cases (text_eq name tag)) [
    | inl q ↦ absurd (cc (ap (get_tag_id db) ((text_eq_iff name tag).0 q)))
    | inr q ↦ q
  ]

pub file_id_at-files :
    (a b : Db) (n : ℕ × ℕ) → b.files ≡ a.files → file_id_at b n.0 n.1 ≡ file_id_at a n.0 n.1
unfolding file_id_at
file_id_at-files a b n e = rw e

pub carries-root : (db : Db) (now : ℕ) → carries (record db { root_mtime = now }) ≡ carries db
unfolding carries file_id_at get_tag_id
carries-root db now = refl

module _ (change : Bool → Bool → Bool) (idle : change false false ≡ false) (a b : Db)
    (c : IsConsistent a) (node : ℕ × ℕ) (tag : Text) (i t : ℕ)
    (hi : file_id_at a node.0 node.1 ≡ some i) (ht : get_tag_id a tag ≡ some t)
    (files : b.files ≡ a.files) (ids : (name : Text) → get_tag_id b name ≡ get_tag_id a name)
    (keys : (k : ℕ × ℕ)
      → mem k (map link_key b.file_tag)
        ≡ (change (mem k (map link_key a.file_tag)) (i == k.0 && t == k.1))) where
  carries-at_ids :
      (n : ℕ × ℕ) (name : Text) (o p : Option ℕ)
      → file_id_at a n.0 n.1 ≡ o
      → get_tag_id a name ≡ p
      → linked_ids b.file_tag o p
        ≡ change (linked_ids a.file_tag o p) (same_node n node && text_eq name tag)
  carries-at_ids n name none p ho hp = rw (absent-same_node a node i hi n ho) (sym idle)
  carries-at_ids n name (some j) none ho hp =
      rw (absent-text_eq a tag t ht name hp) (ground (arith, idle))
  carries-at_ids n name (some j) (some u) ho hp =
      keys (j, u)
      ∙ ap (change (mem (j, u) (map link_key a.file_tag)))
          (same_ids a c n node name tag i t j u hi ht ho hp)

  -- A change of the link of one file and tag is one of the view at these.
  pub carries-change :
      carries b ≡ (λ n name. change (carries a n name) (same_node n node && text_eq name tag))
  unfolding carries
  carries-change = fun_ext λ n. fun_ext λ name.
      rw (file_id_at-files a b n files, ids name)
        (carries-at_ids n name (file_id_at a n.0 n.1) (get_tag_id a name) refl refl)
