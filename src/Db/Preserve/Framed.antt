-- ===== src/Db/Preserve/Framed.antt =====
-- The operations on groups leave files, tags and links alone; those on a path keep them consistent.
use mathlib.Core.Path.{subst}
use supertag.Base.{
  ℕ, ◌≡◌, refl, sym, Bool, true, List, [], ◌∷◌, map, Option, none, some, Text, mem, nat_eq, pair_eq,
  Option-cases, Bool-cases, inl, inr, find, last?, not, ◌&&◌, text_eq,
}
use supertag.Base.Unique.{is_some}
use supertag.Db.Consistent.{IsConsistent}
use supertag.Db.Ensure.{ensure_tag_group, add_tag_to_group}
use supertag.Db.Intersect.{
  remove_links, remove_tag_from_intersection, remove_taggroup_from_itersection, ungroup_chunks,
}
use supertag.Db.Intersect.Chunks.{chunks}
use supertag.Db.Intersect.Links.{remove_links_lem}
use supertag.Db.Intersect.Removal.{remove_tag_from_intersection_lem}
use supertag.Db.Lookup.{
  get_tag_id, get_tag_group_id, group_named, update_tag_group_mtime, update_root_mtime,
}
use supertag.Db.Monad.{Outcome, done, failed, panicked, Tx, Ensures, Ensures-bind, map_err}
use supertag.Db.Preserve.Anyhow.{Keeps, Ensures-of_Returns}
use supertag.Db.Query.{intersects_of, excepts_of, intersection_subquery}
use supertag.Db.Remove.{remove_taggroup}
use supertag.Db.Rename.{rename_tag_group}
use supertag.Db.Select.Files.{is_nothing, files_tagged_with, contains_file}
use supertag.Db.Select.Found.{only_negated, files_tagged_with-failed, files_tagged_with-done}
use supertag.Db.Select.Tags.{intersect_tag, get_all_tags, prune}
use supertag.Db.Store.{Db, Engine}
use supertag.Perms.Permissions.{Permissions}
use supertag.Rows.{Tag}
use supertag.Tags.Types.{TagType, regular, negation, group, file_dir, device_file_symlink, symlink}

-- The three tables that consistency is about are the same.
abbrev pub Frames : Db → Db → Type 0
Frames a b = (b.tags ≡ a.tags) × (b.files ≡ a.files) × (b.file_tag ≡ a.file_tag)

pub Frames-IsConsistent : (a b : Db) → Frames a b → IsConsistent a → IsConsistent b
Frames-IsConsistent a b (t, f, l) c = record {
  tag_ids = rw t c.tag_ids;
  tag_names = rw t c.tag_names;
  file_ids = rw f c.file_ids;
  file_nodes = rw f c.file_nodes;
  file_paths = rw f c.file_paths;
  link_keys = rw l c.link_keys;
  link_tags = rw (t, l) c.link_tags;
  link_files = rw (f, l) c.link_files;
  tallies = rw (t, l) c.tallies;
}

pub Ensures-map :
    {E A : Type 0} (P Q : A → Db → Type 0) (r : Outcome E A)
    → ((a : A) (db : Db) → P a db → Q a db)
    → Ensures P r
    → Ensures Q r
Ensures-map P Q (done a db) f p = f a db p
Ensures-map P Q (failed e) f p = tt
Ensures-map P Q panicked f p = tt

pub map_err-Keeps :
    {E F A : Type 0} (f : E → F) (m : Tx E A) (db : Db) → Keeps (m db) → Keeps (map_err f m db)
map_err-Keeps {E} {F} {A} f m db k = go (m db) k
  where
    go :
        (r : Outcome E A)
        → Keeps r
        → Keeps (elim r [ done a db' ↦ done a db' | failed e ↦ failed (f e) | panicked ↦ panicked ])
    go (done a db') h = h
    go (failed e) h = tt
    go panicked h = tt

module _ (engine : Engine) (name : Text) (uid gid : ℕ) (permissions : Permissions) (now : ℕ)
    (db : Db) where
  ensure_tag_group-Frames :
      Ensures (λ _ d. Frames db d) (ensure_tag_group engine name uid gid permissions now db)
  unfolding ensure_tag_group update_tag_group_mtime update_root_mtime
  ensure_tag_group-Frames = elim (Option-cases (get_tag_group_id db name)) [
    | inl e ↦ rw (e, Ensures) (refl, refl, refl)
    | inr (i, e) ↦ rw (e, Ensures) (refl, refl, refl)
  ]

  pub ensure_tag_group-Keeps :
      IsConsistent db → Keeps (ensure_tag_group engine name uid gid permissions now db)
  ensure_tag_group-Keeps c =
      Ensures-map _ _ (ensure_tag_group engine name uid gid permissions now db)
        (λ _ d f. Frames-IsConsistent db d f c) ensure_tag_group-Frames

module _ (tag name : Text) (uid gid : ℕ) (permissions : Permissions) (now : ℕ) (db : Db) where
  add_tag_to_group-Frames :
      Ensures (λ _ d. Frames db d) (add_tag_to_group tag name uid gid permissions now db)
  unfolding add_tag_to_group
  add_tag_to_group-Frames = elim (Option-cases (get_tag_group_id db name)) [
    | inl e ↦ rw (e, Ensures) (refl, refl, refl)
    | inr (i, e) ↦ elim (Option-cases (get_tag_id db tag)) [
      | inl f ↦ rw (e, f, Ensures) (refl, refl, refl)
      | inr (j, f) ↦
          elim (Bool-cases
            (mem {A = ℕ × ℕ} (i, j) (map (λ r. (r.tg_id, r.tag_id)) db.tag_group_tag))) [
              | inl g ↦ rw (e, f, g, Ensures) (refl, refl, refl)
              | inr g ↦ rw (e, f, g, Ensures) (refl, refl, refl)
            ]
    ]
  ]

  pub add_tag_to_group-Keeps :
      IsConsistent db → Keeps (add_tag_to_group tag name uid gid permissions now db)
  add_tag_to_group-Keeps c =
      Ensures-map _ _ (add_tag_to_group tag name uid gid permissions now db)
        (λ _ d f. Frames-IsConsistent db d f c) add_tag_to_group-Frames

pub remove_taggroup-Keeps :
    (name : Text) (db : Db) → IsConsistent db → Keeps (remove_taggroup name db)
unfolding remove_taggroup
remove_taggroup-Keeps name db c = Frames-IsConsistent db _ (refl, refl, refl) c

pub rename_tag_group-Keeps :
    (old new : Text) (now : ℕ) (db : Db) → IsConsistent db → Keeps (rename_tag_group old new now db)
unfolding rename_tag_group update_tag_group_mtime update_root_mtime
rename_tag_group-Keeps old new now db c =
    elim (Bool-cases (
      is_some (find (group_named old) db.tag_groups)
      && is_some (find (group_named new) db.tag_groups)
      && not (text_eq old new))) [
        | inl e ↦ rw (e, Ensures) tt
        | inr e ↦ rw (e, Ensures) (Frames-IsConsistent db _ (refl, refl, refl) c)
      ]

pub remove_links-Keeps :
    (primary_tag : Text) (tags : List TagType) (now : ℕ) (db : Db)
    → IsConsistent db
    → Keeps (remove_links primary_tag tags now db)
unfolding files_tagged_with
remove_links-Keeps primary_tag tags now db c =
    elim (Bool-cases (only_negated (intersects_of tags) (excepts_of tags))) [
      | inl e ↦ unfold remove_links contains_file in rw (files_tagged_with-failed tags db e) tt
      | inr e ↦
          Ensures-of_Returns _ _ (remove_links primary_tag tags now db) (λ _ d (k, _). k)
            (remove_links_lem primary_tag tags now db c e)
    ]

pub remove_tag_from_intersection-Keeps :
    (tag : Text) (tags : List TagType) (now : ℕ) (db : Db)
    → IsConsistent db
    → Keeps (remove_tag_from_intersection tag tags now db)
unfolding files_tagged_with
remove_tag_from_intersection-Keeps tag tags now db c =
    elim (Bool-cases (only_negated (intersects_of tags) (excepts_of tags))) [
      | inl e ↦ unfold remove_tag_from_intersection in rw (files_tagged_with-failed tags db e) tt
      | inr e ↦ elim (Option-cases (get_tag_id db tag)) [
        | inl f ↦
            unfold remove_tag_from_intersection in
            rw (files_tagged_with-done tags db e, f, Ensures) tt
        | inr (i, f) ↦
            Ensures-of_Returns _ _ (remove_tag_from_intersection tag tags now db)
              (λ _ d (k, _, _, _). k) (remove_tag_from_intersection_lem tag tags now db i c f e)
      ]
    ]

ungroup_chunks-Frames :
    (tg_id : ℕ) (cs : List (List ℕ)) (a db : Db)
    → Frames a db
    → Ensures (λ _ d. Frames a d) (ungroup_chunks tg_id cs db)
unfolding ungroup_chunks
ungroup_chunks-Frames tg_id [] a db f = f
ungroup_chunks-Frames tg_id (ids ∷ cs) a db f = ungroup_chunks-Frames tg_id cs a _ f

-- The query changes nothing.
prune-Same :
    (last : Option TagType) (ts : List Tag) (db : Db) → Ensures (λ _ d. d ≡ db) (prune last ts db)
unfolding prune
prune-Same none ts db = refl
prune-Same (some (regular _)) ts db = refl
prune-Same (some (negation _)) ts db = refl
prune-Same (some (group _)) ts db = refl
prune-Same (some file_dir) ts db = refl
prune-Same (some (device_file_symlink _)) ts db = refl
prune-Same (some (symlink _)) ts db = refl

pub intersect_tag-Same :
    (tags : List TagType) (exclude : Bool) (db : Db)
    → Ensures (λ _ d. d ≡ db) (intersect_tag tags exclude db)
unfolding intersect_tag get_all_tags
intersect_tag-Same [] exclude db = refl
intersect_tag-Same (tag ∷ tags) exclude db =
    elim (Bool-cases (is_nothing (intersection_subquery db (tag ∷ tags) 0).0)) [
      | inl e ↦ rw (e, Ensures) tt
      | inr e ↦ rw e (prune-Same (last? (tag ∷ tags)) _ db)
    ]

pub remove_taggroup_from_itersection-Keeps :
    (name : Text) (tags : List TagType) (db : Db)
    → IsConsistent db
    → Keeps (remove_taggroup_from_itersection name tags db)
unfolding remove_taggroup_from_itersection
remove_taggroup_from_itersection-Keeps name tags db c =
    elim (Option-cases (get_tag_group_id db name)) [
      | inl e ↦ rw (e, Ensures) tt
      | inr (i, e) ↦ rw e (
          Ensures-bind _ _ (intersect_tag tags true) _ db (intersect_tag-Same tags true db)
            (λ ts d same.
              Ensures-map _ _ (ungroup_chunks i (chunks 500 (map (λ t. t.id) ts)) d)
                (λ _ d' f. Frames-IsConsistent d d' f (subst IsConsistent (sym same) c))
                (ungroup_chunks-Frames i (chunks 500 (map (λ t. t.id) ts)) d d (refl, refl, refl))))
    ]
