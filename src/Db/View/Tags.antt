-- ===== src/Db/View/Tags.antt =====
-- The view after a tag is removed, or renamed.
use supertag.Base.{
  ℕ, ◌≡◌, ◌⊎◌, refl, sym, ap, ◌∙◌, Bool, true, false, List, [], ◌∷◌, map, Option, none, some, Text,
  All, mem, find, select, update, delete, nat_eq, pair_eq, chars_eq, text_eq, text_eq_iff, arith,
  Bool-cases, inl, inr, if◌then◌else◌,
}
use supertag.Base.Unique
use supertag.Base.Unique.{id_found}
use supertag.Db.Consistent.{
  IsConsistent, root-IsConsistent, update_tags-IsConsistent, tag_id_of, tag_name_of,
}
use supertag.Db.Lookup.{named, file_id_at, get_tag_id, update_root_mtime}
use supertag.Db.Monad.{Returns}
use supertag.Db.Preserve.Grows.{get_tag_id-update, get_tag_id-id_found, find_of_get_tag_id}
use supertag.Db.Preserve.Rename.{IsFree, rename_tag_done, renamed-IsConsistent}
use supertag.Db.Preserve.RemoveTag.{remove_tag_lem}
use supertag.Db.Remove.{delete_tags, remove_tag}
use supertag.Db.Rename.{rename_tag}
use supertag.Db.Store.{Db, TagRow, FileTagRow}
use supertag.Db.View.{carries, linked_ids, without_name, with_name}
use supertag.Db.View.Keys.{carries-root}
use supertag.Db.View.Deleted.{find-delete, stays, mem-apart}
use mathlib.Core.Path.{fun_ext}

no_link : (links : List FileTagRow) (o : Option ℕ) → linked_ids links o none ≡ false
no_link links none = refl
no_link links (some i) = refl

module _ (db : Db) (c : IsConsistent db) (tag : Text) where
  abbrev tags_gone : List ℕ
  tags_gone = map tag_id_of (select (named tag) db.tags)

  abbrev links_kept : List FileTagRow
  links_kept = delete (λ r. mem r.tag_id tags_gone) db.file_tag

  links_kept_at :
      (name : Text) (o p : Option ℕ)
      → text_eq name tag ≡ false
      → get_tag_id db name ≡ p
      → linked_ids links_kept o p ≡ linked_ids db.file_tag o p
  links_kept_at name none p apart h = refl
  links_kept_at name (some i) none apart h = refl
  links_kept_at name (some i) (some t) apart h =
      let (row, e, q) = find_of_get_tag_id db name t h in
      let agree : All (Unique.Agrees tag_id_of tag_name_of name row.id) db.tags =
        Unique.keys_agree tag_id_of tag_name_of db.tags name row c.tag_ids c.tag_names e in
      mem-apart (λ r. mem r.tag_id tags_gone) (i, t) db.file_tag
        (λ r same.
          ap (λ x. mem x tags_gone) (ap (λ (x : ℕ × ℕ). x.1) same ∙ sym q)
          ∙ stays tag_id_of tag_name_of name tag db.tags row.id agree apart)

  get_tag_id-deleted :
      (b : Db) (name : Text)
      → b.tags ≡ delete (named tag) db.tags
      → get_tag_id b name ≡ (if text_eq name tag then none else get_tag_id db name)
  unfolding get_tag_id
  get_tag_id-deleted b name tags =
      let found : find (named name) b.tags
          ≡ (if text_eq name tag then none else find (named name) db.tags) =
        ap (find (named name)) tags ∙ find-delete tag_id_of tag_name_of name tag db.tags in
      ground arith

  deleted_view :
      (b : Db)
      → b.tags ≡ delete (named tag) db.tags
      → b.file_tag ≡ links_kept
      → ((n : ℕ × ℕ) → file_id_at b n.0 n.1 ≡ file_id_at db n.0 n.1)
      → carries b ≡ without_name tag (carries db)
  unfolding carries
  deleted_view b tags links files = fun_ext λ n. fun_ext λ name.
      ap (λ l. linked_ids l (file_id_at b n.0 n.1) (get_tag_id b name)) links
      ∙ ap (λ o. linked_ids links_kept o (get_tag_id b name)) (files n)
      ∙ ap (linked_ids links_kept (file_id_at db n.0 n.1)) (get_tag_id-deleted b name tags)
      ∙ (elim (Bool-cases (text_eq name tag)) [
        | inl e ↦ rw e (no_link links_kept (file_id_at db n.0 n.1) ∙ ground arith)
        | inr e ↦
            rw e (
              links_kept_at name (file_id_at db n.0 n.1) (get_tag_id db name) e refl ∙ ground arith)
      ])

-- `remove_tag` takes the name from all files, and changes nothing else in the view.
pub remove_tag-carries :
    (tag : Text) (now : ℕ) (db : Db)
    → IsConsistent db
    → Returns
        (λ _ db'. IsConsistent db' × (carries db' ≡ without_name tag (carries db)))
        (remove_tag tag now true db)
unfolding remove_tag delete_tags update_root_mtime file_id_at
remove_tag-carries tag now db c =
    ((remove_tag_lem tag now db c).0, deleted_view db c tag _ refl refl (λ n. refl))

abbrev id_of : Option TagRow → Option ℕ
id_of = id_found tag_id_of tag_name_of

-- Where the new name is free, it finds what the old one found, and the old one nothing.
find-renamed_free :
    (old new name : Text) (rows : List TagRow)
    → find (named new) rows ≡ none
    → id_of (find (named name) (update (named old) (λ t. record t { tag_name = new }) rows)) ≡ (
        if text_eq name new
        then id_of (find (named old) rows)
        else if text_eq name old
        then none
        else id_of (find (named name) rows))
unfolding find update
find-renamed_free old new name [] h = ground arith
find-renamed_free old new name (r ∷ rows) h = ground (
  arith,
  find-renamed_free old new name rows,
  text_eq_iff r.tag_name old,
  text_eq_iff r.tag_name new,
  text_eq_iff r.tag_name name,
  text_eq_iff new name,
  text_eq_iff name new,
  text_eq_iff name old,
)

find-renamed_same :
    (old name : Text) (rows : List TagRow)
    → id_of (find (named name) (update (named old) (λ t. record t { tag_name = old }) rows))
      ≡ id_of (find (named name) rows)
unfolding find update
find-renamed_same old name [] = refl
find-renamed_same old name (r ∷ rows) = ground (
  arith,
  find-renamed_same old name rows,
  text_eq_iff r.tag_name old,
  text_eq_iff r.tag_name name,
  text_eq_iff old name,
)

find-renamed :
    (old new name : Text) (rows : List TagRow)
    → (find (named new) rows ≡ none) ⊎ (old ≡ new)
    → id_of (find (named name) (update (named old) (λ t. record t { tag_name = new }) rows)) ≡ (
        if text_eq name new
        then id_of (find (named old) rows)
        else if text_eq name old
        then none
        else id_of (find (named name) rows))
find-renamed old new name rows (inl free) = find-renamed_free old new name rows free
find-renamed old new name rows (inr same) = rw (sym same) (
    find-renamed_same old name rows ∙ elim (Bool-cases (text_eq name old)) [
      | inl e ↦ rw (e, (text_eq_iff name old).0 e) refl
      | inr e ↦ rw e refl
    ])

module _ (old new : Text) (db : Db) (f : IsFree db old new) where
  abbrev renamed_tags : List TagRow
  renamed_tags = update (named old) (λ t. record t { tag_name = new }) db.tags

  get_tag_id-renamed :
      (name : Text)
      → get_tag_id (record db { tags = renamed_tags }) name ≡ (
          if text_eq name new
          then get_tag_id db old
          else if text_eq name old
          then none
          else get_tag_id db name)
  get_tag_id-renamed name =
      rw (get_tag_id-id_found _ name, get_tag_id-id_found db old, get_tag_id-id_found db name)
        (find-renamed old new name db.tags f)

  renamed_view : carries (record db { tags = renamed_tags }) ≡ with_name old new (carries db)
  unfolding carries file_id_at
  renamed_view = fun_ext λ n. fun_ext λ name.
      ap (linked_ids db.file_tag (file_id_at db n.0 n.1)) (get_tag_id-renamed name)
      ∙ elim (Bool-cases (text_eq name new)) [
        | inl e ↦ rw e refl
        | inr e ↦ elim (Bool-cases (text_eq name old)) [
          | inl o ↦ rw (e, o) (no_link db.file_tag (file_id_at db n.0 n.1) ∙ ground arith)
          | inr o ↦ rw (e, o) (ground arith)
        ]
      ]

-- A column of `tags` that is not shown
carries-update :
    (db : Db) (p : TagRow → Bool) (f : TagRow → TagRow)
    → ((t : TagRow) → (f t).id ≡ t.id)
    → ((t : TagRow) → (f t).tag_name ≡ t.tag_name)
    → carries (record db { tags = update p f db.tags }) ≡ carries db
unfolding carries file_id_at
carries-update db p f ids names = fun_ext λ n. fun_ext λ name.
    ap (linked_ids db.file_tag (file_id_at db n.0 n.1)) (get_tag_id-update db p f name ids names)

-- `rename_tag` gives all files that carry the tag the new name in its place, and changes nothing else
-- in the view.
pub rename_tag-carries :
    (old new : Text) (now : ℕ) (db : Db)
    → IsConsistent db
    → IsFree db old new
    → Returns
        (λ _ db'. IsConsistent db' × (carries db' ≡ with_name old new (carries db)))
        (rename_tag old new now db)
rename_tag-carries old new now db c f =
    let met : TagRow → TagRow = λ t. record t { mtime = now } in
    let db1 : Db = record db { tags = renamed_tags old new db f } in
    let db2 : Db = record db1 { tags = update (named new) met db1.tags } in
    rw (rename_tag_done old new now db f) (
      root-IsConsistent db2 now (
          update_tags-IsConsistent db1 (named new) met (λ t. refl) (λ t. refl) (λ t. refl)
            (renamed-IsConsistent old new db c f)),
      carries-root db2 now
          ∙ carries-update db1 (named new) met (λ t. refl) (λ t. refl)
          ∙ renamed_view old new db f,
    )
