-- ===== src/Db/Preserve/Grows.antt =====
-- What every insertion keeps: the files, the ids of the tags and the links.
use supertag.Base.{
  ℕ, ◌≡◌, refl, sym, ap, ◌∙◌, Bool, true, List, [], ◌∷◌, ◌++◌, map, some, arith, Text, mem,
  mem-append, find, update, nat_eq, chars_eq, pair_eq, Option-cases, inl, inr, map-append_one,
}
use supertag.Base.Unique
use supertag.Db.Consistent.{tag_id_of, tag_name_of}
use supertag.Db.Link.{link_key}
use supertag.Db.Lookup.{named, get_tag_id, get_tag_group_id}
use supertag.Db.Store.{Db, TagRow, FileTagRow}

pub record Grows (db db' : Db) : Type 0 where
  pub same_files : db'.files ≡ db.files
  pub ids_stay : (name : Text) (i : ℕ) → get_tag_id db name ≡ some i → get_tag_id db' name ≡ some i
  pub groups_stay :
      (name : Text) (i : ℕ) → get_tag_group_id db name ≡ some i → get_tag_group_id db' name ≡ some i
  pub links_stay :
      (k : ℕ × ℕ)
      → mem k (map link_key db.file_tag) ≡ true
      → mem k (map link_key db'.file_tag) ≡ true

pub Grows-refl : (db : Db) → Grows db db
Grows-refl db = record {
  same_files = refl;
  ids_stay = λ name i h. h;
  groups_stay = λ name i h. h;
  links_stay = λ k h. h;
}

pub Grows-trans : (a b c : Db) → Grows a b → Grows b c → Grows a c
Grows-trans a b c g h = record {
  same_files = h.same_files ∙ g.same_files;
  ids_stay = λ name i e. h.ids_stay name i (g.ids_stay name i e);
  groups_stay = λ name i e. h.groups_stay name i (g.groups_stay name i e);
  links_stay = λ k e. h.links_stay k (g.links_stay k e);
}

pub Grows-root : (a b : Db) (now : ℕ) → Grows a b → Grows a (record b { root_mtime = now })
unfolding get_tag_id get_tag_group_id
Grows-root a b now g = record {
  same_files = g.same_files;
  ids_stay = λ name i e. g.ids_stay name i e;
  groups_stay = λ name i e. g.groups_stay name i e;
  links_stay = λ k e. g.links_stay k e;
}

pub get_tag_id-id_found :
    (db : Db) (name : Text)
    → get_tag_id db name ≡ Unique.id_found tag_id_of tag_name_of (find (named name) db.tags)
unfolding get_tag_id
get_tag_id-id_found db name = ground arith

pub get_tag_id-update :
    (db : Db) (p : TagRow → Bool) (f : TagRow → TagRow) (name : Text)
    → ((t : TagRow) → (f t).id ≡ t.id)
    → ((t : TagRow) → (f t).tag_name ≡ t.tag_name)
    → get_tag_id (record db { tags = update p f db.tags }) name ≡ get_tag_id db name
get_tag_id-update db p f name i n =
    get_tag_id-id_found _ name
    ∙ Unique.find-update tag_id_of tag_name_of p f db.tags name i n
    ∙ sym (get_tag_id-id_found db name)

pub get_tag_id_of_find :
    (db : Db) (name : Text) (t : TagRow)
    → find (named name) db.tags ≡ some t
    → get_tag_id db name ≡ some t.id
get_tag_id_of_find db name t e =
    get_tag_id-id_found db name ∙ ap (Unique.id_found tag_id_of tag_name_of) e

pub find_of_get_tag_id :
    (db : Db) (tag : Text) (tag_id : ℕ)
    → get_tag_id db tag ≡ some tag_id
    → (t : TagRow) × (find (named tag) db.tags ≡ some t) × (t.id ≡ tag_id)
unfolding get_tag_id
find_of_get_tag_id db tag tag_id h = elim (Option-cases (find (named tag) db.tags)) [
  | inl e ↦ absurd (ground arith)
  | inr (t, e) ↦ (t, e, ground arith)
]

pub Grows-update :
    (db : Db) (p : TagRow → Bool) (f : TagRow → TagRow)
    → ((t : TagRow) → (f t).id ≡ t.id)
    → ((t : TagRow) → (f t).tag_name ≡ t.tag_name)
    → Grows db (record db { tags = update p f db.tags })
unfolding get_tag_group_id
Grows-update db p f ids names = record {
  same_files = refl;
  ids_stay = λ name i e. get_tag_id-update db p f name ids names ∙ e;
  groups_stay = λ name i e. e;
  links_stay = λ k e. e;
}

pub find-append {ℓ} :
    {A : Type ℓ} (p : A → Bool) (xs ys : List A) (t : A)
    → find p xs ≡ some t
    → find p (xs ++ ys) ≡ some t
unfolding find
find-append p [] ys t h = absurd (cc)
find-append p (x ∷ xs) ys t h = ground (arith, find-append p xs ys t)

pub Grows-new_tag : (db : Db) (ts : List TagRow) → Grows db (record db { tags = db.tags ++ ts })
unfolding get_tag_group_id
Grows-new_tag db ts = record {
  same_files = refl;
  ids_stay = λ name i e.
      let (t, h, q) = find_of_get_tag_id db name i e in
      get_tag_id_of_find (record db { tags = db.tags ++ ts }) name t
        (find-append (named name) db.tags ts t h)
      ∙ ap some q;
  groups_stay = λ name i e. e;
  links_stay = λ k e. e;
}

pub Grows-new_link :
    (db : Db) (r : FileTagRow) → Grows db (record db { file_tag = db.file_tag ++ r ∷ [] })
unfolding get_tag_id get_tag_group_id
Grows-new_link db r = record {
  same_files = refl;
  ids_stay = λ name i e. e;
  groups_stay = λ name i e. e;
  links_stay = λ k e.
      rw (map-append_one link_key db.file_tag r)
        (rw (mem-append k (map link_key db.file_tag) (link_key r ∷ []), e) refl);
}
