-- ===== src/Db/Pins/Stable.antt =====
-- The ids of a path stay what they are while tags and groups are added.
use supertag.Base.{
  ℕ, ◌≡◌, refl, sym, ap, ◌∙◌, List, [], ◌∷◌, ◌++◌, map, none, some, arith, Text, find, update,
  nat_eq, chars_eq, Option-cases, Bool-cases, inl, inr, mem, pair_eq,
}
use supertag.Base.Unique
use supertag.Db.Consistent.{IsConsistent}
use supertag.Db.Ensure.{ensure_tag_group, add_tag_to_group}
use supertag.Db.Groups.{group_id_of, group_name_of}
use supertag.Db.Lookup.{
  group_named, get_tag_id, get_tag_group_id, update_tag_group_mtime, update_root_mtime,
}
use supertag.Db.Monad.{Returns}
use supertag.Db.Pins.{pin_ids_of}
use supertag.Db.Preserve.Framed.{Frames-IsConsistent}
use supertag.Db.Preserve.Grows.{Grows, find-append}
use supertag.Db.Store.{Db, GroupRow, Engine}
use supertag.Perms.Permissions
use supertag.Perms.Permissions.{Permissions}
use supertag.Tags.Types.{TagType, regular, negation, group, file_dir, device_file_symlink, symlink}

id_found_group :
    (db : Db) (name : Text)
    → get_tag_group_id db name
      ≡ Unique.id_found group_id_of group_name_of (find (group_named name) db.tag_groups)
unfolding get_tag_group_id
id_found_group db name = ground arith

group_kept :
    (db : Db) (now : ℕ) (gs : List GroupRow) (name : Text) (i : ℕ)
    → get_tag_group_id db name ≡ some i
    → get_tag_group_id (record db { tag_groups = db.tag_groups ++ gs; root_mtime = now }) name
      ≡ some i
group_kept db now gs name i h = elim (Option-cases (find (group_named name) db.tag_groups)) [
  | inl e ↦
      absurd (cc (id_found_group db name, h, ap (Unique.id_found group_id_of group_name_of) e))
  | inr (g, e) ↦
      id_found_group _ name
      ∙ ap (Unique.id_found group_id_of group_name_of)
          (find-append (group_named name) db.tag_groups gs g e ∙ sym e)
      ∙ sym (id_found_group db name)
      ∙ h
]

group_found :
    (db : Db) (now : ℕ) (g : GroupRow)
    → get_tag_group_id db g.name ≡ none
    → get_tag_group_id (record db { tag_groups = db.tag_groups ++ g ∷ []; root_mtime = now }) g.name
      ≡ some g.id
group_found db now g h = elim (Option-cases (find (group_named g.name) db.tag_groups)) [
  | inl e ↦
      id_found_group _ g.name
      ∙ ap (Unique.id_found group_id_of group_name_of)
          (Unique.find-append_one group_id_of group_name_of db.tag_groups g.name g e refl)
  | inr (f, e) ↦
      absurd (cc (id_found_group db g.name, h, ap (Unique.id_found group_id_of group_name_of) e))
]

module _ (engine : Engine) (name : Text) (uid gid : ℕ) (permissions : Permissions) (now : ℕ)
    (db : Db) where
  abbrev fresh_row : GroupRow
  fresh_row = record {
    id = engine.new_id (map (λ g. g.id) db.tag_groups);
    name = name;
    ts = now;
    mtime = now;
    uid = uid;
    gid = gid;
    permissions = Permissions.mode permissions;
  }

  met_groups :
      (n : Text)
      → get_tag_group_id
          (record db {
            tag_groups = update (group_named name) (λ g. record g { mtime = now }) db.tag_groups;
          })
          n
        ≡ get_tag_group_id db n
  met_groups n =
      id_found_group _ n
      ∙ Unique.find-update group_id_of group_name_of (group_named name)
          (λ g. record g { mtime = now }) db.tag_groups n (λ g. refl) (λ g. refl)
      ∙ sym (id_found_group db n)

  pub ensure_tag_group-Grows :
      IsConsistent db
      → Returns
          (λ _ d. IsConsistent d × Grows db d × ((i : ℕ) × (get_tag_group_id d name ≡ some i)))
          (ensure_tag_group engine name uid gid permissions now db)
  unfolding ensure_tag_group update_tag_group_mtime update_root_mtime get_tag_id
  ensure_tag_group-Grows c = elim (Option-cases (get_tag_group_id db name)) [
    | inr (i, e) ↦
        rw (e, Returns)
          (
            Frames-IsConsistent db _ (refl, refl, refl) c,
            record {
              same_files = refl;
              ids_stay = λ n j h. h;
              groups_stay = λ n j h. met_groups n ∙ h;
              links_stay = λ k h. h;
            },
            (i, met_groups name ∙ e),
          )
    | inl e ↦
        rw (e, Returns)
          (
            Frames-IsConsistent db _ (refl, refl, refl) c,
            record {
              same_files = refl;
              ids_stay = λ n j h. h;
              groups_stay = λ n j h. group_kept db now (fresh_row ∷ []) n j h;
              links_stay = λ k h. h;
            },
            (fresh_row.id, group_found db now fresh_row e),
          )
  ]

-- The ids of a path are those of the tables of tags and groups.
module _ (a b : Db) (t : b.tags ≡ a.tags) (g : b.tag_groups ≡ a.tag_groups) where
  same_tag_id : (name : Text) → get_tag_id b name ≡ get_tag_id a name
  unfolding get_tag_id
  same_tag_id name = rw t refl

  same_group_id : (name : Text) → get_tag_group_id b name ≡ get_tag_group_id a name
  unfolding get_tag_group_id
  same_group_id name = rw g refl

  pub pin_ids_of-Same : (tags : List TagType) → pin_ids_of b tags ≡ pin_ids_of a tags
  unfolding pin_ids_of
  pin_ids_of-Same [] = refl
  pin_ids_of-Same (regular name ∷ tags) = ground (arith, same_tag_id name, pin_ids_of-Same tags)
  pin_ids_of-Same (group name ∷ tags) = ground (arith, same_group_id name, pin_ids_of-Same tags)
  pin_ids_of-Same (negation _ ∷ tags) = pin_ids_of-Same tags
  pin_ids_of-Same (file_dir ∷ tags) = pin_ids_of-Same tags
  pin_ids_of-Same (device_file_symlink _ ∷ tags) = pin_ids_of-Same tags
  pin_ids_of-Same (symlink _ ∷ tags) = pin_ids_of-Same tags

-- Adding a tag to a group adds no tag and no group, and does not fail.
pub add_tag_to_group-Same :
    (tag name : Text) (uid gid : ℕ) (permissions : Permissions) (now : ℕ) (db : Db)
    → Returns
        (λ _ d.
          (d.tags ≡ db.tags)
          × (d.tag_groups ≡ db.tag_groups)
          × (d.files ≡ db.files)
          × (d.file_tag ≡ db.file_tag))
        (add_tag_to_group tag name uid gid permissions now db)
unfolding add_tag_to_group
add_tag_to_group-Same tag name uid gid permissions now db =
    elim (Option-cases (get_tag_group_id db name)) [
      | inl e ↦ rw (e, Returns) (refl, refl, refl, refl)
      | inr (i, e) ↦ elim (Option-cases (get_tag_id db tag)) [
        | inl f ↦ rw (e, f, Returns) (refl, refl, refl, refl)
        | inr (j, f) ↦
            elim (Bool-cases
              (mem {A = ℕ × ℕ} (i, j) (map (λ r. (r.tg_id, r.tag_id)) db.tag_group_tag))) [
                | inl g ↦ rw (e, f, g, Returns) (refl, refl, refl, refl)
                | inr g ↦ rw (e, f, g, Returns) (refl, refl, refl, refl)
              ]
      ]
    ]
