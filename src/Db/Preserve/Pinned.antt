-- ===== src/Db/Preserve/Pinned.antt =====
-- `pin_tags` keeps the tables consistent: it makes the tags and groups that are missing.
use supertag.Base.{
  ℕ, ◌-◌, refl, List, [], ◌∷◌, Text, Option, some, length, get_elem?, ltb, Option-cases, Bool-cases,
  inl, inr,
}
use supertag.Db.Consistent.{IsConsistent}
use supertag.Db.Ensure.{ensure_tag, ensure_tag_group}
use supertag.Db.Lookup.{get_tag_id, get_tag_group_id}
use supertag.Db.Monad.{Ensures, Ensures-bind}
use supertag.Db.Pins.{ensure_pins, group_pair, group_last, pin_tags}
use supertag.Db.Preserve.Anyhow.{Keeps, Ensures-of_Returns}
use supertag.Db.Preserve.Ensure.{ensure_tag_lem}
use supertag.Db.Preserve.Framed.{
  Frames-IsConsistent, ensure_tag_group-Keeps, add_tag_to_group-Keeps,
}
use supertag.Db.Store.{Db, Engine, IsFresh}
use supertag.Perms.Permissions.{Permissions}
use supertag.Tags.Types.{TagType, regular, negation, group, file_dir, device_file_symlink, symlink}

module _ (engine : Engine) (fresh : IsFresh engine) (uid gid : ℕ) (permissions : Permissions)
    (now : ℕ) where
  pub ensure_tag-Keeps :
      (tag : Text) (db : Db)
      → IsConsistent db
      → Keeps (ensure_tag engine tag uid gid permissions now db)
  ensure_tag-Keeps tag db c =
      Ensures-of_Returns _ _ (ensure_tag engine tag uid gid permissions now db)
        (λ _ d (k, _, _, _, _). k) (ensure_tag_lem engine fresh tag uid gid permissions now db c)

  ensure_pins-Keeps :
      (tags : List TagType) (db : Db)
      → IsConsistent db
      → Keeps (ensure_pins engine uid gid permissions now tags db)
  unfolding ensure_pins
  ensure_pins-Keeps [] db c = c
  ensure_pins-Keeps (regular name ∷ tags) db c =
      Ensures-bind _ _ (ensure_tag engine name uid gid permissions now) _ db
        (ensure_tag-Keeps name db c)
        (λ _ d k. elim (Option-cases (get_tag_id d name)) [
          | inl e ↦ rw (e, Ensures) tt
          | inr (i, e) ↦ rw e (
              Ensures-bind _ _ (ensure_pins engine uid gid permissions now tags) _ d
                (ensure_pins-Keeps tags d k) (λ _ d' k'. k'))
        ])
  ensure_pins-Keeps (group name ∷ tags) db c =
      Ensures-bind _ _ (ensure_tag_group engine name uid gid permissions now) _ db
        (ensure_tag_group-Keeps engine name uid gid permissions now db c)
        (λ _ d k. elim (Option-cases (get_tag_group_id d name)) [
          | inl e ↦ rw (e, Ensures) tt
          | inr (i, e) ↦ rw e (
              Ensures-bind _ _ (ensure_pins engine uid gid permissions now tags) _ d
                (ensure_pins-Keeps tags d k) (λ _ d' k'. k'))
        ])
  ensure_pins-Keeps (negation _ ∷ tags) db c = tt
  ensure_pins-Keeps (file_dir ∷ tags) db c = tt
  ensure_pins-Keeps (device_file_symlink _ ∷ tags) db c = tt
  ensure_pins-Keeps (symlink _ ∷ tags) db c = tt

  group_pair-Keeps :
      (before last : Option TagType) (db : Db)
      → IsConsistent db
      → Keeps (group_pair engine uid gid permissions now before last db)
  unfolding group_pair
  group_pair-Keeps (some (group name)) (some (regular tag)) db c =
      add_tag_to_group-Keeps tag name uid gid permissions now db c
  group_pair-Keeps before last db c = c

  group_last-Keeps :
      (tags : List TagType) (db : Db)
      → IsConsistent db
      → Keeps (group_last engine uid gid permissions now tags db)
  unfolding group_last
  group_last-Keeps tags db c = elim (Bool-cases (ltb (length tags) 2)) [
    | inl e ↦ rw (e, group_last, Ensures) c
    | inr e ↦
        rw (e, group_last)
          (group_pair-Keeps (get_elem? tags (length tags - 2)) (get_elem? tags (length tags - 1)) db
            c)
  ]

  pub pin_tags-Keeps :
      (tags : List TagType) (db : Db)
      → IsConsistent db
      → Keeps (pin_tags engine uid gid permissions now tags db)
  unfolding pin_tags
  pin_tags-Keeps tags db c =
      Ensures-bind _ _ (ensure_pins engine uid gid permissions now tags) _ db
        (ensure_pins-Keeps tags db c)
        (λ _ d k.
          Ensures-bind _ _ (group_last engine uid gid permissions now tags) _ d
            (group_last-Keeps tags d k) (λ _ d' k'. Frames-IsConsistent d' _ (refl, refl, refl) k'))
