-- ===== src/Db/Groups/Members.antt =====
-- `add_tag_to_group` keeps the groups well formed.
use supertag.Base.{
  ℕ, ◌≡◌, refl, sym, true, false, [], ◌∷◌, ◌++◌, map, some, arith, Text, All-append, mem,
  mem-append_one, Distinct-append_one, map-append_one, find, nat_eq, chars_eq, pair_eq, Bool-cases,
  inl, inr,
}
use supertag.Base.Unique
use supertag.Db.Consistent.{tag_id_of, tag_name_of}
use supertag.Db.Ensure.{add_tag_to_group}
use supertag.Db.Groups.{
  IsGrouped, group_id_of, group_name_of, pair_of, grouping, grouped, find_of_get_tag_group_id,
}
use supertag.Db.Lookup.{named, group_named, get_tag_id, get_tag_group_id}
use supertag.Db.Monad.{done, Returns}
use supertag.Db.Preserve.Grows.{find_of_get_tag_id}
use supertag.Db.Store.{Db, TagRow, GroupRow, GroupTagRow}
use supertag.Perms.Permissions
use supertag.Perms.Permissions.{Permissions}

add_pair-IsGrouped :
    (db : Db) (r : GroupTagRow) (g : GroupRow) (t : TagRow) (name tag : Text)
    → IsGrouped db
    → find (group_named name) db.tag_groups ≡ some g
    → find (named tag) db.tags ≡ some t
    → r.tg_id ≡ g.id
    → r.tag_id ≡ t.id
    → mem (r.tg_id, r.tag_id) (map pair_of db.tag_group_tag) ≡ false
    → IsGrouped (record db { tag_group_tag = db.tag_group_tag ++ r ∷ [] })
add_pair-IsGrouped db r g t name tag c hg ht i j free = record {
  group_ids = c.group_ids;
  group_names = c.group_names;
  pairs =
      rw (map-append_one pair_of db.tag_group_tag r)
        (Distinct-append_one _ (r.tg_id, r.tag_id) c.pairs free);
  pair_groups = rw (map-append_one grouping db.tag_group_tag r) (
      All-append _ (map grouping db.tag_group_tag) (r.tg_id ∷ []) c.pair_groups
        (rw i (Unique.find-mem group_id_of group_name_of db.tag_groups name g hg), tt));
  pair_tags = rw (map-append_one grouped db.tag_group_tag r) (
      All-append _ (map grouped db.tag_group_tag) (r.tag_id ∷ []) c.pair_tags
        (rw j (Unique.find-mem tag_id_of tag_name_of db.tags tag t ht), tt));
}

module _ (tag tag_group : Text) (uid gid : ℕ) (permissions : Permissions) (now : ℕ) (db : Db)
    (tg_id tag_id : ℕ) (hg : get_tag_group_id db tag_group ≡ some tg_id)
    (ht : get_tag_id db tag ≡ some tag_id) where
  abbrev new_member : GroupTagRow
  new_member = record {
    tg_id = tg_id;
    tag_id = tag_id;
    ts = now;
    mtime = now;
    uid = uid;
    gid = gid;
    permissions = Permissions.mode permissions;
  }

  add_tag_to_group_taken :
      mem (tg_id, tag_id) (map pair_of db.tag_group_tag) ≡ true
      → add_tag_to_group tag tag_group uid gid permissions now db ≡ done tt db
  unfolding add_tag_to_group
  add_tag_to_group_taken m = ground arith

  add_tag_to_group_new :
      mem (tg_id, tag_id) (map pair_of db.tag_group_tag) ≡ false
      → add_tag_to_group tag tag_group uid gid permissions now db
        ≡ done tt (record db { tag_group_tag = db.tag_group_tag ++ new_member ∷ [] })
  unfolding add_tag_to_group
  add_tag_to_group_new m = ground arith

  -- For well-formed groups, and a group and a tag that exist, `add_tag_to_group` always succeeds: the
  -- tag is a member of the group, the groups are well formed, and tags and groups are as before.
  pub add_tag_to_group_lem :
      IsGrouped db
      → Returns
          (λ _ db'.
            IsGrouped db'
            × (mem (tg_id, tag_id) (map pair_of db'.tag_group_tag) ≡ true)
            × (db'.tags ≡ db.tags)
            × (db'.tag_groups ≡ db.tag_groups))
          (add_tag_to_group tag tag_group uid gid permissions now db)
  add_tag_to_group_lem c = elim (Bool-cases (mem (tg_id, tag_id) (map pair_of db.tag_group_tag))) [
    | inl m ↦ rw (add_tag_to_group_taken m) (c, m, refl, refl)
    | inr m ↦
        let (g, eg, i) = find_of_get_tag_group_id db tag_group tg_id hg in
        let (t, et, j) = find_of_get_tag_id db tag tag_id ht in
        rw (add_tag_to_group_new m) (
          add_pair-IsGrouped db new_member g t tag_group tag c eg et (sym i) (sym j) m,
          rw (map-append_one pair_of db.tag_group_tag new_member)
              (mem-append_one (tg_id, tag_id) _),
          refl,
          refl,
        )
  ]
