-- ===== src/Db/Groups.antt =====
-- Tag groups: what keeps their tables well formed.
pub mod Members
mod Tests
use supertag.Base.{
  ℕ, ◌≡◌, refl, ◌∙◌, Bool, true, ◌||◌, List, [], ◌∷◌, ◌++◌, map, none, some, arith, Text, All,
  All-map, mem, mem-append, mem-append_one, Distinct, Distinct-append_one, map-append_one,
  map-update, find, select, update, delete, nat_eq, chars_eq, pair_eq, Option-cases, Bool-cases,
  inl, inr, if◌then◌else◌,
}
use supertag.Base.Deletion
use supertag.Base.Unique
use supertag.Db.Consistent.{tag_id_of, IsIn}
use supertag.Db.Ensure.{ensure_tag_group}
use supertag.Db.Lookup.{group_named, get_tag_group_id, update_tag_group_mtime, update_root_mtime}
use supertag.Db.Monad.{done, Returns}
use supertag.Db.Remove.{remove_taggroup}
use supertag.Db.Store.{Db, GroupRow, GroupTagRow, Engine, IsFresh}
use supertag.Perms.Permissions
use supertag.Perms.Permissions.{Permissions}

abbrev pub group_id_of : GroupRow → ℕ
group_id_of g = g.id

abbrev pub group_name_of : GroupRow → Text
group_name_of g = g.name

abbrev pub pair_of : GroupTagRow → ℕ × ℕ
pair_of r = (r.tg_id, r.tag_id)

abbrev pub grouping : GroupTagRow → ℕ
grouping r = r.tg_id

abbrev pub grouped : GroupTagRow → ℕ
grouped r = r.tag_id

pub record IsGrouped (db : Db) : Type 0 where
  pub group_ids : Distinct (map group_id_of db.tag_groups)
  pub group_names : Distinct (map group_name_of db.tag_groups)
  pub pairs : Distinct (map pair_of db.tag_group_tag)
  pub pair_groups : All (IsIn (map group_id_of db.tag_groups)) (map grouping db.tag_group_tag)
  pub pair_tags : All (IsIn (map tag_id_of db.tags)) (map grouped db.tag_group_tag)

find_of_get_tag_group_id :
    (db : Db) (name : Text) (i : ℕ)
    → get_tag_group_id db name ≡ some i
    → (g : GroupRow) × (find (group_named name) db.tag_groups ≡ some g) × (g.id ≡ i)
unfolding get_tag_group_id
find_of_get_tag_group_id db name i h = elim (Option-cases (find (group_named name) db.tag_groups)) [
  | inl e ↦ absurd (ground arith)
  | inr (g, e) ↦ (g, e, ground arith)
]

find-none_of_get :
    (db : Db) (name : Text)
    → get_tag_group_id db name ≡ none
    → find (group_named name) db.tag_groups ≡ none
unfolding get_tag_group_id
find-none_of_get db name h = elim (Option-cases (find (group_named name) db.tag_groups)) [
  | inl e ↦ e
  | inr (g, e) ↦ absurd (ground arith)
]

name_in :
    (groups : List GroupRow) (name : Text) (g : GroupRow)
    → find (group_named name) groups ≡ some g
    → mem name (map group_name_of groups) ≡ true
unfolding find mem
name_in [] name g h = absurd (cc)
name_in (x ∷ groups) name g h = ground (arith, name_in groups name g)

module _ (engine : Engine) (fresh : IsFresh engine) (name : Text) (uid gid : ℕ)
    (permissions : Permissions) (now : ℕ) (db : Db) where
  abbrev new_group : GroupRow
  new_group = record {
    id = engine.new_id (map group_id_of db.tag_groups);
    name = name;
    ts = now;
    mtime = now;
    uid = uid;
    gid = gid;
    permissions = Permissions.mode permissions;
  }

  new_group-IsGrouped :
      IsGrouped db
      → find (group_named name) db.tag_groups ≡ none
      → IsGrouped (record db { tag_groups = db.tag_groups ++ new_group ∷ []; root_mtime = now })
  new_group-IsGrouped c h =
      let ids = map-append_one group_id_of db.tag_groups new_group in
      record {
        group_ids = rw ids (
            Distinct-append_one _ new_group.id c.group_ids (fresh (map group_id_of db.tag_groups)));
        group_names = rw (map-append_one group_name_of db.tag_groups new_group) (
            Distinct-append_one _ name c.group_names
              (Unique.find-none→not-mem group_id_of group_name_of db.tag_groups name h));
        pairs = c.pairs;
        pair_groups = rw ids (
            All-map (IsIn (map group_id_of db.tag_groups))
              (IsIn (map group_id_of db.tag_groups ++ new_group.id ∷ []))
              (λ i p. mem-append i (map group_id_of db.tag_groups) (new_group.id ∷ []) ∙ rw p)
              (map grouping db.tag_group_tag) c.pair_groups);
        pair_tags = c.pair_tags;
      }

  met_group-IsGrouped :
      IsGrouped db
      → IsGrouped (record db {
        tag_groups = update (group_named name) (λ g. record g { mtime = now }) db.tag_groups;
      })
  met_group-IsGrouped c =
      let met : GroupRow → GroupRow = λ g. record g { mtime = now } in
      let ids = map-update group_id_of (group_named name) met db.tag_groups (λ g. refl) in
      record {
        group_ids = rw ids c.group_ids;
        group_names =
            rw (map-update group_name_of (group_named name) met db.tag_groups (λ g. refl))
              c.group_names;
        pairs = c.pairs;
        pair_groups = rw ids c.pair_groups;
        pair_tags = c.pair_tags;
      }

  ensure_tag_group_found :
      (i : ℕ)
      → get_tag_group_id db name ≡ some i
      → ensure_tag_group engine name uid gid permissions now db
        ≡ done tt (record db {
          tag_groups = update (group_named name) (λ g. record g { mtime = now }) db.tag_groups;
        })
  unfolding ensure_tag_group update_tag_group_mtime
  ensure_tag_group_found i e = ground arith

  ensure_tag_group_new :
      get_tag_group_id db name ≡ none
      → ensure_tag_group engine name uid gid permissions now db
        ≡ done tt (record db { tag_groups = db.tag_groups ++ new_group ∷ []; root_mtime = now })
  unfolding ensure_tag_group update_root_mtime
  ensure_tag_group_new e = ground arith

  -- For well-formed groups and an engine that gives fresh ids, `ensure_tag_group` always succeeds:
  -- a group of the name exists, the groups are well formed, and the tags, the members and the links are as before.
  pub ensure_tag_group_lem :
      IsGrouped db
      → Returns
          (λ _ db'.
            IsGrouped db'
            × (mem name (map group_name_of db'.tag_groups) ≡ true)
            × (db'.tags ≡ db.tags)
            × (db'.tag_group_tag ≡ db.tag_group_tag))
          (ensure_tag_group engine name uid gid permissions now db)
  ensure_tag_group_lem c = elim (Option-cases (get_tag_group_id db name)) [
    | inr (i, e) ↦
        let (g, h, _) = find_of_get_tag_group_id db name i e in
        rw (ensure_tag_group_found i e) (
          met_group-IsGrouped c,
          rw
              (map-update group_name_of (group_named name) (λ g. record g { mtime = now })
                db.tag_groups (λ g. refl))
              (name_in db.tag_groups name g h),
          refl,
          refl,
        )
    | inl e ↦ rw (ensure_tag_group_new e) (
      new_group-IsGrouped c (find-none_of_get db name e),
      rw (map-append_one group_name_of db.tag_groups new_group) (mem-append_one name _),
      refl,
      refl,
    )
  ]

-- A member that stays is in a group that stays.
pair_groups-delete :
    (p : GroupRow → Bool) (groups : List GroupRow) (rows : List GroupTagRow)
    → All (IsIn (map group_id_of groups)) (map grouping rows)
    → All
        (IsIn (map group_id_of (delete p groups)))
        (map grouping (delete (λ r. mem r.tg_id (map group_id_of (select p groups))) rows))
unfolding delete
pair_groups-delete p groups [] h = tt
pair_groups-delete p groups (r ∷ rows) (hr, h) =
    elim (Bool-cases (mem r.tg_id (map group_id_of (select p groups)))) [
      | inl e ↦ rw e (pair_groups-delete p groups rows h)
      | inr e ↦ rw e (
        ground (arith, Deletion.mem-select-delete group_id_of p r.tg_id groups),
        pair_groups-delete p groups rows h,
      )
    ]

-- For well-formed groups the removal of a group always succeeds: exactly the groups of the name go,
-- with exactly their members; the members of the other groups, the tags, the files and the links are
-- as before, and the groups stay well formed.
pub remove_taggroup_lem :
    (name : Text) (db : Db)
    → IsGrouped db
    → let gone = map group_id_of (select (group_named name) db.tag_groups) in
      Returns
        (λ _ db'.
          IsGrouped db'
          × (db'.tag_groups ≡ delete (group_named name) db.tag_groups)
          × (db'.tag_group_tag ≡ delete (λ r. mem r.tg_id gone) db.tag_group_tag)
          × (db'.tags ≡ db.tags)
          × (db'.files ≡ db.files)
          × (db'.file_tag ≡ db.file_tag))
        (remove_taggroup name db)
unfolding remove_taggroup
remove_taggroup_lem name db c =
    let p = group_named name in
    let gone : GroupTagRow → Bool = λ r. mem r.tg_id (map group_id_of (select p db.tag_groups)) in
    (
      record {
        group_ids = Deletion.Distinct-delete group_id_of p db.tag_groups c.group_ids;
        group_names = Deletion.Distinct-delete group_name_of p db.tag_groups c.group_names;
        pairs = Deletion.Distinct-delete pair_of gone db.tag_group_tag c.pairs;
        pair_groups = pair_groups-delete p db.tag_groups db.tag_group_tag c.pair_groups;
        pair_tags =
            Deletion.All-delete grouped gone (IsIn (map tag_id_of db.tags)) db.tag_group_tag
              c.pair_tags;
      },
      refl,
      refl,
      refl,
      refl,
      refl,
    )
