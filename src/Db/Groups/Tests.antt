-- ===== src/Db/Groups/Tests.antt =====
-- Examples for tag groups.
use supertag.Base.{
  ℕ, suc, ◌<◌, ◌≡◌, refl, true, false, List, [], ◌∷◌, map, some, codes, mem, find, select, delete,
  text_eq, nat_eq, chars_eq, pair_eq, arith, leb, if◌then◌else◌, ==_iff,
}
use supertag.Db.Ensure.{add_tag_to_group}
use supertag.Db.Groups.{IsGrouped, pair_of, group_id_of, remove_taggroup_lem}
use supertag.Db.Groups.Members.{add_tag_to_group_lem}
use supertag.Db.Lookup.{group_named, get_tag_id, get_tag_group_id}
use supertag.Db.Monad.{Returns}
use supertag.Db.Remove.{remove_taggroup}
use supertag.Db.Store.{Db, TagRow, GroupRow, GroupTagRow, Engine, IsFresh}
use supertag.Perms.Permissions
use supertag.Perms.Permissions.{Permissions}
use supertag.Rows.Int.{pos}

highest : List ℕ → ℕ
highest [] = 0
highest (i ∷ ids) = let rest = highest ids in if leb rest i then i else rest

abbrev next : Engine
next = record { new_id = λ ids. suc (highest ids) }

above-highest : (ids : List ℕ) (n : ℕ) → highest ids < n → mem n ids ≡ false
unfolding highest mem
above-highest [] n h = refl
above-highest (i ∷ ids) n h = ground (arith, above-highest ids n, ==_iff i n)

next-IsFresh : IsFresh next
next-IsFresh ids = above-highest ids (suc (highest ids)) (omega arith)

abbrev usual : Permissions
usual = Permissions.from_mode 0o755

abbrev rock : TagRow
rock = record {
  id = 1;
  tag_name = codes "rock";
  ts = 3;
  mtime = 3;
  uid = 0;
  gid = 0;
  permissions = 0o755;
  num_files = pos 0;
}

abbrev genre : GroupRow
genre = record {
  id = 4;
  name = codes "genre";
  ts = 3;
  mtime = 3;
  uid = 0;
  gid = 0;
  permissions = 0o755;
}

abbrev shelf : Db
shelf = record {
  files = [];
  tags = rock ∷ [];
  file_tag = [];
  pins = [];
  tag_groups = genre ∷ [];
  tag_group_tag = [];
  root_mtime = 3;
}

shelf-IsGrouped : IsGrouped shelf
unfolding mem
shelf-IsGrouped = record {
  group_ids = (refl, tt);
  group_names = (refl, tt);
  pairs = tt;
  pair_groups = tt;
  pair_tags = tt;
}

genre_row : get_tag_group_id shelf (codes "genre") ≡ some 4
unfolding get_tag_group_id find text_eq
genre_row = refl

rock_row : get_tag_id shelf (codes "rock") ≡ some 1
unfolding get_tag_id find text_eq
rock_row = refl

add_tag_to_group_lem_example :
    Returns
      (λ _ db'.
        IsGrouped db'
        × (mem (4, 1) (map pair_of db'.tag_group_tag) ≡ true)
        × (db'.tags ≡ shelf.tags)
        × (db'.tag_groups ≡ shelf.tag_groups))
      (add_tag_to_group (codes "rock") (codes "genre") 0 0 usual 9 shelf)
add_tag_to_group_lem_example =
    add_tag_to_group_lem (codes "rock") (codes "genre") 0 0 usual 9 shelf 4 1 genre_row rock_row
      shelf-IsGrouped

abbrev member : ℕ → ℕ → GroupTagRow
member group_id id = record {
  tg_id = group_id;
  tag_id = id;
  ts = 3;
  mtime = 3;
  uid = 0;
  gid = 0;
  permissions = 0o755;
}

-- Two groups, with the same member
abbrev two_groups : Db
two_groups = record shelf {
  tag_groups = genre ∷ record genre { id = 6; name = codes "mood" } ∷ [];
  tag_group_tag = member 4 1 ∷ member 6 1 ∷ [];
}

two_groups-IsGrouped : IsGrouped two_groups
unfolding mem text_eq
two_groups-IsGrouped = record {
  group_ids = (refl, (refl, tt));
  group_names = (refl, (refl, tt));
  pairs = (refl, (refl, tt));
  pair_groups = (refl, (refl, tt));
  pair_tags = (refl, (refl, tt));
}

remove_taggroup_lem_example :
    let gone = map group_id_of (select (group_named (codes "genre")) two_groups.tag_groups) in
    Returns
      (λ _ db'.
        IsGrouped db'
        × (db'.tag_groups ≡ delete (group_named (codes "genre")) two_groups.tag_groups)
        × (db'.tag_group_tag ≡ delete (λ r. mem r.tg_id gone) two_groups.tag_group_tag)
        × (db'.tags ≡ two_groups.tags)
        × (db'.files ≡ two_groups.files)
        × (db'.file_tag ≡ two_groups.file_tag))
      (remove_taggroup (codes "genre") two_groups)
remove_taggroup_lem_example = remove_taggroup_lem (codes "genre") two_groups two_groups-IsGrouped
