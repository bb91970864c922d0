-- ===== src/Db/Query/Tests.antt =====
-- Examples for the subquery of a path.
use supertag.Base.{
  ℕ, ◌≡◌, refl, true, false, List, [], ◌∷◌, ◌++◌, codes, Text, length, find, nat_eq, chars_eq,
  text_eq,
}
use supertag.Db.Query.{
  intersection_subquery, intersects_of, groups_of, excepts_of, single_subqueries, assemble,
  group_subqueries, except, tag_name_is, nothing,
}
use supertag.Db.Query.Meaning.{selects, asked_for}
use supertag.Db.Query.Numbering.{intersection_subquery-asked_for}
use supertag.Db.Store.{Db, TagRow, FileTagRow, migrate}
use supertag.Rows.Int.{pos}
use supertag.Tags.Types.{TagType, regular, negation}

abbrev path : List TagType
path = regular (codes "a") ∷ negation (codes "b") ∷ []

numbered :
    intersection_subquery (migrate 0) path 2
    ≡ (except (tag_name_is 3 ∷ []) (tag_name_is 4 ∷ []), codes "a" ∷ codes "b" ∷ [])
unfolding intersection_subquery intersects_of groups_of excepts_of single_subqueries assemble
    group_subqueries
numbered = refl

-- A query without parameters, for which one parameter is bound.
unbound :
    intersection_subquery (migrate 0) (negation (codes "b") ∷ []) 0 ≡ (nothing, codes "b" ∷ [])
unfolding intersection_subquery intersects_of groups_of excepts_of single_subqueries assemble
    group_subqueries
unbound = refl

abbrev link : ℕ → ℕ → FileTagRow
link file_id tag_id = record {
  rowid = tag_id;
  file_id = file_id;
  tag_id = tag_id;
  ts = 3;
  mtime = 3;
  uid = 0;
  gid = 0;
  permissions = 0o644;
}

abbrev tag_row : ℕ → Text → TagRow
tag_row id name = record {
  id = id;
  tag_name = name;
  ts = 3;
  mtime = 3;
  uid = 0;
  gid = 0;
  permissions = 0o755;
  num_files = pos 1;
}

-- The file 1 has the tags `a` and `b`, the file 2 only `a`.
abbrev shelf : Db
shelf = record {
  files = [];
  tags = tag_row 1 (codes "a") ∷ tag_row 2 (codes "b") ∷ [];
  file_tag = link 1 1 ∷ link 1 2 ∷ link 2 1 ∷ [];
  pins = [];
  tag_groups = [];
  tag_group_tag = [];
  root_mtime = 3;
}

listed :
    (asked_for shelf 1 (codes "a" ∷ []) [] (codes "b" ∷ []) ≡ false)
    × (asked_for shelf 2 (codes "a" ∷ []) [] (codes "b" ∷ []) ≡ true)
unfolding find text_eq
listed = (refl, refl)

intersection_subquery-asked_for_example :
    let (query, params) = intersection_subquery shelf path (length {A = Text} (codes "x" ∷ [])) in
    selects shelf ((codes "x" ∷ []) ++ params ++ []) 2 query
    ≡ asked_for shelf 2 (intersects_of path) (groups_of shelf path) (excepts_of path)
intersection_subquery-asked_for_example =
    intersection_subquery-asked_for shelf path (codes "x" ∷ []) [] 2
