-- ===== src/Fuse/Getattr/Panics.antt =====
-- Where the stat of a tag's directory panics.
use supertag.Base.{
  ℕ, ◌≡◌, refl, ◌∙◌, Bool, true, false, ◌&&◌, List, [], ◌∷◌, Option, none, some, Text, length,
  last?, ltb, Bool-cases, inl, inr,
}
use supertag.Cache.OpCache
use supertag.Cache.OpCache.{Maps}
use supertag.Db.Lookup.{get_tag}
use supertag.Db.Monad.{Outcome, Sql, done, failed, panicked}
use supertag.Db.Pins.{is_pinned}
use supertag.Db.Query.{intersects_of, excepts_of}
use supertag.Db.Select.Found.{only_negated, query_is_nothing}
use supertag.Db.Select.Groups.{get_tag_group}
use supertag.Db.Select.Tags.{get_all_tags, prune, intersect_tag, init}
use supertag.Db.Store.{Db}
use supertag.Errors.{SqlError}
use supertag.Fuse.Errno.{enoent}
use supertag.Fuse.Env.{Env}
use supertag.Fuse.Getattr.{find_tag}
use supertag.Fuse.Getattr.Tagdirs.{
  stat_pinned, stat_record, stat_group_record, stat_top_tag, stat_intersection, stat_tag_in_db,
}
use supertag.Fuse.State.{
  World, Reply, answered, refused, crashed, Fuse, refuse, choose, unwrap_query, ◌>>=◌,
}
use supertag.Rows.{Tag, TagGroup}
use supertag.Tags.Types.{TagType, regular, negation, group, file_dir, device_file_symlink, symlink}

abbrev pub is_crash : {C X : Type 0} → Reply C X → Bool
is_crash (answered x w) = false
is_crash (refused e w) = false
is_crash crashed = true

-- A run that fails, and one that is done on the tables it found.
abbrev fails : {E A : Type 0} → Outcome E A → Bool
fails (done a db) = false
fails (failed e) = true
fails panicked = true

prune-fails : (t : Option TagType) (tags : List Tag) (db : Db) → fails (prune t tags db) ≡ false
unfolding prune
prune-fails none tags db = refl
prune-fails (some (group name)) tags db = refl
prune-fails (some (regular _)) tags db = refl
prune-fails (some (negation _)) tags db = refl
prune-fails (some file_dir) tags db = refl
prune-fails (some (device_file_symlink _)) tags db = refl
prune-fails (some (symlink _)) tags db = refl

intersect_tag-fails :
    (tags : List TagType) (b : Bool) (db : Db)
    → fails (intersect_tag tags b db) ≡ only_negated (intersects_of tags) (excepts_of tags)
unfolding intersect_tag get_all_tags intersects_of excepts_of
intersect_tag-fails [] b db = refl
intersect_tag-fails (t ∷ tags) b db =
    elim (Bool-cases (only_negated (intersects_of (t ∷ tags)) (excepts_of (t ∷ tags)))) [
      | inl e ↦ rw (e, query_is_nothing (t ∷ tags) db ∙ e) refl
      | inr e ↦ rw (e, query_is_nothing (t ∷ tags) db ∙ e) (prune-fails (last? (t ∷ tags)) _ db)
    ]

unwrapped_then :
    {C X Y : Type 0} (m : Sql X) (f : X → Fuse C Y) (w : World C)
    → ((x : X) (v : World C) → is_crash (f x v) ≡ false)
    → is_crash ((unwrap_query m >>= f) w) ≡ fails (m w.db)
unwrapped_then {C} {X} {Y} m f w h = go (m w.db)
  where
    unwrap_of : Outcome SqlError X → Reply C X
    unwrap_of (done x db') = answered x (record w { db = db' })
    unwrap_of (failed e) = crashed
    unwrap_of panicked = crashed

    go :
        (r : Outcome SqlError X)
        → is_crash (elim (unwrap_of r) [
          | answered x w' ↦ f x w'
          | refused e w' ↦ refused e w'
          | crashed ↦ crashed
        ])
          ≡ fails r
    go (done x db') = h x (record w { db = db' })
    go (failed e) = refl
    go panicked = refl

module _ {F S R A U D : Type 0} (maps : Maps F S R A U D) (env : Env) (now ms : ℕ) where
  abbrev State : Type 0
  State = World (OpCache.OpCache S R A U D)

  top_calm :
      (path : Text) (o : Option Tag) (w : State)
      → is_crash (stat_top_tag maps env now ms path o w) ≡ false
  top_calm path none w = refl
  top_calm path (some t) w = refl

  record_calm : (o : Option Tag) (w : State) → is_crash (stat_record maps env now ms o w) ≡ false
  record_calm none w = refl
  record_calm (some t) w = refl

  group_record_calm :
      (o : Option TagGroup) (w : State) → is_crash (stat_group_record maps env now ms o w) ≡ false
  group_record_calm none w = refl
  group_record_calm (some g) w = refl

  pinned_calm :
      (t : TagType) (w : State) → is_crash (stat_pinned maps env now ms (some t) w) ≡ false
  unfolding stat_pinned get_tag_group
  pinned_calm (regular name) w = record_calm (get_tag w.db name) w
  pinned_calm (group name) w = group_record_calm _ w
  pinned_calm (negation _) w = refl
  pinned_calm file_dir w = refl
  pinned_calm (device_file_symlink _) w = refl
  pinned_calm (symlink _) w = refl

  last_calm :
      (t : TagType) (tags : List TagType) (w : State)
      → is_crash (stat_pinned maps env now ms (last? (t ∷ tags)) w) ≡ false
  last_calm t [] w = pinned_calm t w
  last_calm t (u ∷ tags) w = last_calm u tags w

  chosen_calm :
      (b : Bool) (t : TagType) (tags : List TagType) (w : State)
      → is_crash (choose b (stat_pinned maps env now ms (last? (t ∷ tags))) (refuse enoent) w)
        ≡ false
  unfolding choose
  chosen_calm true t tags w = last_calm t tags w
  chosen_calm false t tags w = refl

  intersection_calm :
      (path : Text) (t : TagType) (tags : List TagType) (o : Option Tag) (w : State)
      → is_crash (stat_intersection maps env now ms path (t ∷ tags) o w) ≡ false
  intersection_calm path t tags (some itag) w = refl
  intersection_calm path t tags none w = chosen_calm (is_pinned w.db (t ∷ tags)) t tags w

  -- The stat of a tag's directory that no cache knows panics on exactly the paths of two parts or more
  -- whose parts before the last one hold negated tags and no positive ones.
  pub stat_tag_in_db-panics :
      (path name : Text) (tags : List TagType) (w : State)
      → is_crash (stat_tag_in_db maps env now ms path name tags w)
        ≡ (ltb 1 (length tags) && only_negated (intersects_of (init tags)) (excepts_of (init tags)))
  unfolding stat_tag_in_db choose
  stat_tag_in_db-panics path name [] w = top_calm path (get_tag w.db name) w
  stat_tag_in_db-panics path name (t ∷ tags) w = elim (Bool-cases (ltb 1 (length (t ∷ tags)))) [
    | inl e ↦
        rw (e, stat_tag_in_db, choose)
          (unwrapped_then (intersect_tag (init (t ∷ tags)) true) _ w
              (λ itags v. intersection_calm path t tags (find_tag name itags) v)
            ∙ intersect_tag-fails (init (t ∷ tags)) true w.db)
    | inr e ↦ rw (e, stat_tag_in_db, choose) (top_calm path (get_tag w.db name) w)
  ]
