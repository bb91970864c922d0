-- ===== src/Fsops/Mkdir.antt =====
-- `mkdir` always succeeds, and what it pins is found pinned.
use mathlib.Core.Path.{subst}
use supertag.Base.{
  ℕ, ◌≡◌, ap, ◌∙◌, true, false, List, [], ◌∷◌, ◌++◌, Text, All, length, ◌==◌, Bool-cases, inl, inr,
  arith,
}
use supertag.Db.Consistent.{IsConsistent}
use supertag.Db.Ensure.{ensure_tag, ensure_tag_group}
use supertag.Db.Monad.{
  Outcome, done, failed, panicked, Tx, lift, map_err, unwrap, Returns, Returns-bind, Returns-map,
  ◌>>=◌,
}
use supertag.Db.Pins.{pin_tags, is_pinned}
use supertag.Db.Pins.RoundTrip.{pin_tags-is_pinned}
use supertag.Db.Pins.Stable.{ensure_tag_group-Grows}
use supertag.Db.Preserve.Ensure.{ensure_tag_lem}
use supertag.Db.Remove.{is_nil}
use supertag.Db.Store.{Db, Engine, IsFresh}
use supertag.Errors.{database_error}
use supertag.Fsops.{make_top, mkdir}
use supertag.Perms.Permissions.{Permissions}
use supertag.Symbols.{Symbols}
use supertag.Tags.Collection
use supertag.Tags.Collect.{collect_pinnable}
use supertag.Tags.Pinnable.{IsPinnable, NoGroupRun, collect_pinnable_lem, collect_pinnable-whole}
use supertag.Tags.Types.{TagType, regular, negation, group, file_dir, device_file_symlink, symlink}

Returns-map_err :
    {E F A : Type 0} (P : A → Db → Type 0) (f : E → F) (m : Tx E A) (db : Db)
    → Returns P (m db)
    → Returns P (map_err f m db)
Returns-map_err {E} {F} {A} P f m db h = go (m db) h
  where
    go :
        (r : Outcome E A)
        → Returns P r
        → Returns P
            (elim r [ done a db' ↦ done a db' | failed e ↦ failed (f e) | panicked ↦ panicked ])
    go (done a db') p = p
    go (failed e) p = absurd p
    go panicked p = absurd p

module _ (engine : Engine) (fresh : IsFresh engine) (syms : Symbols) (uid gid : ℕ)
    (permissions : Permissions) (now : ℕ) where
  made_top_lem :
      (t : TagType) (db : Db)
      → IsConsistent db
      → Returns (λ _ d. IsConsistent d) (make_top engine uid gid permissions now t db)
  unfolding make_top
  made_top_lem (group tag) db c =
      Returns-map_err _ database_error (ensure_tag_group engine tag uid gid permissions now) db (
        Returns-map _ _ (ensure_tag_group engine tag uid gid permissions now db)
          (λ _ d (k, _, _). k) (ensure_tag_group-Grows engine tag uid gid permissions now db c))
  made_top_lem (regular tag) db c =
      Returns-bind _ _ (lift (ensure_tag engine tag uid gid permissions now)) _ db
        (Returns-map_err _ database_error (ensure_tag engine tag uid gid permissions now) db
          (ensure_tag_lem engine fresh tag uid gid permissions now db c))
        (λ _ d (k, _, _, _, _). k)
  made_top_lem (negation _) db c = c
  made_top_lem file_dir db c = c
  made_top_lem (device_file_symlink _) db c = c
  made_top_lem (symlink _) db c = c

  top_lem :
      (tags : List TagType) (db : Db)
      → (length tags == 1) ≡ true
      → IsConsistent db
      → Returns
          (λ _ d. IsConsistent d)
          ((unwrap (Collection.first? tags) >>= make_top engine uid gid permissions now) db)
  top_lem [] db e c = absurd (ground arith)
  top_lem (t ∷ tags) db e c = made_top_lem t db c

  pinned_lem :
      (t : TagType) (above below : List TagType) (db : Db)
      → IsConsistent db
      → All IsPinnable ((t ∷ above) ++ below)
      → Returns
          (λ _ d. IsConsistent d × (is_pinned d (t ∷ above) ≡ true))
          (lift (pin_tags engine uid gid permissions now ((t ∷ above) ++ below)) db)
  pinned_lem t above below db c h =
      Returns-map_err _ database_error
        (pin_tags engine uid gid permissions now ((t ∷ above) ++ below)) db
        (pin_tags-is_pinned engine fresh uid gid permissions now t above below db c h)

  nested_lem :
      (tags : List TagType) (db : Db)
      → All IsPinnable tags
      → IsConsistent db
      → is_nil tags ≡ false
      → Returns (λ _ d. IsConsistent d) (lift (pin_tags engine uid gid permissions now tags) db)
  nested_lem [] db h c e = absurd (cc)
  nested_lem (t ∷ tags) db h c e =
      Returns-map _ _ (lift (pin_tags engine uid gid permissions now (t ∷ tags)) db)
        (λ _ d (k, _). k) (pinned_lem t [] tags db c h)

  module _ (dir : Text) (db : Db) (c : IsConsistent db) where
    abbrev dir_tags : List TagType
    dir_tags = (Collection.new syms dir).tags

    -- For consistent tables and an engine that gives fresh ids, `mkdir` succeeds on every path: it
    -- neither fails nor panics, and leaves consistent tables.
    pub mkdir_lem :
        Returns (λ _ d. IsConsistent d) (mkdir engine syms dir uid gid permissions now db)
    unfolding mkdir Collection.first
    mkdir_lem = elim (Bool-cases (length dir_tags == 1)) [
      | inl e ↦ rw (e, mkdir) (top_lem dir_tags db e c)
      | inr e ↦ elim (Bool-cases (is_nil (collect_pinnable dir_tags))) [
        | inl f ↦ rw (e, f, mkdir, Returns) c
        | inr f ↦
            rw (e, f, mkdir)
              (nested_lem (collect_pinnable dir_tags) db (collect_pinnable_lem dir_tags).0 c f)
      ]
    ]

    -- For consistent tables and an engine that gives fresh ids, a path of other than one part, of
    -- tags and groups alone, where no group directly follows a group, is pinned by `mkdir`, and so is
    -- each path above it: every nonempty beginning of its parts is found pinned afterwards.
    pub mkdir-is_pinned :
        (t : TagType) (above below : List TagType)
        → dir_tags ≡ (t ∷ above) ++ below
        → (length dir_tags == 1) ≡ false
        → All IsPinnable dir_tags
        → NoGroupRun false dir_tags
        → Returns
            (λ _ d. IsConsistent d × (is_pinned d (t ∷ above) ≡ true))
            (mkdir engine syms dir uid gid permissions now db)
    unfolding mkdir
    mkdir-is_pinned t above below parts e h spaced =
        let whole : collect_pinnable dir_tags ≡ (t ∷ above) ++ below =
          collect_pinnable-whole dir_tags h spaced ∙ parts in
        let nonempty : is_nil (collect_pinnable dir_tags) ≡ false = ap is_nil whole in
        rw (e, nonempty, mkdir)
          (rw whole (
            pinned_lem t above below db c
              (subst (All IsPinnable) whole ((collect_pinnable_lem dir_tags).0))))
