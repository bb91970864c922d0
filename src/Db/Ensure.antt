-- ===== src/Db/Ensure.antt =====
-- `ensure_tag` and `ensure_tag_group`, and `add_tag_to_group`.
use supertag.Base.{ℕ, true, false, [], ◌∷◌, ◌++◌, map, none, some, Text, find, mem, nat_eq, pair_eq}
use supertag.Base.Unique.{is_some}
use supertag.Db.Lookup.{
  named, get_tag_id, get_tag_group_id, update_tag_mtime, update_tag_group_mtime, update_root_mtime,
}
use supertag.Db.Monad.{Sql, pure, gets, modify, fail_if, unwrap, ◌>>=◌, ◌>>◌}
use supertag.Db.Store.{Engine}
use supertag.Errors.{constraint_violation}
use supertag.Perms.Permissions
use supertag.Perms.Permissions.{Permissions}
use supertag.Rows.Int.{pos}

module _ (engine : Engine) where
  -- `INSERT INTO tags …`; the name is unique.
  unfoldable pub insert_tag : Text → ℕ → ℕ → Permissions → ℕ → Sql (Unit {0})
  insert_tag tag uid gid permissions now = do
    taken ← gets (λ db. is_some (find (named tag) db.tags))
    fail_if taken constraint_violation
    modify (λ db. record db {
      tags =
          db.tags
          ++ record {
            id = engine.new_id (map (λ t. t.id) db.tags);
            tag_name = tag;
            ts = now;
            mtime = now;
            uid = uid;
            gid = gid;
            permissions = Permissions.mode permissions;
            num_files = pos 0;
          }
            ∷ [];
    })

  -- The authoritative name of the tag, and its id.
  unfoldable pub ensure_tag : Text → ℕ → ℕ → Permissions → ℕ → Sql (Text × ℕ)
  unfolding insert_tag
  ensure_tag tag uid gid permissions now = do
    maybe_tag ← gets (λ db. find (named tag) db.tags)
    elim maybe_tag [
      | some existing ↦ do
        update_tag_mtime existing.tag_name now
        pure (existing.tag_name, existing.id)
      | none ↦ do
        insert_tag tag uid gid permissions now
        maybe_id ← gets (λ db. get_tag_id db tag)
        tag_id ← unwrap maybe_id
        update_root_mtime now
        pure (tag, tag_id)
    ]

  unfoldable pub ensure_tag_group : Text → ℕ → ℕ → Permissions → ℕ → Sql (Unit {0})
  ensure_tag_group name uid gid permissions now = do
    maybe_tag_group ← gets (λ db. get_tag_group_id db name)
    elim maybe_tag_group [
      | some _ ↦ update_tag_group_mtime name now
      | none ↦ do
        modify (λ db. record db {
          tag_groups =
              db.tag_groups
              ++ record {
                id = engine.new_id (map (λ g. g.id) db.tag_groups);
                name = name;
                ts = now;
                mtime = now;
                uid = uid;
                gid = gid;
                permissions = Permissions.mode permissions;
              }
                ∷ [];
        })
        update_root_mtime now
    ]

-- `INSERT OR IGNORE INTO tag_group_tag`: an existing pair and a missing id are both ignored.
unfoldable pub add_tag_to_group : Text → Text → ℕ → ℕ → Permissions → ℕ → Sql (Unit {0})
add_tag_to_group tag tag_group uid gid permissions now = do
  maybe_group ← gets (λ db. get_tag_group_id db tag_group)
  maybe_tag ← gets (λ db. get_tag_id db tag)
  elim maybe_group [
    | none ↦ pure tt
    | some tg_id ↦ elim maybe_tag [
      | none ↦ pure tt
      | some tag_id ↦ do
        taken ← gets (λ db.
            mem {A = ℕ × ℕ} (tg_id, tag_id) (map (λ r. (r.tg_id, r.tag_id)) db.tag_group_tag))
        elim taken [
          | true ↦ pure tt
          | false ↦ modify (λ db. record db {
            tag_group_tag =
                db.tag_group_tag
                ++ record {
                  tg_id = tg_id;
                  tag_id = tag_id;
                  ts = now;
                  mtime = now;
                  uid = uid;
                  gid = gid;
                  permissions = Permissions.mode permissions;
                }
                  ∷ [];
          })
        ]
    ]
  ]
