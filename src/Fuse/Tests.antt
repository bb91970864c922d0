-- ===== src/Fuse/Tests.antt =====
-- Examples for the handlers.
use mathlib.Core.Path.{subst}
use supertag.Base.{
  [], ◌∷◌, sym, ◌≡◌, refl, true, none, codes, arith, ok, ==_refl, ◌==◌, starts_with, text_eq, find,
  mem, ends_with, strip_len, update,
}
use supertag.Cache.OpCache
use supertag.Cache.Sample.{Remembered, slots-IsExpiring, maps, fresh, user}
use supertag.Db.Consistent.{IsConsistent}
use supertag.Db.Preserve.History.{created, Reaches-IsConsistent}
use supertag.Db.Sample.{counting, counting-IsFresh, usual, library, top}
use supertag.Db.Store.{migrate}
use supertag.Fuse.Calls.{serve, stats, creates, makes_dir, removes_dir, renames}
use supertag.Fuse.Canary.{stopped, Between, at_once, then_call, unlink-canary}
use supertag.Fuse.Dirs.{make_dir, remove_tag_dir}
use supertag.Fuse.Env.{Env, did, broken}
use supertag.Fuse.Errno.{enosys, permission_denied}
use supertag.Fuse.Getattr.Panics.{is_crash, stat_tag_in_db-panics}
use supertag.Fuse.Getattr.Tagdirs.{stat_tag_in_db, getattr, stat_path, stat_root}
use supertag.Db.Query.{intersects_of, excepts_of}
use supertag.Tags.Types.{negation, regular}
use supertag.Fuse.Links.{unlink, create}
use supertag.Fuse.Mounted.{Mounted, Leaves, started, replied, serve-refused, Mounted-IsConsistent}
use supertag.Fuse.Settles.{Settles}
use supertag.Fuse.State.{World, Reply, answered, refused, crashed, choose}
use supertag.Paths.{components, pieces, first_pieces, split_from, piece}
use supertag.Paths.Joined.{ends_with_name, path_eq, path_starts_with}
use supertag.Db.Ensure.{ensure_tag, insert_tag}
use supertag.Db.Lookup.{get_tag_id, get_root_mtime, update_root_mtime, update_tag_mtime}
use supertag.Fsops.{mkdir, make_top}
use supertag.Names.{strip_negative_tag, strip_ext_prefix, rsplitn, rsplit_once}
use supertag.Perms.Class
use supertag.Perms.Permissions.{from_mode, mode}
use supertag.Radix
use supertag.Settings.{
  path_to_tags, determined_tag, filename_to_device_file, capture, capture_letter, captured_file,
}
use supertag.Tags.Collection
use supertag.Symbols.{default_symbols}

abbrev here : Env
here = record {
  engine = counting;
  commit = λ ms. none;
  syms = default_symbols;
  host = record {
    collection_from_path = λ path. none;
    get_collection = codes "songs";
    get_device_inode = λ path. ok (5, 77);
  };
  notifier = record {
    dragged_to_root = ok tt;
    tag_to_tg = λ tag. ok tt;
    unlink = λ path. true;
    bad_copy = true;
  };
  abs_mountpoint = λ path. path;
  db_path = codes "/d/db.sqlite3";
  mount_uid = 1000;
  mount_gid = 1000;
  mount_permissions = usual;
  canonicalize = λ path. did path;
  open_file = λ opts path. broken permission_denied;
}

abbrev world : World Remembered
world = record { db = library; op_cache = fresh }

serve-refused_example :
    Settles
      (λ _ v. Unit)
      (λ e v. v.db ≡ library)
      (serve maps here 9 100 (renames user (codes "/jazz") (codes "/rock")) world)
serve-refused_example =
    serve-refused maps here 9 100 (renames user (codes "/jazz") (codes "/rock")) world

canary_named : ends_with_name (codes "/rock/.unlink_canary") (codes ".unlink_canary") ≡ true
unfolding ends_with_name components starts_with pieces first_pieces split_from piece text_eq
canary_named = refl

-- The state after the canary was deleted at 100 ms
abbrev marked : World Remembered
marked = stopped maps here 100 user world

root_statted : Leaves (serve maps here 5 200 (stats user (codes "/")) marked) marked
unfolding serve getattr stat_path stat_root get_root_mtime ends_with_name components starts_with
    pieces first_pieces split_from piece text_eq choose path_eq path_starts_with
root_statted = refl

-- The process looks at the root and fails to make a file.
meanwhile : Between maps here marked marked
unfolding serve create
meanwhile =
    then_call creates 6 300 (then_call (stats user (codes "/")) 5 200 at_once tt root_statted) tt
      refl

-- The song is deleted half an hour later.
unlink-canary_example :
    (unlink maps here 3 100 user (codes "/rock/.unlink_canary") world ≡ refused enosys marked)
    × (unlink maps here 9 1900000 user (codes "/rock/song.mp3") marked ≡ refused enosys marked)
unfolding OpCache.check_delete_pid OpCache.new
unlink-canary_example =
    unlink-canary maps here (slots-IsExpiring ◌==◌ ==_refl) user user (codes "/rock/.unlink_canary")
      (codes "/rock/song.mp3") 3 9 100 1900000 world marked refl (omega arith) (omega arith) refl
      canary_named meanwhile

-- The state that a reply leaves.
after : {C X : Type 0} → World C → Reply C X → World C
after w (answered x v) = v
after w (refused e v) = v
after w crashed = w

empty : World Remembered
empty = record { db = migrate 1; op_cache = fresh }

making : Reply Remembered (Unit {0})
making = serve maps here 3 100 (makes_dir user (codes "/rock") 0o755) empty

making_done : making ≡ answered tt (after empty making)
unfolding making after empty serve make_dir Collection.new path_to_tags components starts_with
    pieces first_pieces split_from piece text_eq determined_tag strip_negative_tag strip_ext_prefix
    rsplitn rsplit_once ends_with filename_to_device_file capture strip_len Radix.parse
    capture_letter captured_file mkdir make_top Collection.first ensure_tag insert_tag find update
    mem get_tag_id update_root_mtime update_tag_mtime top migrate from_mode Class.from_mode mode
    Class.mode
making_done = refl

removing : Reply Remembered (Unit {0})
removing = serve maps here 5 200 (removes_dir (codes "/rock")) (after empty making)

removing_done : removing ≡ refused enosys (after empty making)
unfolding removing serve remove_tag_dir Collection.new path_to_tags components starts_with pieces
    first_pieces split_from piece text_eq determined_tag strip_negative_tag strip_ext_prefix rsplitn
    rsplit_once ends_with filename_to_device_file capture strip_len Radix.parse capture_letter
    captured_file Collection.primary_type Collection.last
removing_done = refl

-- A directory is made, and its removal refused.
run : Mounted maps here empty (after empty making)
unfolding making removing
run =
    replied (removes_dir (codes "/rock")) 5 200
      (replied (makes_dir user (codes "/rock") 0o755) 3 100 started tt
        (subst (λ r. Leaves r (after empty making)) (sym making_done) refl))
      tt (subst (λ r. Leaves r (after empty making)) (sym removing_done) refl)

Mounted-IsConsistent_example : IsConsistent (after empty making).db
unfolding empty
Mounted-IsConsistent_example =
    Mounted-IsConsistent maps here counting-IsFresh run
      (Reaches-IsConsistent counting counting-IsFresh (migrate 1) (created 1))

-- The stat of `/-rock/jazz`
stat_tag_in_db-panics_example :
    is_crash (
      stat_tag_in_db maps here 9 100
        (codes "/-rock/jazz")
        (codes "jazz")
        (negation (codes "rock") ∷ regular (codes "jazz") ∷ [])
        world)
    ≡ true
unfolding intersects_of excepts_of
stat_tag_in_db-panics_example =
    stat_tag_in_db-panics maps here 9 100 (codes "/-rock/jazz") (codes "jazz")
      (negation (codes "rock") ∷ regular (codes "jazz") ∷ []) world
