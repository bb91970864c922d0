-- ===== src/Fsops/Tests.antt =====
-- Examples for the calls on the file system.
use supertag.Base.{
  ◌≡◌, refl, true, false, ◌&&◌, [], ◌∷◌, ◌++◌, codes, length, ◌==◌, find, mem, text_eq, starts_with,
  ends_with, strip_len, update, select, delete,
}
use supertag.Db.Consistent.{IsConsistent}
use supertag.Db.Monad.{Outcome, done, Returns}
use supertag.Db.Pins.{is_pinned}
use supertag.Db.Preserve.History.{created}
use supertag.Db.Remove.{is_nil}
use supertag.Db.Sample.{counting, counting-IsFresh, usual, library, library-IsConsistent, top}
use supertag.Db.Store.{Db, migrate}
use supertag.Errors.{STagError}
use supertag.Fsops.{mkdir, make_top, rmdir, remove_dir, remove_tag_at, rm}
use supertag.Fsops.Mkdir.{mkdir_lem, mkdir-is_pinned}
use supertag.Fsops.Panics.{is_panic, is_link_type, rm-panics}
use supertag.Fsops.Session.{Session, opened, acted, made_dir, removed_dir, Session-IsConsistent}
use supertag.Settings.{
  path_to_tags, determined_tag, filename_to_device_file, capture, capture_letter, captured_file,
}
use supertag.Paths.{components, pieces, first_pieces, split_from, piece}
use supertag.Names.{strip_negative_tag, strip_ext_prefix, rsplitn, rsplit_once}
use supertag.Radix
use supertag.Db.Ensure.{ensure_tag, insert_tag}
use supertag.Db.Lookup.{get_tag_id, update_root_mtime, update_tag_mtime}
use supertag.Db.Remove.{remove_tag, delete_tags}
use supertag.Perms.Permissions.{from_mode, mode}
use supertag.Perms.Class
use supertag.Symbols.{default_symbols}
use supertag.Tags.Collection
use supertag.Tags.Collect.{collect_regular_names, collect_tags_and_groups}
use supertag.Tags.Types.{regular}

mkdir_lem_example :
    Returns
      (λ _ d. IsConsistent d)
      (mkdir counting default_symbols (codes "/rock/loud") 0 0 usual 9 library)
mkdir_lem_example =
    mkdir_lem counting counting-IsFresh default_symbols 0 0 usual 9 (codes "/rock/loud") library
      library-IsConsistent

nested : (length (Collection.new default_symbols (codes "/rock/loud")).tags == 1) ≡ false
unfolding Collection.new path_to_tags components starts_with pieces first_pieces split_from piece
    text_eq determined_tag strip_negative_tag strip_ext_prefix rsplitn rsplit_once ends_with
    filename_to_device_file capture strip_len Radix.parse capture_letter captured_file
nested = refl

parts :
    (Collection.new default_symbols (codes "/rock/loud")).tags
    ≡ (regular (codes "rock") ∷ []) ++ regular (codes "loud") ∷ []
unfolding Collection.new path_to_tags components starts_with pieces first_pieces split_from piece
    text_eq determined_tag strip_negative_tag strip_ext_prefix rsplitn rsplit_once ends_with
    filename_to_device_file capture strip_len Radix.parse capture_letter captured_file
parts = refl

-- `rock` is pinned by the directory `loud` below it.
mkdir-is_pinned_example :
    Returns
      (λ _ d. IsConsistent d × (is_pinned d (regular (codes "rock") ∷ []) ≡ true))
      (mkdir counting default_symbols (codes "/rock/loud") 0 0 usual 9 library)
mkdir-is_pinned_example =
    mkdir-is_pinned counting counting-IsFresh default_symbols 0 0 usual 9 (codes "/rock/loud")
      library library-IsConsistent (regular (codes "rock")) [] (regular (codes "loud") ∷ []) parts
      nested (rw parts (tt, (tt, tt))) (rw parts tt)

rm-panics_example : is_panic (rm default_symbols (codes "/song.mp3﹫77") 9 library) ≡ (
    is_link_type (Collection.last (Collection.new default_symbols (codes "/song.mp3﹫77")))
    && is_nil (collect_regular_names (Collection.new default_symbols (codes "/song.mp3﹫77")).tags))
rm-panics_example = rm-panics default_symbols (codes "/song.mp3﹫77") 9 library

-- The tables of a run that succeeds.
tables : {E A : Type 0} → Db → Outcome E A → Db
tables d (done b e) = e
tables d _ = d

making : Outcome STagError (Unit {0})
making = mkdir counting default_symbols (codes "/rock") 0 0 usual 3 (migrate 1)

making_done : making ≡ done tt (tables (migrate 1) making)
unfolding making tables Collection.new path_to_tags components starts_with pieces first_pieces
    split_from piece text_eq determined_tag strip_negative_tag strip_ext_prefix rsplitn rsplit_once
    ends_with filename_to_device_file capture strip_len Radix.parse capture_letter captured_file
    mkdir make_top Collection.first ensure_tag insert_tag find update mem get_tag_id
    update_root_mtime update_tag_mtime top migrate from_mode Class.from_mode mode Class.mode
making_done = refl

removing : Outcome STagError (Unit {0})
removing = rmdir default_symbols (codes "/rock") 5 (tables (migrate 1) making)

removing_done : removing ≡ done tt (tables (migrate 1) removing)
unfolding removing making tables Collection.new path_to_tags components starts_with pieces
    first_pieces split_from piece text_eq determined_tag strip_negative_tag strip_ext_prefix rsplitn
    rsplit_once ends_with filename_to_device_file capture strip_len Radix.parse capture_letter
    captured_file mkdir make_top Collection.first ensure_tag insert_tag find update mem get_tag_id
    update_root_mtime update_tag_mtime top migrate from_mode Class.from_mode mode Class.mode rmdir
    remove_dir remove_tag_at Collection.primary_type Collection.last remove_tag delete_tags select
    delete collect_tags_and_groups
removing_done = refl

run : Session counting default_symbols (migrate 1) (tables (migrate 1) removing)
unfolding making removing
run =
    acted (acted opened (made_dir (codes "/rock") 0 0 usual 3 making_done))
      (removed_dir (codes "/rock") 5 removing_done)

Session-IsConsistent_example : IsConsistent (tables (migrate 1) removing)
Session-IsConsistent_example =
    Session-IsConsistent counting counting-IsFresh default_symbols (migrate 1)
      (tables (migrate 1) removing) (created 1) run
