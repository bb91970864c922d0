-- ===== src/Db/Tests.antt =====
-- Examples for the database, with an engine that counts row ids up.
use supertag.Base.{
  ℕ, ◌≡◌, refl, true, List, [], ◌∷◌, none, some, codes, Text, All, mem, count, find, update, select,
  delete, map, text_eq, inl, inr, length, nat_eq, chars_eq, pair_eq,
}
use supertag.Errors.{SqlError}
use supertag.Rows.{TaggedFile}
use supertag.Db.Consistent.{IsConsistent, tag_id_of, tag_name_of, file_id_of}
use supertag.Db.Ensure.{insert_tag, ensure_tag}
use supertag.Db.Link.{
  joins, count_up, insert_link, link_file_to_tag, insert_file, link_tags, add_file,
}
use supertag.Db.Lookup.{named, get_tag_id, file_id_at, update_tag_mtime, update_root_mtime}
use supertag.Db.Migrations
use supertag.Db.Migrations.{Schema, migrated, initial, run_migrations}
use supertag.Db.Monad.{Outcome, done, Returns}
use supertag.Db.Preserve.AddFile.{IsLinked, add_file_lem}
use supertag.Db.Preserve.History.{
  Reaches, created, stepped, file_added, tag_renamed, Reaches-IsConsistent,
}
use supertag.Db.Preserve.Purge.{purge_path_lem}
use supertag.Db.Preserve.RemoveTag.{remove_tag_lem}
use supertag.Db.Preserve.Rename.{rename_tag_lem}
use supertag.Db.Remove.{remove_tag, purge_path}
use supertag.Db.Rename.{rename_tag}
use supertag.Db.Sample.{
  top, counting, counting-IsFresh, library, library-IsConsistent, song, tag_row, rock_link,
}
use supertag.Db.Store.{Db, migrate}
use supertag.Perms.Umask.{UMask}
use supertag.Tags.Types.{DeviceFile}

song_row : file_id_at library 5 77 ≡ some 1
unfolding file_id_at find
song_row = refl

live_row : get_tag_id library (codes "live") ≡ some 2
unfolding get_tag_id find text_eq
live_row = refl

abbrev umask : UMask
umask = record { bits = 0o022 }

abbrev two_tags : List Text
two_tags = codes "rock" ∷ codes "jazz" ∷ []

free_path : find (λ f. text_eq f.path (codes "/m/b.mp3")) library.files ≡ none
unfolding find text_eq
free_path = refl

add_file_lem_example :
    Returns
      (λ tagged db'.
        IsConsistent db'
        × (length tagged ≡ length two_tags)
        × ((i : ℕ) × (file_id_at db' 5 78 ≡ some i) × All (IsLinked db' i) two_tags))
      (add_file counting 5 78 (codes "/m/b.mp3") (codes "b.mp3") two_tags 0 0 umask 9 none library)
add_file_lem_example =
    add_file_lem counting counting-IsFresh 5 78 (codes "/m/b.mp3") (codes "b.mp3") 0 0 umask 9 none
      two_tags library library-IsConsistent (inr free_path)

abbrev song_file : DeviceFile
song_file = record { device = 5; inode = 77; filename = codes "song.mp3" }

rock_row : get_tag_id library (codes "rock") ≡ some 1
unfolding get_tag_id find text_eq
rock_row = refl

remove_tag_lem_example :
    Returns
      (λ _ db'.
        IsConsistent db'
        × (get_tag_id db' (codes "rock") ≡ none)
        × (db'.tags ≡ delete (named (codes "rock")) library.tags)
        × (db'.files ≡ library.files))
      (remove_tag (codes "rock") 9 true library)
remove_tag_lem_example = remove_tag_lem (codes "rock") 9 library library-IsConsistent

free_name : find (named (codes "metal")) library.tags ≡ none
unfolding find text_eq
free_name = refl

rename_tag_lem_example :
    Returns
      (λ _ db'.
        IsConsistent db'
        × (get_tag_id db' (codes "metal") ≡ some 1)
        × (db'.file_tag ≡ library.file_tag)
        × (db'.files ≡ library.files))
      (rename_tag (codes "rock") (codes "metal") 9 library)
rename_tag_lem_example =
    rename_tag_lem (codes "rock") (codes "metal") 9 library 1 library-IsConsistent (inl free_name)
      rock_row

-- A second file with the same tag, and with one of its own
abbrev crowded : Db
crowded = record library {
  files = song ∷ record song { id = 2; inode = 78; path = codes "/m/live.mp3" } ∷ [];
  tags = tag_row 1 (codes "rock") 2 ∷ tag_row 2 (codes "live") 1 ∷ [];
  file_tag =
      rock_link
      ∷ record rock_link { rowid = 2; file_id = 2 }
      ∷ record rock_link { rowid = 3; file_id = 2; tag_id = 2 }
      ∷ [];
}

crowded-IsConsistent : IsConsistent crowded
unfolding mem count text_eq
crowded-IsConsistent = record {
  tag_ids = (refl, (refl, tt));
  tag_names = (refl, (refl, tt));
  file_ids = (refl, (refl, tt));
  file_nodes = (refl, (refl, tt));
  file_paths = (refl, (refl, tt));
  link_keys = (refl, (refl, (refl, tt)));
  link_tags = (refl, (refl, (refl, tt)));
  link_files = (refl, (refl, (refl, tt)));
  tallies = (refl, (refl, tt));
}

purge_path_lem_example :
    let gone = map file_id_of (select (λ f. text_eq f.path (codes "/m/song.mp3")) crowded.files) in
    Returns
      (λ _ db'.
        IsConsistent db'
        × (db'.files ≡ delete (λ f. text_eq f.path (codes "/m/song.mp3")) crowded.files)
        × (db'.file_tag ≡ delete (λ r. mem r.file_id gone) crowded.file_tag)
        × (map tag_id_of db'.tags ≡ map tag_id_of crowded.tags)
        × (map tag_name_of db'.tags ≡ map tag_name_of crowded.tags))
      (purge_path (codes "/m/song.mp3") 9 crowded)
purge_path_lem_example = purge_path_lem (codes "/m/song.mp3") 9 crowded crowded-IsConsistent

-- The value and the tables of a run that succeeds.
value : {E A : Type 0} → A → Outcome E A → A
value a (done b d) = b
value a _ = a

tables : {E A : Type 0} → Db → Outcome E A → Db
tables d (done b e) = e
tables d _ = d

adding : Outcome SqlError (List TaggedFile)
adding =
    add_file counting 5 77 (codes "/m/song.mp3") (codes "song.mp3") (codes "rock" ∷ []) 0 0 umask 3
      none (migrate 1)

adding_done : adding ≡ done (value [] adding) (tables (migrate 1) adding)
unfolding adding value tables add_file insert_file link_tags ensure_tag insert_tag link_file_to_tag
    joins count_up insert_link get_tag_id file_id_at update_tag_mtime update_root_mtime migrate find
    update mem text_eq top
adding_done = refl

renaming : Outcome SqlError (Unit {0})
renaming = rename_tag (codes "rock") (codes "metal") 5 (tables (migrate 1) adding)

renaming_done : renaming ≡ done tt (tables (migrate 1) renaming)
unfolding renaming adding value tables add_file insert_file link_tags ensure_tag insert_tag
    link_file_to_tag joins count_up insert_link get_tag_id file_id_at update_tag_mtime
    update_root_mtime migrate find update mem text_eq top rename_tag
renaming_done = refl

run : Reaches counting (tables (migrate 1) renaming)
unfolding adding renaming
run =
    stepped
      (stepped (created 1) (
        file_added 5 77 (codes "/m/song.mp3") (codes "song.mp3") (codes "rock" ∷ []) 0 0 umask 3
          none (value [] adding) adding_done))
      (tag_renamed (codes "rock") (codes "metal") 5 renaming_done)

Reaches-IsConsistent_example : IsConsistent (tables (migrate 1) renaming)
Reaches-IsConsistent_example =
    Reaches-IsConsistent counting counting-IsFresh (tables (migrate 1) renaming) run

-- A new database gets the tables, and a later start only the version of the program.
new_database :
    Migrations.migrate (codes "0.2.0") 9 none
    ≡ migrated (record { migration_version = 0; supertag_version = codes "0.2.0"; db = migrate 9 })
unfolding Migrations.migrate initial run_migrations
new_database = refl

old_schema : Schema
old_schema = record { migration_version = 0; supertag_version = codes "0.1.0"; db = library }

later_start :
    Migrations.migrate (codes "0.2.0") 9 (some old_schema)
    ≡ migrated (record old_schema { supertag_version = codes "0.2.0" })
unfolding old_schema Migrations.migrate initial run_migrations
later_start = refl
