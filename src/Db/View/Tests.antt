-- ===== src/Db/View/Tests.antt =====
-- Examples for the view: a file that is added and loses a tag, and a library whose file goes.
use supertag.Base.{
  ℕ, ◌≡◌, refl, false, List, [], ◌∷◌, map, none, some, codes, Text, find, mem, select, update,
  delete, text_eq, inl, inr, nat_eq, pair_eq, chars_eq,
}
use supertag.Db.Consistent.{IsConsistent}
use supertag.Db.Ensure.{ensure_tag, insert_tag}
use supertag.Db.Link.{
  link_file_to_tag, insert_link, insert_file, link_tags, add_file, joins, count_up,
}
use supertag.Db.Lookup.{file_id_at, get_tag_id, update_tag_mtime, update_root_mtime}
use supertag.Db.Monad.{Outcome, done, failed, panicked, Returns, Ensures}
use supertag.Db.Remove.{remove_devicefile, unlink_tags, unlink_tag}
use supertag.Db.Rename.{rename_tag}
use supertag.Db.Sample.{library, library-IsConsistent, counting, counting-IsFresh, top}
use supertag.Db.Select.Files.{files_tagged_with}
use supertag.Db.Select.Found.{listed_id}
use supertag.Db.Store.{Db, migrate}
use supertag.Db.View.{carries, each}
use supertag.Db.View.Listing.{directory, shows, listing-perform_all}
use supertag.Db.View.Refines.{
  Addition, Op, add, remove, purge, delete_tag, rename_to, meaning, AreAllowed, perform,
  perform_all, perform_all-carries,
}
use supertag.Rows.{TaggedFile}
use supertag.Tags.Types.{DeviceFile}

abbrev two_tags : List Text
two_tags = codes "rock" ∷ codes "jazz" ∷ []

abbrev new_song : Addition
new_song = record {
  node = (5, 78);
  path = codes "/m/b.mp3";
  primary_tag = codes "b.mp3";
  tags = two_tags;
  uid = 0;
  gid = 0;
  umask = record { bits = 0o022 };
  now = 9;
  alias_file = none;
}

abbrev old_song : DeviceFile
old_song = record { device = 5; inode = 77; filename = codes "song.mp3" }

abbrev that_song : DeviceFile
that_song = record { device = 5; inode = 78; filename = codes "b.mp3" }

Ensures-all :
    {E A : Type 0} (P : A → Db → Type 0) (r : Outcome E A)
    → ((a : A) (db : Db) → P a db)
    → Ensures P r
Ensures-all P (done a db) h = h a db
Ensures-all P (failed e) h = tt
Ensures-all P panicked h = tt

abbrev swap_songs : List Op
swap_songs = add new_song ∷ purge old_song 9 ∷ delete_tag (codes "live") 9 ∷ []

swap_songs-AreAllowed : AreAllowed counting counting-IsFresh swap_songs library
unfolding find text_eq
swap_songs-AreAllowed = (
  inr refl,
  Ensures-all _ (perform counting counting-IsFresh (add new_song) library) (λ _ db. (
    tt,
    Ensures-all _ (perform counting counting-IsFresh (purge old_song 9) db) (λ _ db'. (
      tt,
      Ensures-all _ (perform counting counting-IsFresh (delete_tag (codes "live") 9) db')
          (λ _ _. tt),
    )),
  )),
)

perform_all-carries_example :
    Returns
      (λ _ db'. IsConsistent db' × (carries db' ≡ each meaning swap_songs (carries library)))
      (perform_all counting counting-IsFresh swap_songs library)
perform_all-carries_example =
    perform_all-carries counting counting-IsFresh swap_songs library library-IsConsistent
      swap_songs-AreAllowed

abbrev add_and_lose : List Op
add_and_lose =
    add new_song
    ∷ remove that_song (codes "jazz" ∷ []) 10
    ∷ rename_to (codes "rock") (codes "metal") 11
    ∷ []

add_and_lose-AreAllowed : AreAllowed counting counting-IsFresh add_and_lose (migrate 3)
unfolding find text_eq migrate perform add_file insert_file link_tags ensure_tag insert_tag top mem
    update link_file_to_tag joins count_up insert_link update_tag_mtime update_root_mtime file_id_at
    get_tag_id remove_devicefile rename_tag unlink_tags unlink_tag select delete
add_and_lose-AreAllowed = (inr refl, ((1, refl), (inl refl, tt)))

listing-perform_all_example :
    Returns
      (λ _ db'.
        (rows : List TaggedFile) × (files_tagged_with
            (directory (codes "metal" ∷ []) (codes "jazz" ∷ []))
            db'
          ≡ done rows db')
        × ((node : ℕ × ℕ) (i : ℕ)
            → file_id_at db' node.0 node.1 ≡ some i
            → mem i (map listed_id rows)
              ≡ shows
                  (each meaning add_and_lose (λ _ _. false) node)
                  (codes "metal" ∷ [])
                  (codes "jazz" ∷ [])))
      (perform_all counting counting-IsFresh add_and_lose (migrate 3))
listing-perform_all_example =
    listing-perform_all counting counting-IsFresh add_and_lose 3 (codes "metal") []
      (codes "jazz" ∷ []) add_and_lose-AreAllowed
