-- ===== src/Fuse/Flush.antt =====
-- What a change removes from the cache of fuse/opcache.rs, and the paths that fs/mod.rs derives.
use supertag.Base.{
  ℕ, Bool, true, false, List, [], ◌∷◌, Option, none, some, Text, if◌then◌else◌, ◌||◌,
}
use supertag.Cache.OpCache
use supertag.Cache.OpCache.{Maps, clear_readdir_entry}
use supertag.Paths.{Component, root_dir, cur_dir, parent_dir, normal, components}
use supertag.Paths.Joined.{path_join, parent, file_name, slash}
use supertag.Settings.{path_to_tags}
use supertag.Symbols.{Symbols}
use supertag.Tags.Types.{TagType, file_dir}

abbrev pub is_filedir : TagType → Bool
is_filedir file_dir = true
is_filedir _ = false

unfoldable pub any_filedir : List TagType → Bool
any_filedir [] = false
any_filedir (t ∷ tags) = is_filedir t || any_filedir tags

-- A result, or the path itself
abbrev pub or_path : Text → Option Text → Text
or_path path none = path
or_path path (some p) = p

abbrev pub with_filedir : Symbols → Option Text → Option Text → Option Text
with_filedir syms (some last_part) (some up) =
    some (path_join (path_join up syms.filedir_str) last_part)
with_filedir syms _ _ = none

abbrev pub and_parent : Option Text → Option Text
and_parent none = none
and_parent (some up) = parent up

abbrev pub without_filedir : Option Text → Option Text → Option Text
without_filedir (some last_part) (some gparent) = some (path_join gparent last_part)
without_filedir _ _ = none

unfoldable pub ensure_filedir : Symbols → Text → Text
ensure_filedir syms path =
    if any_filedir (path_to_tags syms path)
    then path
    else or_path path (with_filedir syms (file_name path) (parent path))

unfoldable pub ensure_no_filedir : Symbols → Text → Text
ensure_no_filedir syms path =
    if any_filedir (path_to_tags syms path)
    then or_path path (without_filedir (file_name path) (and_parent (parent path)))
    else path

module _ {F S R A U D : Type 0} (maps : Maps F S R A U D) (syms : Symbols) (ms : ℕ) where
  unfoldable pub clear_alias : Text → OpCache.OpCache S R A U D → OpCache.OpCache S R A U D
  clear_alias path c =
      let (m, _) = maps.aliases.remove c.alias_cache (ensure_filedir syms path) ms in
      let (m', _) = maps.aliases.remove m (ensure_no_filedir syms path) ms in
      record c { alias_cache = m' }

  unfoldable pub flush_filedir_cache : Text → OpCache.OpCache S R A U D → OpCache.OpCache S R A U D
  flush_filedir_cache path c =
      let (c', _) = clear_readdir_entry maps c (path_join path syms.filedir_str) ms in
      (clear_readdir_entry maps c' (path_join path syms.filedir_cli_str) ms).0

  unfoldable pub flush_readdir_cache : Text → OpCache.OpCache S R A U D → OpCache.OpCache S R A U D
  unfolding flush_filedir_cache
  flush_readdir_cache path c = flush_filedir_cache path (clear_readdir_entry maps c path ms).0

  -- Each name of the path as a directory at the top
  unfoldable pub flush_names :
      List Component → OpCache.OpCache S R A U D → OpCache.OpCache S R A U D
  unfolding flush_readdir_cache
  flush_names [] c = c
  flush_names (normal name ∷ comps) c =
      flush_names comps (flush_readdir_cache (path_join slash name) c)
  flush_names (root_dir ∷ comps) c = flush_names comps c
  flush_names (cur_dir ∷ comps) c = flush_names comps c
  flush_names (parent_dir ∷ comps) c = flush_names comps c

  unfoldable pub flush_paths_tags : Text → OpCache.OpCache S R A U D → OpCache.OpCache S R A U D
  unfolding flush_names
  flush_paths_tags path c = flush_names (components path) c
