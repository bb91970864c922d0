-- ===== src/Cache/Validity.antt =====
-- Which first writes make an alias valid.
use supertag.Base.{
  ℕ, ◌+◌, ◌≤◌, ◌<◌, ◌≡◌, refl, ap, ◌∙◌, true, false, ◌&&◌, List, [], ◌∷◌, none, some, arith, length,
  drop, ltb, if◌then◌else◌, starts_with, Bool-cases, inl, inr,
}
use supertag.Cache.Alias
use supertag.Cache.Alias.{
  alias_header, Disk, Alias, Written, wrote, refused, panicked, permission_denied, check_header,
  is_valid, at_offset, write_bytes, write, undecided,
}
use supertag.Cache.Header.{common, check_header-verdict}

abbrev after : {F : Type 0} → Alias F → Written F → Alias F
after a (wrote b) = b
after a (refused e b) = b
after a panicked = a

header_open : check_header 0 alias_header ≡ undecided (length alias_header)
unfolding check_header
header_open = refl

module _ {F : Type 0} (disk : Disk F) where
  -- An alias that a seek left below the end of the header.
  abbrev sought : Alias F → F → ℕ → ℕ → Alias F
  sought a fd offset now = record a {
    mtime = now;
    file_handle = fd;
    written = offset;
    header_ptr = offset;
    valid = none;
  }

  write_inside :
      (a : Alias F) (bytes : List ℕ) (offset now : ℕ) (fd : F)
      → a.linked ≡ false
      → disk.seek a.file_handle offset ≡ some fd
      → offset < length alias_header
      → write disk a bytes offset now
        ≡ Alias.by_verdict disk (check_header offset bytes) (sought a fd offset now) bytes
  unfolding write at_offset Alias.validate
  write_inside a bytes offset now fd l e h =
      let q : ltb offset (length alias_header) ≡ true = ground arith in simp (l, e, q)

  -- For an alias that is not linked, a write inside the header whose seek succeeds is decided by
  -- the bytes alone: if they go on with the rest of the header and beyond it, they are written and
  -- the header is accepted; if they end inside it, they are written and it stays open; otherwise
  -- they are refused before anything is written.
  pub write-verdict :
      (a : Alias F) (bytes : List ℕ) (offset now : ℕ) (fd : F)
      → a.linked ≡ false
      → disk.seek a.file_handle offset ≡ some fd
      → offset < length alias_header
      → let rest = drop offset alias_header in
        let b = sought a fd offset now in
        write disk a bytes offset now ≡ (
          if starts_with bytes rest && ltb (length rest) (length bytes)
          then write_bytes disk
              (record b { header_ptr = offset + length rest; valid = some true })
              bytes
          else if starts_with rest bytes
          then write_bytes disk (record b { header_ptr = offset + length bytes }) bytes
          else refused permission_denied
              (record b { header_ptr = offset + common rest bytes; valid = some false }))
  unfolding Alias.by_verdict
  write-verdict a bytes offset now fd l e h =
      let rest = drop offset alias_header in
      write_inside a bytes offset now fd l e h
      ∙ rw (check_header-verdict bytes offset (omega arith))
          (elim (Bool-cases (starts_with bytes rest && ltb (length rest) (length bytes))) [
            | inl p ↦ rw p refl
            | inr p ↦ elim (Bool-cases (starts_with rest bytes)) [
              | inl q ↦ rw (p, q) refl
              | inr q ↦ rw (p, q) refl
            ]
          ])

  -- Writes one behind the other, as a file is copied; each is tried.
  unfoldable pub append_all : Alias F → List (List ℕ) → ℕ → Alias F
  append_all a [] now = a
  append_all a (bytes ∷ chunks) now =
      append_all (after a (write disk a bytes a.written now)) chunks now

  -- Open, with the whole header behind it.
  abbrev IsOpen : Alias F → Type 0
  IsOpen a = (a.valid ≡ none) × (length alias_header ≤ a.written)

  write-IsOpen :
      (a : Alias F) (bytes : List ℕ) (now : ℕ)
      → IsOpen a
      → IsOpen (after a (write disk a bytes a.written now))
  unfolding write at_offset Alias.validate write_bytes
  write-IsOpen a bytes now (v, h) = (ground arith, ground arith)

  append_all-IsOpen :
      (chunks : List (List ℕ)) (a : Alias F) (now : ℕ) → IsOpen a → IsOpen (append_all a chunks now)
  unfolding append_all
  append_all-IsOpen [] a now h = h
  append_all-IsOpen (bytes ∷ chunks) a now h =
      append_all-IsOpen chunks _ now (write-IsOpen a bytes now h)

  header_written :
      (a : Alias F) (fd : F) (now : ℕ)
      → Alias.by_verdict disk (check_header 0 alias_header) (sought a fd 0 now) alias_header
        ≡ write_bytes disk
            (record (sought a fd 0 now) { header_ptr = length alias_header })
            alias_header
  unfolding Alias.by_verdict
  header_written a fd now =
      ap (λ v. Alias.by_verdict disk v (sought a fd 0 now) alias_header) header_open

  bytes_written :
      (a b : Alias F) (fd : F)
      → b.valid ≡ none
      → length alias_header ≤ b.written + length alias_header
      → disk.write_all b.file_handle alias_header ≡ (fd, true)
      → IsOpen (after a (write_bytes disk b alias_header))
  unfolding write_bytes
  bytes_written a b fd v h w = rw (ap (λ p. p.1) w) (v, h)

  -- An alias that is written in order, each chunk directly behind the last, and whose first chunk is
  -- exactly the header and is written without an error, is not valid, whatever chunks follow.
  pub header_only-is_valid :
      (a : Alias F) (chunks : List (List ℕ)) (now : ℕ) (fd fd' : F)
      → a.linked ≡ false
      → a.written ≡ 0
      → disk.seek a.file_handle 0 ≡ some fd
      → disk.write_all fd alias_header ≡ (fd', true)
      → is_valid (append_all a (alias_header ∷ chunks) now) ≡ false
  unfolding append_all
  header_only-is_valid a chunks now fd fd' l z e w =
      let opened = record (sought a fd 0 now) { header_ptr = length alias_header } in
      let written : write disk a alias_header a.written now ≡ write_bytes disk opened alias_header =
        ap (λ o. write disk a alias_header o now) z
        ∙ write_inside a alias_header 0 now fd l e (omega arith)
        ∙ header_written a fd now in
      let first : IsOpen (after a (write disk a alias_header a.written now)) =
        rw written (bytes_written a opened fd' refl (omega arith) w) in
      let (v, _) =
        append_all-IsOpen chunks (after a (write disk a alias_header a.written now)) now first in
      unfold is_valid in rw v refl
