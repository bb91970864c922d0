-- ===== src/Cache/Tests.antt =====
-- Examples for the cache, with maps as functions and a file as its bytes.
use supertag.Base.{
  ◌+◌, ◌≡◌, refl, true, false, ◌&&◌, [], ◌∷◌, ◌++◌, none, some, codes, arith, length, take, drop,
  ltb, if◌then◌else◌, starts_with,
}
use supertag.Cache.Alias
use supertag.Cache.Alias.{
  alias_header, Disk, Alias, refused, permission_denied, check_header, is_valid, write_bytes, write,
}
use supertag.Cache.Header.{common, verdict, check_header-verdict, Leaves, IsSound, write-IsSound}
use supertag.Cache.Sample.{File}
use supertag.Cache.Validity.{append_all, write-verdict, header_only-is_valid}

abbrev memory : Disk File
memory = record {
  seek = λ f offset. some (f.0, offset);
  write_all = λ f bytes. ((take f.1 f.0 ++ bytes, f.1 + length bytes), true);
}

abbrev blank : Alias File
blank =
    Alias.new ([], 0) (codes "/t/s") 0o644 (record { bits = 0o022 }) 1000 1000 (codes "/d/s") 100

blank_valid : is_valid blank ≡ false
unfolding is_valid Alias.new
blank_valid = refl

check_header-verdict_example :
    check_header 8 (codes "mark!") ≡ verdict 8 (drop 8 alias_header) (codes "mark!")
check_header-verdict_example = check_header-verdict (codes "mark!") 8 (omega arith)

blank-IsSound : IsSound blank
unfolding Alias.new
blank-IsSound = omega arith

write-IsSound_example : Leaves IsSound (write memory blank (codes "bookish") 0 200)
write-IsSound_example = write-IsSound memory blank (codes "bookish") 0 200 blank-IsSound

blank_linked : blank.linked ≡ false
unfolding Alias.new
blank_linked = refl

blank_written : blank.written ≡ 0
unfolding Alias.new
blank_written = refl

header_only-is_valid_example :
    is_valid (append_all memory blank (alias_header ∷ codes "more" ∷ codes "bytes" ∷ []) 200)
    ≡ false
header_only-is_valid_example =
    header_only-is_valid memory blank (codes "more" ∷ codes "bytes" ∷ []) 200
      (blank.file_handle.0, 0) (alias_header, 12) blank_linked blank_written refl refl

write-verdict_example :
    let rest = drop 4 alias_header in
    let b = record blank {
      mtime = 200;
      file_handle = (blank.file_handle.0, 4);
      written = 4;
      header_ptr = 4;
      valid = none;
    } in
    write memory blank (codes "x") 4 200 ≡ (
      if starts_with (codes "x") rest && ltb (length rest) (length (codes "x"))
      then write_bytes memory
          (record b { header_ptr = 4 + length rest; valid = some true })
          (codes "x")
      else if starts_with rest (codes "x")
      then write_bytes memory (record b { header_ptr = 4 + length (codes "x") }) (codes "x")
      else refused permission_denied
          (record b { header_ptr = 4 + common rest (codes "x"); valid = some false }))
write-verdict_example =
    write-verdict memory blank (codes "x") 4 200 (blank.file_handle.0, 4) blank_linked refl
      (omega arith)
