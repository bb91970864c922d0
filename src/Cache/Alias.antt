-- ===== src/Cache/Alias.antt =====
-- `Alias`: a file under way, whose first bytes must be the header of an alias file.
use supertag.Base.{
  ℕ, suc, ◌+◌, ◌-◌, Bool, true, false, List, [], ◌∷◌, ◌++◌, Option, none, some, Text, codes, length,
  get_elem?, ltb, ◌==◌, if◌then◌else◌,
}
use supertag.Perms.Umask.{UMask}

-- ALIAS_HEADER
abbrev pub alias_header : List ℕ
alias_header = codes "book" ++ 0 ∷ 0 ∷ 0 ∷ 0 ∷ codes "mark"

-- ALIAS_TAG, the name of a log target
abbrev pub alias_tag : Text
alias_tag = codes "alias"

-- `std::fs::File`: a seek fails or moves the handle; `write_all` leaves the file as far as it got.
pub record Disk (F : Type 0) : Type 0 where
  pub seek : F → ℕ → Option F
  pub write_all : F → List ℕ → F × Bool

pub record Alias (F : Type 0) : Type 0 where
  pub file_handle : F
  pub header_ptr : ℕ
  pub path : Text
  pub btime : ℕ
  pub mtime : ℕ
  pub mode : ℕ
  pub umask : UMask
  pub uid : ℕ
  pub gid : ℕ
  pub linked : Bool
  pub valid : Option Bool
  pub managed_file : Text
  pub written : ℕ

pub data IoError : Type 0 where
  permission_denied : IoError
  os_error : IoError

-- The alias after a call, with its result.
pub data Written (F : Type 0) : Type 0 where
  wrote : Alias F → Written F
  refused : IoError → Alias F → Written F
  panicked : Written F

-- Where the loop over the bytes stops, with `header_ptr`.
pub data Verdict : Type 0 where
  undecided : ℕ → Verdict
  passed : ℕ → Verdict
  denied : ℕ → Verdict
  out_of_bounds : Verdict

unfoldable pub check_header : ℕ → List ℕ → Verdict
check_header ptr [] = undecided ptr
check_header ptr (ch ∷ bytes) =
    let next = check_header (suc ptr) bytes in
    if ltb (length alias_header - 1) ptr then passed ptr else elim (get_elem? alias_header ptr) [
      | none ↦ out_of_bounds
      | some bch ↦ if bch == ch then next else denied ptr
    ]

module _ {F : Type 0} where
  -- The fields of a new alias, once its managed file is open.
  unfoldable pub new : F → Text → ℕ → UMask → ℕ → ℕ → Text → ℕ → Alias F
  new fd path mode umask uid gid managed_file now = record {
    file_handle = fd;
    header_ptr = 0;
    path = path;
    btime = now;
    mtime = now;
    mode = mode;
    umask = umask;
    uid = uid;
    gid = gid;
    linked = false;
    valid = none;
    managed_file = managed_file;
    written = 0;
  }

  unfoldable pub is_valid : Alias F → Bool
  is_valid a = elim a.valid [
    | some b ↦ if b then ltb (length alias_tag) a.written else false
    | none ↦ false
  ]

  -- The seek's effect: below the header's end, validity is open again.
  unfoldable pub at_offset : Alias F → F → ℕ → Alias F
  at_offset a fd offset =
      let b = record a { file_handle = fd; written = offset } in
      if ltb offset (length alias_header) then record b { header_ptr = offset; valid = none } else b

module _ {F : Type 0} (disk : Disk F) where
  unfoldable pub write_bytes : Alias F → List ℕ → Written F
  write_bytes a bytes =
      let (fd, complete) = disk.write_all a.file_handle bytes in
      if complete
      then wrote (record a { file_handle = fd; written = a.written + length bytes })
      else refused os_error (record a { file_handle = fd })

  unfoldable pub by_verdict : Verdict → Alias F → List ℕ → Written F
  unfolding write_bytes
  by_verdict (undecided ptr) a bytes = write_bytes (record a { header_ptr = ptr }) bytes
  by_verdict (passed ptr) a bytes =
      write_bytes (record a { header_ptr = ptr; valid = some true }) bytes
  by_verdict (denied ptr) a bytes =
      refused permission_denied (record a { header_ptr = ptr; valid = some false })
  by_verdict out_of_bounds a bytes = panicked

  unfoldable pub validate : Option Bool → Alias F → List ℕ → Written F
  unfolding by_verdict
  validate (some false) a bytes = refused permission_denied a
  validate (some true) a bytes = write_bytes a bytes
  validate none a bytes =
      if ltb a.written (length alias_header)
      then by_verdict (check_header a.header_ptr bytes) a bytes
      else write_bytes a bytes

  unfoldable pub write : Alias F → List ℕ → ℕ → ℕ → Written F
  unfolding validate at_offset
  write a bytes offset now =
      if a.linked
      then refused permission_denied a
      else let b = record a { mtime = now } in
        elim (disk.seek b.file_handle offset) [
          | none ↦ refused os_error b
          | some fd ↦ let c = at_offset b fd offset in validate c.valid c bytes
        ]
