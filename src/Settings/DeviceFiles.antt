-- ===== src/Settings/DeviceFiles.antt =====
-- A device file is read back from its inodified name, also with the sync character behind it.
use supertag.Base.{
  ℕ, ◌^◌, ◌<◌, ◌≡◌, ◌≢◌, refl, ◌∙◌, true, [], ◌∷◌, ◌++◌, append_assoc, append-nil, some, arith,
  Text, Lacks, All, All-map, ok,
}
use supertag.Radix
use supertag.Radix.RoundTrip
use supertag.Settings.{
  inodify_filename, inodify, Capture, no_capture, capture_letter, capture, captured_file,
  filename_to_device_file,
}
use supertag.Symbols.{Symbols}
use supertag.Tags.Types.{DeviceFile}

-- A character that is none of the three special ones.
abbrev pub IsPlain : Symbols → ℕ → Type 0
IsPlain syms c = (c ≢ syms.device_char) × (c ≢ syms.inode_char) × (c ≢ syms.sync_char)

-- The special characters differ from one another and from every digit.
pub record IsDistinct (syms : Symbols) : Type 0 where
  pub device_ne_inode : syms.device_char ≢ syms.inode_char
  pub device_ne_sync : syms.device_char ≢ syms.sync_char
  pub inode_ne_sync : syms.inode_char ≢ syms.sync_char
  pub digits_plain : (c : ℕ) → RoundTrip.IsDigit 10 (omega arith) c → IsPlain syms c

-- A device file name that can be written: its name holds neither the device nor the sync
-- character, and its numbers are 64-bit words.
pub record IsWritable (syms : Symbols) (df : DeviceFile) : Type 0 where
  pub no_device_char : Lacks syms.device_char df.filename
  pub no_sync_char : Lacks syms.sync_char df.filename
  pub device_fits : df.device < 2 ^ 64
  pub inode_fits : df.inode < 2 ^ 64

-- The three stages of the loop.
abbrev in_name : Text → Capture
in_name name = record no_capture { real_filename_chars = name }

abbrev in_device : Text → Text → Capture
in_device name nums = record (in_name name) { device_nums = nums; start_device_capture = true }

abbrev in_inode : Text → Text → Text → Capture
in_inode name device nums = record (in_name name) {
  inode_nums = nums;
  device_nums = device;
  start_inode_capture = true;
}

module _ (syms : Symbols) where
  capture-nil : (c : Capture) → capture syms c [] ≡ c
  unfolding capture
  capture-nil c = refl

  name_letter :
      (x : ℕ) (name : Text)
      → x ≢ syms.device_char
      → x ≢ syms.sync_char
      → capture_letter syms (in_name name) x ≡ in_name (name ++ x ∷ [])
  unfolding capture_letter
  name_letter x name hd hs = ground arith

  device_letter :
      (x : ℕ) (name nums : Text)
      → IsPlain syms x
      → capture_letter syms (in_device name nums) x ≡ in_device name (nums ++ x ∷ [])
  unfolding capture_letter
  device_letter x name nums h = ground arith

  inode_letter :
      (x : ℕ) (name device nums : Text)
      → IsPlain syms x
      → capture_letter syms (in_inode name device nums) x ≡ in_inode name device (nums ++ x ∷ [])
  unfolding capture_letter
  inode_letter x name device nums h = ground arith

  device_start :
      (name rest : Text)
      → capture syms (in_name name) (syms.device_char ∷ rest)
        ≡ capture syms (in_device name []) rest
  unfolding capture capture_letter
  device_start name rest = ground arith

  inode_start :
      (name nums rest : Text)
      → IsDistinct syms
      → capture syms (in_device name nums) (syms.inode_char ∷ rest)
        ≡ capture syms (in_inode name nums []) rest
  unfolding capture capture_letter
  inode_start name nums rest d = ground (arith, d.device_ne_inode)

  capture_name :
      (s rest name : Text)
      → Lacks syms.device_char s
      → Lacks syms.sync_char s
      → capture syms (in_name name) (s ++ rest) ≡ capture syms (in_name (name ++ s)) rest
  unfolding capture
  capture_name [] rest name hd hs = rw append-nil
  capture_name (x ∷ s) rest name (dx, hd) (sx, hs) =
      rw (name_letter x name dx sx, capture)
        (rw (capture_name s rest (name ++ x ∷ []) hd hs) (rw append_assoc))

  capture_device :
      (s rest name nums : Text)
      → All (IsPlain syms) s
      → capture syms (in_device name nums) (s ++ rest)
        ≡ capture syms (in_device name (nums ++ s)) rest
  unfolding capture
  capture_device [] rest name nums h = rw append-nil
  capture_device (x ∷ s) rest name nums (hx, h) =
      rw (device_letter x name nums hx, capture)
        (rw (capture_device s rest name (nums ++ x ∷ []) h) (rw append_assoc))

  capture_inode :
      (s rest name device nums : Text)
      → All (IsPlain syms) s
      → capture syms (in_inode name device nums) (s ++ rest)
        ≡ capture syms (in_inode name device (nums ++ s)) rest
  unfolding capture
  capture_inode [] rest name device nums h = rw append-nil
  capture_inode (x ∷ s) rest name device nums (hx, h) =
      rw (inode_letter x name device nums hx, capture)
        (rw (capture_inode s rest name device (nums ++ x ∷ []) h) (rw append_assoc))

  capture_sync :
      (rest name device nums : Text)
      → IsDistinct syms
      → capture syms (in_inode name device nums) (syms.sync_char ∷ rest)
        ≡ capture syms (in_inode name device nums) rest
  unfolding capture capture_letter
  capture_sync rest name device nums d = ground (arith, d.device_ne_sync, d.inode_ne_sync)

  format-IsPlain : (n : ℕ) → IsDistinct syms → All (IsPlain syms) (Radix.format 10 n)
  format-IsPlain n d =
      All-map _ _ d.digits_plain (Radix.format 10 n) (RoundTrip.format-All 10 (omega arith) n)

  -- The whole loop over an inodified name and what follows it.
  capture-inodify :
      (df : DeviceFile) (rest : Text)
      → IsDistinct syms
      → IsWritable syms df
      → capture syms no_capture (inodify syms df ++ rest)
        ≡ capture syms
            (in_inode df.filename (Radix.format 10 df.device) (Radix.format 10 df.inode))
            rest
  unfolding inodify inodify_filename
  capture-inodify df rest d w =
      let D = Radix.format 10 df.device in
      let I = Radix.format 10 df.inode in
      let e : inodify syms df ++ rest
          ≡ df.filename ++ syms.device_char ∷ (D ++ syms.inode_char ∷ (I ++ rest)) =
        simp append_assoc in
      rw e (
        capture_name df.filename _ [] w.no_device_char w.no_sync_char
        ∙ device_start df.filename _
        ∙ capture_device D _ df.filename [] (format-IsPlain df.device d)
        ∙ inode_start df.filename D _ d
        ∙ capture_inode I rest df.filename D [] (format-IsPlain df.inode d))

-- The inodified name of a writable device file is parsed to that device file, and so is the name
-- with the sync character behind it, which asks for a cache entry to be dropped.
pub filename_to_device_file-inodify :
    (syms : Symbols) (df : DeviceFile)
    → IsDistinct syms
    → IsWritable syms df
    → (filename_to_device_file syms (inodify syms df) ≡ ok (some df))
      × (filename_to_device_file syms (inodify syms df ++ syms.sync_char ∷ []) ≡ ok (some df))
unfolding filename_to_device_file captured_file
filename_to_device_file-inodify syms df d w =
    let device = RoundTrip.parse-format 10 (omega arith) (2 ^ 64) df.device w.device_fits in
    let inode = RoundTrip.parse-format 10 (omega arith) (2 ^ 64) df.inode w.inode_fits in
    let whole = rw append-nil at (capture-inodify syms df [] d w) in
    let synced = capture-inodify syms df (syms.sync_char ∷ []) d w ∙ capture_sync syms [] _ _ _ d in
    (
      rw (whole ∙ capture-nil syms _) (rw (device, inode)),
      rw (synced ∙ capture-nil syms _) (rw (device, inode)),
    )
