-- ===== src/Cache/Header.antt =====
-- What a write to an alias accepts.
use supertag.Base.{
  ℕ, suc, zero, ◌+◌, ◌≤◌, ◌<◌, ◌≡◌, refl, ap, sym, Bool, true, false, ◌&&◌, List, [], ◌∷◌, Option,
  none, some, arith, length, drop, get_elem?, ltb, ◌==◌, ==_iff, if◌then◌else◌, starts_with,
  Bool-cases, inl, inr, Option-cases,
}
use supertag.Cache.Alias
use supertag.Cache.Alias.{
  alias_header, Disk, Alias, Written, wrote, refused, panicked, Verdict, undecided, passed, denied,
  out_of_bounds, check_header, at_offset, write_bytes, write,
}

+-suc : (a b : ℕ) → a + suc b ≡ suc a + b
+-suc a b = omega arith

+-zero : (a : ℕ) → a + 0 ≡ a
+-zero a = omega arith

ltb-suc : (a b : ℕ) → ltb (suc a) (suc b) ≡ ltb a b
ltb-suc a b = ground arith

ltb-zero : (a : ℕ) → ltb 0 (suc a) ≡ true
ltb-zero a = ground arith

-- The number of bytes that two sequences share at the front.
abbrev pub common : List ℕ → List ℕ → ℕ
common [] ys = 0
common (x ∷ xs) [] = 0
common (x ∷ xs) (y ∷ ys) = let n = common xs ys in if x == y then suc n else 0

-- The verdict on `bytes` where `rest` is what the header still has.
abbrev pub verdict : ℕ → List ℕ → List ℕ → Verdict
verdict ptr rest bytes =
    if starts_with bytes rest && ltb (length rest) (length bytes)
    then passed (ptr + length rest)
    else if starts_with rest bytes
    then undecided (ptr + length bytes)
    else denied (ptr + common rest bytes)

-- The byte at an index inside a list begins what is left there.
drop-get_elem? :
    (xs : List ℕ) (n : ℕ)
    → n < length xs
    → (x : ℕ) × (get_elem? xs n ≡ some x) × (drop n xs ≡ x ∷ drop (suc n) xs)
drop-get_elem? [] n h = absurd (omega arith)
drop-get_elem? (x ∷ xs) zero h = (x, refl, refl)
drop-get_elem? (x ∷ xs) (suc n) h = drop-get_elem? xs n (omega arith)

verdict-next :
    (ptr x : ℕ) (rest : List ℕ) (ch : ℕ) (bytes : List ℕ)
    → verdict ptr (x ∷ rest) (ch ∷ bytes)
      ≡ (if x == ch then verdict (suc ptr) rest bytes else denied ptr)
unfolding starts_with
verdict-next ptr x rest ch bytes = elim (Bool-cases (x == ch)) [
  | inl e ↦
      let turned : (ch == x) ≡ true = (==_iff ch x).1 (sym ((==_iff x ch).0 e)) in
      rw
        (
          e,
          turned,
          ltb-suc (length rest) (length bytes),
          +-suc ptr (length rest),
          +-suc ptr (length bytes),
          +-suc ptr (common rest bytes),
        )
        refl
  | inr e ↦
      let turned : (ch == x) ≡ false = ground (arith, ==_iff ch x, ==_iff x ch) in
      rw (e, turned, +-zero ptr) refl
]

verdict-nil : (ptr : ℕ) (rest : List ℕ) → verdict ptr rest [] ≡ undecided ptr
unfolding starts_with
verdict-nil ptr [] = ap undecided (+-zero ptr)
verdict-nil ptr (x ∷ rest) = ap undecided (+-zero ptr)

-- From a pointer inside the header or at its end, the loop gives the verdict on what is left of the
-- header: a longer chunk that begins with it passes, a chunk that ends inside it is left open, and
-- any other is denied at the first byte that differs; the header is never read out of bounds.
pub check_header-verdict :
    (bytes : List ℕ) (ptr : ℕ)
    → ptr ≤ length alias_header
    → check_header ptr bytes ≡ verdict ptr (drop ptr alias_header) bytes
unfolding check_header
check_header-verdict [] ptr h = sym (verdict-nil ptr (drop ptr alias_header))
check_header-verdict (ch ∷ bytes) ptr h = elim (Bool-cases (ltb 11 ptr)) [
  | inr inside ↦
      let (x, e, d) = drop-get_elem? alias_header ptr (ground arith) in
      let rest = check_header-verdict bytes (suc ptr) (ground arith) in
      rw (d, verdict-next ptr x (drop (suc ptr) alias_header) ch bytes) (rw (inside, e, rest) refl)
  | inl beyond ↦
      let last : ptr ≡ 12 = ground arith in
      unfold starts_with in rw (last, ltb-zero (length bytes)) refl
]

-- What holds of the alias after a call that does not panic.
abbrev pub Leaves : {F : Type 0} → (Alias F → Type 0) → Written F → Type 0
Leaves P (wrote a) = P a
Leaves P (refused e a) = P a
Leaves P panicked = ⊥

abbrev pub PointsInto : Option Bool → ℕ → Type 0
PointsInto (some true) ptr = ptr ≡ length alias_header
PointsInto _ ptr = ptr ≤ length alias_header

-- The pointer lies in the header, and at its end if the header was accepted.
abbrev pub IsSound : {F : Type 0} → Alias F → Type 0
IsSound a = PointsInto a.valid a.header_ptr

abbrev IsInside : Verdict → Type 0
IsInside (undecided ptr) = ptr ≤ length alias_header
IsInside (passed ptr) = ptr ≡ length alias_header
IsInside (denied ptr) = ptr ≤ length alias_header
IsInside out_of_bounds = ⊥

check_header-IsInside :
    (bytes : List ℕ) (ptr : ℕ) → ptr ≤ length alias_header → IsInside (check_header ptr bytes)
unfolding check_header
check_header-IsInside [] ptr h = h
check_header-IsInside (ch ∷ bytes) ptr h = elim (Bool-cases (ltb 11 ptr)) [
  | inl beyond ↦ rw beyond (ground arith)
  | inr inside ↦
      let (x, e, d) = drop-get_elem? alias_header ptr (ground arith) in
      let next = check_header-IsInside bytes (suc ptr) (ground arith) in
      elim (Bool-cases (x == ch)) [
        | inl same ↦ rw (inside, e, same) next
        | inr differs ↦ rw (inside, e, differs) h
      ]
]

module _ {F : Type 0} (disk : Disk F) where
  write_bytes-IsSound :
      (a : Alias F) (bytes : List ℕ) → IsSound a → Leaves IsSound (write_bytes disk a bytes)
  unfolding write_bytes
  write_bytes-IsSound a bytes h = elim (Bool-cases (disk.write_all a.file_handle bytes).1) [
    | inl e ↦ rw e h
    | inr e ↦ rw e h
  ]

  by_verdict-IsSound :
      (v : Verdict) (a : Alias F) (bytes : List ℕ)
      → a.valid ≡ none
      → IsInside v
      → Leaves IsSound (Alias.by_verdict disk v a bytes)
  unfolding Alias.by_verdict
  by_verdict-IsSound (undecided ptr) a bytes e h =
      write_bytes-IsSound (record a { header_ptr = ptr }) bytes (rw e h)
  by_verdict-IsSound (passed ptr) a bytes e h =
      write_bytes-IsSound (record a { header_ptr = ptr; valid = some true }) bytes h
  by_verdict-IsSound (denied ptr) a bytes e h = h
  by_verdict-IsSound out_of_bounds a bytes e h = h

  validate-IsSound :
      (v : Option Bool) (a : Alias F) (bytes : List ℕ)
      → a.valid ≡ v
      → IsSound a
      → Leaves IsSound (Alias.validate disk v a bytes)
  unfolding Alias.validate
  validate-IsSound (some false) a bytes e h = h
  validate-IsSound (some true) a bytes e h = write_bytes-IsSound a bytes h
  validate-IsSound none a bytes e h = elim (Bool-cases (ltb a.written (length alias_header))) [
    | inl q ↦ rw q (
        by_verdict-IsSound (check_header a.header_ptr bytes) a bytes e
          (check_header-IsInside bytes a.header_ptr (rw e at h)))
    | inr q ↦ rw q (write_bytes-IsSound a bytes h)
  ]

  at_offset-IsSound :
      (a : Alias F) (fd : F) (offset : ℕ) → IsSound a → IsSound (at_offset a fd offset)
  unfolding at_offset
  at_offset-IsSound a fd offset h = elim (Bool-cases (ltb offset (length alias_header))) [
    | inl e ↦ rw e (ground arith)
    | inr e ↦ rw e h
  ]

  -- On an alias whose pointer lies in the header, no write panics, whatever its bytes and its offset
  -- and whatever the file does, and the pointer lies in the header again.
  pub write-IsSound :
      (a : Alias F) (bytes : List ℕ) (offset now : ℕ)
      → IsSound a
      → Leaves IsSound (write disk a bytes offset now)
  unfolding write
  write-IsSound a bytes offset now h = elim (Bool-cases a.linked) [
    | inl l ↦ rw l h
    | inr l ↦ elim (Option-cases (disk.seek a.file_handle offset)) [
      | inl e ↦ rw (l, e) h
      | inr (fd, e) ↦
          let b = record a { mtime = now } in
          rw (l, e)
            (validate-IsSound (at_offset b fd offset).valid (at_offset b fd offset) bytes refl
              (at_offset-IsSound b fd offset h))
    ]
  ]
