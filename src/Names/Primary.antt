-- ===== src/Names/Primary.antt =====
-- `primary_tag` cuts the file name at the device character.
use supertag.Base.{
  ℕ, ◌≡◌, ◌⊎◌, inl, inr, [], ◌∷◌, ◌++◌, none, some, arith, Text, Lacks, length, ltb, if◌then◌else◌,
  ok,
}
use supertag.Names.{get_filename, until_char, primary_tag}

-- Nothing is left, or what is left begins with `c`.
abbrev pub Stops : ℕ → Text → Type 0
Stops c rest = (rest ≡ []) ⊎ ((tail : Text) × (rest ≡ c ∷ tail))

until_char-Stops :
    (c : ℕ) (stem rest : Text) → Lacks c stem → Stops c rest → until_char c (stem ++ rest) ≡ stem
unfolding until_char
until_char-Stops c [] rest h (inl e) = rw e
until_char-Stops c [] rest h (inr (tail, e)) = rw e (ground arith)
until_char-Stops c (x ∷ stem) rest (hx, hs) stops =
    rw (until_char-Stops c stem rest hs stops) (ground arith)

-- The primary tag is the file name up to the first device character; a name of no or one character
-- before it counts as none.
pub primary_tag-Stops :
    (path : Text) (c : ℕ) (stem rest : Text)
    → get_filename path ≡ ok (stem ++ rest)
    → Lacks c stem
    → Stops c rest
    → primary_tag path c ≡ ok (if ltb 1 (length stem) then some stem else none)
unfolding primary_tag
primary_tag-Stops path c stem rest e lacks stops =
    rw (e, until_char-Stops c stem rest lacks stops) (ground arith)
