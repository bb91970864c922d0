-- ===== src/Radix.antt =====
-- The standard library's unsigned numbers as text, in a base of at most ten: `to_string`, `format!`
-- with `{:o}` and `{:03o}`, `parse` and `from_str_radix`. `bound` is 2 ^ w for a w-bit type.
pub mod RoundTrip
use supertag.Base.{
  ℕ, zero, suc, ◌+◌, ◌-◌, ◌*◌, ◌/◌, ◌%◌, ◌≤◌, ◌<◌, ◌≡◌, refl, [], ◌∷◌, ◌++◌, ◌||◌, Option, none,
  some, arith, Text, length, codes, ltb, leb, ◌==◌, if◌then◌else◌,
}

module _ (base : ℕ) where
  -- Writes the digits of `n` before `out`; the fuel bounds the number of divisions.
  digits_before : ℕ → ℕ → Text → Text
  digits_before zero n out = out
  digits_before (suc fuel) n out =
      let rest = digits_before fuel (n / base) ((b'0' + n % base) ∷ out) in
      if ltb n base then (b'0' + n % base) ∷ out else rest

  unfoldable pub format : ℕ → Text
  unfolding digits_before
  format n = digits_before (suc n) n []

  -- Accumulates digits with `checked_mul` and `checked_add`.
  scan : ℕ → Text → ℕ → Option ℕ
  scan bound [] acc = some acc
  scan bound (c ∷ s) acc =
      let rest = scan bound s (acc * base + (c - b'0')) in
      if ltb c b'0' || leb (b'0' + base) c
      then none
      else if leb bound (acc * base + (c - b'0'))
      then none
      else rest

  -- A leading `+` is taken; no digit at all is an error.
  unfoldable pub parse : ℕ → Text → Option ℕ
  unfolding scan
  parse bound [] = none
  parse bound (c ∷ []) = if c == b'+' then none else scan bound (c ∷ []) 0
  parse bound (c ∷ d ∷ s) = if c == b'+' then scan bound (d ∷ s) 0 else scan bound (c ∷ d ∷ s) 0

abbrev zeros : ℕ → Text
zeros zero = []
zeros (suc n) = b'0' ∷ zeros n

-- The padding of `{:03}`.
unfoldable pub pad : ℕ → Text → Text
pad width s = zeros (width - length s) ++ s

format_octal : format 8 493 ≡ codes "755"
unfolding format
format_octal = refl

format_large : format 10 18446744073709551615 ≡ codes "18446744073709551615"
unfolding format
format_large = refl
