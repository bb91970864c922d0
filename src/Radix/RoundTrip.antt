-- ===== src/Radix/RoundTrip.antt =====
-- A number is read back from its print, also with zeros before it.
use native.Mathlib.Nat.{div-add-mod', div-lt_self, div-eq_of_lt, mod-lt}
use supertag.Base.{
  ℕ, zero, suc, ◌+◌, ◌-◌, ◌*◌, ◌/◌, ◌%◌, ◌≤◌, ◌<◌, ◌≡◌, refl, [], ◌∷◌, ◌++◌, some, arith, Text, All,
  length, Bool-cases, inl, inr, ltb, ltb→lt, append_assoc, append-nil, All-append, ◌∙◌,
}
use supertag.Radix.{digits_before, format, scan, parse, zeros, pad}

module _ (base : ℕ) (two_le : 2 ≤ base) where
  -- Reading the last digit behind the others gives the number.
  scan_last :
      (bound n : ℕ) (out : Text)
      → n < bound
      → scan base bound ((b'0' + n % base) ∷ out) (n / base) ≡ scan base bound out n
  unfolding scan
  scan_last bound n out h =
      let e : n / base * base + (b'0' + n % base - b'0') ≡ n = omega (arith, div-add-mod' n base) in
      let m : n % base < base = mod-lt n (omega arith) in rw e (ground arith)

  scan-digits_before :
      (bound fuel n : ℕ) (out : Text)
      → n < fuel
      → n < bound
      → scan base bound (digits_before base fuel n out) 0 ≡ scan base bound out n
  unfolding digits_before
  scan-digits_before bound zero n out h k = absurd (omega arith)
  scan-digits_before bound (suc fuel) n out h k = elim (Bool-cases (ltb n base)) [
    | inl small ↦
        let z : n / base ≡ 0 = div-eq_of_lt (ltb→lt n base small) in
        rw small (rw z at (scan_last bound n out k))
    | inr large ↦
        let q : n / base < n = div-lt_self (ground (arith, two_le)) (omega arith) in
        rw large (
          scan-digits_before bound fuel (n / base) ((b'0' + n % base) ∷ out) (omega arith)
            (omega arith)
          ∙ scan_last bound n out k)
  ]

  digits_before-append :
      (fuel n : ℕ) (out : Text)
      → n < fuel
      → (c : ℕ) × (s : Text) × (digits_before base fuel n out ≡ (c ∷ s) ++ out)
        × (b'0' ≤ c)
        × All (λ d. b'0' ≤ d) s
  unfolding digits_before
  digits_before-append zero n out h = absurd (omega arith)
  digits_before-append (suc fuel) n out h = elim (Bool-cases (ltb n base)) [
    | inl small ↦ (b'0' + n % base, [], rw small, omega arith, tt)
    | inr large ↦
        let q : n / base < n = div-lt_self (ground (arith, two_le)) (omega arith) in
        let (c, s, e, lo, rest) =
          digits_before-append fuel (n / base) ((b'0' + n % base) ∷ out) (omega arith) in
        (
          c,
          s ++ (b'0' + n % base) ∷ [],
          rw (large, e) (rw append_assoc),
          lo,
          All-append (λ d. b'0' ≤ d) s ((b'0' + n % base) ∷ []) rest (omega arith),
        )
  ]

  -- No sign is read from a text that begins with a digit.
  parse-scan :
      (bound c : ℕ) (s : Text) → b'0' ≤ c → parse base bound (c ∷ s) ≡ scan base bound (c ∷ s) 0
  unfolding parse
  parse-scan bound c [] h = ground arith
  parse-scan bound c (d ∷ s) h = ground arith

  -- Every number below the bound is read back from its print.
  pub parse-format : (bound n : ℕ) → n < bound → parse base bound (format base n) ≡ some n
  unfolding format
  parse-format bound n h =
      let (c, s, e, lo, _) = digits_before-append (suc n) n [] (omega arith) in
      let e' : digits_before base (suc n) n [] ≡ c ∷ s = e ∙ append-nil (c ∷ s) in
      rw e' (
        parse-scan bound c s lo
        ∙ rw e' at (scan-digits_before bound (suc n) n [] (omega arith) h)
        ∙ (unfold scan in refl))

  scan-zeros :
      (bound width : ℕ) (s : Text)
      → 0 < bound
      → scan base bound (zeros width ++ s) 0 ≡ scan base bound s 0
  unfolding scan
  scan-zeros bound zero s h = refl
  scan-zeros bound (suc width) s h = ground (arith, scan-zeros bound width s h)

  scan-format : (bound n : ℕ) → n < bound → scan base bound (format base n) 0 ≡ some n
  unfolding format
  scan-format bound n h =
      scan-digits_before bound (suc n) n [] (omega arith) h ∙ (unfold scan in refl)

  -- Zeros before the digits change nothing.
  pub parse-pad :
      (bound width n : ℕ) → n < bound → parse base bound (pad width (format base n)) ≡ some n
  unfolding pad
  parse-pad bound width n h = parse-zeros (width - length (format base n))
    where
      parse-zeros : (k : ℕ) → parse base bound (zeros k ++ format base n) ≡ some n
      parse-zeros zero = parse-format bound n h
      parse-zeros (suc k) =
          parse-scan bound b'0' (zeros k ++ format base n) (omega arith)
          ∙ scan-zeros bound (suc k) (format base n) (omega arith)
          ∙ scan-format bound n h

  -- A print consists of digits of the base.
  abbrev pub IsDigit : ℕ → Type 0
  IsDigit d = (b'0' ≤ d) × (d < b'0' + base)

  digits_before-All :
      (fuel n : ℕ) (out : Text) → All IsDigit out → All IsDigit (digits_before base fuel n out)
  unfolding digits_before
  digits_before-All zero n out h = h
  digits_before-All (suc fuel) n out h =
      let m : n % base < base = mod-lt n (omega arith) in
      let rest =
        digits_before-All fuel (n / base) ((b'0' + n % base) ∷ out)
          ((omega arith, omega arith), h) in
      elim (Bool-cases (ltb n base)) [
        | inl small ↦ rw small ((omega arith, omega arith), h)
        | inr large ↦ rw large rest
      ]

  pub format-All : (n : ℕ) → All IsDigit (format base n)
  unfolding format
  format-All n = digits_before-All (suc n) n [] tt
