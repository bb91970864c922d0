-- ===== src/Perms/Bits.antt =====
-- The bitwise conjunction at variables: it reads only the digits under the mask.
use Prim.Native.Nat.{bit_and, bit_and-bitwise, digits}
use native.Mathlib.Nat.{div-add-mod, mod-lt, mod-eq_of_lt, add-mul-mod_self_left, pow-suc}
use supertag.Base.{
  ℕ, zero, suc, ◌+◌, ◌*◌, ◌/◌, ◌%◌, ◌^◌, ◌≤◌, ◌<◌, min, ◌≡◌, refl, Bool, true, ◌&&◌, arith, sym,
  ◌∙◌, ap,
}

-- Fuel beyond the first number changes nothing.
digits_enough :
    (z : ℕ → ℕ) (f : ℕ → ℕ → ℕ) (n m a b : ℕ) → a ≤ n → a ≤ m → digits z f n a b ≡ digits z f m a b
digits_enough z f zero zero a b p q = refl
digits_enough z f zero (suc m) zero b p q = refl
digits_enough z f zero (suc m) (suc a) b p q = absurd (omega arith)
digits_enough z f (suc n) zero zero b p q = refl
digits_enough z f (suc n) zero (suc a) b p q = absurd (omega arith)
digits_enough z f (suc n) (suc m) zero b p q = refl
digits_enough z f (suc n) (suc m) (suc a) b p q =
    rw (digits_enough z f n m (suc a / 2) (b / 2) (omega arith) (omega arith))

pub bit_and_halves : (a b : ℕ) → bit_and a b ≡ bit_and (a / 2) (b / 2) * 2 + min (a % 2) (b % 2)
bit_and_halves zero b = omega (arith, bit_and-bitwise 0 b, bit_and-bitwise 0 (b / 2))
bit_and_halves (suc a) b = omega (
  arith,
  bit_and-bitwise (suc a) b,
  bit_and-bitwise (suc a / 2) (b / 2),
  digits_enough (λ _. zero) min a (suc a / 2) (suc a / 2) (b / 2) (omega arith) (omega arith),
)

bit_and-zero_below : (n a : ℕ) → a ≤ n → bit_and a 0 ≡ 0
bit_and-zero_below zero zero h = bit_and-bitwise 0 0
bit_and-zero_below zero (suc a) h = absurd (omega arith)
bit_and-zero_below (suc n) a h =
    ground (arith, bit_and_halves a 0, bit_and-zero_below n (a / 2) (omega arith))

bit_and-zero : (a : ℕ) → bit_and a 0 ≡ 0
bit_and-zero a = bit_and-zero_below a a (omega arith)

bit_and_comm_below : (n a b : ℕ) → a ≤ n → bit_and a b ≡ bit_and b a
bit_and_comm_below zero zero b h = omega (arith, bit_and-bitwise 0 b, bit_and-zero b)
bit_and_comm_below zero (suc a) b h = absurd (omega arith)
bit_and_comm_below (suc n) zero b h = omega (arith, bit_and-bitwise 0 b, bit_and-zero b)
bit_and_comm_below (suc n) (suc a) b h = omega (
  arith,
  bit_and_halves (suc a) b,
  bit_and_halves b (suc a),
  bit_and_comm_below n (suc a / 2) (b / 2) (omega arith),
)

pub bit_and_comm : (a b : ℕ) → bit_and a b ≡ bit_and b a
bit_and_comm a b = bit_and_comm_below a a b (omega arith)

mod_double : (a k : ℕ) → 0 < k → (a % (k * 2)) / 2 ≡ a / 2 % k
mod_double a k h =
    let q = a / (k * 2) in
    let r = a % (k * 2) in
    let whole : a / 2 ≡ r / 2 + k * q = omega (arith, div-add-mod a (k * 2)) in
    let small : r < k * 2 = mod-lt a (omega arith) in
    sym (rw whole (add-mul-mod_self_left (r / 2) k q ∙ mod-eq_of_lt (omega arith)))

pow_pos : (w : ℕ) → 0 < 2 ^ w
pow_pos zero = omega arith
pow_pos (suc w) = omega (arith, pow-suc 2 w, pow_pos w)

-- A mask of w bits reads the number modulo 2 ^ w.
pub bit_and_mod : (w a m : ℕ) → m < 2 ^ w → bit_and a m ≡ bit_and (a % 2 ^ w) m
bit_and_mod zero a zero h = bit_and-zero a ∙ sym (bit_and-zero (a % 1))
bit_and_mod zero a (suc m) h = absurd (omega arith)
bit_and_mod (suc w) a m h =
    let a' = a % 2 ^ suc w in
    let e : 2 ^ suc w ≡ 2 ^ w * 2 = pow-suc 2 w in
    let halves : a' / 2 ≡ a / 2 % 2 ^ w = rw e (mod_double a (2 ^ w) (pow_pos w)) in
    let low : a' % 2 ≡ a % 2 = rw e (omega (arith, div-add-mod a (2 ^ w * 2))) in
    omega (
      arith,
      bit_and_halves a m,
      bit_and_halves a' m,
      bit_and_mod w (a / 2) (m / 2) (omega arith),
      ap (λ x. bit_and x (m / 2)) halves,
    )

unfoldable pub holds_below : ℕ → (ℕ → Bool) → Bool
holds_below zero test = true
holds_below (suc n) test = holds_below n test && test n

-- A test that passes at every number below `n` passes at each.
pub holds_below_sound :
    (n : ℕ) (test : ℕ → Bool) (x : ℕ) → holds_below n test ≡ true → x < n → test x ≡ true
unfolding holds_below
holds_below_sound zero test x passed bound = absurd (omega arith)
holds_below_sound (suc n) test x passed bound = ground (holds_below_sound n test x, arith)
