-- ===== src/Png/Word.antt =====
-- Go's int, a 64-bit word in two's complement, and `abs` of internal/png/paeth.go.
use srvfb.Base.{
  ℕ, zero, suc, ◌+◌, ◌-◌, ◌*◌, ◌/◌, ◌%◌, ◌^◌, ◌≤◌, ◌<◌, bit_xor, ◌≡◌, refl, ◌∙◌, Bool, arith, ltb,
  leb, if◌then◌else◌,
}
use Prim.Native.Nat.{digits, differ, bit_xor-bitwise}
use native.Mathlib.Nat.{pow-suc}

-- a + b, a - b and a <= b on ints.
abbrev pub add64 : ℕ → ℕ → ℕ
add64 a b = (a + b) % 2 ^ 64

abbrev pub sub64 : ℕ → ℕ → ℕ
sub64 a b = (a + 2 ^ 64 - b) % 2 ^ 64

abbrev pub le64 : ℕ → ℕ → Bool
le64 a b = leb ((a + 2 ^ 63) % 2 ^ 64) ((b + 2 ^ 63) % 2 ^ 64)

-- x >> (intSize - 1), a shift that keeps the sign.
abbrev pub sign_mask : ℕ → ℕ
sign_mask x = if ltb x (2 ^ 63) then 0 else 2 ^ 64 - 1

unfoldable pub abs : ℕ → ℕ
abs x = let m = sign_mask x in sub64 (bit_xor x m) m

abbrev xor_digits : ℕ → ℕ → ℕ → ℕ
xor_digits n a b = digits (λ b. b) differ n a b

differ-one : (x : ℕ) → x < 2 → differ x 1 ≡ 1 - x
differ-one zero h = refl
differ-one (suc zero) h = refl
differ-one (suc (suc x)) h = absurd (omega arith)

differ-zero : (x : ℕ) → differ x 0 ≡ x
differ-zero zero = refl
differ-zero (suc x) = refl

xor_digits-zero : (n a : ℕ) → a ≤ n → xor_digits n a 0 ≡ a
xor_digits-zero zero zero h = refl
xor_digits-zero zero (suc a) h = absurd (omega arith)
xor_digits-zero (suc n) zero h = refl
xor_digits-zero (suc n) (suc a) h =
    omega (arith, xor_digits-zero n (suc a / 2) (omega arith), differ-zero (suc a % 2))

-- The k low digits are all flipped.
xor_digits_ones : (k n a : ℕ) → a ≤ n → a < 2 ^ k → xor_digits n a (2 ^ k - 1) ≡ 2 ^ k - 1 - a
xor_digits_ones k zero zero h l = omega arith
xor_digits_ones k zero (suc a) h l = absurd (omega arith)
xor_digits_ones k (suc n) zero h l = omega arith
xor_digits_ones zero (suc n) (suc a) h l = absurd (omega arith)
xor_digits_ones (suc k) (suc n) (suc a) h l =
    let p : 2 ^ suc k ≡ 2 * 2 ^ k = omega (arith, pow-suc 2 k) in
    let half : (2 ^ suc k - 1) / 2 ≡ 2 ^ k - 1 = omega arith in
    let odd : (2 ^ suc k - 1) % 2 ≡ 1 = omega arith in
    rw (half, odd)
      (omega (
        arith,
        xor_digits_ones k n (suc a / 2) (omega arith) (omega arith),
        differ-one (suc a % 2) (omega arith),
      ))

bit_xor_ones : (a : ℕ) → a < 2 ^ 64 → bit_xor a (2 ^ 64 - 1) ≡ 2 ^ 64 - 1 - a
bit_xor_ones a h = bit_xor-bitwise a (2 ^ 64 - 1) ∙ xor_digits_ones 64 a a (omega arith) h

bit_xor-zero : (a : ℕ) → bit_xor a 0 ≡ a
bit_xor-zero a = bit_xor-bitwise a 0 ∙ xor_digits-zero a a (omega arith)

-- The branch-free `abs` is the absolute value of the integer that the word stands for, for every
-- int; the smallest one, which has none, is its own.
pub abs_lem : (x : ℕ) → x < 2 ^ 64 → abs x ≡ (if ltb x (2 ^ 63) then x else 2 ^ 64 - x)
unfolding abs
abs_lem x h = ground (arith, bit_xor-zero x, bit_xor_ones x h)
