-- ===== src/Png/RoundTrip/Packing/Table.antt =====
-- internal/png, writeImage and readImagePass: pixels of one, two and four bits.
use srvfb.Base.{
  ℕ, zero, suc, ◌+◌, ◌*◌, ◌/◌, ◌%◌, ◌^◌, ◌<◌, bit_or, ◌≡◌, refl, Bool, true, false, arith, ◌==◌,
  if◌then◌else◌, ==_iff,
}
use srvfb.Png.RoundTrip.Packing.{IsPacking}

-- Appending a digit sets bits that are clear.
abbrev appends : ℕ → ℕ → Bool
appends B byte = bit_or (byte / B * B % 2 ^ 8) (byte % B) == byte

-- It does so for the first bytes, each of which is tried.
abbrev tried : ℕ → ℕ → Bool
tried B zero = true
tried B (suc byte) = if appends B byte then tried B byte else false

tried-appends : (B byte count : ℕ) → byte < count → tried B count ≡ true → appends B byte ≡ true
tried-appends B byte zero l e = absurd (omega arith)
tried-appends B byte (suc count) l e = ground (arith, tried-appends B byte count)

all_tried : (tried 2 256 ≡ true) × (tried 4 256 ≡ true) × (tried 16 256 ≡ true)
all_tried = (refl, refl, refl)

appended :
    (B : ℕ)
    → tried B 256 ≡ true
    → (a v : ℕ) → a * B + v < 256
    → (a * B + v) / B ≡ a
    → (a * B + v) % B ≡ v
    → bit_or (a * B % 2 ^ 8) v ≡ a * B + v
appended B e a v h q r =
    rw (q, r) at ((==_iff _ (a * B + v)).0 (tried-appends B (a * B + v) 256 h e))

-- The arithmetic of a byte, for each number of bits.
pub one_bit : IsPacking 1 8 2 128
one_bit = record {
  or_add = λ a v l m. appended 2 all_tried.0 a v (omega arith) (omega arith) (omega arith);
  first_pixel = λ u r l. omega arith;
  other_pixels = λ u r l m. omega arith;
  pad = λ a l. omega arith;
  cancel = λ x e. omega arith;
  full = refl;
  below = λ x e. omega arith;
  pixels = omega arith;
  room = omega arith;
  several = omega arith;
  byte = refl;
  no_bytes = refl;
  one_byte = λ x p l. omega arith;
  next_byte = λ x. omega arith;
}

pub two_bits : IsPacking 2 4 4 64
two_bits = record {
  or_add = λ a v l m. appended 4 all_tried.1 a v (omega arith) (omega arith) (omega arith);
  first_pixel = λ u r l. omega arith;
  other_pixels = λ u r l m. omega arith;
  pad = λ a l. omega arith;
  cancel = λ x e. omega arith;
  full = refl;
  below = λ x e. omega arith;
  pixels = omega arith;
  room = omega arith;
  several = omega arith;
  byte = refl;
  no_bytes = refl;
  one_byte = λ x p l. omega arith;
  next_byte = λ x. omega arith;
}

pub four_bits : IsPacking 4 2 16 16
four_bits = record {
  or_add = λ a v l m. appended 16 all_tried.2 a v (omega arith) (omega arith) (omega arith);
  first_pixel = λ u r l. omega arith;
  other_pixels = λ u r l m. omega arith;
  pad = λ a l. omega arith;
  cancel = λ x e. omega arith;
  full = refl;
  below = λ x e. omega arith;
  pixels = omega arith;
  room = omega arith;
  several = omega arith;
  byte = refl;
  no_bytes = refl;
  one_byte = λ x p l. omega arith;
  next_byte = λ x. omega arith;
}
