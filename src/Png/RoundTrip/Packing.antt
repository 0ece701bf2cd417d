-- ===== src/Png/RoundTrip/Packing.antt =====
-- internal/png: several pixels in a byte, as writeImage packs them and readImagePass takes them out.
pub mod Size
pub mod Table
use srvfb.Base.{
  ℕ, zero, suc, ◌+◌, ◌-◌, ◌*◌, ◌/◌, ◌%◌, ◌^◌, ◌≤◌, ◌<◌, min, bit_and, bit_or, bit_xor, ◌≡◌, refl,
  sym, ap, ap₂, ◌∙◌, ◌≡⟨◌⟩◌, ◌∎, ◌≢◌, ◌↔◌, ◌⊎◌, inl, inr, Bool, true, false, not, ◌&&◌, ◌||◌,
  Option, none, some, List, [], ◌∷◌, ◌++◌, map, append-nil, append_assoc, arith, ltb, leb, ◌==◌,
  if◌then◌else◌, ltb→lt, lt→ltb, leb→le, le→leb, ==_iff, tests, Bool-cases, Option-cases, length,
  get_elem?, set, length-append, length-set, get_elem?-set_self, get_elem?-set_ne, get_or, take,
  drop, replicate, take-append-drop, length-take, length-drop, length-replicate, length-map,
}
use native.Mathlib.Nat.{mul-suc}
use srvfb.Png.Filter.RoundTrip.{AllBytes}
use srvfb.Base.Bytes.{Bytes, append-nil_eq}
use srvfb.Png.Raster.{top_bits, unpack}
use srvfb.Png.Picture.{pad_bits, pack}

-- B ^ n, for the B values of a pixel.
abbrev pub power : ℕ → ℕ → ℕ
power B zero = 1
power B (suc n) = B * power B n

-- The facts on bytes of n pixels of some bits, with B values each, and T = 256 / B.
pub record IsPacking (bits n B T : ℕ) : Type 0 where
  pub or_add : (a v : ℕ) → v < B → a < T → bit_or (a * 2 ^ bits % 2 ^ 8) v ≡ a * B + v
  pub first_pixel : (u r : ℕ) → r < T → (u * T + r) / 2 ^ (8 - bits) ≡ u
  pub other_pixels : (u r : ℕ) → r < T → u < B → (u * T + r) * 2 ^ bits % 2 ^ 8 ≡ r * B
  pub pad : (a : ℕ) → a < T → a * 2 ^ bits % 2 ^ 8 ≡ a * B
  pub cancel : (x : ℕ) → B * x ≡ B * T → x ≡ T
  pub full : power B n ≡ B * T
  pub below : (x : ℕ) → B * x < B * T → x < T
  pub pixels : 0 < B
  pub room : 0 < T
  pub several : 0 < n
  pub byte : B * T ≡ 2 ^ 8
  pub no_bytes : (0 + (n - 1)) / n ≡ 0
  pub one_byte : (x : ℕ) → 0 < x → x < n → (x + (n - 1)) / n ≡ 1
  pub next_byte : (x : ℕ) → (n + x + (n - 1)) / n ≡ suc ((x + (n - 1)) / n)

abbrev pub AllBelow : ℕ → Bytes → Type 0
AllBelow B [] = Unit {0}
AllBelow B (v ∷ vs) = (v < B) × AllBelow B vs

-- The number that the pixels are the digits of.
abbrev pub value : ℕ → Bytes → ℕ
value B [] = 0
value B (u ∷ us) = u * power B (length us) + value B us

pub value-lt : (B : ℕ) (us : Bytes) → AllBelow B us → value B us < power B (length us)
value-lt B [] h = omega arith
value-lt B (u ∷ us) (l, h) =
    let p = power B (length us) in
    let r = value-lt B us h in let more : (u + 1) * p ≤ B * p = grind arith in grind arith

pub value-snoc : (B : ℕ) (us : Bytes) (v : ℕ) → value B (us ++ (v ∷ [])) ≡ value B us * B + v
value-snoc B [] v = omega arith
value-snoc B (u ∷ us) v =
    let size : length (us ++ (v ∷ [])) ≡ suc (length us) =
      omega (arith, length-append us (v ∷ [])) in
    rw (size, value-snoc B us v) (grind arith)

power-add : (B i j : ℕ) → power B (i + j) ≡ power B i * power B j
power-add B zero j = let e : 0 + j ≡ j = omega arith in rw e (omega arith)
power-add B (suc i) j =
    let e : suc i + j ≡ suc (i + j) = omega arith in rw (e, power-add B i j) (grind arith)

pub mul_mono : (a b q : ℕ) → a ≤ b → a * q ≤ b * q
mul_mono a b q h = grind arith

le-mul : (a b : ℕ) → 0 < b → a ≤ a * b
le-mul a zero h = absurd (omega arith)
le-mul a (suc b) h = omega (arith, mul-suc a b)

pub power-pos : (B n : ℕ) → 0 < B → 0 < power B n
power-pos B zero h = omega arith
power-pos B (suc n) h = let p = power-pos B n h in grind arith

pub AllBelow-snoc :
    (B : ℕ) (us : Bytes) (v : ℕ) → AllBelow B us → v < B → AllBelow B (us ++ (v ∷ []))
AllBelow-snoc B [] v h l = (l, tt)
AllBelow-snoc B (u ∷ us) v (lu, h) l = (lu, AllBelow-snoc B us v h l)

module _ (bits n B T : ℕ) (k : IsPacking bits n B T) where
  -- Taking out the pixels of a byte, which stand at its top.
  top_bits-value :
      (us : Bytes) (m count left : ℕ)
      → AllBelow B us
      → power B (length us) * m ≡ B * T
      → min count left ≡ length us
      → top_bits bits count left (value B us * m) ≡ us
  unfolding top_bits
  top_bits-value [] m zero left h e l = refl
  top_bits-value [] m (suc count) zero h e l = refl
  top_bits-value [] m (suc count) (suc left) h e l = absurd (omega arith)
  top_bits-value (u ∷ us) m zero left h e l = absurd (omega arith)
  top_bits-value (u ∷ us) m (suc count) zero h e l = absurd (omega arith)
  top_bits-value (u ∷ us) m (suc count) (suc left) (lu, h) e l =
      let p = power B (length us) in
      let s = value B us in
      let top : p * m ≡ T = k.cancel (p * m) (grind arith) in
      let lt = value-lt B us h in
      let room = k.room in
      let small : s * m < T =
        (let some : 0 < m = grind arith in
          let more : (s + 1) * m ≤ p * m = grind arith in grind arith) in
      let split : (u * p + s) * m ≡ u * T + s * m = grind arith in
      let next : s * m * B ≡ s * (m * B) = grind arith in
      rw (split, k.first_pixel u (s * m) small, k.other_pixels u (s * m) small lu, next)
        (ap (◌∷◌ u) (top_bits-value us (m * B) count left h (grind arith) (omega arith)))

  -- Filling up a byte.
  pub pad_bits-power : (j a : ℕ) → a * power B j < B * T → pad_bits bits j a ≡ a * power B j
  unfolding pad_bits
  pad_bits-power zero a h = omega arith
  pad_bits-power (suc j) a h =
      let grows = le-mul (B * a) (power B j) (power-pos B j k.pixels) in
      let small : a < T = k.below a (grind arith) in
      rw (k.pad a small) (pad_bits-power j (a * B) (grind arith) ∙ grind arith)

  -- The bytes that some pixels leave room for.
  pub room_for : (j : ℕ) → j ≤ n → power B j * power B (n - j) ≡ B * T
  room_for j h =
      let e : n ≡ j + (n - j) = omega arith in
      sym (power-add B j (n - j)) ∙ ap (power B) (sym e) ∙ k.full

  pub value-room : (us : Bytes) → AllBelow B us → length us < n → value B us < T
  value-room us h l =
      let v = value-lt B us h in
      let whole = room_for (suc (length us)) l in
      let r = power B (n - suc (length us)) in
      let q = power B (length us) in
      let top : q * r ≡ T = k.cancel (q * r) (grind arith) in
      let grows = le-mul q r (power-pos B (n - suc (length us)) k.pixels) in omega arith

  -- The last byte of a row.
  pack-done :
      (us : Bytes)
      → AllBelow B us
      → length us < n
      → unpack bits n (length us) (pad_bits bits (n - length us) (value B us) ∷ []) ≡ us
  unfolding unpack
  pack-done us h l =
      let q = power B (n - length us) in
      let whole = room_for (length us) (omega arith) in
      let v = value-lt B us h in
      let p = power-pos B (n - length us) k.pixels in
      let fits : (value B us + 1) * q ≤ power B (length us) * q = grind arith in
      rw (pad_bits-power (n - length us) (value B us) (grind arith))
        (rw (top_bits-value us q n (length us) h whole (omega arith)) (append-nil_eq us))

  -- Taking out what was packed gives the pixels back, from any point of a byte on.
  pub unpack-pack_from :
      (vs us : Bytes)
      → AllBelow B us
      → AllBelow B vs
      → length us < n
      → unpack bits n (length us + length vs) (pack bits n vs (value B us) (length us)) ≡ us ++ vs
  unfolding pack unpack
  unpack-pack_from [] [] h hv l = refl
  unpack-pack_from [] (u ∷ us) h hv l =
      let none : suc (length us) + 0 ≡ suc (length us) = omega arith in
      let some : (suc (length us) == 0) ≡ false = ground arith in
      rw (some, none, append-nil_eq (u ∷ us)) (pack-done (u ∷ us) h l)
  unpack-pack_from (v ∷ vs) us h (lv, hv) l =
      let size : length (us ++ (v ∷ [])) ≡ length us + 1 =
        omega (arith, length-append us (v ∷ [])) in
      let next = k.or_add (value B us) v lv (value-room us h l) ∙ sym (value-snoc B us v) in
      let both = AllBelow-snoc B us v h lv in
      elim (Bool-cases (length us + 1 == n)) [
        | inl e ↦
            let last : length us + 1 ≡ n = (==_iff (length us + 1) n).0 e in
            let len : length us + length (v ∷ vs) - n ≡ 0 + length vs = omega arith in
            let whole : power B (length (us ++ (v ∷ []))) * 1 ≡ B * T =
              rw (size, last) (omega (arith, k.full)) in
            let one : value B (us ++ (v ∷ [])) * 1 ≡ value B (us ++ (v ∷ [])) = omega arith in
            let front =
              top_bits-value (us ++ (v ∷ [])) 1 n (length us + length (v ∷ vs)) both whole
                (omega (arith, size)) in
            rw (e, next)
              (rw (rw one at front, len, unpack-pack_from vs [] tt hv (omega arith))
                (append_assoc us (v ∷ []) vs))
        | inr e ↦
            let more : length us + 1 < n = ground arith in
            let len : length us + length (v ∷ vs) ≡ length (us ++ (v ∷ [])) + length vs =
              omega (arith, size) in
            rw (e, next, ← size, len)
              (unpack-pack_from vs (us ++ (v ∷ [])) both hv (omega (arith, size))
                ∙ append_assoc us (v ∷ []) vs)
      ]
