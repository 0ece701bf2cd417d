-- ===== src/Png/Raster.antt =====
-- internal/png/reader.go, readImagePass: the conversion of a row from bytes to the colors in the Pix
-- of an image.
pub mod Covered
use srvfb.Base.{
  ℕ, zero, suc, ◌+◌, ◌-◌, ◌*◌, ◌/◌, ◌%◌, ◌^◌, ◌≤◌, ◌<◌, min, bit_and, bit_or, bit_xor, ◌≡◌, refl,
  sym, ap, ap₂, ◌∙◌, ◌≡⟨◌⟩◌, ◌∎, ◌≢◌, ◌↔◌, ◌⊎◌, inl, inr, Bool, true, false, not, ◌&&◌, ◌||◌,
  Option, none, some, List, [], ◌∷◌, ◌++◌, map, append-nil, append_assoc, arith, ltb, leb, ◌==◌,
  if◌then◌else◌, ltb→lt, lt→ltb, leb→le, le→leb, ==_iff, tests, Bool-cases, Option-cases, length,
  get_elem?, set, length-append, length-set, get_elem?-set_self, get_elem?-set_ne, get_or, take,
  drop, replicate, take-append-drop, length-take, length-drop, length-replicate, length-map,
}
use srvfb.Base.Bytes.{Bytes, uint16, put_uint16}
use srvfb.Base.Outcome.{Outcome, ok, panic}
use srvfb.Png.Format.{
  Mode, cb_invalid, cb_g1, cb_g2, cb_g4, cb_g8, cb_ga8, cb_tc8, cb_p1, cb_p2, cb_p4, cb_p8, cb_tca8,
  cb_g16, cb_ga16, cb_tc16, cb_tca16, Error,
}

-- `for x2 := 0; x2 < n && x+x2 < width; x2++`: the top bits of b, which then moves left; `left` is
-- width - x.
unfoldable pub top_bits : ℕ → ℕ → ℕ → ℕ → Bytes
top_bits bits zero left b = []
top_bits bits (suc n) zero b = []
top_bits bits (suc n) (suc left) b =
    b / 2 ^ (8 - bits) ∷ top_bits bits n left (b * 2 ^ bits % 2 ^ 8)

-- `for x := 0; x < width; x += n`, with n pixels in a byte.
unfoldable pub unpack : ℕ → ℕ → ℕ → Bytes → Bytes
unpack bits n left [] = []
unpack bits n left (b ∷ bs) = top_bits bits n left b ++ unpack bits n (left - n) bs

-- The color of d.transparent is see-through.
abbrev alpha_of : Bool → ℕ → ℕ
alpha_of hidden full = if hidden then 0 else full

-- Gray, and NRGBA if there is a transparent gray `t`: SetGray writes one byte, SetNRGBA four.
unfoldable pub gray_row : Option ℕ → Bytes → Bytes
gray_row t [] = []
gray_row none (y ∷ ys) = y ∷ gray_row none ys
gray_row (some t) (y ∷ ys) = y ∷ y ∷ y ∷ alpha_of (y == t) 0xff ∷ gray_row (some t) ys

-- The factor of the grays of fewer than 8 bits.
unfoldable pub scaled : ℕ → Bytes → Bytes
scaled n [] = []
scaled n (v ∷ vs) = (v * n % 2 ^ 8) ∷ scaled n vs

unfoldable pub gray_alpha_row : ℕ → Bytes → Bytes
gray_alpha_row (suc w) (y ∷ a ∷ cs) = y ∷ y ∷ y ∷ a ∷ gray_alpha_row w cs
gray_alpha_row _ _ = []

abbrev same_color : ℕ → ℕ → ℕ → Option (ℕ × ℕ × ℕ) → Bool
same_color r g b none = false
same_color r g b (some (tr, tg, tb)) = r == tr && g == tg && b == tb

unfoldable pub true_color_row : Option (ℕ × ℕ × ℕ) → ℕ → Bytes → Bytes
true_color_row t (suc w) (r ∷ g ∷ b ∷ cs) =
    r ∷ g ∷ b ∷ alpha_of (same_color r g b t) 0xff ∷ true_color_row t w cs
true_color_row _ _ _ = []

-- SetGray16 writes the high and the low byte, SetNRGBA64 those of the four channels.
unfoldable pub gray16_row : Option ℕ → ℕ → Bytes → Bytes
gray16_row none (suc w) (h ∷ l ∷ cs) = put_uint16 (uint16 h l) ++ gray16_row none w cs
gray16_row (some t) (suc w) (h ∷ l ∷ cs) =
    let y = put_uint16 (uint16 h l) in
    y ++ (y ++ (y ++ (put_uint16 (alpha_of (uint16 h l == t) 0xffff) ++ gray16_row (some t) w cs)))
gray16_row _ _ _ = []

unfoldable pub gray_alpha16_row : ℕ → Bytes → Bytes
gray_alpha16_row (suc w) (h ∷ l ∷ ah ∷ al ∷ cs) =
    let y = put_uint16 (uint16 h l) in
    y ++ (y ++ (y ++ (put_uint16 (uint16 ah al) ++ gray_alpha16_row w cs)))
gray_alpha16_row _ _ = []

unfoldable pub true_color16_row : Option (ℕ × ℕ × ℕ) → ℕ → Bytes → Bytes
true_color16_row t (suc w) (rh ∷ rl ∷ gh ∷ gl ∷ bh ∷ bl ∷ cs) =
    let r = uint16 rh rl in
    let g = uint16 gh gl in
    let b = uint16 bh bl in
    put_uint16 r
    ++ (put_uint16 g
        ++ (put_uint16 b
            ++ (put_uint16 (alpha_of (same_color r g b t) 0xffff) ++ true_color16_row t w cs)))
true_color16_row _ _ _ = []

unfoldable pub true_color_alpha16_row : ℕ → Bytes → Bytes
true_color_alpha16_row (suc w) (rh ∷ rl ∷ gh ∷ gl ∷ bh ∷ bl ∷ ah ∷ al ∷ cs) =
    put_uint16 (uint16 rh rl)
    ++ (put_uint16 (uint16 gh gl)
        ++ (put_uint16 (uint16 bh bl)
            ++ (put_uint16 (uint16 ah al) ++ true_color_alpha16_row w cs)))
true_color_alpha16_row _ _ = []

-- d.transparent, if d.useTransparent: its second byte, its first word, and the same for colors.
pub record Transparent : Type 0 where
  pub gray8 : Option ℕ
  pub gray16 : Option ℕ
  pub color8 : Option (ℕ × ℕ × ℕ)
  pub color16 : Option (ℕ × ℕ × ℕ)

unfoldable pub transparent_of : Bool → Bytes → Transparent
transparent_of true (a ∷ b ∷ c ∷ d ∷ e ∷ f ∷ _) = record {
  gray8 = some b;
  gray16 = some (uint16 a b);
  color8 = some (b, d, f);
  color16 = some (uint16 a b, uint16 c d, uint16 e f);
}
transparent_of _ _ = record { gray8 = none; gray16 = none; color8 = none; color16 = none }

-- The bytes of the pixels of a row, for the modes without a palette; of the paletted ones, the
-- indices.
unfoldable pub row_pixels : Transparent → Mode → ℕ → Bytes → Bytes
row_pixels t cb_g1 w cs = gray_row t.gray8 (scaled 0xff (unpack 1 8 w cs))
row_pixels t cb_g2 w cs = gray_row t.gray8 (scaled 0x55 (unpack 2 4 w cs))
row_pixels t cb_g4 w cs = gray_row t.gray8 (scaled 0x11 (unpack 4 2 w cs))
row_pixels t cb_g8 w cs = gray_row t.gray8 cs
row_pixels t cb_ga8 w cs = gray_alpha_row w cs
row_pixels t cb_tc8 w cs = true_color_row t.color8 w cs
row_pixels t cb_p1 w cs = unpack 1 8 w cs
row_pixels t cb_p2 w cs = unpack 2 4 w cs
row_pixels t cb_p4 w cs = unpack 4 2 w cs
row_pixels t cb_p8 w cs = cs
row_pixels t cb_tca8 w cs = cs
row_pixels t cb_g16 w cs = gray16_row t.gray16 w cs
row_pixels t cb_ga16 w cs = gray_alpha16_row w cs
row_pixels t cb_tc16 w cs = true_color16_row t.color16 w cs
row_pixels t cb_tca16 w cs = true_color_alpha16_row w cs
row_pixels t cb_invalid w cs = []

-- `if len(Palette) <= idx { Palette = Palette[:idx+1] }` for each index; `room` is the capacity.
unfoldable pub cover : ℕ → ℕ → Bytes → Outcome Error ℕ
cover room len [] = ok len
cover room len (i ∷ is) =
    if leb len i
    then (if ltb room (i + 1) then panic else cover room (i + 1) is)
    else cover room len is

-- The palette's length after a row; for cbP8 it is left alone if it is 255.
unfoldable pub palette_after : Mode → ℕ → ℕ → Bytes → Outcome Error ℕ
palette_after cb_p1 room len is = cover room len is
palette_after cb_p2 room len is = cover room len is
palette_after cb_p4 room len is = cover room len is
palette_after cb_p8 room len is = if len == 255 then ok len else cover room len is
palette_after _ room len is = ok len
