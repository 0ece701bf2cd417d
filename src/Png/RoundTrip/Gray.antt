-- ===== src/Png/RoundTrip/Gray.antt =====
-- internal/png: the frames of the program, which are *image.Gray16, through the encoder and back.
use srvfb.Base.{
  ℕ, zero, suc, ◌+◌, ◌-◌, ◌*◌, ◌/◌, ◌%◌, ◌^◌, ◌≤◌, ◌<◌, ◌≡◌, refl, ap, ap₂, ◌∙◌, Bool, false, none,
  some, List, [], ◌∷◌, ◌++◌, map, arith, length, take, drop, length-take, length-drop,
}
use srvfb.Base.Bytes.{Bytes, uint16, put_uint16, copy}
use srvfb.Base.Outcome.{ok, slice-in_bounds}
use srvfb.Image.{dx, dy}
use srvfb.Png.Format.{cb_g16, Error}
use srvfb.Png.Filter.{Rows}
use srvfb.Png.Filter.RoundTrip.{AllBytes, AllBytes-take, AllBytes-drop}
use srvfb.Png.Decoder.{Decoder}
use srvfb.Png.Raster.{Transparent, transparent_of, gray16_row, row_pixels, palette_after}
use srvfb.Png.Canvas.{gray16_image, new_canvas}
use srvfb.Png.Pass.{image_type, bits_per_pixel, read_size}
use srvfb.Png.Picture.{Picture, gray16, gray16_line, convert}
use srvfb.Png.Writer.{written_bits, row_bytes, write_image}
use srvfb.Png.RoundTrip.Rows.{Converts}
use srvfb.Png.RoundTrip.Whole.{drawn, picture_round_trip}
use srvfb.Png.RoundTrip.Draw.{flatten, AllLong, AllCovered, draw-new}

-- The lines from i on, as far as the picture is wide.
abbrev pub lines : Bytes → ℕ → ℕ → ℕ → ℕ → List Bytes
lines pix stride size i zero = []
lines pix stride size i (suc n) =
    take size (drop (i * stride) pix) ∷ lines pix stride size (i + 1) n

length-lines : (pix : Bytes) (stride size i n : ℕ) → length (lines pix stride size i n) ≡ n
length-lines pix stride size i zero = refl
length-lines pix stride size i (suc n) = ap suc (length-lines pix stride size (i + 1) n)

-- Big-endian pixels are the bytes that they were.
gray16_row-bytes :
    (w : ℕ) (cs : Bytes) → length cs ≡ 2 * w → AllBytes cs → gray16_row none w cs ≡ cs
unfolding gray16_row
gray16_row-bytes zero [] h b = refl
gray16_row-bytes zero (x ∷ cs) h b = absurd (omega arith)
gray16_row-bytes (suc w) [] h b = absurd (omega arith)
gray16_row-bytes (suc w) (x ∷ []) h b = absurd (omega arith)
gray16_row-bytes (suc w) (x ∷ y ∷ cs) h (bx, (by_, bs)) =
    ap₂ (λ a c. a ++ c) (two x y bx by_) (gray16_row-bytes w cs (omega arith) bs)
  where
    two : (x y : ℕ) → x < 2 ^ 8 → y < 2 ^ 8 → put_uint16 (uint16 x y) ≡ x ∷ y ∷ []
    two x y p q =
        let h : (x * 2 ^ 8 + y) / 2 ^ 8 % 2 ^ 8 ≡ x = omega arith in
        let l : (x * 2 ^ 8 + y) % 2 ^ 8 ≡ y = omega arith in rw (h, l)

drop-nil : (n : ℕ) → drop {A = ℕ} n [] ≡ []
drop-nil zero = refl
drop-nil (suc n) = refl

-- The first bytes of a longer line.
copy-longer : (old b : Bytes) → length old ≤ length b → copy old b ≡ take (length old) b
copy-longer [] b h = drop-nil (length b)
copy-longer (x ∷ old) [] h = absurd (omega arith)
copy-longer (x ∷ old) (y ∷ b) h = ap (◌∷◌ y) (copy-longer old b (omega arith))

take-take : (n k : ℕ) (xs : Bytes) → n ≤ k → take n (take k xs) ≡ take n xs
take-take zero k xs h = refl
take-take (suc n) zero xs h = absurd (omega arith)
take-take (suc n) (suc k) [] h = refl
take-take (suc n) (suc k) (x ∷ xs) h = ap (◌∷◌ x) (take-take n k xs (omega arith))

-- No palette is needed.
uncovered : (t : Transparent) (room len : ℕ) (rows : List Bytes) → AllCovered t cb_g16 room len rows
unfolding palette_after
uncovered t room len [] = tt
uncovered t room len (row ∷ rows) = (refl, uncovered t room len rows)

-- A picture of type *image.Gray16 whose lines lie in its Pix.
pub record IsGray16 (m : Picture) (pix : Bytes) (stride : ℕ) : Type 0 where
  pub layout_eq : m.layout ≡ gray16 pix stride
  pub columns : 0 < dx m.bounds
  pub wide : 2 * dx m.bounds ≤ stride
  pub inside : dy m.bounds * stride ≤ length pix
  pub bytes : AllBytes pix

module _ (m : Picture) (pix : Bytes) (stride : ℕ) (g : IsGray16 m pix stride) where
  abbrev w : ℕ
  w = dx m.bounds

  gray16-convert :
      (i : ℕ) (old : Bytes)
      → (i + 1) * stride ≤ length pix
      → length old ≡ 2 * w
      → convert m cb_g16 (m.bounds.min_y + i) old ≡ ok (take (2 * w) (drop (i * stride) pix))
  unfolding convert gray16_line
  gray16-convert i old h l =
      let at : m.bounds.min_y + i - m.bounds.min_y ≡ i = omega arith in
      let fits : i * stride + stride ≤ length pix = grind arith in
      let size : i * stride + stride - i * stride ≡ stride = omega arith in
      let b = take stride (drop (i * stride) pix) in
      let longer : length old ≤ length b =
        omega (
          arith,
          g.wide,
          length-take stride (drop (i * stride) pix),
          length-drop (i * stride) pix,
        ) in
      rw (
        g.layout_eq,
        at,
        slice-in_bounds {E = Error} pix (i * stride) (i * stride + stride) (omega arith) fits,
        size,
        copy-longer old b longer,
        l,
        take-take (2 * w) stride (drop (i * stride) pix) g.wide,
      )

  -- The lines are what writeImage converts them to, and what readImagePass draws.
  gray16-Converts :
      (n i : ℕ)
      → (i + n) * stride ≤ length pix
      → Converts m cb_g16 (2 * w) (m.bounds.min_y + i) (lines pix stride (2 * w) i n)
  gray16-Converts zero i h = tt
  gray16-Converts (suc n) i h =
      let inside : (i + 1) * stride ≤ length pix = grind arith in
      let line = drop (i * stride) pix in
      let start : i * stride + stride ≤ length pix = grind arith in
      let further : m.bounds.min_y + i + 1 ≡ m.bounds.min_y + (i + 1) = omega arith in
      (
        λ old l. gray16-convert i old inside l,
        omega (arith, g.wide, length-take (2 * w) line, length-drop (i * stride) pix),
        AllBytes-take (2 * w) _ (AllBytes-drop (i * stride) pix g.bytes),
        rw further (gray16-Converts n (i + 1) (grind arith)),
      )

  gray16-pixels :
      (t : Transparent) (n i : ℕ)
      → t.gray16 ≡ none
      → (i + n) * stride ≤ length pix
      → map (row_pixels t cb_g16 w) (lines pix stride (2 * w) i n) ≡ lines pix stride (2 * w) i n
  unfolding row_pixels
  gray16-pixels t zero i e h = refl
  gray16-pixels t (suc n) i e h =
      let line = drop (i * stride) pix in
      let start : i * stride + stride ≤ length pix = grind arith in
      let size : length (take (2 * w) line) ≡ 2 * w =
        omega (arith, g.wide, length-take (2 * w) line, length-drop (i * stride) pix) in
      rw e (
        ap₂ ◌∷◌
          (gray16_row-bytes w (take (2 * w) line) size
            (AllBytes-take (2 * w) line (AllBytes-drop (i * stride) pix g.bytes)))
          (gray16-pixels t n (i + 1) e (grind arith)))

  gray16-AllLong :
      (n i : ℕ) → (i + n) * stride ≤ length pix → AllLong (w * 2) (lines pix stride (2 * w) i n)
  gray16-AllLong zero i h = tt
  gray16-AllLong (suc n) i h =
      let line = drop (i * stride) pix in
      let start : i * stride + stride ≤ length pix = grind arith in
      (
        omega (arith, g.wide, length-take (2 * w) line, length-drop (i * stride) pix),
        gray16-AllLong n (i + 1) (grind arith),
      )

  -- The lines of the picture.
  abbrev pub picture_lines : List Bytes
  picture_lines = lines pix stride (2 * w) 0 (dy m.bounds)

  gray16-drawn :
      (d : Decoder)
      → d.use_transparent ≡ false
      → drawn d cb_g16 w (dy m.bounds) picture_lines
        ≡ ok (record {
          kind = gray16_image;
          width = w;
          height = dy m.bounds;
          pix = flatten picture_lines;
          palette_len = d.palette_len;
        })
  unfolding image_type transparent_of palette_after
  gray16-drawn d t =
      let all : (0 + dy m.bounds) * stride ≤ length pix = let i = g.inside in grind arith in
      let count = length-lines pix stride (2 * w) 0 (dy m.bounds) in
      let clear = transparent_of false d.transparent in
      let pixels = gray16-pixels clear (dy m.bounds) 0 refl all in
      let im = new_canvas gray16_image w (dy m.bounds) d.palette_len in
      rw t (
        draw-new clear cb_g16 (length d.palette) picture_lines im
          (rw pixels (gray16-AllLong (dy m.bounds) 0 all)) (uncovered clear (length d.palette) _ _)
          (rw count refl)
        ∙ ap (λ p. ok (record im { pix = flatten p })) pixels)

  -- A picture of type *image.Gray16 with at least one column, whose lines lie in its Pix: with or
  -- without compression, whatever the encoder's buffers held before, and with a zlib writer that
  -- takes a write for each line, writeImage succeeds; and readImagePass, for a decoder that has read
  -- the picture's size and mode and no transparent color, makes of what the zlib writer was given an
  -- *image.Gray16 of that size, whose pixels are those of the picture, and reads no further.
  pub read_size-write_image :
      (compressed : Bool) (kept : Rows) (budget : ℕ) (d : Decoder) (rest : Bytes)
      → dy m.bounds ≤ budget
      → d.cb ≡ cb_g16
      → d.use_transparent ≡ false
      → (stream : Bytes) × (write_image m cb_g16 compressed kept budget ≡ ok stream)
        × (read_size d w (dy m.bounds) (stream ++ rest)
            ≡ ok (
              some (record {
                kind = gray16_image;
                width = w;
                height = dy m.bounds;
                pix = flatten picture_lines;
                palette_len = d.palette_len;
              }),
              rest,
            ))
  unfolding written_bits bits_per_pixel
  read_size-write_image compressed kept budget d rest b c t =
      let origin : m.bounds.min_y + 0 ≡ m.bounds.min_y = omega arith in
      let size : row_bytes cb_g16 w ≡ 2 * w = omega arith in
      let all : (0 + dy m.bounds) * stride ≤ length pix = let i = g.inside in grind arith in
      let (stream, written, read) =
        picture_round_trip m cb_g16 compressed picture_lines
          (length-lines pix stride (2 * w) 0 (dy m.bounds))
          (rw size (rw origin at (gray16-Converts (dy m.bounds) 0 all)))
          (λ e. (omega arith, omega (arith, g.columns), refl)) kept budget b in
      (stream, written, read d rest c refl ∙ rw (gray16-drawn d t))
