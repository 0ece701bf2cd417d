-- ===== src/Png/RoundTrip/Indexed.antt =====
-- internal/png: pictures with a palette of at most 16 colors through the encoder and back.
use srvfb.Base.{
  ℕ, zero, suc, ◌+◌, ◌-◌, ◌*◌, ◌/◌, ◌≤◌, ◌<◌, ◌≡◌, refl, sym, ap, ap₂, ◌∙◌, Bool, true, false, ◌&&◌,
  some, List, [], ◌∷◌, ◌++◌, map, arith, leb, length,
}
use srvfb.Base.Bytes.{Bytes}
use srvfb.Base.Outcome.{ok}
use srvfb.Image.{dx, dy}
use srvfb.Png.Format.{Mode, cb_p1, cb_p2, cb_p4}
use srvfb.Png.Filter.{Rows}
use srvfb.Png.Filter.RoundTrip.{AllBytes}
use srvfb.Png.Decoder.{Decoder}
use srvfb.Png.Raster.{Transparent, transparent_of, unpack, row_pixels, cover, palette_after}
use srvfb.Png.Canvas.{paletted_image, new_canvas}
use srvfb.Png.Pass.{image_type, bits_per_pixel, read_size}
use srvfb.Png.Picture.{Picture, each_x, indices, pack, convert}
use srvfb.Png.Writer.{written_bits, filters, row_bytes, write_image}
use srvfb.Png.RoundTrip.Rows.{Converts}
use srvfb.Png.RoundTrip.Draw.{flatten, AllLong, AllCovered, draw-new}
use srvfb.Png.RoundTrip.Whole.{drawn, picture_round_trip}
use srvfb.Png.RoundTrip.Packing.{IsPacking, AllBelow}
use srvfb.Png.RoundTrip.Packing.Size.{unpack-pack}
use srvfb.Png.RoundTrip.Packing.Table.{one_bit, two_bits, four_bits}

-- A mode that packs n pixels of some bits into a byte.
pub record IsPacked (cb : Mode) (bits n B T : ℕ) : Type 0 where
  pub packing : IsPacking bits n B T
  pub converts_eq :
      (m : Picture) (y : ℕ) (old : Bytes) → convert m cb y old ≡ ok (pack bits n (indices m y) 0 0)
  pub pixels_eq : (t : Transparent) (w : ℕ) (cs : Bytes) → row_pixels t cb w cs ≡ unpack bits n w cs
  pub cover_eq : (room len : ℕ) (is : Bytes) → palette_after cb room len is ≡ cover room len is
  pub size_eq : (w : ℕ) → row_bytes cb w ≡ (w + (n - 1)) / n
  pub unfiltered : (compressed : Bool) → filters cb compressed ≡ false
  pub type_eq : (t : Bool) → image_type cb t ≡ paletted_image
  pub bits_eq : (depth : ℕ) → depth ≡ bits → bits_per_pixel cb depth ≡ written_bits cb

dropped : (c : Bool) → (c && false) ≡ false
dropped true = refl
dropped false = refl

pub cb_p1-IsPacked : IsPacked cb_p1 1 8 2 128
unfolding convert row_pixels palette_after written_bits image_type bits_per_pixel
cb_p1-IsPacked = record {
  packing = one_bit;
  converts_eq = λ m y old. refl;
  pixels_eq = λ t w cs. refl;
  cover_eq = λ room len is. refl;
  size_eq = λ w. omega arith;
  unfiltered = λ c. dropped c;
  type_eq = λ t. refl;
  bits_eq = λ depth e. e;
}

pub cb_p2-IsPacked : IsPacked cb_p2 2 4 4 64
unfolding convert row_pixels palette_after written_bits image_type bits_per_pixel
cb_p2-IsPacked = record {
  packing = two_bits;
  converts_eq = λ m y old. refl;
  pixels_eq = λ t w cs. refl;
  cover_eq = λ room len is. refl;
  size_eq = λ w. omega arith;
  unfiltered = λ c. dropped c;
  type_eq = λ t. refl;
  bits_eq = λ depth e. e;
}

pub cb_p4-IsPacked : IsPacked cb_p4 4 2 16 16
unfolding convert row_pixels palette_after written_bits image_type bits_per_pixel
cb_p4-IsPacked = record {
  packing = four_bits;
  converts_eq = λ m y old. refl;
  pixels_eq = λ t w cs. refl;
  cover_eq = λ room len is. refl;
  size_eq = λ w. omega arith;
  unfiltered = λ c. dropped c;
  type_eq = λ t. refl;
  bits_eq = λ depth e. e;
}

-- A palette that has all the colors stays as it is.
cover-enough : (room len : ℕ) (is : Bytes) → AllBelow len is → cover room len is ≡ ok len
unfolding cover
cover-enough room len [] h = refl
cover-enough room len (i ∷ is) (l, h) =
    let e : leb len i ≡ false = ground arith in rw (e, cover-enough room len is h)

length-each_one : (f : ℕ → ℕ) (n x : ℕ) → length (each_x (λ x. f x ∷ []) n x) ≡ n
unfolding each_x
length-each_one f zero x = refl
length-each_one f (suc n) x = ap suc (length-each_one f n (x + 1))

AllBelow-each_one :
    (f : ℕ → ℕ) (B n x : ℕ) → ((x : ℕ) → f x < B) → AllBelow B (each_x (λ x. f x ∷ []) n x)
unfolding each_x
AllBelow-each_one f B zero x h = tt
AllBelow-each_one f B (suc n) x h = (h x, AllBelow-each_one f B n (x + 1) h)

-- The indices of the lines from y on.
abbrev pub index_lines : Picture → ℕ → ℕ → List Bytes
index_lines m y zero = []
index_lines m y (suc n) = indices m y ∷ index_lines m (y + 1) n

abbrev packed_lines : ℕ → ℕ → List Bytes → List Bytes
packed_lines bits n [] = []
packed_lines bits n (l ∷ ls) = pack bits n l 0 0 ∷ packed_lines bits n ls

length-packed_lines :
    (bits n : ℕ) (m : Picture) (y k : ℕ) → length (packed_lines bits n (index_lines m y k)) ≡ k
length-packed_lines bits n m y zero = refl
length-packed_lines bits n m y (suc k) = ap suc (length-packed_lines bits n m (y + 1) k)

module _ (m : Picture) (cb : Mode) (bits n B T : ℕ) (p : IsPacked cb bits n B T)
    (small : (x y : ℕ) → m.index_at x y < B) where
  abbrev w : ℕ
  w = dx m.bounds

  length-indices : (y : ℕ) → length (indices m y) ≡ w
  unfolding indices
  length-indices y = length-each_one (λ x. m.index_at x y) w m.bounds.min_x

  line_round_trip :
      (y : ℕ)
      → (unpack bits n w (pack bits n (indices m y) 0 0) ≡ indices m y)
        × (length (pack bits n (indices m y) 0 0) ≡ row_bytes cb w)
        × AllBytes (pack bits n (indices m y) 0 0)
  unfolding indices
  line_round_trip y =
      let (back, size, bytes) =
        unpack-pack bits n B T p.packing (indices m y)
          (AllBelow-each_one (λ x. m.index_at x y) B w m.bounds.min_x (λ x. small x y)) in
      (rw (length-indices y) at back, (rw (length-indices y) at size) ∙ sym (p.size_eq w), bytes)

  indexed-Converts :
      (k y : ℕ) → Converts m cb (row_bytes cb w) y (packed_lines bits n (index_lines m y k))
  indexed-Converts zero y = tt
  indexed-Converts (suc k) y =
      let (back, size, bytes) = line_round_trip y in
      (λ old l. p.converts_eq m y old, size, bytes, indexed-Converts k (y + 1))

  indexed-pixels :
      (t : Transparent) (k y : ℕ)
      → map (row_pixels t cb w) (packed_lines bits n (index_lines m y k)) ≡ index_lines m y k
  indexed-pixels t zero y = refl
  indexed-pixels t (suc k) y =
      ap₂ ◌∷◌ (p.pixels_eq t w _ ∙ (line_round_trip y).0) (indexed-pixels t k (y + 1))

  indexed-AllLong : (k y : ℕ) → AllLong (w * 1) (index_lines m y k)
  indexed-AllLong zero y = tt
  indexed-AllLong (suc k) y = (length-indices y ∙ omega arith, indexed-AllLong k (y + 1))

  indexed-AllCovered :
      (t : Transparent) (room len : ℕ) (k y : ℕ)
      → ((x y : ℕ) → m.index_at x y < len)
      → AllCovered t cb room len (index_lines m y k)
  unfolding indices
  indexed-AllCovered t room len zero y h = tt
  indexed-AllCovered t room len (suc k) y h = (
    p.cover_eq room len _
        ∙ cover-enough room len _
            (AllBelow-each_one (λ x. m.index_at x y) len w m.bounds.min_x (λ x. h x y)),
    indexed-AllCovered t room len k (y + 1) h,
  )

  indexed-drawn :
      (d : Decoder)
      → ((x y : ℕ) → m.index_at x y < d.palette_len)
      → drawn d cb w
          (dy m.bounds)
          (packed_lines bits n (index_lines m m.bounds.min_y (dy m.bounds)))
        ≡ ok (record {
          kind = paletted_image;
          width = w;
          height = dy m.bounds;
          pix = flatten (index_lines m m.bounds.min_y (dy m.bounds));
          palette_len = d.palette_len;
        })
  indexed-drawn d h =
      let t = transparent_of d.use_transparent d.transparent in
      let y = m.bounds.min_y in
      let css = packed_lines bits n (index_lines m y (dy m.bounds)) in
      let im = new_canvas paletted_image w (dy m.bounds) d.palette_len in
      let pixels = indexed-pixels t (dy m.bounds) y in
      rw (p.type_eq d.use_transparent) (
        draw-new t cb (length d.palette) css im (rw pixels (indexed-AllLong (dy m.bounds) y))
          (rw pixels (indexed-AllCovered t (length d.palette) d.palette_len (dy m.bounds) y h))
          (rw (length-packed_lines bits n m y (dy m.bounds)) refl)
        ∙ ap (λ ls. ok (record im { pix = flatten ls })) pixels)

  -- A picture with a palette of at most 2, 4 or 16 colors, whose indices are within it: writeImage
  -- packs its pixels into 1, 2 or 4 bits and succeeds if the zlib writer takes a write for each
  -- line; and readImagePass, for a decoder that has read the picture's size, its mode and a palette
  -- with all its colors, makes of the data an *image.Paletted with the same indices, does not make
  -- the palette longer, and reads no further.
  pub read_size-write_indexed :
      (compressed : Bool) (kept : Rows) (budget : ℕ) (d : Decoder) (rest : Bytes)
      → dy m.bounds ≤ budget
      → d.cb ≡ cb
      → d.depth ≡ bits
      → ((x y : ℕ) → m.index_at x y < d.palette_len)
      → (stream : Bytes) × (write_image m cb compressed kept budget ≡ ok stream)
        × (read_size d w (dy m.bounds) (stream ++ rest)
            ≡ ok (
              some (record {
                kind = paletted_image;
                width = w;
                height = dy m.bounds;
                pix = flatten (index_lines m m.bounds.min_y (dy m.bounds));
                palette_len = d.palette_len;
              }),
              rest,
            ))
  read_size-write_indexed compressed kept budget d rest b c depth h =
      let (stream, written, read) =
        picture_round_trip m cb compressed
          (packed_lines bits n (index_lines m m.bounds.min_y (dy m.bounds)))
          (length-packed_lines bits n m m.bounds.min_y (dy m.bounds))
          (indexed-Converts (dy m.bounds) m.bounds.min_y)
          (λ e. absurd (cc (e, p.unfiltered compressed))) kept budget b in
      (stream, written, read d rest c (p.bits_eq d.depth depth) ∙ rw (indexed-drawn d h))
