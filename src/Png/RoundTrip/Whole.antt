-- ===== src/Png/RoundTrip/Whole.antt =====
-- internal/png: a whole picture that writeImage writes is what readImagePass draws.
use srvfb.Base.{
  ℕ, zero, suc, ◌+◌, ◌-◌, ◌/◌, ◌≤◌, ◌<◌, ◌≡◌, refl, ◌∙◌, inl, inr, Bool, true, Option, some, List,
  ◌++◌, arith, ltb, Bool-cases, length, replicate, length-take, length-replicate,
}
use srvfb.Base.Bytes.{Bytes}
use srvfb.Base.Outcome.{Outcome, ok, err, panic, ◌>>=◌}
use srvfb.Image.{dx, dy}
use srvfb.Png.Format.{Mode, Error}
use srvfb.Png.Filter.{Rows}
use srvfb.Png.Filter.RoundTrip.{AllBytes}
use srvfb.Png.Decoder.{Decoder}
use srvfb.Png.Raster.{transparent_of}
use srvfb.Png.Canvas.{Canvas, new_canvas}
use srvfb.Png.Pass.{image_type, bits_per_pixel, read_size}
use srvfb.Png.Picture.{Picture}
use srvfb.Png.Writer.{written_bits, filters, row_bytes, sized, write_image}
use srvfb.Png.RoundTrip.Rows.{draw, Converts, with_rest, rows_round_trip}

pub AllBytes-replicate : (n : ℕ) → AllBytes (replicate n 0)
AllBytes-replicate zero = tt
AllBytes-replicate (suc n) = (omega arith, AllBytes-replicate n)

pub length-sized : (n : ℕ) (old : Bytes) → length (sized n old) ≡ n
unfolding sized
length-sized n old = elim (Bool-cases (ltb (length old) n)) [
  | inl e ↦ rw e (length-replicate n zero)
  | inr e ↦ rw e (length-take n old ∙ ground arith)
]

-- What read_size makes of the rows.
abbrev pub drawn : Decoder → Mode → ℕ → ℕ → List Bytes → Outcome Error Canvas
drawn d cb w h css =
    draw (transparent_of d.use_transparent d.transparent) cb (length d.palette) css 0
      (new_canvas (image_type cb d.use_transparent) w h d.palette_len)

abbrev pub with_some : Bytes → Canvas → Outcome Error (Option Canvas × Bytes)
with_some rest im = ok (some im, rest)

some_rest :
    (rest : Bytes) (m : Outcome Error Canvas)
    → ((m >>= with_rest rest) >>= λ (im, r). ok (some im, r)) ≡ (m >>= with_some rest)
some_rest rest (ok im) = refl
some_rest rest (err e) = refl
some_rest rest panic = refl

module _ (m : Picture) (cb : Mode) (compressed : Bool) (css : List Bytes)
    (count : length css ≡ dy m.bounds)
    (converts : Converts m cb (row_bytes cb (dx m.bounds)) m.bounds.min_y css)
    (pixel : filters cb compressed ≡ true
      → (0 < written_bits cb / 8)
        × (written_bits cb / 8 ≤ row_bytes cb (dx m.bounds))
        × ((written_bits cb + 7) / 8 ≡ written_bits cb / 8)) where
  -- A decoder with the mode of the encoder undoes all filters.
  pub picture_round_trip :
      (kept : Rows) (budget : ℕ)
      → dy m.bounds ≤ budget
      → (stream : Bytes) × (write_image m cb compressed kept budget ≡ ok stream)
        × ((d : Decoder) (rest : Bytes)
            → d.cb ≡ cb
            → bits_per_pixel cb d.depth ≡ written_bits cb
            → read_size d (dx m.bounds) (dy m.bounds) (stream ++ rest)
              ≡ (drawn d cb (dx m.bounds) (dy m.bounds) css >>= with_some rest))
  unfolding write_image read_size
  picture_round_trip kept budget b =
      let n = row_bytes cb (dx m.bounds) in
      let before : 1 + n - 1 ≡ n = omega arith in
      let cr : Rows = record {
        none_row = sized n kept.none_row;
        sub_row = sized n kept.sub_row;
        up_row = sized n kept.up_row;
        average_row = sized n kept.average_row;
        paeth_row = sized n kept.paeth_row;
      } in
      let (stream, written, read) =
        rows_round_trip m cb compressed ((written_bits cb + 7) / 8) n pixel css (dy m.bounds)
          m.bounds.min_y cr (replicate n 0) budget count converts
          (record {
            sub_fits = length-sized n kept.sub_row;
            average_fits = length-sized n kept.average_row;
            paeth_fits = length-sized n kept.paeth_row;
          })
          (length-sized n kept.none_row) (length-replicate n zero) (AllBytes-replicate n) b in
      (stream, written, λ d rest c e. rw (c, e, before) (rw (read _ _ 0 _ rest) (some_rest rest _)))
