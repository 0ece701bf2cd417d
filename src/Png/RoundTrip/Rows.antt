-- ===== src/Png/RoundTrip/Rows.antt =====
-- internal/png: the rows that writeImage writes are the ones that readImagePass converts.
use srvfb.Base.{
  ℕ, zero, suc, ◌+◌, ◌/◌, ◌≤◌, ◌<◌, ◌≡◌, refl, sym, ◌∙◌, Bool, true, List, [], ◌∷◌, ◌++◌,
  append_assoc, arith, length,
}
use srvfb.Base.Bytes.{Bytes}
use srvfb.Base.Outcome.{Outcome, ok, err, panic, ◌>>=◌}
use srvfb.Png.Format.{Mode, Error}
use srvfb.Png.Filter.{Rows, row_of}
use srvfb.Png.Filter.RoundTrip.{AllBytes}
use srvfb.Png.Raster.{Transparent, row_pixels, palette_after}
use srvfb.Png.Canvas.{Canvas, stride_of}
use srvfb.Png.Pass.{put, read_row, read_rows}
use srvfb.Png.Picture.{Picture, convert}
use srvfb.Png.Writer.{written_bits, type_byte, filters, choose, write_rows}
use srvfb.Png.RoundTrip.Row.{Fits, choose-Fits, read_row-choose}

-- What readImagePass makes of rows whose filters are undone.
unfoldable pub draw : Transparent → Mode → ℕ → List Bytes → ℕ → Canvas → Outcome Error Canvas
draw t cb room [] offset im = ok im
draw t cb room (c ∷ cs) offset im =
    let row = row_pixels t cb im.width c in
    palette_after cb room im.palette_len row >>= λ len.
    draw t cb room cs (offset + stride_of im)
      (record im { pix = put im.pix offset row; palette_len = len })

-- The lines of a picture from y on are converted to these rows of n bytes.
abbrev pub Converts : Picture → Mode → ℕ → ℕ → List Bytes → Type 0
Converts m cb n y [] = Unit {0}
Converts m cb n y (c ∷ cs) =
    ((old : Bytes) → length old ≡ n → convert m cb y old ≡ ok c)
    × (length c ≡ n)
    × AllBytes c
    × Converts m cb n (y + 1) cs

abbrev pub with_rest : Bytes → Canvas → Outcome Error (Canvas × Bytes)
with_rest rest im = ok (im, rest)

-- Two loops that go on in the same way.
bind-with :
    (m : Outcome Error ℕ) (f : ℕ → Outcome Error (Canvas × Bytes)) (g : ℕ → Outcome Error Canvas)
    (rest : Bytes)
    → ((len : ℕ) → f len ≡ (g len >>= with_rest rest))
    → (m >>= f) ≡ ((m >>= g) >>= with_rest rest)
bind-with (ok len) f g rest h = h len
bind-with (err e) f g rest h = refl
bind-with panic f g rest h = refl

-- The unfiltered row is no part of it.
refit : {n k : ℕ} {cr : Rows} {b : Bytes} → n ≡ k → Fits n cr → Fits k (record cr { none_row = b })
refit e f = record {
  sub_fits = f.sub_fits ∙ e;
  average_fits = f.average_fits ∙ e;
  paeth_fits = f.paeth_fits ∙ e;
}

module _ (m : Picture) (cb : Mode) (compressed : Bool) (bpp n : ℕ)
    (pixel : filters cb compressed ≡ true
      → (0 < written_bits cb / 8) × (written_bits cb / 8 ≤ n) × (bpp ≡ written_bits cb / 8)) where
  -- The decompressed data of the rows, and what the decoder does with it.
  pub write_rows-read_rows :
      (css : List Bytes) (y : ℕ) (cr : Rows) (ps : Bytes) (budget : ℕ)
      → Converts m cb n y css
      → Fits n cr
      → length cr.none_row ≡ n
      → length ps ≡ n
      → AllBytes ps
      → length css ≤ budget
      → (stream : Bytes) × (write_rows m cb compressed (length css) y cr ps budget ≡ ok stream)
        × ((t : Transparent) (room offset : ℕ) (im : Canvas) (rest : Bytes)
            → read_rows t cb room bpp (1 + n) (length css) offset ps (stream ++ rest) im
              ≡ (draw t cb room css offset im >>= with_rest rest))
  unfolding write_rows read_rows draw
  write_rows-read_rows [] y cr ps budget h f l p bp b = ([], refl, λ t room offset im rest. refl)
  write_rows-read_rows (c ∷ css) y cr ps zero h f l p bp b = absurd (omega arith)
  write_rows-read_rows (c ∷ css) y cr ps (suc budget) (conv, size, bc, more) f l p bp b =
      let filled : Rows = record cr { none_row = c } in
      let whole : filters cb compressed ≡ true
          → (0 < written_bits cb / 8) × (written_bits cb / 8 ≤ length c) =
        λ e. ((pixel e).0, omega (arith, (pixel e).1, size)) in
      let fits : Fits (length c) filled = refit (sym size) f in
      let kept : Fits n (choose cb compressed filled ps).1 =
        rw size at (choose-Fits cb compressed filled ps whole (omega arith) fits) in
      let (ft, cr') = choose cb compressed filled ps in
      let row_read : (r : Bytes)
          → read_row bpp (1 + n) ps (type_byte ft ∷ (row_of ft cr' ++ r)) ≡ ok (c, r) =
        λ r. rw size at (
          read_row-choose cb compressed filled ps whole (p ∙ sym size) fits bpp r (λ e. (pixel e).2)
            bc bp) in
      let (stream, written, read) =
        write_rows-read_rows css (y + 1) (record cr' { none_row = ps }) c budget more
          (refit refl kept) p size bc (omega arith) in
      (
        type_byte ft ∷ (row_of ft cr' ++ stream),
        rw (conv cr.none_row l, written),
        λ t room offset im rest. rw (append_assoc (row_of ft cr') stream rest) (
            rw (row_read (stream ++ rest)) (
              bind-with (palette_after cb room im.palette_len (row_pixels t cb im.width c)) _ _ rest
                (λ len. read t room _ _ rest))),
      )

  -- The same, for a number of rows that is known by an equation.
  pub rows_round_trip :
      (css : List Bytes) (k : ℕ) (y : ℕ) (cr : Rows) (ps : Bytes) (budget : ℕ)
      → length css ≡ k
      → Converts m cb n y css
      → Fits n cr
      → length cr.none_row ≡ n
      → length ps ≡ n
      → AllBytes ps
      → k ≤ budget
      → (stream : Bytes) × (write_rows m cb compressed k y cr ps budget ≡ ok stream)
        × ((t : Transparent) (room offset : ℕ) (im : Canvas) (rest : Bytes)
            → read_rows t cb room bpp (1 + n) k offset ps (stream ++ rest) im
              ≡ (draw t cb room css offset im >>= with_rest rest))
  rows_round_trip css k y cr ps budget e h f l p bp b =
      rw (← e) (write_rows-read_rows css y cr ps budget h f l p bp (rw e b))
