-- ===== src/Png/Interlace.antt =====
-- internal/png/reader.go, mergePassInto and the part of decode that reads the passes.
pub mod Cells
pub mod Line
pub mod Merge
pub mod Into
pub mod Pixels
pub mod Shapes
pub mod Passes
mod Tests
use srvfb.Base.{
  ℕ, zero, suc, ◌+◌, ◌-◌, ◌*◌, ◌/◌, ◌%◌, ◌^◌, ◌≤◌, ◌<◌, min, bit_and, bit_or, bit_xor, ◌≡◌, refl,
  sym, ap, ap₂, ◌∙◌, ◌≡⟨◌⟩◌, ◌∎, ◌≢◌, ◌↔◌, ◌⊎◌, inl, inr, Bool, true, false, not, ◌&&◌, ◌||◌,
  Option, none, some, List, [], ◌∷◌, ◌++◌, map, append-nil, append_assoc, arith, ltb, leb, ◌==◌,
  if◌then◌else◌, ltb→lt, lt→ltb, leb→le, le→leb, ==_iff, tests, Bool-cases, Option-cases, length,
  get_elem?, set, length-append, length-set, get_elem?-set_self, get_elem?-set_ne, get_or, take,
  drop, replicate, take-append-drop, length-take, length-drop, length-replicate, length-map,
}
use srvfb.Base.Bytes.{Bytes}
use srvfb.Base.Outcome.{Outcome, ok, err, panic, ◌>>=◌}
use srvfb.Png.Format.{Mode, Error, format_error}
use srvfb.Png.Decoder.{Decoder}
use srvfb.Png.Canvas.{Canvas, pixel_size, stride_of}
use srvfb.Png.Pass.{put, Scan, interlacing, allocate, read_size, read_pass}

-- The loop over x, with n pixels to go: `copy(dstPix[d:], srcPix[s:s+bytesPerPixel])`. The source
-- begins at s.
unfoldable pub merge_line : ℕ → ℕ → ℕ → ℕ → ℕ → Bytes → Bytes → Bytes × Bytes
merge_line size factor base zero x src dst = (src, dst)
merge_line size factor base (suc n) x src dst =
    merge_line size factor base n (x + 1) (drop size src)
      (put dst (base + x * factor * size) (take size src))

-- The loop over y; both rectangles begin at the origin.
unfoldable pub merge_lines : Scan → ℕ → ℕ → ℕ → ℕ → ℕ → Bytes → Bytes → Bytes
merge_lines p size stride width zero y src dst = dst
merge_lines p size stride width (suc n) y src dst =
    let base = (y * p.y_factor + p.y_offset) * stride + p.x_offset * size in
    let (src', dst') = merge_line size p.x_factor base width 0 src dst in
    merge_lines p size stride width n (y + 1) src' dst'

-- mergePassInto(dst, src, pass); both are of one type.
unfoldable pub merge_pass_into : Canvas → Canvas → Scan → Canvas
merge_pass_into dst src p = record dst {
  pix = merge_lines p (pixel_size dst.kind) (stride_of dst) src.width src.height 0 src.pix dst.pix;
}

unfoldable pub merge_some : Canvas → Option Canvas → Scan → Canvas
merge_some dst none p = dst
merge_some dst (some src) p = merge_pass_into dst src p

-- `for pass := 0; pass < 7; pass++`
unfoldable pub read_passes : Decoder → List Scan → Canvas → Bytes → Outcome Error (Canvas × Bytes)
read_passes d [] img r = ok (img, r)
read_passes d (p ∷ ps) img r =
    read_pass d p r >>= λ (pass, rest). read_passes d ps (merge_some img pass p) rest

-- The image that decode makes of the decompressed data; there must be no more of it. An interlace
-- method that parseIHDR does not let through leaves the image nil.
unfoldable pub read_interlaced : Decoder → Bytes → Outcome Error (Option Canvas × Bytes)
read_interlaced d r = read_passes d interlacing (allocate d) r >>= λ (im, rest). ok (some im, rest)

unfoldable pub read_image : Decoder → Bytes → Outcome Error (Option Canvas)
read_image d r =
    (if d.interlace == 0
      then read_size d d.width d.height r
      else if d.interlace == 1
      then read_interlaced d r
      else ok (none, r))
    >>= λ (im, rest). if length rest == 0 then ok im else err format_error
