-- ===== src/Png/NoPanic/Encode.antt =====
-- internal/png/writer.go, Encode: no panic on an *image.Gray16 whose lines lie in its Pix.
use srvfb.Base.{
  ℕ, zero, suc, ◌+◌, ◌-◌, ◌*◌, ◌^◌, ◌≤◌, ◌≡◌, inl, inr, Bool, ◌||◌, Option, none, List, [], arith,
  leb, ◌==◌, Option-cases, length,
}
use srvfb.Base.Bytes.{Bytes}
use srvfb.Base.Outcome.{ok, ◌>>=◌, slice-in_bounds}
use srvfb.Image.{dx, dy}
use srvfb.Png.Format.{cb_g16, Error, format_error}
use srvfb.Png.Encoder.{Encoder, write, write_ihdr, write_iend}
use srvfb.Png.Files.{png_header}
use srvfb.Png.Filter.{Rows}
use srvfb.Png.Picture.{Picture, gray16, convert, gray16_line}
use srvfb.Png.Writer.{write_rows, write_image, choose}
use srvfb.Png.Encode.{
  CompressionLevel, ZlibLevel, level_to_zlib, compresses, palette_of, chosen_mode, direct_mode,
  write_idats, encode_image,
}
use srvfb.Png.RoundTrip.Encoded.{source}
use srvfb.Png.Stages.{Holds, Holds-bind, Holds-reject}

module _ (m : Picture) (pix : Bytes) (stride : ℕ) (l : m.layout ≡ gray16 pix stride) where
  line-Holds :
      (y i : ℕ) (old : Bytes)
      → y ≡ m.bounds.min_y + i
      → (i + 1) * stride ≤ length pix
      → Holds (λ _. Unit {0}) (convert m cb_g16 y old)
  unfolding convert gray16_line
  line-Holds y i old e h =
      let at : y - m.bounds.min_y ≡ i = omega arith in
      let fits : i * stride + stride ≤ length pix = grind arith in
      rw
        (
          l,
          at,
          slice-in_bounds {E = Error} pix (i * stride) (i * stride + stride) (omega arith) fits,
        )
        tt

  write_rows-Holds :
      (compressed : Bool) (n y i : ℕ) (cr : Rows) (pdat : Bytes) (budget : ℕ)
      → y ≡ m.bounds.min_y + i
      → (i + n) * stride ≤ length pix
      → Holds (λ _. Unit {0}) (write_rows m cb_g16 compressed n y cr pdat budget)
  unfolding write_rows
  write_rows-Holds compressed zero y i cr pdat budget e h = tt
  write_rows-Holds compressed (suc n) y i cr pdat zero e h =
      let first : (i + 1) * stride ≤ length pix = grind arith in
      Holds-bind (λ _. Unit {0}) (λ _. Unit {0}) (convert m cb_g16 y cr.none_row) _
        (line-Holds y i cr.none_row e first) (λ cdat _. tt)
  write_rows-Holds compressed (suc n) y i cr pdat (suc budget) e h =
      let first : (i + 1) * stride ≤ length pix = grind arith in
      let others : (i + 1 + n) * stride ≤ length pix = grind arith in
      Holds-bind (λ _. Unit {0}) (λ _. Unit {0}) (convert m cb_g16 y cr.none_row) _
        (line-Holds y i cr.none_row e first)
        (λ cdat _.
          let cr' = (choose cb_g16 compressed (record cr { none_row = cdat }) pdat).1 in
          Holds-bind (λ _. Unit {0}) (λ _. Unit {0})
            (write_rows m cb_g16 compressed n (y + 1) (record cr' { none_row = pdat }) cdat budget)
            _
            (write_rows-Holds compressed n (y + 1) (i + 1) (record cr' { none_row = pdat }) cdat
              budget (omega arith) others)
            (λ rest _. tt))

  module _ (crc : Bytes → ℕ) (blocks : ZlibLevel → Bytes → List Bytes)
      (inside : dy m.bounds * stride ≤ length pix) where
    write_image-Holds :
        (compressed : Bool) (kept : Rows) (budget : ℕ)
        → Holds (λ _. Unit {0}) (write_image m cb_g16 compressed kept budget)
    unfolding write_image
    write_image-Holds compressed kept budget =
        write_rows-Holds compressed (dy m.bounds) m.bounds.min_y 0 _ _ budget (omega arith)
          (let e : 0 + dy m.bounds ≡ dy m.bounds = omega arith in rw e inside)

    write_idats-Holds :
        (level : CompressionLevel) (kept : Rows) (e : Encoder)
        → Holds (λ _. Unit {0}) (write_idats crc blocks m cb_g16 level kept e)
    unfolding write_idats
    write_idats-Holds level kept e = elim (Option-cases e.error) [
      | inl q ↦ rw q (
          Holds-bind (λ _. Unit {0}) (λ _. Unit {0})
            (write_image m cb_g16 (compresses (level_to_zlib level)) kept (dy m.bounds)) _
            (write_image-Holds (compresses (level_to_zlib level)) kept (dy m.bounds))
            (λ rows _. tt))
      | inr (x, q) ↦ rw q tt
    ]

    -- Encode does not panic.
    pub encode_image-Holds :
        (o : Option Bool) (level : CompressionLevel) (kept : Rows) (tmp : ℕ × ℕ) (budget : ℕ)
        → Holds (λ _. Unit {0}) (encode_image crc blocks (source m o) level kept tmp budget)
    unfolding encode_image chosen_mode palette_of direct_mode
    encode_image-Holds o level kept tmp budget =
        let r = m.bounds in
        let e : Encoder = record { out = []; budget = budget; error = none; tmp = tmp } in
        let e' = write_ihdr crc r cb_g16 (write png_header e) in
        let idats = write_idats crc blocks m cb_g16 level kept e' in
        Holds-reject (λ _. Unit {0})
          (dx r == 0 || dy r == 0 || leb (2 ^ 32) (dx r) || leb (2 ^ 32) (dy r)) format_error
          (idats >>= λ e''. ok (write_iend crc e'')) tt
          (λ _.
            Holds-bind (λ _. Unit {0}) (λ _. Unit {0}) idats (λ e''. ok (write_iend crc e''))
              (write_idats-Holds level kept e') (λ e'' _. tt))
