-- ===== src/Png/Decoder.antt =====
-- internal/png/reader.go, the decoder, its checksum, and the chunks that hold nothing for it.
pub mod Header
pub mod Palette
pub mod Chunk
use srvfb.Base.{
  ℕ, zero, suc, ◌+◌, ◌-◌, ◌*◌, ◌/◌, ◌%◌, ◌^◌, ◌≤◌, ◌<◌, min, bit_and, bit_or, bit_xor, ◌≡◌, refl,
  sym, ap, ap₂, ◌∙◌, ◌≡⟨◌⟩◌, ◌∎, ◌≢◌, ◌↔◌, ◌⊎◌, inl, inr, Bool, true, false, not, ◌&&◌, ◌||◌,
  Option, none, some, List, [], ◌∷◌, ◌++◌, map, append-nil, append_assoc, arith, ltb, leb, ◌==◌,
  if◌then◌else◌, ltb→lt, lt→ltb, leb→le, le→leb, ==_iff, tests, Bool-cases, Option-cases, length,
  get_elem?, set, length-append, length-set, get_elem?-set_self, get_elem?-set_ne, get_or, take,
  drop, replicate, take-append-drop, length-take, length-drop, length-replicate, length-map,
}
use srvfb.Base.Bytes.{Bytes, copy}
use srvfb.Base.Outcome.{Outcome, ok, err, panic, reject_if, ◌>>=◌, ◌>>◌}
use srvfb.Png.Canvas.{Canvas}
use srvfb.Png.Format.{
  Mode, cb_invalid, cb_g1, cb_g2, cb_g4, cb_g8, cb_ga8, cb_tc8, cb_p1, cb_p2, cb_p4, cb_p8, cb_tca8,
  cb_g16, cb_ga16, cb_tc16, cb_tca16, cb_paletted, ct_grayscale, ct_true_color, ct_paletted,
  ct_grayscale_alpha, ct_true_color_alpha, Stage, ds_seen_ihdr, ds_seen_plte, ds_seen_trns,
  ds_seen_idat, ds_seen_iend, rank, Error, format_error, unsupported_error, Kind, ihdr, plte, trns,
  idat, iend, unknown, kind_of, big_endian, read_full,
}

-- A color.RGBA or a color.NRGBA of the palette.
pub data Color : Type 0 where
  rgba nrgba : ℕ → ℕ → ℕ → ℕ → Color

-- The decoder's fields; `input` is what d.r has left, and `checked` what d.crc was given since its
-- last Reset. `palette` is the array behind the slice d.palette, of which it has the first
-- `palette_len` elements.
pub record Decoder : Type 0 where
  pub input : Bytes
  pub img : Option Canvas  -- nil at first
  pub checked : Bytes
  pub width : ℕ
  pub height : ℕ
  pub depth : ℕ
  pub cb : Mode
  pub stage : Stage
  pub interlace : ℕ
  pub idat_length : ℕ
  pub palette : List Color
  pub palette_len : ℕ
  pub use_transparent : Bool
  pub transparent : Bytes

-- Reading n bytes, which go to the checksum too.
unfoldable pub read_data : ℕ → Decoder → Outcome Error (Bytes × Decoder)
read_data n d =
    read_full n d.input >>= λ r. ok (r.0, record d { input = r.1; checked = d.checked ++ r.0 })

module _ (crc : Bytes → ℕ) where
  unfoldable pub verify_checksum : Decoder → Outcome Error Decoder
  verify_checksum d = read_full 4 d.input >>= λ r.
      if big_endian r.0 == crc d.checked then ok (record d { input = r.1 }) else err format_error

  unfoldable pub parse_iend : ℕ → Decoder → Outcome Error Decoder
  parse_iend length d = reject_if (not (length == 0)) format_error >> verify_checksum d

  -- A chunk that is ignored.
  unfoldable pub ignore_chunk : ℕ → Decoder → Outcome Error Decoder
  ignore_chunk length d =
      reject_if (ltb 0x7fffffff length) format_error
      >> (read_data length d >>= λ r. verify_checksum r.1)
