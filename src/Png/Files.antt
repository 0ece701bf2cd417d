-- ===== src/Png/Files.antt =====
-- internal/png/reader.go, Read, decode, checkHeader, Decode and DecodeConfig: a whole file.
pub mod Shrinks
pub mod Fuel
mod Tests
use srvfb.Base.{
  ℕ, zero, suc, ◌+◌, ◌-◌, ◌*◌, ◌/◌, ◌%◌, ◌^◌, ◌≤◌, ◌<◌, min, bit_and, bit_or, bit_xor, ◌≡◌, refl,
  sym, ap, ap₂, ◌∙◌, ◌≡⟨◌⟩◌, ◌∎, ◌≢◌, ◌↔◌, ◌⊎◌, inl, inr, Bool, true, false, not, ◌&&◌, ◌||◌,
  Option, none, some, List, [], ◌∷◌, ◌++◌, map, append-nil, append_assoc, arith, ltb, leb, ◌==◌,
  if◌then◌else◌, ltb→lt, lt→ltb, leb→le, le→leb, ==_iff, tests, Bool-cases, Option-cases, length,
  get_elem?, set, length-append, length-set, get_elem?-set_self, get_elem?-set_ne, get_or, take,
  drop, replicate, take-append-drop, length-take, length-drop, length-replicate, length-map,
}
use srvfb.Base.Bytes.{Bytes}
use srvfb.Base.Outcome.{Outcome, ok, err, panic, ◌>>=◌}
use srvfb.Png.Canvas.{Canvas}
use srvfb.Png.Format.{
  Mode, cb_invalid, cb_g1, cb_g2, cb_g4, cb_g8, cb_ga8, cb_tc8, cb_p1, cb_p2, cb_p4, cb_p8, cb_tca8,
  cb_g16, cb_ga16, cb_tc16, cb_tca16, cb_paletted, Stage, ds_start, rank, Error, format_error,
  unsupported_error, eof, endless, unexpected_eof, endless, write_error, Kind, ihdr, plte, trns,
  idat, iend, unknown, kind_of, big_endian, read_full,
}
use srvfb.Png.Decoder.{Color, Decoder, verify_checksum}
use srvfb.Png.Decoder.Chunk.{parse_chunk}
use srvfb.Png.Interlace.{read_image}

-- compress/zlib on the bytes that it has read: it wants more, its stream is complete, or it is not a
-- zlib stream.
pub data Inflated : Type 0 where
  more : Inflated
  done : Bytes → Inflated
  corrupt : Inflated

abbrev pub is_idat : Kind → Bool
is_idat idat = true
is_idat _ = false

-- The bytes that d.r has for Read(p), at most len(p) = `size`; it has none at its end only. An
-- idatLength is below 2 ^ 32, and not negative as an int.
unfoldable pub some_data : ℕ → Decoder → Outcome Error (Bytes × Decoder)
some_data size d =
    let n = min size (min d.idat_length (length d.input)) in
    if n == 0
    then err eof
    else ok (
      take n d.input,
      record d {
        input = drop n d.input;
        checked = d.checked ++ take n d.input;
        idat_length = d.idat_length - n;
      },
    )

-- Whether DecodeConfig has what it needs.
abbrev pub has_config : Decoder → Bool
has_config d =
    (rank d.stage == 1 && not (cb_paletted d.cb)) || (rank d.stage == 2 && cb_paletted d.cb)

-- The color.Model of an image.Config.
pub data Model : Type 0 where
  no_model gray_colors gray16_colors rgba_colors rgba64_colors nrgba_colors nrgba64_colors : Model
  palette_colors : List Color → Model

-- `switch d.cb` of DecodeConfig.
unfoldable pub color_model : Decoder → Model
color_model d = by_mode d.cb
  where
    by_mode : Mode → Model
    by_mode cb_g1 = gray_colors
    by_mode cb_g2 = gray_colors
    by_mode cb_g4 = gray_colors
    by_mode cb_g8 = gray_colors
    by_mode cb_ga8 = nrgba_colors
    by_mode cb_tc8 = rgba_colors
    by_mode cb_p1 = palette_colors (take d.palette_len d.palette)
    by_mode cb_p2 = palette_colors (take d.palette_len d.palette)
    by_mode cb_p4 = palette_colors (take d.palette_len d.palette)
    by_mode cb_p8 = palette_colors (take d.palette_len d.palette)
    by_mode cb_tca8 = nrgba_colors
    by_mode cb_g16 = gray16_colors
    by_mode cb_ga16 = nrgba64_colors
    by_mode cb_tc16 = rgba64_colors
    by_mode cb_tca16 = nrgba64_colors
    by_mode cb_invalid = no_model

-- `if err == io.EOF { err = io.ErrUnexpectedEOF }`
abbrev pub full_error : Error → Error
full_error eof = unexpected_eof
full_error e = e

abbrev pub no_eof {ℓ} : {A : Type ℓ} → Outcome Error A → Outcome Error A
no_eof (ok a) = ok a
no_eof (err e) = err (full_error e)
no_eof panic = panic

abbrev pub png_header : Bytes
png_header = 0x89 ∷ b'P' ∷ b'N' ∷ b'G' ∷ 13 ∷ 10 ∷ 0x1a ∷ 10 ∷ []

abbrev pub equal : Bytes → Bytes → Bool
equal [] [] = true
equal (x ∷ xs) (y ∷ ys) = x == y && equal xs ys
equal _ _ = false

unfoldable pub check_header : Decoder → Outcome Error Decoder
check_header d = read_full 8 d.input >>= λ r.
    if equal r.0 png_header then ok (record d { input = r.1 }) else err format_error

-- &decoder{r: r, crc: crc32.NewIEEE()}
abbrev pub new_decoder : Bytes → Decoder
new_decoder input = record {
  input = input;
  img = none;
  checked = [];
  width = 0;
  height = 0;
  depth = 0;
  cb = cb_invalid;
  stage = ds_start;
  interlace = 0;
  idat_length = 0;
  palette = [];
  palette_len = 0;
  use_transparent = false;
  transparent = 0 ∷ 0 ∷ 0 ∷ 0 ∷ 0 ∷ 0 ∷ [];
}

module _ (crc : Bytes → ℕ) where
  -- A round of Read's loop: the end of an IDAT chunk, and the beginning of the next one.
  unfoldable pub next_idat : Decoder → Outcome Error Decoder
  next_idat d = verify_checksum crc d >>= λ d'. read_full 8 d'.input >>= λ r.
      if is_idat (kind_of (drop 4 r.0))
      then ok (record d' { input = r.1; checked = drop 4 r.0; idat_length = big_endian r.0 })
      else err format_error

  -- `for d.idatLength == 0`, for at most so many rounds.
  unfoldable pub find_data : ℕ → Decoder → Outcome Error Decoder
  find_data zero d = err endless
  find_data (suc fuel) d = elim (d.idat_length == 0) [
    | true ↦ next_idat d >>= find_data fuel
    | false ↦ ok d
  ]

  unfoldable pub read : ℕ → Decoder → Outcome Error (Bytes × Decoder)
  read size d =
      if size == 0 then ok ([], d) else find_data (suc (length d.input)) d >>= some_data size

  module _ (inflate : Bytes → Inflated) where
    -- zlib reads through a buffer of 4096 bytes until its stream is complete.
    unfoldable pub gather : ℕ → Bytes → Decoder → Outcome Error (Bytes × Decoder)
    gather zero acc d = err endless
    gather (suc fuel) acc d = elim (inflate acc) [
      | more ↦ read 4096 d >>= λ (bytes, d'). gather fuel (acc ++ bytes) d'
      | done out ↦ ok (out, d)
      | corrupt ↦ err format_error
    ]

    -- decode reads the lines while zlib decompresses; here they are read after that, so that an error
    -- in the compressed data comes first, where the code may have found one in the lines before it.
    unfoldable pub decode : Decoder → Outcome Error (Option Canvas × Bytes × Bytes)
    decode d = gather (suc (length d.input)) [] d >>= λ (out, d'). read_image d' out >>= λ img.
        if d'.idat_length == 0 then ok (img, d'.input, d'.checked) else err format_error

    -- `for d.stage != dsSeenIEND`, for at most so many chunks.
    unfoldable pub decode_loop : ℕ → Decoder → Outcome Error Decoder
    decode_loop zero d = err endless
    decode_loop (suc fuel) d = elim (rank d.stage == 5) [
      | true ↦ ok d
      | false ↦ parse_chunk crc decode d >>= decode_loop fuel
    ]

    -- The endless loop of DecodeConfig, for at most so many chunks.
    unfoldable pub config_loop : ℕ → Decoder → Outcome Error Decoder
    config_loop zero d = err endless
    config_loop (suc fuel) d = parse_chunk crc decode d >>= λ d'. elim (has_config d') [
      | true ↦ ok d'
      | false ↦ config_loop fuel d'
    ]

    -- Decode
    unfoldable pub decode_file : Bytes → Outcome Error (Option Canvas)
    decode_file input = no_eof (
        check_header (new_decoder input) >>= λ d.
        decode_loop (suc (length d.input)) d >>= λ d'. ok d'.img)

    -- DecodeConfig: the color model, the width and the height.
    unfoldable pub decode_config : Bytes → Outcome Error (Model × ℕ × ℕ)
    decode_config input = no_eof (
        check_header (new_decoder input) >>= λ d.
        config_loop (suc (length d.input)) d >>= λ d'. ok (color_model d', d'.width, d'.height))
