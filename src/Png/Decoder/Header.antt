-- ===== src/Png/Decoder/Header.antt =====
-- internal/png/reader.go, parseIHDR.
use srvfb.Base.{
  ℕ, ◌*◌, ◌/◌, ◌%◌, ◌^◌, Bool, true, false, not, ◌&&◌, ◌||◌, leb, ◌==◌, if◌then◌else◌, length,
  get_or, drop,
}
use srvfb.Base.Bytes.{Bytes}
use srvfb.Base.Outcome.{Outcome, reject_if, ◌>>=◌, ◌>>◌}
use srvfb.Png.Format.{
  Mode, cb_invalid, cb_g1, cb_g2, cb_g4, cb_g8, cb_ga8, cb_tc8, cb_p1, cb_p2, cb_p4, cb_p8, cb_tca8,
  cb_g16, cb_ga16, cb_tc16, cb_tca16, ct_grayscale, ct_true_color, ct_paletted, ct_grayscale_alpha,
  ct_true_color_alpha, Error, format_error, unsupported_error, big_endian,
}
use srvfb.Png.Decoder.{Decoder, read_data, verify_checksum}

-- int32(n) <= 0 for a uint32.
abbrev pub not_positive : ℕ → Bool
not_positive n = n == 0 || leb (2 ^ 31) n

-- `nPixels != (nPixels*8)/8` on int64: a product that wraps to a negative number never gives back
-- nPixels, which is positive.
abbrev pub overflows : ℕ → Bool
overflows n = let m = n * 8 % 2 ^ 64 in leb (2 ^ 63) m || not (m / 8 == n)

-- The switch over d.depth and d.tmp[9].
unfoldable pub mode_of : ℕ → ℕ → Mode
mode_of depth ct =
    if depth == 1
    then (if ct == ct_grayscale then cb_g1 else if ct == ct_paletted then cb_p1 else cb_invalid)
    else if depth == 2
    then (if ct == ct_grayscale then cb_g2 else if ct == ct_paletted then cb_p2 else cb_invalid)
    else if depth == 4
    then (if ct == ct_grayscale then cb_g4 else if ct == ct_paletted then cb_p4 else cb_invalid)
    else if depth == 8
    then (if ct == ct_grayscale
        then cb_g8
        else if ct == ct_true_color
        then cb_tc8
        else if ct == ct_paletted
        then cb_p8
        else if ct == ct_grayscale_alpha
        then cb_ga8
        else if ct == ct_true_color_alpha
        then cb_tca8
        else cb_invalid)
    else if depth == 16
    then (if ct == ct_grayscale
        then cb_g16
        else if ct == ct_true_color
        then cb_tc16
        else if ct == ct_grayscale_alpha
        then cb_ga16
        else if ct == ct_true_color_alpha
        then cb_tca16
        else cb_invalid)
    else cb_invalid

abbrev pub is_invalid : Mode → Bool
is_invalid cb_invalid = true
is_invalid _ = false

module _ (crc : Bytes → ℕ) where
  -- parseIHDR after the data is read.
  unfoldable pub take_ihdr : Bytes → Decoder → Outcome Error Decoder
  take_ihdr tmp d =
      let w = big_endian tmp in
      let h = big_endian (drop 4 tmp) in
      let depth = get_or tmp 8 0 in
      let cb = mode_of depth (get_or tmp 9 0) in
      let interlace = get_or tmp 12 0 in
      reject_if (not (get_or tmp 10 0 == 0)) unsupported_error
      >> reject_if (not (get_or tmp 11 0 == 0)) unsupported_error
      >> reject_if (not (interlace == 0) && not (interlace == 1)) format_error
      >> reject_if (not_positive w || not_positive h) format_error
      >> reject_if (overflows (w * h)) unsupported_error
      >> reject_if (is_invalid cb) unsupported_error
      >> verify_checksum crc
          (record d { interlace = interlace; cb = cb; depth = depth; width = w; height = h })

  unfoldable pub parse_ihdr : ℕ → Decoder → Outcome Error Decoder
  parse_ihdr length d =
      reject_if (not (length == 13)) format_error >> (read_data 13 d >>= λ r. take_ihdr r.0 r.1)
