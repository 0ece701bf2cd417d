-- ===== src/Png/Decoder/Palette.antt =====
-- internal/png/reader.go, parsePLTE and parsetRNS.
use srvfb.Base.{
  ℕ, ◌-◌, ◌*◌, ◌/◌, ◌%◌, ◌^◌, Bool, true, false, not, ◌||◌, List, [], ◌∷◌, ◌++◌, ltb, ◌==◌,
  if◌then◌else◌, length, replicate,
}
use srvfb.Base.Bytes.{Bytes, copy}
use srvfb.Base.Outcome.{Outcome, ok, err, panic, reject_if, ◌>>=◌, ◌>>◌}
use srvfb.Png.Format.{
  Mode, cb_g1, cb_g2, cb_g4, cb_g8, cb_tc8, cb_p1, cb_p2, cb_p4, cb_p8, cb_tca8, cb_g16, cb_tc16,
  cb_tca16, cb_paletted, Error, format_error,
}
use srvfb.Png.Decoder.{Color, rgba, nrgba, Decoder, read_data, verify_checksum}

-- The three bytes of each palette entry.
abbrev pub entries : Bytes → List Color
entries (r ∷ g ∷ b ∷ bs) = rgba r g b 0xff ∷ entries bs
entries _ = []

-- The palette's first colors, with an alpha each; one that has it already is a panic.
unfoldable pub set_alpha : Bytes → List Color → Outcome Error (List Color)
set_alpha [] cs = ok cs
set_alpha (a ∷ alphas) [] = panic
set_alpha (a ∷ alphas) (nrgba r g b a' ∷ cs) = panic
set_alpha (a ∷ alphas) (rgba r g b a' ∷ cs) =
    set_alpha alphas cs >>= λ cs'. ok (nrgba r g b a ∷ cs')

-- d.transparent[1] *= n
abbrev scale_second : ℕ → Bytes → Bytes
scale_second n (a ∷ b ∷ bs) = a ∷ (b * n % 2 ^ 8) ∷ bs
scale_second n bs = bs

-- The switch over d.cb of parsetRNS for grays.
abbrev pub scale_gray : Mode → Bytes → Bytes
scale_gray cb_g1 = scale_second 0xff
scale_gray cb_g2 = scale_second 0x55
scale_gray cb_g4 = scale_second 0x11
scale_gray _ = λ b. b

-- The cases of parsetRNS's switch over d.cb.
pub data TrnsUse : Type 0 where
  gray rgb indexed mismatch : TrnsUse

abbrev pub trns_use : Mode → TrnsUse
trns_use cb_g1 = gray
trns_use cb_g2 = gray
trns_use cb_g4 = gray
trns_use cb_g8 = gray
trns_use cb_g16 = gray
trns_use cb_tc8 = rgb
trns_use cb_tc16 = rgb
trns_use cb_p1 = indexed
trns_use cb_p2 = indexed
trns_use cb_p4 = indexed
trns_use cb_p8 = indexed
trns_use _ = mismatch

-- The modes for which parsePLTE ignores the palette.
abbrev pub ignores_plte : Mode → Bool
ignores_plte cb_tc8 = true
ignores_plte cb_tca8 = true
ignores_plte cb_tc16 = true
ignores_plte cb_tca16 = true
ignores_plte _ = false

module _ (crc : Bytes → ℕ) where
  -- The switch over d.cb of parsePLTE; a palette of 256 colors is made, opaque black from np on.
  unfoldable pub take_plte : ℕ → Bytes → Decoder → Outcome Error Decoder
  take_plte np tmp d =
      if cb_paletted d.cb
      then verify_checksum crc (record d {
        palette = entries tmp ++ replicate (256 - np) (rgba 0 0 0 0xff);
        palette_len = np;
      })
      else if ignores_plte d.cb
      then verify_checksum crc d
      else err format_error

  unfoldable pub parse_plte : ℕ → Decoder → Outcome Error Decoder
  parse_plte length d =
      let np = length / 3 in
      reject_if (not (length % 3 == 0) || np == 0 || ltb 256 np || ltb (2 ^ d.depth) np)
        format_error
      >> (read_data (3 * np) d >>= λ r. take_plte np r.0 r.1)

  -- The data of a tRNS chunk becomes the transparent color.
  abbrev pub take_transparent : (Bytes → Bytes) → ℕ → Decoder → Outcome Error Decoder
  take_transparent f length d = read_data length d >>= λ r.
      verify_checksum crc
        (record r.1 { transparent = f (copy d.transparent r.0); use_transparent = true })

  -- It becomes the alpha of the palette's colors: `d.palette[:n]` makes a shorter palette longer,
  -- within its array.
  unfoldable pub take_alpha : Bytes → Decoder → Outcome Error Decoder
  take_alpha alpha d =
      if ltb (length d.palette) (length alpha)
      then panic
      else set_alpha alpha d.palette >>= λ cs. verify_checksum crc (record d {
        palette = cs;
        palette_len = if ltb d.palette_len (length alpha) then length alpha else d.palette_len;
      })

  unfoldable pub trns_case : TrnsUse → ℕ → Decoder → Outcome Error Decoder
  trns_case gray length d =
      reject_if (not (length == 2)) format_error >> take_transparent (scale_gray d.cb) length d
  trns_case rgb length d =
      reject_if (not (length == 6)) format_error >> take_transparent (λ b. b) length d
  trns_case indexed length d =
      reject_if (ltb 256 length) format_error >> (read_data length d >>= λ r. take_alpha r.0 r.1)
  trns_case mismatch length d = err format_error

  unfoldable pub parse_trns : ℕ → Decoder → Outcome Error Decoder
  parse_trns length d = trns_case (trns_use d.cb) length d
