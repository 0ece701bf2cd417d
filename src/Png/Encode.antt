-- ===== src/Png/Encode.antt =====
-- internal/png/writer.go, the choice of the mode, writePLTEAndTRNS, writeIDATs and Encode.
pub mod Colors
pub mod PaletteChunks
pub mod Palette
mod Tests
use srvfb.Base.{
  ℕ, zero, suc, ◌+◌, ◌-◌, ◌*◌, ◌/◌, ◌%◌, ◌^◌, ◌≤◌, ◌<◌, min, bit_and, bit_or, bit_xor, ◌≡◌, refl,
  sym, ap, ap₂, ◌∙◌, ◌≡⟨◌⟩◌, ◌∎, ◌≢◌, ◌↔◌, ◌⊎◌, inl, inr, Bool, true, false, not, ◌&&◌, ◌||◌,
  Option, none, some, List, [], ◌∷◌, ◌++◌, map, append-nil, append_assoc, arith, ltb, leb, ◌==◌,
  if◌then◌else◌, ltb→lt, lt→ltb, leb→le, le→leb, ==_iff, tests, Bool-cases, Option-cases, length,
  get_elem?, set, length-append, length-set, get_elem?-set_self, get_elem?-set_ne, get_or, take,
  drop, replicate, take-append-drop, length-take, length-drop, length-replicate, length-map,
}
use srvfb.Base.Bytes.{Bytes}
use srvfb.Base.Outcome.{Outcome, ok, err, panic, reject_if, ◌>>=◌, ◌>>◌}
use srvfb.Image.{dx, dy}
use srvfb.Png.Format.{
  Mode, cb_g8, cb_tc8, cb_p1, cb_p2, cb_p4, cb_p8, cb_tca8, cb_g16, cb_tc16, cb_tca16, Error,
  format_error, name_of, plte, trns, idat,
}
use srvfb.Png.Encoder.{Encoder, write, unless_failed, write_chunk, write_ihdr, write_iend}
use srvfb.Png.Filter.{Rows}
use srvfb.Png.Picture.{Picture}
use srvfb.Png.Writer.{write_image}
use srvfb.Png.Files.{png_header}

-- The color models that Encode tells apart; a palette's colors are converted to NRGBA.
pub data ColorModel : Type 0 where
  gray_model gray16_model rgba_model nrgba_model alpha_model other_model : ColorModel
  palette_model : List (ℕ × ℕ × ℕ × ℕ) → ColorModel

-- An image.Image: its pixels, its color model, whether it has ColorIndexAt, and what its Opaque says
-- if it has that.
pub record Source : Type 0 where
  pub picture : Picture
  pub model : ColorModel
  pub has_indices : Bool
  pub opaquer : Option Bool

-- A CompressionLevel, and a level of compress/zlib.
pub data CompressionLevel : Type 0 where
  default_compression no_compression best_speed best_compression reserved : CompressionLevel

pub data ZlibLevel : Type 0 where
  zlib_default zlib_none zlib_best_speed zlib_best_compression : ZlibLevel

unfoldable pub level_to_zlib : CompressionLevel → ZlibLevel
level_to_zlib default_compression = zlib_default
level_to_zlib no_compression = zlib_none
level_to_zlib best_speed = zlib_best_speed
level_to_zlib best_compression = zlib_best_compression
level_to_zlib reserved = zlib_default

-- `level != zlib.NoCompression`
abbrev pub compresses : ZlibLevel → Bool
compresses zlib_none = false
compresses _ = true

abbrev alpha : ℕ × ℕ × ℕ × ℕ → ℕ
alpha (r, g, b, a) = a

-- The loops over x and over y of `opaque`, with n to go.
unfoldable pub opaque_line : Picture → ℕ → ℕ → ℕ → Bool
opaque_line m y zero x = true
opaque_line m y (suc n) x = alpha (m.rgba_at x y) == 0xffff && opaque_line m y n (x + 1)

unfoldable pub opaque_lines : Picture → ℕ → ℕ → Bool
opaque_lines m zero y = true
opaque_lines m (suc n) y = opaque_line m y (dx m.bounds) m.bounds.min_x && opaque_lines m n (y + 1)

unfoldable pub is_opaque : Source → Bool
is_opaque s = elim s.opaquer [
  | some o ↦ o
  | none ↦ opaque_lines s.picture (dy s.picture.bounds) s.picture.bounds.min_y
]

-- `var pal color.Palette`: nil for an image without ColorIndexAt or of another color model.
unfoldable pub palette_of : Source → Option (List (ℕ × ℕ × ℕ × ℕ))
palette_of s = if s.has_indices then of_model s.model else none
  where
    of_model : ColorModel → Option (List (ℕ × ℕ × ℕ × ℕ))
    of_model (palette_model p) = some p
    of_model _ = none

-- The mode of an image with a palette.
unfoldable pub indexed_mode : ℕ → Mode
indexed_mode n =
    if leb n 2 then cb_p1 else if leb n 4 then cb_p2 else if leb n 16 then cb_p4 else cb_p8

-- The switch over m.ColorModel().
unfoldable pub direct_mode : ColorModel → Bool → Mode
direct_mode gray_model opaque = cb_g8
direct_mode gray16_model opaque = cb_g16
direct_mode rgba_model opaque = if opaque then cb_tc8 else cb_tca8
direct_mode nrgba_model opaque = if opaque then cb_tc8 else cb_tca8
direct_mode alpha_model opaque = if opaque then cb_tc8 else cb_tca8
direct_mode other_model opaque = if opaque then cb_tc16 else cb_tca16
direct_mode (palette_model p) opaque = if opaque then cb_tc16 else cb_tca16

-- e.cb
unfoldable pub chosen_mode : Source → Mode
chosen_mode s = elim (palette_of s) [
  | some p ↦ indexed_mode (length p)
  | none ↦ direct_mode s.model (is_opaque s)
]

-- e.tmp[:3*len(p)]
unfoldable pub plte_data : List (ℕ × ℕ × ℕ × ℕ) → Bytes
plte_data [] = []
plte_data ((r, g, b, a) ∷ p) = r ∷ g ∷ b ∷ plte_data p

-- The alphas from a color on, for those of the colors after it.
abbrev pub keep_alpha : ℕ → Bytes → Bytes
keep_alpha a [] = if a == 0xff then [] else a ∷ []
keep_alpha a (x ∷ xs) = a ∷ x ∷ xs

-- e.tmp[3*256:3*256+1+last]: the alphas as far as the last one that is not 0xff.
unfoldable pub trns_data : List (ℕ × ℕ × ℕ × ℕ) → Bytes
trns_data [] = []
trns_data ((r, g, b, a) ∷ p) = keep_alpha a (trns_data p)

-- e.tmp[8] and e.tmp[9] are the blue of the third color and the red of the fourth.
abbrev pub tmp_after : List (ℕ × ℕ × ℕ × ℕ) → ℕ × ℕ → ℕ × ℕ
tmp_after (_ ∷ _ ∷ (r, g, b, a) ∷ []) tmp = (b, tmp.1)
tmp_after (_ ∷ _ ∷ (r, g, b, a) ∷ (r', g', b', a') ∷ p) tmp = (b, r')
tmp_after _ tmp = tmp

module _ (crc : Bytes → ℕ) where
  -- Without an alpha there is no tRNS chunk.
  abbrev pub write_trns : Bytes → Encoder → Encoder
  write_trns [] e = e
  write_trns (x ∷ xs) e = write_chunk crc (x ∷ xs) (name_of trns) e

  -- writePLTEAndTRNS
  unfoldable pub write_plte_and_trns : List (ℕ × ℕ × ℕ × ℕ) → Encoder → Encoder
  write_plte_and_trns p e =
      if ltb (length p) 1 || ltb 256 (length p)
      then record e { error = some format_error }
      else write_trns (trns_data p)
          (write_chunk crc (plte_data p) (name_of plte) (record e { tmp = tmp_after p e.tmp }))

  -- e.Write, for each block in turn; after an error the writers between fail too.
  unfoldable pub write_blocks : List Bytes → Encoder → Encoder
  write_blocks [] e = e
  write_blocks (b ∷ bs) e = write_blocks bs (write_chunk crc b (name_of idat) e)

  -- compress/zlib, and the bufio.Writer behind it: the blocks that the encoder is given for the rows
  -- of a picture.
  module _ (blocks : ZlibLevel → Bytes → List Bytes) where
    -- writeIDATs.
    unfoldable pub write_idats :
        Picture → Mode → CompressionLevel → Rows → Encoder → Outcome Error Encoder
    write_idats m cb level kept e = elim e.error [
      | some _ ↦ ok e
      | none ↦ write_image m cb (compresses (level_to_zlib level)) kept (dy m.bounds) >>= λ rows.
          ok (write_blocks (blocks (level_to_zlib level) rows) e)
    ]

    abbrev write_palette : Option (List (ℕ × ℕ × ℕ × ℕ)) → Encoder → Encoder
    write_palette none e = e
    write_palette (some p) e = write_plte_and_trns p e

    -- Encode, with an encoder whose buffers are `kept` and `tmp`, on a writer that takes some writes.
    unfoldable pub encode_image :
        Source → CompressionLevel → Rows → ℕ × ℕ → ℕ → Outcome Error Encoder
    encode_image s level kept tmp budget =
        let r = s.picture.bounds in
        let cb = chosen_mode s in
        let e : Encoder = record { out = []; budget = budget; error = none; tmp = tmp } in
        let e' = write_palette (palette_of s) (write_ihdr crc r cb (write png_header e)) in
        reject_if (dx r == 0 || dy r == 0 || leb (2 ^ 32) (dx r) || leb (2 ^ 32) (dy r))
          format_error
        >> (write_idats s.picture cb level kept e' >>= λ e''. ok (write_iend crc e''))
