-- ===== src/Png/Format.antt =====
-- internal/png/reader.go: the constants of the file format, and package io's ReadFull.
use srvfb.Base.{ℕ, Bool, true, false, ◌&&◌, [], ◌∷◌, leb, ◌==◌, if◌then◌else◌, length, take, drop}
use srvfb.Base.Bytes.{Bytes, uint32}
use srvfb.Base.Outcome.{Outcome, ok, err}

-- A cb is a combination of color type and bit depth.
pub data Mode : Type 0 where
  cb_invalid cb_g1 cb_g2 cb_g4 cb_g8 cb_ga8 cb_tc8 : Mode
  cb_p1 cb_p2 cb_p4 cb_p8 cb_tca8 cb_g16 cb_ga16 cb_tc16 cb_tca16 : Mode

-- The modes from cbP1 to cbP8.
abbrev pub cb_paletted : Mode → Bool
cb_paletted cb_p1 = true
cb_paletted cb_p2 = true
cb_paletted cb_p4 = true
cb_paletted cb_p8 = true
cb_paletted _ = false

abbrev pub ct_grayscale : ℕ
ct_grayscale = 0

abbrev pub ct_true_color : ℕ
ct_true_color = 2

abbrev pub ct_paletted : ℕ
ct_paletted = 3

abbrev pub ct_grayscale_alpha : ℕ
ct_grayscale_alpha = 4

abbrev pub ct_true_color_alpha : ℕ
ct_true_color_alpha = 6

-- The decoding stages, in their order.
pub data Stage : Type 0 where
  ds_start ds_seen_ihdr ds_seen_plte ds_seen_trns ds_seen_idat ds_seen_iend : Stage

abbrev pub rank : Stage → ℕ
rank ds_start = 0
rank ds_seen_ihdr = 1
rank ds_seen_plte = 2
rank ds_seen_trns = 3
rank ds_seen_idat = 4
rank ds_seen_iend = 5

-- A FormatError, an UnsupportedError, and the errors of the reader and the writer.
pub data Error : Type 0 where
  format_error unsupported_error eof unexpected_eof write_error : Error
  endless : Error  -- no error of the program: a loop of the model has used up its rounds

-- The strings of the switch over a chunk's type.
pub data Kind : Type 0 where
  ihdr plte trns idat iend unknown : Kind

abbrev pub name_of : Kind → Bytes
name_of ihdr = b'I' ∷ b'H' ∷ b'D' ∷ b'R' ∷ []
name_of plte = b'P' ∷ b'L' ∷ b'T' ∷ b'E' ∷ []
name_of trns = b't' ∷ b'R' ∷ b'N' ∷ b'S' ∷ []
name_of idat = b'I' ∷ b'D' ∷ b'A' ∷ b'T' ∷ []
name_of iend = b'I' ∷ b'E' ∷ b'N' ∷ b'D' ∷ []
name_of unknown = []

abbrev same : Bytes → Bytes → Bool
same [] [] = true
same [] (y ∷ ys) = false
same (x ∷ xs) [] = false
same (x ∷ xs) (y ∷ ys) = x == y && same xs ys

abbrev pub kind_of : Bytes → Kind
kind_of b =
    if same b (name_of ihdr)
    then ihdr
    else if same b (name_of plte)
    then plte
    else if same b (name_of trns)
    then trns
    else if same b (name_of idat)
    then idat
    else if same b (name_of iend)
    then iend
    else unknown

-- binary.BigEndian.Uint32 of four bytes.
abbrev pub big_endian : Bytes → ℕ
big_endian (a ∷ b ∷ c ∷ d ∷ _) = uint32 a b c d
big_endian _ = 0

-- io.ReadFull: n bytes, and the rest of the input.
unfoldable pub read_full : ℕ → Bytes → Outcome Error (Bytes × Bytes)
read_full n input =
    if leb n (length input)
    then ok (take n input, drop n input)
    else if length input == 0
    then err eof
    else err unexpected_eof
