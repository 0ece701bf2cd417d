-- ===== src/Png/Encode/Tests.antt =====
-- internal/png/writer.go: a palette of three colors, one of them half transparent.
use srvfb.Base.{ℕ, ◌%◌, ◌^◌, ◌<◌, ◌≡◌, refl, Option, List, [], ◌∷◌, ◌++◌, map, arith, length, take}
use srvfb.Base.Bytes.{Bytes}
use srvfb.Base.Outcome.{Outcome, ok, err}
use srvfb.Png.Canvas.{Canvas}
use srvfb.Png.Format.{cb_p2, ds_seen_ihdr, Error, format_error}
use srvfb.Png.Decoder.{Decoder}
use srvfb.Png.Files.{new_decoder}
use srvfb.Png.Encode.{trns_data, write_plte_and_trns}
use srvfb.Png.Encode.Colors.{Quad, quad}
use srvfb.Png.Encode.Palette.{encoder, parse_palette, parse_palette-write_plte_and_trns}

abbrev crc : Bytes → ℕ
crc b = length b % 2 ^ 32

crc-lt : (b : Bytes) → crc b < 2 ^ 32
crc-lt b = omega arith

abbrev no_pixels : Decoder → Outcome Error (Option Canvas × Bytes × Bytes)
no_pixels d = err format_error

abbrev colors : List Quad
colors = (1, 2, 3, 255) ∷ (4, 5, 6, 128) ∷ (7, 8, 9, 255) ∷ []

alphas : trns_data colors ≡ 255 ∷ 128 ∷ []
unfolding trns_data
alphas = refl

abbrev paletted : Decoder
paletted = record (new_decoder []) { cb = cb_p2; depth = 2; stage = ds_seen_ihdr }

parse_palette-write_plte_and_trns_example :
    (d' : Decoder) × (parse_palette crc no_pixels crc-lt (trns_data colors) (record paletted {
      input = (write_plte_and_trns crc colors (encoder 0 (0, 0))).out ++ (9 ∷ []);
    })
      ≡ ok d')
    × (d'.input ≡ 9 ∷ [])
    × (d'.palette_len ≡ 3)
    × (map quad (take 3 d'.palette) ≡ colors)
parse_palette-write_plte_and_trns_example =
    parse_palette-write_plte_and_trns crc no_pixels crc-lt colors paletted 0 (0, 0) (9 ∷ [])
      (omega arith) (omega arith) (omega arith) refl refl
