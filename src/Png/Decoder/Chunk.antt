-- ===== src/Png/Decoder/Chunk.antt =====
-- internal/png/reader.go, parseIDAT and parseChunk, but for decode, which decompresses the pixels.
use srvfb.Base.{ℕ, not, ◌&&◌, ◌||◌, Option, ltb, ◌==◌, if◌then◌else◌, length, drop}
use srvfb.Base.Bytes.{Bytes}
use srvfb.Base.Outcome.{Outcome, reject_if, ◌>>=◌, ◌>>◌}
use srvfb.Png.Canvas.{Canvas}
use srvfb.Png.Format.{
  cb_paletted, ds_seen_ihdr, ds_seen_plte, ds_seen_trns, ds_seen_idat, ds_seen_iend, rank, Error,
  format_error, Kind, ihdr, plte, trns, idat, iend, unknown, kind_of, big_endian, read_full,
}
use srvfb.Png.Decoder.{Decoder, verify_checksum, parse_iend, ignore_chunk}
use srvfb.Png.Decoder.Header.{parse_ihdr}
use srvfb.Png.Decoder.Palette.{parse_plte, parse_trns}

module _ (crc : Bytes → ℕ) where
  -- (*decoder).decode, which reads a part of the input: the image, what is left of the input, and
  -- what the checksum of the last IDAT chunk was given; or an error.
  module _ (decode : Decoder → Outcome Error (Option Canvas × Bytes × Bytes)) where
    unfoldable pub parse_idat : ℕ → Decoder → Outcome Error Decoder
    parse_idat length d =
        let d' : Decoder = record d { idat_length = length } in
        decode d' >>= λ r.
        verify_checksum crc (record d' { img = r.0; input = r.1; checked = r.2; idat_length = 0 })

    -- The switch over the chunk's type.
    unfoldable pub take_chunk : Kind → ℕ → Decoder → Outcome Error Decoder
    take_chunk ihdr length d =
        reject_if (not (rank d.stage == 0)) format_error
        >> parse_ihdr crc length (record d { stage = ds_seen_ihdr })
    take_chunk plte length d =
        reject_if (not (rank d.stage == 1)) format_error
        >> parse_plte crc length (record d { stage = ds_seen_plte })
    take_chunk trns length d =
        reject_if (not (rank d.stage == (if cb_paletted d.cb then 2 else 1))) format_error
        >> parse_trns crc length (record d { stage = ds_seen_trns })
    take_chunk idat length d =
        reject_if
          (ltb (rank d.stage) 1 || ltb 4 (rank d.stage) || (rank d.stage == 1 && cb_paletted d.cb))
          format_error
        >> (if rank d.stage == 4
            then ignore_chunk crc length d
            else parse_idat length (record d { stage = ds_seen_idat }))
    take_chunk iend length d =
        reject_if (not (rank d.stage == 4)) format_error
        >> parse_iend crc length (record d { stage = ds_seen_iend })
    take_chunk unknown length d = ignore_chunk crc length d

    unfoldable pub parse_chunk : Decoder → Outcome Error Decoder
    parse_chunk d = read_full 8 d.input >>= λ r.
        take_chunk (kind_of (drop 4 r.0)) (big_endian r.0)
          (record d { input = r.1; checked = drop 4 r.0 })
