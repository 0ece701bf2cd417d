-- ===== src/Png/Encode/PaletteChunks.antt =====
-- internal/png/reader.go, parsePLTE and parsetRNS: the chunks of a palette.
use srvfb.Base.{
  ℕ, ◌-◌, ◌*◌, ◌/◌, ◌%◌, ◌^◌, ◌≤◌, ◌<◌, ◌≡◌, refl, true, false, Option, List, [], ◌++◌, arith, ltb,
  ◌==◌, length, length-append, replicate, length-replicate,
}
use srvfb.Base.Bytes.{Bytes, put_uint32}
use srvfb.Base.Outcome.{Outcome, ok}
use srvfb.Png.Canvas.{Canvas}
use srvfb.Png.Format.{
  Mode, cb_invalid, cb_g1, cb_g2, cb_g4, cb_g8, cb_ga8, cb_tc8, cb_p1, cb_p2, cb_p4, cb_p8, cb_tca8,
  cb_g16, cb_ga16, cb_tc16, cb_tca16, Error, cb_paletted, ds_seen_ihdr, ds_seen_plte, ds_seen_trns,
  name_of, plte, trns,
}
use srvfb.Png.Decoder.{Decoder, Color, rgba}
use srvfb.Png.Decoder.Palette.{
  set_alpha, take_plte, parse_plte, take_alpha, trns_case, trns_use, indexed, parse_trns,
}
use srvfb.Png.Decoder.Chunk.{take_chunk, parse_chunk}
use srvfb.Png.Chunks.{chunk, parse_chunk-chunk, read_data-append, verify_checksum-footer}
use srvfb.Png.Encode.{plte_data, trns_data}
use srvfb.Png.Encode.Colors.{
  Quad, plain, entries-plte_data, length-plte_data, length-plain, length-trns_data,
}

indexed_use : (cb : Mode) → cb_paletted cb ≡ true → trns_use cb ≡ indexed
indexed_use cb_p1 h = refl
indexed_use cb_p2 h = refl
indexed_use cb_p4 h = refl
indexed_use cb_p8 h = refl
indexed_use cb_invalid h = absurd (cc h)
indexed_use cb_g1 h = absurd (cc h)
indexed_use cb_g2 h = absurd (cc h)
indexed_use cb_g4 h = absurd (cc h)
indexed_use cb_g8 h = absurd (cc h)
indexed_use cb_ga8 h = absurd (cc h)
indexed_use cb_tc8 h = absurd (cc h)
indexed_use cb_tca8 h = absurd (cc h)
indexed_use cb_g16 h = absurd (cc h)
indexed_use cb_ga16 h = absurd (cc h)
indexed_use cb_tc16 h = absurd (cc h)
indexed_use cb_tca16 h = absurd (cc h)

-- A palette within the array that parsePLTE makes.
abbrev pub black : Color
black = rgba 0 0 0 0xff

module _ (crc : Bytes → ℕ) (decode : Decoder → Outcome Error (Option Canvas × Bytes × Bytes))
    (bounded : (b : Bytes) → crc b < 2 ^ 32) where
  -- The decoder that has read a PLTE chunk.
  abbrev pub plte_read : List Quad → Bytes → Decoder → Decoder
  plte_read p rest d = record d {
    input = rest;
    checked = name_of plte ++ plte_data p;
    stage = ds_seen_plte;
    palette = plain p ++ replicate (256 - length p) black;
    palette_len = length p;
  }

  pub parse_plte_chunk :
      (p : List Quad) (d : Decoder) (rest : Bytes)
      → 1 ≤ length p
      → length p ≤ 256
      → length p ≤ 2 ^ d.depth
      → d.stage ≡ ds_seen_ihdr
      → cb_paletted d.cb ≡ true
      → parse_chunk crc decode (record d { input = chunk crc (plte_data p) (name_of plte) ++ rest })
        ≡ ok (plte_read p rest d)
  unfolding take_chunk parse_plte take_plte
  parse_plte_chunk p d rest any few room st cb =
      let body = plte_data p in
      let name = name_of plte in
      let size = length-plte_data p in
      let np : (3 * length p) / 3 ≡ length p = omega arith in
      let whole : ((3 * length p) % 3 == 0) ≡ true = ground arith in
      let some' : (length p == 0) ≡ false = ground arith in
      let few' : ltb 256 (length p) ≡ false = ground arith in
      let room' : ltb (2 ^ d.depth) (length p) ≡ false = ground arith in
      rw
        (
          parse_chunk-chunk crc decode bounded body name d rest (omega (arith, size)) refl,
          size,
          st,
          np,
          whole,
          some',
          few',
          room',
          read_data-append crc decode bounded body (put_uint32 (crc (name ++ body)) ++ rest)
              (3 * length p) (record d { checked = name; stage = ds_seen_plte }) size,
          cb,
          entries-plte_data p,
        )
        (verify_checksum-footer crc decode bounded (record (plte_read p rest d) { input = [] })
          rest)

  -- The tRNS chunk of the same palette, which has an alpha at least.
  pub parse_trns_chunk :
      (p : List Quad) (d : Decoder) (rest : Bytes) (cs : List Color)
      → length p ≤ 256
      → cb_paletted d.cb ≡ true
      → set_alpha (trns_data p) (plain p ++ replicate (256 - length p) black)
        ≡ ok (cs ++ replicate (256 - length p) black)
      → parse_chunk crc decode
          (record (plte_read p [] d) { input = chunk crc (trns_data p) (name_of trns) ++ rest })
        ≡ ok (record (plte_read p rest d) {
          checked = name_of trns ++ trns_data p;
          stage = ds_seen_trns;
          palette = cs ++ replicate (256 - length p) black;
        })
  unfolding take_chunk parse_trns trns_case take_alpha
  parse_trns_chunk p d rest cs few cb e =
      let body = trns_data p in
      let name = name_of trns in
      let d' : Decoder = plte_read p [] d in
      let size = length-trns_data p in
      let few' : ltb 256 (length body) ≡ false = ground arith in
      let array : length (plain p ++ replicate (256 - length p) black) ≡ 256 = omega (
        arith,
        length-append (plain p) (replicate (256 - length p) black),
        length-plain p,
        length-replicate (256 - length p) black,
      ) in
      let within : ltb (length p) (length body) ≡ false = ground arith in
      rw
        (
          parse_chunk-chunk crc decode bounded body name d' rest (omega arith) refl,
          cb,
          indexed_use d.cb cb,
          few',
          read_data-append crc decode bounded body (put_uint32 (crc (name ++ body)) ++ rest)
              (length body) (record d' { checked = name; stage = ds_seen_trns }) refl,
          array,
          few',
          e,
          within,
        )
        (verify_checksum-footer crc decode bounded
          (record d' {
            input = [];
            checked = name ++ body;
            stage = ds_seen_trns;
            palette = cs ++ replicate (256 - length p) black;
          })
          rest)
