-- ===== src/Png/Chunks/Header.antt =====
-- internal/png, writeIHDR and parseIHDR: the header that the encoder writes is read back.
use srvfb.Base.{ℕ, suc, ◌*◌, ◌^◌, ◌<◌, ◌≡◌, refl, Bool, true, false, ◌||◌, Option, [], ◌++◌, arith}
use srvfb.Base.Bytes.{Bytes, put_uint32}
use srvfb.Base.Outcome.{Outcome, ok}
use srvfb.Image.{Rectangle, dx, dy}
use srvfb.Png.Canvas.{Canvas}
use srvfb.Png.Format.{
  Mode, cb_invalid, cb_g1, cb_g2, cb_g4, cb_g8, cb_ga8, cb_tc8, cb_p1, cb_p2, cb_p4, cb_p8, cb_tca8,
  cb_g16, cb_ga16, cb_tc16, cb_tca16, ds_start, ds_seen_ihdr, Error, name_of, ihdr,
}
use srvfb.Png.Encoder.{depth_and_type, ihdr_data, write_ihdr}
use srvfb.Png.Decoder.{Decoder}
use srvfb.Png.Decoder.Chunk.{take_chunk, parse_chunk}
use srvfb.Png.Decoder.Header.{is_invalid, not_positive, overflows, mode_of, take_ihdr, parse_ihdr}
use srvfb.Png.Chunks.{
  new, write_chunk-out, big_endian-put_uint32, verify_checksum-footer, parse_chunk-chunk,
  read_data-append,
}

-- The modes that the encoder chooses from.
abbrev pub is_written : Mode → Bool
is_written cb_invalid = false
is_written cb_g1 = false
is_written cb_g2 = false
is_written cb_g4 = false
is_written cb_ga8 = false
is_written cb_ga16 = false
is_written _ = true

-- The decoder finds the encoder's mode in the depth and the color type.
mode_of-depth_and_type :
    (cb : Mode) (tmp : ℕ × ℕ)
    → is_written cb ≡ true
    → mode_of (depth_and_type cb tmp).0 (depth_and_type cb tmp).1 ≡ cb
unfolding mode_of depth_and_type
mode_of-depth_and_type cb_invalid tmp h = cc
mode_of-depth_and_type cb_g1 tmp h = cc
mode_of-depth_and_type cb_g2 tmp h = cc
mode_of-depth_and_type cb_g4 tmp h = cc
mode_of-depth_and_type cb_ga8 tmp h = cc
mode_of-depth_and_type cb_ga16 tmp h = cc
mode_of-depth_and_type cb_g8 tmp h = refl
mode_of-depth_and_type cb_tc8 tmp h = refl
mode_of-depth_and_type cb_p1 tmp h = refl
mode_of-depth_and_type cb_p2 tmp h = refl
mode_of-depth_and_type cb_p4 tmp h = refl
mode_of-depth_and_type cb_p8 tmp h = refl
mode_of-depth_and_type cb_tca8 tmp h = refl
mode_of-depth_and_type cb_g16 tmp h = refl
mode_of-depth_and_type cb_tc16 tmp h = refl
mode_of-depth_and_type cb_tca16 tmp h = refl

is_written-valid : (cb : Mode) → is_written cb ≡ true → is_invalid cb ≡ false
is_written-valid cb_invalid h = cc
is_written-valid cb_g1 h = refl
is_written-valid cb_g2 h = refl
is_written-valid cb_g4 h = refl
is_written-valid cb_ga8 h = refl
is_written-valid cb_ga16 h = refl
is_written-valid cb_g8 h = refl
is_written-valid cb_tc8 h = refl
is_written-valid cb_p1 h = refl
is_written-valid cb_p2 h = refl
is_written-valid cb_p4 h = refl
is_written-valid cb_p8 h = refl
is_written-valid cb_tca8 h = refl
is_written-valid cb_g16 h = refl
is_written-valid cb_tc16 h = refl
is_written-valid cb_tca16 h = refl

-- A size that both sides can take: the encoder's limit is 2 ^ 32, the decoder's is lower.
pub record IsSized (r : Rectangle) : Type 0 where
  pub width : (0 < dx r) × (dx r < 2 ^ 31)
  pub height : (0 < dy r) × (dy r < 2 ^ 31)
  pub area : dx r * dy r < 2 ^ 60

module _ (crc : Bytes → ℕ) (decode : Decoder → Outcome Error (Option Canvas × Bytes × Bytes))
    (bounded : (b : Bytes) → crc b < 2 ^ 32) where
  -- The decoder that has read this header.
  abbrev pub header_read : Rectangle → Mode → Bytes → Decoder → Decoder
  header_read r cb rest d = record d {
    input = rest;
    checked = name_of ihdr ++ ihdr_data r (depth_and_type cb (0, 0));
    width = dx r;
    height = dy r;
    depth = (depth_and_type cb (0, 0)).0;
    cb = cb;
    stage = ds_seen_ihdr;
    interlace = 0;
  }

  -- The size is in the range of an int32, and eight bytes for each pixel in that of an int64.
  sized :
      (r : Rectangle)
      → IsSized r
      → (not_positive (dx r) || not_positive (dy r) ≡ false) × (overflows (dx r * dy r) ≡ false)
  sized r s =
      let (w, w') = s.width in
      let (h, h') = s.height in let a = s.area in (ground arith, ground arith)

  take_ihdr-ihdr_data :
      (r : Rectangle) (cb : Mode) (rest : Bytes) (d : Decoder)
      → IsSized r
      → is_written cb ≡ true
      → take_ihdr crc
          (ihdr_data r (depth_and_type cb (0, 0)))
          (record d { input = put_uint32 (crc d.checked) ++ rest })
        ≡ ok (record d {
          input = rest;
          width = dx r;
          height = dy r;
          depth = (depth_and_type cb (0, 0)).0;
          cb = cb;
          interlace = 0;
        })
  unfolding take_ihdr
  take_ihdr-ihdr_data r cb rest d s w =
      let (positive, fits) = sized r s in
      rw
        (
          big_endian-put_uint32 (dx r) [] (omega (arith, s.width.1)),
          big_endian-put_uint32 (dy r) [] (omega (arith, s.height.1)),
          mode_of-depth_and_type cb (0, 0) w,
          positive,
          fits,
          is_written-valid cb w,
        )
        (verify_checksum-footer crc decode bounded
          (record d {
            width = dx r;
            height = dy r;
            depth = (depth_and_type cb (0, 0)).0;
            cb = cb;
            interlace = 0;
          })
          rest)

  -- The decoder takes the header that the encoder writes: it finds the width, the height, and the
  -- mode, for each of the ten modes that the encoder chooses from, and goes on with what follows
  -- the header. Width and height must be positive and below 2 ^ 31, and their product below 2 ^ 60;
  -- the writer takes three writes at least.
  pub parse_chunk-write_ihdr :
      (r : Rectangle) (cb : Mode) (rest : Bytes) (budget : ℕ) (d : Decoder)
      → IsSized r
      → is_written cb ≡ true
      → d.stage ≡ ds_start
      → parse_chunk crc decode
          (record d { input = (write_ihdr crc r cb (new (suc (suc (suc budget))))).out ++ rest })
        ≡ ok (header_read r cb rest d)
  unfolding write_ihdr take_chunk parse_ihdr
  parse_chunk-write_ihdr r cb rest budget d s w st =
      let body = ihdr_data r (depth_and_type cb (0, 0)) in
      let name = name_of ihdr in
      rw
        (
          write_chunk-out crc body name budget (depth_and_type cb (0, 0)) (omega arith),
          parse_chunk-chunk crc decode bounded body name d rest (omega arith) refl,
          st,
          read_data-append crc decode bounded body (put_uint32 (crc (name ++ body)) ++ rest) 13
              (record d { checked = name; stage = ds_seen_ihdr }) refl,
        )
        (take_ihdr-ihdr_data r cb rest (record d { checked = name ++ body; stage = ds_seen_ihdr }) s
          w)
