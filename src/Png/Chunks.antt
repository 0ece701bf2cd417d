-- ===== src/Png/Chunks.antt =====
-- internal/png: chunks that the encoder writes are read back by the decoder.
pub mod Header
use srvfb.Base.{
  ℕ, zero, suc, ◌+◌, ◌-◌, ◌*◌, ◌/◌, ◌%◌, ◌^◌, ◌≤◌, ◌<◌, min, bit_and, bit_or, bit_xor, ◌≡◌, refl,
  sym, ap, ap₂, ◌∙◌, ◌≡⟨◌⟩◌, ◌∎, ◌≢◌, ◌↔◌, ◌⊎◌, inl, inr, Bool, true, false, not, ◌&&◌, ◌||◌,
  Option, none, some, List, [], ◌∷◌, ◌++◌, map, append-nil, append_assoc, arith, ltb, leb, ◌==◌,
  if◌then◌else◌, ltb→lt, lt→ltb, leb→le, le→leb, ==_iff, tests, Bool-cases, Option-cases, length,
  get_elem?, set, length-append, length-set, get_elem?-set_self, get_elem?-set_ne, get_or, take,
  drop, replicate, take-append-drop, length-take, length-drop, length-replicate, length-map,
}
use srvfb.Base.Bytes.{Bytes, put_uint32, uint32, take-append_length, drop-append_length}
use srvfb.Base.Outcome.{Outcome, ok, err, panic, reject_if, ◌>>=◌, ◌>>◌}
use srvfb.Image.{Rectangle, dx, dy}
use srvfb.Png.Canvas.{Canvas}
use srvfb.Png.Format.{
  Mode, cb_invalid, cb_g1, cb_g2, cb_g4, cb_g8, cb_ga8, cb_tc8, cb_p1, cb_p2, cb_p4, cb_p8, cb_tca8,
  cb_g16, cb_ga16, cb_tc16, cb_tca16, Stage, ds_start, ds_seen_ihdr, Error, name_of, ihdr, iend,
  unknown, kind_of, big_endian, read_full,
}
use srvfb.Png.Encoder.{
  Encoder, write, unless_failed, depth_and_type, ihdr_data, write_chunk, write_ihdr,
}
use srvfb.Png.Decoder.{Decoder, read_data, verify_checksum, ignore_chunk}
use srvfb.Png.Decoder.Chunk.{take_chunk, parse_chunk}
use srvfb.Png.Decoder.Header.{is_invalid, not_positive, overflows, mode_of, take_ihdr, parse_ihdr}

pub read_full-append :
    (xs ys : Bytes) (n : ℕ) → length xs ≡ n → read_full n (xs ++ ys) ≡ ok (xs, ys)
unfolding read_full
read_full-append xs ys n h =
    let fits : length xs ≤ length (xs ++ ys) = omega (arith, length-append xs ys) in
    rw (← h, le→leb _ _ fits, take-append_length xs ys, drop-append_length xs ys)

pub big_endian-put_uint32 :
    (n : ℕ) (rest : Bytes) → n < 2 ^ 32 → big_endian (put_uint32 n ++ rest) ≡ n
big_endian-put_uint32 n rest h = omega arith

-- An encoder that has written nothing, on a writer that takes some writes.
abbrev pub new : ℕ → Encoder
new budget = record { out = []; budget = budget; error = none; tmp = (0, 0) }

module _ (crc : Bytes → ℕ) where
  abbrev pub chunk : Bytes → Bytes → Bytes
  chunk b name = ((put_uint32 (length b) ++ name) ++ b) ++ put_uint32 (crc (name ++ b))

  -- Three writes are enough for a chunk.
  pub write_chunk-out :
      (b name : Bytes) (budget : ℕ) (tmp : ℕ × ℕ)
      → length b < 2 ^ 32
      → (write_chunk crc b name
          (record { out = []; budget = suc (suc (suc budget)); error = none; tmp = tmp })).out
        ≡ chunk b name
  unfolding write_chunk unless_failed write
  write_chunk-out b name budget tmp h =
      let small : leb (2 ^ 32) (length b) ≡ false = ground arith in rw small

  -- A chunk, for an encoder that has written something.
  pub write_chunk-eq :
      (b name o : Bytes) (budget : ℕ) (tmp : ℕ × ℕ)
      → length b < 2 ^ 32
      → write_chunk crc b name
          (record { out = o; budget = suc (suc (suc budget)); error = none; tmp = tmp })
        ≡ record {
          out = ((o ++ (put_uint32 (length b) ++ name)) ++ b) ++ put_uint32 (crc (name ++ b));
          budget = budget;
          error = none;
          tmp = tmp;
        }
  unfolding write_chunk unless_failed write
  write_chunk-eq b name o budget tmp h =
      let small : leb (2 ^ 32) (length b) ≡ false = ground arith in rw small refl

  module _ (decode : Decoder → Outcome Error (Option Canvas × Bytes × Bytes))
      (bounded : (b : Bytes) → crc b < 2 ^ 32) where
    pub verify_checksum-footer :
        (d : Decoder) (rest : Bytes)
        → verify_checksum crc (record d { input = put_uint32 (crc d.checked) ++ rest })
          ≡ ok (record d { input = rest })
    unfolding verify_checksum
    verify_checksum-footer d rest =
        rw
          (
            read_full-append (put_uint32 (crc d.checked)) rest 4 refl,
            big_endian-put_uint32 (crc d.checked) [] (bounded d.checked),
          )
          (ground arith)

    -- The header and the type of a chunk are read off; its data and its footer are left.
    pub parse_chunk-chunk :
        (b name : Bytes) (d : Decoder) (rest : Bytes)
        → length b < 2 ^ 32
        → length name ≡ 4
        → parse_chunk crc decode (record d { input = chunk b name ++ rest })
          ≡ take_chunk crc decode
              (kind_of name)
              (length b)
              (record d { input = b ++ (put_uint32 (crc (name ++ b)) ++ rest); checked = name })
    unfolding parse_chunk
    parse_chunk-chunk b name d rest h n =
        let head = put_uint32 (length b) ++ name in
        let tail = b ++ (put_uint32 (crc (name ++ b)) ++ rest) in
        let eight : length head ≡ 8 = omega (arith, n) in
        let split : chunk b name ++ rest ≡ head ++ tail =
          rw (append_assoc (head ++ b) (put_uint32 (crc (name ++ b))) rest, append_assoc head b) in
        rw (split, read_full-append head tail 8 eight, big_endian-put_uint32 (length b) name h)

    -- The data of a chunk goes to the checksum.
    pub read_data-append :
        (b rest : Bytes) (n : ℕ) (d : Decoder)
        → length b ≡ n
        → read_data n (record d { input = b ++ rest })
          ≡ ok (b, record d { input = rest; checked = d.checked ++ b })
    unfolding read_data
    read_data-append b rest n d h = rw (read_full-append b rest n h)

    -- A chunk of an unknown type that the encoder could write, with at most 2 ^ 31 - 1 bytes, is
    -- skipped whole: the decoder goes on with what follows it.
    pub parse_chunk-write_chunk :
        (b name rest : Bytes) (budget : ℕ) (d : Decoder)
        → length b < 2 ^ 31
        → length name ≡ 4
        → kind_of name ≡ unknown
        → parse_chunk crc decode (record d {
          input = (write_chunk crc b name (new (suc (suc (suc budget))))).out ++ rest;
        })
          ≡ ok (record d { input = rest; checked = name ++ b })
    unfolding take_chunk ignore_chunk
    parse_chunk-write_chunk b name rest budget d h n k =
        let short : ltb 0x7fffffff (length b) ≡ false = ground arith in
        rw (
          write_chunk-out b name budget (0, 0) (omega arith),
          parse_chunk-chunk b name d rest (omega arith) n,
          k,
          short,
          read_data-append b (put_uint32 (crc (name ++ b)) ++ rest) (length b)
              (record d { checked = name }) refl,
          verify_checksum-footer (record d { checked = name ++ b }) rest,
        )
