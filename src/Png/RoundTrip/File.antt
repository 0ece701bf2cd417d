-- ===== src/Png/RoundTrip/File.antt =====
-- internal/png/reader.go, parseIDAT: the image of several IDAT chunks.
use srvfb.Base.{
  ℕ, suc, ◌^◌, ◌<◌, ◌≡◌, refl, true, false, Option, List, [], ◌∷◌, ◌++◌, append_assoc, arith, ◌==◌,
  length,
}
use srvfb.Base.Bytes.{Bytes, put_uint32}
use srvfb.Base.Outcome.{ok}
use srvfb.Png.Canvas.{Canvas}
use srvfb.Png.Format.{
  cb_g16, ihdr, ds_start, cb_paletted, ds_seen_ihdr, ds_seen_idat, ds_seen_iend, rank, name_of,
  idat, iend,
}
use srvfb.Png.Decoder.{Decoder, parse_iend}
use srvfb.Png.Decoder.Chunk.{parse_idat, take_chunk, parse_chunk}
use srvfb.Png.Chunks.{
  read_full-append, write_chunk-out, chunk, parse_chunk-chunk, verify_checksum-footer,
}
use srvfb.Png.Interlace.{read_image}
use srvfb.Image.{Rectangle, dx, dy}
use srvfb.Png.Encoder.{depth_and_type, ihdr_data, write_ihdr}
use srvfb.Png.Chunks.Header.{IsSized, header_read, parse_chunk-write_ihdr}
use srvfb.Png.Files.{
  Inflated, decode, decode_loop, png_header, check_header, new_decoder, decode_file, decode_config,
  config_loop, color_model, gray16_colors,
}
use srvfb.Png.Files.Fuel.{decode_loop-enough}
use srvfb.Png.RoundTrip.Draw.{flatten}
use srvfb.Png.RoundTrip.Stream.{AllSized, idats, within, IsStream, behind, gather-within}

module _ (crc : Bytes → ℕ) (bounded : (b : Bytes) → crc b < 2 ^ 32) (inflate : Bytes → Inflated)
    (b : Bytes) (bs : List Bytes) (out : Bytes) (z : IsStream inflate (flatten (b ∷ bs)) out)
    (sized : AllSized (b ∷ bs)) where
  -- decode at the first of the chunks.
  decode-chunks :
      (d : Decoder) (rest : Bytes) (img : Option Canvas)
      → ((ck : Bytes)
          → read_image (behind crc bounded inflate (flatten (b ∷ bs)) out z d ck rest) out ≡ ok img)
      → (ck : Bytes) × (decode crc inflate (within crc bounded d [] b bs rest)
          ≡ ok (img, put_uint32 (crc ck) ++ rest, ck))
  unfolding decode
  decode-chunks d rest img f =
      let d' : Decoder = within crc bounded d [] b bs rest in
      let (ck, g) =
        gather-within crc bounded inflate (flatten (b ∷ bs)) out z (suc (length d'.input)) [] d [] b
          bs rest refl sized.2 (omega arith) in
      (ck, rw (g, f ck) refl)

  -- The first IDAT chunk of a picture without a palette takes the other ones with it.
  pub parse_chunk-idats :
      (d : Decoder) (rest : Bytes) (img : Option Canvas)
      → d.stage ≡ ds_seen_ihdr
      → cb_paletted d.cb ≡ false
      → ((ck : Bytes)
          → read_image
              (behind crc bounded inflate
                (flatten (b ∷ bs))
                out
                z
                (record d { stage = ds_seen_idat })
                ck
                rest)
              out
            ≡ ok img)
      → (ck : Bytes) × (parse_chunk crc
            (decode crc inflate)
            (record d { input = idats crc bounded (b ∷ bs) ++ rest })
          ≡ ok (record d {
            stage = ds_seen_idat;
            img = img;
            input = rest;
            checked = ck;
            idat_length = 0;
          }))
  unfolding take_chunk parse_idat
  parse_chunk-idats d rest img st cb f =
      let name = name_of idat in
      let (ck, g) = decode-chunks (record d { stage = ds_seen_idat }) rest img f in
      (
        ck,
        rw
            (
              append_assoc (chunk crc b name) (idats crc bounded bs) rest,
              parse_chunk-chunk crc (decode crc inflate) bounded b name d
                  (idats crc bounded bs ++ rest) sized.1 refl,
              st,
              cb,
              g,
            )
            (verify_checksum-footer crc (decode crc inflate) bounded
              (record d {
                stage = ds_seen_idat;
                img = img;
                input = [];
                checked = ck;
                idat_length = 0;
              })
              rest),
      )

  -- The last chunk of a file.
  pub parse_chunk-iend :
      (d : Decoder)
      → d.stage ≡ ds_seen_idat
      → parse_chunk crc
          (decode crc inflate)
          (record d { input = chunk crc [] (name_of iend) ++ [] })
        ≡ ok (record d { stage = ds_seen_iend; input = []; checked = name_of iend })
  unfolding take_chunk parse_iend
  parse_chunk-iend d st =
      let name = name_of iend in
      rw (parse_chunk-chunk crc (decode crc inflate) bounded [] name d [] (omega arith) refl, st)
        (verify_checksum-footer crc (decode crc inflate) bounded
          (record d { stage = ds_seen_iend; input = []; checked = name }) [])

  -- Rounds of Decode's loop.
  loop_round :
      (n : ℕ) (d d' : Decoder)
      → (rank d.stage == 5) ≡ false
      → parse_chunk crc (decode crc inflate) d ≡ ok d'
      → decode_loop crc inflate (suc n) d ≡ decode_loop crc inflate n d'
  unfolding decode_loop
  loop_round n d d' e f = rw (e, f, decode_loop) refl

  loop_end :
      (n : ℕ) (d : Decoder) → (rank d.stage == 5) ≡ true → decode_loop crc inflate (suc n) d ≡ ok d
  unfolding decode_loop
  loop_end n d e = rw (e, decode_loop) refl

  -- The file of a picture, when its header is written with the IHDR chunk, in the mode cb_g16.
  abbrev pub file : Rectangle → Bytes
  file r =
      png_header
      ++ (chunk crc (ihdr_data r (16, 0)) (name_of ihdr)
          ++ (idats crc bounded (b ∷ bs) ++ (chunk crc [] (name_of iend) ++ [])))

  parse_chunk-header :
      (r : Rectangle) (rest : Bytes) (d : Decoder)
      → IsSized r
      → d.stage ≡ ds_start
      → parse_chunk crc
          (decode crc inflate)
          (record d { input = chunk crc (ihdr_data r (16, 0)) (name_of ihdr) ++ rest })
        ≡ ok (header_read crc (decode crc inflate) bounded r cb_g16 rest d)
  unfolding write_ihdr depth_and_type
  parse_chunk-header r rest d s st =
      rw (write_chunk-out crc (ihdr_data r (16, 0)) (name_of ihdr) 0 (16, 0) (omega arith)) at
        (parse_chunk-write_ihdr crc (decode crc inflate) bounded r cb_g16 rest 0 d s refl st)

  -- Decode, on a file with the chunks.
  pub decode_file-file :
      (r : Rectangle) (img : Option Canvas)
      → IsSized r
      → ((ck : Bytes) (d : Decoder)
          → d.cb ≡ cb_g16
          → d.use_transparent ≡ false
          → d.interlace ≡ 0
          → d.width ≡ dx r
          → d.height ≡ dy r
          → d.palette_len ≡ 0
          → read_image d out ≡ ok img)
      → decode_file crc inflate (file r) ≡ ok img
  unfolding decode_file check_header
  decode_file-file r img s f =
      let last = chunk crc [] (name_of iend) ++ [] in
      let pixels = idats crc bounded (b ∷ bs) ++ last in
      let body = chunk crc (ihdr_data r (16, 0)) (name_of ihdr) ++ pixels in
      let d0 : Decoder = new_decoder body in
      let d1 : Decoder = header_read crc (decode crc inflate) bounded r cb_g16 pixels d0 in
      let (ck, second) =
        parse_chunk-idats d1 last img refl refl (λ ck. f ck _ refl refl refl refl refl refl) in
      let d2 : Decoder = record d1 {
        stage = ds_seen_idat;
        img = img;
        input = last;
        checked = ck;
        idat_length = 0;
      } in
      let n = length body in
      rw
        (
          read_full-append png_header body 8 refl,
          decode_loop-enough crc inflate (suc n) (suc (suc (suc (suc n)))) d0 (omega arith)
              (omega arith),
          loop_round (suc (suc (suc n))) d0 d1 refl (parse_chunk-header r pixels d0 s refl),
          loop_round (suc (suc n)) d1 d2 refl second,
          loop_round (suc n) d2 _ refl (parse_chunk-iend d2 refl),
          loop_end n (record d2 { stage = ds_seen_iend; input = []; checked = name_of iend }) refl,
        )
        refl

  -- DecodeConfig, on such a file.
  pub decode_config-file :
      (r : Rectangle)
      → IsSized r
      → decode_config crc inflate (file r) ≡ ok (gray16_colors, dx r, dy r)
  unfolding decode_config check_header config_loop color_model
  decode_config-file r s =
      let pixels = idats crc bounded (b ∷ bs) ++ (chunk crc [] (name_of iend) ++ []) in
      let body = chunk crc (ihdr_data r (16, 0)) (name_of ihdr) ++ pixels in
      rw
        (
          read_full-append png_header body 8 refl,
          parse_chunk-header r pixels (new_decoder body) s refl,
        )
        refl
