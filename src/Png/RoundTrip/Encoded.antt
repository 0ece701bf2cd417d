-- ===== src/Png/RoundTrip/Encoded.antt =====
-- internal/png: Encode and Decode on the frames of the program.
use srvfb.Base.{
  ℕ, suc, ◌+◌, ◌-◌, ◌*◌, ◌^◌, ◌≤◌, ◌<◌, ◌≡◌, refl, sym, ap, ap₂, ◌∙◌, Bool, false, Option, none,
  some, List, [], ◌∷◌, ◌++◌, append_assoc, arith, leb, ◌==◌, length,
}
use srvfb.Base.Bytes.{Bytes, append-nil_eq, put_uint32}
use srvfb.Base.Outcome.{Outcome, ok}
use srvfb.Image.{dx, dy}
use srvfb.Png.Canvas.{Canvas, gray16_image}
use srvfb.Png.Format.{cb_g16, Error, name_of, ihdr, iend}
use srvfb.Png.Encoder.{Encoder, write, depth_and_type, ihdr_data, write_ihdr, write_iend}
use srvfb.Png.Decoder.{Decoder}
use srvfb.Png.Chunks.{chunk, write_chunk-eq}
use srvfb.Png.Chunks.Header.{IsSized}
use srvfb.Png.Filter.{Rows}
use srvfb.Png.Picture.{Picture}
use srvfb.Png.Pass.{read_size}
use srvfb.Png.Writer.{write_image}
use srvfb.Png.Interlace.{read_image}
use srvfb.Png.Files.{Inflated, new_decoder, gray16_colors, png_header, decode_file, decode_config}
use srvfb.Png.Encode.{
  Source, gray16_model, CompressionLevel, ZlibLevel, level_to_zlib, compresses, palette_of,
  direct_mode, chosen_mode, write_idats, encode_image,
}
use srvfb.Png.RoundTrip.Draw.{flatten}
use srvfb.Png.RoundTrip.Gray.{IsGray16, picture_lines, read_size-write_image}
use srvfb.Png.RoundTrip.Stream.{AllSized, idats, IsStream}
use srvfb.Png.RoundTrip.Blocks.{writes, writes-eq, write_blocks-eq}
use srvfb.Png.RoundTrip.File.{file, decode_file-file, decode_config-file}

-- The value, if there is one.
abbrev pub value_or {ℓ} : {A : Type ℓ} → A → Outcome Error A → A
value_or a (ok b) = b
value_or a _ = a

-- compress/zlib with the bufio.Writer behind it, and the decompression: the blocks that they hand
-- on have a byte at least and fit a chunk, and together they are the stream of the rows.
pub record IsZlib (blocks : ZlibLevel → Bytes → List Bytes) (inflate : Bytes → Inflated)
    : Type 0 where
  pub several : (l : ZlibLevel) (rows : Bytes) → 0 < length (blocks l rows)
  pub sized : (l : ZlibLevel) (rows : Bytes) → AllSized (blocks l rows)
  pub streams : (l : ZlibLevel) (rows : Bytes) → IsStream inflate (flatten (blocks l rows)) rows

-- The canvas with the pixels of the picture.
abbrev pub decoded : (m : Picture) (pix : Bytes) (stride : ℕ) → IsGray16 m pix stride → ℕ → Canvas
decoded m pix stride g len = record {
  kind = gray16_image;
  width = dx m.bounds;
  height = dy m.bounds;
  pix = flatten (picture_lines m pix stride g);
  palette_len = len;
}

-- The buffers of a new encoder.
abbrev pub no_rows : Rows
no_rows = record { none_row = []; sub_row = []; up_row = []; average_row = []; paeth_row = [] }

-- The picture as an image.Image, of color model Gray16.
abbrev pub source : Picture → Option Bool → Source
source m o = record { picture = m; model = gray16_model; has_indices = false; opaquer = o }

-- The writes that the file of the picture takes, with the rows that zlib is given.
abbrev pub needed_writes : Picture → (ZlibLevel → Bytes → List Bytes) → CompressionLevel → Rows → ℕ
needed_writes m blocks level kept =
    let l = level_to_zlib level in
    7 + 3 * length (blocks l (value_or [] (write_image m cb_g16 (compresses l) kept (dy m.bounds))))

module _ (crc : Bytes → ℕ) (bounded : (b : Bytes) → crc b < 2 ^ 32) where
  module _ (m : Picture) (pix : Bytes) (stride : ℕ) (g : IsGray16 m pix stride)
      (s : IsSized m.bounds) (blocks : ZlibLevel → Bytes → List Bytes)
      (inflate : Bytes → Inflated) where
    -- What readImagePass makes of the rows that writeImage gave to zlib.
    read_size-rows :
        (compressed : Bool) (kept : Rows) (rows : Bytes) (d : Decoder)
        → write_image m cb_g16 compressed kept (dy m.bounds) ≡ ok rows
        → d.cb ≡ cb_g16
        → d.use_transparent ≡ false
        → read_size d (dx m.bounds) (dy m.bounds) rows
          ≡ ok (some (decoded m pix stride g d.palette_len), [])
    read_size-rows compressed kept rows d e c t =
        let (stream, written, read) =
          read_size-write_image m pix stride g compressed kept (dy m.bounds) d [] (omega arith) c
            t in
        let same : stream ≡ rows = ap (value_or rows) (sym written ∙ e) in
        rw same at (rw (append-nil_eq stream) at read)

    read_image-rows :
        (compressed : Bool) (kept : Rows) (rows : Bytes) (d : Decoder)
        → write_image m cb_g16 compressed kept (dy m.bounds) ≡ ok rows
        → d.cb ≡ cb_g16
        → d.use_transparent ≡ false
        → d.interlace ≡ 0
        → d.width ≡ dx m.bounds
        → d.height ≡ dy m.bounds
        → d.palette_len ≡ 0
        → read_image d rows ≡ ok (some (decoded m pix stride g 0))
    unfolding read_image
    read_image-rows compressed kept rows d e c t i wd ht len =
        let size = ap₂ (λ a b. read_size d a b rows) wd ht in
        rw (size ∙ read_size-rows compressed kept rows d e c t, i, len) refl

    -- What Encode writes, when zlib makes these blocks of the rows.
    written :
        (o : Option Bool) (level : CompressionLevel) (kept : Rows) (tmp : ℕ × ℕ) (rows : Bytes)
        (extra : ℕ)
        → AllSized (blocks (level_to_zlib level) rows)
        → write_image m cb_g16 (compresses (level_to_zlib level)) kept (dy m.bounds) ≡ ok rows
        → encode_image crc blocks (source m o) level kept tmp (
            suc (
              suc (suc (suc (writes (blocks (level_to_zlib level) rows) (suc (suc (suc extra))))))))
          ≡ ok (record {
            out =
                ((png_header ++ chunk crc (ihdr_data m.bounds (16, 0)) (name_of ihdr))
                  ++ idats crc bounded (blocks (level_to_zlib level) rows))
                ++ chunk crc [] (name_of iend);
            budget = extra;
            error = none;
            tmp = (16, 0);
          })
    unfolding encode_image chosen_mode palette_of direct_mode write write_ihdr depth_and_type
        write_idats write_iend
    written o level kept tmp rows extra h e =
        let bs = blocks (level_to_zlib level) rows in
        let name = name_of ihdr in
        let body = ihdr_data m.bounds (16, 0) in
        let w = s.width in
        let ht = s.height in
        let a : (dx m.bounds == 0) ≡ false = ground (arith, w.0) in
        let b : (dy m.bounds == 0) ≡ false = ground (arith, ht.0) in
        let c : leb (2 ^ 32) (dx m.bounds) ≡ false = ground (arith, w.1) in
        let d : leb (2 ^ 32) (dy m.bounds) ≡ false = ground (arith, ht.1) in
        let k = suc (suc (suc extra)) in
        rw
          (
            a,
            b,
            c,
            d,
            write_chunk-eq crc body name png_header (writes bs k) (16, 0) (omega arith),
            e,
            write_blocks-eq crc bounded bs
                ((((png_header ++ (put_uint32 (length body) ++ name)) ++ body)
                  ++ put_uint32 (crc (name ++ body))))
                k (16, 0) h,
            write_chunk-eq crc [] (name_of iend)
                ((((png_header ++ (put_uint32 (length body) ++ name)) ++ body)
                    ++ put_uint32 (crc (name ++ body)))
                  ++ idats crc bounded bs)
                extra (16, 0) (omega arith),
          )
          (let x = (png_header ++ chunk crc body name) ++ idats crc bounded bs in
            let head = put_uint32 0 ++ name_of iend in
            let foot = put_uint32 (crc (name_of iend)) in
            ap (λ out. ok (record { out = out; budget = extra; error = none; tmp = (16, 0) }))
              (ap (λ y. y ++ foot) (append_assoc x head []) ∙ append_assoc x (head ++ []) foot))

    -- What Encode writes, as a whole, and what the decoder makes of it.
    abbrev bytes_of : List Bytes → Bytes
    bytes_of bs =
        ((png_header ++ chunk crc (ihdr_data m.bounds (16, 0)) (name_of ihdr))
          ++ idats crc bounded bs)
        ++ chunk crc [] (name_of iend)

    decoded_blocks :
        (compressed : Bool) (kept : Rows) (rows : Bytes) (bs : List Bytes)
        → write_image m cb_g16 compressed kept (dy m.bounds) ≡ ok rows
        → 0 < length bs
        → AllSized bs
        → IsStream inflate (flatten bs) rows
        → (decode_file crc inflate (bytes_of bs) ≡ ok (some (decoded m pix stride g 0)))
          × (decode_config crc inflate (bytes_of bs) ≡ ok (gray16_colors, dx m.bounds, dy m.bounds))
    decoded_blocks compressed kept rows [] e n h z = absurd (omega arith)
    decoded_blocks compressed kept rows (b ∷ bs) e n h z =
        let header = chunk crc (ihdr_data m.bounds (16, 0)) (name_of ihdr) in
        let last = chunk crc [] (name_of iend) in
        let pixels = idats crc bounded (b ∷ bs) in
        let whole : bytes_of (b ∷ bs) ≡ file crc bounded inflate b bs rows z h m.bounds =
          append_assoc (png_header ++ header) pixels last
          ∙ ap (λ l. (png_header ++ header) ++ (pixels ++ l)) (sym (append-nil_eq last)) in
        (
          ap (decode_file crc inflate) whole
              ∙ decode_file-file crc bounded inflate b bs rows z h m.bounds
                  (some (decoded m pix stride g 0)) s
                  (λ ck d c t i wd ht len.
                    read_image-rows compressed kept rows d e c t i wd ht len),
          ap (decode_config crc inflate) whole
              ∙ decode_config-file crc bounded inflate b bs rows z h m.bounds s,
        )

    -- Encode, then Decode, for a picture of type *image.Gray16 with at least one pixel, a size that
    -- fits the header, and lines that lie in its Pix: with every compression level, whatever the
    -- encoder's buffers held, for a compression that IsZlib describes, a checksum of 32 bits, and a
    -- writer that takes as many writes as the file needs, Encode ends without an error, and Decode
    -- of the bytes that it wrote is an *image.Gray16 of the same size with the same pixels;
    -- DecodeConfig of them finds the model Gray16 and the size.
    pub decode_file-encode_image :
        (o : Option Bool) (level : CompressionLevel) (kept : Rows) (tmp : ℕ × ℕ) (budget : ℕ)
        → IsZlib blocks inflate
        → needed_writes m blocks level kept ≤ budget
        → (e : Encoder) × (encode_image crc blocks (source m o) level kept tmp budget ≡ ok e)
          × (e.error ≡ none)
          × (decode_file crc inflate e.out ≡ ok (some (decoded m pix stride g 0)))
          × (decode_config crc inflate e.out ≡ ok (gray16_colors, dx m.bounds, dy m.bounds))
    decode_file-encode_image o level kept tmp budget z enough =
        let l = level_to_zlib level in
        let cd : Decoder = record (new_decoder []) { cb = cb_g16 } in
        let (rows, e, _) =
          read_size-write_image m pix stride g (compresses l) kept (dy m.bounds) cd [] (omega arith)
            refl refl in
        let bs = blocks l rows in
        let fits : 7 + 3 * length bs ≤ budget = rw e at enough in
        let extra = budget - (7 + 3 * length bs) in
        let count : suc (suc (suc (suc (writes bs (suc (suc (suc extra))))))) ≡ budget =
          omega (arith, writes-eq bs (suc (suc (suc extra)))) in
        let (image, config) =
          decoded_blocks (compresses l) kept rows bs e (z.several l rows) (z.sized l rows)
            (z.streams l rows) in
        (
          _,
          rw count at (written o level kept tmp rows extra (z.sized l rows) e),
          refl,
          image,
          config,
        )
