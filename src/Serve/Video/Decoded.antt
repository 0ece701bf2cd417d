-- ===== src/Serve/Video/Decoded.antt =====
-- srvfb.go, serveVideo, with internal/png: what the decoder makes of the parts that a viewer gets.
use srvfb.Base.{
  ℕ, ◌*◌, ◌^◌, ◌≤◌, ◌<◌, ◌≡◌, refl, ap, ap₂, ◌∙◌, inl, inr, true, some, List, [], ◌∷◌, map,
  Bool-cases,
}
use srvfb.Base.Bytes.{Bytes}
use srvfb.Base.Outcome.{Outcome, ok, err, panic}
use srvfb.Image.{Gray16, dx, dy}
use srvfb.Dedup.{Deduper, fresh, skip}
use srvfb.Handler.{Shot}
use srvfb.Serve.Http.{parts}
use srvfb.Serve.Video.{Encoding, whole, torn, Answer, Server, serve_video}
use srvfb.Serve.Video.Frames.{viewed, frames_of, reader_of, png_parts, parts-serve_video}
use srvfb.Png.Format.{Error}
use srvfb.Png.Chunks.Header.{IsSized}
use srvfb.Handler.Lines.{HasLines}
use srvfb.Png.Stages.{Holds}
use srvfb.Png.NoPanic.Encode.{encode_image-Holds}
use srvfb.Png.Picture.{Picture, gray16}
use srvfb.Png.Canvas.{Canvas, gray16_image}
use srvfb.Png.Encoder.{Encoder}
use srvfb.Png.Files.{Inflated, decode_file}
use srvfb.Png.Encode.{CompressionLevel, best_speed, ZlibLevel, encode_image}
use srvfb.Png.RoundTrip.Draw.{flatten}
use srvfb.Png.RoundTrip.Gray.{IsGray16, lines}
use srvfb.Png.RoundTrip.Encoded.{no_rows, IsZlib, source, needed_writes, decode_file-encode_image}

-- What Encode wrote. The only error that it does not keep in the encoder is that of a size that no
-- header has room for, and it returns it before it writes. What it has written when it panics depends
-- on what zlib had handed on.
written_out : Bytes → Outcome Error Encoder → Encoding
written_out before (ok e) = whole e.out
written_out before (err e) = whole []
written_out before panic = torn before

written_out-whole :
    (before : Bytes) (o : Outcome Error Encoder)
    → Holds (λ _. Unit {0}) o
    → (b : Bytes) × (written_out before o ≡ whole b)
unfolding written_out
written_out-whole before (ok e) h = (e.out, refl)
written_out-whole before (err e) h = ([], refl)
written_out-whole before panic h = absurd h

-- The lines of a picture, as far as its rectangle is wide.
abbrev pub canvas : Gray16 → Canvas
canvas im = record {
  kind = gray16_image;
  width = dx im.rect;
  height = dy im.rect;
  pix = flatten (lines im.pix im.stride (2 * dx im.rect) 0 (dy im.rect));
  palette_len = 0;
}

-- The picture as an image.Image, and compress/zlib, and the writes that the writer of each picture
-- takes.
module _ (as_image : Gray16 → Picture) (crc : Bytes → ℕ) (blocks : ZlibLevel → Bytes → List Bytes)
    (room : Gray16 → ℕ) where
  -- `enc.Encode(w, im)`, with an encoder that has no pool of buffers; `before im` is what it has
  -- written if it panics.
  unfoldable pub png_bytes : (Gray16 → Bytes) → CompressionLevel → Gray16 → Encoding
  unfolding written_out
  png_bytes before level im =
      written_out (before im)
        (encode_image crc blocks (source (as_image im) (some true)) level no_rows (0, 0) (room im))

  -- Encode does not panic on a picture that image.Image shows as it is, with all its lines.
  pub png_bytes-whole :
      (before : Gray16 → Bytes) (level : CompressionLevel) (im : Gray16)
      → ((as_image im).bounds ≡ im.rect) × ((as_image im).layout ≡ gray16 im.pix im.stride)
      → HasLines im
      → (b : Bytes) × (png_bytes before level im ≡ whole b)
  unfolding png_bytes
  png_bytes-whole before level im (bounds_eq, layout_eq) h = written_out-whole (before im) _ (
      encode_image-Holds (as_image im) im.pix im.stride layout_eq crc blocks (rw bounds_eq h)
        (some true) level no_rows (0, 0) (room im))

  -- A picture that image.Image shows as it is, whose lines lie in its Pix, of a size that the header
  -- has room for, and a writer that takes the whole file.
  pub record IsEncodable (im : Gray16) : Type 0 where
    pub bounds_eq : (as_image im).bounds ≡ im.rect
    pub gray : IsGray16 (as_image im) im.pix im.stride
    pub size : IsSized (as_image im).bounds
    pub enough : needed_writes (as_image im) blocks best_speed no_rows ≤ room im

  abbrev pub AllEncodable : List Gray16 → Type 0
  AllEncodable [] = Unit {0}
  AllEncodable (im ∷ ims) = IsEncodable im × AllEncodable ims

  viewed-AllEncodable :
      (d : Deduper) (ims : List Gray16) → AllEncodable ims → AllEncodable (viewed d ims)
  unfolding viewed
  viewed-AllEncodable d [] a = tt
  viewed-AllEncodable d (im ∷ ims) (e, a) = elim (Bool-cases (skip d im.pix).0) [
    | inl s ↦ rw s (viewed-AllEncodable (skip d im.pix).1 ims a)
    | inr s ↦ rw s (e, viewed-AllEncodable (skip d im.pix).1 ims a)
  ]

  module _ (bounded : (b : Bytes) → crc b < 2 ^ 32) (inflate : Bytes → Inflated)
      (zlib : IsZlib blocks inflate) where
    decode_file-png_bytes :
        (before : Gray16 → Bytes) (im : Gray16)
        → IsEncodable im
        → (b : Bytes) × (png_bytes before best_speed im ≡ whole b)
          × (decode_file crc inflate b ≡ ok (some (canvas im)))
    unfolding png_bytes
    decode_file-png_bytes before im i =
        let (e, q, _, file, _) =
          decode_file-encode_image crc bounded (as_image im) im.pix im.stride i.gray i.size blocks
            inflate (some true) best_speed no_rows (0, 0) (room im) zlib i.enough in
        (e.out, rw q refl, rw i.bounds_eq at file)

    decoded_parts :
        (before : Gray16 → Bytes) (ims : List Gray16)
        → AllEncodable ims
        → map (λ p. decode_file crc inflate p.body) (png_parts (png_bytes before best_speed) ims)
          ≡ map (λ im. ok (some (canvas im))) ims
    unfolding png_parts
    decoded_parts before [] a = refl
    decoded_parts before (im ∷ ims) (e, a) =
        let (b, q, file) = decode_file-png_bytes before im e in
        rw (q, png_parts) (ap₂ ◌∷◌ file (decoded_parts before ims a))

    -- A viewer that decodes each part of `/video` gets the pictures of the device or of the proxied
    -- server, each with the pixels of its lines, in their order and without the repeated ones. The
    -- pictures are such that Encode and its writer take them (IsEncodable), compress/zlib is as
    -- IsZlib says, checksums have 32 bits, the ResponseWriter is a Flusher, and the client takes two
    -- writes for each round.
    pub serve_video-decoded :
        (before : Gray16 → Bytes) (h : Server) (shots : ℕ → Shot) (answer : Answer)
        (rounds budget : ℕ)
        → 2 * rounds ≤ budget
        → AllEncodable (frames_of rounds (reader_of h answer shots))
        → map
            (λ p. decode_file crc inflate p.body)
            (parts (serve_video (png_bytes before best_speed) true h answer shots rounds budget))
          ≡ map
              (λ im. ok (some (canvas im)))
              (viewed fresh (frames_of rounds (reader_of h answer shots)))
    serve_video-decoded before h shots answer rounds budget enough a =
        let ims = frames_of rounds (reader_of h answer shots) in
        ap (map (λ p. decode_file crc inflate p.body))
          ((parts-serve_video (png_bytes before best_speed) h shots answer rounds budget enough).0)
        ∙ decoded_parts before (viewed fresh ims) (viewed-AllEncodable fresh ims a)
