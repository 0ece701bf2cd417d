-- ===== src/Serve/Video/Screen.antt =====
-- srvfb.go, serveVideo on a device whose screen stays where it is: from the memory of the
-- framebuffer to the pictures that a viewer decodes.
use text.Mathlib.Text.{◌==◌ as str_eq}
use srvfb.Base.{
  ℕ, zero, suc, ◌+◌, ◌*◌, ◌^◌, ◌≤◌, ◌<◌, ◌≡◌, refl, ap, true, some, List, [], ◌∷◌, map, arith,
  length,
}
use srvfb.Base.Bytes.{Bytes}
use srvfb.Base.Outcome.{ok}
use srvfb.Image.{Rectangle, Gray16, dx, dy}
use srvfb.Dedup.{fresh}
use srvfb.Handler.{Shot, new_gray16, swap_bytes}
use srvfb.Handler.Frames.{length-swap_bytes}
use srvfb.Serve.Http.{parts}
use srvfb.Serve.Video.{device, read, Answer, Server, serve_video, local_reader}
use srvfb.Serve.Video.Frames.{pictures, viewed, frames_of, reader_of}
use srvfb.Serve.Video.Decoded.{canvas, png_bytes, IsEncodable, AllEncodable, serve_video-decoded}
use srvfb.Proxy.EndToEnd.{IsSteady, IsWithin, shown, read_image-steady}
use srvfb.Png.Chunks.Header.{IsSized}
use srvfb.Png.Filter.RoundTrip.{AllBytes}
use srvfb.Png.Picture.{Picture, gray16}
use srvfb.Png.Files.{Inflated, decode_file}
use srvfb.Png.Encode.{best_speed, ZlibLevel}
use srvfb.Png.RoundTrip.Encoded.{no_rows, IsZlib, needed_writes}

swap_bytes-AllBytes : (xs : Bytes) → AllBytes xs → AllBytes (swap_bytes xs)
unfolding swap_bytes
swap_bytes-AllBytes [] h = h
swap_bytes-AllBytes (a ∷ []) h = h
swap_bytes-AllBytes (a ∷ b ∷ r) (p, (q, h)) = (q, (p, swap_bytes-AllBytes r h))

-- A screen for the viewer: the lines of the rectangle lie in the memory, are wide enough for its
-- pixels, and fit a PNG; the memory is made of bytes.
pub record IsScreen (stride : ℕ) (r : Rectangle) (size : ℕ) (shots : ℕ → Shot) : Type 0 where
  pub within : IsWithin stride r size
  pub wide : 2 * dx r ≤ stride
  pub fits_png : IsSized r
  pub steady : (t : ℕ) → IsSteady stride r size (shots t)
  pub bytes : (t : ℕ) → AllBytes (shots t).device.mmap

module _ (stride : ℕ) (r : Rectangle) (size : ℕ) (shots : ℕ → Shot)
    (screen : IsScreen stride r size shots) where
  -- The memory at time t, in big-endian pixels, with the rectangle.
  abbrev pub snapshot : ℕ → Gray16
  snapshot t = shown stride r size screen.within (shots t)

  abbrev pub snapshots : ℕ → ℕ → List Gray16
  snapshots zero t = []
  snapshots (suc n) t = snapshot t ∷ snapshots n (t + 1)

  pictures-device :
      (n t : ℕ) (im : Gray16)
      → length im.pix ≤ size
      → pictures n (device shots t) im ≡ snapshots n t
  unfolding pictures read
  pictures-device zero t im l = refl
  pictures-device (suc n) t im l =
      let small : length (snapshot t).pix ≤ size =
        omega (arith, length-swap_bytes (shots t).device.mmap, (screen.steady t).sized) in
      rw (read_image-steady stride r size screen.within (shots t) im (screen.steady t) l, pictures)
        (ap (◌∷◌ (snapshot t)) (pictures-device n (t + 1) (snapshot t) small))

  lines_inside : dy r * stride ≤ size
  unfolding dy
  lines_inside =
      let fits = screen.within.fits in let d : dy r ≤ r.max_y = omega arith in grind arith

  module _ (as_image : Gray16 → Picture)
      (views : (im : Gray16)
        → ((as_image im).bounds ≡ im.rect) × ((as_image im).layout ≡ gray16 im.pix im.stride))
      (crc : Bytes → ℕ) (blocks : ZlibLevel → Bytes → List Bytes) (room : Gray16 → ℕ) where
    snapshot-IsEncodable :
        (t : ℕ)
        → needed_writes (as_image (snapshot t)) blocks best_speed no_rows ≤ room (snapshot t)
        → IsEncodable as_image crc blocks room (snapshot t)
    snapshot-IsEncodable t enough =
        let (b, l) = views (snapshot t) in
        let fits = screen.fits_png in
        record {
          bounds_eq = b;
          gray = record {
            layout_eq = l;
            columns = rw b (fits.width.0);
            wide = rw b screen.wide;
            inside = rw b (
                omega (
                  arith,
                  lines_inside,
                  length-swap_bytes (shots t).device.mmap,
                  (screen.steady t).sized,
                ));
            bytes = swap_bytes-AllBytes (shots t).device.mmap (screen.bytes t);
          };
          size = rw b fits;
          enough = enough;
        }

    snapshots-AllEncodable :
        ((t : ℕ)
          → needed_writes (as_image (snapshot t)) blocks best_speed no_rows ≤ room (snapshot t))
        → (n t : ℕ) → AllEncodable as_image crc blocks room (snapshots n t)
    snapshots-AllEncodable enough zero t = tt
    snapshots-AllEncodable enough (suc n) t =
        (snapshot-IsEncodable t (enough t), snapshots-AllEncodable enough n (t + 1))

    -- A viewer of `/video` that decodes each part gets, of a device whose screen stays at one place
    -- of its memory, the snapshots of the memory in their order and without the repeated ones: of
    -- each, as many lines as the rectangle is high, from the beginning of the memory and not from
    -- the rectangle's first line, each as far as the rectangle is wide, in big-endian pixels. The
    -- handler is no proxy, image.Image shows pictures as they are, compress/zlib is as IsZlib says,
    -- checksums have 32 bits, writers take each PNG as a whole, the ResponseWriter is a Flusher, and
    -- the client takes two writes for each round.
    pub serve_video-snapshots :
        (bounded : (b : Bytes) → crc b < 2 ^ 32) (inflate : Bytes → Inflated)
        → IsZlib blocks inflate
        → ((t : ℕ)
            → needed_writes (as_image (snapshot t)) blocks best_speed no_rows ≤ room (snapshot t))
        → (before : Gray16 → Bytes) (h : Server) (answer : Answer) (rounds budget : ℕ)
        → str_eq h.proxy_addr "" ≡ true
        → h.has_fb ≡ true
        → 2 * rounds ≤ budget
        → map
            (λ p. decode_file crc inflate p.body)
            (parts (
              serve_video
                (png_bytes as_image crc blocks room before best_speed)
                true
                h
                answer
                shots
                rounds
                budget))
          ≡ map (λ im. ok (some (canvas im))) (viewed fresh (snapshots rounds 0))
    unfolding reader_of frames_of local_reader
    serve_video-snapshots bounded inflate zlib enough before h answer rounds budget p f b =
        let shown_here : frames_of rounds (reader_of h answer shots) ≡ snapshots rounds 0 =
          rw (p, f) (pictures-device rounds 0 new_gray16 (omega arith)) in
        let all = snapshots-AllEncodable enough rounds 0 in
        rw shown_here at (
          serve_video-decoded as_image crc blocks room bounded inflate zlib before h shots answer
            rounds budget b (rw shown_here all))
