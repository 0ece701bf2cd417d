-- ===== src/Serve/Video/Samples.antt =====
-- srvfb.go, serveVideo and serveImage: pictures and a stream for the tests.
use srvfb.Base.{ℕ, some, [], ◌∷◌}
use srvfb.Base.Bytes.{Bytes}
use srvfb.Image.{Gray16}
use srvfb.Serve.Header.{encode}
use srvfb.Serve.Raw.{raw_type}
use srvfb.Serve.Video.{Answer, answered}
use srvfb.Png.Picture.{Picture, gray16}
use srvfb.Png.Encode.{best_speed}
use srvfb.Png.RoundTrip.Encoded.{no_rows, needed_writes}
use srvfb.Png.RoundTrip.Samples.{blocks}

-- A picture as an image.Image; no pixel is asked for.
abbrev pub as_image : Gray16 → Picture
as_image im = record {
  bounds = im.rect;
  layout = gray16 im.pix im.stride;
  gray_at = λ x y. 0;
  gray16_at = λ x y. 0;
  rgba_at = λ x y. (0, 0, 0, 0);
  nrgba_at = λ x y. (0, 0, 0, 0);
  nrgba64_at = λ x y. (0, 0, 0, 0);
  index_at = λ x y. 0;
}

abbrev pub room : Gray16 → ℕ
room im = needed_writes (as_image im) blocks best_speed no_rows

-- Nothing was written when Encode panicked.
abbrev pub nothing : Gray16 → Bytes
nothing im = []

-- A stream of one frame, of one line of two pixels.
abbrev pub short_stream : Answer
short_stream = answered (record {
  media = some ("multipart/x-mixed-replace", "endofsection");
  body =
      record {
        content_type = raw_type;
        body =
            encode (record { version = 1; bits_per_pixel = 16; stride = 4; width = 2; height = 1 });
      }
      ∷ record { content_type = raw_type; body = 1 ∷ 2 ∷ 3 ∷ 4 ∷ [] }
      ∷ [];
})
