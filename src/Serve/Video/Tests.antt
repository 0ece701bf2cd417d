-- ===== src/Serve/Video/Tests.antt =====
-- srvfb.go, serveVideo: a small screen, seen by a viewer and through a proxy.
use srvfb.Base.{
  ℕ, ◌/◌, ◌%◌, ◌^◌, ◌≤◌, ◌<◌, ◌≡◌, refl, true, false, some, [], ◌∷◌, map, arith, length,
}
use srvfb.Base.Outcome.{ok}
use srvfb.Image.{Gray16, rect, dx, dy}
use srvfb.Dedup.{skip, deduped, sum32, fresh}
use srvfb.Dedup.Laws.{unsent}
use srvfb.Handler.{swap_bytes, Shot}
use srvfb.Fb.Samples.{shot}
use srvfb.Serve.Http.{parts}
use srvfb.Serve.Raw.{serve_raw}
use srvfb.Serve.Header.{encode, decode}
use srvfb.Proxy.{read_hdr}
use srvfb.Proxy as Proxy
use srvfb.Serve.Video.{Encoding, whole, Server, Answer, answered, unreachable, read, serve_video}
use srvfb.Serve.Video.Samples.{as_image, room, nothing, short_stream}
use srvfb.Serve.Video.Frames.{
  pictures, viewed, frames_of, reader_of, pix_of, png_parts, parts-serve_video,
}
use srvfb.Serve.Video.Decoded.{IsEncodable, canvas, png_bytes, serve_video-decoded}
use srvfb.Serve.Video.Screen.{IsScreen, snapshots, serve_video-snapshots}
use srvfb.Proxy.EndToEnd.{sent}
use srvfb.Serve.Video.Relay.{raw_answer, relayed, parts-relayed}
use srvfb.Proxy.Samples.{whole as all, shot-IsSteady, whole-IsWithin, whole_size}
use srvfb.Png.Filter.RoundTrip.{AllBytes}
use srvfb.Png.Files.{decode_file}
use srvfb.Png.Encode.{best_speed}
use srvfb.Png.RoundTrip.Samples.{blocks, inflate, blocks-IsZlib, crc, crc-lt}

abbrev shots : ℕ → Shot
shots t = shot (t / 4 % 2)

abbrev local : Server
local = record { has_fb = true; proxy_addr = "" }

bytes : (b : ℕ) → b < 2 ^ 8 → AllBytes (shot b).device.mmap
bytes b h = ground arith

screen : IsScreen 4 all 16 shots
unfolding dx dy
screen = record {
  within = whole-IsWithin;
  wide = omega arith;
  fits_png = record {
    width = (omega arith, omega arith);
    height = (omega arith, omega arith);
    area = omega arith;
  };
  steady = λ t. shot-IsSteady (t / 4 % 2);
  bytes = λ t. bytes (t / 4 % 2) (omega arith);
}

serve_video-snapshots_example :
    map
      (λ p. decode_file crc inflate p.body)
      (parts (
        serve_video
          (png_bytes as_image crc blocks room nothing best_speed)
          true
          local
          unreachable
          shots
          9
          18))
    ≡ map (λ im. ok (some (canvas im))) (viewed fresh (snapshots 4 all 16 shots screen 9 0))
serve_video-snapshots_example =
    serve_video-snapshots 4 all 16 shots screen as_image (λ im. (refl, refl)) crc blocks room crc-lt
      inflate blocks-IsZlib (λ t. omega arith) nothing local unreachable 9 18 refl refl
      (omega arith)

-- Another server streams its screen to the proxy.
abbrev proxying : Server
proxying = record { has_fb = false; proxy_addr = "10.11.99.1:1234" }

abbrev stream : Answer
stream = answered (record {
  media = some ("multipart/x-mixed-replace", "endofsection");
  body = parts (serve_raw true (shot 1 ∷ shot 1 ∷ shot 9 ∷ []) 8);
})

abbrev raw_bytes : Gray16 → Encoding
raw_bytes im = whole im.pix

parts-serve_video_example :
    let ims = frames_of 5 (reader_of proxying stream shots) in
    (parts (serve_video raw_bytes true proxying stream shots 5 10)
      ≡ png_parts raw_bytes (viewed fresh ims))
    × (map pix_of (viewed fresh ims) ≡ unsent [] (map pix_of ims))
parts-serve_video_example = parts-serve_video raw_bytes proxying shots stream 5 10 (omega arith)

abbrev line : Gray16
line = record {
  pix = 1 ∷ 2 ∷ 3 ∷ 4 ∷ [];
  stride = 4;
  rect = record { min_x = 0; min_y = 0; max_x = 2; max_y = 1 };
}

line_received : frames_of 3 (reader_of proxying short_stream shots) ≡ line ∷ []
unfolding frames_of reader_of pictures read_hdr encode read Proxy.read_image rect decode
line_received = refl

line-IsEncodable : IsEncodable as_image crc blocks room line
unfolding dx dy
line-IsEncodable = record {
  bounds_eq = refl;
  gray = record {
    layout_eq = refl;
    columns = omega arith;
    wide = omega arith;
    inside = omega arith;
    bytes = (omega arith, (omega arith, (omega arith, (omega arith, tt))));
  };
  size = record {
    width = (omega arith, omega arith);
    height = (omega arith, omega arith);
    area = omega arith;
  };
  enough = omega arith;
}

serve_video-decoded_example :
    map
      (λ p. decode_file crc inflate p.body)
      (parts (
        serve_video
          (png_bytes as_image crc blocks room nothing best_speed)
          true
          proxying
          short_stream
          shots
          3
          6))
    ≡ map
        (λ im. ok (some (canvas im)))
        (viewed fresh (frames_of 3 (reader_of proxying short_stream shots)))
serve_video-decoded_example =
    serve_video-decoded as_image crc blocks room crc-lt inflate blocks-IsZlib nothing proxying shots
      short_stream 3 6 (omega arith) (rw line_received (line-IsEncodable, tt))

few : length (sent 4 all 16 whole-IsWithin (shot 1) (shot 1 ∷ shot 9 ∷ [])) ≤ 5
unfolding sent deduped skip sum32 swap_bytes
few = omega arith

parts-relayed_example :
    parts (
      serve_video raw_bytes true proxying
        (raw_answer 4 all 16 whole-IsWithin (shot 1) (shot 1 ∷ shot 9 ∷ []) 4)
        shots
        5
        10)
    ≡ png_parts raw_bytes (
        viewed fresh (
          map
            (relayed 4 all 16 whole-IsWithin)
            (sent 4 all 16 whole-IsWithin (shot 1) (shot 1 ∷ shot 9 ∷ []))))
parts-relayed_example =
    parts-relayed 4 all 16 whole-IsWithin (shot 1) (shot 1 ∷ shot 9 ∷ []) 4
      (shot-IsSteady 1, (shot-IsSteady 1, (shot-IsSteady 9, tt))) (omega arith) (omega arith)
      whole_size.0 whole_size.1 whole_size.2 raw_bytes proxying shots 5 10 refl few (omega arith)
