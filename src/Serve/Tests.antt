-- ===== src/Serve/Tests.antt =====
-- srvfb.go: requests.
use srvfb.Base.{ℕ, ◌*◌, ◌≡◌, refl, ap, true, false, [], ◌∷◌, arith}
use srvfb.Image.{Gray16}
use srvfb.Fb.{Reply, done, errno}
use srvfb.Fb.Types.{VarScreeninfo}
use srvfb.Fb.Samples.{panned, shot}
use srvfb.Base.Outcome.{Outcome, ok}
use srvfb.Handler.{Error}
use srvfb.Proxy.{ProxyConn, read_hdr}
use srvfb.Serve.Header.{encode as header, decode}
use srvfb.Serve.Http.{http_error}
use srvfb.Serve.Video.{Encoding, Server, unreachable, serve_video, serve_image, with_reader}
use srvfb.Serve.Video.Safety.{crashes, IsClean, HasRoom, serves-IsClean}
use srvfb.Serve.Routes.{Surroundings, serve_http}
use srvfb.Serve.Routes.Safety.{serve_http-safe}
use srvfb.Handler.Lines.{IsSane}
use srvfb.Png.Encode.{CompressionLevel, best_speed, default_compression}
use srvfb.Png.RoundTrip.Samples.{blocks, crc}
use srvfb.Serve.Video.Decoded.{png_bytes}
use srvfb.Serve.Video.Samples.{as_image, room, nothing, short_stream}

-- png.Encode, at each level.
abbrev encode : CompressionLevel → Gray16 → Encoding
encode = png_bytes as_image crc blocks room nothing

abbrev proxying : Server
proxying = record { has_fb = false; proxy_addr = "10.11.99.1:1234" }

abbrev surroundings : Surroundings
surroundings = record {
  flusher = true;
  budget = 9;
  shots = λ t. shot t;
  answer = unreachable;
  rounds = 3;
}

raw_of_proxy :
    serve_http encode proxying surroundings "GET" "/raw"
    ≡ http_error "Not serving raw streams in proxy mode" 501 ∷ []
unfolding serve_http serve_video with_reader
raw_of_proxy = refl

unreachable_video :
    serve_http encode proxying surroundings "GET" "/video" ≡ http_error "Bad Gateway" 502 ∷ []
unfolding serve_http serve_video with_reader
unreachable_video = refl

posted :
    serve_http encode proxying surroundings "POST" "/" ≡ http_error "Method not allowed" 405 ∷ []
unfolding serve_http
posted = refl

abbrev local : Server
local = record { has_fb = true; proxy_addr = "" }

replied : Reply VarScreeninfo → VarScreeninfo
replied (done v) = v
replied (errno n) = panned 0

shot-IsSane : (b : ℕ) → IsSane (shot b)
unfolding replied
shot-IsSane b =
    let same = λ (v : VarScreeninfo) (e : done (panned 0) ≡ done v). ap replied e in
    record {
      packed = λ v e. rw (← same v e) (omega arith);
      small = λ v e. rw (← same v e) (omega arith);
      offset_inside = λ v e. rw (← same v e) (omega arith);
      lines_inside = λ v e. rw (← same v e) (omega arith);
    }

serve_http-safe_example : crashes (serve_http encode local surroundings "GET" "/video") ≡ 0
serve_http-safe_example =
    serve_http-safe as_image (λ im. (refl, refl)) crc blocks room nothing local surroundings "GET"
      "/video" refl (λ t. shot-IsSane t) tt

length_of : Outcome Error ProxyConn → ℕ
length_of (ok c) = c.stride * c.height
length_of _ = 0

short_stream-HasRoom : HasRoom short_stream
unfolding length_of read_hdr header decode
short_stream-HasRoom c e = let n : 4 ≡ c.stride * c.height = ap length_of e in omega (arith, n)

-- A frame of the proxied server is sent to a client that takes some writes, and then downloaded.
serves-IsClean_example :
    IsClean proxying short_stream
      (serve_video (encode best_speed) true proxying short_stream (λ t. shot t) 3 9)
    × IsClean proxying short_stream
        (serve_image (encode default_compression) proxying short_stream (λ t. shot t) 9)
serves-IsClean_example =
    serves-IsClean as_image (λ im. (refl, refl)) crc blocks room nothing proxying short_stream
      (λ t. shot t) 3 9 refl (λ t. shot-IsSane t) short_stream-HasRoom
