-- ===== src/Serve/Video.antt =====
-- srvfb.go: serveVideo and serveImage, which send PNGs of the device or of another server's raw
-- stream.
pub mod Safety
pub mod Frames
pub mod Decoded
pub mod Screen
pub mod Relay
pub mod Samples
mod Tests
use Prim.Native.String.{String}
use text.Mathlib.Text.{◌==◌ as str_eq}
use srvfb.Base.{
  ℕ, zero, suc, ◌+◌, ◌-◌, ◌*◌, ◌/◌, ◌%◌, ◌^◌, ◌≤◌, ◌<◌, min, bit_and, bit_or, bit_xor, ◌≡◌, refl,
  sym, ap, ap₂, ◌∙◌, ◌≡⟨◌⟩◌, ◌∎, ◌≢◌, ◌↔◌, ◌⊎◌, inl, inr, Bool, true, false, not, ◌&&◌, ◌||◌,
  Option, none, some, List, [], ◌∷◌, ◌++◌, map, append-nil, append_assoc, arith, ltb, leb, ◌==◌,
  if◌then◌else◌, ltb→lt, lt→ltb, leb→le, le→leb, ==_iff, tests, Bool-cases, Option-cases, length,
  get_elem?, set, length-append, length-set, get_elem?-set_self, get_elem?-set_ne, get_or, take,
  drop, replicate, take-append-drop, length-take, length-drop, length-replicate, length-map,
}
use srvfb.Base.Bytes.{Bytes}
use srvfb.Base.Outcome.{Outcome, ok, err, panic}
use srvfb.Image.{Gray16}
use srvfb.Dedup.{Deduper, fresh, skip}
use srvfb.Handler.{Error, Shot, new_gray16}
use srvfb.Handler as Handler
use srvfb.Serve.Http.{
  Event, Part, http_error, content_type, write_header, part, write, flush, sleep, close_body,
  crashed, writing,
}
use srvfb.Serve.Raw.{stream_type}
use srvfb.Proxy.{ProxyConn, read_hdr}
use srvfb.Proxy as Proxy

-- The value of the interface with the method readImage. A device shows at each moment the shot that
-- a function gives; the handler of a proxy has no device, and its h.fb.Image() is a panic.
pub data Reader : Type 0 where
  device : (ℕ → Shot) → ℕ → Reader
  no_device : Reader
  proxy : ProxyConn → Reader

advance : (Gray16 → Reader) → Outcome Error Gray16 → Outcome Error (Gray16 × Reader)
advance next (ok im) = ok (im, next im)
advance next (err e) = err e
advance next panic = panic

with_conn : Outcome Error (Gray16 × ProxyConn) → Outcome Error (Gray16 × Reader)
with_conn (ok (im, c)) = ok (im, proxy c)
with_conn (err e) = err e
with_conn panic = panic

-- reader.readImage(im)
unfoldable pub read : Reader → Gray16 → Outcome Error (Gray16 × Reader)
unfolding advance with_conn
read (device shots t) im = advance (λ _. device shots (t + 1)) (Handler.read_image (shots t) im)
read no_device im = panic
read (proxy c) im = with_conn (Proxy.read_image c im)

-- The response to the proxy's request: its Content-Type, parsed, and the parts of its body.
pub record Response : Type 0 where
  pub media : Option (String × String)
  pub body : List Part

-- The server at h.proxy answers, or http.Get fails.
pub data Answer : Type 0 where
  answered : Response → Answer
  unreachable : Answer

-- The handler: whether it has a device, and the address of the server that it is a proxy for.
pub record Server : Type 0 where
  pub has_fb : Bool
  pub proxy_addr : String

abbrev pub png_type : String
png_type = "image/png"

-- dialProxy: the body of a response whose header cannot be read is closed.
dialled : Outcome Error ProxyConn → (Reader → List Event) → List Event
dialled (ok c) k = k (proxy c) ++ (close_body ∷ [])
dialled (err e) k = close_body ∷ http_error "Bad Gateway" 502 ∷ []
dialled panic k = crashed ∷ []

dial_proxy : Answer → (Reader → List Event) → List Event
unfolding dialled
dial_proxy unreachable k = http_error "Bad Gateway" 502 ∷ []
dial_proxy (answered resp) k = dialled (read_hdr resp.media resp.body) k

local_reader : Bool → (ℕ → Shot) → Reader
local_reader true shots = device shots 0
local_reader false shots = no_device

-- What both methods begin with: the proxied server if there is one, or the handler's device.
-- The connection to the server is closed when the method returns.
unfoldable pub with_reader : Server → Answer → (ℕ → Shot) → (Reader → List Event) → List Event
unfolding dial_proxy local_reader
with_reader h answer shots k =
    if not (str_eq h.proxy_addr "") then dial_proxy answer k else k (local_reader h.has_fb shots)

-- What Encode of package png has written when it returns, or when it panics. Its error is dropped.
pub data Encoding : Type 0 where
  whole torn : Bytes → Encoding

-- The writes of an Encode, and what follows it, if it returns. If the client takes no more writes, the
-- first of them fails, and Encode returns before it looks at a pixel.
unfoldable pub encoded : Encoding → (ℕ → List Event) → ℕ → List Event
encoded e rest zero = rest 0
encoded (whole b) rest (suc budget) = write b ∷ rest budget
encoded (torn b) rest (suc budget) = write b ∷ crashed ∷ []

-- package png, which writes an image.
module _ (encode : Gray16 → Encoding) where
  -- `enc.Encode(w, im)` and `flusher.Flush()`.
  send_png : Gray16 → (ℕ → List Event) → ℕ → List Event
  unfolding encoded
  send_png im rest = encoded (encode im) (λ budget. flush ∷ rest budget)

  -- The first rounds of the endless loop.
  unfoldable pub video_loop : ℕ → Reader → Gray16 → Deduper → ℕ → List Event
  unfolding send_png
  video_loop zero reader im dedup budget = []
  video_loop (suc rounds) reader im dedup budget = elim (read reader im) [
    | err e ↦ []
    | panic ↦ crashed ∷ []
    | ok (im', reader') ↦
        let dedup' = (skip dedup im'.pix).1 in
        elim ((skip dedup im'.pix).0) [
          | true ↦ sleep 500 ∷ video_loop rounds reader' im' dedup' budget
          | false ↦
              writing (part png_type) (send_png im' (video_loop rounds reader' im' dedup')) budget
        ]
  ]

  video_body : ℕ → Reader → ℕ → List Event
  video_body rounds reader budget =
      content_type stream_type ∷ write_header 200 ∷ video_loop rounds reader new_gray16 fresh budget

  image_body : Outcome Error (Gray16 × Reader) → ℕ → List Event
  image_body (ok (im, _)) budget = content_type png_type ∷ encoded (encode im) (λ _. []) budget
  image_body (err e) budget = http_error "Internal Server Error" 500 ∷ []
  image_body panic budget = crashed ∷ []

  -- h.serveVideo(w, r), for some rounds of its loop.
  unfoldable pub serve_video : Bool → Server → Answer → (ℕ → Shot) → ℕ → ℕ → List Event
  unfolding video_body
  serve_video false h answer shots rounds budget = http_error "Internal Server Error" 500 ∷ []
  serve_video true h answer shots rounds budget =
      with_reader h answer shots (λ reader. video_body rounds reader budget)

  -- h.serveImage(w, r)
  unfoldable pub serve_image : Server → Answer → (ℕ → Shot) → ℕ → List Event
  unfolding image_body
  serve_image h answer shots budget =
      with_reader h answer shots (λ reader. image_body (read reader new_gray16) budget)
