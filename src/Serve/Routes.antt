-- ===== src/Serve/Routes.antt =====
-- srvfb.go, (*handler).ServeHTTP: which method answers a request.
pub mod Safety
use Prim.Native.String.{String}
use text.Mathlib.Text.{◌==◌ as str_eq}
use srvfb.Base.{ℕ, zero, suc, ◌+◌, Bool, not, List, [], ◌∷◌, if◌then◌else◌}
use srvfb.Image.{Gray16}
use srvfb.Handler.{Shot}
use srvfb.Png.Encode.{CompressionLevel, default_compression, best_speed}
use srvfb.Serve.Http.{Event, http_error, index_page, not_found}
use srvfb.Serve.Raw.{serve_raw}
use srvfb.Serve.Video.{Encoding, Server, Answer, serve_video, serve_image}

-- What surrounds a request: whether its ResponseWriter is a Flusher, how many writes the client
-- takes, the device over time, the answer of the proxied server, and how long it is observed.
pub record Surroundings : Type 0 where
  pub flusher : Bool
  pub budget : ℕ
  pub shots : ℕ → Shot
  pub answer : Answer
  pub rounds : ℕ

-- The shots of the first n reads.
abbrev pub first_shots : ℕ → (ℕ → Shot) → List Shot
first_shots zero shots = []
first_shots (suc n) shots = shots 0 ∷ first_shots n (λ t. shots (t + 1))

-- png.Encode is an Encoder with the default level; serveVideo has one of its own.
module _ (encode : CompressionLevel → Gray16 → Encoding) where
  -- h.ServeHTTP(w, r) on a request with this method and path.
  unfoldable pub serve_http : Server → Surroundings → String → String → List Event
  serve_http h x method path =
      if not (str_eq method "GET")
      then http_error "Method not allowed" 405 ∷ []
      else if str_eq path "/"
      then index_page ∷ []
      else if str_eq path "/video"
      then serve_video (encode best_speed) x.flusher h x.answer x.shots x.rounds x.budget
      else if str_eq path "/raw"
      then (if not h.has_fb
          then http_error "Not serving raw streams in proxy mode" 501 ∷ []
          else serve_raw x.flusher (first_shots x.rounds x.shots) x.budget)
      else if str_eq path "/download"
      then serve_image (encode default_compression) h x.answer x.shots x.budget
      else not_found path ∷ []
