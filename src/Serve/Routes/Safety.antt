-- ===== src/Serve/Routes/Safety.antt =====
-- srvfb.go, ServeHTTP: no request makes a handler crash, on a device that the kernel keeps sane.
use Prim.Native.String.{String}
use text.Mathlib.Text.{◌==◌ as str_eq}
use srvfb.Base.{
  ℕ, zero, suc, ◌+◌, ◌≡◌, refl, inl, inr, Bool, true, false, not, List, [], ◌∷◌, if◌then◌else◌,
  Bool-cases,
}
use srvfb.Base.Bytes.{Bytes}
use srvfb.Base.Outcome.{ok, slice-in_bounds}
use srvfb.Image.{Gray16}
use srvfb.Dedup.{Deduper, fresh, skip}
use srvfb.Handler.{Shot, read_image, new_gray16}
use srvfb.Handler.Lines.{IsSane, read_image-inside, read_image-cases}
use srvfb.Serve.Http.{Event, writing}
use srvfb.Serve.Raw.{visible, raw_loop, serve_raw}
use srvfb.Png.Picture as Png
use srvfb.Png.Encode.{CompressionLevel, ZlibLevel, best_speed, default_compression}
use srvfb.Serve.Video.{Encoding, Server, serve_video, serve_image}
use srvfb.Serve.Video.Decoded.{png_bytes}
use srvfb.Serve.Video.Safety.{HasRoom, crashes, IsClean, IsServer, IsView, serves-IsClean}
use srvfb.Serve.Routes.{Surroundings, first_shots, serve_http}

-- The lines that serveRaw sends are in the buffer.
visible-read :
    (s : Shot) (im out : Gray16)
    → IsSane s
    → read_image s im ≡ ok out
    → (pix : Bytes) × (visible out ≡ ok pix)
unfolding visible
visible-read s im out sane e =
    let (before, inside) = read_image-inside s im out sane e in
    (_, slice-in_bounds out.pix _ _ before inside)

abbrev AllSane : List Shot → Type 0
AllSane [] = Unit {0}
AllSane (s ∷ shots) = IsSane s × AllSane shots

first_shots-AllSane :
    (n : ℕ) (shots : ℕ → Shot) → ((t : ℕ) → IsSane (shots t)) → AllSane (first_shots n shots)
first_shots-AllSane zero shots h = tt
first_shots-AllSane (suc n) shots h =
    (h 0, first_shots-AllSane n (λ t. shots (t + 1)) (λ t. h (t + 1)))

no_crash-writing :
    (e : Event) (rest : ℕ → List Event) (budget : ℕ)
    → ((b : ℕ) → crashes (e ∷ rest b) ≡ 0)
    → crashes (writing e rest budget) ≡ 0
no_crash-writing e rest zero h = refl
no_crash-writing e rest (suc b) h = h b

raw_loop-safe :
    (shots : List Shot) (im : Gray16) (d : Deduper) (budget : ℕ)
    → AllSane shots
    → crashes (raw_loop shots im d budget) ≡ 0
unfolding raw_loop
raw_loop-safe [] im d budget h = refl
raw_loop-safe (s ∷ shots) im d budget (sane, h) = elim (read_image-cases s im) [
  | inl (e, q) ↦ rw (q, raw_loop) refl
  | inr (out, q) ↦
      let (pix, v) = visible-read s im out sane q in
      let d' = (skip d pix).1 in
      rw (q, raw_loop)
        (rw (v, raw_loop)
          (elim (Bool-cases (skip d pix).0) [
            | inl e ↦ rw e (raw_loop-safe shots out d' budget h)
            | inr e ↦ rw e (
                no_crash-writing _ _ budget
                  (λ b. no_crash-writing _ _ b (λ b'. raw_loop-safe shots out d' b' h)))
          ]))
]

serve_raw-safe :
    (flusher : Bool) (shots : List Shot) (budget : ℕ)
    → AllSane shots
    → crashes (serve_raw flusher shots budget) ≡ 0
unfolding serve_raw
serve_raw-safe false shots budget h = refl
serve_raw-safe true [] budget h = refl
serve_raw-safe true (s ∷ shots) budget (sane, h) = elim (read_image-cases s new_gray16) [
  | inl (e, q) ↦ rw (q, serve_raw) refl
  | inr (out, q) ↦
      let (pix, v) = visible-read s new_gray16 out sane q in
      rw (q, serve_raw)
        (no_crash-writing _ _ budget (λ a. no_crash-writing _ _ a (λ b.
          no_crash-writing _ _ b
            (λ c. rw v (no_crash-writing _ _ c (λ c'. raw_loop-safe shots out fresh c' h))))))
]

crashes-if :
    (b : Bool) (x y : List Event) → crashes x ≡ 0 → crashes y ≡ 0 → crashes (if b then x else y) ≡ 0
crashes-if true x y h k = h
crashes-if false x y h k = k

module _ (as_image : Gray16 → Png.Picture) (views : IsView as_image) (crc : Bytes → ℕ)
    (blocks : ZlibLevel → Bytes → List Bytes) (room : Gray16 → ℕ) (before : Gray16 → Bytes) where
  abbrev encoder : CompressionLevel → Gray16 → Encoding
  encoder = png_bytes as_image crc blocks room before

  -- On a device that the kernel keeps sane (IsSane) at every read, with a handler that has a device
  -- exactly if it is no proxy, no request makes the handler crash, whatever its method and path,
  -- what the device's memory holds, how the proxied server answers, except for a header that asks
  -- for a larger buffer than make allocates (HasRoom), and how much the client takes. The PNGs are
  -- those of Encode of package png, which sees the pictures as they are (IsView).
  pub serve_http-safe :
      (h : Server) (x : Surroundings) (method path : String)
      → IsServer h
      → ((t : ℕ) → IsSane (x.shots t))
      → HasRoom x.answer
      → crashes (serve_http encoder h x method path) ≡ 0
  unfolding serve_http serve_video
  serve_http-safe h x method path s sane room_for =
      crashes-if (not (str_eq method "GET")) _ _ refl (
        crashes-if (str_eq path "/") _ _ refl (
          crashes-if (str_eq path "/video") _ _ (video x.flusher) (
            crashes-if (str_eq path "/raw") _ _
              (crashes-if (not h.has_fb) _ _ refl (
                serve_raw-safe x.flusher (first_shots x.rounds x.shots) x.budget
                  (first_shots-AllSane x.rounds x.shots sane)))
              (crashes-if (str_eq path "/download") _ _ ((clean 0).1.0) refl))))
    where
      clean :
          (rounds : ℕ)
          → IsClean h x.answer
              (serve_video (encoder best_speed) true h x.answer x.shots rounds x.budget)
            × IsClean h x.answer
                (serve_image (encoder default_compression) h x.answer x.shots x.budget)
      clean rounds =
          serves-IsClean as_image views crc blocks room before h x.answer x.shots rounds x.budget s
            sane room_for

      video :
          (flusher : Bool)
          → crashes (serve_video (encoder best_speed) flusher h x.answer x.shots x.rounds x.budget)
            ≡ 0
      video true = (clean x.rounds).0.0
      video false = refl
