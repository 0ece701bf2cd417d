-- ===== src/Serve/Video/Safety.antt =====
-- srvfb.go, serveVideo and serveImage: no crash, and the body of a proxied response is closed.
use srvfb.Base.{
  ℕ, zero, suc, ◌≡◌, refl, ◌≢◌, ◌⊎◌, inl, inr, true, Option, List, [], ◌∷◌, ◌++◌, arith,
  if◌then◌else◌, Bool-cases,
}
use Prim.Native.String.{String}
use text.Mathlib.Text.{◌==◌ as str_eq}
use srvfb.Base.Bytes.{Bytes}
use srvfb.Base.Outcome.{Outcome, ok, err, panic}
use srvfb.Image.{Gray16}
use srvfb.Dedup.{Deduper, fresh, skip}
use srvfb.Handler.{Error, Shot, new_gray16}
use srvfb.Handler.Lines.{
  HasLines, IsSane, read_image-HasLines, read_image-cases, new_gray16-HasLines,
}
use srvfb.Proxy.Lines.{IsAllocatable, Keeps, read_image-Keeps}
use srvfb.Png.Picture.{Picture, gray16}
use srvfb.Png.Encode.{CompressionLevel, ZlibLevel, best_speed, default_compression}
use srvfb.Serve.Video.Decoded.{png_bytes, png_bytes-whole}
use srvfb.Serve.Http.{Event, Part, http_error, part, close_body, crashed, writing}
use srvfb.Proxy.{ProxyConn, read_hdr}
use srvfb.Proxy as Proxy
use srvfb.Serve.Video.{
  Encoding, whole, encoded, advance, with_conn, local_reader, Reader, device, no_device, proxy,
  read, Answer, answered, unreachable, Server, video_loop, serve_video, serve_image, with_reader,
  video_body, image_body, send_png, png_type, dialled, dial_proxy,
}

abbrev pub crashes : List Event → ℕ
crashes [] = 0
crashes (crashed ∷ es) = suc (crashes es)
crashes (_ ∷ es) = crashes es

abbrev pub closes : List Event → ℕ
closes [] = 0
closes (close_body ∷ es) = suc (closes es)
closes (_ ∷ es) = closes es

-- A device that the kernel keeps sane at every read, or a stream whose pictures have memory.
abbrev IsPresent : Reader → Type 0
IsPresent (device shots t) = (t' : ℕ) → IsSane (shots t')
IsPresent no_device = ⊥
IsPresent (proxy c) = IsAllocatable c

-- A picture with all its lines, or an error.
abbrev Goes : Outcome Error (Gray16 × Reader) → Type 0
Goes (ok (im, r)) = HasLines im × IsPresent r
Goes (err e) = Unit
Goes panic = ⊥

with_conn-Goes : (o : Outcome Error (Gray16 × ProxyConn)) → Keeps o → Goes (with_conn o)
unfolding with_conn
with_conn-Goes (ok (im, c)) k = k
with_conn-Goes (err e) k = tt
with_conn-Goes panic k = k

read-Goes : (r : Reader) (im : Gray16) → IsPresent r → HasLines im → Goes (read r im)
unfolding read advance
read-Goes (device shots t) im p h = elim (read_image-cases (shots t) im) [
  | inl (e, q) ↦ rw q tt
  | inr (out, q) ↦ rw q (read_image-HasLines (shots t) im out (p t) q, p)
]
read-Goes no_device im p h = p
read-Goes (proxy c) im p h = with_conn-Goes (Proxy.read_image c im) (read_image-Keeps c im h p)

Goes-cases :
    (o : Outcome Error (Gray16 × Reader))
    → Goes o
    → ((e : Error) × (o ≡ err e))
      ⊎ ((im : Gray16) × (r : Reader) × (o ≡ ok (im, r)) × HasLines im × IsPresent r)
Goes-cases (ok (im, r)) g = inr (im, r, refl, g.0, g.1)
Goes-cases (err e) g = inl (e, refl)
Goes-cases panic g = absurd g

-- No crash, and the body is left open.
abbrev IsCalm : List Event → Type 0
IsCalm es = (crashes es ≡ 0) × (closes es ≡ 0)

-- An Encode that returns on every picture with all its lines.
abbrev IsTotal : (Gray16 → Encoding) → Type 0
IsTotal encode = (im : Gray16) → HasLines im → (b : Bytes) × (encode im ≡ whole b)

module _ (encode : Gray16 → Encoding) (total : IsTotal encode) where
  send_png-IsCalm :
      (im : Gray16) (rest : ℕ → List Event) (budget : ℕ)
      → HasLines im
      → ((b : ℕ) → IsCalm (rest b))
      → IsCalm (send_png encode im rest budget)
  unfolding send_png encoded
  send_png-IsCalm im rest zero lines h = h 0
  send_png-IsCalm im rest (suc budget) lines h =
      let (b, q) = total im lines in rw (q, encoded) (h budget)

  sends-IsCalm :
      (im : Gray16) (rest : ℕ → List Event) (budget : ℕ)
      → HasLines im
      → ((b : ℕ) → IsCalm (rest b))
      → IsCalm (writing (part png_type) (send_png encode im rest) budget)
  sends-IsCalm im rest zero lines h = (refl, refl)
  sends-IsCalm im rest (suc budget) lines h = send_png-IsCalm im rest budget lines h

  video_loop-IsCalm :
      (rounds : ℕ) (r : Reader) (im : Gray16) (d : Deduper) (budget : ℕ)
      → IsPresent r
      → HasLines im
      → IsCalm (video_loop encode rounds r im d budget)
  unfolding video_loop
  video_loop-IsCalm zero r im d budget p lines = (refl, refl)
  video_loop-IsCalm (suc n) r im d budget p lines =
      elim (Goes-cases (read r im) (read-Goes r im p lines)) [
        | inl (e, q) ↦ rw (q, video_loop) (refl, refl)
        | inr (im', r', q, lines', p') ↦
            let d' = (skip d im'.pix).1 in
            rw (q, video_loop)
              (elim (Bool-cases (skip d im'.pix).0) [
                | inl s ↦ rw s (video_loop-IsCalm n r' im' d' budget p' lines')
                | inr s ↦ rw s (
                    sends-IsCalm im' (video_loop encode n r' im' d') budget lines'
                      (λ b. video_loop-IsCalm n r' im' d' b p' lines'))
              ])
      ]

  video_body-IsCalm :
      (rounds : ℕ) (r : Reader) (budget : ℕ)
      → IsPresent r
      → IsCalm (video_body encode rounds r budget)
  unfolding video_body
  video_body-IsCalm rounds r budget p =
      video_loop-IsCalm rounds r new_gray16 fresh budget p new_gray16-HasLines

  image_body-IsCalm :
      (o : Outcome Error (Gray16 × Reader)) (budget : ℕ)
      → Goes o
      → IsCalm (image_body encode o budget)
  unfolding image_body encoded
  image_body-IsCalm (ok (im, r)) zero g = (refl, refl)
  image_body-IsCalm (ok (im, r)) (suc b) g =
      let (file, q) = total im g.0 in rw (q, encoded) (refl, refl)
  image_body-IsCalm (err e) b g = (refl, refl)
  image_body-IsCalm panic b g = absurd g

-- A response to the request of a proxy.
abbrev got : Answer → ℕ
got (answered resp) = 1
got unreachable = 0

-- The handler has a device exactly if it is no proxy, as `run` sets it up.
abbrev pub IsServer : Server → Type 0
IsServer h = h.has_fb ≡ str_eq h.proxy_addr ""

-- The header of the proxied server's stream, if it can be read, asks for buffers that make allocates.
abbrev pub HasRoom : Answer → Type 0
HasRoom (answered resp) = (c : ProxyConn) → read_hdr resp.media resp.body ≡ ok c → IsAllocatable c
HasRoom unreachable = Unit

-- Nothing crashes; the body of the proxied server's response is closed once, if there is one.
abbrev pub IsClean : Server → Answer → List Event → Type 0
IsClean h answer es =
    (crashes es ≡ 0) × (closes es ≡ (if str_eq h.proxy_addr "" then 0 else got answer))

closed_after :
    (es : List Event)
    → IsCalm es
    → (crashes (es ++ (close_body ∷ [])) ≡ 0) × (closes (es ++ (close_body ∷ [])) ≡ 1)
closed_after [] c = (refl, refl)
closed_after (crashed ∷ es) c = absurd (omega (arith, c.0))
closed_after (close_body ∷ es) c = absurd (omega (arith, c.1))
closed_after (http_error m n ∷ es) c = closed_after es c
closed_after (e ∷ es) c = closed_after es c

read_hdr-ne-panic : (media : Option (String × String)) (ps : List Part) → read_hdr media ps ≢ panic
unfolding read_hdr
read_hdr-ne-panic media ps h = ground arith

module _ (k : Reader → List Event) (calm : (r : Reader) → IsPresent r → IsCalm (k r)) where
  dialled-IsClean :
      (o : Outcome Error ProxyConn)
      → o ≢ panic
      → ((c : ProxyConn) → o ≡ ok c → IsAllocatable c)
      → (crashes (dialled o k) ≡ 0) × (closes (dialled o k) ≡ 1)
  unfolding dialled
  dialled-IsClean (ok c) h a = closed_after (k (proxy c)) (calm (proxy c) (a c refl))
  dialled-IsClean (err e) h a = (refl, refl)
  dialled-IsClean panic h a = absurd (h refl)

  dial_proxy-IsClean :
      (answer : Answer)
      → HasRoom answer
      → (crashes (dial_proxy answer k) ≡ 0) × (closes (dial_proxy answer k) ≡ got answer)
  unfolding dial_proxy
  dial_proxy-IsClean unreachable a = (refl, refl)
  dial_proxy-IsClean (answered resp) a =
      dialled-IsClean (read_hdr resp.media resp.body) (read_hdr-ne-panic resp.media resp.body) a

  with_reader-IsClean :
      (h : Server) (answer : Answer) (shots : ℕ → Shot)
      → IsServer h
      → ((t : ℕ) → IsSane (shots t))
      → HasRoom answer
      → IsClean h answer (with_reader h answer shots k)
  unfolding with_reader local_reader
  with_reader-IsClean h answer shots s sane a = elim (Bool-cases (str_eq h.proxy_addr "")) [
    | inl e ↦ rw (e, s, e) (calm (device shots 0) sane)
    | inr e ↦ rw e (dial_proxy-IsClean answer a)
  ]

-- A picture as an image.Image: its own rectangle, bytes and stride.
abbrev pub IsView : (Gray16 → Picture) → Type 0
IsView as_image =
    (im : Gray16)
    → ((as_image im).bounds ≡ im.rect) × ((as_image im).layout ≡ gray16 im.pix im.stride)

module _ (as_image : Gray16 → Picture) (views : IsView as_image) (crc : Bytes → ℕ)
    (blocks : ZlibLevel → Bytes → List Bytes) (room : Gray16 → ℕ) (before : Gray16 → Bytes) where
  abbrev encoder : CompressionLevel → Gray16 → Encoding
  encoder = png_bytes as_image crc blocks room before

  encoder-IsTotal : (level : CompressionLevel) → IsTotal (encoder level)
  encoder-IsTotal level im lines =
      png_bytes-whole as_image crc blocks room before level im (views im) lines

  -- With a handler that has a device exactly if it is no proxy, and a device that the kernel keeps
  -- sane (IsSane) at every read, whatever the proxied server answers and the client takes, except
  -- for a header that asks for a larger buffer than make allocates (HasRoom), the methods for
  -- `/video` (on a Flusher) and `/download`, with Encode of package png, do not crash, and close the
  -- body of the proxied server's response exactly once if there is one. Encode sees the pictures as
  -- they are (IsView).
  pub serves-IsClean :
      (h : Server) (answer : Answer) (shots : ℕ → Shot) (rounds budget : ℕ)
      → IsServer h
      → ((t : ℕ) → IsSane (shots t))
      → HasRoom answer
      → IsClean h answer (serve_video (encoder best_speed) true h answer shots rounds budget)
        × IsClean h answer (serve_image (encoder default_compression) h answer shots budget)
  unfolding serve_video serve_image
  serves-IsClean h answer shots rounds budget s sane a = (
    with_reader-IsClean _
        (λ r p.
          video_body-IsCalm (encoder best_speed) (encoder-IsTotal best_speed) rounds r budget p)
        h answer shots s sane a,
    with_reader-IsClean _
        (λ r p.
          image_body-IsCalm (encoder default_compression) (encoder-IsTotal default_compression)
            (read r new_gray16) budget (read-Goes r new_gray16 p new_gray16-HasLines))
        h answer shots s sane a,
  )
