-- ===== src/Proxy/Stream.antt =====
-- srvfb.go, proxyconn: reading the frames of a raw stream.
use srvfb.Base.{
  ℕ, zero, suc, ◌*◌, ◌≤◌, ◌≡◌, refl, sym, ap, ◌∙◌, inl, inr, some, List, [], ◌∷◌, map, append-nil,
  arith, ◌==◌, le→leb, ==_iff, Bool-cases, length, length-replicate,
}
use srvfb.Base.Bytes.{Bytes, take-length}
use srvfb.Base.Outcome.{Outcome, ok, err, panic, ◌>>=◌}
use srvfb.Image.{rect, Gray16}
use srvfb.Handler.{Error}
use srvfb.Serve.Http.{Part}
use srvfb.Serve.Raw.{raw_type}
use srvfb.Serve.Header.{version, RawHeader, IsWord, encode, decode-encode}
use srvfb.Proxy.{
  allocated, max_alloc, read_hdr, read_header, ProxyConn, read_image, read_full, buffer,
}

-- The picture that a proxy makes of the bytes of a frame.
abbrev pub picture : ProxyConn → Bytes → Gray16
picture c b = record { pix = b; stride = c.stride; rect = rect 0 0 c.width c.height }

-- The buffer is of another length than the frames, or it already has their geometry.
pub record IsBuffer (c : ProxyConn) (im : Gray16) : Type 0 where
  pub geometry :
      length im.pix ≡ c.stride * c.height
      → (im.stride ≡ c.stride) × (im.rect ≡ rect 0 0 c.width c.height)
  pub allocatable : c.stride * c.height ≤ max_alloc

abbrev pub frame_part : Bytes → Part
frame_part b = record { content_type = raw_type; body = b }

read_full-length : (b : Bytes) → read_full b (length b) ≡ ok b
unfolding read_full
read_full-length [] = refl
read_full-length (x ∷ b) = ground (arith, take-length (x ∷ b))

buffer_geometry :
    (c : ProxyConn) (im : Gray16) (b : Bytes)
    → IsBuffer c im
    → let im' = buffer c im in
      (length im'.pix ≡ c.stride * c.height) × (record im' { pix = b } ≡ picture c b)
unfolding buffer
buffer_geometry c im b f = elim (Bool-cases (length im.pix == c.stride * c.height)) [
  | inl e ↦
      let (p, q) = f.geometry ((==_iff (length im.pix) (c.stride * c.height)).0 e) in
      (ground arith, rw e (λ i. record { pix = b; stride = p i; rect = q i }))
  | inr e ↦ (rw e (length-replicate (c.stride * c.height) 0), rw e)
]

read_part :
    (c : ProxyConn) (im' : Gray16) (b : Bytes) (ps : List Part)
    → length im'.pix ≡ length b
    → ◌≡◌ {A = Outcome Error (Gray16 × ProxyConn)}
        (read_full b (length im'.pix) >>= λ pix. ok (record im' { pix = pix }, record c { r = ps }))
        (ok (record im' { pix = b }, record c { r = ps }))
read_part c im' b ps e = rw (e, read_full-length b)

pub allocated-small :
    (c : ProxyConn) (im : Gray16) → c.stride * c.height ≤ max_alloc → allocated c im ≡ ok tt
unfolding allocated
allocated-small c im h =
    rw (le→leb _ _ h) (elim (Bool-cases (length im.pix == c.stride * c.height)) [
      | inl e ↦ rw e refl
      | inr e ↦ rw e refl
    ])

-- A part with as many bytes as the header promised is the next picture, and the buffer stays fit
-- for the frames that follow.
pub read_image-frame :
    (c : ProxyConn) (im : Gray16) (b : Bytes) (ps : List Part)
    → IsBuffer c im
    → c.r ≡ frame_part b ∷ ps
    → length b ≡ c.stride * c.height
    → read_image c im ≡ ok (picture c b, record c { r = ps })
unfolding read_image
read_image-frame c im b ps f e l =
    let (p, q) = buffer_geometry c im b f in
    rw (allocated-small c im f.allocatable, e) (read_part c (buffer c im) b ps (p ∙ sym l) ∙ rw q)

-- Up to n pictures, read one after the other into one buffer, until the first error.
pub receive : ℕ → ProxyConn → Gray16 → List Gray16
receive zero c im = []
receive (suc n) c im = elim (read_image c im) [
  | ok (im', c') ↦ im' ∷ receive n c' im'
  | err e ↦ []
  | panic ↦ []
]

-- The frames have the size that the header promised.
abbrev pub AllSized : ℕ → List Bytes → Type 0
AllSized n [] = Unit {0}
AllSized n (b ∷ bs) = (length b ≡ n) × AllSized n bs

abbrev pub conn : ℕ → ℕ → ℕ → List Part → ProxyConn
conn stride width height ps = record { r = ps; stride = stride; width = width; height = height }

-- Reading the parts of any sequence of frames of the promised size gives these frames, in order.
pub receive-frames :
    (s w h : ℕ) (frames : List Bytes) (im : Gray16)
    → IsBuffer (conn s w h []) im
    → AllSized (s * h) frames
    → receive (length frames) (conn s w h (map frame_part frames)) im
      ≡ map (picture (conn s w h [])) frames
unfolding receive
receive-frames s w h [] im f l = refl
receive-frames s w h (b ∷ bs) im f (l, ls) =
    let c = conn s w h (map frame_part (b ∷ bs)) in
    rw
      (
        read_image-frame c im b (map frame_part bs)
            (record { geometry = f.geometry; allocatable = f.allocatable }) refl l,
        receive,
      )
      (ap (◌∷◌ (picture c b)) (
        receive-frames s w h bs (picture c b)
          (record { geometry = λ _. (refl, refl); allocatable = f.allocatable }) ls))

read_header-encode : (h : RawHeader) → IsWord h → read_header (encode h) ≡ ok h
unfolding read_header encode
read_header-encode h w = ground (arith, rw append-nil at (decode-encode h [] w))

-- The first part of a raw stream, with a header of version 1 and 16 bits per pixel whose fields fit
-- their types, gives a connection with the geometry of the header and with the parts behind it.
pub read_hdr-encode :
    (h : RawHeader) (ps : List Part)
    → IsWord h
    → h.version ≡ version
    → h.bits_per_pixel ≡ 16
    → read_hdr (some ("multipart/x-mixed-replace", "endofsection")) (frame_part (encode h) ∷ ps)
      ≡ ok (conn h.stride h.width h.height ps)
unfolding read_hdr
read_hdr-encode h ps w v b = rw (read_header-encode h w, v, b)
