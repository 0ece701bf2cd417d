-- ===== src/Serve/Video/Relay.antt =====
-- srvfb.go, serveRaw of one server and serveVideo of another one that is a proxy for it: the PNGs
-- that a viewer of the proxy gets.
use text.Mathlib.Text.{◌==◌ as str_eq}
use srvfb.Base.{
  ℕ, zero, suc, ◌+◌, ◌-◌, ◌*◌, ◌^◌, ◌≤◌, ◌<◌, ◌≡◌, refl, ap, ◌∙◌, true, false, some, List, [], ◌∷◌,
  map, arith, length,
}
use srvfb.Base.Bytes.{Bytes}
use srvfb.Image.{Rectangle, Gray16, dx, dy, rect}
use srvfb.Dedup.{fresh}
use srvfb.Handler.{Shot, new_gray16}
use srvfb.Serve.Http.{parts}
use srvfb.Serve.Raw.{serve_raw}
use srvfb.Proxy.{read_image}
use srvfb.Proxy.Stream.{
  picture, IsBuffer, frame_part, read_image-frame, allocated-small, AllSized, conn, read_hdr-encode,
}
use srvfb.Proxy.EndToEnd.{
  small_frame, IsWithin, AllSteady, sent, parts-serve_raw, header_of-eq, sent-AllSized,
  length-frame,
}
use srvfb.Serve.Video.{Encoding, proxy, read, Answer, answered, Server, serve_video}
use srvfb.Serve.Video.Frames.{pictures, viewed, frames_of, reader_of, png_parts, parts-serve_video}

-- The parts of a stream are read as its frames, in at least as many rounds; then the stream ends.
pictures-frames :
    (s w h k : ℕ) (frames : List Bytes) (im : Gray16)
    → IsBuffer (conn s w h []) im
    → AllSized (s * h) frames
    → pictures (length frames + k) (proxy (conn s w h (map frame_part frames))) im
      ≡ map (picture (conn s w h [])) frames
unfolding pictures read read_image
pictures-frames s w h zero [] im f l = refl
pictures-frames s w h (suc k) [] im f l =
    let e : 0 + suc k ≡ suc k = omega arith in
    rw e (rw (allocated-small (conn s w h []) im f.allocatable, pictures) refl)
pictures-frames s w h k (b ∷ bs) im f (l, ls) =
    let c = conn s w h (map frame_part (b ∷ bs)) in
    let n : suc (length bs) + k ≡ suc (length bs + k) = omega arith in
    rw n (
      rw
        (
          read_image-frame c im b (map frame_part bs)
              (record { geometry = f.geometry; allocatable = f.allocatable }) refl l,
          pictures,
        )
        (ap (◌∷◌ (picture c b)) (
          pictures-frames s w h k bs (picture c b)
            (record { geometry = λ _. (refl, refl); allocatable = f.allocatable }) ls)))

module _ (stride : ℕ) (r : Rectangle) (size : ℕ) (within : IsWithin stride r size) where
  -- The answer that a proxy of the server gets.
  abbrev pub raw_answer : Shot → List Shot → ℕ → Answer
  raw_answer s shots budget = answered (record {
    media = some ("multipart/x-mixed-replace", "endofsection");
    body = parts (serve_raw true (s ∷ shots) (suc (suc (suc (suc budget)))));
  })

  -- The frame as the proxy sees it.
  abbrev pub relayed : Bytes → Gray16
  relayed b = record { pix = b; stride = stride; rect = rect 0 0 (dx r) (dy r) }

  module _ (s : Shot) (shots : List Shot) (budget : ℕ) (st : AllSteady stride r size (s ∷ shots))
      (enough : 2 * length shots ≤ budget) (narrow : stride < 2 ^ 16) (x : dx r < 2 ^ 32)
      (y : dy r < 2 ^ 32) (pos : 0 < stride * dy r) where
    abbrev frames : List Bytes
    frames = sent stride r size within s shots

    frames-AllSized : AllSized (stride * dy r) frames
    unfolding sent
    frames-AllSized = (
      length-frame stride r size within s (st.0),
      sent-AllSized stride r size within fresh shots (st.1),
    )

    frames_of-relayed :
        (h : Server) (mine : ℕ → Shot) (k : ℕ)
        → str_eq h.proxy_addr "" ≡ false
        → frames_of (length frames + k) (reader_of h (raw_answer s shots budget) mine)
          ≡ map relayed frames
    unfolding frames_of reader_of
    frames_of-relayed h mine k p =
        let body = parts-serve_raw stride r size within s shots budget st enough in
        let header = header_of-eq stride r size within s narrow x y in
        let hdr =
          read_hdr-encode
            (record {
              version = 1;
              bits_per_pixel = 16;
              stride = stride;
              width = dx r;
              height = dy r;
            })
            (map frame_part frames) (omega arith) refl refl in
        rw (p, body, header)
          (rw hdr (
            pictures-frames stride (dx r) (dy r) k frames new_gray16
              (record {
                geometry = λ e. absurd (omega arith);
                allocatable = small_frame stride (dy r) narrow y;
              })
              frames-AllSized))

    -- A proxy of a server with a steady device sends its viewer the PNGs of the frames that the
    -- server sent it: for each the lines of the rectangle, put at the origin, in their order, less
    -- the ones whose hash is that of both of the last two sent. The server's device shows one
    -- rectangle at each read, whose lines lie in its memory, and is read at least once; its client,
    -- the proxy, takes four writes and two more for each later read; the header's fields fit their
    -- types, and the picture is not empty. The proxy runs its loop at least once for each frame, its
    -- ResponseWriter is a Flusher, and its client takes two writes for each round. If Encode panics
    -- on a frame, its part has what Encode had written, and is the last one.
    pub parts-relayed :
        (encode : Gray16 → Encoding) (h : Server) (mine : ℕ → Shot) (rounds taken : ℕ)
        → str_eq h.proxy_addr "" ≡ false
        → length (sent stride r size within s shots) ≤ rounds
        → 2 * rounds ≤ taken
        → parts (serve_video encode true h (raw_answer s shots budget) mine rounds taken)
          ≡ png_parts encode (viewed fresh (map relayed (sent stride r size within s shots)))
    parts-relayed encode h mine rounds taken p long b =
        let k = rounds - length frames in
        let all : length frames + k ≡ rounds = omega (arith, long) in
        let shown : frames_of rounds (reader_of h (raw_answer s shots budget) mine)
            ≡ map relayed frames =
          rw all at (frames_of-relayed h mine k p) in
        (parts-serve_video encode h mine (raw_answer s shots budget) rounds taken b).0
        ∙ ap (λ ims. png_parts encode (viewed fresh ims)) shown
