-- ===== src/Serve/Video/Frames.antt =====
-- srvfb.go, serveVideo: the pictures that a viewer gets, as parts of the stream.
use text.Mathlib.Text.{◌==◌ as str_eq}
use srvfb.Base.{
  ℕ, zero, suc, ◌*◌, ◌≤◌, ◌≡◌, refl, ap, ◌∙◌, ◌⊎◌, inl, inr, true, Option, none, some, List, [],
  ◌∷◌, ◌++◌, map, append-nil, arith, if◌then◌else◌, Bool-cases,
}
use srvfb.Base.Bytes.{Bytes}
use srvfb.Base.Outcome.{Outcome, ok, err, panic}
use srvfb.Image.{Gray16}
use srvfb.Dedup.{Deduper, fresh, skip, deduped}
use srvfb.Dedup.Laws.{unsent, deduped-unsent}
use srvfb.Handler.{Error, Shot, new_gray16}
use srvfb.Serve.Http.{
  Event, Part, http_error, content_type, write_header, part, write, index_page, not_found, flush,
  sleep, close_body, crashed, gather, parts,
}
use srvfb.Proxy.{ProxyConn, read_hdr}
use srvfb.Serve.Video.{
  Encoding, whole, torn, encoded, Reader, proxy, read, Answer, answered, unreachable, Server,
  video_loop, serve_video, with_reader, video_body, send_png, png_type, dialled, dial_proxy,
  local_reader,
}

-- What the first n reads into one buffer make of it, up to the first error.
unfoldable pub pictures : ℕ → Reader → Gray16 → List Gray16
pictures zero r im = []
pictures (suc n) r im = elim (read r im) [
  | ok (im', r') ↦ im' ∷ pictures n r' im'
  | err e ↦ []
  | panic ↦ []
]

-- The pictures whose bytes a deduper does not skip.
unfoldable pub viewed : Deduper → List Gray16 → List Gray16
viewed d [] = []
viewed d (im ∷ ims) =
    let rest = viewed (skip d im.pix).1 ims in if (skip d im.pix).0 then rest else im ∷ rest

outcome_cases {ℓ} :
    {A : Type ℓ} (o : Outcome Error A)
    → (((e : Error) × (o ≡ err e)) ⊎ (o ≡ panic)) ⊎ ((a : A) × (o ≡ ok a))
outcome_cases (ok a) = inr (a, refl)
outcome_cases (err e) = inl (inl (e, refl))
outcome_cases panic = inl (inr refl)

abbrev pub pix_of : Gray16 → Bytes
pix_of im = im.pix

viewed-deduped :
    (d : Deduper) (ims : List Gray16) → map pix_of (viewed d ims) ≡ deduped d (map pix_of ims)
unfolding viewed deduped
viewed-deduped d [] = refl
viewed-deduped d (im ∷ ims) = elim (Bool-cases (skip d im.pix).0) [
  | inl e ↦ rw e (viewed-deduped (skip d im.pix).1 ims)
  | inr e ↦ rw e (ap (◌∷◌ im.pix) (viewed-deduped (skip d im.pix).1 ims))
]

-- The body of the proxied response is closed after the last part.
gather-close_body : (es : List Event) → gather (es ++ (close_body ∷ [])) ≡ gather es
gather-close_body [] = refl
gather-close_body (http_error m n ∷ es) = gather-close_body es
gather-close_body (content_type t ∷ es) = gather-close_body es
gather-close_body (write_header n ∷ es) = gather-close_body es
gather-close_body (part t ∷ es) = rw (gather-close_body es) refl
gather-close_body (write b ∷ es) = rw (gather-close_body es) refl
gather-close_body (index_page ∷ es) = gather-close_body es
gather-close_body (not_found p ∷ es) = gather-close_body es
gather-close_body (flush ∷ es) = gather-close_body es
gather-close_body (sleep n ∷ es) = gather-close_body es
gather-close_body (close_body ∷ es) = gather-close_body es
gather-close_body (crashed ∷ es) = gather-close_body es

connected : Outcome Error ProxyConn → Option Reader
connected (ok c) = some (proxy c)
connected (err e) = none
connected panic = none

behind : Answer → Option Reader
unfolding connected
behind unreachable = none
behind (answered resp) = connected (read_hdr resp.media resp.body)

-- The reader that a request gets: the device of a handler that is no proxy, or the stream of the
-- server that it is a proxy for, behind a header that can be read.
unfoldable pub reader_of : Server → Answer → (ℕ → Shot) → Option Reader
unfolding local_reader behind
reader_of h answer shots =
    if str_eq h.proxy_addr "" then some (local_reader h.has_fb shots) else behind answer

-- All that the reader gives within so many rounds.
unfoldable pub frames_of : ℕ → Option Reader → List Gray16
frames_of rounds none = []
frames_of rounds (some r) = pictures rounds r new_gray16

encoding_cases : (e : Encoding) → ((b : Bytes) × (e ≡ whole b)) ⊎ ((b : Bytes) × (e ≡ torn b))
encoding_cases (whole b) = inl (b, refl)
encoding_cases (torn b) = inr (b, refl)

abbrev pub png_part : Bytes → Part
png_part b = record { content_type = png_type; body = b }

-- A part for each picture, up to the first one on which Encode panics: its part has what Encode wrote
-- until then, and is the last one.
unfoldable pub png_parts : (Gray16 → Encoding) → List Gray16 → List Part
png_parts encode [] = []
png_parts encode (im ∷ ims) = elim (encode im) [
  | whole b ↦ png_part b ∷ png_parts encode ims
  | torn b ↦ png_part b ∷ []
]

module _ (encode : Gray16 → Encoding) where
  gather-video_loop :
      (rounds : ℕ) (r : Reader) (im : Gray16) (d : Deduper) (budget : ℕ)
      → 2 * rounds ≤ budget
      → gather (video_loop encode rounds r im d budget)
        ≡ ([], png_parts encode (viewed d (pictures rounds r im)))
  unfolding video_loop pictures viewed send_png encoded png_parts
  gather-video_loop zero r im d budget b = refl
  gather-video_loop (suc n) r im d zero b = absurd (omega arith)
  gather-video_loop (suc n) r im d (suc zero) b = absurd (omega arith)
  gather-video_loop (suc n) r im d (suc (suc budget)) b = elim (outcome_cases (read r im)) [
    | inl (inl (e, q)) ↦ rw (q, video_loop, pictures) refl
    | inl (inr q) ↦ rw (q, video_loop, pictures) refl
    | inr ((im', r'), q) ↦
        let rest = λ (budget' : ℕ) (enough : 2 * n ≤ budget').
          gather-video_loop n r' im' (skip d im'.pix).1 budget' enough in
        rw (q, video_loop, pictures)
          (elim (Bool-cases (skip d im'.pix).0) [
            | inl e ↦ rw e (rest (suc (suc budget)) (omega arith))
            | inr e ↦ elim (encoding_cases (encode im')) [
              | inl (png, w) ↦ rw e (rw (w, png_parts) (rw (rest budget (omega arith), append-nil)))
              | inr (png, w) ↦ rw e (rw (w, png_parts) (rw append-nil))
            ]
          ])
  ]

  gather-video_body :
      (rounds : ℕ) (r : Reader) (budget : ℕ)
      → 2 * rounds ≤ budget
      → parts (video_body encode rounds r budget)
        ≡ png_parts encode (viewed fresh (frames_of rounds (some r)))
  unfolding video_body frames_of
  gather-video_body rounds r budget b =
      ap (λ g. g.1) (gather-video_loop rounds r new_gray16 fresh budget b)

  module _ (h : Server) (shots : ℕ → Shot) (rounds budget : ℕ) (enough : 2 * rounds ≤ budget) where
    parts-dialled :
        (o : Outcome Error ProxyConn)
        → parts (dialled o (λ r. video_body encode rounds r budget))
          ≡ png_parts encode (viewed fresh (frames_of rounds (connected o)))
    unfolding dialled frames_of viewed connected png_parts
    parts-dialled (ok c) =
        ap (λ g. g.1) (gather-close_body (video_body encode rounds (proxy c) budget))
        ∙ gather-video_body rounds (proxy c) budget enough
    parts-dialled (err e) = refl
    parts-dialled panic = refl

    parts-with_reader :
        (answer : Answer)
        → parts (with_reader h answer shots (λ r. video_body encode rounds r budget))
          ≡ png_parts encode (viewed fresh (frames_of rounds (reader_of h answer shots)))
    unfolding with_reader dial_proxy reader_of behind frames_of viewed png_parts
    parts-with_reader answer = elim (Bool-cases (str_eq h.proxy_addr "")) [
      | inl e ↦
          rw (e, with_reader, reader_of)
            (gather-video_body rounds (local_reader h.has_fb shots) budget enough)
      | inr e ↦ rw (e, with_reader, reader_of) (by_answer answer)
    ]
      where
        by_answer :
            (answer : Answer)
            → parts (dial_proxy answer (λ r. video_body encode rounds r budget))
              ≡ png_parts encode (viewed fresh (frames_of rounds (behind answer)))
        by_answer unreachable = refl
        by_answer (answered resp) = parts-dialled (read_hdr resp.media resp.body)

  -- The parts that a viewer of `/video` gets are the PNGs of the pictures that the device or the
  -- proxied server gives, one for each and in their order, up to the first error, less the repeated
  -- ones: those whose hash is that of both of the last two pictures sent. If Encode panics on one of
  -- them, its part has what Encode had written, and is the last one. There are no parts if the server
  -- that the handler is a proxy for cannot be dialled. The ResponseWriter is a Flusher, and the client
  -- takes two writes for each round of the loop.
  pub parts-serve_video :
      (h : Server) (shots : ℕ → Shot) (answer : Answer) (rounds budget : ℕ)
      → 2 * rounds ≤ budget
      → let ims = frames_of rounds (reader_of h answer shots) in
        (parts (serve_video encode true h answer shots rounds budget)
          ≡ png_parts encode (viewed fresh ims))
        × (map pix_of (viewed fresh ims) ≡ unsent [] (map pix_of ims))
  unfolding serve_video
  parts-serve_video h shots answer rounds budget enough =
      let ims = frames_of rounds (reader_of h answer shots) in
      (
        parts-with_reader h shots rounds budget enough answer,
        viewed-deduped fresh ims ∙ deduped-unsent (map pix_of ims),
      )
