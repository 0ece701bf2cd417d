-- ===== src/Serve/Raw.antt =====
-- srvfb.go, (*handler).serveRaw: the raw stream of frames, for a proxy.
use Prim.Native.String.{String}
use srvfb.Base.{ℕ, ◌*◌, ◌%◌, ◌^◌, Bool, true, false, List, [], ◌∷◌}
use srvfb.Base.Bytes.{Bytes}
use srvfb.Base.Outcome.{Outcome, ok, err, panic, slice}
use srvfb.Image.{dx, dy, Gray16}
use srvfb.Dedup.{Deduper, fresh, skip}
use srvfb.Handler.{Error, Shot, read_image, new_gray16}
use srvfb.Serve.Http.{
  Event, http_error, content_type, write_header, part, write, flush, crashed, writing,
}
use srvfb.Serve.Header.{version, RawHeader, encode}

abbrev pub stream_type : String
stream_type = "multipart/x-mixed-replace;boundary=endofsection"

abbrev pub raw_type : String
raw_type = "binary/octet-stream"

-- `im.Pix[im.Rect.Min.Y*im.Stride : im.Rect.Max.Y*im.Stride]`. The products are below 2 ^ 64; from
-- 2 ^ 63 on they are negative as an `int` and panic, as does here a bound behind the slice's end.
unfoldable pub visible : Gray16 → Outcome Error Bytes
unfolding slice
visible im = slice im.pix (im.rect.min_y * im.stride) (im.rect.max_y * im.stride)

-- `&rawHeader{version, 16, uint16(im.Stride), uint32(im.Rect.Dx()), uint32(im.Rect.Dy())}`
unfoldable pub header_of : Gray16 → RawHeader
unfolding dx dy
header_of im = record {
  version = version;
  bits_per_pixel = 16;
  stride = im.stride % 2 ^ 16;
  width = dx im.rect % 2 ^ 32;
  height = dy im.rect % 2 ^ 32;
}

-- `mpw.CreatePart(hdr)`, `w.Write(pix)` and, if both succeed, `flusher.Flush()`.
send_frame : Bytes → (ℕ → List Event) → ℕ → List Event
send_frame pix rest = writing (part raw_type) (writing (write pix) (λ budget. flush ∷ rest budget))

-- One round of the endless loop on each shot; the client takes `budget` more writes.
unfoldable pub raw_loop : List Shot → Gray16 → Deduper → ℕ → List Event
unfolding send_frame
raw_loop [] im dedup budget = []
raw_loop (s ∷ shots) im dedup budget = elim (read_image s im) [
  | err e ↦ []
  | panic ↦ crashed ∷ []
  | ok im' ↦ elim (visible im') [
    | err e ↦ []
    | panic ↦ crashed ∷ []
    | ok pix ↦
        let dedup' = (skip dedup pix).1 in
        elim ((skip dedup pix).0) [
          | true ↦ raw_loop shots im' dedup' budget
          | false ↦ send_frame pix (raw_loop shots im' dedup') budget
        ]
  ]
]

-- The header, the first frame, and the loop.
raw_body : List Shot → Gray16 → ℕ → List Event
raw_body shots im = writing (part raw_type) (
    writing (write (encode (header_of im))) (
      writing (part raw_type) (λ budget. elim (visible im) [
        | ok pix ↦ writing (write pix) (λ budget'. flush ∷ raw_loop shots im fresh budget') budget
        | err e ↦ []
        | panic ↦ crashed ∷ []
      ])))

raw_start : List Shot → ℕ → Outcome Error Gray16 → List Event
raw_start shots budget (ok im) =
    content_type stream_type ∷ write_header 200 ∷ raw_body shots im budget
raw_start shots budget (err e) = http_error "Internal server error" 500 ∷ []
raw_start shots budget panic = crashed ∷ []

-- h.serveRaw(w, r): whether `w` is an http.Flusher, the device at each read, and the number of
-- writes that the client takes.
unfoldable pub serve_raw : Bool → List Shot → ℕ → List Event
unfolding raw_start raw_body
serve_raw false shots budget = http_error "Internal server error" 500 ∷ []
serve_raw true [] budget = []
serve_raw true (s ∷ shots) budget = raw_start shots budget (read_image s new_gray16)
