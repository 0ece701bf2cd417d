-- ===== src/Proxy.antt =====
-- srvfb.go, proxyconn: the client of a raw stream.
use srvfb.Base.{
  ℕ, zero, suc, ◌+◌, ◌-◌, ◌*◌, ◌/◌, ◌%◌, ◌^◌, ◌≤◌, ◌<◌, min, bit_and, bit_or, bit_xor, ◌≡◌, refl,
  sym, ap, ap₂, ◌∙◌, ◌≡⟨◌⟩◌, ◌∎, ◌≢◌, ◌↔◌, ◌⊎◌, inl, inr, Bool, true, false, not, ◌&&◌, ◌||◌,
  Option, none, some, List, [], ◌∷◌, ◌++◌, map, append-nil, append_assoc, arith, ltb, leb, ◌==◌,
  if◌then◌else◌, ltb→lt, lt→ltb, leb→le, le→leb, ==_iff, tests, Bool-cases, Option-cases, length,
  get_elem?, set, length-append, length-set, get_elem?-set_self, get_elem?-set_ne, get_or, take,
  drop, replicate, take-append-drop, length-take, length-drop, length-replicate, length-map,
}
pub mod Stream
pub mod Lines
pub mod EndToEnd
pub mod Samples
mod Tests
use Prim.Native.String.{String}
use text.Mathlib.Text.{◌==◌ as str_eq}
use srvfb.Base.Bytes.{Bytes}
use srvfb.Base.Outcome.{Outcome, ok, err, panic, reject_if, ◌>>=◌, ◌>>◌}
use srvfb.Image.{rect, Gray16}
use srvfb.Handler.{
  Error, eof, unexpected_eof, bad_media_type, unknown_media_type, no_boundary, unknown_part_type,
  incompatible_version, incompatible_depth,
}
use srvfb.Serve.Http.{Part}
use srvfb.Serve.Header.{version, RawHeader, decode}

-- `r` is what is left of the stream of parts.
pub record ProxyConn : Type 0 where
  pub r : List Part
  pub stride : ℕ
  pub width : ℕ
  pub height : ℕ

-- c.r.NextPart()
next_part : List Part → Outcome Error (Part × List Part)
next_part [] = err eof
next_part (p ∷ ps) = ok (p, ps)

-- io.ReadFull(part, buf) with a buffer of n bytes.
read_full : Bytes → ℕ → Outcome Error Bytes
read_full body n =
    if n == 0
    then ok []
    else if length body == 0
    then err eof
    else if ltb (length body) n
    then err unexpected_eof
    else ok (take n body)

header_in : Option RawHeader → Outcome Error RawHeader
header_in (some h) = ok h
header_in none = err unexpected_eof

-- binary.Read of a whole header.
read_header : Bytes → Outcome Error RawHeader
unfolding read_full header_in
read_header body = do b ← read_full body 12; header_in (decode b)

-- The type of a part is checked before its bytes are read.
octets : Part → Outcome Error (Unit {0})
octets p = reject_if (not (str_eq p.content_type "binary/octet-stream")) unknown_part_type

-- mime.ParseMediaType, whose result for the header is given.
parsed : Option (String × String) → Outcome Error (String × String)
parsed (some media) = ok media
parsed none = err bad_media_type

-- c.readHdr(resp), on the media type and the boundary of the response's Content-Type header, as
-- mime.ParseMediaType gives them, and on the parts of its body.
unfoldable pub read_hdr : Option (String × String) → List Part → Outcome Error ProxyConn
unfolding next_part read_header octets parsed
read_hdr media body = do
  (mt, boundary) ← parsed media
  reject_if (not (str_eq mt "multipart/x-mixed-replace")) unknown_media_type
  reject_if (str_eq boundary "") no_boundary
  (p, ps) ← next_part body
  octets p
  hdr ← read_header p.body
  reject_if (not (hdr.version == version)) (incompatible_version hdr.bits_per_pixel)
  reject_if (not (hdr.bits_per_pixel == 16)) (incompatible_depth hdr.bits_per_pixel)
  ok (record { r = ps; stride = hdr.stride; width = hdr.width; height = hdr.height })

-- The longest []byte that make allocates on amd64: it panics if the length is larger, or has wrapped
-- to a negative one.
abbrev pub max_alloc : ℕ
max_alloc = 2 ^ 48

-- `make([]byte, c.stride*c.height)`, if the old buffer has another length.
unfoldable pub allocated : ProxyConn → Gray16 → Outcome Error (Unit {0})
allocated c im =
    if length im.pix == c.stride * c.height || leb (c.stride * c.height) max_alloc
    then ok tt
    else panic

-- The buffer that c.readImage reads into: a new one if the old one has another length.
unfoldable pub buffer : ProxyConn → Gray16 → Gray16
buffer c im =
    if not (length im.pix == c.stride * c.height)
    then record {
      pix = replicate (c.stride * c.height) 0;
      stride = c.stride;
      rect = rect 0 0 c.width c.height;
    }
    else im

-- c.readImage(im). On an error the caller drops `im` and the connection.
unfoldable pub read_image : ProxyConn → Gray16 → Outcome Error (Gray16 × ProxyConn)
unfolding next_part read_full octets buffer allocated
read_image c im = do
  allocated c im
  let im' = buffer c im
  (p, ps) ← next_part c.r
  octets p
  pix ← read_full p.body (length im'.pix)
  ok (record im' { pix = pix }, record c { r = ps })
