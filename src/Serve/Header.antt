-- ===== src/Serve/Header.antt =====
-- srvfb.go, rawHeader: the first part of a raw stream, in encoding/binary's big-endian form.
use srvfb.Base.{ℕ, ◌^◌, ◌<◌, ◌≡◌, Option, none, some, ◌∷◌, ◌++◌, arith}
use srvfb.Base.Bytes.{Bytes, put_uint16, put_uint32, uint16, uint32}

abbrev pub version : ℕ
version = 1

pub record RawHeader : Type 0 where
  pub version : ℕ
  pub bits_per_pixel : ℕ
  pub stride : ℕ
  pub width : ℕ
  pub height : ℕ

-- binary.Write(part, binary.BigEndian, rhdr)
unfoldable pub encode : RawHeader → Bytes
encode h =
    h.version
    ∷ h.bits_per_pixel
    ∷ (put_uint16 h.stride ++ put_uint32 h.width ++ put_uint32 h.height)

-- binary.Read(part, binary.BigEndian, &hdr), on a part with enough bytes.
unfoldable pub decode : Bytes → Option RawHeader
decode (v ∷ b ∷ s1 ∷ s0 ∷ w3 ∷ w2 ∷ w1 ∷ w0 ∷ h3 ∷ h2 ∷ h1 ∷ h0 ∷ _) = some (record {
  version = v;
  bits_per_pixel = b;
  stride = uint16 s1 s0;
  width = uint32 w3 w2 w1 w0;
  height = uint32 h3 h2 h1 h0;
})
decode _ = none

-- The fields fit their Go types.
pub record IsWord (h : RawHeader) : Type 0 where
  pub version_lt : h.version < 2 ^ 8
  pub bits_per_pixel_lt : h.bits_per_pixel < 2 ^ 8
  pub stride_lt : h.stride < 2 ^ 16
  pub width_lt : h.width < 2 ^ 32
  pub height_lt : h.height < 2 ^ 32

-- A header whose fields fit their types is read back as it was written, whatever follows it.
pub decode-encode : (h : RawHeader) (rest : Bytes) → IsWord h → decode (encode h ++ rest) ≡ some h
unfolding decode encode
decode-encode h rest w = ground arith
