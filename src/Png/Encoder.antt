-- ===== src/Png/Encoder.antt =====
-- internal/png/writer.go, (*encoder).writeChunk, writeIHDR and writeIEND: a chunk is its length, its
-- type, its data, and a checksum of type and data.
use srvfb.Base.{ℕ, zero, suc, ◌^◌, Option, none, some, [], ◌∷◌, ◌++◌, leb, if◌then◌else◌, length}
use srvfb.Base.Bytes.{Bytes, put_uint32}
use srvfb.Image.{Rectangle, dx, dy}
use srvfb.Png.Format.{
  Mode, cb_g8, cb_tc8, cb_p1, cb_p2, cb_p4, cb_p8, cb_tca8, cb_g16, cb_tc16, cb_tca16, ct_grayscale,
  ct_true_color, ct_paletted, ct_true_color_alpha, Error, unsupported_error, write_error, name_of,
  ihdr, iend,
}

-- The encoder's fields that writing a chunk uses. `out` is what `w` has been given, and `budget`
-- the number of writes that it takes before it fails; `tmp` is e.tmp[8] and e.tmp[9].
pub record Encoder : Type 0 where
  pub out : Bytes
  pub budget : ℕ
  pub error : Option Error
  pub tmp : ℕ × ℕ

-- `_, e.err = e.w.Write(b)`
unfoldable pub write : Bytes → Encoder → Encoder
write b e = elim e.budget [
  | zero ↦ record e { error = some write_error }
  | suc n ↦ record e { out = e.out ++ b; budget = n }
]

-- `if e.err != nil { return }`, and what follows.
unfoldable pub unless_failed : (Encoder → Encoder) → Encoder → Encoder
unless_failed k e = elim e.error [ none ↦ k e | some _ ↦ e ]

-- The modes of writeIHDR's switch; for another one e.tmp[8] and e.tmp[9] stay as they are.
unfoldable pub depth_and_type : Mode → ℕ × ℕ → ℕ × ℕ
depth_and_type cb_g8 tmp = (8, ct_grayscale)
depth_and_type cb_tc8 tmp = (8, ct_true_color)
depth_and_type cb_p8 tmp = (8, ct_paletted)
depth_and_type cb_p4 tmp = (4, ct_paletted)
depth_and_type cb_p2 tmp = (2, ct_paletted)
depth_and_type cb_p1 tmp = (1, ct_paletted)
depth_and_type cb_tca8 tmp = (8, ct_true_color_alpha)
depth_and_type cb_g16 tmp = (16, ct_grayscale)
depth_and_type cb_tc16 tmp = (16, ct_true_color)
depth_and_type cb_tca16 tmp = (16, ct_true_color_alpha)
depth_and_type _ tmp = tmp

-- e.tmp[:13]
abbrev pub ihdr_data : Rectangle → ℕ × ℕ → Bytes
ihdr_data r tmp = put_uint32 (dx r) ++ (put_uint32 (dy r) ++ (tmp.0 ∷ tmp.1 ∷ 0 ∷ 0 ∷ 0 ∷ []))

-- hash/crc32, the IEEE checksum of what was written to it.
module _ (crc : Bytes → ℕ) where
  unfoldable pub write_chunk : Bytes → Bytes → Encoder → Encoder
  write_chunk b name = unless_failed (λ e.
      if leb (2 ^ 32) (length b)
      then record e { error = some unsupported_error }
      else unless_failed (write (put_uint32 (crc (name ++ b))))
          (unless_failed (write b) (write (put_uint32 (length b) ++ name) e)))

  unfoldable pub write_ihdr : Rectangle → Mode → Encoder → Encoder
  write_ihdr r cb e =
      let tmp = depth_and_type cb e.tmp in
      write_chunk (ihdr_data r tmp) (name_of ihdr) (record e { tmp = tmp })

  unfoldable pub write_iend : Encoder → Encoder
  write_iend = write_chunk [] (name_of iend)
