-- ===== src/Png/RoundTrip/Blocks.antt =====
-- internal/png/writer.go, writeIDATs: the chunks of the blocks that zlib hands on.
use srvfb.Base.{
  ℕ, suc, ◌+◌, ◌*◌, ◌^◌, ◌<◌, ◌≡◌, refl, none, List, [], ◌∷◌, ◌++◌, append_assoc, arith, length,
}
use srvfb.Base.Bytes.{Bytes, append-nil_eq, put_uint32}
use srvfb.Png.Format.{name_of, idat}
use srvfb.Png.Chunks.{write_chunk-eq}
use srvfb.Png.Encode.{write_blocks}
use srvfb.Png.RoundTrip.Stream.{AllSized, idats}

-- A write for each block's three, and some more.
abbrev pub writes : List Bytes → ℕ → ℕ
writes [] k = k
writes (b ∷ bs) k = suc (suc (suc (writes bs k)))

pub writes-eq : (bs : List Bytes) (k : ℕ) → writes bs k ≡ 3 * length bs + k
writes-eq [] k = omega arith
writes-eq (b ∷ bs) k = omega (arith, writes-eq bs k)

module _ (crc : Bytes → ℕ) (bounded : (b : Bytes) → crc b < 2 ^ 32) where
  pub write_blocks-eq :
      (bs : List Bytes) (o : Bytes) (k : ℕ) (tmp : ℕ × ℕ)
      → AllSized bs
      → write_blocks crc bs (record { out = o; budget = writes bs k; error = none; tmp = tmp })
        ≡ record { out = o ++ idats crc bounded bs; budget = k; error = none; tmp = tmp }
  unfolding write_blocks
  write_blocks-eq [] o k tmp h = rw (append-nil_eq o) refl
  write_blocks-eq (b ∷ bs) o k tmp (p, q, h) =
      let name = name_of idat in
      let foot = put_uint32 (crc (name ++ b)) in
      let head = put_uint32 (length b) ++ name in
      rw
        (
          write_chunk-eq crc b name o (writes bs k) tmp q,
          write_blocks-eq bs (((o ++ head) ++ b) ++ foot) k tmp h,
          append_assoc ((o ++ head) ++ b) foot (idats crc bounded bs),
          append_assoc (o ++ head) b,
          append_assoc o head,
          append_assoc (head ++ b) foot (idats crc bounded bs),
          append_assoc head b,
        )
        refl
