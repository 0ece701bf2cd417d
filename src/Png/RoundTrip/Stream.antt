-- ===== src/Png/RoundTrip/Stream.antt =====
-- internal/png/reader.go, Read and decode: zlib is given what stands in the IDAT chunks.
use srvfb.Base.{
  ℕ, zero, suc, ◌^◌, ◌≤◌, ◌<◌, min, ◌≡◌, refl, sym, ap, ◌∙◌, false, Option, List, [], ◌∷◌, ◌++◌,
  append_assoc, arith, ◌==◌, length, length-append, take, drop, take-append-drop, length-drop,
}
use srvfb.Base.Bytes.{Bytes, put_uint32, append-nil_eq}
use srvfb.Base.Outcome.{Outcome, ok, panic}
use srvfb.Png.Canvas.{Canvas}
use srvfb.Png.Format.{Error, name_of, idat}
use srvfb.Png.Decoder.{Decoder}
use srvfb.Png.Chunks.{chunk, read_full-append, big_endian-put_uint32, verify_checksum-footer}
use srvfb.Png.Files.{Inflated, more, done, next_idat, find_data, some_data, read, gather}
use srvfb.Png.Files.Fuel.{read-shrinks}
use srvfb.Png.RoundTrip.Draw.{flatten}

-- The first bytes of a longer list, and the rest.
take-append_le : (n : ℕ) (xs ys : Bytes) → n ≤ length xs → take n (xs ++ ys) ≡ take n xs
take-append_le zero xs ys h = refl
take-append_le (suc n) [] ys h = absurd (omega arith)
take-append_le (suc n) (x ∷ xs) ys h = ap (◌∷◌ x) (take-append_le n xs ys (omega arith))

drop-append_le : (n : ℕ) (xs ys : Bytes) → n ≤ length xs → drop n (xs ++ ys) ≡ drop n xs ++ ys
drop-append_le zero xs ys h = refl
drop-append_le (suc n) [] ys h = absurd (omega arith)
drop-append_le (suc n) (x ∷ xs) ys h = drop-append_le n xs ys (omega arith)

-- Blocks that fit a chunk, with a byte at least.
abbrev pub AllSized : List Bytes → Type 0
AllSized [] = Unit {0}
AllSized (b ∷ bs) = (0 < length b) × (length b < 2 ^ 32) × AllSized bs

abbrev no_image : Decoder → Outcome Error (Option Canvas × Bytes × Bytes)
no_image d = panic

-- zlib on this stream: it wants more before its end, and then gives this.
pub record IsStream (inflate : Bytes → Inflated) (stream out : Bytes) : Type 0 where
  pub grows : (xs ys : Bytes) → xs ++ ys ≡ stream → 0 < length ys → inflate xs ≡ more
  pub ends : inflate stream ≡ done out

module _ (crc : Bytes → ℕ) (bounded : (b : Bytes) → crc b < 2 ^ 32) where
  abbrev pub idats : List Bytes → Bytes
  idats [] = []
  idats (b ∷ bs) = chunk crc b (name_of idat) ++ idats bs

  -- Within an IDAT chunk: some bytes are read, and `cur` is left of it.
  abbrev pub within : Decoder → Bytes → Bytes → List Bytes → Bytes → Decoder
  within d used cur bs rest = record d {
    input = cur ++ (put_uint32 (crc (name_of idat ++ (used ++ cur))) ++ (idats bs ++ rest));
    checked = name_of idat ++ used;
    idat_length = length cur;
  }

  -- A read takes what it can of the chunk.
  some_data-within :
      (d : Decoder) (used cur : Bytes) (bs : List Bytes) (rest : Bytes)
      → 0 < length cur
      → let n = min 4096 (length cur) in
        some_data 4096 (within d used cur bs rest)
        ≡ ok (take n cur, within d (used ++ take n cur) (drop n cur) bs rest)
  unfolding some_data
  some_data-within d used cur bs rest h =
      let n = min 4096 (length cur) in
      let tail = put_uint32 (crc (name_of idat ++ (used ++ cur))) ++ (idats bs ++ rest) in
      let room : min (length cur) (length (cur ++ tail)) ≡ length cur =
        omega (arith, length-append cur tail) in
      let le : n ≤ length cur = omega arith in
      let some : (n == 0) ≡ false = ground arith in
      rw
        (
          room,
          some,
          take-append_le n cur tail le,
          drop-append_le n cur tail le,
          length-drop n cur,
          append_assoc used (take n cur) (drop n cur),
          take-append-drop n cur,
        )
        refl

  next_idat-within :
      (d : Decoder) (used b : Bytes) (bs : List Bytes) (rest : Bytes)
      → length b < 2 ^ 32
      → next_idat crc (within d used [] (b ∷ bs) rest) ≡ ok (within d [] b bs rest)
  unfolding next_idat
  next_idat-within d used b bs rest h =
      let name = name_of idat in
      let head = put_uint32 (length b) ++ name in
      let tail = b ++ (put_uint32 (crc (name ++ b)) ++ (idats bs ++ rest)) in
      let split : (chunk crc b name ++ idats bs) ++ rest ≡ head ++ tail =
        rw
          (
            append_assoc (chunk crc b name) (idats bs) rest,
            append_assoc (head ++ b) (put_uint32 (crc (name ++ b))) (idats bs ++ rest),
            append_assoc head b,
          )
          refl in
      rw
        (
          append-nil_eq used,
          verify_checksum-footer crc no_image bounded
              (record d { checked = name ++ used; idat_length = 0 })
              ((chunk crc b name ++ idats bs) ++ rest),
          split,
          read_full-append head tail 8 refl,
          big_endian-put_uint32 (length b) name h,
        )
        refl

  found : (n : ℕ) (d : Decoder) → 0 < n → (d.idat_length == 0) ≡ false → find_data crc n d ≡ ok d
  unfolding find_data
  found zero d p e = absurd (omega arith)
  found (suc n) d p e = rw (e, find_data) refl

  read-within :
      (d : Decoder) (used cur : Bytes) (bs : List Bytes) (rest : Bytes)
      → 0 < length cur
      → read crc 4096 (within d used cur bs rest) ≡ some_data 4096 (within d used cur bs rest)
  unfolding read
  read-within d used cur bs rest h =
      let d' : Decoder = within d used cur bs rest in
      let some : (length cur == 0) ≡ false = ground arith in
      rw (found (suc (length d'.input)) d' (omega arith) some) refl

  read-next :
      (d : Decoder) (used b : Bytes) (bs : List Bytes) (rest : Bytes)
      → 0 < length b
      → length b < 2 ^ 32
      → read crc 4096 (within d used [] (b ∷ bs) rest) ≡ some_data 4096 (within d [] b bs rest)
  unfolding read find_data
  read-next d used b bs rest h l =
      let d' : Decoder = within d used [] (b ∷ bs) rest in
      let some : (length b == 0) ≡ false = ground arith in
      rw
        (
          next_idat-within d used b bs rest l,
          found (length d'.input) (within d [] b bs rest) (omega arith) some,
        )
        refl

  -- What a read takes is left out of the input.
  shorter :
      (d d' : Decoder) (bytes : Bytes)
      → read crc 4096 d ≡ ok (bytes, d')
      → length d'.input < length d.input
  shorter d d' bytes e = rw e at (read-shrinks crc 4096 d (omega arith))

  module _ (inflate : Bytes → Inflated) (stream out : Bytes) (z : IsStream inflate stream out) where
    -- The decoder behind the last chunk's data, whose checksum is to be verified.
    abbrev pub behind : Decoder → Bytes → Bytes → Decoder
    behind d checked rest = record d {
      input = put_uint32 (crc checked) ++ rest;
      checked = checked;
      idat_length = 0;
    }

    -- A round of `gather`, and the rest of them.
    round :
        (n : ℕ) (acc : Bytes) (d0 d : Decoder) (used cur : Bytes) (bs : List Bytes) (rest : Bytes)
        → read crc 4096 d0 ≡ some_data 4096 (within d used cur bs rest)
        → 0 < length cur
        → acc ++ (cur ++ flatten bs) ≡ stream
        → length d0.input < suc n
        → ((acc' used' cur' : Bytes)
            → acc' ++ (cur' ++ flatten bs) ≡ stream
            → length (within d used' cur' bs rest).input < n
            → (ck : Bytes) × (gather crc inflate n acc' (within d used' cur' bs rest)
                ≡ ok (out, behind d ck rest)))
        → (ck : Bytes) × (gather crc inflate (suc n) acc d0 ≡ ok (out, behind d ck rest))
    unfolding gather
    round n acc d0 d used cur bs rest e h s l again =
        let k = min 4096 (length cur) in
        let step = e ∙ some_data-within d used cur bs rest h in
        let less =
          shorter d0 (within d (used ++ take k cur) (drop k cur) bs rest) (take k cur) step in
        let whole : (acc ++ take k cur) ++ (drop k cur ++ flatten bs) ≡ stream =
          rw
            (
              append_assoc acc (take k cur) (drop k cur ++ flatten bs),
              ← append_assoc (take k cur) (drop k cur) (flatten bs),
              take-append-drop k cur,
            )
            s in
        let (ck, f) =
          again (acc ++ take k cur) (used ++ take k cur) (drop k cur) whole (omega arith) in
        let wants =
          z.grows acc (cur ++ flatten bs) s (omega (arith, length-append cur (flatten bs))) in
        (ck, rw (wants, gather, step) f)

    pub gather-within :
        (n : ℕ) (acc : Bytes) (d : Decoder) (used cur : Bytes) (bs : List Bytes) (rest : Bytes)
        → acc ++ (cur ++ flatten bs) ≡ stream
        → AllSized bs
        → length (within d used cur bs rest).input < n
        → (ck : Bytes) × (gather crc inflate n acc (within d used cur bs rest)
            ≡ ok (out, behind d ck rest))
    unfolding gather
    gather-within zero acc d used cur bs rest s h l = absurd (omega arith)
    gather-within (suc n) acc d used [] [] rest s h l =
        let all : acc ≡ stream = sym (append-nil_eq acc) ∙ s in
        (name_of idat ++ used, rw (ap inflate all ∙ z.ends, gather, append-nil_eq used) refl)
    gather-within (suc n) acc d used [] (b ∷ bs) rest s (p, q, h) l =
        round n acc (within d used [] (b ∷ bs) rest) d [] b bs rest (read-next d used b bs rest p q)
          p s l (λ acc' used' cur' s' l'. gather-within n acc' d used' cur' bs rest s' h l')
    gather-within (suc n) acc d used (x ∷ cur) bs rest s h l =
        round n acc (within d used (x ∷ cur) bs rest) d used (x ∷ cur) bs rest
          (read-within d used (x ∷ cur) bs rest (omega arith)) (omega arith) s l
          (λ acc' used' cur' s' l'. gather-within n acc' d used' cur' bs rest s' h l')
