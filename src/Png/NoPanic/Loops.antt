-- ===== src/Png/NoPanic/Loops.antt =====
-- internal/png/reader.go, the loops of Read, decode, Decode and DecodeConfig: no panic, and an end
-- within the rounds that the model gives them.
use srvfb.Base.{
  ℕ, zero, suc, ◌<◌, min, ◌≡◌, refl, sym, ap, ◌∙◌, inl, inr, [], ◌++◌, arith, ◌==◌, Bool-cases,
  length, drop,
}
use srvfb.Base.Bytes.{Bytes}
use srvfb.Base.Outcome.{Outcome, ok, err, panic, ◌>>=◌}
use srvfb.Png.Format.{cb_paletted, Error, rank, format_error, kind_of, read_full}
use srvfb.Png.Filter.RoundTrip.{AllBytes}
use srvfb.Png.Decoder.{Decoder, verify_checksum}
use srvfb.Png.Decoder.Chunk.{parse_chunk}
use srvfb.Png.Interlace.{read_image}
use srvfb.Png.Files.{
  Inflated, more, done, corrupt, is_idat, next_idat, find_data, some_data, read, gather, decode,
  has_config, decode_loop, config_loop,
}
use srvfb.Png.Stages.{
  HasArray, IsReady, Keeps, kept, Holds, Holds-bind, Holds-if, Holds-weaken, read_full-Holds,
}
use srvfb.Png.Stages.Parts.{verify_checksum-Holds}
use srvfb.Png.Stages.Order.{Next, parse_chunk-Next}
use srvfb.Png.NoPanic.Image.{read_image-Holds}
use srvfb.Png.Files.Shrinks.{OnOk}
use srvfb.Png.Files.Fuel.{Shorter, next_idat-shrinks, read-shrinks, chunk-shrinks}

-- The second part keeps what the decoder knows of the palette.
abbrev Carries : Decoder → Bytes × Decoder → Type 0
Carries d (bytes, d') = Keeps d d'

some_data-Holds : (size : ℕ) (d : Decoder) → Holds (Carries d) (some_data size d)
unfolding some_data
some_data-Holds size d =
    Holds-if (Carries d) (min size (min d.idat_length (length d.input)) == 0) _ _ (λ _. tt)
      (λ _. (refl, refl, refl))

-- Two facts about a result.
Holds-and {ℓ} :
    {A : Type ℓ} (P Q : A → Type 0) (m : Outcome Error A)
    → Holds P m
    → OnOk Q m
    → Holds (λ a. P a × Q a) m
Holds-and P Q (ok a) h k = (h, k)
Holds-and P Q (err e) h k = h
Holds-and P Q panic h k = h

module _ (crc : Bytes → ℕ) where
  next_idat-Holds : (d : Decoder) → Holds (Keeps d) (next_idat crc d)
  unfolding next_idat
  next_idat-Holds d =
      Holds-bind (Keeps d) (Keeps d) (verify_checksum crc d) _ (verify_checksum-Holds crc d)
        (λ d' k.
          Holds-bind _ (Keeps d) (read_full 8 d'.input) _ (read_full-Holds 8 d'.input)
            (λ r _. Holds-if (Keeps d) (is_idat (kind_of (drop 4 r.0))) _ _ (λ _. k) (λ _. tt)))

  find_data-Holds : (n : ℕ) (d : Decoder) → length d.input < n → Holds (Keeps d) (find_data crc n d)
  unfolding find_data
  find_data-Holds zero d l = absurd (omega arith)
  find_data-Holds (suc n) d l = elim (Bool-cases (d.idat_length == 0)) [
    | inl e ↦
        rw (e, find_data)
          (Holds-bind (λ d'. Keeps d d' × (length d'.input < length d.input)) (Keeps d)
            (next_idat crc d) (find_data crc n)
            (Holds-and (Keeps d) _ (next_idat crc d) (next_idat-Holds d) (next_idat-shrinks crc d))
            (λ d' (k, s).
              Holds-weaken (Keeps d') (Keeps d) _ (find_data-Holds n d' (omega arith))
                (λ d'' k'. kept d d' d'' k k')))
    | inr e ↦ rw (e, find_data) (refl, refl, refl)
  ]

  read-Holds : (size : ℕ) (d : Decoder) → Holds (Carries d) (read crc size d)
  unfolding read
  read-Holds size d =
      Holds-if (Carries d) (size == 0) _ _ (λ _. (refl, refl, refl))
        (λ _.
          Holds-bind (Keeps d) (Carries d) (find_data crc (suc (length d.input)) d) _
            (find_data-Holds (suc (length d.input)) d (omega arith))
            (λ d' k.
              Holds-weaken (Carries d') (Carries d) _ (some_data-Holds size d')
                (λ (bytes, d'') k'. kept d d' d'' k k')))

  module _ (inflate : Bytes → Inflated)
      (inflates : (bs out : Bytes) → inflate bs ≡ done out → AllBytes out) where
    -- The data is made of bytes, and the decoder keeps what it knows.
    abbrev pub Gathered : Decoder → Bytes × Decoder → Type 0
    Gathered d (out, d') = AllBytes out × Keeps d d'

    pub gather-Holds :
        (n : ℕ) (acc : Bytes) (d : Decoder)
        → length d.input < n
        → Holds (Gathered d) (gather crc inflate n acc d)
    unfolding gather
    gather-Holds zero acc d l = absurd (omega arith)
    gather-Holds (suc n) acc d l =
        by_reply (inflate acc) refl (λ bytes d' s. gather-Holds n (acc ++ bytes) d' (omega arith))
      where
        by_reply :
            (i : Inflated)
            → inflate acc ≡ i
            → ((bytes : Bytes) (d' : Decoder)
                → length d'.input < length d.input
                → Holds (Gathered d') (gather crc inflate n (acc ++ bytes) d'))
            → Holds (Gathered d) (elim i [
              | more ↦ read crc 4096 d >>= λ (bytes, d'). gather crc inflate n (acc ++ bytes) d'
              | done out ↦ ok (out, d)
              | corrupt ↦ err format_error
            ])
        by_reply more e again =
            Holds-bind (λ r. Carries d r × Shorter d r) (Gathered d) (read crc 4096 d) _
              (Holds-and (Carries d) (Shorter d) (read crc 4096 d) (read-Holds 4096 d)
                (read-shrinks crc 4096 d (omega arith)))
              (λ (bytes, d') (k, s).
                Holds-weaken (Gathered d') (Gathered d) _ (again bytes d' s)
                  (λ (out, d'') (b, k'). (b, kept d d' d'' k k')))
        by_reply (done out) e again = (inflates acc out e, (refl, refl, refl))
        by_reply corrupt e again = tt

    decode-Holds : (d : Decoder) → HasArray d → Holds (λ _. Unit {0}) (decode crc inflate d)
    unfolding decode
    decode-Holds d a =
        Holds-bind (Gathered d) (λ _. Unit {0}) (gather crc inflate (suc (length d.input)) [] d) _
          (gather-Holds (suc (length d.input)) [] d (omega arith))
          (λ (out, d') (b, k).
            Holds-bind (λ _. Unit {0}) (λ _. Unit {0}) (read_image d' out) _
              (read_image-Holds d' out (λ c. rw (k.2) (a (ap cb_paletted (sym (k.1)) ∙ c))) b)
              (λ img _. Holds-if _ (d'.idat_length == 0) _ _ (λ _. tt) (λ _. tt)))

    abbrev Goes : Decoder → Decoder → Type 0
    Goes d d' = Next crc d d' × (length d'.input < length d.input)

    chunk-Goes : (d : Decoder) → IsReady d → Holds (Goes d) (parse_chunk crc (decode crc inflate) d)
    chunk-Goes d h =
        Holds-and (Next crc d) _ (parse_chunk crc (decode crc inflate) d)
          (parse_chunk-Next crc (decode crc inflate) decode-Holds d h) (chunk-shrinks crc inflate d)

    pub decode_loop-Holds :
        (n : ℕ) (d : Decoder)
        → IsReady d
        → length d.input < n
        → Holds (λ _. Unit {0}) (decode_loop crc inflate n d)
    unfolding decode_loop
    decode_loop-Holds zero d h l = absurd (omega arith)
    decode_loop-Holds (suc n) d h l = elim (Bool-cases (rank d.stage == 5)) [
      | inl e ↦ rw (e, decode_loop) tt
      | inr e ↦
          rw (e, decode_loop)
            (Holds-bind (Goes d) (λ _. Unit {0}) (parse_chunk crc (decode crc inflate) d)
              (decode_loop crc inflate n) (chunk-Goes d h)
              (λ d' (k, s). decode_loop-Holds n d' (k.0) (omega arith)))
    ]

    pub config_loop-Holds :
        (n : ℕ) (d : Decoder)
        → IsReady d
        → length d.input < n
        → Holds (λ _. Unit {0}) (config_loop crc inflate n d)
    unfolding config_loop
    config_loop-Holds zero d h l = absurd (omega arith)
    config_loop-Holds (suc n) d h l =
        Holds-bind (Goes d) (λ _. Unit {0}) (parse_chunk crc (decode crc inflate) d) _
          (chunk-Goes d h)
          (λ d' (k, s). elim (Bool-cases (has_config d')) [
            | inl e ↦ rw e tt
            | inr e ↦ rw e (config_loop-Holds n d' (k.0) (omega arith))
          ])
