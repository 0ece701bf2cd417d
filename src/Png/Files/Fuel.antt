-- ===== src/Png/Files/Fuel.antt =====
-- internal/png/reader.go, the loops of Read, decode, Decode and DecodeConfig: each round takes bytes
-- of the input, so that they end, and the fuel of the model is enough.
use srvfb.Base.{
  ℕ, zero, suc, ◌≤◌, ◌<◌, min, ◌≡◌, refl, inl, inr, false, [], ◌++◌, arith, ◌==◌, Bool-cases,
  length, drop, length-drop,
}
use srvfb.Base.Bytes.{Bytes}
use srvfb.Base.Outcome.{Outcome, ok, err, panic, ◌>>=◌}
use srvfb.Png.Format.{Error, format_error, rank, kind_of, read_full}
use srvfb.Png.Decoder.{Decoder, verify_checksum}
use srvfb.Png.Decoder.Chunk.{parse_chunk}
use srvfb.Png.Interlace.{read_image}
use srvfb.Png.Files.{
  is_idat, Inflated, more, done, corrupt, next_idat, find_data, some_data, has_config, read, gather,
  decode, decode_loop, config_loop,
}
use srvfb.Png.Files.Shrinks.{
  OnOk, OnOk-bind, OnOk-if, OnOk-weaken, bind-agree, Within, read_full-Within, verify-Within,
  parse_chunk-shrinks,
}

any_result {ℓ} : {A : Type ℓ} (m : Outcome Error A) → OnOk (λ _. Unit {0}) m
any_result (ok a) = tt
any_result (err e) = tt
any_result panic = tt

-- A result that takes bytes of the input.
abbrev pub Shorter : Decoder → Bytes × Decoder → Type 0
Shorter d r = length r.1.input < length d.input

module _ (crc : Bytes → ℕ) where
  pub next_idat-shrinks :
      (d : Decoder) → OnOk (λ d'. length d'.input < length d.input) (next_idat crc d)
  unfolding next_idat
  next_idat-shrinks d =
      OnOk-bind (Within (length d.input)) _ (verify_checksum crc d) _
        (verify-Within crc (length d.input) d (omega arith))
        (λ d' w. OnOk-bind _ _ (read_full 8 d'.input) _ (read_full-Within 8 d'.input) (λ r h.
          let w' : length r.1 < length d.input = omega arith in
          OnOk-if _ (is_idat (kind_of (drop 4 r.0))) _ _ w' tt))

  -- Each round but the last one reads the header of a chunk.
  pub find_data-enough :
      (n m : ℕ) (d : Decoder)
      → length d.input < n
      → length d.input < m
      → find_data crc n d ≡ find_data crc m d
  unfolding find_data
  find_data-enough zero m d p q = absurd (omega arith)
  find_data-enough (suc n) zero d p q = absurd (omega arith)
  find_data-enough (suc n) (suc m) d p q = elim (Bool-cases (d.idat_length == 0)) [
    | inl e ↦
        rw (e, find_data)
          (bind-agree _ (next_idat crc d) (find_data crc n) (find_data crc m) (next_idat-shrinks d)
            (λ d' s. find_data-enough n m d' (omega arith) (omega arith)))
    | inr e ↦ rw (e, find_data) refl
  ]

  pub find_data-Within : (n : ℕ) (d : Decoder) → OnOk (Within (length d.input)) (find_data crc n d)
  unfolding find_data
  find_data-Within zero d = tt
  find_data-Within (suc n) d = elim (Bool-cases (d.idat_length == 0)) [
    | inl e ↦
        rw (e, find_data)
          (OnOk-bind _ _ (next_idat crc d) (find_data crc n) (next_idat-shrinks d) (λ d' s.
            OnOk-weaken (find_data crc n d') (find_data-Within n d') (λ d'' w. omega arith)))
    | inr e ↦ rw (e, find_data) (omega arith)
  ]

  some_data-shrinks : (size : ℕ) (d : Decoder) → OnOk (Shorter d) (some_data size d)
  unfolding some_data
  some_data-shrinks size d =
      let n = min size (min d.idat_length (length d.input)) in
      elim (Bool-cases (n == 0)) [
        | inl e ↦ rw e tt
        | inr e ↦ rw e (taken n (length d.input) d.input (ground arith) (omega arith) refl)
      ]
    where
      taken :
          (n k : ℕ) (bs : Bytes) → 0 < n → n ≤ k → length bs ≡ k → length (drop n bs) < length bs
      taken n k bs p q h = omega (arith, length-drop n bs)

  -- A read of some bytes takes some.
  pub read-shrinks : (size : ℕ) (d : Decoder) → 0 < size → OnOk (Shorter d) (read crc size d)
  unfolding read
  read-shrinks size d p =
      let some : (size == 0) ≡ false = ground arith in
      rw some (
        OnOk-bind _ _ (find_data crc (suc (length d.input)) d) _
          (find_data-Within (suc (length d.input)) d)
          (λ d' w.
            OnOk-weaken (some_data size d') (some_data-shrinks size d') (λ r s. omega arith)))

  module _ (inflate : Bytes → Inflated) where
    -- Every round but the last one reads some bytes.
    pub gather-enough :
        (n m : ℕ) (acc : Bytes) (d : Decoder)
        → length d.input < n
        → length d.input < m
        → gather crc inflate n acc d ≡ gather crc inflate m acc d
    unfolding gather
    gather-enough zero m acc d p q = absurd (omega arith)
    gather-enough (suc n) zero acc d p q = absurd (omega arith)
    gather-enough (suc n) (suc m) acc d p q =
        by_reply (λ bytes d' s. gather-enough n m (acc ++ bytes) d' (omega arith) (omega arith))
          (inflate acc)
      where
        by_reply :
            ((bytes : Bytes) (d' : Decoder)
              → length d'.input < length d.input
              → gather crc inflate n (acc ++ bytes) d' ≡ gather crc inflate m (acc ++ bytes) d')
            → (i : Inflated)
            → (elim i [
              | more ↦ read crc 4096 d >>= λ (bytes, d'). gather crc inflate n (acc ++ bytes) d'
              | done out ↦ ok (out, d)
              | corrupt ↦ err format_error
            ])
              ≡ (elim i [
                | more ↦ read crc 4096 d >>= λ (bytes, d'). gather crc inflate m (acc ++ bytes) d'
                | done out ↦ ok (out, d)
                | corrupt ↦ err format_error
              ])
        by_reply again more =
            bind-agree _ (read crc 4096 d) _ _ (read-shrinks 4096 d (omega arith))
              (λ (bytes, d') s. again bytes d' s)
        by_reply again (done out) = refl
        by_reply again corrupt = refl

    gather-Within :
        (n : ℕ) (acc : Bytes) (d : Decoder)
        → OnOk (λ r. Within (length d.input) r.1) (gather crc inflate n acc d)
    unfolding gather
    gather-Within zero acc d = tt
    gather-Within (suc n) acc d =
        by_reply (λ bytes d'. gather-Within n (acc ++ bytes) d') (inflate acc)
      where
        by_reply :
            ((bytes : Bytes) (d' : Decoder)
              → OnOk (λ r. Within (length d'.input) r.1) (gather crc inflate n (acc ++ bytes) d'))
            → (i : Inflated)
            → OnOk
                (λ r. Within (length d.input) r.1)
                (elim i [
                  | more ↦ read crc 4096 d >>= λ (bytes, d'). gather crc inflate n (acc ++ bytes) d'
                  | done out ↦ ok (out, d)
                  | corrupt ↦ err format_error
                ])
        by_reply again more =
            OnOk-bind _ _ (read crc 4096 d) _ (read-shrinks 4096 d (omega arith)) (λ (bytes, d') s.
              OnOk-weaken (gather crc inflate n (acc ++ bytes) d') (again bytes d')
                (λ r w. omega arith))
        by_reply again (done out) = omega arith
        by_reply again corrupt = tt

    decode-Within : (d : Decoder) → OnOk (λ r. length r.1 ≤ length d.input) (decode crc inflate d)
    unfolding decode
    decode-Within d =
        OnOk-bind _ _ (gather crc inflate (suc (length d.input)) [] d) _
          (gather-Within (suc (length d.input)) [] d)
          (λ (out, d') w.
            OnOk-bind (λ _. Unit {0}) _ (read_image d' out) _ (any_result (read_image d' out))
              (λ img _. OnOk-if _ (d'.idat_length == 0) _ _ w tt))

    pub chunk-shrinks :
        (d : Decoder)
        → OnOk (λ d'. length d'.input < length d.input) (parse_chunk crc (decode crc inflate) d)
    chunk-shrinks d = parse_chunk-shrinks crc (decode crc inflate) decode-Within d

    -- Decode's loop: with more rounds than the input has bytes, the result does not depend on their
    -- number, so that the loop ends on every input, and the result is the one of decode_file.
    pub decode_loop-enough :
        (n m : ℕ) (d : Decoder)
        → length d.input < n
        → length d.input < m
        → decode_loop crc inflate n d ≡ decode_loop crc inflate m d
    unfolding decode_loop
    decode_loop-enough zero m d p q = absurd (omega arith)
    decode_loop-enough (suc n) zero d p q = absurd (omega arith)
    decode_loop-enough (suc n) (suc m) d p q = elim (Bool-cases (rank d.stage == 5)) [
      | inl e ↦ rw (e, decode_loop) refl
      | inr e ↦
          rw (e, decode_loop)
            (bind-agree _ (parse_chunk crc (decode crc inflate) d) (decode_loop crc inflate n)
              (decode_loop crc inflate m) (chunk-shrinks d)
              (λ d' s. decode_loop-enough n m d' (omega arith) (omega arith)))
    ]

    -- The same of DecodeConfig's loop.
    pub config_loop-enough :
        (n m : ℕ) (d : Decoder)
        → length d.input < n
        → length d.input < m
        → config_loop crc inflate n d ≡ config_loop crc inflate m d
    unfolding config_loop
    config_loop-enough zero m d p q = absurd (omega arith)
    config_loop-enough (suc n) zero d p q = absurd (omega arith)
    config_loop-enough (suc n) (suc m) d p q =
        bind-agree _ (parse_chunk crc (decode crc inflate) d) _ _ (chunk-shrinks d) (λ d' s.
          elim (Bool-cases (has_config d')) [
            | inl e ↦ rw e refl
            | inr e ↦ rw e (config_loop-enough n m d' (omega arith) (omega arith))
          ])
