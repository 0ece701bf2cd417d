-- ===== src/Png/Encode/Palette.antt =====
-- internal/png: the palette that writePLTEAndTRNS writes is the one that the decoder gets.
use srvfb.Base.{
  ℕ, suc, ◌-◌, ◌^◌, ◌≤◌, ◌<◌, ◌≡◌, refl, true, false, Option, none, List, [], ◌∷◌, ◌++◌, map,
  append_assoc, arith, ltb, length, set, take, replicate,
}
use srvfb.Base.Bytes.{Bytes, put_uint32, take-append_length}
use srvfb.Base.Outcome.{Outcome, ok, ◌>>=◌}
use srvfb.Png.Canvas.{Canvas}
use srvfb.Png.Format.{Error, cb_paletted, ds_seen_ihdr, ds_seen_trns, name_of, plte, trns}
use srvfb.Png.Encoder.{Encoder}
use srvfb.Png.Decoder.{Decoder, Color}
use srvfb.Png.Decoder.Chunk.{parse_chunk}
use srvfb.Png.Chunks.{write_chunk-eq, chunk}
use srvfb.Png.Encode.{plte_data, trns_data, write_trns, tmp_after, write_plte_and_trns}
use srvfb.Png.Encode.Colors.{
  Quad, quad, plain, length-plte_data, length-plain, length-trns_data, plain-quads,
  set_alpha-trns_data,
}
use srvfb.Png.Encode.PaletteChunks.{black, plte_read, parse_plte_chunk, parse_trns_chunk}

take-append_eq : (cs more : List Color) (n : ℕ) → length cs ≡ n → take n (cs ++ more) ≡ cs
take-append_eq cs more n h = rw (← h) (take-append_length cs more)

-- An encoder that has written nothing, on a writer that takes six writes at least.
abbrev pub encoder : ℕ → ℕ × ℕ → Encoder
encoder budget tmp = record {
  out = [];
  budget = suc (suc (suc (suc (suc (suc budget)))));
  error = none;
  tmp = tmp;
}

module _ (crc : Bytes → ℕ) (decode : Decoder → Outcome Error (Option Canvas × Bytes × Bytes))
    (bounded : (b : Bytes) → crc b < 2 ^ 32) where
  -- The chunks of a palette with these alphas: PLTE, and tRNS if there are any.
  abbrev pub parse_palette : Bytes → Decoder → Outcome Error Decoder
  parse_palette [] d = parse_chunk crc decode d
  parse_palette (x ∷ xs) d = parse_chunk crc decode d >>= parse_chunk crc decode

  -- What the encoder writes for them, before something else.
  abbrev written : Bytes → Bytes → Bytes → Bytes
  written [] colors rest = chunk crc colors (name_of plte) ++ rest
  written (x ∷ xs) colors rest =
      chunk crc colors (name_of plte) ++ (chunk crc (x ∷ xs) (name_of trns) ++ rest)

  written-eq :
      (p : List Quad) (budget : ℕ) (tmp : ℕ × ℕ) (rest : Bytes)
      → 1 ≤ length p
      → length p ≤ 256
      → (write_plte_and_trns crc p (encoder budget tmp)).out ++ rest
        ≡ written (trns_data p) (plte_data p) rest
  unfolding write_plte_and_trns
  written-eq p budget tmp rest any few =
      let some' : ltb (length p) 1 ≡ false = ground arith in
      let few' : ltb 256 (length p) ≡ false = ground arith in
      rw
        (
          some',
          few',
          write_chunk-eq crc (plte_data p) (name_of plte) [] (suc (suc (suc budget)))
              (tmp_after p tmp) (omega (arith, length-plte_data p)),
        )
        (by (trns_data p) (omega (arith, length-trns_data p)))
    where
      by :
          (t : Bytes)
          → length t < 2 ^ 32
          → (write_trns crc t (record {
            out = chunk crc (plte_data p) (name_of plte);
            budget = suc (suc (suc budget));
            error = none;
            tmp = tmp_after p tmp;
          })).out
              ++ rest
            ≡ written t (plte_data p) rest
      by [] h = refl
      by (x ∷ xs) h =
          let name = name_of trns in
          let t : Bytes = x ∷ xs in
          let o = chunk crc (plte_data p) (name_of plte) in
          rw
            (
              write_chunk-eq crc t name o budget (tmp_after p tmp) h,
              append_assoc ((o ++ (put_uint32 (length t) ++ name)) ++ t)
                  (put_uint32 (crc (name ++ t))) rest,
              append_assoc (o ++ (put_uint32 (length t) ++ name)) t,
              append_assoc o (put_uint32 (length t) ++ name),
              append_assoc ((put_uint32 (length t) ++ name) ++ t) (put_uint32 (crc (name ++ t)))
                  rest,
              append_assoc (put_uint32 (length t) ++ name) t,
            )
            refl

  -- A palette of 1 to 256 colors, as many as the depth allows, that writePLTEAndTRNS writes on a
  -- writer that takes six writes: a decoder that has read the header of a paletted picture reads it
  -- without an error, stops behind it, and its palette then has as many colors, which are the
  -- encoder's colors, alphas included.
  pub parse_palette-write_plte_and_trns :
      (p : List Quad) (d : Decoder) (budget : ℕ) (tmp : ℕ × ℕ) (rest : Bytes)
      → 1 ≤ length p
      → length p ≤ 256
      → length p ≤ 2 ^ d.depth
      → d.stage ≡ ds_seen_ihdr
      → cb_paletted d.cb ≡ true
      → (d' : Decoder) × (parse_palette
            (trns_data p)
            (record d { input = (write_plte_and_trns crc p (encoder budget tmp)).out ++ rest })
          ≡ ok d')
        × (d'.input ≡ rest)
        × (d'.palette_len ≡ length p)
        × (map quad (take (length p) d'.palette) ≡ p)
  parse_palette-write_plte_and_trns p d budget tmp rest any few room st cb =
      rw (written-eq p budget tmp rest any few) (by (trns_data p) refl)
    where
      spare : List Color
      spare = replicate (256 - length p) black

      by :
          (t : Bytes)
          → trns_data p ≡ t
          → (d' : Decoder) × (parse_palette t (record d { input = written t (plte_data p) rest })
              ≡ ok d')
            × (d'.input ≡ rest)
            × (d'.palette_len ≡ length p)
            × (map quad (take (length p) d'.palette) ≡ p)
      by [] e = (
        plte_read crc decode bounded p rest d,
        parse_plte_chunk crc decode bounded p d rest any few room st cb,
        refl,
        refl,
        rw (take-append_eq (plain p) spare (length p) (length-plain p)) (plain-quads p e),
      )
      by (x ∷ xs) e =
          let (cs, set, quads, size) = set_alpha-trns_data p spare in
          let next = chunk crc (x ∷ xs) (name_of trns) ++ rest in
          let second = rw e at (parse_trns_chunk crc decode bounded p d rest cs few cb set) in
          (
            record (plte_read crc decode bounded p rest d) {
              checked = name_of trns ++ (x ∷ xs);
              stage = ds_seen_trns;
              palette = cs ++ spare;
            },
            rw (parse_plte_chunk crc decode bounded p d next any few room st cb) second,
            refl,
            refl,
            rw (take-append_eq cs spare (length p) size) quads,
          )
