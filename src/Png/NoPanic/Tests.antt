-- ===== src/Png/NoPanic/Tests.antt =====
-- A paletted picture of one pixel, with more alphas than colors and an index beyond both.
use srvfb.Base.{ℕ, ◌%◌, ◌^◌, ◌≡◌, ap, ◌≢◌, [], ◌∷◌, ◌++◌, arith}
use srvfb.Base.Bytes.{Bytes}
use srvfb.Base.Outcome.{err, panic}
use srvfb.Png.Filter.RoundTrip.{AllBytes}
use srvfb.Png.Format.{endless}
use srvfb.Png.Decoder.{Decoder}
use srvfb.Png.Stages.{IsReady}
use srvfb.Png.Files.{
  new_decoder, gather, decode_loop, config_loop, Inflated, more, done, png_header, decode_file,
  decode_config,
}
use srvfb.Png.NoPanic.File.{decode_file-safe, decode_file-ends, gather-ends, loops-end}

abbrev crc : Bytes → ℕ
crc b = 0

-- Two bytes as they are.
abbrev inflate : Bytes → Inflated
inflate [] = more
inflate (x ∷ []) = more
inflate (x ∷ y ∷ bs) = done ((x % 2 ^ 8) ∷ (y % 2 ^ 8) ∷ [])

abbrev result : Inflated → Bytes
result (done out) = out
result _ = []

inflate-AllBytes : (bs out : Bytes) → inflate bs ≡ done out → AllBytes out
inflate-AllBytes [] out e = absurd (cc e)
inflate-AllBytes (x ∷ []) out e = absurd (cc e)
inflate-AllBytes (x ∷ y ∷ bs) out e =
    let same : (x % 2 ^ 8) ∷ (y % 2 ^ 8) ∷ [] ≡ out = ap result e in
    rw (← same) (omega arith, (omega arith, tt))

-- IHDR for 8 bits and a palette, PLTE with one color, tRNS with two alphas, IDAT with the index 200.
abbrev chunks : Bytes
chunks =
    0 ∷ 0 ∷ 0 ∷ 13 ∷ b'I' ∷ b'H' ∷ b'D' ∷ b'R' ∷ 0 ∷ 0 ∷ 0 ∷ 1 ∷ 0 ∷ 0 ∷ 0 ∷ 1 ∷ 8 ∷ 3 ∷ 0 ∷ 0 ∷ 0
    ∷ 0 ∷ 0 ∷ 0 ∷ 0 ∷ 0 ∷ 0 ∷ 0 ∷ 3 ∷ b'P' ∷ b'L' ∷ b'T' ∷ b'E' ∷ 1 ∷ 2 ∷ 3 ∷ 0 ∷ 0 ∷ 0 ∷ 0 ∷ 0 ∷ 0
    ∷ 0 ∷ 2 ∷ b't' ∷ b'R' ∷ b'N' ∷ b'S' ∷ 9 ∷ 8 ∷ 0 ∷ 0 ∷ 0 ∷ 0 ∷ 0 ∷ 0 ∷ 0 ∷ 2 ∷ b'I' ∷ b'D' ∷ b'A'
    ∷ b'T' ∷ 0 ∷ 200 ∷ 0 ∷ 0 ∷ 0 ∷ 0 ∷ 0 ∷ 0 ∷ 0 ∷ 0 ∷ b'I' ∷ b'E' ∷ b'N' ∷ b'D' ∷ 0 ∷ 0 ∷ 0 ∷ 0
    ∷ []

decode_file-safe_example :
    (decode_file crc inflate (png_header ++ chunks) ≢ panic)
    × (decode_config crc inflate (png_header ++ chunks) ≢ panic)
decode_file-safe_example = decode_file-safe crc inflate inflate-AllBytes (png_header ++ chunks)

decode_file-ends_example :
    (decode_file crc inflate (png_header ++ chunks) ≢ err endless)
    × (decode_config crc inflate (png_header ++ chunks) ≢ err endless)
decode_file-ends_example = decode_file-ends crc inflate inflate-AllBytes (png_header ++ chunks)

-- Behind the signature.
abbrev beginning : Decoder
beginning = new_decoder chunks

beginning-IsReady : IsReady beginning
beginning-IsReady = (λ l. absurd (omega arith), λ e. absurd (cc e))

loops-end_example :
    (decode_loop crc inflate 200 beginning ≢ err endless)
    × (decode_loop crc inflate 200 beginning ≡ decode_loop crc inflate 300 beginning)
    × (config_loop crc inflate 200 beginning ≢ err endless)
    × (config_loop crc inflate 200 beginning ≡ config_loop crc inflate 300 beginning)
loops-end_example =
    loops-end crc inflate inflate-AllBytes 200 300 beginning beginning-IsReady (omega arith)
      (omega arith)

gather-ends_example :
    (gather crc inflate 200 [] (record beginning { idat_length = 1 }) ≢ err endless)
    × (gather crc inflate 200 [] (record beginning { idat_length = 1 })
        ≡ gather crc inflate 300 [] (record beginning { idat_length = 1 }))
gather-ends_example =
    gather-ends crc inflate inflate-AllBytes 200 300 [] (record beginning { idat_length = 1 })
      (omega arith) (omega arith)
