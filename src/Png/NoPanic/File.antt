-- ===== src/Png/NoPanic/File.antt =====
-- internal/png/reader.go, Read, decode, Decode and DecodeConfig: no panic on any file.
use srvfb.Base.{ℕ, suc, ◌<◌, ◌≡◌, ap, ◌≢◌, arith, length}
use srvfb.Base.Bytes.{Bytes}
use srvfb.Base.Outcome.{Outcome, ok, err, panic}
use srvfb.Png.Format.{
  unsupported_error, eof, unexpected_eof, write_error, endless, Error, format_error, read_full,
}
use srvfb.Png.Filter.RoundTrip.{AllBytes}
use srvfb.Png.Decoder.{Decoder}
use srvfb.Png.Files.{
  full_error, Inflated, done, gather, decode_loop, config_loop, no_eof, equal, png_header,
  check_header, new_decoder, decode_file, decode_config,
}
use srvfb.Png.Stages.{IsReal, IsReady, Holds, Holds-bind, Holds-if, Holds-weaken, read_full-Holds}
use srvfb.Png.NoPanic.Loops.{gather-Holds, decode_loop-Holds, config_loop-Holds}
use srvfb.Png.Files.Fuel.{gather-enough, decode_loop-enough, config_loop-enough}

not_panic {ℓ} : {A : Type ℓ} (m : Outcome Error A) → Holds (λ _. Unit {0}) m → m ≢ panic
not_panic (ok a) h e = absurd (cc e)
not_panic (err x) h e = absurd (cc e)
not_panic panic h e = h

real-ne : (e : Error) → IsReal e → e ≢ endless
real-ne format_error h q = absurd (cc q)
real-ne unsupported_error h q = absurd (cc q)
real-ne eof h q = absurd (cc q)
real-ne unexpected_eof h q = absurd (cc q)
real-ne write_error h q = absurd (cc q)
real-ne endless h q = h

error_or {ℓ} : {A : Type ℓ} → Error → Outcome Error A → Error
error_or e (err x) = x
error_or e _ = e

not_endless {ℓ} : {A : Type ℓ} (m : Outcome Error A) → Holds (λ _. Unit {0}) m → m ≢ err endless
unfolding error_or
not_endless (ok a) h e = absurd (cc e)
not_endless (err x) h e = real-ne x h (ap (error_or eof) e)
not_endless panic h e = absurd h

full_error-IsReal : (e : Error) → IsReal e → IsReal (full_error e)
full_error-IsReal format_error h = tt
full_error-IsReal unsupported_error h = tt
full_error-IsReal eof h = tt
full_error-IsReal unexpected_eof h = tt
full_error-IsReal write_error h = tt
full_error-IsReal endless h = h

no_eof-Holds {ℓ} :
    {A : Type ℓ} (m : Outcome Error A) → Holds (λ _. Unit {0}) m → Holds (λ _. Unit {0}) (no_eof m)
no_eof-Holds (ok a) h = tt
no_eof-Holds (err e) h = full_error-IsReal e h
no_eof-Holds panic h = h

-- A decoder that has read the signature.
check_header-Holds : (input : Bytes) → Holds IsReady (check_header (new_decoder input))
unfolding check_header
check_header-Holds input =
    Holds-bind _ IsReady (read_full 8 input) _ (read_full-Holds 8 input) (λ r _.
      Holds-if IsReady (equal r.0 png_header) _ _
        (λ _. (λ l. absurd (omega arith), λ e. absurd (cc e))) (λ _. tt))

module _ (crc : Bytes → ℕ) (inflate : Bytes → Inflated)
    (inflates : (bs out : Bytes) → inflate bs ≡ done out → AllBytes out) where
  decode_file-Holds : (input : Bytes) → Holds (λ _. Unit {0}) (decode_file crc inflate input)
  unfolding decode_file
  decode_file-Holds input = no_eof-Holds _ (
      Holds-bind IsReady (λ _. Unit {0}) (check_header (new_decoder input)) _
        (check_header-Holds input)
        (λ d h.
          Holds-bind (λ _. Unit {0}) (λ _. Unit {0})
            (decode_loop crc inflate (suc (length d.input)) d) _
            (decode_loop-Holds crc inflate inflates (suc (length d.input)) d h (omega arith))
            (λ d' _. tt)))

  decode_config-Holds : (input : Bytes) → Holds (λ _. Unit {0}) (decode_config crc inflate input)
  unfolding decode_config
  decode_config-Holds input = no_eof-Holds _ (
      Holds-bind IsReady (λ _. Unit {0}) (check_header (new_decoder input)) _
        (check_header-Holds input)
        (λ d h.
          Holds-bind (λ _. Unit {0}) (λ _. Unit {0})
            (config_loop crc inflate (suc (length d.input)) d) _
            (config_loop-Holds crc inflate inflates (suc (length d.input)) d h (omega arith))
            (λ d' _. tt)))

  -- For a decompression that gives bytes: on no input, whatever its checksum, do Decode and
  -- DecodeConfig panic over a palette, be it at the assertion that a color has no alpha, where
  -- alphas are set, or at the slices that make a palette longer for a tRNS chunk or for an index.
  pub decode_file-safe :
      (input : Bytes)
      → (decode_file crc inflate input ≢ panic) × (decode_config crc inflate input ≢ panic)
  decode_file-safe input =
      (not_panic _ (decode_file-Holds input), not_panic _ (decode_config-Holds input))

  -- For a decompression that gives bytes: Decode and DecodeConfig come to an end on every input,
  -- which means that none of their loops (over the chunks, over the reads of the compressed data,
  -- and over the IDAT chunks that a read finds empty) uses up its rounds.
  pub decode_file-ends :
      (input : Bytes)
      → (decode_file crc inflate input ≢ err endless)
        × (decode_config crc inflate input ≢ err endless)
  decode_file-ends input =
      (not_endless _ (decode_file-Holds input), not_endless _ (decode_config-Holds input))

  -- The loop that decompresses, for a decompression that gives bytes: with more rounds than bytes are
  -- left it comes to an end, and the result does not depend on the number of rounds.
  pub gather-ends :
      (n m : ℕ) (acc : Bytes) (d : Decoder)
      → length d.input < n
      → length d.input < m
      → (gather crc inflate n acc d ≢ err endless)
        × (gather crc inflate n acc d ≡ gather crc inflate m acc d)
  gather-ends n m acc d k l = (
    not_endless _ (
        Holds-weaken _ (λ _. Unit {0}) _ (gather-Holds crc inflate inflates n acc d k) (λ r _. tt)),
    gather-enough crc inflate n m acc d k l,
  )

  -- The loops of Decode and DecodeConfig, for a decompression that gives bytes, from a decoder whose
  -- palette is as its stage says (IsReady): with more rounds than bytes are left they come to an end,
  -- and the results do not depend on the number of rounds.
  pub loops-end :
      (n m : ℕ) (d : Decoder)
      → IsReady d
      → length d.input < n
      → length d.input < m
      → (decode_loop crc inflate n d ≢ err endless)
        × (decode_loop crc inflate n d ≡ decode_loop crc inflate m d)
        × (config_loop crc inflate n d ≢ err endless)
        × (config_loop crc inflate n d ≡ config_loop crc inflate m d)
  loops-end n m d h k l = (
    not_endless _ (decode_loop-Holds crc inflate inflates n d h k),
    decode_loop-enough crc inflate n m d k l,
    not_endless _ (config_loop-Holds crc inflate inflates n d h k),
    config_loop-enough crc inflate n m d k l,
  )
