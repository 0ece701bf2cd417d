-- ===== src/Png/Stages/Parts.antt =====
-- internal/png/reader.go, verifyChecksum, parseIHDR, parsePLTE and parseIEND: no panic, and what
-- they leave alone.
use srvfb.Base.{
  ℕ, zero, suc, ◌-◌, ◌*◌, ◌/◌, ◌%◌, ◌^◌, ◌≤◌, ◌≡◌, refl, ap, ◌∙◌, true, false, not, ◌&&◌, ◌||◌,
  List, [], ◌∷◌, ◌++◌, arith, ltb, ◌==◌, length, length-append, get_or, drop, replicate,
  length-replicate,
}
use srvfb.Base.Bytes.{Bytes}
use srvfb.Png.Format.{cb_paletted, big_endian, format_error, unsupported_error, read_full}
use srvfb.Png.Decoder.{
  Color, rgba, nrgba, Decoder, read_data, verify_checksum, parse_iend, ignore_chunk,
}
use srvfb.Png.Decoder.Header.{take_ihdr, parse_ihdr, mode_of, not_positive, overflows, is_invalid}
use srvfb.Png.Decoder.Palette.{entries, ignores_plte, take_plte, parse_plte}
use srvfb.Png.Stages.{
  AllOpaque, Holds, Holds-bind, Holds-reject, checks, Holds-if, Holds-weaken, read_full-Holds,
  Keeps, read_data-Holds, kept,
}

pub AllOpaque-append : (cs ds : List Color) → AllOpaque cs → AllOpaque ds → AllOpaque (cs ++ ds)
AllOpaque-append [] ds h k = k
AllOpaque-append (rgba r g b a ∷ cs) ds h k = AllOpaque-append cs ds h k
AllOpaque-append (nrgba r g b a ∷ cs) ds h k = elim h [ ]

pub AllOpaque-replicate : (n : ℕ) → AllOpaque (replicate n (rgba 0 0 0 0xff))
AllOpaque-replicate zero = tt
AllOpaque-replicate (suc n) = AllOpaque-replicate n

pub AllOpaque-entries : (tmp : Bytes) → AllOpaque (entries tmp)
AllOpaque-entries [] = tt
AllOpaque-entries (a ∷ []) = tt
AllOpaque-entries (a ∷ b ∷ []) = tt
AllOpaque-entries (a ∷ b ∷ c ∷ tmp) = AllOpaque-entries tmp

pub length-entries : (np : ℕ) (tmp : Bytes) → length tmp ≡ 3 * np → length (entries tmp) ≡ np
length-entries np [] h = omega arith
length-entries np (a ∷ []) h = absurd (omega arith)
length-entries np (a ∷ b ∷ []) h = absurd (omega arith)
length-entries zero (a ∷ b ∷ c ∷ tmp) h = absurd (omega arith)
length-entries (suc np) (a ∷ b ∷ c ∷ tmp) h = ap suc (length-entries np tmp (omega arith))

-- The palette that parsePLTE makes.
pub made :
    (np : ℕ) (tmp : Bytes)
    → length tmp ≡ 3 * np
    → np ≤ 256
    → let cs = entries tmp ++ replicate (256 - np) (rgba 0 0 0 0xff) in
      AllOpaque cs × (256 ≤ length cs)
made np tmp h l =
    let black : Color = rgba 0 0 0 0xff in
    (
      AllOpaque-append (entries tmp) _ (AllOpaque-entries tmp) (AllOpaque-replicate (256 - np)),
      omega (
        arith,
        length-append (entries tmp) (replicate (256 - np) black),
        length-entries np tmp h,
        length-replicate (256 - np) black,
      ),
    )

-- A length that parsePLTE does not reject.
pub few :
    (n depth : ℕ)
    → (not (n % 3 == 0) || n / 3 == 0 || ltb 256 (n / 3) || ltb (2 ^ depth) (n / 3)) ≡ false
    → n / 3 ≤ 256
few n depth e = ground arith

module _ (crc : Bytes → ℕ) where
  pub verify_checksum-Holds : (d : Decoder) → Holds (Keeps d) (verify_checksum crc d)
  unfolding verify_checksum
  verify_checksum-Holds d =
      Holds-bind (λ r. length r.0 ≡ 4) _ (read_full 4 d.input) _ (read_full-Holds 4 d.input)
        (λ r h.
          Holds-if _ (big_endian r.0 == crc d.checked) _ _ (λ e. (refl, refl, refl)) (λ e. tt))

  pub iend-Holds : (n : ℕ) (d : Decoder) → Holds (Keeps d) (parse_iend crc n d)
  unfolding parse_iend
  iend-Holds n d = Holds-reject _ (not (n == 0)) _ _ tt (λ e. verify_checksum-Holds d)

  pub ignore-Holds : (n : ℕ) (d : Decoder) → Holds (Keeps d) (ignore_chunk crc n d)
  unfolding ignore_chunk
  ignore-Holds n d = Holds-reject _ (ltb 0x7fffffff n) _ _ tt (λ e.
      Holds-bind _ _ (read_data n d) _ (read_data-Holds n d)
        (λ r (h, k). Holds-weaken _ _ _ (verify_checksum-Holds r.1) (λ d' k'. kept d r.1 d' k k')))

  pub checked-Holds :
      (Q : Decoder → Type 0) (d : Decoder)
      → ((d' : Decoder) → Keeps d d' → Q d')
      → Holds Q (verify_checksum crc d)
  checked-Holds Q d f = Holds-weaken (Keeps d) Q _ (verify_checksum-Holds d) f

  pub take_ihdr-Holds :
      (tmp : Bytes) (d : Decoder) → Holds (λ d'. d'.stage ≡ d.stage) (take_ihdr crc tmp d)
  unfolding take_ihdr
  take_ihdr-Holds tmp d =
      let Q : Decoder → Type 0 = λ d'. d'.stage ≡ d.stage in
      let w = big_endian tmp in
      let h = big_endian (drop 4 tmp) in
      let interlace = get_or tmp 12 0 in
      let cb = mode_of (get_or tmp 8 0) (get_or tmp 9 0) in
      checks Q (not (get_or tmp 10 0 == 0)) (not (get_or tmp 11 0 == 0))
        (not (interlace == 0) && not (interlace == 1)) (not_positive w || not_positive h)
        (overflows (w * h)) (is_invalid cb) unsupported_error unsupported_error format_error
        format_error unsupported_error unsupported_error
        (verify_checksum crc (record d {
          interlace = interlace;
          cb = cb;
          depth = get_or tmp 8 0;
          width = w;
          height = h;
        }))
        (tt, tt, tt, tt, tt, tt) (checked-Holds Q _ (λ d' k. k.0))

  pub parse_ihdr-Holds :
      (n : ℕ) (d : Decoder) → Holds (λ d'. d'.stage ≡ d.stage) (parse_ihdr crc n d)
  unfolding parse_ihdr
  parse_ihdr-Holds n d =
      let Q : Decoder → Type 0 = λ d'. d'.stage ≡ d.stage in
      Holds-reject Q (not (n == 13)) _ _ tt (λ e.
        Holds-bind _ Q (read_data 13 d) _ (read_data-Holds 13 d)
          (λ r (h, k). Holds-weaken _ Q _ (take_ihdr-Holds r.0 r.1) (λ d' k'. k' ∙ k.0)))

  -- The palette of a paletted picture has its array of colors without an alpha.
  abbrev pub HasPalette : Decoder → Type 0
  HasPalette d = cb_paletted d.cb ≡ true → AllOpaque d.palette × (256 ≤ length d.palette)

  pub take_plte-Holds :
      (np : ℕ) (tmp : Bytes) (d : Decoder)
      → length tmp ≡ 3 * np
      → np ≤ 256
      → Holds (λ d'. (d'.stage ≡ d.stage) × HasPalette d') (take_plte crc np tmp d)
  unfolding take_plte
  take_plte-Holds np tmp d h l =
      let Q : Decoder → Type 0 = λ d'. (d'.stage ≡ d.stage) × HasPalette d' in
      Holds-if Q (cb_paletted d.cb) _ _
        (λ p. checked-Holds Q _ (λ d' k. (k.0, λ _. rw (k.2) (made np tmp h l))))
        (λ p.
          Holds-if Q (ignores_plte d.cb) _ _
            (λ i. checked-Holds Q _ (λ d' k. (k.0, λ c. absurd (cc (p, k.1, c))))) (λ _. tt))

  pub parse_plte-Holds :
      (n : ℕ) (d : Decoder)
      → Holds (λ d'. (d'.stage ≡ d.stage) × HasPalette d') (parse_plte crc n d)
  unfolding parse_plte
  parse_plte-Holds n d =
      let Q : Decoder → Type 0 = λ d'. (d'.stage ≡ d.stage) × HasPalette d' in
      Holds-reject Q _ _ _ tt (λ e.
        Holds-bind _ Q (read_data (3 * (n / 3)) d) _ (read_data-Holds (3 * (n / 3)) d) (λ r (h, k).
          Holds-weaken _ Q _ (take_plte-Holds (n / 3) r.0 r.1 h (few n d.depth e))
            (λ d' (a, b). (a ∙ k.0, b))))
