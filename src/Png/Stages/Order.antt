-- ===== src/Png/Stages/Order.antt =====
-- internal/png/reader.go, parseChunk: no panic, and the order of the chunks.
use srvfb.Base.{
  ℕ, ◌≤◌, ◌<◌, ◌≡◌, refl, sym, ap, ◌∙◌, ◌≢◌, Bool, true, false, not, ◌&&◌, ◌||◌, Option, arith, ltb,
  ◌==◌, if◌then◌else◌, length, drop,
}
use srvfb.Base.Bytes.{Bytes}
use srvfb.Base.Outcome.{Outcome}
use srvfb.Png.Canvas.{Canvas}
use srvfb.Png.Format.{
  Mode, cb_paletted, Stage, ds_start, ds_seen_ihdr, ds_seen_plte, ds_seen_trns, ds_seen_idat,
  ds_seen_iend, rank, big_endian, Error, Kind, ihdr, plte, trns, idat, iend, unknown, kind_of,
  read_full,
}
use srvfb.Png.Decoder.{Decoder}
use srvfb.Png.Decoder.Chunk.{parse_idat, take_chunk, parse_chunk}
use srvfb.Png.Decoder.Palette.{parse_trns, trns_use}
use srvfb.Png.Stages.{
  AllOpaque, HasArray, IsReady, Holds, Holds-bind, Holds-reject, Holds-if, Holds-weaken,
  read_full-Holds, Keeps,
}
use srvfb.Png.Stages.Parts.{
  iend-Holds, ignore-Holds, checked-Holds, parse_ihdr-Holds, parse_plte-Holds,
}
use srvfb.Png.Stages.Palette.{trns-Holds}

is_plte : (s : Stage) → rank s ≡ 2 → s ≡ ds_seen_plte
is_plte ds_start h = absurd (omega arith)
is_plte ds_seen_ihdr h = absurd (omega arith)
is_plte ds_seen_plte h = refl
is_plte ds_seen_trns h = absurd (omega arith)
is_plte ds_seen_idat h = absurd (omega arith)
is_plte ds_seen_iend h = absurd (omega arith)

-- What the tests of the stage say, before tRNS and before IDAT.
module _ (d : Decoder) where
  paletted_rank :
      cb_paletted d.cb ≡ true
      → not (rank d.stage == (if cb_paletted d.cb then 2 else 1)) ≡ false
      → rank d.stage ≡ 2
  paletted_rank c e = ground arith

  trns_rank :
      not (rank d.stage == (if cb_paletted d.cb then 2 else 1)) ≡ false
      → (1 ≤ rank d.stage) × (rank d.stage ≤ 2)
  trns_rank e = (ground arith, ground arith)

  abbrev early : Bool
  early = ltb (rank d.stage) 1 || ltb 4 (rank d.stage) || (rank d.stage == 1 && cb_paletted d.cb)

  idat_rank : early ≡ false → (1 ≤ rank d.stage) × (rank d.stage ≤ 4)
  idat_rank e = (ground arith, ground arith)

  palette_seen : cb_paletted d.cb ≡ true → early ≡ false → rank d.stage ≢ 1
  palette_seen c e = ground arith

-- The palette, for tRNS and for IDAT.
both :
    (d : Decoder)
    → IsReady d
    → cb_paletted d.cb ≡ true
    → rank d.stage ≡ 2
    → AllOpaque d.palette × (256 ≤ length d.palette)
both d (full, plain) c r = (plain (is_plte d.stage r) c, full (omega arith) c)

idat_array : (d : Decoder) → IsReady d → early d ≡ false → HasArray d
idat_array d (full, plain) e c =
    let (lo, hi) = idat_rank d e in let n = palette_seen d c e in full (grind arith) c

module _ (crc : Bytes → ℕ) where
  -- What one chunk may do: the stages go forward, the header comes first, the pixels come before the
  -- end, and the palette of a paletted picture before its pixels.
  pub record IsNext (s s' : Stage) (cb : Mode) : Type 0 where
    pub forward : rank s ≤ rank s'
    pub header_first : 1 < rank s' → 1 ≤ rank s
    pub pixels_first : rank s' ≡ 5 → 4 ≤ rank s
    pub palette_first : rank s' ≡ 4 → cb_paletted cb ≡ true → rank s ≢ 1

  abbrev pub Next : Decoder → Decoder → Type 0
  Next d d' = IsReady d' × IsNext d.stage d'.stage d'.cb

  -- A chunk that leaves the stage, the mode and the palette alone.
  stays : (d d' : Decoder) → IsReady d → Keeps d d' → Next d d'
  stays d d' (full, plain) (a, b, c) =
      let r = ap rank a in
      (
        (
          λ p q. rw c (full (omega arith) (ap cb_paletted (sym b) ∙ q)),
          λ p q. rw c (plain (sym a ∙ p) (ap cb_paletted (sym b) ∙ q)),
        ),
        record {
          forward = omega arith;
          header_first = λ u. omega arith;
          pixels_first = λ u. omega arith;
          palette_first = λ e _. omega arith;
        },
      )

  -- Before the palette there is no array, and after tRNS no use for colors without an alpha.
  early_stage : (s : Stage) (d : Decoder) → d.stage ≡ s → rank s < 2 → IsReady d
  early_stage s d e n =
      let r = ap rank e in (λ p c. absurd (omega arith), λ p c. absurd (omega (arith, ap rank p)))

  late_stage : (s : Stage) (d : Decoder) → d.stage ≡ s → 2 < rank s → HasArray d → IsReady d
  late_stage s d e n h = let r = ap rank e in (λ p. h, λ p c. absurd (omega (arith, ap rank p)))

  module _ (decode : Decoder → Outcome Error (Option Canvas × Bytes × Bytes))
      (returns : (d : Decoder) → HasArray d → Holds (λ _. Unit {0}) (decode d)) where
    parse_idat-Holds :
        (n : ℕ) (d : Decoder) → HasArray d → Holds (Keeps d) (parse_idat crc decode n d)
    unfolding parse_idat
    parse_idat-Holds n d h =
        let d1 : Decoder = record d { idat_length = n } in
        Holds-bind (λ _. Unit {0}) (Keeps d) (decode d1) _ (returns d1 h)
          (λ r _. checked-Holds crc (Keeps d) _ (λ d' k. k))

    take_chunk-Holds :
        (kind : Kind) (n : ℕ) (d : Decoder)
        → IsReady d
        → Holds (Next d) (take_chunk crc decode kind n d)
    unfolding take_chunk parse_trns
    take_chunk-Holds ihdr n d h = Holds-reject (Next d) (not (rank d.stage == 0)) _ _ tt (λ e.
        Holds-weaken _ (Next d) _ (parse_ihdr-Holds crc n (record d { stage = ds_seen_ihdr }))
          (λ d' s.
            let r = ap rank s in
            let q : rank d.stage ≡ 0 = ground arith in
            (
              early_stage ds_seen_ihdr d' s (omega arith),
              record {
                forward = omega arith;
                header_first = λ u. omega arith;
                pixels_first = λ u. omega arith;
                palette_first = λ u v. omega arith;
              },
            )))
    take_chunk-Holds plte n d h = Holds-reject (Next d) (not (rank d.stage == 1)) _ _ tt (λ e.
        Holds-weaken _ (Next d) _ (parse_plte-Holds crc n (record d { stage = ds_seen_plte }))
          (λ d' (s, p).
            let r = ap rank s in
            let q : rank d.stage ≡ 1 = ground arith in
            (
              (λ _ c. (p c).1, λ _ c. (p c).0),
              record {
                forward = omega arith;
                header_first = λ u. omega arith;
                pixels_first = λ u. omega arith;
                palette_first = λ u v. omega arith;
              },
            )))
    take_chunk-Holds trns n d h =
        Holds-reject (Next d) (not (rank d.stage == (if cb_paletted d.cb then 2 else 1))) _ _ tt
          (λ e.
            Holds-weaken _ (Next d) _
              (trns-Holds crc (trns_use d.cb) n (record d { stage = ds_seen_trns }) refl
                (λ c. both d h c (paletted_rank d c e)))
              (λ d' (s, m, l).
                let r = ap rank s in
                let (lo, hi) = trns_rank d e in
                (
                  late_stage ds_seen_trns d' s (omega arith) (λ c.
                      let c' = ap cb_paletted (sym m) ∙ c in
                      let f = (both d h c' (paletted_rank d c' e)).1 in omega arith),
                  record {
                    forward = omega arith;
                    header_first = λ u. omega arith;
                    pixels_first = λ u. omega arith;
                    palette_first = λ u v. omega arith;
                  },
                )))
    take_chunk-Holds idat n d h =
        Holds-reject (Next d)
          (ltb (rank d.stage) 1 || ltb 4 (rank d.stage) || (rank d.stage == 1 && cb_paletted d.cb))
          _ _ tt
          (λ e.
            Holds-if (Next d) (rank d.stage == 4) _ _
              (λ t. Holds-weaken _ (Next d) _ (ignore-Holds crc n d) (λ d' k. stays d d' h k))
              (λ t.
                Holds-weaken _ (Next d) _
                  (parse_idat-Holds n (record d { stage = ds_seen_idat }) (idat_array d h e))
                  (λ d' (s, c, pal).
                    let r = ap rank s in
                    let (lo, hi) = idat_rank d e in
                    (
                      late_stage ds_seen_idat d' s (omega arith)
                          (λ q. rw pal (idat_array d h e (ap cb_paletted (sym c) ∙ q))),
                      record {
                        forward = omega arith;
                        header_first = λ _. lo;
                        pixels_first = λ u. omega arith;
                        palette_first = λ _ p q. palette_seen d (ap cb_paletted (sym c) ∙ p) e q;
                      },
                    ))))
    take_chunk-Holds iend n d h = Holds-reject (Next d) (not (rank d.stage == 4)) _ _ tt (λ e.
        Holds-weaken _ (Next d) _ (iend-Holds crc n (record d { stage = ds_seen_iend })) (λ d' k.
          let r = ap rank (k.0) in
          let q : rank d.stage ≡ 4 = ground arith in
          (
            late_stage ds_seen_iend d' (k.0) (omega arith)
                (λ c. rw (k.2) (h.0 (omega arith) (ap cb_paletted (sym (k.1)) ∙ c))),
            record {
              forward = omega arith;
              header_first = λ u. omega arith;
              pixels_first = λ u. omega arith;
              palette_first = λ u v. omega arith;
            },
          )))
    take_chunk-Holds unknown n d h =
        Holds-weaken _ (Next d) _ (ignore-Holds crc n d) (λ d' k. stays d d' h k)

    -- For a decode that does not panic from a decoder with 256 colors, or without a palette: on no
    -- input does parseChunk panic, from a decoder whose palette is ready (from PLTE on, a paletted
    -- picture has an array of 256 colors, and before tRNS none of them has an alpha); the decoder
    -- that it returns is such a decoder again; and the chunks are in order: the stages go forward,
    -- IHDR comes before the others, IDAT before IEND, and the palette of a paletted picture before
    -- IDAT.
    pub parse_chunk-Next : (d : Decoder) → IsReady d → Holds (Next d) (parse_chunk crc decode d)
    unfolding parse_chunk
    parse_chunk-Next d h =
        Holds-bind _ (Next d) (read_full 8 d.input) _ (read_full-Holds 8 d.input) (λ r _.
          take_chunk-Holds (kind_of (drop 4 r.0)) (big_endian r.0)
            (record d { input = r.1; checked = drop 4 r.0 }) h)
