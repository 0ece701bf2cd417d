-- ===== src/Png/Stages/Palette.antt =====
-- internal/png/reader.go, parsetRNS: no panic, with a palette that is ready.
use srvfb.Base.{ℕ, suc, ◌≤◌, ◌≡◌, refl, ap, ◌∙◌, true, not, List, [], ◌∷◌, arith, ltb, ◌==◌, length}
use srvfb.Base.Bytes.{Bytes}
use srvfb.Png.Format.{
  Mode, cb_invalid, cb_g1, cb_g2, cb_g4, cb_g8, cb_ga8, cb_tc8, cb_p1, cb_p2, cb_p4, cb_p8, cb_tca8,
  cb_g16, cb_ga16, cb_tc16, cb_tca16, cb_paletted,
}
use srvfb.Png.Decoder.{Color, rgba, nrgba, Decoder, read_data}
use srvfb.Png.Decoder.Palette.{
  set_alpha, take_alpha, TrnsUse, gray, rgb, indexed, mismatch, trns_use, trns_case,
  take_transparent, scale_gray,
}
use srvfb.Png.Stages.{
  AllOpaque, Holds, Holds-bind, Holds-reject, Holds-if, Holds-weaken, read_data-Holds, Keeps,
}
use srvfb.Png.Stages.Parts.{checked-Holds, HasPalette}

-- Colors without an alpha take one each.
set_alpha-Holds :
    (alphas : Bytes) (cs : List Color)
    → AllOpaque cs
    → length alphas ≤ length cs
    → Holds (λ cs'. length cs' ≡ length cs) (set_alpha alphas cs)
unfolding set_alpha
set_alpha-Holds [] cs h l = refl
set_alpha-Holds (a ∷ alphas) [] h l = absurd (omega arith)
set_alpha-Holds (a ∷ alphas) (nrgba r g b a' ∷ cs) h l = elim h [ ]
set_alpha-Holds (a ∷ alphas) (rgba r g b a' ∷ cs) h l =
    Holds-bind (λ cs'. length cs' ≡ length cs) (λ cs'. length cs' ≡ suc (length cs))
      (set_alpha alphas cs) _ (set_alpha-Holds alphas cs h (omega arith)) (λ cs' e. ap suc e)

trns_use-indexed : (cb : Mode) → trns_use cb ≡ indexed → cb_paletted cb ≡ true
trns_use-indexed cb_invalid h = cc
trns_use-indexed cb_g1 h = cc
trns_use-indexed cb_g2 h = cc
trns_use-indexed cb_g4 h = cc
trns_use-indexed cb_g8 h = cc
trns_use-indexed cb_ga8 h = cc
trns_use-indexed cb_tc8 h = cc
trns_use-indexed cb_p1 h = refl
trns_use-indexed cb_p2 h = refl
trns_use-indexed cb_p4 h = refl
trns_use-indexed cb_p8 h = refl
trns_use-indexed cb_tca8 h = cc
trns_use-indexed cb_g16 h = cc
trns_use-indexed cb_ga16 h = cc
trns_use-indexed cb_tc16 h = cc
trns_use-indexed cb_tca16 h = cc

-- What a tRNS chunk leaves alone.
abbrev pub KeepsSize : Decoder → Decoder → Type 0
KeepsSize d d' = (d'.stage ≡ d.stage) × (d'.cb ≡ d.cb) × (length d'.palette ≡ length d.palette)

sized : (d d' d'' : Decoder) → Keeps d d' → KeepsSize d' d'' → KeepsSize d d''
sized d d' d'' (a, b, c) (a', b', c') = (a' ∙ a, b' ∙ b, c' ∙ ap length c)

module _ (crc : Bytes → ℕ) where
  take_alpha-Holds :
      (alphas : Bytes) (d : Decoder)
      → AllOpaque d.palette
      → length alphas ≤ length d.palette
      → Holds (KeepsSize d) (take_alpha crc alphas d)
  unfolding take_alpha
  take_alpha-Holds alphas d h l =
      let Q : Decoder → Type 0 = KeepsSize d in
      Holds-if Q (ltb (length d.palette) (length alphas)) _ _ (λ e. absurd (ground arith))
        (λ e.
          Holds-bind _ Q (set_alpha alphas d.palette) _ (set_alpha-Holds alphas d.palette h l)
            (λ cs e. checked-Holds crc Q _ (λ d' k. (k.0, k.1, ap length (k.2) ∙ e))))

  transparent-Holds :
      (f : Bytes → Bytes) (n : ℕ) (d : Decoder) → Holds (KeepsSize d) (take_transparent crc f n d)
  transparent-Holds f n d =
      let Q : Decoder → Type 0 = KeepsSize d in
      Holds-bind _ Q (read_data n d) _ (read_data-Holds n d) (λ r (a, k).
        checked-Holds crc Q _ (λ d' k'. sized d r.1 d' k (k'.0, k'.1, ap length (k'.2))))

  -- The cases of the switch.
  pub trns-Holds :
      (use_ : TrnsUse) (n : ℕ) (d : Decoder)
      → trns_use d.cb ≡ use_
      → HasPalette crc d
      → Holds (KeepsSize d) (trns_case crc use_ n d)
  unfolding trns_case
  trns-Holds gray n d e h =
      Holds-reject _ (not (n == 2)) _ _ tt (λ _. transparent-Holds (scale_gray d.cb) n d)
  trns-Holds rgb n d e h =
      Holds-reject _ (not (n == 6)) _ _ tt (λ _. transparent-Holds (λ b. b) n d)
  trns-Holds indexed n d e h =
      let Q : Decoder → Type 0 = KeepsSize d in
      let (opaque, big) = h (trns_use-indexed d.cb e) in
      Holds-reject Q (ltb 256 n) _ _ tt (λ l.
        Holds-bind _ Q (read_data n d) _ (read_data-Holds n d) (λ r (a, k).
          Holds-weaken _ Q _
            (take_alpha-Holds r.0 r.1 (rw (k.2) opaque) (rw (k.2, a) (ground arith)))
            (λ d' s. sized d r.1 d' k s)))
  trns-Holds mismatch n d e h = tt
