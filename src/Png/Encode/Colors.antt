-- ===== src/Png/Encode/Colors.antt =====
-- internal/png: the colors of a palette, as writePLTEAndTRNS writes and the decoder reads them.
use srvfb.Base.{
  ℕ, suc, ◌*◌, ◌≤◌, ◌≡◌, refl, ap, inl, inr, List, [], ◌∷◌, ◌++◌, map, arith, ◌==◌, ==_iff,
  Bool-cases, length,
}
use srvfb.Base.Bytes.{Bytes}
use srvfb.Base.Outcome.{ok}
use srvfb.Png.Decoder.{Color, rgba, nrgba}
use srvfb.Png.Decoder.Palette.{entries, set_alpha}
use srvfb.Png.Encode.{plte_data, trns_data, keep_alpha}

abbrev pub Quad : Type 0
Quad = ℕ × ℕ × ℕ × ℕ

-- The color as NRGBA; those without an alpha of their own are opaque.
abbrev pub quad : Color → Quad
quad (rgba r g b a) = (r, g, b, a)
quad (nrgba r g b a) = (r, g, b, a)

-- The colors as parsePLTE makes them.
abbrev pub plain : List Quad → List Color
plain [] = []
plain ((r, g, b, a) ∷ p) = rgba r g b 0xff ∷ plain p

pub entries-plte_data : (p : List Quad) → entries (plte_data p) ≡ plain p
unfolding plte_data
entries-plte_data [] = refl
entries-plte_data ((r, g, b, a) ∷ p) = ap (◌∷◌ (rgba r g b 0xff)) (entries-plte_data p)

pub length-plte_data : (p : List Quad) → length (plte_data p) ≡ 3 * length p
unfolding plte_data
length-plte_data [] = refl
length-plte_data ((r, g, b, a) ∷ p) = omega (arith, length-plte_data p)

pub length-plain : (p : List Quad) → length (plain p) ≡ length p
length-plain [] = refl
length-plain ((r, g, b, a) ∷ p) = omega (arith, length-plain p)

pub length-trns_data : (p : List Quad) → length (trns_data p) ≤ length p
unfolding trns_data
length-trns_data [] = omega arith
length-trns_data ((r, g, b, a) ∷ p) = by (trns_data p) (length-trns_data p)
  where
    by : (t : Bytes) → length t ≤ length p → length (keep_alpha a t) ≤ suc (length p)
    by [] h = elim (Bool-cases (a == 0xff)) [
      | inl e ↦ rw e (omega arith)
      | inr e ↦ rw e (omega arith)
    ]
    by (x ∷ xs) h = omega arith

-- Without a tRNS chunk all colors are opaque.
pub plain-quads : (p : List Quad) → trns_data p ≡ [] → map quad (plain p) ≡ p
unfolding trns_data
plain-quads [] h = refl
plain-quads ((r, g, b, a) ∷ p) h = by (trns_data p) h (plain-quads p)
  where
    by :
        (t : Bytes)
        → keep_alpha a t ≡ []
        → (t ≡ [] → map quad (plain p) ≡ p)
        → (r, g, b, 0xff) ∷ map quad (plain p) ≡ (r, g, b, a) ∷ p
    by [] e f = elim (Bool-cases (a == 0xff)) [
      | inl i ↦ let full : a ≡ 0xff = (==_iff a 0xff).0 i in rw (f refl, full) refl
      | inr i ↦ absurd (cc (rw i at e))
    ]
    by (x ∷ xs) e f = absurd (cc e)

-- What parsetRNS makes of the colors.
pub set_alpha-trns_data :
    (p : List Quad) (more : List Color)
    → (cs : List Color) × (set_alpha (trns_data p) (plain p ++ more) ≡ ok (cs ++ more))
      × (map quad cs ≡ p)
      × (length cs ≡ length p)
unfolding set_alpha trns_data
set_alpha-trns_data [] more = ([], refl, refl, refl)
set_alpha-trns_data ((r, g, b, a) ∷ p) more = by (trns_data p) refl (set_alpha-trns_data p more)
  where
    by :
        (t : Bytes)
        → trns_data p ≡ t
        → (cs : List Color) × (set_alpha (trns_data p) (plain p ++ more) ≡ ok (cs ++ more))
          × (map quad cs ≡ p)
          × (length cs ≡ length p)
        → (cs : List Color) × (set_alpha (keep_alpha a t) (rgba r g b 0xff ∷ (plain p ++ more))
            ≡ ok (cs ++ more))
          × (map quad cs ≡ (r, g, b, a) ∷ p)
          × (length cs ≡ suc (length p))
    by [] e ih =
        let quads = plain-quads p e in
        let size : suc (length (plain p)) ≡ suc (length p) = ap suc (length-plain p) in
        elim (Bool-cases (a == 0xff)) [
          | inl i ↦
              let full : a ≡ 0xff = (==_iff a 0xff).0 i in
              rw i (rgba r g b 0xff ∷ plain p, refl, rw (quads, full) refl, size)
          | inr i ↦ rw i (nrgba r g b a ∷ plain p, refl, rw quads refl, size)
        ]
    by (x ∷ xs) e (cs, f, quads, size) =
        let f' : set_alpha (x ∷ xs) (plain p ++ more) ≡ ok (cs ++ more) = rw e at f in
        (nrgba r g b a ∷ cs, rw f' refl, rw quads refl, ap suc size)
