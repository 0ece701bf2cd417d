-- ===== src/Png/Stages.antt =====
-- internal/png/reader.go, (*decoder).parseChunk: the order of the chunks, and that no input makes it
-- panic.
pub mod Parts
pub mod Palette
pub mod Order
use srvfb.Base.{
  ℕ, zero, suc, ◌+◌, ◌-◌, ◌*◌, ◌/◌, ◌%◌, ◌^◌, ◌≤◌, ◌<◌, min, bit_and, bit_or, bit_xor, ◌≡◌, refl,
  sym, ap, ap₂, ◌∙◌, ◌≡⟨◌⟩◌, ◌∎, ◌≢◌, ◌↔◌, ◌⊎◌, inl, inr, Bool, true, false, not, ◌&&◌, ◌||◌,
  Option, none, some, List, [], ◌∷◌, ◌++◌, map, append-nil, append_assoc, arith, ltb, leb, ◌==◌,
  if◌then◌else◌, ltb→lt, lt→ltb, leb→le, le→leb, ==_iff, tests, Bool-cases, Option-cases, length,
  get_elem?, set, length-append, length-set, get_elem?-set_self, get_elem?-set_ne, get_or, take,
  drop, replicate, take-append-drop, length-take, length-drop, length-replicate, length-map,
}
use srvfb.Base.Bytes.{Bytes, copy}
use srvfb.Base.Outcome.{Outcome, ok, err, panic, reject_if, ◌>>=◌, ◌>>◌}
use srvfb.Png.Format.{
  Mode, cb_paletted, Stage, ds_start, ds_seen_ihdr, ds_seen_plte, ds_seen_trns, ds_seen_idat,
  ds_seen_iend, rank, big_endian, format_error, unsupported_error, endless, Error, Kind, ihdr, plte,
  trns, idat, iend, unknown, read_full,
}
use srvfb.Png.Decoder.{
  Color, rgba, nrgba, Decoder, read_data, verify_checksum, parse_iend, ignore_chunk,
}
use srvfb.Png.Decoder.Chunk.{parse_idat, take_chunk, parse_chunk}
use srvfb.Png.Decoder.Header.{take_ihdr, parse_ihdr, mode_of, not_positive, overflows, is_invalid}
use srvfb.Png.Decoder.Palette.{
  set_alpha, entries, ignores_plte, take_plte, parse_plte, take_alpha, parse_trns,
}

-- All colors are without an alpha of their own.
abbrev pub AllOpaque : List Color → Type 0
AllOpaque [] = Unit {0}
AllOpaque (rgba r g b a ∷ cs) = AllOpaque cs
AllOpaque (nrgba r g b a ∷ cs) = ⊥

-- The array behind the palette of a paletted picture has 256 colors.
abbrev pub HasArray : Decoder → Type 0
HasArray d = cb_paletted d.cb ≡ true → 256 ≤ length d.palette

-- What the assertion on a color's type and the growth of the palette rely on: after PLTE, a paletted
-- picture has an array of 256 colors, and before tRNS none of them has an alpha.
abbrev pub IsReady : Decoder → Type 0
IsReady d =
    (2 ≤ rank d.stage → HasArray d)
    × (d.stage ≡ ds_seen_plte → cb_paletted d.cb ≡ true → AllOpaque d.palette)

-- An error of the program, and not the one of a loop without an end.
abbrev pub IsReal : Error → Type 0
IsReal endless = ⊥
IsReal e = Unit {0}

-- No panic, every loop comes to its end, and what holds of the decoder if there is no error.
abbrev pub Holds {ℓ} : {A : Type ℓ} → (A → Type 0) → Outcome Error A → Type 0
Holds P (ok a) = P a
Holds P (err e) = IsReal e
Holds P panic = ⊥

pub Holds-bind {ℓ κ} :
    {A : Type ℓ} {B : Type κ} (P : A → Type 0) (Q : B → Type 0) (m : Outcome Error A)
    (k : A → Outcome Error B)
    → Holds P m
    → ((a : A) → P a → Holds Q (k a))
    → Holds Q (m >>= k)
Holds-bind P Q (ok a) k h f = f a h
Holds-bind P Q (err e) k h f = h
Holds-bind P Q panic k h f = h

pub Holds-reject {ℓ} :
    {A : Type ℓ} (Q : A → Type 0) (bad : Bool) (e : Error) (m : Outcome Error A)
    → IsReal e
    → (bad ≡ false → Holds Q m)
    → Holds Q (reject_if bad e >> m)
Holds-reject Q true e m r f = r
Holds-reject Q false e m r f = f refl

-- Six checks in turn.
pub checks {ℓ} :
    {A : Type ℓ} (Q : A → Type 0) (b1 b2 b3 b4 b5 b6 : Bool) (e1 e2 e3 e4 e5 e6 : Error)
    (m : Outcome Error A)
    → IsReal e1 × IsReal e2 × IsReal e3 × IsReal e4 × IsReal e5 × IsReal e6
    → Holds Q m
    → Holds Q (
        reject_if b1 e1
        >> reject_if b2 e2
        >> reject_if b3 e3
        >> reject_if b4 e4
        >> reject_if b5 e5
        >> reject_if b6 e6
        >> m)
checks Q true b2 b3 b4 b5 b6 e1 e2 e3 e4 e5 e6 m r h = r.0
checks Q false true b3 b4 b5 b6 e1 e2 e3 e4 e5 e6 m r h = r.1
checks Q false false true b4 b5 b6 e1 e2 e3 e4 e5 e6 m r h = r.2
checks Q false false false true b5 b6 e1 e2 e3 e4 e5 e6 m r h = r.3
checks Q false false false false true b6 e1 e2 e3 e4 e5 e6 m r h = r.4
checks Q false false false false false true e1 e2 e3 e4 e5 e6 m r h = r.5
checks Q false false false false false false e1 e2 e3 e4 e5 e6 m r h = h

pub Holds-if {ℓ} :
    {A : Type ℓ} (Q : A → Type 0) (b : Bool) (m k : Outcome Error A)
    → (b ≡ true → Holds Q m)
    → (b ≡ false → Holds Q k)
    → Holds Q (if b then m else k)
Holds-if Q true m k f g = f refl
Holds-if Q false m k f g = g refl

pub Holds-weaken {ℓ} :
    {A : Type ℓ} (P Q : A → Type 0) (m : Outcome Error A)
    → Holds P m
    → ((a : A) → P a → Q a)
    → Holds Q m
Holds-weaken P Q (ok a) h f = f a h
Holds-weaken P Q (err e) h f = h
Holds-weaken P Q panic h f = h

-- A read takes the bytes that it is asked for.
pub read_full-Holds : (n : ℕ) (input : Bytes) → Holds (λ r. length r.0 ≡ n) (read_full n input)
unfolding read_full
read_full-Holds n input = elim (Bool-cases (leb n (length input))) [
  | inl e ↦ rw e (omega (arith, length-take n input, leb→le _ _ e))
  | inr e ↦ rw e (elim (Bool-cases (length input == 0)) [ inl z ↦ rw z tt | inr z ↦ rw z tt ])
]

-- The fields that a part of the parser leaves alone.
abbrev pub Keeps : Decoder → Decoder → Type 0
Keeps d d' = (d'.stage ≡ d.stage) × (d'.cb ≡ d.cb) × (d'.palette ≡ d.palette)

pub read_data-Holds :
    (n : ℕ) (d : Decoder) → Holds (λ r. (length r.0 ≡ n) × Keeps d r.1) (read_data n d)
unfolding read_data
read_data-Holds n d =
    Holds-bind (λ r. length r.0 ≡ n) _ (read_full n d.input) _ (read_full-Holds n d.input)
      (λ r h. (h, (refl, refl, refl)))

pub kept : (d d' d'' : Decoder) → Keeps d d' → Keeps d' d'' → Keeps d d''
kept d d' d'' (a, b, c) (a', b', c') = (a' ∙ a, b' ∙ b, c' ∙ c)
