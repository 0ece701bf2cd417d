-- ===== src/Png/Files/Shrinks.antt =====
-- internal/png/reader.go, parseChunk: no part of the parser puts bytes back, and each chunk takes at
-- least the eight bytes of its header.
use srvfb.Base.{
  ℕ, ◌+◌, ◌*◌, ◌/◌, ◌%◌, ◌^◌, ◌≤◌, ◌<◌, ◌≡◌, refl, inl, inr, Bool, true, false, not, ◌&&◌, ◌||◌,
  Option, List, arith, ltb, leb, ◌==◌, if◌then◌else◌, leb→le, Bool-cases, length, drop, length-drop,
}
use srvfb.Base.Bytes.{Bytes}
use srvfb.Base.Outcome.{Outcome, ok, err, panic, reject_if, ◌>>=◌, ◌>>◌}
use srvfb.Png.Canvas.{Canvas}
use srvfb.Png.Format.{
  cb_paletted, rank, big_endian, Error, Kind, ihdr, plte, trns, idat, iend, unknown, kind_of,
  read_full,
}
use srvfb.Png.Decoder.{Color, Decoder, read_data, verify_checksum, parse_iend, ignore_chunk}
use srvfb.Png.Decoder.Header.{take_ihdr, parse_ihdr}
use srvfb.Png.Decoder.Palette.{
  TrnsUse, gray, rgb, indexed, mismatch, trns_use, trns_case, set_alpha, ignores_plte, take_plte,
  parse_plte, take_alpha, parse_trns,
}
use srvfb.Png.Decoder.Chunk.{parse_idat, take_chunk, parse_chunk}

-- What holds of a result, if there is one.
abbrev pub OnOk {ℓ} : {A : Type ℓ} → (A → Type 0) → Outcome Error A → Type 0
OnOk P (ok a) = P a
OnOk P (err e) = Unit {0}
OnOk P panic = Unit {0}

pub OnOk-bind {ℓ κ} :
    {A : Type ℓ} {B : Type κ} (P : A → Type 0) (Q : B → Type 0) (m : Outcome Error A)
    (k : A → Outcome Error B)
    → OnOk P m
    → ((a : A) → P a → OnOk Q (k a))
    → OnOk Q (m >>= k)
OnOk-bind P Q (ok a) k h f = f a h
OnOk-bind P Q (err e) k h f = tt
OnOk-bind P Q panic k h f = tt

pub OnOk-reject {ℓ} :
    {A : Type ℓ} (Q : A → Type 0) (bad : Bool) (e : Error) (m : Outcome Error A)
    → OnOk Q m
    → OnOk Q (reject_if bad e >> m)
OnOk-reject Q true e m h = tt
OnOk-reject Q false e m h = h

pub OnOk-if {ℓ} :
    {A : Type ℓ} (Q : A → Type 0) (b : Bool) (m k : Outcome Error A)
    → OnOk Q m
    → OnOk Q k
    → OnOk Q (if b then m else k)
OnOk-if Q true m k f g = f
OnOk-if Q false m k f g = g

pub OnOk-weaken {ℓ} :
    {A : Type ℓ} {P Q : A → Type 0} (m : Outcome Error A)
    → OnOk P m
    → ((a : A) → P a → Q a)
    → OnOk Q m
OnOk-weaken (ok a) h f = f a h
OnOk-weaken (err e) h f = tt
OnOk-weaken panic h f = tt

-- Two continuations that agree on the results there are.
pub bind-agree {ℓ κ} :
    {A : Type ℓ} {B : Type κ} (P : A → Type 0) (m : Outcome Error A) (k k' : A → Outcome Error B)
    → OnOk P m
    → ((a : A) → P a → k a ≡ k' a)
    → (m >>= k) ≡ (m >>= k')
bind-agree P (ok a) k k' h f = f a h
bind-agree P (err e) k k' h f = refl
bind-agree P panic k k' h f = refl

abbrev pub Within : ℕ → Decoder → Type 0
Within n d = length d.input ≤ n

pub read_full-Within :
    (n : ℕ) (input : Bytes) → OnOk (λ r. length r.1 + n ≡ length input) (read_full n input)
unfolding read_full
read_full-Within n input = elim (Bool-cases (leb n (length input))) [
  | inl e ↦ rw e (omega (arith, length-drop n input, leb→le _ _ e))
  | inr e ↦ rw e (elim (Bool-cases (length input == 0)) [ inl z ↦ rw z tt | inr z ↦ rw z tt ])
]

read_data-Within : (n : ℕ) (d : Decoder) → OnOk (λ r. Within (length d.input) r.1) (read_data n d)
unfolding read_data
read_data-Within n d =
    OnOk-bind _ _ (read_full n d.input) _ (read_full-Within n d.input) (λ r h. omega arith)

module _ (crc : Bytes → ℕ) (bound : ℕ) where
  pub verify-Within : (d : Decoder) → Within bound d → OnOk (Within bound) (verify_checksum crc d)
  unfolding verify_checksum
  verify-Within d w = OnOk-bind _ _ (read_full 4 d.input) _ (read_full-Within 4 d.input) (λ r h.
      let w' : length r.1 ≤ bound = omega arith in
      OnOk-if _ (big_endian r.0 == crc d.checked) _ _ w' tt)

  -- The data of a chunk is read, and what follows goes on from there.
  data-Within :
      (n : ℕ) (d : Decoder) (k : Bytes × Decoder → Outcome Error Decoder)
      → Within bound d
      → ((bs : Bytes) (d' : Decoder) → Within bound d' → OnOk (Within bound) (k (bs, d')))
      → OnOk (Within bound) (read_data n d >>= k)
  data-Within n d k w f =
      OnOk-bind _ _ (read_data n d) k (read_data-Within n d) (λ r h. f r.0 r.1 (omega arith))

  iend-Within : (n : ℕ) (d : Decoder) → Within bound d → OnOk (Within bound) (parse_iend crc n d)
  unfolding parse_iend
  iend-Within n d w = OnOk-reject _ (not (n == 0)) _ _ (verify-Within d w)

  ignore-Within :
      (n : ℕ) (d : Decoder) → Within bound d → OnOk (Within bound) (ignore_chunk crc n d)
  unfolding ignore_chunk
  ignore-Within n d w =
      OnOk-reject _ (ltb 0x7fffffff n) _ _ (data-Within n d _ w (λ bs d' w'. verify-Within d' w'))

  take_ihdr-Within :
      (tmp : Bytes) (d : Decoder) → Within bound d → OnOk (Within bound) (take_ihdr crc tmp d)
  unfolding take_ihdr
  take_ihdr-Within tmp d w = checks-Within _ _ _ _ _ _ _ _ _ _ _ _ _ (verify-Within _ w)
    where
      checks-Within :
          (b1 b2 b3 b4 b5 b6 : Bool) (e1 e2 e3 e4 e5 e6 : Error) (m : Outcome Error Decoder)
          → OnOk (Within bound) m
          → OnOk (Within bound) (
              reject_if b1 e1
              >> reject_if b2 e2
              >> reject_if b3 e3
              >> reject_if b4 e4
              >> reject_if b5 e5
              >> reject_if b6 e6
              >> m)
      checks-Within true b2 b3 b4 b5 b6 e1 e2 e3 e4 e5 e6 m h = tt
      checks-Within false true b3 b4 b5 b6 e1 e2 e3 e4 e5 e6 m h = tt
      checks-Within false false true b4 b5 b6 e1 e2 e3 e4 e5 e6 m h = tt
      checks-Within false false false true b5 b6 e1 e2 e3 e4 e5 e6 m h = tt
      checks-Within false false false false true b6 e1 e2 e3 e4 e5 e6 m h = tt
      checks-Within false false false false false b6 e1 e2 e3 e4 e5 e6 m h = OnOk-reject _ b6 e6 m h

  ihdr-Within : (n : ℕ) (d : Decoder) → Within bound d → OnOk (Within bound) (parse_ihdr crc n d)
  unfolding parse_ihdr
  ihdr-Within n d w =
      OnOk-reject _ (not (n == 13)) _ _
        (data-Within 13 d _ w (λ bs d' w'. take_ihdr-Within bs d' w'))

  take_plte-Within :
      (np : ℕ) (tmp : Bytes) (d : Decoder)
      → Within bound d
      → OnOk (Within bound) (take_plte crc np tmp d)
  unfolding take_plte
  take_plte-Within np tmp d w =
      OnOk-if _ (cb_paletted d.cb) _ _ (verify-Within _ w)
        (OnOk-if _ (ignores_plte d.cb) _ _ (verify-Within d w) tt)

  plte-Within : (n : ℕ) (d : Decoder) → Within bound d → OnOk (Within bound) (parse_plte crc n d)
  unfolding parse_plte
  plte-Within n d w =
      OnOk-reject _
        (not (n % 3 == 0) || (n / 3) == 0 || ltb 256 (n / 3) || ltb (2 ^ d.depth) (n / 3)) _ _
        (data-Within (3 * (n / 3)) d _ w (λ bs d' w'. take_plte-Within (n / 3) bs d' w'))

  take_alpha-Within :
      (alpha : Bytes) (d : Decoder) → Within bound d → OnOk (Within bound) (take_alpha crc alpha d)
  unfolding take_alpha
  take_alpha-Within alpha d w = OnOk-if _ (ltb (length d.palette) (length alpha)) _ _ tt (
      OnOk-bind (λ _. Unit {0}) _ (set_alpha alpha d.palette) _ (any _) (λ cs _. verify-Within _ w))
    where
      any : (m : Outcome Error (List Color)) → OnOk (λ _. Unit {0}) m
      any (ok a) = tt
      any (err e) = tt
      any panic = tt

  case-Within :
      (u : TrnsUse) (n : ℕ) (d : Decoder)
      → Within bound d
      → OnOk (Within bound) (trns_case crc u n d)
  unfolding trns_case
  case-Within gray n d w =
      OnOk-reject _ (not (n == 2)) _ _ (data-Within n d _ w (λ bs d' w'. verify-Within _ w'))
  case-Within rgb n d w =
      OnOk-reject _ (not (n == 6)) _ _ (data-Within n d _ w (λ bs d' w'. verify-Within _ w'))
  case-Within indexed n d w =
      OnOk-reject _ (ltb 256 n) _ _ (data-Within n d _ w (λ bs d' w'. take_alpha-Within bs d' w'))
  case-Within mismatch n d w = tt

  module _ (decode : Decoder → Outcome Error (Option Canvas × Bytes × Bytes))
      (taken : (d : Decoder) → OnOk (λ r. length r.1 ≤ length d.input) (decode d)) where
    idat-Within :
        (n : ℕ) (d : Decoder) → Within bound d → OnOk (Within bound) (parse_idat crc decode n d)
    unfolding parse_idat
    idat-Within n d w =
        OnOk-bind _ _ (decode (record d { idat_length = n })) _
          (taken (record d { idat_length = n })) (λ r h. verify-Within _ (omega arith))

    pub chunk-Within :
        (k : Kind) (n : ℕ) (d : Decoder)
        → Within bound d
        → OnOk (Within bound) (take_chunk crc decode k n d)
    unfolding take_chunk parse_trns
    chunk-Within ihdr n d w = OnOk-reject _ (not (rank d.stage == 0)) _ _ (ihdr-Within n _ w)
    chunk-Within plte n d w = OnOk-reject _ (not (rank d.stage == 1)) _ _ (plte-Within n _ w)
    chunk-Within trns n d w =
        OnOk-reject _ (not (rank d.stage == (if cb_paletted d.cb then 2 else 1))) _ _
          (case-Within (trns_use d.cb) n _ w)
    chunk-Within idat n d w =
        OnOk-reject _
          (ltb (rank d.stage) 1 || ltb 4 (rank d.stage) || (rank d.stage == 1 && cb_paletted d.cb))
          _ _ (OnOk-if _ (rank d.stage == 4) _ _ (ignore-Within n d w) (idat-Within n _ w))
    chunk-Within iend n d w = OnOk-reject _ (not (rank d.stage == 4)) _ _ (iend-Within n _ w)
    chunk-Within unknown n d w = ignore-Within n d w

module _ (crc : Bytes → ℕ) (decode : Decoder → Outcome Error (Option Canvas × Bytes × Bytes))
    (taken : (d : Decoder) → OnOk (λ r. length r.1 ≤ length d.input) (decode d)) where
  pub parse_chunk-shrinks :
      (d : Decoder) → OnOk (λ d'. length d'.input < length d.input) (parse_chunk crc decode d)
  unfolding parse_chunk
  parse_chunk-shrinks d = OnOk-bind _ _ (read_full 8 d.input) _ (read_full-Within 8 d.input) (λ r h.
      OnOk-weaken
        (take_chunk crc decode (kind_of (drop 4 r.0)) (big_endian r.0)
          (record d { input = r.1; checked = drop 4 r.0 }))
        (chunk-Within crc (length r.1) decode taken (kind_of (drop 4 r.0)) (big_endian r.0)
          (record d { input = r.1; checked = drop 4 r.0 }) (omega arith))
        (λ d' w. omega arith))
