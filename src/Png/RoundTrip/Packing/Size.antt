-- ===== src/Png/RoundTrip/Packing/Size.antt =====
-- internal/png, writeImage and readImagePass: the bytes of a packed row.
use srvfb.Base.{
  ℕ, suc, ◌+◌, ◌-◌, ◌/◌, ◌^◌, ◌≤◌, ◌<◌, ◌≡◌, refl, sym, ap, ◌∙◌, inl, inr, false, [], ◌∷◌, ◌++◌,
  arith, ◌==◌, ==_iff, Bool-cases, length, length-append,
}
use srvfb.Png.Filter.RoundTrip.{AllBytes}
use srvfb.Base.Bytes.{Bytes}
use srvfb.Png.Raster.{unpack}
use srvfb.Png.Picture.{pack}
use srvfb.Png.RoundTrip.Packing.{
  IsPacking, AllBelow, value, power, value-lt, value-snoc, power-pos, mul_mono, AllBelow-snoc,
  room_for, value-room, pad_bits-power, unpack-pack_from,
}

module _ (bits n B T : ℕ) (k : IsPacking bits n B T) where
  -- What is packed takes as many bytes as it needs.
  length-pack_from :
      (vs us : Bytes)
      → AllBelow B us
      → AllBelow B vs
      → length us < n
      → (length (pack bits n vs (value B us) (length us)) ≡ (length us + length vs + (n - 1)) / n)
        × AllBytes (pack bits n vs (value B us) (length us))
  unfolding pack
  length-pack_from [] [] h hv l =
      let none : 0 + 0 + (n - 1) ≡ 0 + (n - 1) = omega arith in (rw none (sym k.no_bytes), tt)
  length-pack_from [] (u ∷ us) h hv l =
      let none : suc (length us) + 0 ≡ suc (length us) = omega arith in
      let some : (suc (length us) == 0) ≡ false = ground arith in
      let q = power B (n - suc (length us)) in
      let whole = room_for bits n B T k (suc (length us)) (omega arith) in
      let v : value B (u ∷ us) + 1 ≤ power B (suc (length us)) =
        omega (arith, value-lt B (u ∷ us) h) in
      let a = value B (u ∷ us) in
      let p = power-pos B (n - suc (length us)) k.pixels in
      let fits = mul_mono (a + 1) (power B (suc (length us))) q v in
      let byte = k.byte in
      rw
        (
          some,
          none,
          k.one_byte (suc (length us)) (omega arith) l,
          pad_bits-power bits n B T k (n - suc (length us)) a (grind arith),
        )
        (refl, (grind arith, tt))
  length-pack_from (v ∷ vs) us h (lv, hv) l =
      let size : length (us ++ (v ∷ [])) ≡ length us + 1 =
        omega (arith, length-append us (v ∷ [])) in
      let next =
        k.or_add (value B us) v lv (value-room bits n B T k us h l) ∙ sym (value-snoc B us v) in
      let both = AllBelow-snoc B us v h lv in
      elim (Bool-cases (length us + 1 == n)) [
        | inl e ↦
            let last : length us + 1 ≡ n = (==_iff (length us + 1) n).0 e in
            let (count, bytes) = length-pack_from vs [] tt hv (omega arith) in
            let len : length us + length (v ∷ vs) + (n - 1) ≡ n + (0 + length vs) + (n - 1) =
              omega arith in
            let below = value-lt B (us ++ (v ∷ [])) both in
            let whole : power B (length (us ++ (v ∷ []))) ≡ 2 ^ 8 =
              rw (size, last) (k.full ∙ k.byte) in
            rw (e, next, len, k.next_byte (0 + length vs)) (ap suc count, (omega arith, bytes))
        | inr e ↦
            let more : length us + 1 < n = ground arith in
            let len : length us + length (v ∷ vs) ≡ length (us ++ (v ∷ [])) + length vs =
              omega (arith, size) in
            rw (e, next, ← size, len)
              (length-pack_from vs (us ++ (v ∷ [])) both hv (omega (arith, size)))
      ]

  -- A row of pixels, packed and taken out again.
  pub unpack-pack :
      (vs : Bytes)
      → AllBelow B vs
      → (unpack bits n (length vs) (pack bits n vs 0 0) ≡ vs)
        × (length (pack bits n vs 0 0) ≡ (length vs + (n - 1)) / n)
        × AllBytes (pack bits n vs 0 0)
  unpack-pack vs h =
      let some = k.several in
      let zero_add : 0 + length vs ≡ length vs = omega arith in
      let (size, bytes) = length-pack_from vs [] tt h some in
      (rw zero_add at (unpack-pack_from bits n B T k vs [] tt h some), rw zero_add at size, bytes)
