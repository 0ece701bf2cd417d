-- ===== src/Png/Raster/Covered.antt =====
-- internal/png/reader.go, readImagePass: the palette after a row of indices.
use srvfb.Base.{
  ℕ, ◌+◌, ◌≤◌, ◌<◌, ◌≡◌, refl, ◌⊎◌, inl, inr, true, false, [], ◌∷◌, arith, ltb, leb, ◌==◌, leb→le,
  ==_iff, Bool-cases,
}
use srvfb.Base.Bytes.{Bytes}
use srvfb.Base.Outcome.{ok}
use srvfb.Png.Format.{
  Mode, cb_invalid, cb_g1, cb_g2, cb_g4, cb_g8, cb_ga8, cb_tc8, cb_p1, cb_p2, cb_p4, cb_p8, cb_tca8,
  cb_g16, cb_ga16, cb_tc16, cb_tca16, cb_paletted,
}
use srvfb.Png.Filter.RoundTrip.{AllBytes}
use srvfb.Png.RoundTrip.Packing.{AllBelow}
use srvfb.Png.Raster.{cover, palette_after}

cover-AllBelow :
    (room len : ℕ) (is : Bytes)
    → 256 ≤ room
    → AllBytes is
    → (len' : ℕ) × (cover room len is ≡ ok len') × (len ≤ len') × AllBelow len' is
unfolding cover
cover-AllBelow room len [] h b = (len, refl, omega arith, tt)
cover-AllBelow room len (i ∷ is) h (b, bs) = elim (Bool-cases (leb len i)) [
  | inl e ↦
      let small : ltb room (i + 1) ≡ false = ground (arith, h, b) in
      let (len', eq, le, all) = cover-AllBelow room (i + 1) is h bs in
      let more : len ≤ i = leb→le len i e in
      (len', rw (e, small) eq, omega (arith, le, more), (omega (arith, le), all))
  | inr e ↦
      let (len', eq, le, all) = cover-AllBelow room len is h bs in
      let below : i < len = ground arith in (len', rw e eq, le, (omega (arith, le, below), all))
]

-- The outcome of a row: the palette is not made shorter and has every index, or the row is one of
-- the mode cb_p8 with a palette of 255 colors, and it still has 255.
abbrev pub IsCovered : Mode → ℕ → Bytes → ℕ → Type 0
IsCovered cb len is len' =
    (len ≤ len') × (AllBelow len' is ⊎ ((cb ≡ cb_p8) × (len ≡ 255) × (len' ≡ 255)))

covered :
    (cb : Mode) (room len : ℕ) (is : Bytes)
    → 256 ≤ room
    → AllBytes is
    → (len' : ℕ) × (cover room len is ≡ ok len') × IsCovered cb len is len'
covered cb room len is h b =
    let (len', e, le, all) = cover-AllBelow room len is h b in (len', e, (le, inl all))

-- After a row of indices that are bytes, in a mode with a palette of whose array 256 colors can be
-- taken: the palette is not made shorter, and it has every index of the row, or else the mode is
-- cb_p8 and the palette had 255 colors, which is still so whatever the indices are.
pub palette_after-AllBelow :
    (cb : Mode) (room len : ℕ) (is : Bytes)
    → cb_paletted cb ≡ true
    → 256 ≤ room
    → AllBytes is
    → (len' : ℕ) × (palette_after cb room len is ≡ ok len') × IsCovered cb len is len'
unfolding palette_after
palette_after-AllBelow cb_p1 room len is c h b = covered cb_p1 room len is h b
palette_after-AllBelow cb_p2 room len is c h b = covered cb_p2 room len is h b
palette_after-AllBelow cb_p4 room len is c h b = covered cb_p4 room len is h b
palette_after-AllBelow cb_p8 room len is c h b = elim (Bool-cases (len == 255)) [
  | inl e ↦
      let full : len ≡ 255 = (==_iff len 255).0 e in
      (len, rw e refl, (omega arith, inr (refl, full, full)))
  | inr e ↦ rw e (covered cb_p8 room len is h b)
]
palette_after-AllBelow cb_invalid room len is c h b = absurd (cc c)
palette_after-AllBelow cb_g1 room len is c h b = absurd (cc c)
palette_after-AllBelow cb_g2 room len is c h b = absurd (cc c)
palette_after-AllBelow cb_g4 room len is c h b = absurd (cc c)
palette_after-AllBelow cb_g8 room len is c h b = absurd (cc c)
palette_after-AllBelow cb_ga8 room len is c h b = absurd (cc c)
palette_after-AllBelow cb_tc8 room len is c h b = absurd (cc c)
palette_after-AllBelow cb_tca8 room len is c h b = absurd (cc c)
palette_after-AllBelow cb_g16 room len is c h b = absurd (cc c)
palette_after-AllBelow cb_ga16 room len is c h b = absurd (cc c)
palette_after-AllBelow cb_tc16 room len is c h b = absurd (cc c)
palette_after-AllBelow cb_tca16 room len is c h b = absurd (cc c)
