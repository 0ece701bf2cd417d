-- ===== src/Png/FilterPaeth.antt =====
-- internal/png/paeth.go, filterPaeth: a pass over the row for each byte of a pixel, in steps of a
-- pixel.
pub mod Values
pub mod Passes
mod Tests
use srvfb.Base.{
  ℕ, zero, suc, ◌+◌, ◌-◌, ◌*◌, ◌/◌, ◌%◌, ◌^◌, ◌≤◌, ◌<◌, min, bit_and, bit_or, bit_xor, ◌≡◌, refl,
  sym, ap, ap₂, ◌∙◌, ◌≡⟨◌⟩◌, ◌∎, ◌≢◌, ◌↔◌, ◌⊎◌, inl, inr, Bool, true, false, not, ◌&&◌, ◌||◌,
  Option, none, some, List, [], ◌∷◌, ◌++◌, map, append-nil, append_assoc, arith, ltb, leb, ◌==◌,
  if◌then◌else◌, ltb→lt, lt→ltb, leb→le, le→leb, ==_iff, tests, Bool-cases, Option-cases, length,
  get_elem?, set, length-append, length-set, get_elem?-set_self, get_elem?-set_ne, get_or, take,
  drop, replicate, take-append-drop, length-take, length-drop, length-replicate, length-map,
}
use srvfb.Base.Bytes.{Bytes}
use srvfb.Png.Word.{add64, sub64, le64, abs}

-- The body of the inner loop: the new `a`, for the byte x of cdat.
unfoldable pub step : ℕ → ℕ → ℕ → ℕ → ℕ
step a b c x =
    let pa = sub64 b c in
    let pb = sub64 a c in
    let pc = abs (add64 pa pb) in
    let pa' = abs pa in
    let pb' = abs pb in
    let a' = if le64 pa' pb' && le64 pa' pc then a else if le64 pb' pc then b else c in
    (a' + x) % 2 ^ 8

-- `for j := i; j < len(cdat); j += bytesPerPixel`, for at most so many rounds, at j. A byte of pdat
-- beyond its end, which would be a panic, is 0 here: both rows are of one size.
unfoldable pub pass : ℕ → ℕ → Bytes → ℕ → ℕ → ℕ → Bytes → Bytes
pass bpp zero pdat j a c cdat = cdat
pass bpp (suc n) pdat j a c cdat = elim (ltb j (length cdat)) [
  | true ↦
      let b = get_or pdat j 0 in
      let a' = step a b c (get_or cdat j 0) in pass bpp n pdat (j + bpp) a' b (set cdat j a')
  | false ↦ cdat
]

-- `for i := 0; i < bytesPerPixel; i++`, with n passes to go. A pass takes no more rounds than the
-- row has bytes.
unfoldable pub passes : ℕ → ℕ → Bytes → ℕ → Bytes → Bytes
passes bpp zero pdat i cdat = cdat
passes bpp (suc n) pdat i cdat = passes bpp n pdat (i + 1) (pass bpp (length cdat) pdat i 0 0 cdat)

unfoldable pub filter_paeth : Bytes → Bytes → ℕ → Bytes
filter_paeth cdat pdat bpp = passes bpp bpp pdat 0 cdat
