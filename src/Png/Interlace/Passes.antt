-- ===== src/Png/Interlace/Passes.antt =====
-- internal/png/reader.go, interlacing: the passes of an image have each of its pixels once.
use srvfb.Base.{
  ℕ, zero, suc, ◌+◌, ◌*◌, ◌/◌, ◌%◌, ◌<◌, ◌≡◌, refl, sym, ◌↔◌, arith, ◌==◌, if◌then◌else◌, get_or,
}
use srvfb.Png.Pass.{Scan, interlacing, reduced}

-- The pixel in column i and line j of a pass is the pixel (x, y) of the image.
abbrev pub Places : Scan → ℕ → ℕ → ℕ → ℕ → Type 0
Places p i j x y = (x ≡ i * p.x_factor + p.x_offset) × (y ≡ j * p.y_factor + p.y_offset)

-- The pass of a pixel.
pub pass_of : ℕ → ℕ → ℕ
pass_of x y =
    if y % 2 == 1
    then 6
    else if x % 2 == 1
    then 5
    else if y % 4 == 2
    then 4
    else if x % 4 == 2
    then 3
    else if y % 8 == 4
    then 2
    else if x % 8 == 4
    then 1
    else 0

abbrev pub pass_scan : ℕ → Scan
pass_scan k =
    get_or interlacing k (record { x_factor = 1; y_factor = 1; x_offset = 0; y_offset = 0 })

-- In which pass a pixel is.
pass_of-Places : (k i j x y : ℕ) → k < 7 → Places (pass_scan k) i j x y → pass_of x y ≡ k
unfolding pass_of
pass_of-Places zero i j x y l (a, b) = ground arith
pass_of-Places (suc zero) i j x y l (a, b) = ground arith
pass_of-Places (suc (suc zero)) i j x y l (a, b) = ground arith
pass_of-Places (suc (suc (suc zero))) i j x y l (a, b) = ground arith
pass_of-Places (suc (suc (suc (suc zero)))) i j x y l (a, b) = ground arith
pass_of-Places (suc (suc (suc (suc (suc zero))))) i j x y l (a, b) = ground arith
pass_of-Places (suc (suc (suc (suc (suc (suc zero)))))) i j x y l (a, b) = ground arith
pass_of-Places (suc (suc (suc (suc (suc (suc (suc k))))))) i j x y l (a, b) = absurd (omega arith)

-- Its place in the pass, which is big enough.
abbrev pub IsIn : ℕ → ℕ → ℕ → ℕ → ℕ → Type 0
IsIn k x y w h =
    let p = pass_scan k in
    (k < 7)
    × Places p (x / p.x_factor) (y / p.y_factor) x y
    × (x / p.x_factor < reduced w p.x_offset p.x_factor)
    × (y / p.y_factor < reduced h p.y_offset p.y_factor)

pass_of-IsIn : (k x y w h : ℕ) → x < w → y < h → pass_of x y ≡ k → IsIn k x y w h
unfolding pass_of reduced
pass_of-IsIn zero x y w h a b e =
    (omega arith, (ground arith, ground arith), ground arith, ground arith)
pass_of-IsIn (suc zero) x y w h a b e =
    (omega arith, (ground arith, ground arith), ground arith, ground arith)
pass_of-IsIn (suc (suc zero)) x y w h a b e =
    (omega arith, (ground arith, ground arith), ground arith, ground arith)
pass_of-IsIn (suc (suc (suc zero))) x y w h a b e =
    (omega arith, (ground arith, ground arith), ground arith, ground arith)
pass_of-IsIn (suc (suc (suc (suc zero)))) x y w h a b e =
    (omega arith, (ground arith, ground arith), ground arith, ground arith)
pass_of-IsIn (suc (suc (suc (suc (suc zero))))) x y w h a b e =
    (omega arith, (ground arith, ground arith), ground arith, ground arith)
pass_of-IsIn (suc (suc (suc (suc (suc (suc zero)))))) x y w h a b e =
    (omega arith, (ground arith, ground arith), ground arith, ground arith)
pass_of-IsIn (suc (suc (suc (suc (suc (suc (suc k))))))) x y w h a b e = absurd (ground arith)

-- The pixels of a pass are pixels of the image.
pub pass-inside :
    (k i j w h : ℕ)
    → k < 7
    → 0 < w
    → 0 < h
    → let p = pass_scan k in
      i < reduced w p.x_offset p.x_factor
      → j < reduced h p.y_offset p.y_factor
      → (i * p.x_factor + p.x_offset < w) × (j * p.y_factor + p.y_offset < h)
unfolding reduced
pass-inside zero i j w h l a b c d = (omega arith, omega arith)
pass-inside (suc zero) i j w h l a b c d = (omega arith, omega arith)
pass-inside (suc (suc zero)) i j w h l a b c d = (omega arith, omega arith)
pass-inside (suc (suc (suc zero))) i j w h l a b c d = (omega arith, omega arith)
pass-inside (suc (suc (suc (suc zero)))) i j w h l a b c d = (omega arith, omega arith)
pass-inside (suc (suc (suc (suc (suc zero))))) i j w h l a b c d = (omega arith, omega arith)
pass-inside (suc (suc (suc (suc (suc (suc zero)))))) i j w h l a b c d = (omega arith, omega arith)
pass-inside (suc (suc (suc (suc (suc (suc (suc k))))))) i j w h l a b c d = absurd (omega arith)

place_unique :
    (k i j x y : ℕ)
    → k < 7
    → Places (pass_scan k) i j x y
    → (i ≡ x / (pass_scan k).x_factor) × (j ≡ y / (pass_scan k).y_factor)
place_unique zero i j x y l (a, b) = (omega arith, omega arith)
place_unique (suc zero) i j x y l (a, b) = (omega arith, omega arith)
place_unique (suc (suc zero)) i j x y l (a, b) = (omega arith, omega arith)
place_unique (suc (suc (suc zero))) i j x y l (a, b) = (omega arith, omega arith)
place_unique (suc (suc (suc (suc zero)))) i j x y l (a, b) = (omega arith, omega arith)
place_unique (suc (suc (suc (suc (suc zero))))) i j x y l (a, b) = (omega arith, omega arith)
place_unique (suc (suc (suc (suc (suc (suc zero)))))) i j x y l (a, b) = (omega arith, omega arith)
place_unique (suc (suc (suc (suc (suc (suc (suc k))))))) i j x y l (a, b) = absurd (omega arith)

-- Every pixel of an image of w columns and h lines has a place in one of the seven passes, inside
-- the size that readImagePass gives the pass; and it is at no other place, in this or in another
-- pass.
pub passes_partition :
    (w h x y k i j : ℕ)
    → x < w
    → y < h
    → k < 7
    → IsIn (pass_of x y) x y w h
      × (Places (pass_scan k) i j x y ↔ (
          (k ≡ pass_of x y) × (i ≡ x / (pass_scan k).x_factor) × (j ≡ y / (pass_scan k).y_factor)))
passes_partition w h x y k i j a b l =
    let inside = pass_of-IsIn (pass_of x y) x y w h a b refl in
    (
      inside,
      (
        λ p.
            (let (f, g) = place_unique k i j x y l p in (sym (pass_of-Places k i j x y l p), f, g)),
        λ (e, f, g). rw (f, g, e) (inside.1),
      ),
    )
