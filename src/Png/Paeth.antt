-- ===== src/Png/Paeth.antt =====
-- internal/png/paeth.go, paeth: the Paeth predictor, with fewer operations than the specification.
use srvfb.Base.{ℕ, ◌+◌, ◌-◌, ◌^◌, ◌<◌, ◌≡◌, ◌&&◌, arith, ltb, leb, if◌then◌else◌}
use srvfb.Png.Word.{add64, sub64, le64, abs, abs_lem}

unfoldable pub paeth : ℕ → ℕ → ℕ → ℕ
paeth a b c =
    let pa = sub64 b c in
    let pb = sub64 a c in
    let pc = abs (add64 pa pb) in
    let pa' = abs pa in
    let pb' = abs pb in if le64 pa' pb' && le64 pa' pc then a else if le64 pb' pc then b else c

-- The distance of two numbers.
abbrev pub dist : ℕ → ℕ → ℕ
dist x y = if ltb x y then y - x else x - y

-- The predictor of the PNG specification: of a, b and c the one that is nearest to a + b - c, the
-- first of them in this order if several are. Adding c on both sides keeps the distances.
unfoldable pub paeth_predictor : ℕ → ℕ → ℕ → ℕ
paeth_predictor a b c =
    let pa = dist (a + b) (a + c) in
    let pb = dist (a + b) (b + c) in
    let pc = dist (a + b) (c + c) in
    if leb pa pb && leb pa pc then a else if leb pb pc then b else c

abs_sub : (x y : ℕ) → x < 2 ^ 62 → y < 2 ^ 62 → abs (sub64 x y) ≡ dist x y
abs_sub x y p q = rw (abs_lem (sub64 x y) (omega arith)) (ground arith)

le64-leb : (x y : ℕ) → x < 2 ^ 63 → y < 2 ^ 63 → le64 x y ≡ leb x y
le64-leb x y p q = ground arith

dist-lt : (x y n : ℕ) → x < n → y < n → dist x y < n
dist-lt x y n p q = ground arith

dist-add_left : (a b c : ℕ) → dist (a + b) (a + c) ≡ dist b c
dist-add_left a b c = ground arith

dist-add_mixed : (a b c : ℕ) → dist (a + b) (b + c) ≡ dist a c
dist-add_mixed a b c = ground arith

sum_of_differences :
    (a b c : ℕ)
    → a < 2 ^ 8
    → b < 2 ^ 8
    → c < 2 ^ 8
    → add64 (sub64 b c) (sub64 a c) ≡ sub64 (a + b) (c + c)
sum_of_differences a b c p q r = omega arith

-- On bytes paeth is the predictor of the specification.
pub paeth-paeth_predictor :
    (a b c : ℕ) → a < 2 ^ 8 → b < 2 ^ 8 → c < 2 ^ 8 → paeth a b c ≡ paeth_predictor a b c
unfolding paeth paeth_predictor
paeth-paeth_predictor a b c p q r =
    let pa = dist-lt b c (2 ^ 63) (omega arith) (omega arith) in
    let pb = dist-lt a c (2 ^ 63) (omega arith) (omega arith) in
    let pc = dist-lt (a + b) (c + c) (2 ^ 63) (omega arith) (omega arith) in
    rw (
      sum_of_differences a b c p q r,
      abs_sub b c (omega arith) (omega arith),
      abs_sub a c (omega arith) (omega arith),
      abs_sub (a + b) (c + c) (omega arith) (omega arith),
      dist-add_left a b c,
      dist-add_mixed a b c,
      le64-leb _ _ pa pb,
      le64-leb _ _ pa pc,
      le64-leb _ _ pb pc,
    )
