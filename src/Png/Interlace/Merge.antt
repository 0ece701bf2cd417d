-- ===== src/Png/Interlace/Merge.antt =====
-- internal/png/reader.go, mergePassInto: where the pixels of a pass go.
use srvfb.Base.{
  ℕ, zero, suc, ◌+◌, ◌*◌, ◌≤◌, ◌<◌, ◌≡◌, refl, sym, ap, ◌∙◌, ◌≢◌, inl, inr, arith, ltb, ltb→lt,
  Bool-cases, length, drop, length-drop,
}
use srvfb.Base.Bytes.{Bytes}
use srvfb.Base.Elements.{at, get_or-drop}
use srvfb.Png.Pass.{Scan}
use srvfb.Png.Interlace.{merge_line, merge_lines}
use srvfb.Png.Interlace.Cells.{cell}
use srvfb.Png.Interlace.Line.{
  Reaches, merge_line-length, merge_line-rest, merge_line-ne, merge_line-cell,
}

-- Pixels in other lines, or in other columns, are other pixels.
earlier-ne : (W X Y Y' X' : ℕ) → X < W → Y < Y' → Y * W + X ≢ Y' * W + X'
earlier-ne W X Y Y' X' h l e =
    let m : (Y + 1) * W ≤ Y' * W = grind arith in
    let s : (Y + 1) * W ≡ Y * W + W = grind arith in absurd (omega (arith, h, m, s, e))

pub index_injective :
    (W X Y X' Y' : ℕ) → X < W → X' < W → Y * W + X ≡ Y' * W + X' → (X ≡ X') × (Y ≡ Y')
index_injective W X Y X' Y' h h' e = elim (Bool-cases (ltb Y Y')) [
  | inl l ↦ absurd (earlier-ne W X Y Y' X' h (ltb→lt Y Y' l) e)
  | inr l ↦ elim (Bool-cases (ltb Y' Y)) [
    | inl l' ↦ absurd (earlier-ne W X' Y' Y X h' (ltb→lt Y' Y l') (sym e))
    | inr l' ↦ let same : Y ≡ Y' = ground arith in (omega (arith, rw same at e), same)
  ]
]

-- A pass p of w columns, into an image of W columns and H lines.
module _ (p : Scan) (size W H w : ℕ) (dx : 0 < p.x_factor) (dy : 0 < p.y_factor)
    (columns : (i : ℕ) → i < w → i * p.x_factor + p.x_offset < W) where
  -- The first pixel of line y of the pass.
  abbrev origin : ℕ → ℕ
  origin y = (y * p.y_factor + p.y_offset) * W + p.x_offset

  abbrev merged : ℕ → Bytes → Bytes → Bytes
  merged y src dst = (merge_line size p.x_factor (origin y * size) w 0 src dst).1

  base-origin :
      (y : ℕ) → (y * p.y_factor + p.y_offset) * (W * size) + p.x_offset * size ≡ origin y * size
  base-origin y = grind arith

  merge_lines-suc :
      (n y : ℕ) (src dst : Bytes)
      → merge_lines p size (W * size) w (suc n) y src dst
        ≡ merge_lines p size (W * size) w n (y + 1) (drop (w * size) src) (merged y src dst)
  unfolding merge_lines
  merge_lines-suc n y src dst =
      ap
        (λ o.
          let r = merge_line size p.x_factor o w 0 src dst in
          merge_lines p size (W * size) w n (y + 1) (r.0) (r.1))
        (base-origin y)
      ∙ ap (λ s. merge_lines p size (W * size) w n (y + 1) s (merged y src dst))
          (merge_line-rest size p.x_factor (origin y) (H * W) dx w 0 src dst)

  -- The lines from y on lie in the image.
  abbrev pub Lines : ℕ → ℕ → Type 0
  Lines y n = (j : ℕ) → y ≤ j → j < y + n → j * p.y_factor + p.y_offset < H

  below : (Y X : ℕ) → Y < H → X < W → Y * W + X < H * W
  below Y X h k =
      let m : (Y + 1) * W ≤ H * W = grind arith in
      let s : (Y + 1) * W ≡ Y * W + W = grind arith in omega (arith, h, k, m, s)

  line-Reaches :
      (y : ℕ) → y * p.y_factor + p.y_offset < H → Reaches p.x_factor (origin y) (H * W) 0 w
  line-Reaches y h c z k =
      let b =
        below (y * p.y_factor + p.y_offset) (c * p.x_factor + p.x_offset) h
          (columns c (omega arith)) in
      omega (arith, b)

  first_line : (n : ℕ) (src : Bytes) → suc n * w * size ≤ length src → w * size ≤ length src
  first_line n src l =
      let m : suc n * w * size ≡ w * size + n * w * size = grind arith in omega (arith, l, m)

  rest_lines :
      (n : ℕ) (src : Bytes)
      → suc n * w * size ≤ length src
      → n * w * size ≤ length (drop (w * size) src)
  rest_lines n src l =
      let m : suc n * w * size ≡ w * size + n * w * size = grind arith in
      omega (arith, l, m, length-drop (w * size) src)

  module _ (n y : ℕ) (src dst : Bytes) (l : suc n * w * size ≤ length src)
      (whole : H * W * size ≤ length dst) (r : Lines y (suc n)) where
    merged-length : length (merged y src dst) ≡ length dst
    merged-length =
        merge_line-length size p.x_factor (origin y) (H * W) dx w 0 src dst (first_line n src l)
          whole (line-Reaches y (r y (omega arith) (omega arith)))

    still_whole : H * W * size ≤ length (merged y src dst)
    still_whole = omega (arith, merged-length, whole)

    next-Lines : Lines (y + 1) n
    next-Lines j a b = r j (omega arith) (omega arith)

  pub merge_lines-length :
      (n y : ℕ) (src dst : Bytes)
      → n * w * size ≤ length src
      → H * W * size ≤ length dst
      → Lines y n
      → length (merge_lines p size (W * size) w n y src dst) ≡ length dst
  unfolding merge_lines
  merge_lines-length zero y src dst l h r = refl
  merge_lines-length (suc n) y src dst l h r =
      ap length (merge_lines-suc n y src dst)
      ∙ merge_lines-length n (y + 1) (drop (w * size) src) (merged y src dst) (rest_lines n src l)
          (still_whole n y src dst l h r) (next-Lines n y src dst l h r)
      ∙ merged-length n y src dst l h r

  later : (y j : ℕ) → y < j → y * p.y_factor + p.y_offset ≢ j * p.y_factor + p.y_offset
  later y j h e =
      let m : (y + 1) * p.y_factor ≤ j * p.y_factor = grind arith in
      let s : (y + 1) * p.y_factor ≡ y * p.y_factor + p.y_factor = grind arith in
      absurd (omega (arith, e, m, s, dy))

  -- A pixel at no place of the pass is as it was.
  pub merge_lines-ne :
      (n y X Y b : ℕ) (src dst : Bytes)
      → n * w * size ≤ length src
      → H * W * size ≤ length dst
      → Lines y n
      → b < size
      → X < W
      → ((i j : ℕ)
          → i < w
          → y ≤ j
          → j < y + n
          → X ≡ i * p.x_factor + p.x_offset
          → Y ≢ j * p.y_factor + p.y_offset)
      → cell size (merge_lines p size (W * size) w n y src dst) (Y * W + X) b
        ≡ cell size dst (Y * W + X) b
  unfolding merge_lines
  merge_lines-ne zero y X Y b src dst l h r k x o = refl
  merge_lines-ne (suc n) y X Y b src dst l h r k x o =
      let line = r y (omega arith) (omega arith) in
      ap (λ pix. cell size pix (Y * W + X) b) (merge_lines-suc n y src dst)
      ∙ merge_lines-ne n (y + 1) X Y b (drop (w * size) src) (merged y src dst) (rest_lines n src l)
          (still_whole n y src dst l h r) (next-Lines n y src dst l h r) k x
          (λ i j a c d. o i j a (omega arith) (omega arith))
      ∙ merge_line-ne size p.x_factor (origin y) (H * W) dx w 0 (Y * W + X) b src dst
          (first_line n src l) h (line-Reaches y line) k
          (λ c _ m e.
            let col = columns c (omega arith) in
            let q : Y * W + X ≡ (y * p.y_factor + p.y_offset) * W + (c * p.x_factor + p.x_offset) =
              omega (arith, e) in
            let (s, t) = index_injective W X Y _ _ x col q in
            o c y (omega arith) (omega arith) (omega arith) s t)

  -- The pixel in column i and line j of what is left of the source.
  pub merge_lines-cell :
      (n y i j b : ℕ) (src dst : Bytes)
      → n * w * size ≤ length src
      → H * W * size ≤ length dst
      → Lines y n
      → b < size
      → i < w
      → j < n
      → cell size
          (merge_lines p size (W * size) w n y src dst)
          (((y + j) * p.y_factor + p.y_offset) * W + (i * p.x_factor + p.x_offset))
          b
        ≡ cell size src (j * w + i) b
  unfolding merge_lines
  merge_lines-cell zero y i j b src dst l h r k a c = absurd (omega arith)
  merge_lines-cell (suc n) y i zero b src dst l h r k a c =
      let line = r y (omega arith) (omega arith) in
      let here : y + 0 ≡ y = omega arith in
      let first : 0 * w + i ≡ i = omega arith in
      let X = i * p.x_factor + p.x_offset in
      let Y = y * p.y_factor + p.y_offset in
      let q : origin y + (0 + i) * p.x_factor ≡ Y * W + X = grind arith in
      rw (here, first)
        (ap (λ pix. cell size pix (Y * W + X) b) (merge_lines-suc n y src dst)
          ∙ merge_lines-ne n (y + 1) X Y b (drop (w * size) src) (merged y src dst)
              (rest_lines n src l) (still_whole n y src dst l h r) (next-Lines n y src dst l h r) k
              (columns i a) (λ i' j' _ m _ _ e. later y j' (omega arith) e)
          ∙ rw q at (
              merge_line-cell size p.x_factor (origin y) (H * W) dx w 0 i b src dst
                (first_line n src l) h (line-Reaches y line) k a))
  merge_lines-cell (suc n) y i (suc j) b src dst l h r k a c =
      let next : y + 1 + j ≡ y + suc j = omega arith in
      let q : w * size + ((j * w + i) * size + b) ≡ (suc j * w + i) * size + b = grind arith in
      ap
        (λ pix.
          cell size pix
            (((y + suc j) * p.y_factor + p.y_offset) * W + (i * p.x_factor + p.x_offset)) b)
        (merge_lines-suc n y src dst)
      ∙ rw next at (
          merge_lines-cell n (y + 1) i j b (drop (w * size) src) (merged y src dst)
            (rest_lines n src l) (still_whole n y src dst l h r) (next-Lines n y src dst l h r) k a
            (omega arith))
      ∙ get_or-drop (w * size) src ((j * w + i) * size + b) 0
      ∙ ap (at src) q
