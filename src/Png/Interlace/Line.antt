-- ===== src/Png/Interlace/Line.antt =====
-- internal/png/reader.go, mergePassInto: what the loop over x does to the pixels of Pix.
use srvfb.Base.{
  ℕ, zero, suc, ◌+◌, ◌*◌, ◌≤◌, ◌<◌, ◌≡◌, refl, ap, ◌∙◌, ◌≢◌, arith, length, take, drop, length-take,
  length-drop,
}
use srvfb.Base.Bytes.{Bytes}
use srvfb.Base.Elements.{at, get_or-take, get_or-drop, drop-drop}
use srvfb.Png.Pass.{put}
use srvfb.Png.Interlace.{merge_line}
use srvfb.Png.Interlace.Cells.{cell, cell-put, cell-put_ne, length-put, whole_pixels}

-- Columns x to x + n of a line whose pixels are `factor` pixels apart, from the pixel q0 on, lie
-- among the first K pixels.
abbrev pub Reaches : ℕ → ℕ → ℕ → ℕ → ℕ → Type 0
Reaches factor q0 K x n = (c : ℕ) → x ≤ c → c < x + n → q0 + c * factor < K

module _ (size factor q0 K : ℕ) (spaced : 0 < factor) where
  place : (x : ℕ) → q0 * size + x * factor * size ≡ (q0 + x * factor) * size
  place x = grind arith

  abbrev placed : ℕ → Bytes → Bytes → Bytes
  placed x src dst = put dst ((q0 + x * factor) * size) (take size src)

  module _ (x n : ℕ) (src dst : Bytes) (long : suc n * size ≤ length src)
      (whole : K * size ≤ length dst) (reach : Reaches factor q0 K x (suc n)) where
    full_pixel : length (take size src) ≡ size
    full_pixel =
        let l : size + n * size ≤ length src = grind arith in omega (arith, l, length-take size src)

    inside : (q0 + x * factor) * size + size ≤ length dst
    inside =
        let w = whole_pixels size (q0 + x * factor) K (reach x (omega arith) (omega arith)) in
        omega (arith, w, whole)

    placed-length : length (placed x src dst) ≡ length dst
    placed-length = length-put dst (take size src) ((q0 + x * factor) * size)

    further : Reaches factor q0 K (x + 1) n
    further c h k = reach c (omega arith) (omega arith)

    rest_long : n * size ≤ length (drop size src)
    rest_long =
        let l : size + n * size ≤ length src = grind arith in omega (arith, l, length-drop size src)

  merge_line-suc :
      (n x : ℕ) (src dst : Bytes)
      → merge_line size factor (q0 * size) (suc n) x src dst
        ≡ merge_line size factor (q0 * size) n (x + 1) (drop size src) (placed x src dst)
  unfolding merge_line
  merge_line-suc n x src dst =
      ap
        (λ o.
          merge_line size factor (q0 * size) n (x + 1) (drop size src) (put dst o (take size src)))
        (place x)

  pub merge_line-length :
      (n x : ℕ) (src dst : Bytes)
      → n * size ≤ length src
      → K * size ≤ length dst
      → Reaches factor q0 K x n
      → length ((merge_line size factor (q0 * size) n x src dst).1) ≡ length dst
  unfolding merge_line
  merge_line-length zero x src dst l w r = refl
  merge_line-length (suc n) x src dst l w r =
      let same = placed-length x n src dst l w r in
      ap (λ p. length p.1) (merge_line-suc n x src dst)
      ∙ merge_line-length n (x + 1) (drop size src) (placed x src dst) (rest_long x n src dst l w r)
          (omega (arith, same, w)) (further x n src dst l w r)
      ∙ same

  pub merge_line-rest :
      (n x : ℕ) (src dst : Bytes)
      → (merge_line size factor (q0 * size) n x src dst).0 ≡ drop (n * size) src
  unfolding merge_line
  merge_line-rest zero x src dst = let e : 0 * size ≡ 0 = omega arith in rw e refl
  merge_line-rest (suc n) x src dst =
      let e : size + n * size ≡ suc n * size = grind arith in
      ap (λ p. p.0) (merge_line-suc n x src dst)
      ∙ merge_line-rest n (x + 1) (drop size src) (placed x src dst)
      ∙ drop-drop size (n * size) src
      ∙ ap (λ k. drop k src) e

  -- The other pixels are as they were.
  pub merge_line-ne :
      (n x q b : ℕ) (src dst : Bytes)
      → n * size ≤ length src
      → K * size ≤ length dst
      → Reaches factor q0 K x n
      → b < size
      → ((c : ℕ) → x ≤ c → c < x + n → q ≢ q0 + c * factor)
      → cell size (merge_line size factor (q0 * size) n x src dst).1 q b ≡ cell size dst q b
  unfolding merge_line
  merge_line-ne zero x q b src dst l w r h o = refl
  merge_line-ne (suc n) x q b src dst l w r h o =
      let same = placed-length x n src dst l w r in
      ap (λ p. cell size p.1 q b) (merge_line-suc n x src dst)
      ∙ merge_line-ne n (x + 1) q b (drop size src) (placed x src dst) (rest_long x n src dst l w r)
          (omega (arith, same, w)) (further x n src dst l w r) h
          (λ c k m. o c (omega arith) (omega arith))
      ∙ cell-put_ne size (q0 + x * factor) q dst (take size src) b (full_pixel x n src dst l w r)
          (inside x n src dst l w r) h (o x (omega arith) (omega arith))

  spread : (x c : ℕ) → x < c → q0 + x * factor ≢ q0 + c * factor
  spread x c h e =
      let m : (x + 1) * factor ≤ c * factor = grind arith in
      let s : (x + 1) * factor ≡ x * factor + factor = grind arith in
      absurd (omega (arith, e, m, s, spaced))

  -- The columns are the next pixels of the source.
  pub merge_line-cell :
      (n x i b : ℕ) (src dst : Bytes)
      → n * size ≤ length src
      → K * size ≤ length dst
      → Reaches factor q0 K x n
      → b < size
      → i < n
      → cell size (merge_line size factor (q0 * size) n x src dst).1 (q0 + (x + i) * factor) b
        ≡ cell size src i b
  unfolding merge_line
  merge_line-cell zero x i b src dst l w r h k = absurd (omega arith)
  merge_line-cell (suc n) x zero b src dst l w r h k =
      let same = placed-length x n src dst l w r in
      let e : x + 0 ≡ x = omega arith in
      let z : 0 * size + b ≡ b = omega arith in
      rw (e, z)
        (ap (λ p. cell size p.1 (q0 + x * factor) b) (merge_line-suc n x src dst)
          ∙ merge_line-ne n (x + 1) (q0 + x * factor) b (drop size src) (placed x src dst)
              (rest_long x n src dst l w r) (omega (arith, same, w)) (further x n src dst l w r) h
              (λ c m _. spread x c (omega arith))
          ∙ cell-put size (q0 + x * factor) dst (take size src) b (full_pixel x n src dst l w r)
              (inside x n src dst l w r) h
          ∙ get_or-take size src b 0 h)
  merge_line-cell (suc n) x (suc i) b src dst l w r h k =
      let same = placed-length x n src dst l w r in
      let e : x + 1 + i ≡ x + suc i = omega arith in
      let z : size + (i * size + b) ≡ suc i * size + b = grind arith in
      ap (λ p. cell size p.1 (q0 + (x + suc i) * factor) b) (merge_line-suc n x src dst)
      ∙ rw e at (
          merge_line-cell n (x + 1) i b (drop size src) (placed x src dst)
            (rest_long x n src dst l w r) (omega (arith, same, w)) (further x n src dst l w r) h
            (omega arith))
      ∙ get_or-drop size src (i * size + b) 0
      ∙ ap (at src) z
