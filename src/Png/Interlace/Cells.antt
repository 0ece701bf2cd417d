-- ===== src/Png/Interlace/Cells.antt =====
-- internal/png/reader.go, mergePassInto: the bytes of Pix after a copy of a pixel.
use srvfb.Base.{
  ℕ, ◌+◌, ◌-◌, ◌*◌, ◌≤◌, ◌<◌, ◌≡◌, ap, ◌∙◌, ◌≢◌, inl, inr, ◌++◌, arith, ltb, ltb→lt, Bool-cases,
  length, length-append, take, drop, length-take, length-drop,
}
use srvfb.Base.Bytes.{Bytes, copy}
use srvfb.Base.Elements.{at, get_or-append_left, get_or-append_right, get_or-take, get_or-drop}
use srvfb.Png.Pass.{put}

-- Byte b of the pixel q in Pix.
abbrev pub cell : ℕ → Bytes → ℕ → ℕ → ℕ
cell size pix q b = at pix (q * size + b)

at-take : (n : ℕ) (xs : Bytes) (i : ℕ) → i < n → at (take n xs) i ≡ at xs i
at-take n xs i h = get_or-take n xs i 0 h

at-drop : (n : ℕ) (xs : Bytes) (i : ℕ) → at (drop n xs) i ≡ at xs (n + i)
at-drop n xs i = get_or-drop n xs i 0

at-append_left : (xs ys : Bytes) (i : ℕ) → i < length xs → at (xs ++ ys) i ≡ at xs i
at-append_left xs ys i h = get_or-append_left xs ys i 0 h

at-append_right : (xs ys : Bytes) (k : ℕ) → length xs ≤ k → at (xs ++ ys) k ≡ at ys (k - length xs)
at-append_right xs ys k h =
    let e : length xs + (k - length xs) ≡ k = omega arith in
    rw e at (get_or-append_right xs ys (k - length xs) 0)

at-copy :
    (dst src : Bytes) (i : ℕ) → i < length src → i < length dst → at (copy dst src) i ≡ at src i
at-copy dst src i h k =
    at-append_left (take (length dst) src) (drop (length src) dst) i
      (omega (arith, length-take (length dst) src))
    ∙ at-take (length dst) src i k

at-copy_after :
    (dst src : Bytes) (i : ℕ)
    → length src ≤ length dst
    → length src ≤ i
    → at (copy dst src) i ≡ at dst i
at-copy_after dst src i h k =
    let l : length (take (length dst) src) ≡ length src =
      omega (arith, length-take (length dst) src) in
    let e : length src + (i - length src) ≡ i = omega arith in
    at-append_right (take (length dst) src) (drop (length src) dst) i (omega (arith, l))
    ∙ rw l (at-drop (length src) dst (i - length src) ∙ ap (at dst) e)

pub length-put : (pix row : Bytes) (o : ℕ) → length (put pix o row) ≡ length pix
length-put pix row o =
    let r = drop o pix in
    omega (
      arith,
      length-append (take o pix) (copy r row),
      length-append (take (length r) row) (drop (length row) r),
      length-take o pix,
      length-drop o pix,
      length-take (length r) row,
      length-drop (length row) r,
    )

module _ (pix row : Bytes) (o : ℕ) (fits : o + length row ≤ length pix) where
  start : length (take o pix) ≡ o
  start = omega (arith, fits, length-take o pix)

  at-put_before : (k : ℕ) → k < o → at (put pix o row) k ≡ at pix k
  at-put_before k h =
      at-append_left (take o pix) (copy (drop o pix) row) k (omega (arith, start))
      ∙ at-take o pix k h

  at-put_inside : (b : ℕ) → b < length row → at (put pix o row) (o + b) ≡ at row b
  at-put_inside b h =
      let e : o + b - o ≡ b = omega arith in
      at-append_right (take o pix) (copy (drop o pix) row) (o + b) (omega (arith, start))
      ∙ rw (start, e) (at-copy (drop o pix) row b h (omega (arith, fits, length-drop o pix)))

  at-put_after : (k : ℕ) → o + length row ≤ k → at (put pix o row) k ≡ at pix k
  at-put_after k h =
      let e : o + (k - o) ≡ k = omega arith in
      at-append_right (take o pix) (copy (drop o pix) row) k (omega (arith, start))
      ∙ rw start (
          at-copy_after (drop o pix) row (k - o) (omega (arith, fits, length-drop o pix))
            (omega arith)
          ∙ at-drop o pix (k - o)
          ∙ ap (at pix) e)

pub whole_pixels : (size q p : ℕ) → q < p → q * size + size ≤ p * size
whole_pixels size q p h = grind arith

-- A pixel that is put into Pix is there, and the others are as they were.
pub cell-put :
    (size p : ℕ) (pix row : Bytes) (b : ℕ)
    → length row ≡ size
    → p * size + size ≤ length pix
    → b < size
    → cell size (put pix (p * size) row) p b ≡ at row b
cell-put size p pix row b l h k =
    at-put_inside pix row (p * size) (omega (arith, l)) b (omega (arith, l))

pub cell-put_ne :
    (size p q : ℕ) (pix row : Bytes) (b : ℕ)
    → length row ≡ size
    → p * size + size ≤ length pix
    → b < size
    → q ≢ p
    → cell size (put pix (p * size) row) q b ≡ cell size pix q b
cell-put_ne size p q pix row b l h k n = elim (Bool-cases (ltb q p)) [
  | inl e ↦
      let before = whole_pixels size q p (ltb→lt q p e) in
      at-put_before pix row (p * size) (omega (arith, l, h)) (q * size + b) (omega (arith, before))
  | inr e ↦
      let more : p < q = ground arith in
      let after = whole_pixels size p q more in
      at-put_after pix row (p * size) (omega (arith, l, h)) (q * size + b) (omega (arith, after, l))
]
