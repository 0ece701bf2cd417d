-- ===== src/Png/Filter/Scan.antt =====
-- internal/png/writer.go, filter: what the loops compute when they are not broken off.
use srvfb.Base.{
  ℕ, suc, ◌+◌, ◌≤◌, ◌<◌, ◌≡◌, refl, ap, List, [], ◌∷◌, ◌++◌, arith, length, take, drop, length-drop,
}
use native.Mathlib.Nat.{zero-add}
use srvfb.Base.Bytes.{Bytes}
use srvfb.Png.Filter.{sub8, abs8, first, above, scan, candidate, none_sum}

-- The sum of absolute differences of a row.
abbrev pub score : Bytes → ℕ
score [] = 0
score (x ∷ xs) = abs8 x + score xs

-- The filtered bytes from bpp on, in full.
unfoldable pub row_rest : (ℕ → ℕ → ℕ → ℕ) → Bytes → Bytes → List (ℕ × ℕ) → Bytes
row_rest pred [] ls pq = []
row_rest pred (c ∷ cs) [] pq = []
row_rest pred (c ∷ cs) (l ∷ ls) [] = []
row_rest pred (c ∷ cs) (l ∷ ls) ((p, q) ∷ pq) = sub8 c (pred l p q) ∷ row_rest pred cs ls pq

unfoldable pub first_row : (ℕ → ℕ → ℕ) → Bytes → Bytes → Bytes
first_row f [] ps = []
first_row f (c ∷ cs) [] = []
first_row f (c ∷ cs) (p ∷ ps) = f c p ∷ first_row f cs ps

-- A whole row, filtered.
unfoldable pub full_row : (ℕ → ℕ → ℕ) → (ℕ → ℕ → ℕ → ℕ) → ℕ → Bytes → Bytes → Bytes
full_row f pred bpp cs ps =
    first_row f (take bpp cs) (take bpp ps)
    ++ row_rest pred (drop bpp cs) cs (above (drop bpp ps) ps)

score-append : (xs ys : Bytes) → score (xs ++ ys) ≡ score xs + score ys
score-append [] ys = omega arith
score-append (x ∷ xs) ys = omega (arith, score-append xs ys)

pub first-first_row :
    (f : ℕ → ℕ → ℕ) (sum : ℕ) (cs ps : Bytes)
    → first f sum cs ps ≡ (first_row f cs ps, sum + score (first_row f cs ps))
unfolding first first_row
first-first_row f sum [] ps = ap (λ n. ([], n)) (omega arith)
first-first_row f sum (c ∷ cs) [] = ap (λ n. ([], n)) (omega arith)
first-first_row f sum (c ∷ cs) (p ∷ ps) =
    rw (first-first_row f (sum + abs8 (f c p)) cs ps)
      (ap (λ n. (f c p ∷ first_row f cs ps, n)) (omega arith))

-- The lists that a loop walks over are as long as what is left of the row.
abbrev Fit : Bytes → Bytes → List (ℕ × ℕ) → Bytes → Type 0
Fit cs ls pq out = (length cs ≤ length ls) × (length cs ≤ length pq) × (length out ≡ length cs)

module _ (pred : ℕ → ℕ → ℕ → ℕ) (best : ℕ) where
  -- A sum below `best` is that of the whole row, which has been written.
  scan_below :
      (sum : ℕ) (cs ls : Bytes) (pq : List (ℕ × ℕ)) (out : Bytes)
      → Fit cs ls pq out
      → sum + score (row_rest pred cs ls pq) < best
      → scan pred best sum cs ls pq out
        ≡ (row_rest pred cs ls pq, sum + score (row_rest pred cs ls pq))
  unfolding scan row_rest
  scan_below sum [] ls pq [] h b = ap (λ n. ([], n)) (omega arith)
  scan_below sum [] ls pq (o ∷ out) h b = absurd (omega arith)
  scan_below sum (c ∷ cs) [] pq out h b = absurd (omega arith)
  scan_below sum (c ∷ cs) (l ∷ ls) [] out h b = absurd (omega arith)
  scan_below sum (c ∷ cs) (l ∷ ls) ((p, q) ∷ pq) [] h b = absurd (omega arith)
  scan_below sum (c ∷ cs) (l ∷ ls) ((p, q) ∷ pq) (o ∷ out) h b =
      ground (arith, scan_below (sum + abs8 (sub8 c (pred l p q))) cs ls pq out)

  scan_above :
      (sum : ℕ) (cs ls : Bytes) (pq : List (ℕ × ℕ)) (out : Bytes)
      → Fit cs ls pq out
      → best ≤ sum + score (row_rest pred cs ls pq)
      → best ≤ (scan pred best sum cs ls pq out).1
  unfolding scan row_rest
  scan_above sum [] ls pq out h b = omega arith
  scan_above sum (c ∷ cs) [] pq out h b = absurd (omega arith)
  scan_above sum (c ∷ cs) (l ∷ ls) [] out h b = absurd (omega arith)
  scan_above sum (c ∷ cs) (l ∷ ls) ((p, q) ∷ pq) [] h b = absurd (omega arith)
  scan_above sum (c ∷ cs) (l ∷ ls) ((p, q) ∷ pq) (o ∷ out) h b =
      ground (arith, scan_above (sum + abs8 (sub8 c (pred l p q))) cs ls pq out)

-- The lists have the row's length, and a row has a whole pixel.
pub record IsRow (bpp : ℕ) (cs ps out : Bytes) : Type 0 where
  pub pixel : bpp ≤ length cs
  pub above_eq : length ps ≡ length cs
  pub out_eq : length out ≡ length cs

pub length-above : (ps qs : Bytes) → length ps ≤ length qs → length (above ps qs) ≡ length ps
unfolding above
length-above [] qs h = refl
length-above (p ∷ ps) [] h = absurd (omega arith)
length-above (p ∷ ps) (q ∷ qs) h = ap suc (length-above ps qs (omega arith))

module _ (f : ℕ → ℕ → ℕ) (pred : ℕ → ℕ → ℕ → ℕ) (bpp best : ℕ) (cs ps out : Bytes)
    (r : IsRow bpp cs ps out) where
  abbrev head : Bytes
  head = first_row f (take bpp cs) (take bpp ps)

  abbrev tail : Bytes
  tail = row_rest pred (drop bpp cs) cs (above (drop bpp ps) ps)

  tail-Fit : Fit (drop bpp cs) cs (above (drop bpp ps) ps) (drop bpp out)
  tail-Fit =
      let c = length-drop bpp cs in
      let p = length-drop bpp ps in
      let o = length-drop bpp out in
      let pairs = length-above (drop bpp ps) ps (omega (arith, p)) in
      (omega arith, omega (arith, r.above_eq), omega (arith, r.above_eq, r.out_eq))

  -- A filter type whose score is below `best` is computed in full.
  pub candidate_below :
      score (full_row f pred bpp cs ps) < best
      → candidate f pred bpp best cs ps out
        ≡ (full_row f pred bpp cs ps, score (full_row f pred bpp cs ps))
  unfolding candidate full_row
  candidate_below h =
      let s = score-append head tail in
      let below : score head + score tail < best = omega arith in
      rw
        (
          first-first_row f 0 (take bpp cs) (take bpp ps),
          zero-add,
          scan_below pred best (score head) _ cs _ _ tail-Fit below,
        )
        (ap (λ n. (head ++ tail, n)) (omega arith))

  -- One whose score is not is not found to be below.
  pub candidate_above :
      best ≤ score (full_row f pred bpp cs ps) → best ≤ (candidate f pred bpp best cs ps out).1
  unfolding candidate full_row
  candidate_above h =
      let s = score-append head tail in
      rw (first-first_row f 0 (take bpp cs) (take bpp ps), zero-add)
        (scan_above pred best (score head) _ cs _ _ tail-Fit (omega arith))

pub none_sum_below :
    (best sum : ℕ) (cs : Bytes) → sum + score cs < best → none_sum best sum cs ≡ sum + score cs
unfolding none_sum
none_sum_below best sum [] h = omega arith
none_sum_below best sum (c ∷ cs) h = ground (arith, none_sum_below best (sum + abs8 c) cs)

pub none_sum_above :
    (best sum : ℕ) (cs : Bytes) → best ≤ sum + score cs → best ≤ none_sum best sum cs
unfolding none_sum
none_sum_above best sum [] h = omega arith
none_sum_above best sum (c ∷ cs) h = ground (arith, none_sum_above best (sum + abs8 c) cs)
