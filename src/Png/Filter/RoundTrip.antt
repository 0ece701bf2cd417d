-- ===== src/Png/Filter/RoundTrip.antt =====
-- internal/png/reader.go, readImagePass: undoing the filter of a row, and that it gives back the row
-- that internal/png/writer.go filtered.
use srvfb.Base.{
  ℕ, zero, suc, ◌/◌, ◌^◌, ◌≤◌, ◌<◌, ◌≡◌, refl, ap, ap₂, ◌∙◌, List, [], ◌∷◌, ◌++◌, append_assoc,
  arith, length, length-append, take, drop, take-append-drop, length-take, length-drop,
}
use srvfb.Base.Bytes.{Bytes, take-append_length, drop-append_length}
use srvfb.Png.Paeth.{paeth}
use srvfb.Png.Filter.{
  FilterType, ft_none, ft_sub, ft_up, ft_average, ft_paeth, sub8, add8, above, left, average,
}
use srvfb.Png.Filter.Scan.{length-above, first_row, row_rest, full_row}
use srvfb.Png.Filter.Choice.{filtered}

-- `for i, p := range pdat { cdat[i] += p }`, and the loops over the first pixel: it writes
-- f(cdat[i], pdat[i]).
unfoldable pub undo_first : (ℕ → ℕ → ℕ) → Bytes → Bytes → Bytes
undo_first f [] ps = []
undo_first f (x ∷ xs) [] = []
undo_first f (x ∷ xs) (p ∷ ps) = f x p ∷ undo_first f xs ps

-- `for i := bytesPerPixel; i < len(cdat); i++`: the bytes cdat[i-bpp:i] are already undone; the
-- lists are these bytes, cdat[i:], and the pairs of pdat[i] and pdat[i-bpp].
unfoldable pub undo_rest : (ℕ → ℕ → ℕ → ℕ) → Bytes → Bytes → List (ℕ × ℕ) → Bytes
undo_rest pred ls [] pq = []
undo_rest pred [] (x ∷ xs) pq = []
undo_rest pred (l ∷ ls) (x ∷ xs) [] = []
undo_rest pred (l ∷ ls) (x ∷ xs) ((p, q) ∷ pq) =
    let c = add8 x (pred l p q) in c ∷ undo_rest pred (ls ++ (c ∷ [])) xs pq

unfoldable pub undo_row : (ℕ → ℕ → ℕ) → (ℕ → ℕ → ℕ → ℕ) → ℕ → Bytes → Bytes → Bytes
undo_row f pred bpp xs ps =
    let head = undo_first f (take bpp xs) (take bpp ps) in
    head ++ undo_rest pred head (drop bpp xs) (above (drop bpp ps) ps)

-- The `switch cr[0]` of readImagePass. filterPaeth goes through the row once for each byte of a pixel,
-- in steps of a pixel; no two of these passes touch the same byte, and here they run side by side.
unfoldable pub undo : FilterType → ℕ → Bytes → Bytes → Bytes
unfolding undo_row
undo ft_none bpp xs ps = xs
undo ft_sub bpp xs ps = undo_row (λ x p. x) left bpp xs ps
undo ft_up bpp xs ps = undo_first add8 xs ps
undo ft_average bpp xs ps = undo_row (λ x p. add8 x (p / 2)) average bpp xs ps
undo ft_paeth bpp xs ps = undo_row add8 paeth bpp xs ps

abbrev pub IsByte : ℕ → Type 0
IsByte b = b < 2 ^ 8

abbrev pub AllBytes : Bytes → Type 0
AllBytes [] = Unit {0}
AllBytes (b ∷ bs) = IsByte b × AllBytes bs

abbrev AllPairs : List (ℕ × ℕ) → Type 0
AllPairs [] = Unit {0}
AllPairs ((p, q) ∷ pq) = IsByte p × IsByte q × AllPairs pq

pub AllBytes-append : (xs ys : Bytes) → AllBytes xs → AllBytes ys → AllBytes (xs ++ ys)
AllBytes-append [] ys h k = k
AllBytes-append (x ∷ xs) ys (h, hs) k = (h, AllBytes-append xs ys hs k)

pub AllBytes-take : (n : ℕ) (xs : Bytes) → AllBytes xs → AllBytes (take n xs)
AllBytes-take zero xs h = tt
AllBytes-take (suc n) [] h = tt
AllBytes-take (suc n) (x ∷ xs) (h, hs) = (h, AllBytes-take n xs hs)

pub AllBytes-drop : (n : ℕ) (xs : Bytes) → AllBytes xs → AllBytes (drop n xs)
AllBytes-drop zero xs h = h
AllBytes-drop (suc n) [] h = tt
AllBytes-drop (suc n) (x ∷ xs) (h, hs) = AllBytes-drop n xs hs

above-AllPairs : (ps qs : Bytes) → AllBytes ps → AllBytes qs → AllPairs (above ps qs)
unfolding above
above-AllPairs [] qs h k = tt
above-AllPairs (p ∷ ps) [] h k = tt
above-AllPairs (p ∷ ps) (q ∷ qs) (h, hs) (k, ks) = (h, k, above-AllPairs ps qs hs ks)

-- A prediction from bytes is a byte.
abbrev Predicts : (ℕ → ℕ → ℕ → ℕ) → Type 0
Predicts pred = (l p q : ℕ) → IsByte l → IsByte p → IsByte q → IsByte (pred l p q)

add8-sub8 : (c v : ℕ) → IsByte c → IsByte v → add8 (sub8 c v) v ≡ c
add8-sub8 c v h k = omega arith

undo_rest-row_rest :
    (pred : ℕ → ℕ → ℕ → ℕ) (ls cs : Bytes) (pq : List (ℕ × ℕ))
    → Predicts pred
    → AllBytes ls
    → AllBytes cs
    → AllPairs pq
    → 0 < length ls
    → length cs ≤ length pq
    → undo_rest pred ls (row_rest pred cs (ls ++ cs) pq) pq ≡ cs
unfolding undo_rest row_rest
undo_rest-row_rest pred ls [] pq f bl bc bp n h = refl
undo_rest-row_rest pred [] (c ∷ cs) pq f bl bc bp n h = absurd (omega arith)
undo_rest-row_rest pred (l ∷ ls) (c ∷ cs) [] f bl bc bp n h = absurd (omega arith)
undo_rest-row_rest pred (l ∷ ls) (c ∷ cs) ((p, q) ∷ pq) f (bl, bls) (bc, bcs) (bp, bq, bps) n h =
    rw (add8-sub8 c (pred l p q) bc (f l p q bl bp bq)) (
      ap (◌∷◌ c) (
        rw (append_assoc ls (c ∷ []) cs) at (
          undo_rest-row_rest pred (ls ++ (c ∷ [])) cs pq f
            (AllBytes-append ls (c ∷ []) bls (bc, tt)) bcs bps
            (omega (arith, length-append ls (c ∷ []))) (omega arith))))

undo_first-first_row :
    (f g : ℕ → ℕ → ℕ)
    → ((c p : ℕ) → IsByte c → IsByte p → g (f c p) p ≡ c)
    → (cs ps : Bytes) → AllBytes cs
    → AllBytes ps
    → length cs ≤ length ps
    → undo_first g (first_row f cs ps) ps ≡ cs
unfolding undo_first first_row
undo_first-first_row f g e [] ps bc bp h = refl
undo_first-first_row f g e (c ∷ cs) [] bc bp h = absurd (omega arith)
undo_first-first_row f g e (c ∷ cs) (p ∷ ps) (bc, bcs) (bp, bps) h =
    ap₂ ◌∷◌ (e c p bc bp) (undo_first-first_row f g e cs ps bcs bps (omega arith))

pub length-first_row :
    (f : ℕ → ℕ → ℕ) (cs ps : Bytes) → length cs ≤ length ps → length (first_row f cs ps) ≡ length cs
unfolding first_row
length-first_row f [] ps h = refl
length-first_row f (c ∷ cs) [] h = absurd (omega arith)
length-first_row f (c ∷ cs) (p ∷ ps) h = ap suc (length-first_row f cs ps (omega arith))

-- The row has a whole pixel, as has the row above, and both hold bytes.
pub record IsRowPair (bpp : ℕ) (cs ps : Bytes) : Type 0 where
  pub positive : 0 < bpp
  pub pixel : bpp ≤ length cs
  pub same : length ps ≡ length cs
  pub cur_bytes : AllBytes cs
  pub above_bytes : AllBytes ps

split_at :
    (n : ℕ) (xs ys : Bytes) → length xs ≡ n → (take n (xs ++ ys) ≡ xs) × (drop n (xs ++ ys) ≡ ys)
split_at n xs ys h = rw (← h) (take-append_length xs ys, drop-append_length xs ys)

module _ {bpp : ℕ} {cs ps : Bytes} (r : IsRowPair bpp cs ps) where
  undo_row-full_row :
      (f g : ℕ → ℕ → ℕ) (pred : ℕ → ℕ → ℕ → ℕ)
      → ((c p : ℕ) → IsByte c → IsByte p → g (f c p) p ≡ c)
      → Predicts pred
      → undo_row g pred bpp (full_row f pred bpp cs ps) ps ≡ cs
  unfolding undo_row full_row
  undo_row-full_row f g pred e b =
      let a = length-take bpp cs in
      let a' = length-take bpp ps in
      let d = length-drop bpp cs in
      let d' = length-drop bpp ps in
      let n : length (first_row f (take bpp cs) (take bpp ps)) ≡ bpp =
        omega (
          arith,
          length-first_row f (take bpp cs) (take bpp ps) (omega (arith, r.same)),
          r.pixel,
        ) in
      let (front, back) =
        split_at bpp (first_row f (take bpp cs) (take bpp ps))
          (row_rest pred (drop bpp cs) cs (above (drop bpp ps) ps)) n in
      let head =
        undo_first-first_row f g e (take bpp cs) (take bpp ps) (AllBytes-take bpp cs r.cur_bytes)
          (AllBytes-take bpp ps r.above_bytes) (omega (arith, r.same)) in
      let pairs = above (drop bpp ps) ps in
      let rest =
        undo_rest-row_rest pred (take bpp cs) (drop bpp cs) pairs b
          (AllBytes-take bpp cs r.cur_bytes) (AllBytes-drop bpp cs r.cur_bytes)
          (above-AllPairs (drop bpp ps) ps (AllBytes-drop bpp ps r.above_bytes) r.above_bytes)
          (omega (arith, r.positive, r.pixel))
          (omega (arith, length-above (drop bpp ps) ps, r.same)) in
      rw (front, back, head)
        (ap (λ xs. take bpp cs ++ xs) (rw (take-append-drop bpp cs) at rest)
          ∙ take-append-drop bpp cs)

  paeth-Predicts : Predicts paeth
  unfolding paeth
  paeth-Predicts l p q a b c = ground arith

  -- For a row and the one above it, both of the same number of bytes below 256, which is at least
  -- that of a pixel, at least one: undoing a filter gives back the row that was filtered with it, for
  -- each of the five types.
  pub undo-filtered : (ft : FilterType) → undo ft bpp (filtered ft bpp cs ps) ps ≡ cs
  unfolding undo
  undo-filtered ft_none = refl
  undo-filtered ft_up =
      undo_first-first_row sub8 add8 add8-sub8 cs ps r.cur_bytes r.above_bytes
        (omega (arith, r.same))
  undo-filtered ft_sub =
      undo_row-full_row (λ c p. c) (λ x p. x) left (λ c p h k. refl) (λ l p q a b c. a)
  undo-filtered ft_average =
      undo_row-full_row (λ c p. sub8 c (p / 2)) (λ x p. add8 x (p / 2)) average
        (λ c p h k. omega arith) (λ l p q a b c. omega arith)
  undo-filtered ft_paeth = undo_row-full_row sub8 add8 paeth add8-sub8 paeth-Predicts
