-- ===== src/Png/Interlace/Pixels.antt =====
-- internal/png/reader.go, decode: the pixels of an interlaced image.
use srvfb.Base.{
  ℕ, zero, suc, ◌+◌, ◌*◌, ◌/◌, ◌<◌, ◌≡◌, refl, ap, ◌∙◌, Option, none, some, List, [], ◌∷◌, arith,
  length, get_or, length-replicate,
}
use srvfb.Base.Bytes.{Bytes}
use srvfb.Base.Outcome.{ok}
use srvfb.Png.Canvas.{Canvas}
use srvfb.Png.Decoder.{Decoder}
use srvfb.Png.Pass.{reduced, Scan, interlacing, read_pass, allocate}
use srvfb.Png.Interlace.{merge_some, read_passes, read_interlaced}
use srvfb.Png.Interlace.Cells.{cell}
use srvfb.Png.Interlace.Passes.{Places, pass_of, pass_scan, pass-inside, passes_partition}
use srvfb.Png.Interlace.Shapes.{HasShape, read_pass-Shape}
use srvfb.Png.Interlace.Into.{Fits, kind, size, merge_some-HasShape, merge_some-ne, into-cell}

module _ (d : Decoder) where
  -- The images of the passes, read one after the other, and what is left of the data.
  abbrev pub AreRead : List Scan → Bytes → List (Option Canvas) → Bytes → Type 0
  AreRead [] r [] r' = r ≡ r'
  AreRead (p ∷ ps) r (s ∷ ss) r' =
      (next : Bytes) × (read_pass d p r ≡ ok (s, next)) × AreRead ps next ss r'
  AreRead [] r (s ∷ ss) r' = ⊥
  AreRead (p ∷ ps) r [] r' = ⊥

  abbrev AllFit : List Scan → Type 0
  AllFit [] = Unit {0}
  AllFit (p ∷ ps) = Fits p d.width d.height × AllFit ps

  abbrev merge_all : Canvas → List Scan → List (Option Canvas) → Canvas
  merge_all img (p ∷ ps) (s ∷ ss) = merge_all (merge_some img s p) ps ss
  merge_all img _ _ = img

  read_passes-merge_all :
      (ps : List Scan) (img : Canvas) (r r' : Bytes) (ss : List (Option Canvas))
      → AreRead ps r ss r'
      → read_passes d ps img r ≡ ok (merge_all img ps ss, r')
  unfolding read_passes
  read_passes-merge_all [] img r r' [] e = ap (λ x. ok (img, x)) e
  read_passes-merge_all [] img r r' (s ∷ ss) e = absurd e
  read_passes-merge_all (p ∷ ps) img r r' [] e = absurd e
  read_passes-merge_all (p ∷ ps) img r r' (s ∷ ss) (next, e, es) =
      rw (e, read_passes) (read_passes-merge_all ps (merge_some img s p) next r' ss es)

  merge_all-HasShape :
      (ps : List Scan) (img : Canvas) (r r' : Bytes) (ss : List (Option Canvas))
      → AreRead ps r ss r'
      → AllFit ps
      → HasShape (kind d) d.width d.height img
      → HasShape (kind d) d.width d.height (merge_all img ps ss)
  merge_all-HasShape [] img r r' ss e f h = h
  merge_all-HasShape (p ∷ ps) img r r' [] e f h = h
  merge_all-HasShape (p ∷ ps) img r r' (s ∷ ss) (next, e, es) (f, fs) h =
      merge_all-HasShape ps (merge_some img s p) next r' ss es fs
        (merge_some-HasShape d p f img s h (read_pass-Shape d p r next s e))

  -- A pixel at no place of any pass is as it was.
  merge_all-ne :
      (ps : List Scan) (img : Canvas) (r r' : Bytes) (ss : List (Option Canvas)) (X Y b : ℕ)
      → AreRead ps r ss r'
      → AllFit ps
      → HasShape (kind d) d.width d.height img
      → b < size d
      → X < d.width
      → ((k i j : ℕ) → k < length ps → Places (get_or ps k (pass_scan 7)) i j X Y → ⊥)
      → cell (size d) (merge_all img ps ss).pix (Y * d.width + X) b
        ≡ cell (size d) img.pix (Y * d.width + X) b
  merge_all-ne [] img r r' ss X Y b e f h k x o = refl
  merge_all-ne (p ∷ ps) img r r' [] X Y b e f h k x o = refl
  merge_all-ne (p ∷ ps) img r r' (s ∷ ss) X Y b (next, e, es) (f, fs) h k x o =
      let shape = read_pass-Shape d p r next s e in
      merge_all-ne ps (merge_some img s p) next r' ss X Y b es fs
        (merge_some-HasShape d p f img s h shape) k x (λ m i j l. o (suc m) i j (omega arith))
      ∙ merge_some-ne d p f img s X Y b h shape k x (λ i j. o 0 i j (omega arith))

  -- A pixel at a place of one pass, and at none of the passes behind it, is the pixel of that pass.
  merge_all-cell :
      (ps : List Scan) (img : Canvas) (r r' : Bytes) (ss : List (Option Canvas)) (X Y b k i j : ℕ)
      → AreRead ps r ss r'
      → AllFit ps
      → HasShape (kind d) d.width d.height img
      → b < size d
      → X < d.width
      → k < length ps
      → let p = get_or ps k (pass_scan 7) in
        Places p i j X Y
        → i < reduced d.width p.x_offset p.x_factor
        → j < reduced d.height p.y_offset p.y_factor
        → ((m i j : ℕ) → k < m → m < length ps → Places (get_or ps m (pass_scan 7)) i j X Y → ⊥)
        → (im : Canvas) × (get_or ss k none ≡ some im)
          × (cell (size d) (merge_all img ps ss).pix (Y * d.width + X) b
              ≡ cell (size d) im.pix (j * reduced d.width p.x_offset p.x_factor + i) b)
  merge_all-cell [] img r r' ss X Y b k i j e f h l x n q a c o = absurd (omega (arith, n))
  merge_all-cell (p ∷ ps) img r r' [] X Y b k i j e f h l x n q a c o = absurd e
  merge_all-cell (p ∷ ps) img r r' (none ∷ ss) X Y b zero i j (next, e, es) (f, fs) h l x n q a c
        o =
      absurd (ground (arith, read_pass-Shape d p r next none e))
  merge_all-cell (p ∷ ps) img r r' (some im ∷ ss) X Y b zero i j (next, e, es) (f, fs) h l x n q a c
        o =
      let (w, t, src) = read_pass-Shape d p r next (some im) e in
      (
        im,
        refl,
        merge_all-ne ps (merge_some img (some im) p) next r' ss X Y b es fs
              (merge_some-HasShape d p f img (some im) h (w, t, src)) l x
              (λ m i' j' g. o (suc m) i' j' (omega arith) (omega arith))
            ∙ unfold merge_some in into-cell d p f img im h src t w X Y i j b l q a c,
      )
  merge_all-cell (p ∷ ps) img r r' (s ∷ ss) X Y b (suc k) i j (next, e, es) (f, fs) h l x n q a c
        o =
      merge_all-cell ps (merge_some img s p) next r' ss X Y b k i j es fs
        (merge_some-HasShape d p f img s h (read_pass-Shape d p r next s e)) l x (omega arith) q a c
        (λ m i' j' g g'. o (suc m) i' j' (omega arith) (omega arith))

  interlacing-AllFit : 0 < d.width → 0 < d.height → AllFit interlacing
  interlacing-AllFit w h = (
    fits 0 (omega arith) (omega arith) (omega arith),
    (
      fits 1 (omega arith) (omega arith) (omega arith),
      (
        fits 2 (omega arith) (omega arith) (omega arith),
        (
          fits 3 (omega arith) (omega arith) (omega arith),
          (
            fits 4 (omega arith) (omega arith) (omega arith),
            (
              fits 5 (omega arith) (omega arith) (omega arith),
              (fits 6 (omega arith) (omega arith) (omega arith), tt),
            ),
          ),
        ),
      ),
    ),
  )
    where
      fits :
          (k : ℕ)
          → k < 7
          → 0 < (pass_scan k).x_factor
          → 0 < (pass_scan k).y_factor
          → Fits (pass_scan k) d.width d.height
      fits k l a b = record {
        x_pos = a;
        y_pos = b;
        inside = λ i j. pass-inside k i j d.width d.height l w h;
      }

  allocate-HasShape : HasShape (kind d) d.width d.height (allocate d)
  allocate-HasShape = record {
    kind_eq = refl;
    width_eq = refl;
    height_eq = refl;
    size_eq = length-replicate _ 0;
  }

  -- Of an interlaced image whose seven passes can be read, decode makes an image of its size and
  -- type, and each byte of each pixel is that of one pixel of one pass: the pass is the one that has
  -- the pixel's place (pass_of), and the pixel's column and line in it are the column and the line in
  -- the image, divided by the factors of the pass.
  pub read_interlaced-pixels :
      (r r' : Bytes) (ss : List (Option Canvas)) (X Y b : ℕ)
      → AreRead interlacing r ss r'
      → X < d.width
      → Y < d.height
      → b < size d
      → let p = pass_scan (pass_of X Y) in
        let w = reduced d.width p.x_offset p.x_factor in
        (img : Canvas) × (im : Canvas) × (read_interlaced d r ≡ ok (some img, r'))
        × HasShape (kind d) d.width d.height img
        × (get_or ss (pass_of X Y) none ≡ some im)
        × (cell (size d) img.pix (Y * d.width + X) b
            ≡ cell (size d) im.pix (Y / p.y_factor * w + X / p.x_factor) b)
  unfolding read_interlaced
  read_interlaced-pixels r r' ss X Y b read x y l =
      let fit = interlacing-AllFit (omega arith) (omega arith) in
      let at = λ (m i j : ℕ) (g : m < 7). passes_partition d.width d.height X Y m i j x y g in
      let (k, q, a, c) = (at 0 0 0 (omega arith)).0 in
      let (im, e, same) =
        merge_all-cell interlacing (allocate d) r r' ss X Y b (pass_of X Y) _ _ read fit
          allocate-HasShape l x k q a c
          (λ m i j g g' t. let e = (((at m i j g').1).0 t).0 in absurd (omega (arith, e, g))) in
      (
        merge_all (allocate d) interlacing ss,
        im,
        rw (read_passes-merge_all interlacing (allocate d) r r' ss read) refl,
        merge_all-HasShape interlacing (allocate d) r r' ss read fit allocate-HasShape,
        e,
        same,
      )
