-- ===== src/Png/RoundTrip/Draw.antt =====
-- internal/png/reader.go, readImagePass: the rows fill the Pix of an image.
use srvfb.Base.{
  ℕ, zero, suc, ◌+◌, ◌*◌, ◌≤◌, ◌≡◌, refl, ap, ◌∙◌, List, [], ◌∷◌, ◌++◌, map, append_assoc, arith,
  length, length-append, take, drop, replicate, length-replicate,
}
use srvfb.Base.Bytes.{Bytes, take-append_length, drop-append_length}
use srvfb.Base.Outcome.{ok}
use srvfb.Png.Format.{Mode}
use srvfb.Png.Raster.{Transparent, row_pixels, palette_after}
use srvfb.Png.Canvas.{Canvas, stride_of}
use srvfb.Png.Pass.{put}
use srvfb.Png.RoundTrip.Rows.{draw}

-- Lines one after the other.
abbrev pub flatten : List Bytes → Bytes
flatten [] = []
flatten (b ∷ bs) = b ++ flatten bs

-- All lines have one length.
abbrev pub AllLong : ℕ → List Bytes → Type 0
AllLong n [] = Unit {0}
AllLong n (b ∷ bs) = (length b ≡ n) × AllLong n bs

abbrev zeros : ℕ → Bytes
zeros n = replicate n 0

drop-zeros : (i m k : ℕ) → m ≡ i + k → drop i (zeros m) ≡ zeros k
drop-zeros zero m k e = ap zeros (omega arith)
drop-zeros (suc i) zero k e = absurd (omega arith)
drop-zeros (suc i) (suc m) k e = drop-zeros i m k (omega arith)

pub take-all : (n : ℕ) (xs : Bytes) → length xs ≤ n → take n xs ≡ xs
take-all zero [] h = refl
take-all zero (x ∷ xs) h = absurd (omega arith)
take-all (suc n) [] h = refl
take-all (suc n) (x ∷ xs) h = ap (◌∷◌ x) (take-all n xs (omega arith))

-- A row that is put behind those already drawn.
put-row :
    (done row : Bytes) (k : ℕ)
    → put (done ++ zeros (length row + k)) (length done) row ≡ (done ++ row) ++ zeros k
put-row done row k =
    let blank = zeros (length row + k) in
    let fits : length row ≤ length blank = omega (arith, length-replicate (length row + k) zero) in
    rw (
      take-append_length done blank,
      drop-append_length done blank,
      take-all (length blank) row fits,
      drop-zeros (length row) (length row + k) k refl,
      append_assoc done row (zeros k),
    )

module _ (t : Transparent) (cb : Mode) (room : ℕ) where
  -- The palette is long enough for the pixels of the rows.
  abbrev pub AllCovered : ℕ → List Bytes → Type 0
  AllCovered len [] = Unit {0}
  AllCovered len (row ∷ rows) = (palette_after cb room len row ≡ ok len) × AllCovered len rows

  draw_from :
      (css : List Bytes) (im : Canvas) (done : Bytes)
      → AllLong (stride_of im) (map (row_pixels t cb im.width) css)
      → AllCovered im.palette_len (map (row_pixels t cb im.width) css)
      → im.pix ≡ done ++ replicate (length css * stride_of im) 0
      → draw t cb room css (length done) im
        ≡ ok (record im { pix = done ++ flatten (map (row_pixels t cb im.width) css) })
  unfolding draw
  draw_from [] im done h a e =
      let none : 0 * stride_of im ≡ 0 = omega arith in
      ap (λ p. ok (record im { pix = p })) (rw none at e)
  draw_from (c ∷ css) im done (l, h) (a, as_) e =
      let row = row_pixels t cb im.width c in
      let k = length css * stride_of im in
      let size : suc (length css) * stride_of im ≡ length row + k = grind arith in
      let pixels : put im.pix (length done) row ≡ (done ++ row) ++ zeros k =
        rw (e, size) (put-row done row k) in
      let further : length done + stride_of im ≡ length (done ++ row) =
        omega (arith, length-append done row) in
      rw (a, pixels, further)
        (draw_from css (record im { pix = (done ++ row) ++ zeros k }) (done ++ row) h as_ refl
          ∙ ap (λ p. ok (record im { pix = p })) (append_assoc done row _))

  -- With a palette that is long enough, drawing fills a new image with the lines.
  pub draw-new :
      (css : List Bytes) (im : Canvas)
      → AllLong (stride_of im) (map (row_pixels t cb im.width) css)
      → AllCovered im.palette_len (map (row_pixels t cb im.width) css)
      → im.pix ≡ replicate (stride_of im * length css) 0
      → draw t cb room css 0 im
        ≡ ok (record im { pix = flatten (map (row_pixels t cb im.width) css) })
  draw-new css im h a e = draw_from css im [] h a (e ∙ ap (λ k. zeros k) (grind arith))
