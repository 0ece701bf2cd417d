-- ===== src/Png/Interlace/Shapes.antt =====
-- internal/png/reader.go, readImagePass: the size of what it makes.
use srvfb.Base.{
  ℕ, zero, suc, ◌+◌, ◌*◌, ◌<◌, ◌≡◌, refl, ◌∙◌, ◌⊎◌, Bool, true, false, ◌||◌, Option, none, some,
  arith, ◌==◌, if◌then◌else◌, length, length-replicate,
}
use srvfb.Base.Bytes.{Bytes}
use srvfb.Base.Outcome.{Outcome, ok, err, panic, ◌>>=◌}
use srvfb.Png.Format.{Mode, Error}
use srvfb.Png.Canvas.{ImageType, Canvas, pixel_size, stride_of, new_canvas}
use srvfb.Png.Decoder.{Decoder}
use srvfb.Png.Raster.{Transparent, row_pixels, palette_after}
use srvfb.Png.Pass.{image_type, read_row, read_rows, read_size, read_pass, reduced, Scan}
use srvfb.Png.Interlace.Cells.{length-put}

-- What holds of a result, if there is one.
abbrev pub IfOk {ℓ} : {A : Type ℓ} → (A → Type 0) → Outcome Error A → Type 0
IfOk P (ok a) = P a
IfOk P (err e) = Unit {0}
IfOk P panic = Unit {0}

IfOk-bind {ℓ κ} :
    {A : Type ℓ} {B : Type κ} (P : B → Type 0) (m : Outcome Error A) (f : A → Outcome Error B)
    → ((a : A) → IfOk P (f a))
    → IfOk P (m >>= f)
IfOk-bind P (ok a) f h = h a
IfOk-bind P (err e) f h = tt
IfOk-bind P panic f h = tt

-- An image of this type and size.
pub record HasShape (kind : ImageType) (w h : ℕ) (im : Canvas) : Type 0 where
  pub kind_eq : im.kind ≡ kind
  pub width_eq : im.width ≡ w
  pub height_eq : im.height ≡ h
  pub size_eq : length im.pix ≡ w * pixel_size kind * h

module _ (kind : ImageType) (w h : ℕ) where
  read_rows-HasShape :
      (t : Transparent) (cb : Mode) (room bpp row_size n offset : ℕ) (pdat r : Bytes) (im : Canvas)
      → HasShape kind w h im
      → IfOk (λ a. HasShape kind w h (a.0)) (read_rows t cb room bpp row_size n offset pdat r im)
  unfolding read_rows
  read_rows-HasShape t cb room bpp row_size zero offset pdat r im s = s
  read_rows-HasShape t cb room bpp row_size (suc n) offset pdat r im s =
      IfOk-bind _ (read_row bpp row_size pdat r) _ (λ (cdat, rest).
        let row = row_pixels t cb im.width cdat in
        IfOk-bind _ (palette_after cb room im.palette_len row) _ (λ len.
          read_rows-HasShape t cb room bpp row_size n (offset + stride_of im) cdat rest _ (record {
            kind_eq = s.kind_eq;
            width_eq = s.width_eq;
            height_eq = s.height_eq;
            size_eq = length-put im.pix row offset ∙ s.size_eq;
          })))

-- A pass has no image if it is empty, and else one of its size.
abbrev pub PassShape : Decoder → Scan → Option Canvas → Type 0
PassShape d p none =
    (reduced d.width p.x_offset p.x_factor ≡ 0) ⊎ (reduced d.height p.y_offset p.y_factor ≡ 0)
PassShape d p (some s) =
    (0 < reduced d.width p.x_offset p.x_factor)
    × (0 < reduced d.height p.y_offset p.y_factor)
    × HasShape (image_type d.cb d.use_transparent) (reduced d.width p.x_offset p.x_factor)
        (reduced d.height p.y_offset p.y_factor) s

IfOk-if {ℓ} :
    {A : Type ℓ} (P : A → Type 0) (b : Bool) (m n : Outcome Error A)
    → (b ≡ true → IfOk P m)
    → (b ≡ false → IfOk P n)
    → IfOk P (if b then m else n)
IfOk-if P true m n h k = h refl
IfOk-if P false m n h k = k refl

-- Of a pass that is read, and of what is left of the data.
abbrev Passed : Decoder → Scan → Option Canvas × Bytes → Type 0
Passed d p (s, rest) = PassShape d p s

some-Passed :
    (d : Decoder) (p : Scan) (m : Outcome Error (Canvas × Bytes))
    → 0 < reduced d.width p.x_offset p.x_factor
    → 0 < reduced d.height p.y_offset p.y_factor
    → IfOk
        (λ a.
          HasShape
            (image_type d.cb d.use_transparent)
            (reduced d.width p.x_offset p.x_factor)
            (reduced d.height p.y_offset p.y_factor)
            (a.0))
        m
    → IfOk (Passed d p) (m >>= λ (im, rest). ok (some im, rest))
some-Passed d p (ok (im, rest)) a b s = (a, b, s)
some-Passed d p (err e) a b s = tt
some-Passed d p panic a b s = tt

read_pass-IfOk : (d : Decoder) (p : Scan) (r : Bytes) → IfOk (Passed d p) (read_pass d p r)
unfolding read_pass read_size
read_pass-IfOk d p r =
    let w = reduced d.width p.x_offset p.x_factor in
    let h = reduced d.height p.y_offset p.y_factor in
    IfOk-if _ (w == 0 || h == 0) _ _ (λ e. ground arith)
      (λ e. some-Passed d p _ (ground arith) (ground arith) (
        read_rows-HasShape (image_type d.cb d.use_transparent) w h _ d.cb _ _ _ h 0 _ r
          (new_canvas (image_type d.cb d.use_transparent) w h d.palette_len)
          (record {
            kind_eq = refl;
            width_eq = refl;
            height_eq = refl;
            size_eq = length-replicate _ 0;
          })))

pub read_pass-Shape :
    (d : Decoder) (p : Scan) (r rest : Bytes) (s : Option Canvas)
    → read_pass d p r ≡ ok (s, rest)
    → PassShape d p s
read_pass-Shape d p r rest s e = rw e at (read_pass-IfOk d p r)
