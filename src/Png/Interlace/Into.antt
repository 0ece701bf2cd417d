-- ===== src/Png/Interlace/Into.antt =====
-- internal/png/reader.go, mergePassInto: the pixels of an image after a pass is merged into it.
use srvfb.Base.{ℕ, ◌+◌, ◌*◌, ◌≤◌, ◌<◌, ◌≡◌, refl, ap, ◌∙◌, Option, none, some, arith, length}
use srvfb.Png.Canvas.{Canvas, ImageType, pixel_size}
use srvfb.Png.Decoder.{Decoder}
use srvfb.Png.Pass.{image_type, reduced, Scan}
use srvfb.Png.Interlace.{merge_lines, merge_pass_into, merge_some}
use srvfb.Png.Interlace.Cells.{cell}
use srvfb.Png.Interlace.Merge.{merge_lines-length, merge_lines-ne, merge_lines-cell}
use srvfb.Png.Interlace.Passes.{Places}
use srvfb.Png.Interlace.Shapes.{HasShape, PassShape}

-- The pixels of a pass are pixels of the image.
pub record Fits (p : Scan) (w h : ℕ) : Type 0 where
  pub x_pos : 0 < p.x_factor
  pub y_pos : 0 < p.y_factor
  pub inside :
      (i j : ℕ)
      → i < reduced w p.x_offset p.x_factor
      → j < reduced h p.y_offset p.y_factor
      → (i * p.x_factor + p.x_offset < w) × (j * p.y_factor + p.y_offset < h)

module _ (d : Decoder) where
  abbrev pub kind : ImageType
  kind = image_type d.cb d.use_transparent

  abbrev pub size : ℕ
  size = pixel_size kind

  module _ (p : Scan) (f : Fits p d.width d.height) where
    abbrev w : ℕ
    w = reduced d.width p.x_offset p.x_factor

    abbrev h : ℕ
    h = reduced d.height p.y_offset p.y_factor

    module _ (img im : Canvas) (dst : HasShape kind d.width d.height img)
        (src : HasShape kind w h im) where
      merge_pass_into-eq :
          (merge_pass_into img im p).pix ≡ merge_lines p size (d.width * size) w h 0 im.pix img.pix
      unfolding merge_pass_into
      merge_pass_into-eq = rw (dst.kind_eq, dst.width_eq, src.width_eq, src.height_eq) refl

      whole : d.height * d.width * size ≤ length img.pix
      whole =
          let e : d.height * d.width * size ≡ d.width * size * d.height = grind arith in
          omega (arith, e, dst.size_eq)

      long : h * w * size ≤ length im.pix
      long = let e : h * w * size ≡ w * size * h = grind arith in omega (arith, e, src.size_eq)

      module _ (some_line : 0 < h) (some_column : 0 < w) where
        columns : (i : ℕ) → i < w → i * p.x_factor + p.x_offset < d.width
        columns i a = (f.inside i 0 a some_line).0

        lines : (j : ℕ) → 0 ≤ j → j < 0 + h → j * p.y_factor + p.y_offset < d.height
        lines j _ a = (f.inside 0 j some_column (omega arith)).1

        into-HasShape : HasShape kind d.width d.height (merge_pass_into img im p)
        unfolding merge_pass_into
        into-HasShape = record {
          kind_eq = dst.kind_eq;
          width_eq = dst.width_eq;
          height_eq = dst.height_eq;
          size_eq =
              ap length merge_pass_into-eq
              ∙ merge_lines-length p size d.width d.height w f.x_pos f.y_pos columns h 0 im.pix
                  img.pix long whole lines
              ∙ dst.size_eq;
        }

        into-ne :
            (X Y b : ℕ)
            → b < size
            → X < d.width
            → ((i j : ℕ) → Places p i j X Y → ⊥)
            → cell size (merge_pass_into img im p).pix (Y * d.width + X) b
              ≡ cell size img.pix (Y * d.width + X) b
        into-ne X Y b k x o =
            ap (λ q. cell size q (Y * d.width + X) b) merge_pass_into-eq
            ∙ merge_lines-ne p size d.width d.height w f.x_pos f.y_pos columns h 0 X Y b im.pix
                img.pix long whole lines k x (λ i j _ _ _ e g. o i j (e, g))

        pub into-cell :
            (X Y i j b : ℕ)
            → b < size
            → Places p i j X Y
            → i < w
            → j < h
            → cell size (merge_pass_into img im p).pix (Y * d.width + X) b
              ≡ cell size im.pix (j * w + i) b
        into-cell X Y i j b k (e, g) a c =
            let z : 0 + j ≡ j = omega arith in
            ap (λ q. cell size q (Y * d.width + X) b) merge_pass_into-eq
            ∙ rw (e, g)
                (rw z at (
                  merge_lines-cell p size d.width d.height w f.x_pos f.y_pos columns h 0 i j b
                    im.pix img.pix long whole lines k a c))

    pub merge_some-HasShape :
        (img : Canvas) (s : Option Canvas)
        → HasShape kind d.width d.height img
        → PassShape d p s
        → HasShape kind d.width d.height (merge_some img s p)
    unfolding merge_some
    merge_some-HasShape img none dst s = dst
    merge_some-HasShape img (some im) dst (a, b, s) = into-HasShape img im dst s b a

    pub merge_some-ne :
        (img : Canvas) (s : Option Canvas) (X Y b : ℕ)
        → HasShape kind d.width d.height img
        → PassShape d p s
        → b < size
        → X < d.width
        → ((i j : ℕ) → Places p i j X Y → ⊥)
        → cell size (merge_some img s p).pix (Y * d.width + X) b
          ≡ cell size img.pix (Y * d.width + X) b
    unfolding merge_some
    merge_some-ne img none X Y b dst s k x o = refl
    merge_some-ne img (some im) X Y b dst (a, c, s) k x o = into-ne img im dst s c a X Y b k x o
