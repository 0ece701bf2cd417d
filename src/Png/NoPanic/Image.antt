-- ===== src/Png/NoPanic/Image.antt =====
-- internal/png/reader.go, readImagePass and decode: reading an image from bytes does not panic.
use srvfb.Base.{
  ℕ, zero, suc, ◌+◌, ◌-◌, ◌*◌, ◌/◌, ◌≤◌, ◌≡◌, true, ◌||◌, List, [], ◌∷◌, ◌==◌, length, replicate,
}
use srvfb.Base.Bytes.{Bytes}
use srvfb.Png.Canvas.{Canvas, stride_of, new_canvas}
use srvfb.Png.Format.{Mode, cb_paletted}
use srvfb.Png.Filter.RoundTrip.{AllBytes}
use srvfb.Png.Decoder.{Decoder}
use srvfb.Png.Raster.{Transparent, transparent_of, row_pixels, palette_after}
use srvfb.Png.Pass.{
  bits_per_pixel, image_type, read_row, put, read_rows, Scan, interlacing, allocate, reduced,
  read_size, read_pass,
}
use srvfb.Png.Interlace.{merge_some, read_passes, read_interlaced, read_image}
use srvfb.Png.Stages.{HasArray, Holds, Holds-bind, Holds-if}
use srvfb.Png.NoPanic.Rows.{BothBytes, read_row-Holds, palette_after-Holds}

-- What is left of the data is made of bytes.
abbrev LeavesBytes {ℓ} : {A : Type ℓ} → A × Bytes → Type 0
LeavesBytes (a, rest) = AllBytes rest

read_rows-Holds :
    (t : Transparent) (cb : Mode) (room bpp row_size n offset : ℕ) (pdat r : Bytes) (im : Canvas)
    → (cb_paletted cb ≡ true → 256 ≤ room)
    → AllBytes r
    → Holds LeavesBytes (read_rows t cb room bpp row_size n offset pdat r im)
unfolding read_rows
read_rows-Holds t cb room bpp row_size zero offset pdat r im h b = b
read_rows-Holds t cb room bpp row_size (suc n) offset pdat r im h b =
    Holds-bind BothBytes LeavesBytes (read_row bpp row_size pdat r) _
      (read_row-Holds bpp row_size pdat r b)
      (λ (cdat, rest) (c, k).
        Holds-bind (λ _. Unit {0}) LeavesBytes
          (palette_after cb room im.palette_len (row_pixels t cb im.width cdat)) _
          (palette_after-Holds t cb room im.palette_len im.width cdat h c)
          (λ len _.
            read_rows-Holds t cb room bpp row_size n (offset + stride_of im) cdat rest
              (record im {
                pix = put im.pix offset (row_pixels t cb im.width cdat);
                palette_len = len;
              })
              h k))

read_size-Holds :
    (d : Decoder) (w h : ℕ) (r : Bytes)
    → HasArray d
    → AllBytes r
    → Holds LeavesBytes (read_size d w h r)
unfolding read_size
read_size-Holds d w h r a b =
    let bits = bits_per_pixel d.cb d.depth in
    let row_size = 1 + (bits * w + 7) / 8 in
    let t = transparent_of d.use_transparent d.transparent in
    let pdat = replicate (row_size - 1) 0 in
    let im = new_canvas (image_type d.cb d.use_transparent) w h d.palette_len in
    Holds-bind LeavesBytes LeavesBytes
      (read_rows t d.cb (length d.palette) ((bits + 7) / 8) row_size h 0 pdat r im) _
      (read_rows-Holds t d.cb (length d.palette) ((bits + 7) / 8) row_size h 0 pdat r im a b)
      (λ (im', rest) k. k)

read_pass-Holds :
    (d : Decoder) (p : Scan) (r : Bytes)
    → HasArray d
    → AllBytes r
    → Holds LeavesBytes (read_pass d p r)
unfolding read_pass
read_pass-Holds d p r a b =
    let w = reduced d.width p.x_offset p.x_factor in
    let h = reduced d.height p.y_offset p.y_factor in
    Holds-if LeavesBytes (w == 0 || h == 0) _ _ (λ _. b) (λ _. read_size-Holds d w h r a b)

read_passes-Holds :
    (d : Decoder) (ps : List Scan) (img : Canvas) (r : Bytes)
    → HasArray d
    → AllBytes r
    → Holds LeavesBytes (read_passes d ps img r)
unfolding read_passes
read_passes-Holds d [] img r a b = b
read_passes-Holds d (p ∷ ps) img r a b =
    Holds-bind LeavesBytes LeavesBytes (read_pass d p r) _ (read_pass-Holds d p r a b)
      (λ (pass, rest) k. read_passes-Holds d ps (merge_some img pass p) rest a k)

read_interlaced-Holds :
    (d : Decoder) (r : Bytes) → HasArray d → AllBytes r → Holds LeavesBytes (read_interlaced d r)
unfolding read_interlaced
read_interlaced-Holds d r a b =
    Holds-bind LeavesBytes LeavesBytes (read_passes d interlacing (allocate d) r) _
      (read_passes-Holds d interlacing (allocate d) r a b) (λ (im, rest) k. k)

pub read_image-Holds :
    (d : Decoder) (r : Bytes) → HasArray d → AllBytes r → Holds (λ _. Unit {0}) (read_image d r)
unfolding read_image
read_image-Holds d r a b =
    Holds-bind LeavesBytes (λ _. Unit {0}) _ _
      (Holds-if LeavesBytes (d.interlace == 0) _ _ (λ _. read_size-Holds d d.width d.height r a b)
        (λ _.
          Holds-if LeavesBytes (d.interlace == 1) _ _ (λ _. read_interlaced-Holds d r a b)
            (λ _. b)))
      (λ (im, rest) k. Holds-if (λ _. Unit {0}) (length rest == 0) _ _ (λ _. tt) (λ _. tt))
