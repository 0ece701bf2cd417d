-- ===== src/Png/Picture.antt =====
-- internal/png/writer.go, writeImage: the pictures that it encodes, and the conversion of one line
-- from colors to bytes.
use srvfb.Base.{
  ℕ, zero, suc, ◌+◌, ◌-◌, ◌*◌, ◌/◌, ◌%◌, ◌^◌, bit_or, [], ◌∷◌, ◌++◌, ◌==◌, if◌then◌else◌,
}
use srvfb.Base.Bytes.{Bytes, put_uint16, copy}
use srvfb.Base.Outcome.{Outcome, ok, slice, ◌>>=◌}
use srvfb.Image.{Rectangle, dx}
use srvfb.Png.Format.{
  Mode, cb_g8, cb_tc8, cb_p1, cb_p2, cb_p4, cb_p8, cb_tca8, cb_g16, cb_tc16, cb_tca16, Error,
}

-- The image types that writeImage knows, with Pix and Stride, and any other one.
pub data Layout : Type 0 where
  gray gray16 rgba nrgba paletted : Bytes → ℕ → Layout
  other : Layout

-- An image.Image. The functions of x and y are m.At with the conversions of package color: to Gray,
-- to Gray16, RGBA(), to NRGBA and to NRGBA64; and ColorIndexAt.
pub record Picture : Type 0 where
  pub bounds : Rectangle
  pub layout : Layout
  pub gray_at : ℕ → ℕ → ℕ
  pub gray16_at : ℕ → ℕ → ℕ
  pub rgba_at : ℕ → ℕ → ℕ × ℕ × ℕ × ℕ
  pub nrgba_at : ℕ → ℕ → ℕ × ℕ × ℕ × ℕ
  pub nrgba64_at : ℕ → ℕ → ℕ × ℕ × ℕ × ℕ
  pub index_at : ℕ → ℕ → ℕ

-- `for x := ...; x < Max.X; x++`, with n to go: what each x appends to the row.
unfoldable pub each_x : (ℕ → Bytes) → ℕ → ℕ → Bytes
each_x f zero x = []
each_x f (suc n) x = f x ++ each_x f n (x + 1)

-- The first three bytes of four; the fourth byte of the last pixel is not looked at.
unfoldable pub drop_alpha : ℕ → Bytes → Bytes
drop_alpha (suc n) (r ∷ g ∷ b ∷ a ∷ pix) = r ∷ g ∷ b ∷ drop_alpha n pix
drop_alpha (suc n) (r ∷ g ∷ b ∷ []) = r ∷ g ∷ b ∷ []
drop_alpha _ _ = []

-- The loop over x of the modes with several pixels in a byte: `a` has `c` of `per_byte` pixels.
-- The last byte is filled up with zeros.
unfoldable pub pad_bits : ℕ → ℕ → ℕ → ℕ
pad_bits bits zero a = a
pad_bits bits (suc n) a = pad_bits bits n (a * 2 ^ bits % 2 ^ 8)

unfoldable pub pack : ℕ → ℕ → Bytes → ℕ → ℕ → Bytes
pack bits per_byte [] a c = if c == 0 then [] else pad_bits bits (per_byte - c) a ∷ []
pack bits per_byte (v ∷ vs) a c =
    let a' = bit_or (a * 2 ^ bits % 2 ^ 8) v in
    let full = a' ∷ pack bits per_byte vs 0 0 in
    let more = pack bits per_byte vs a' (c + 1) in if c + 1 == per_byte then full else more

-- m.ColorIndexAt(x, y) along a line.
unfoldable pub indices : Picture → ℕ → Bytes
indices m y = each_x (λ x. m.index_at x y ∷ []) (dx m.bounds) m.bounds.min_x

-- The line y - b.Min.Y of Pix, as far as `size` bytes.
abbrev line : Picture → ℕ → Bytes → ℕ → ℕ → Outcome Error Bytes
line m y pix stride size =
    let offset = (y - m.bounds.min_y) * stride in slice pix offset (offset + size)

-- A loop over x.
abbrev along : Picture → (ℕ → Bytes) → Outcome Error Bytes
along m f = ok (each_x f (dx m.bounds) m.bounds.min_x)

unfoldable pub gray_line : Picture → Layout → ℕ → Bytes → Outcome Error Bytes
gray_line m (gray pix stride) y old = line m y pix stride (dx m.bounds) >>= λ b. ok (copy old b)
gray_line m _ y old = along m (λ x. m.gray_at x y ∷ [])

-- A stride of 0, as an image of no columns has, is no fast path.
unfoldable pub true_color_line : Picture → Layout → ℕ → Outcome Error Bytes
true_color_line m l y = fast l
  where
    slow : Outcome Error Bytes
    slow =
        along m
          (λ x. let (r, g, b, _) = m.rgba_at x y in (r / 2 ^ 8) ∷ (g / 2 ^ 8) ∷ (b / 2 ^ 8) ∷ [])

    by_stride : Bytes → ℕ → Outcome Error Bytes
    by_stride pix stride =
        if stride == 0
        then slow
        else line m y pix stride (dx m.bounds * 4 - 1) >>= λ b. ok (drop_alpha (dx m.bounds) b)

    fast : Layout → Outcome Error Bytes
    fast (rgba pix stride) = by_stride pix stride
    fast (nrgba pix stride) = by_stride pix stride
    fast _ = slow

unfoldable pub index_line : Picture → Layout → ℕ → Bytes → Outcome Error Bytes
index_line m (paletted pix stride) y old =
    line m y pix stride (dx m.bounds) >>= λ b. ok (copy old b)
index_line m _ y old = ok (indices m y)

abbrev bytes_of : ℕ × ℕ × ℕ × ℕ → Bytes
bytes_of (r, g, b, a) = r ∷ g ∷ b ∷ a ∷ []

abbrev words_of : ℕ × ℕ × ℕ × ℕ → Bytes
words_of (r, g, b, a) = put_uint16 r ++ (put_uint16 g ++ (put_uint16 b ++ put_uint16 a))

abbrev opaque_words : ℕ × ℕ × ℕ × ℕ → Bytes
opaque_words (r, g, b, _) = put_uint16 r ++ (put_uint16 g ++ put_uint16 b)

unfoldable pub true_color_alpha_line : Picture → Layout → ℕ → Bytes → Outcome Error Bytes
true_color_alpha_line m (nrgba pix stride) y old =
    line m y pix stride (dx m.bounds * 4) >>= λ b. ok (copy old b)
true_color_alpha_line m _ y old = along m (λ x. bytes_of (m.nrgba_at x y))

-- A *image.Gray16 gives its whole line of Stride bytes, of which the row takes what fits.
unfoldable pub gray16_line : Picture → Layout → ℕ → Bytes → Outcome Error Bytes
gray16_line m (gray16 pix stride) y old = line m y pix stride stride >>= λ b. ok (copy old b)
gray16_line m _ y old = along m (λ x. put_uint16 (m.gray16_at x y))

-- The `switch cb` of the loop over y: cr[0][1:], which held `old`. The other modes have no case.
unfoldable pub convert : Picture → Mode → ℕ → Bytes → Outcome Error Bytes
convert m cb_g8 y old = gray_line m m.layout y old
convert m cb_tc8 y old = true_color_line m m.layout y
convert m cb_p8 y old = index_line m m.layout y old
convert m cb_p4 y old = ok (pack 4 2 (indices m y) 0 0)
convert m cb_p2 y old = ok (pack 2 4 (indices m y) 0 0)
convert m cb_p1 y old = ok (pack 1 8 (indices m y) 0 0)
convert m cb_tca8 y old = true_color_alpha_line m m.layout y old
convert m cb_g16 y old = gray16_line m m.layout y old
convert m cb_tc16 y old = along m (λ x. opaque_words (m.rgba_at x y))
convert m cb_tca16 y old = along m (λ x. words_of (m.nrgba64_at x y))
convert m _ y old = ok old
