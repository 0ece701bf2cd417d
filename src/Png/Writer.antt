-- ===== src/Png/Writer.antt =====
-- internal/png/writer.go, writeImage: the rows of a picture, converted and filtered, as they go to
-- the zlib writer.
use srvfb.Base.{
  ℕ, zero, suc, ◌+◌, ◌*◌, ◌/◌, Bool, not, ◌&&◌, [], ◌∷◌, ◌++◌, ltb, if◌then◌else◌, length, take,
  replicate,
}
use srvfb.Base.Bytes.{Bytes}
use srvfb.Base.Outcome.{Outcome, ok, err, ◌>>=◌}
use srvfb.Image.{dx, dy}
use srvfb.Png.Format.{
  Mode, cb_g8, cb_tc8, cb_p1, cb_p2, cb_p4, cb_p8, cb_tca8, cb_g16, cb_tc16, cb_tca16, cb_paletted,
  Error, write_error,
}
use srvfb.Png.Filter.{
  FilterType, ft_none, ft_sub, ft_up, ft_average, ft_paeth, Rows, row_of, filter,
}
use srvfb.Png.Picture.{Picture, convert}

-- The first switch of writeImage; a mode that it does not name leaves 0.
unfoldable pub written_bits : Mode → ℕ
written_bits cb_g8 = 8
written_bits cb_tc8 = 24
written_bits cb_p8 = 8
written_bits cb_p4 = 4
written_bits cb_p2 = 2
written_bits cb_p1 = 1
written_bits cb_tca8 = 32
written_bits cb_tc16 = 48
written_bits cb_tca16 = 64
written_bits cb_g16 = 16
written_bits _ = 0

-- cr[f][0]
abbrev pub type_byte : FilterType → ℕ
type_byte ft_none = 0
type_byte ft_sub = 1
type_byte ft_up = 2
type_byte ft_average = 3
type_byte ft_paeth = 4

-- Whether rows are filtered: not without compression, which is level 0, nor in the paletted modes.
abbrev pub filters : Mode → Bool → Bool
filters cb compressed = compressed && not (cb_paletted cb)

-- The filter type of a row, and the buffers that `filter` leaves.
unfoldable pub choose : Mode → Bool → Rows → Bytes → FilterType × Rows
choose cb compressed cr pdat =
    if filters cb compressed then filter cr pdat (written_bits cb / 8) else (ft_none, cr)

-- The loop over y, with n rows to go; pr and cr[0] change places after each. The zlib writer takes
-- `budget` more writes; the result is what it was given.
unfoldable pub write_rows : Picture → Mode → Bool → ℕ → ℕ → Rows → Bytes → ℕ → Outcome Error Bytes
write_rows m cb compressed zero y cr pdat budget = ok []
write_rows m cb compressed (suc n) y cr pdat budget = convert m cb y cr.none_row >>= λ cdat.
    let (ft, cr') = choose cb compressed (record cr { none_row = cdat }) pdat in
    elim budget [
      | zero ↦ err write_error
      | suc budget' ↦
          write_rows m cb compressed n (y + 1) (record cr' { none_row = pdat }) cdat budget'
          >>= λ rest. ok (type_byte ft ∷ (row_of ft cr' ++ rest))
    ]

-- sz - 1
abbrev pub row_bytes : Mode → ℕ → ℕ
row_bytes cb w = (written_bits cb * w + 7) / 8

-- A buffer of the encoder, of the size that is needed now: it is made anew if it is too small, and
-- otherwise keeps its old bytes.
unfoldable pub sized : ℕ → Bytes → Bytes
sized n old = if ltb (length old) n then replicate n 0 else take n old

-- The buffers e.cr[*][1:], which are kept from one picture to the next. e.pr is all zeros.
unfoldable pub write_image : Picture → Mode → Bool → Rows → ℕ → Outcome Error Bytes
write_image m cb compressed kept budget =
    let n = row_bytes cb (dx m.bounds) in
    let cr : Rows = record {
      none_row = sized n kept.none_row;
      sub_row = sized n kept.sub_row;
      up_row = sized n kept.up_row;
      average_row = sized n kept.average_row;
      paeth_row = sized n kept.paeth_row;
    } in
    write_rows m cb compressed (dy m.bounds) m.bounds.min_y cr (replicate n 0) budget
