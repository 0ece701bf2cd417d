-- ===== src/Png/NoPanic/Rows.antt =====
-- internal/png/reader.go, readImagePass: the indices of a row are bytes, which an array of 256 colors
-- has a place for.
use srvfb.Base.{
  ℕ, zero, suc, ◌+◌, ◌-◌, ◌*◌, ◌/◌, ◌%◌, ◌^◌, ◌≤◌, ◌≡◌, refl, inl, inr, true, Option, none, some,
  List, [], ◌∷◌, ◌++◌, arith, ltb, leb, ◌==◌, Bool-cases, length, get_or, take, drop,
}
use srvfb.Base.Bytes.{Bytes}
use srvfb.Base.Outcome.{ok, err, ◌>>=◌}
use srvfb.Png.Format.{
  format_error, Mode, cb_paletted, cb_invalid, cb_g1, cb_g2, cb_g4, cb_g8, cb_ga8, cb_tc8, cb_p1,
  cb_p2, cb_p4, cb_p8, cb_tca8, cb_g16, cb_ga16, cb_tc16, cb_tca16, read_full,
}
use srvfb.Png.Filter.{FilterType, ft_none, ft_sub, ft_up, ft_average, ft_paeth, left, average, add8}
use srvfb.Png.Filter.RoundTrip.{
  undo_first, undo_rest, undo_row, undo, IsByte, AllBytes, AllBytes-append, AllBytes-take,
  AllBytes-drop,
}
use srvfb.Png.Paeth.{paeth}
use srvfb.Png.Raster.{Transparent, top_bits, unpack, row_pixels, cover, palette_after}
use srvfb.Png.Pass.{not_enough, filter_type, unfilter, read_row}
use srvfb.Png.Stages.{Holds, Holds-bind, Holds-if}

undo_first-AllBytes :
    (f : ℕ → ℕ → ℕ) (xs ps : Bytes)
    → ((x p : ℕ) → IsByte x → IsByte (f x p))
    → AllBytes xs
    → AllBytes (undo_first f xs ps)
unfolding undo_first
undo_first-AllBytes f [] ps h b = tt
undo_first-AllBytes f (x ∷ xs) [] h b = tt
undo_first-AllBytes f (x ∷ xs) (p ∷ ps) h (b, bs) = (h x p b, undo_first-AllBytes f xs ps h bs)

undo_rest-AllBytes :
    (pred : ℕ → ℕ → ℕ → ℕ) (ls xs : Bytes) (pq : List (ℕ × ℕ)) → AllBytes (undo_rest pred ls xs pq)
unfolding undo_rest
undo_rest-AllBytes pred ls [] pq = tt
undo_rest-AllBytes pred [] (x ∷ xs) pq = tt
undo_rest-AllBytes pred (l ∷ ls) (x ∷ xs) [] = tt
undo_rest-AllBytes pred (l ∷ ls) (x ∷ xs) ((p, q) ∷ pq) =
    let c = add8 x (pred l p q) in (omega arith, undo_rest-AllBytes pred (ls ++ (c ∷ [])) xs pq)

undo_row-AllBytes :
    (f : ℕ → ℕ → ℕ) (pred : ℕ → ℕ → ℕ → ℕ) (bpp : ℕ) (xs ps : Bytes)
    → ((x p : ℕ) → IsByte x → IsByte (f x p))
    → AllBytes xs
    → AllBytes (undo_row f pred bpp xs ps)
unfolding undo_row
undo_row-AllBytes f pred bpp xs ps h b =
    AllBytes-append _ _
      (undo_first-AllBytes f (take bpp xs) (take bpp ps) h (AllBytes-take bpp xs b))
      (undo_rest-AllBytes pred _ _ _)

undo-AllBytes :
    (ft : FilterType) (bpp : ℕ) (xs ps : Bytes) → AllBytes xs → AllBytes (undo ft bpp xs ps)
unfolding undo
undo-AllBytes ft_none bpp xs ps b = b
undo-AllBytes ft_sub bpp xs ps b = undo_row-AllBytes (λ x p. x) left bpp xs ps (λ x p h. h) b
undo-AllBytes ft_up bpp xs ps b = undo_first-AllBytes add8 xs ps (λ x p h. omega arith) b
undo-AllBytes ft_average bpp xs ps b =
    undo_row-AllBytes (λ x p. add8 x (p / 2)) average bpp xs ps (λ x p h. omega arith) b
undo-AllBytes ft_paeth bpp xs ps b = undo_row-AllBytes add8 paeth bpp xs ps (λ x p h. omega arith) b

-- Indices of fewer than 8 bits.
abbrev Splits : ℕ → Type 0
Splits bits = (b : ℕ) → IsByte b → IsByte (b / 2 ^ (8 - bits))

top_bits-AllBytes : (bits n left b : ℕ) → Splits bits → IsByte b → AllBytes (top_bits bits n left b)
unfolding top_bits
top_bits-AllBytes bits zero left b h l = tt
top_bits-AllBytes bits (suc n) zero b h l = tt
top_bits-AllBytes bits (suc n) (suc left) b h l =
    (h b l, top_bits-AllBytes bits n left (b * 2 ^ bits % 2 ^ 8) h (omega arith))

unpack-AllBytes :
    (bits n left : ℕ) (bs : Bytes) → Splits bits → AllBytes bs → AllBytes (unpack bits n left bs)
unfolding unpack
unpack-AllBytes bits n left [] h l = tt
unpack-AllBytes bits n left (b ∷ bs) h (l, ls) =
    AllBytes-append _ _ (top_bits-AllBytes bits n left b h l)
      (unpack-AllBytes bits n (left - n) bs h ls)

cover-Holds :
    (room len : ℕ) (is : Bytes)
    → 256 ≤ room
    → AllBytes is
    → Holds (λ _. Unit {0}) (cover room len is)
unfolding cover
cover-Holds room len [] h b = tt
cover-Holds room len (i ∷ is) h (b, bs) =
    Holds-if _ (leb len i) _ _
      (λ _.
        Holds-if _ (ltb room (i + 1)) _ _ (λ e. absurd (ground arith))
          (λ _. cover-Holds room (i + 1) is h bs))
      (λ _. cover-Holds room len is h bs)

-- The palette of a row's picture has room for every index.
pub palette_after-Holds :
    (t : Transparent) (cb : Mode) (room len w : ℕ) (cs : Bytes)
    → (cb_paletted cb ≡ true → 256 ≤ room)
    → AllBytes cs
    → Holds (λ _. Unit {0}) (palette_after cb room len (row_pixels t cb w cs))
unfolding palette_after row_pixels
palette_after-Holds t cb_p1 room len w cs h b =
    cover-Holds room len _ (h refl) (unpack-AllBytes 1 8 w cs (λ b l. omega arith) b)
palette_after-Holds t cb_p2 room len w cs h b =
    cover-Holds room len _ (h refl) (unpack-AllBytes 2 4 w cs (λ b l. omega arith) b)
palette_after-Holds t cb_p4 room len w cs h b =
    cover-Holds room len _ (h refl) (unpack-AllBytes 4 2 w cs (λ b l. omega arith) b)
palette_after-Holds t cb_p8 room len w cs h b =
    Holds-if _ (len == 255) _ _ (λ _. tt) (λ _. cover-Holds room len cs (h refl) b)
palette_after-Holds t cb_invalid room len w cs h b = tt
palette_after-Holds t cb_g1 room len w cs h b = tt
palette_after-Holds t cb_g2 room len w cs h b = tt
palette_after-Holds t cb_g4 room len w cs h b = tt
palette_after-Holds t cb_g8 room len w cs h b = tt
palette_after-Holds t cb_ga8 room len w cs h b = tt
palette_after-Holds t cb_tc8 room len w cs h b = tt
palette_after-Holds t cb_tca8 room len w cs h b = tt
palette_after-Holds t cb_g16 room len w cs h b = tt
palette_after-Holds t cb_ga16 room len w cs h b = tt
palette_after-Holds t cb_tc16 room len w cs h b = tt
palette_after-Holds t cb_tca16 room len w cs h b = tt

abbrev pub BothBytes : Bytes × Bytes → Type 0
BothBytes (xs, ys) = AllBytes xs × AllBytes ys

enough-AllBytes : (n : ℕ) (r : Bytes) → AllBytes r → Holds BothBytes (not_enough (read_full n r))
unfolding not_enough read_full
enough-AllBytes n r b = elim (Bool-cases (leb n (length r))) [
  | inl e ↦ rw e (AllBytes-take n r b, AllBytes-drop n r b)
  | inr e ↦ rw e (elim (Bool-cases (length r == 0)) [ inl z ↦ rw z tt | inr z ↦ rw z tt ])
]

-- A row is made of bytes, and so is what follows it.
pub read_row-Holds :
    (bpp row_size : ℕ) (pdat r : Bytes)
    → AllBytes r
    → Holds BothBytes (read_row bpp row_size pdat r)
unfolding read_row unfilter
read_row-Holds bpp row_size pdat r b =
    Holds-bind BothBytes BothBytes (not_enough (read_full row_size r)) _
      (enough-AllBytes row_size r b)
      (λ (cr, rest) (h, k). by_type (filter_type (get_or cr 0 0)) cr rest h k)
  where
    by_type :
        (ft : Option FilterType) (cr rest : Bytes)
        → AllBytes cr
        → AllBytes rest
        → Holds BothBytes (
            (elim ft [ none ↦ err format_error | some t ↦ ok (undo t bpp (drop 1 cr) pdat) ])
            >>= λ cdat. ok (cdat, rest))
    by_type none cr rest h k = tt
    by_type (some t) cr rest h k = (undo-AllBytes t bpp (drop 1 cr) pdat (AllBytes-drop 1 cr h), k)
