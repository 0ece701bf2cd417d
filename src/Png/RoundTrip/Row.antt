-- ===== src/Png/RoundTrip/Row.antt =====
-- internal/png: one row that writeImage filters is read back by readImagePass, whatever the buffers
-- of the encoder held before.
use srvfb.Base.{
  ℕ, suc, ◌+◌, ◌/◌, ◌≤◌, ◌<◌, ◌≡◌, refl, ap, ◌∙◌, inl, inr, Bool, true, some, List, [], ◌∷◌, ◌++◌,
  arith, Bool-cases, length, length-append, take, drop, length-take, length-drop,
}
use srvfb.Base.Bytes.{Bytes}
use srvfb.Base.Outcome.{ok}
use srvfb.Png.Format.{Mode}
use srvfb.Png.Chunks.{read_full-append}
use srvfb.Png.Paeth.{paeth}
use srvfb.Png.Filter.{
  FilterType, ft_none, ft_sub, ft_up, ft_average, ft_paeth, sub8, abs8, above, first, scan,
  candidate, Rows, row_of, left, average, filter,
}
use srvfb.Png.Filter.Scan.{first_row, row_rest, full_row, length-above, first-first_row}
use srvfb.Png.Filter.Choice.{filtered, filter_least}
use srvfb.Png.Filter.RoundTrip.{undo, AllBytes, IsRowPair, undo-filtered, length-first_row}
use srvfb.Png.Pass.{filter_type, not_enough, unfilter, read_row}
use srvfb.Png.Writer.{type_byte, filters, choose, written_bits}

length-row_rest :
    (pred : ℕ → ℕ → ℕ → ℕ) (cs ls : Bytes) (pq : List (ℕ × ℕ))
    → length cs ≤ length ls
    → length cs ≤ length pq
    → length (row_rest pred cs ls pq) ≡ length cs
unfolding row_rest
length-row_rest pred [] ls pq h k = refl
length-row_rest pred (c ∷ cs) [] pq h k = absurd (omega arith)
length-row_rest pred (c ∷ cs) (l ∷ ls) [] h k = absurd (omega arith)
length-row_rest pred (c ∷ cs) (l ∷ ls) ((p, q) ∷ pq) h k =
    ap suc (length-row_rest pred cs ls pq (omega arith) (omega arith))

-- A loop that is broken off keeps the length of its buffer.
length-scan :
    (pred : ℕ → ℕ → ℕ → ℕ) (best sum : ℕ) (cs ls : Bytes) (pq : List (ℕ × ℕ)) (out : Bytes)
    → length (scan pred best sum cs ls pq out).0 ≡ length out
unfolding scan
length-scan pred best sum [] ls pq out = refl
length-scan pred best sum (c ∷ cs) [] pq out = refl
length-scan pred best sum (c ∷ cs) (l ∷ ls) [] out = refl
length-scan pred best sum (c ∷ cs) (l ∷ ls) ((p, q) ∷ pq) [] = refl
length-scan pred best sum (c ∷ cs) (l ∷ ls) ((p, q) ∷ pq) (o ∷ out) =
    ground (arith, length-scan pred best (sum + abs8 (sub8 c (pred l p q))) cs ls pq out)

module _ (bpp : ℕ) (cs ps : Bytes) (pixel : bpp ≤ length cs) (same : length ps ≡ length cs) where
  length-full_row :
      (f : ℕ → ℕ → ℕ) (pred : ℕ → ℕ → ℕ → ℕ) → length (full_row f pred bpp cs ps) ≡ length cs
  unfolding full_row
  length-full_row f pred =
      let c = length-drop bpp cs in
      let p = length-drop bpp ps in
      let c' = length-take bpp cs in
      let p' = length-take bpp ps in
      let pairs = length-above (drop bpp ps) ps (omega arith) in
      omega (
        arith,
        length-append (first_row f (take bpp cs) (take bpp ps))
            (row_rest pred (drop bpp cs) cs (above (drop bpp ps) ps)),
        length-first_row f (take bpp cs) (take bpp ps) (omega arith),
        length-row_rest pred (drop bpp cs) cs (above (drop bpp ps) ps) (omega arith) (omega arith),
      )

  length-filtered : (ft : FilterType) → length (filtered ft bpp cs ps) ≡ length cs
  length-filtered ft_none = refl
  length-filtered ft_sub = length-full_row (λ c p. c) left
  length-filtered ft_up = length-first_row sub8 cs ps (omega arith)
  length-filtered ft_average = length-full_row (λ c p. sub8 c (p / 2)) average
  length-filtered ft_paeth = length-full_row sub8 paeth

  length-candidate :
      (f : ℕ → ℕ → ℕ) (pred : ℕ → ℕ → ℕ → ℕ) (best : ℕ) (out : Bytes)
      → length out ≡ length cs
      → length (candidate f pred bpp best cs ps out).0 ≡ length cs
  unfolding candidate
  length-candidate f pred best out h =
      let c = length-take bpp cs in
      let p = length-take bpp ps in
      let head = first f 0 (take bpp cs) (take bpp ps) in
      let pq = above (drop bpp ps) ps in
      let fixed = ap (λ t. length t.0) (first-first_row f 0 (take bpp cs) (take bpp ps)) in
      omega (
        arith,
        fixed,
        length-append head.0 (scan pred best head.1 (drop bpp cs) cs pq (drop bpp out)).0,
        length-scan pred best head.1 (drop bpp cs) cs pq (drop bpp out),
        length-first_row f (take bpp cs) (take bpp ps) (omega arith),
        length-drop bpp out,
      )

-- The buffers of the filters that may be broken off have the row's length.
pub record Fits (n : ℕ) (cr : Rows) : Type 0 where
  pub sub_fits : length cr.sub_row ≡ n
  pub average_fits : length cr.average_row ≡ n
  pub paeth_fits : length cr.paeth_row ≡ n

filter-Fits :
    (cr : Rows) (ps : Bytes) (bpp : ℕ)
    → bpp ≤ length cr.none_row
    → length ps ≡ length cr.none_row
    → Fits (length cr.none_row) cr
    → Fits (length cr.none_row) (filter cr ps bpp).1
unfolding filter
filter-Fits cr ps bpp p s f =
    let cs = cr.none_row in
    record {
      sub_fits = length-candidate bpp cs ps p s (λ c p. c) left _ cr.sub_row f.sub_fits;
      average_fits =
          length-candidate bpp cs ps p s (λ c p. sub8 c (p / 2)) average _ cr.average_row
            f.average_fits;
      paeth_fits = length-candidate bpp cs ps p s sub8 paeth _ cr.paeth_row f.paeth_fits;
    }

filter_type-type_byte : (ft : FilterType) → filter_type (type_byte ft) ≡ some ft
unfolding filter_type
filter_type-type_byte ft_none = refl
filter_type-type_byte ft_sub = refl
filter_type-type_byte ft_up = refl
filter_type-type_byte ft_average = refl
filter_type-type_byte ft_paeth = refl

not_enough-ok : (cr rest : Bytes) → not_enough (ok (cr, rest)) ≡ ok (cr, rest)
unfolding not_enough
not_enough-ok cr rest = refl

unfilter-type :
    (bpp t : ℕ) (body ps : Bytes) (ft : FilterType)
    → filter_type t ≡ some ft
    → unfilter bpp ps (t ∷ body) ≡ ok (undo ft bpp body ps)
unfolding unfilter
unfilter-type bpp t body ps ft e = rw (e, unfilter)

read_row_lem :
    (bpp n t : ℕ) (body rest ps : Bytes) (ft : FilterType)
    → length body ≡ n
    → filter_type t ≡ some ft
    → read_row bpp (1 + n) ps (t ∷ (body ++ rest)) ≡ ok (undo ft bpp body ps, rest)
unfolding read_row
read_row_lem bpp n t body rest ps ft h e =
    rw (read_full-append (t ∷ body) rest (1 + n) (omega arith), not_enough-ok (t ∷ body) rest)
      (rw (unfilter-type bpp t body ps ft e) refl)

none_undo :
    (cr : Rows) (ps : Bytes) (bpp : ℕ)
    → (undo ft_none bpp (row_of ft_none cr) ps ≡ cr.none_row)
      × (length (row_of ft_none cr) ≡ length cr.none_row)
unfolding undo row_of
none_undo cr ps bpp = (refl, refl)

-- The bytes of a pixel, of which a filtered row has at least one whole pixel.
module _ (cb : Mode) (compressed : Bool) (cr : Rows) (ps : Bytes)
    (pixel : filters cb compressed ≡ true
      → (0 < written_bits cb / 8) × (written_bits cb / 8 ≤ length cr.none_row))
    (same : length ps ≡ length cr.none_row) (fits : Fits (length cr.none_row) cr) where
  pub choose-Fits : Fits (length cr.none_row) (choose cb compressed cr ps).1
  unfolding choose
  choose-Fits = elim (Bool-cases (filters cb compressed)) [
    | inl e ↦ rw e (filter-Fits cr ps (written_bits cb / 8) (pixel e).1 same fits)
    | inr e ↦ rw e fits
  ]

  -- What choose returns stands for the row.
  choose-undo :
      (bpp : ℕ)
      → (filters cb compressed ≡ true → bpp ≡ written_bits cb / 8)
      → AllBytes cr.none_row
      → AllBytes ps
      → let (ft, cr') = choose cb compressed cr ps in
        (undo ft bpp (row_of ft cr') ps ≡ cr.none_row)
        × (length (row_of ft cr') ≡ length cr.none_row)
  unfolding choose
  choose-undo bpp b bc bp = elim (Bool-cases (filters cb compressed)) [
    | inl e ↦
        let (pos, whole) = pixel e in
        let chosen =
          filter_least cr ps (written_bits cb / 8)
            (record { pixel = whole; above_eq = same; out_eq = fits.sub_fits })
            (record { pixel = whole; above_eq = same; out_eq = fits.average_fits })
            (record { pixel = whole; above_eq = same; out_eq = fits.paeth_fits }) in
        let pair : IsRowPair (written_bits cb / 8) cr.none_row ps = record {
          positive = pos;
          pixel = whole;
          same = same;
          cur_bytes = bc;
          above_bytes = bp;
        } in
        rw (e, b e, chosen.0)
          (
            undo-filtered pair (filter cr ps (written_bits cb / 8)).0,
            length-filtered (written_bits cb / 8) cr.none_row ps whole same _,
          )
    | inr e ↦ rw e (none_undo cr ps bpp)
  ]

  -- Reading the row off the decompressed data gives back the bytes that were filtered.
  pub read_row-choose :
      (bpp : ℕ) (rest : Bytes)
      → (filters cb compressed ≡ true → bpp ≡ written_bits cb / 8)
      → AllBytes cr.none_row
      → AllBytes ps
      → let (ft, cr') = choose cb compressed cr ps in
        read_row bpp (1 + length cr.none_row) ps (type_byte ft ∷ (row_of ft cr' ++ rest))
        ≡ ok (cr.none_row, rest)
  read_row-choose bpp rest b bc bp =
      let (undone, size) = choose-undo bpp b bc bp in
      let (ft, cr') = choose cb compressed cr ps in
      read_row_lem bpp (length cr.none_row) (type_byte ft) (row_of ft cr') rest ps ft size
        (filter_type-type_byte ft)
      ∙ ap (λ b. ok (b, rest)) undone
