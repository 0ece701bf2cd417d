-- ===== src/Png/Filter.antt =====
-- internal/png/writer.go, filter: the filter types of a row, and the choice between them.
pub mod Scan
pub mod Choice
pub mod RoundTrip
use srvfb.Base.{
  ℕ, zero, suc, ◌+◌, ◌-◌, ◌*◌, ◌/◌, ◌%◌, ◌^◌, ◌≤◌, ◌<◌, min, bit_and, bit_or, bit_xor, ◌≡◌, refl,
  sym, ap, ap₂, ◌∙◌, ◌≡⟨◌⟩◌, ◌∎, ◌≢◌, ◌↔◌, ◌⊎◌, inl, inr, Bool, true, false, not, ◌&&◌, ◌||◌,
  Option, none, some, List, [], ◌∷◌, ◌++◌, map, append-nil, append_assoc, arith, ltb, leb, ◌==◌,
  if◌then◌else◌, ltb→lt, lt→ltb, leb→le, le→leb, ==_iff, tests, Bool-cases, Option-cases, length,
  get_elem?, set, length-append, length-set, get_elem?-set_self, get_elem?-set_ne, get_or, take,
  drop, replicate, take-append-drop, length-take, length-drop, length-replicate, length-map,
}
use srvfb.Base.Bytes.{Bytes}
use srvfb.Png.Paeth.{paeth}

-- The filter types, which are 0 to 4 in the file format.
pub data FilterType : Type 0 where
  ft_none ft_sub ft_up ft_average ft_paeth : FilterType

-- a + b and a - b on uint8.
abbrev pub add8 : ℕ → ℕ → ℕ
add8 a b = (a + b) % 2 ^ 8

abbrev pub sub8 : ℕ → ℕ → ℕ
sub8 a b = (a + 2 ^ 8 - b) % 2 ^ 8

unfoldable pub abs8 : ℕ → ℕ
abs8 d = if ltb d 128 then d else 256 - d

-- A loop over cdat0[:k] and pdat[:k] with no break: it writes f(cdat0[i], pdat[i]) and adds up.
unfoldable pub first : (ℕ → ℕ → ℕ) → ℕ → Bytes → Bytes → Bytes × ℕ
first f sum [] ps = ([], sum)
first f sum (c ∷ cs) [] = ([], sum)
first f sum (c ∷ cs) (p ∷ ps) =
    let x = f c p in let rest = first f (sum + abs8 x) cs ps in (x ∷ rest.0, rest.1)

-- Pairs of pdat[i] and pdat[i-bpp].
unfoldable pub above : Bytes → Bytes → List (ℕ × ℕ)
above [] qs = []
above (p ∷ ps) [] = []
above (p ∷ ps) (q ∷ qs) = (p, q) ∷ above ps qs

-- `for i := bpp; i < n; i++`: it writes cdat0[i] - pred(cdat0[i-bpp], pdat[i], pdat[i-bpp]) to the
-- buffer of the filter and breaks off when the sum reaches `best`; the buffer's tail then stays as
-- it was. The lists are cdat0[i:], cdat0[i-bpp:], the pairs from i on, and the buffer from i on.
unfoldable pub scan : (ℕ → ℕ → ℕ → ℕ) → ℕ → ℕ → Bytes → Bytes → List (ℕ × ℕ) → Bytes → Bytes × ℕ
scan pred best sum [] ls pq out = (out, sum)
scan pred best sum (c ∷ cs) [] pq out = (out, sum)
scan pred best sum (c ∷ cs) (l ∷ ls) [] out = (out, sum)
scan pred best sum (c ∷ cs) (l ∷ ls) ((p, q) ∷ pq) [] = ([], sum)
scan pred best sum (c ∷ cs) (l ∷ ls) ((p, q) ∷ pq) (o ∷ out) =
    let x = sub8 c (pred l p q) in
    let rest = scan pred best (sum + abs8 x) cs ls pq out in
    if leb best (sum + abs8 x) then (x ∷ out, sum + abs8 x) else (x ∷ rest.0, rest.1)

-- The two loops of one filter type, on its buffer.
unfoldable pub candidate : (ℕ → ℕ → ℕ) → (ℕ → ℕ → ℕ → ℕ) → ℕ → ℕ → Bytes → Bytes → Bytes → Bytes × ℕ
candidate f pred bpp best cs ps out =
    let head = first f 0 (take bpp cs) (take bpp ps) in
    let rest = scan pred best head.1 (drop bpp cs) cs (above (drop bpp ps) ps) (drop bpp out) in
    (head.0 ++ rest.0, rest.1)

-- The loop of the none filter, which writes nothing.
unfoldable pub none_sum : ℕ → ℕ → Bytes → ℕ
none_sum best sum [] = sum
none_sum best sum (c ∷ cs) =
    let rest = none_sum best (sum + abs8 c) cs in
    if leb best (sum + abs8 c) then sum + abs8 c else rest

-- cr[0][1:] to cr[4][1:].
pub record Rows : Type 0 where
  pub none_row : Bytes
  pub sub_row : Bytes
  pub up_row : Bytes
  pub average_row : Bytes
  pub paeth_row : Bytes

-- cr[f][1:]
unfoldable pub row_of : FilterType → Rows → Bytes
row_of ft_none cr = cr.none_row
row_of ft_sub cr = cr.sub_row
row_of ft_up cr = cr.up_row
row_of ft_average cr = cr.average_row
row_of ft_paeth cr = cr.paeth_row

-- `best` and `filter`.
pub record Best : Type 0 where
  pub best : ℕ
  pub kind : FilterType

-- `if sum < best { best = sum; filter = ft }`
unfoldable pub consider : ℕ → FilterType → Best → Best
consider sum ft b = if ltb sum b.best then record { best = sum; kind = ft } else b

-- What a byte is predicted from: its left neighbour, the byte above, and the one above on the left.
abbrev pub left : ℕ → ℕ → ℕ → ℕ
left l p q = l

abbrev pub average : ℕ → ℕ → ℕ → ℕ
average l p q = (l + p) / 2 % 2 ^ 8

-- filter(cr, pr, bpp), on pdat: the chosen type, and the buffers it leaves.
unfoldable pub filter : Rows → Bytes → ℕ → FilterType × Rows
filter cr ps bpp =
    let cs = cr.none_row in
    let up = first sub8 0 cs ps in
    let b0 : Best = record { best = up.1; kind = ft_up } in
    let pa = candidate sub8 paeth bpp b0.best cs ps cr.paeth_row in
    let b1 = consider pa.1 ft_paeth b0 in
    let b2 = consider (none_sum b1.best 0 cs) ft_none b1 in
    let su = candidate (λ c p. c) left bpp b2.best cs ps cr.sub_row in
    let b3 = consider su.1 ft_sub b2 in
    let av = candidate (λ c p. sub8 c (p / 2)) average bpp b3.best cs ps cr.average_row in
    let b4 = consider av.1 ft_average b3 in
    (
      b4.kind,
      record { none_row = cs; sub_row = su.0; up_row = up.0; average_row = av.0; paeth_row = pa.0 },
    )
