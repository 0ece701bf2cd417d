-- ===== src/Png/Filter/Choice.antt =====
-- internal/png/writer.go, filter: the row that is chosen is whole, and scores least.
use srvfb.Base.{ℕ, ◌/◌, ◌≤◌, ◌<◌, ◌≡◌, refl, ap, ◌∙◌, arith}
use native.Mathlib.Decide.{dec_lt}
use native.Mathlib.Nat.{zero-add}
use srvfb.Base.Bytes.{Bytes}
use srvfb.Png.Paeth.{paeth}
use srvfb.Png.Filter.{
  FilterType, ft_none, ft_sub, ft_up, ft_average, ft_paeth, sub8, first, candidate, none_sum, Rows,
  row_of, Best, consider, left, average, filter,
}
use srvfb.Png.Filter.Scan.{
  score, first_row, first-first_row, full_row, IsRow, candidate_below, candidate_above,
  none_sum_below, none_sum_above,
}

-- The row that each filter type stands for.
abbrev pub filtered : FilterType → ℕ → Bytes → Bytes → Bytes
filtered ft_none bpp cs ps = cs
filtered ft_sub bpp cs ps = full_row (λ c p. c) left bpp cs ps
filtered ft_up bpp cs ps = first_row sub8 cs ps
filtered ft_average bpp cs ps = full_row (λ c p. sub8 c (p / 2)) average bpp cs ps
filtered ft_paeth bpp cs ps = full_row sub8 paeth bpp cs ps

-- A sum that a loop may have broken off decides as the whole row's score does.
consider_score :
    (sum score : ℕ) (ft : FilterType) (b : Best)
    → (score < b.best → sum ≡ score)
    → (b.best ≤ score → b.best ≤ sum)
    → consider sum ft b ≡ consider score ft b
unfolding consider
consider_score sum score ft b p q = elim (dec_lt score b.best) [
  | yes h ↦ ap (λ n. consider n ft b) (p h)
  | no h ↦ ground arith
]

-- The choice by the scores of the whole rows, in the order in which the types are tried.
module _ (s : FilterType → ℕ) where
  abbrev after_up : Best
  after_up = record { best = s ft_up; kind = ft_up }

  abbrev after_paeth : Best
  after_paeth = consider (s ft_paeth) ft_paeth after_up

  abbrev after_none : Best
  after_none = consider (s ft_none) ft_none after_paeth

  abbrev after_sub : Best
  after_sub = consider (s ft_sub) ft_sub after_none

  abbrev after_average : Best
  after_average = consider (s ft_average) ft_average after_sub

  chosen_least : (g : FilterType) → s after_average.kind ≤ s g
  unfolding consider
  chosen_least ft_none = ground arith
  chosen_least ft_sub = ground arith
  chosen_least ft_up = ground arith
  chosen_least ft_average = ground arith
  chosen_least ft_paeth = ground arith

  paeth_taken : after_average.kind ≡ ft_paeth → s ft_paeth < after_up.best
  unfolding consider
  paeth_taken h = ground arith

  sub_taken : after_average.kind ≡ ft_sub → s ft_sub < after_none.best
  unfolding consider
  sub_taken h = ground arith

  average_taken : after_average.kind ≡ ft_average → s ft_average < after_sub.best
  unfolding consider
  average_taken h = ground arith

module _ (cr : Rows) (ps : Bytes) (bpp : ℕ) (sub_ok : IsRow bpp cr.none_row ps cr.sub_row)
    (average_ok : IsRow bpp cr.none_row ps cr.average_row)
    (paeth_ok : IsRow bpp cr.none_row ps cr.paeth_row) where
  abbrev s : FilterType → ℕ
  s ft = score (filtered ft bpp cr.none_row ps)

  up_eq : first sub8 0 cr.none_row ps ≡ (first_row sub8 cr.none_row ps, s ft_up)
  up_eq = first-first_row sub8 0 cr.none_row ps ∙ rw zero-add

  consider-candidate :
      (f : ℕ → ℕ → ℕ) (pred : ℕ → ℕ → ℕ → ℕ) (out : Bytes) (ft : FilterType) (b : Best)
      → IsRow bpp cr.none_row ps out
      → consider (candidate f pred bpp b.best cr.none_row ps out).1 ft b
        ≡ consider (score (full_row f pred bpp cr.none_row ps)) ft b
  consider-candidate f pred out ft b r =
      consider_score _ _ ft b
        (λ h. ap (λ t. t.1) (candidate_below f pred bpp b.best cr.none_row ps out r h))
        (candidate_above f pred bpp b.best cr.none_row ps out r)

  consider-none :
      (b : Best)
      → consider (none_sum b.best 0 cr.none_row) ft_none b ≡ consider (s ft_none) ft_none b
  consider-none b =
      consider_score _ _ ft_none b
        (λ h. none_sum_below b.best 0 cr.none_row (rw zero-add h) ∙ rw zero-add)
        (λ h. none_sum_above b.best 0 cr.none_row (rw zero-add h))

  filter-kind : (filter cr ps bpp).0 ≡ (after_average s).kind
  unfolding filter
  filter-kind = rw (
    up_eq,
    consider-candidate sub8 paeth cr.paeth_row ft_paeth (after_up s) paeth_ok,
    consider-none (after_paeth s),
    consider-candidate (λ c p. c) left cr.sub_row ft_sub (after_none s) sub_ok,
    consider-candidate (λ c p. sub8 c (p / 2)) average cr.average_row ft_average (after_sub s)
        average_ok,
  )

  filter-row :
      (ft : FilterType)
      → (after_average s).kind ≡ ft
      → row_of ft (filter cr ps bpp).1 ≡ filtered ft bpp cr.none_row ps
  unfolding filter row_of
  filter-row ft_none h = refl
  filter-row ft_up h = rw up_eq
  filter-row ft_paeth h = rw up_eq (
      ap (λ t. t.0)
        (candidate_below sub8 paeth bpp (after_up s).best cr.none_row ps cr.paeth_row paeth_ok
          (paeth_taken s h)))
  filter-row ft_sub h =
      rw
        (
          up_eq,
          consider-candidate sub8 paeth cr.paeth_row ft_paeth (after_up s) paeth_ok,
          consider-none (after_paeth s),
        )
        (ap (λ t. t.0)
          (candidate_below (λ c p. c) left bpp (after_none s).best cr.none_row ps cr.sub_row sub_ok
            (sub_taken s h)))
  filter-row ft_average h =
      rw
        (
          up_eq,
          consider-candidate sub8 paeth cr.paeth_row ft_paeth (after_up s) paeth_ok,
          consider-none (after_paeth s),
          consider-candidate (λ c p. c) left cr.sub_row ft_sub (after_none s) sub_ok,
        )
        (ap (λ t. t.0)
          (candidate_below (λ c p. sub8 c (p / 2)) average bpp (after_sub s).best cr.none_row ps
            cr.average_row average_ok (average_taken s h)))

  -- For rows of one length, with a whole pixel at least, and whatever the buffers held before: the
  -- buffer of the type that filter returns holds the whole row under that type, though other loops
  -- were broken off, and no type has a smaller sum of absolute differences.
  pub filter_least :
      let (ft, cr') = filter cr ps bpp in
      (row_of ft cr' ≡ filtered ft bpp cr.none_row ps)
      × ((g : FilterType)
          → score (filtered ft bpp cr.none_row ps) ≤ score (filtered g bpp cr.none_row ps))
  filter_least = rw filter-kind (filter-row (after_average s).kind refl, chosen_least s)
