-- ===== src/Png/FilterPaeth/Passes.antt =====
-- internal/png/paeth.go, filterPaeth: the passes give what the row undone side by side is.
use srvfb.Base.{
  ℕ, zero, suc, ◌+◌, ◌*◌, ◌/◌, ◌%◌, ◌≤◌, ◌<◌, ◌≡◌, refl, sym, ap, ap₂, ◌∙◌, ◌≢◌, inl, inr, true, [],
  ◌∷◌, arith, ltb, ◌==◌, lt→ltb, ==_iff, Bool-cases, length, set, length-set,
}
use native.Mathlib.Nat.{add-mul-mod_self_right, mod-eq_of_lt, mod-lt, mod-add-div'}
use srvfb.Base.Bytes.{Bytes}
use srvfb.Base.Elements.{at}
use srvfb.Png.Filter.{ft_paeth, add8}
use srvfb.Png.Filter.RoundTrip.{undo, AllBytes}
use srvfb.Png.Paeth.{paeth}
use srvfb.Png.FilterPaeth.{step, pass, passes, filter_paeth}
use srvfb.Png.FilterPaeth.Values.{step-paeth, length-undo, undo-first_value, undo-value}

at-set_self : (xs : Bytes) (i v : ℕ) → i < length xs → at (set xs i v) i ≡ v
at-set_self [] i v h = absurd (omega arith)
at-set_self (x ∷ xs) zero v h = refl
at-set_self (x ∷ xs) (suc i) v h = at-set_self xs i v (omega arith)

at-set_ne : (xs : Bytes) (i k v : ℕ) → k ≢ i → at (set xs i v) k ≡ at xs k
at-set_ne [] i k v h = refl
at-set_ne (x ∷ xs) zero zero v h = absurd (h refl)
at-set_ne (x ∷ xs) zero (suc k) v h = refl
at-set_ne (x ∷ xs) (suc i) zero v h = refl
at-set_ne (x ∷ xs) (suc i) (suc k) v h = at-set_ne xs i k v (λ e. h (ap suc e))

at_ext :
    (xs ys : Bytes)
    → length xs ≡ length ys
    → ((k : ℕ) → k < length xs → at xs k ≡ at ys k)
    → xs ≡ ys
at_ext [] [] h f = refl
at_ext [] (y ∷ ys) h f = absurd (omega arith)
at_ext (x ∷ xs) [] h f = absurd (omega arith)
at_ext (x ∷ xs) (y ∷ ys) h f =
    ap₂ ◌∷◌ (f 0 (omega arith)) (at_ext xs ys (omega arith) (λ k l. f (suc k) (omega arith)))

-- The columns of a pass.
next_column : (j m bpp : ℕ) → j + bpp + m * bpp ≡ j + suc m * bpp
next_column j m bpp = grind arith

module _ (bpp : ℕ) (ps : Bytes) where
  length-pass : (n j a c : ℕ) (cd : Bytes) → length (pass bpp n ps j a c cd) ≡ length cd
  unfolding pass
  length-pass zero j a c cd = refl
  length-pass (suc n) j a c cd = elim (Bool-cases (ltb j (length cd))) [
    | inl e ↦
        let v = step a (at ps j) c (at cd j) in
        rw (e, pass) (length-pass n (j + bpp) v (at ps j) (set cd j v) ∙ length-set cd j v)
    | inr e ↦ rw (e, pass) refl
  ]

  -- A pass leaves the other columns alone.
  pass-other :
      (n j k a c : ℕ) (cd : Bytes)
      → ((m : ℕ) → j + m * bpp ≢ k)
      → at (pass bpp n ps j a c cd) k ≡ at cd k
  unfolding pass
  pass-other zero j k a c cd h = refl
  pass-other (suc n) j k a c cd h = elim (Bool-cases (ltb j (length cd))) [
    | inl e ↦
        let v = step a (at ps j) c (at cd j) in
        let here : k ≢ j = λ q. h 0 (omega arith) in
        rw (e, pass)
          (pass-other n (j + bpp) k v (at ps j) (set cd j v)
              (λ m q. h (suc m) (sym (next_column j m bpp) ∙ q))
            ∙ at-set_ne cd j k v here)
    | inr e ↦ rw (e, pass) refl
  ]

  module _ (xs ys : Bytes) (positive : 0 < bpp)
      (value : (i : ℕ)
        → bpp + i < length xs
        → at ys (bpp + i)
          ≡ add8 (at xs (bpp + i)) (paeth (at ys i) (at ps (bpp + i)) (at ps i))) where
    -- A pass gives its columns their values.
    pass-value :
        (n j m a c : ℕ) (cd : Bytes)
        → length cd ≡ length xs
        → length xs ≤ j + n
        → j + m * bpp < length xs
        → at ys j ≡ add8 (at xs j) (paeth a (at ps j) c)
        → ((i : ℕ) → at cd (j + i * bpp) ≡ at xs (j + i * bpp))
        → at (pass bpp n ps j a c cd) (j + m * bpp) ≡ at ys (j + m * bpp)
    unfolding pass
    pass-value zero j m a c cd l f h v o = absurd (grind arith)
    pass-value (suc n) j m a c cd l f h v o =
        let start : j < length xs = grind arith in
        let inside : ltb j (length cd) ≡ true = lt→ltb _ _ (omega arith) in
        let orig : at cd j ≡ at xs j = let z : j + 0 * bpp ≡ j = omega arith in rw z at (o 0) in
        let new : step a (at ps j) c (at cd j) ≡ at ys j =
          step-paeth a (at ps j) c (at cd j)
          ∙ ap (λ x. add8 x (paeth a (at ps j) c)) orig
          ∙ sym v in
        let again = λ (m' : ℕ) (h' : j + bpp + m' * bpp < length xs).
          pass-value n (j + bpp) m' (at ys j) (at ps j) after (length-set cd j (at ys j) ∙ l)
            (omega arith) h'
            (let swap : j + bpp ≡ bpp + j = omega arith in rw swap (value j (grind arith)))
            (λ i. rw (next_column j i bpp) (
              at-set_ne cd j (j + suc i * bpp) (at ys j) (λ q. absurd (grind arith))
              ∙ o (suc i))) in
        rw (inside, pass, new) (column again m h)
      where
        after : Bytes
        after = set cd j (at ys j)

        column :
            ((m : ℕ)
              → j + bpp + m * bpp < length xs
              → at (pass bpp n ps (j + bpp) (at ys j) (at ps j) after) (j + bpp + m * bpp)
                ≡ at ys (j + bpp + m * bpp))
            → (m : ℕ) → j + m * bpp < length xs
            → at (pass bpp n ps (j + bpp) (at ys j) (at ps j) after) (j + m * bpp)
              ≡ at ys (j + m * bpp)
        column again zero h =
            let z : j + 0 * bpp ≡ j = omega arith in
            rw z (
              pass-other n (j + bpp) j (at ys j) (at ps j) after (λ m q. absurd (grind arith))
              ∙ at-set_self cd j (at ys j) (omega arith))
        column again (suc m) h =
            rw (next_column j m bpp) at (again m (rw (← next_column j m bpp) at h))

-- Columns of two passes do not meet.
apart : (bpp i r m n : ℕ) → i < bpp → r < bpp → i ≢ r → i + n * bpp ≢ r + m * bpp
apart bpp i r m n h k d e = d (
    sym (add-mul-mod_self_right i n bpp ∙ mod-eq_of_lt h)
    ∙ ap (λ x. x % bpp) e
    ∙ (add-mul-mod_self_right r m bpp ∙ mod-eq_of_lt k))

module _ (bpp : ℕ) (xs ps : Bytes) (positive : 0 < bpp) (wide : bpp ≤ length xs)
    (fits : length xs ≡ length ps) (bytes : AllBytes ps) where
  abbrev undone : Bytes
  undone = undo ft_paeth bpp xs ps

  -- The columns before i are done, and the others are as they were.
  record IsPartly (i : ℕ) (cd : Bytes) : Type 0 where
    size : length cd ≡ length xs
    finished :
        (r m : ℕ) → r < i → r + m * bpp < length xs → at cd (r + m * bpp) ≡ at undone (r + m * bpp)
    untouched : (r m : ℕ) → i ≤ r → r < bpp → at cd (r + m * bpp) ≡ at xs (r + m * bpp)

  pass-IsPartly :
      (i : ℕ) (cd : Bytes)
      → i < bpp
      → IsPartly i cd
      → IsPartly (i + 1) (pass bpp (length cd) ps i 0 0 cd)
  pass-IsPartly i cd h p = record {
    size = length-pass bpp ps (length cd) i 0 0 cd ∙ p.size;
    finished = λ r m l f. elim (Bool-cases (r == i)) [
      | inl e ↦
          let same : r ≡ i = (==_iff r i).0 e in
          let f' : i + m * bpp < length xs = rw same at f in
          rw same (
            pass-value bpp ps xs undone positive (undo-value bpp xs ps positive wide fits bytes)
              (length cd) i m 0 0 cd p.size (omega (arith, p.size)) f'
              (undo-first_value bpp xs ps positive wide fits bytes i h)
              (λ n. p.untouched i n (omega arith) h))
      | inr e ↦
          let before : r < i = ground arith in
          pass-other bpp ps (length cd) i (r + m * bpp) 0 0 cd
            (λ n. apart bpp i r m n h (omega arith) (λ q. absurd (omega arith)))
          ∙ p.finished r m before f
    ];
    untouched = λ r m l k.
        pass-other bpp ps (length cd) i (r + m * bpp) 0 0 cd
          (λ n. apart bpp i r m n h k (λ q. absurd (omega arith)))
        ∙ p.untouched r m (omega arith) k;
  }

  passes-IsPartly :
      (n i : ℕ) (cd : Bytes) → i + n ≡ bpp → IsPartly i cd → IsPartly bpp (passes bpp n ps i cd)
  unfolding passes
  passes-IsPartly zero i cd h p = let e : i ≡ bpp = omega arith in rw e at p
  passes-IsPartly (suc n) i cd h p =
      passes-IsPartly n (i + 1) (pass bpp (length cd) ps i 0 0 cd) (omega arith)
        (pass-IsPartly i cd (omega arith) p)

  -- For rows of one length, of a pixel at least, and bytes above: the passes of filterPaeth, one for
  -- each byte of a pixel, give the row that goes through the bytes once, from left to right, and
  -- predicts each from the byte a pixel before it and the two above these.
  pub filter_paeth-undo : filter_paeth xs ps bpp ≡ undo ft_paeth bpp xs ps
  unfolding filter_paeth
  filter_paeth-undo =
      let start : IsPartly 0 xs = record {
        size = refl;
        finished = λ r m l f. absurd (omega arith);
        untouched = λ r m l k. refl;
      } in
      let p = passes-IsPartly bpp 0 xs (omega arith) start in
      at_ext (passes bpp bpp ps 0 xs) undone
        (p.size ∙ sym (length-undo bpp xs ps positive wide fits bytes))
        (λ k l.
          let split = mod-add-div' k bpp in
          let inside : k % bpp + k / bpp * bpp < length xs = rw split (omega (arith, p.size)) in
          rw split at (p.finished (k % bpp) (k / bpp) (mod-lt k positive) inside))
