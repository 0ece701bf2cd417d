-- ===== src/Png/FilterPaeth/Values.antt =====
-- internal/png, readImagePass: the bytes of a row whose Paeth filter is undone, each from the bytes
-- before it.
use srvfb.Base.{
  ℕ, zero, suc, ◌+◌, ◌%◌, ◌^◌, ◌≤◌, ◌<◌, ◌≡◌, refl, ap, ◌∙◌, [], ◌∷◌, ◌++◌, append_assoc, arith,
  length, length-append, take, drop, length-take, length-drop,
}
use srvfb.Base.Bytes.{Bytes}
use srvfb.Base.Elements.{at, get_or-append_left, get_or-append_right, get_or-take, get_or-drop}
use srvfb.Png.Filter.{ft_paeth, above, add8}
use srvfb.Png.Filter.RoundTrip.{undo_first, undo_rest, undo_row, undo, AllBytes}
use srvfb.Png.Paeth.{paeth, paeth_predictor, paeth-paeth_predictor}
use srvfb.Png.FilterPaeth.{step}

add8-swap : (q x : ℕ) → (q + x) % 2 ^ 8 ≡ add8 x q
add8-swap q x = omega arith

-- Both forms of the body of the loop.
pub step-paeth : (a b c x : ℕ) → step a b c x ≡ add8 x (paeth a b c)
unfolding step paeth
step-paeth a b c x = add8-swap (paeth a b c) x

paeth-zero : (p : ℕ) → p < 2 ^ 8 → paeth 0 p 0 ≡ p
unfolding paeth_predictor
paeth-zero p h = paeth-paeth_predictor 0 p 0 (omega arith) h (omega arith) ∙ ground arith

at-IsByte : (ps : Bytes) (j : ℕ) → AllBytes ps → at ps j < 2 ^ 8
at-IsByte [] j h = omega arith
at-IsByte (p ∷ ps) zero (h, hs) = h
at-IsByte (p ∷ ps) (suc j) (h, hs) = at-IsByte ps j hs

undo_first-at :
    (f : ℕ → ℕ → ℕ) (xs ps : Bytes) (i : ℕ)
    → i < length xs
    → i < length ps
    → at (undo_first f xs ps) i ≡ f (at xs i) (at ps i)
unfolding undo_first
undo_first-at f [] ps i h k = absurd (omega arith)
undo_first-at f (x ∷ xs) [] i h k = absurd (omega arith)
undo_first-at f (x ∷ xs) (p ∷ ps) zero h k = refl
undo_first-at f (x ∷ xs) (p ∷ ps) (suc i) h k = undo_first-at f xs ps i (omega arith) (omega arith)

pub length-undo_first :
    (f : ℕ → ℕ → ℕ) (xs ps : Bytes)
    → length xs ≡ length ps
    → length (undo_first f xs ps) ≡ length xs
unfolding undo_first
length-undo_first f [] ps h = refl
length-undo_first f (x ∷ xs) [] h = absurd (omega arith)
length-undo_first f (x ∷ xs) (p ∷ ps) h = ap suc (length-undo_first f xs ps (omega arith))

-- The bytes that are undone already go to the end of the queue.
undo_rest-at :
    (pred : ℕ → ℕ → ℕ → ℕ) (ls xs ps qs : Bytes) (i : ℕ)
    → 0 < length ls
    → length xs ≤ length ps
    → length ps ≤ length qs
    → i < length xs
    → at (undo_rest pred ls xs (above ps qs)) i
      ≡ add8 (at xs i) (pred (at (ls ++ undo_rest pred ls xs (above ps qs)) i) (at ps i) (at qs i))
unfolding undo_rest above
undo_rest-at pred ls [] ps qs i h k l m = absurd (omega arith)
undo_rest-at pred [] (x ∷ xs) ps qs i h k l m = absurd (omega arith)
undo_rest-at pred (y ∷ ls) (x ∷ xs) [] qs i h k l m = absurd (omega arith)
undo_rest-at pred (y ∷ ls) (x ∷ xs) (p ∷ ps) [] i h k l m = absurd (omega arith)
undo_rest-at pred (y ∷ ls) (x ∷ xs) (p ∷ ps) (q ∷ qs) zero h k l m = refl
undo_rest-at pred (y ∷ ls) (x ∷ xs) (p ∷ ps) (q ∷ qs) (suc i) h k l m =
    let c = add8 x (pred y p q) in
    rw (append_assoc ls (c ∷ []) (undo_rest pred (ls ++ (c ∷ [])) xs (above ps qs))) at (
      undo_rest-at pred (ls ++ (c ∷ [])) xs ps qs i (omega (arith, length-append ls (c ∷ [])))
        (omega arith) (omega arith) (omega arith))

length-undo_rest :
    (pred : ℕ → ℕ → ℕ → ℕ) (ls xs ps qs : Bytes)
    → 0 < length ls
    → length xs ≤ length ps
    → length ps ≤ length qs
    → length (undo_rest pred ls xs (above ps qs)) ≡ length xs
unfolding undo_rest above
length-undo_rest pred ls [] ps qs h k l = refl
length-undo_rest pred [] (x ∷ xs) ps qs h k l = absurd (omega arith)
length-undo_rest pred (y ∷ ls) (x ∷ xs) [] qs h k l = absurd (omega arith)
length-undo_rest pred (y ∷ ls) (x ∷ xs) (p ∷ ps) [] h k l = absurd (omega arith)
length-undo_rest pred (y ∷ ls) (x ∷ xs) (p ∷ ps) (q ∷ qs) h k l =
    let c = add8 x (pred y p q) in
    ap suc (
      length-undo_rest pred (ls ++ (c ∷ [])) xs ps qs (omega (arith, length-append ls (c ∷ [])))
        (omega arith) (omega arith))

module _ (bpp : ℕ) (xs ps : Bytes) (positive : 0 < bpp) (wide : bpp ≤ length xs)
    (fits : length xs ≡ length ps) (bytes : AllBytes ps) where
  abbrev head : Bytes
  head = undo_first add8 (take bpp xs) (take bpp ps)

  abbrev tail : Bytes
  tail = undo_rest paeth head (drop bpp xs) (above (drop bpp ps) ps)

  head-length : length head ≡ bpp
  head-length = omega (
    arith,
    length-undo_first add8 (take bpp xs) (take bpp ps)
        (omega (arith, fits, wide, length-take bpp xs, length-take bpp ps)),
    length-take bpp xs,
    wide,
  )

  pub length-undo : length (undo ft_paeth bpp xs ps) ≡ length xs
  unfolding undo undo_row
  length-undo = omega (
    arith,
    length-append head tail,
    head-length,
    wide,
    fits,
    positive,
    length-undo_rest paeth head (drop bpp xs) (drop bpp ps) ps
        (omega (arith, head-length, positive))
        (omega (arith, fits, length-drop bpp xs, length-drop bpp ps))
        (omega (arith, length-drop bpp ps)),
    length-drop bpp xs,
  )

  -- The first pixel is predicted from the bytes above it.
  pub undo-first_value :
      (j : ℕ) → j < bpp → at (undo ft_paeth bpp xs ps) j ≡ add8 (at xs j) (paeth 0 (at ps j) 0)
  unfolding undo undo_row
  undo-first_value j h =
      let byte = at-IsByte ps j bytes in
      get_or-append_left head tail j 0 (omega (arith, head-length))
      ∙ undo_first-at add8 (take bpp xs) (take bpp ps) j (omega (arith, wide, length-take bpp xs))
          (omega (arith, wide, fits, length-take bpp ps))
      ∙ rw (get_or-take bpp xs j 0 h, get_or-take bpp ps j 0 h, paeth-zero (at ps j) byte) refl

  -- Every other byte is predicted from its left neighbour and the ones above both.
  pub undo-value :
      (i : ℕ)
      → bpp + i < length xs
      → at (undo ft_paeth bpp xs ps) (bpp + i)
        ≡ add8
            (at xs (bpp + i))
            (paeth (at (undo ft_paeth bpp xs ps) i) (at ps (bpp + i)) (at ps i))
  unfolding undo undo_row
  undo-value i h =
      let here : at (head ++ tail) (bpp + i) ≡ at tail i =
        rw head-length at (get_or-append_right head tail i 0) in
      here
      ∙ undo_rest-at paeth head (drop bpp xs) (drop bpp ps) ps i
          (omega (arith, head-length, positive))
          (omega (arith, fits, length-drop bpp xs, length-drop bpp ps))
          (omega (arith, length-drop bpp ps)) (omega (arith, length-drop bpp xs))
      ∙ rw (get_or-drop bpp xs i 0, get_or-drop bpp ps i 0) refl
