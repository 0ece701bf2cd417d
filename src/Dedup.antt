-- ===== src/Dedup.antt =====
-- srvfb.go, deduper: which frames of a stream are not sent again.
pub mod Laws
mod Tests
use srvfb.Base.{
  ℕ, zero, suc, ◌+◌, ◌-◌, ◌*◌, ◌/◌, ◌%◌, ◌^◌, ◌≤◌, ◌<◌, min, bit_and, bit_or, bit_xor, ◌≡◌, refl,
  sym, ap, ap₂, ◌∙◌, ◌≡⟨◌⟩◌, ◌∎, ◌≢◌, ◌↔◌, ◌⊎◌, inl, inr, Bool, true, false, not, ◌&&◌, ◌||◌,
  Option, none, some, List, [], ◌∷◌, ◌++◌, map, append-nil, append_assoc, arith, ltb, leb, ◌==◌,
  if◌then◌else◌, ltb→lt, lt→ltb, leb→le, le→leb, ==_iff, tests, Bool-cases, Option-cases, length,
  get_elem?, set, length-append, length-set, get_elem?-set_self, get_elem?-set_ne, get_or, take,
  drop, replicate, take-append-drop, length-take, length-drop, length-replicate, length-map,
}

-- hash/fnv, New32a: for each byte, `hash ^= b; hash *= prime32`.
unfoldable pub fnv32a : ℕ → List ℕ → ℕ
fnv32a hash [] = hash
fnv32a hash (b ∷ bs) = fnv32a (bit_xor hash b * 16777619 % 2 ^ 32) bs

-- Reset, Write(b) and Sum32.
unfoldable pub sum32 : List ℕ → ℕ
unfolding fnv32a
sum32 = fnv32a 2166136261

-- The field `h` is left out: every call resets it before it is used.
pub record Deduper : Type 0 where
  pub h1 : ℕ
  pub h2 : ℕ

-- `var dedup deduper`
abbrev pub fresh : Deduper
fresh = record { h1 = 0; h2 = 0 }

unfoldable pub skip : Deduper → List ℕ → Bool × Deduper
skip d b =
    let h = sum32 b in
    if h == d.h1 && h == d.h2 then (true, d) else (false, record { h1 = d.h2; h2 = h })

-- The frames of a stream that are sent.
unfoldable pub deduped : Deduper → List (List ℕ) → List (List ℕ)
deduped d [] = []
deduped d (b ∷ bs) = let rest = deduped (skip d b).1 bs in if (skip d b).0 then rest else b ∷ rest
