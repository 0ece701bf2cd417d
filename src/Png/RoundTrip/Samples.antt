-- ===== src/Png/RoundTrip/Samples.antt =====
-- internal/png: a compression and a checksum for tests.
use srvfb.Base.{
  ℕ, zero, suc, ◌%◌, ◌^◌, ◌<◌, ◌≡◌, refl, ap, List, [], ◌∷◌, ◌++◌, arith, length, length-append,
  get_or, drop,
}
use srvfb.Base.Bytes.{Bytes}
use srvfb.Png.Files.{Inflated, more, done, corrupt}
use srvfb.Png.Encode.{ZlibLevel}
use srvfb.Png.RoundTrip.Draw.{flatten}
use srvfb.Png.RoundTrip.Stream.{AllSized}
use srvfb.Png.RoundTrip.Encoded.{IsZlib}

-- A compression for the tests: each byte follows a one, and a zero stands at the end.
abbrev pub blocks : ZlibLevel → Bytes → List Bytes
blocks l [] = (0 ∷ []) ∷ []
blocks l (x ∷ xs) = (1 ∷ x ∷ []) ∷ blocks l xs

abbrev push : ℕ → Inflated → Inflated
push x more = more
push x (done xs) = done (x ∷ xs)
push x corrupt = corrupt

abbrev pub inflate : Bytes → Inflated
inflate [] = more
inflate (zero ∷ xs) = done []
inflate (suc n ∷ []) = more
inflate (suc n ∷ x ∷ xs) = push x (inflate xs)

several : (l : ZlibLevel) (rows : Bytes) → 0 < length (blocks l rows)
several l [] = omega arith
several l (x ∷ xs) = omega arith

all_sized : (l : ZlibLevel) (rows : Bytes) → AllSized (blocks l rows)
all_sized l [] = (omega arith, omega arith, tt)
all_sized l (x ∷ xs) = (omega arith, omega arith, all_sized l xs)

ends : (l : ZlibLevel) (rows : Bytes) → inflate (flatten (blocks l rows)) ≡ done rows
ends l [] = refl
ends l (x ∷ xs) = rw (ends l xs) refl

grows :
    (l : ZlibLevel) (rows xs ys : Bytes)
    → xs ++ ys ≡ flatten (blocks l rows)
    → 0 < length ys
    → inflate xs ≡ more
grows l rows [] ys e h = refl
grows l [] (x ∷ xs) ys e h = absurd (omega (arith, ap length e, length-append xs ys))
grows l (r ∷ rows) (x ∷ []) ys e h = let one : x ≡ 1 = ap (λ b. get_or b 0 0) e in rw one refl
grows l (r ∷ rows) (x ∷ y ∷ xs) ys e h =
    let one : x ≡ 1 = ap (λ b. get_or b 0 0) e in
    let rest : xs ++ ys ≡ flatten (blocks l rows) = ap (drop 2) e in
    rw (one, grows l rows xs ys rest h) refl

pub blocks-IsZlib : IsZlib blocks inflate
blocks-IsZlib = record {
  several = several;
  sized = all_sized;
  streams = λ l rows. record { grows = grows l rows; ends = ends l rows };
}

abbrev pub crc : Bytes → ℕ
crc b = length b % 2 ^ 32

pub crc-lt : (b : Bytes) → crc b < 2 ^ 32
crc-lt b = omega arith
