-- ===== src/Base/Bytes.antt =====
-- encoding/binary's big-endian numbers, io.ReadFull, the builtin `copy`, and predicates on bytes.
use Prim.Native.Nat.{ℕ, ◌+◌, ◌*◌, ◌/◌, ◌%◌, ◌^◌}
use mathlib.Core.Path.{◌≡◌, refl, ap}
use mathlib.Core.List.{List, [], ◌∷◌, ◌++◌}
use native.Mathlib.Omega.{arith}
use srvfb.Base.Lists.{length, take, drop}

abbrev pub Bytes : Type 0
Bytes = List ℕ

-- PutUint16 and PutUint32 of a number, of which they keep the low bits.
abbrev pub put_uint16 : ℕ → Bytes
put_uint16 n = (n / 2 ^ 8 % 2 ^ 8) ∷ (n % 2 ^ 8) ∷ []

abbrev pub put_uint32 : ℕ → Bytes
put_uint32 n = (n / 2 ^ 24 % 2 ^ 8) ∷ (n / 2 ^ 16 % 2 ^ 8) ∷ (n / 2 ^ 8 % 2 ^ 8) ∷ (n % 2 ^ 8) ∷ []

abbrev pub uint16 : ℕ → ℕ → ℕ
uint16 a b = a * 2 ^ 8 + b

abbrev pub uint32 : ℕ → ℕ → ℕ → ℕ → ℕ
uint32 a b c d = a * 2 ^ 24 + b * 2 ^ 16 + c * 2 ^ 8 + d

-- copy(dst, src): as many bytes as both have.
abbrev pub copy : Bytes → Bytes → Bytes
copy dst src = take (length dst) src ++ drop (length src) dst

module _ {ℓ} {A : Type ℓ} where
  pub take-length : (xs : List A) → take (length xs) xs ≡ xs
  take-length [] = refl
  take-length (x ∷ xs) = ap (◌∷◌ x) (take-length xs)

  pub drop-length : (xs : List A) → drop (length xs) xs ≡ []
  drop-length [] = refl
  drop-length (x ∷ xs) = drop-length xs

  pub append-nil_eq : (xs : List A) → xs ++ [] ≡ xs
  append-nil_eq [] = refl
  append-nil_eq (x ∷ xs) = ap (◌∷◌ x) (append-nil_eq xs)

  pub take-append_length : (xs ys : List A) → take (length xs) (xs ++ ys) ≡ xs
  take-append_length [] ys = refl
  take-append_length (x ∷ xs) ys = ap (◌∷◌ x) (take-append_length xs ys)

  pub drop-append_length : (xs ys : List A) → drop (length xs) (xs ++ ys) ≡ ys
  drop-append_length [] ys = refl
  drop-append_length (x ∷ xs) ys = drop-append_length xs ys

-- A copy between slices of one length overwrites the whole of `dst`.
pub copy-eq : (dst src : Bytes) → length dst ≡ length src → copy dst src ≡ src
copy-eq [] [] h = refl
copy-eq [] (y ∷ ys) h = absurd (omega arith)
copy-eq (x ∷ xs) [] h = absurd (omega arith)
copy-eq (x ∷ xs) (y ∷ ys) h = ap (◌∷◌ y) (copy-eq xs ys (omega arith))
