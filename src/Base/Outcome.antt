-- ===== src/Base/Outcome.antt =====
-- What a Go function returns: a value, an error, or a run-time panic.
use Prim.Native.Nat.{ℕ, ◌-◌, ◌≤◌}
use mathlib.Core.Path.{◌≡◌}
use mathlib.Core.Bool.{Bool, true, false, ◌&&◌}
use mathlib.Core.List.{List}
use srvfb.Base.Tests.{leb, le→leb, if◌then◌else◌}
use srvfb.Base.Lists.{length, take, drop}

pub data Outcome {ℓ} (E : Type 0) (A : Type ℓ) : Type ℓ where
  ok : A → Outcome E A
  err : E → Outcome E A
  panic : Outcome E A

infixl 5 ◌>>=◌ ◌>>◌
abbrev pub ◌>>=◌ {ℓ κ} :
    {E : Type 0} {A : Type ℓ} {B : Type κ} → Outcome E A → (A → Outcome E B) → Outcome E B
ok a >>= f = f a
err e >>= f = err e
panic >>= f = panic

abbrev pub ◌>>◌ {ℓ} : {E : Type 0} {B : Type ℓ} → Outcome E (Unit {0}) → Outcome E B → Outcome E B
m >> k = m >>= λ _. k

-- `if bad { return e }`
abbrev pub reject_if : {E : Type 0} → Bool → E → Outcome E (Unit {0})
reject_if true e = err e
reject_if false e = ok tt

-- `b[lo:hi]` on a slice whose capacity is its length.
unfoldable pub slice {ℓ} : {E : Type 0} {A : Type ℓ} → List A → ℕ → ℕ → Outcome E (List A)
slice xs lo hi = if leb lo hi && leb hi (length xs) then ok (take (hi - lo) (drop lo xs)) else panic

pub slice-in_bounds {ℓ} :
    {E : Type 0} {A : Type ℓ} (xs : List A) (lo hi : ℕ)
    → lo ≤ hi
    → hi ≤ length xs
    → slice {E = E} xs lo hi ≡ ok (take (hi - lo) (drop lo xs))
unfolding slice
slice-in_bounds xs lo hi p q = rw (le→leb _ _ p, le→leb _ _ q)
