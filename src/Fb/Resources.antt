-- ===== src/Fb/Resources.antt =====
-- internal/fb/fb.go: Open and Close release what they acquire.
use srvfb.Base.{ℕ, ◌+◌, ◌≡◌, refl, ◌↔◌, List, [], ◌∷◌, ◌++◌, arith, ◌==◌, if◌then◌else◌}
use srvfb.Base.Outcome.{ok, err, panic}
use srvfb.Fb.{
  close_result, Call, unmapping, closing, Reply, done, errno, Kernel, Device, Traced, open_device,
  close_device,
}

-- The descriptors that a sequence of calls leaves open, given what `open` answered in it.
abbrev pub count_closing : ℕ → List Call → ℕ
count_closing fd [] = 0
count_closing fd (closing x ∷ cs) = (if x == fd then 1 else 0) + count_closing fd cs
count_closing fd (c ∷ cs) = count_closing fd cs

abbrev pub Released : ℕ → Traced Device → Type 0
Released fd (ok d, calls) = (d.fd ≡ fd) × (count_closing fd calls ≡ 0)
Released fd (err e, calls) = count_closing fd calls ≡ 1
Released fd (panic, calls) = ⊥

-- Once the kernel has given Open a descriptor, Open either returns a device with that descriptor,
-- which it has not closed, or returns an error and has closed the descriptor exactly once.
pub open_device-Released :
    (k : Kernel) (dev : List ℕ) (fd : ℕ)
    → k.open_reply [] dev ≡ done fd
    → Released fd (open_device k dev)
unfolding open_device
open_device-Released k dev fd h = ground arith

count_closing-append :
    (fd : ℕ) (xs ys : List Call)
    → count_closing fd (xs ++ ys) ≡ count_closing fd xs + count_closing fd ys
count_closing-append fd [] ys = omega arith
count_closing-append fd (closing x ∷ xs) ys = ground (arith, count_closing-append fd xs ys)
count_closing-append fd (c ∷ xs) ys = count_closing-append fd xs ys

open_device-ok :
    (k : Kernel) (dev : List ℕ) (d : Device) (calls : List Call)
    → open_device k dev ≡ (ok d, calls)
    → count_closing d.fd calls ≡ 0
unfolding open_device
open_device-ok k dev d calls h = ground arith

close_result_iff :
    (k : Kernel) (e1 e2 : Reply (Unit {0}))
    → (close_result k e1 e2 ≡ ok tt) ↔ ((e1 ≡ done tt) × (e2 ≡ done tt))
unfolding close_result
close_result_iff k (done _) (done _) = (λ h. (refl, refl), λ h. refl)
close_result_iff k (done _) (errno n) = (λ h. cc, λ h. cc (h.1))
close_result_iff k (errno n) (done _) = (λ h. cc, λ h. cc (h.0))
close_result_iff k (errno n) (errno m) = (λ h. cc, λ h. cc (h.0))

-- Close on a device that Open returned closes its descriptor exactly once, whether or not the
-- memory can be unmapped; it succeeds exactly if both of its system calls do.
pub close_device-opened :
    (k : Kernel) (dev : List ℕ) (d : Device) (calls : List Call)
    → open_device k dev ≡ (ok d, calls)
    → let closed = close_device k d calls in
      (count_closing d.fd closed.1 ≡ 1)
      × ((closed.0 ≡ ok tt) ↔ (
          (k.munmap_reply calls d.mmap ≡ done tt)
          × (k.close_reply (calls ++ (unmapping d.mmap ∷ [])) d.fd ≡ done tt)))
unfolding close_device
close_device-opened k dev d calls h = (
  ground (
    arith,
    count_closing-append d.fd (calls ++ (unmapping d.mmap ∷ [])) (closing d.fd ∷ []),
    count_closing-append d.fd calls (unmapping d.mmap ∷ []),
    open_device-ok k dev d calls h,
  ),
  close_result_iff k _ _,
)
