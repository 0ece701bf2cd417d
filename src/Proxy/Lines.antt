-- ===== src/Proxy/Lines.antt =====
-- srvfb.go, (proxyconn).readImage: the lines of a picture lie in its bytes, and a read does not panic.
use text.Mathlib.Text.{◌==◌ as str_eq}
use srvfb.Base.{
  ℕ, ◌*◌, ◌≤◌, ◌≡◌, inl, inr, not, List, [], ◌∷◌, arith, ltb, ◌==◌, ==_iff, tests, Bool-cases,
  length, length-take, length-replicate,
}
use srvfb.Base.Bytes.{Bytes}
use srvfb.Base.Outcome.{Outcome, ok, err, panic, ◌>>=◌}
use srvfb.Image.{Gray16, rect, dy}
use srvfb.Handler.{Error}
use srvfb.Handler.Lines.{HasLines}
use srvfb.Serve.Http.{Part}
use srvfb.Proxy.Stream.{allocated-small}
use srvfb.Proxy.{max_alloc, ProxyConn, read_image, buffer, read_full, octets, next_part}

abbrev IsFilled : ℕ → Outcome Error Bytes → Type 0
IsFilled n (ok b) = length b ≡ n
IsFilled n (err e) = Unit
IsFilled n panic = ⊥

read_full-IsFilled : (body : Bytes) (n : ℕ) → IsFilled n (read_full body n)
unfolding read_full
read_full-IsFilled body n = elim (Bool-cases (n == 0)) [
  | inl e ↦ rw e (omega (arith, (==_iff n 0).0 e))
  | inr e ↦ elim (Bool-cases (length body == 0)) [
    | inl e' ↦ rw (e, e') tt
    | inr e' ↦ elim (Bool-cases (ltb (length body) n)) [
      | inl f ↦ rw (e, e', f) tt
      | inr f ↦ rw (e, e', f) (grind (arith, tests, length-take n body))
    ]
  ]
]

-- The header asks for a buffer that make allocates.
abbrev pub IsAllocatable : ProxyConn → Type 0
IsAllocatable c = c.stride * c.height ≤ max_alloc

-- A picture with all its lines, or an error.
abbrev pub Keeps : Outcome Error (Gray16 × ProxyConn) → Type 0
Keeps (ok (im, c)) = HasLines im × IsAllocatable c
Keeps (err e) = Unit
Keeps panic = ⊥

-- The new buffer has a line for each of the rectangle.
buffer-HasLines : (c : ProxyConn) (im : Gray16) → HasLines im → HasLines (buffer c im)
unfolding buffer dy rect
buffer-HasLines c im h = elim (Bool-cases (length im.pix == c.stride * c.height)) [
  | inl e ↦ rw e h
  | inr e ↦ rw (e, length-replicate {A = ℕ} (c.stride * c.height) 0) (grind arith)
]

pub read_image-Keeps :
    (c : ProxyConn) (im : Gray16) → HasLines im → IsAllocatable c → Keeps (read_image c im)
unfolding read_image octets next_part
read_image-Keeps c im h a = rw (allocated-small c im a) (by_parts c.r)
  where
    im' : Gray16
    im' = buffer c im

    filled :
        (ps : List Part) (o : Outcome Error Bytes)
        → IsFilled (length im'.pix) o
        → Keeps (o >>= λ pix. ok (record im' { pix = pix }, record c { r = ps }))
    filled ps (ok b) e = (rw e (buffer-HasLines c im h), a)
    filled ps (err e) f = tt
    filled ps panic f = f

    by_parts :
        (ps : List Part)
        → Keeps (
            next_part ps >>= λ p. octets p.0 >>= λ _. read_full p.0.body (length im'.pix) >>= λ pix.
            ok (record im' { pix = pix }, record c { r = p.1 }))
    by_parts [] = tt
    by_parts (p ∷ ps) = elim (Bool-cases (not (str_eq p.content_type "binary/octet-stream"))) [
      | inl e ↦ rw e tt
      | inr e ↦ rw e (filled ps (read_full p.body (length im'.pix)) (read_full-IsFilled p.body _))
    ]
