-- ===== src/Listener/Counting.antt =====
-- srvfb.go, listener.active: the counter is the number of connections in use.
use srvfb.Base.{
  ℕ, zero, suc, ◌+◌, ◌^◌, ◌≤◌, ◌<◌, ◌≡◌, refl, some, List, [], ◌∷◌, ◌++◌, arith, length, get_elem?,
  set, length-append, length-set,
}
use srvfb.Listener.{
  ConnState, opened, closing, closed, State, start, Step, lock, load_zero, load_busy, arm, accept,
  count, disarm, retry, fail, time_out, close_last, close_other, close_arm, close_again, tick,
  Steps, here, next, is_opened, total, open_conns, pending,
}

pub total-set :
    (w : ConnState → ℕ) (cs : List ConnState) (i : ℕ) {p : ConnState} (q : ConnState)
    → get_elem? cs i ≡ some p
    → total w (set cs i q) + w p ≡ total w cs + w q
total-set w [] i q h = cc
total-set w (c ∷ cs) zero q h = ground arith
total-set w (c ∷ cs) (suc i) q h = omega (arith, total-set w cs i q h)

pub total-append :
    (w : ConnState → ℕ) (cs ds : List ConnState) → total w (cs ++ ds) ≡ total w cs + total w ds
total-append w [] ds = omega arith
total-append w (c ∷ cs) ds = omega (arith, total-append w cs ds)

pub opened-le-length : (cs : List ConnState) → total is_opened cs ≤ length cs
opened-le-length [] = omega arith
opened-le-length (opened ∷ cs) = omega (arith, opened-le-length cs)
opened-le-length (c ∷ cs) = omega (arith, opened-le-length cs)

-- Fewer connections than a uint32 counts have been accepted.
abbrev pub IsSmall : State → Type 0
IsSmall s = length s.conns + 1 < 2 ^ 32

abbrev pub Counts : State → Type 0
Counts s = s.active ≡ open_conns s + pending s.acceptor

module _ {timeout : ℕ} {May : List ConnState → Type 0} where
  length-Step : {s t : State} → Step timeout May s t → length s.conns ≤ length t.conns
  length-Step {s} (disarm p m) = omega (arith, length-append s.conns (opened ∷ []))
  length-Step {s} (close_last i p q) = omega (arith, length-set s.conns i closing)
  length-Step {s} (close_other i p q) = omega (arith, length-set s.conns i closed)
  length-Step {s} (close_arm i p) = omega (arith, length-set s.conns i closed)
  length-Step st = omega arith

  pub smaller : {s t : State} → Step timeout May s t → IsSmall t → IsSmall s
  smaller st l = omega (arith, length-Step st)

  pub Step-Counts : {s t : State} → Step timeout May s t → IsSmall s → Counts s → Counts t
  Step-Counts {s} (disarm p m) l c = ground (arith, total-append is_opened s.conns (opened ∷ []))
  Step-Counts {s} (close_last i p q) l c =
      ground (arith, total-set is_opened s.conns i closing p, opened-le-length s.conns)
  Step-Counts {s} (close_other i p q) l c =
      ground (arith, total-set is_opened s.conns i closed p, opened-le-length s.conns)
  Step-Counts {s} (close_arm i p) l c = ground (arith, total-set is_opened s.conns i closed p)
  Step-Counts {s} (count p) l c = ground (arith, opened-le-length s.conns)
  Step-Counts (lock p) l c = ground arith
  Step-Counts (load_zero p q) l c = ground arith
  Step-Counts (load_busy p q) l c = ground arith
  Step-Counts (arm p) l c = ground arith
  Step-Counts (accept p q) l c = ground arith
  Step-Counts (retry p) l c = ground arith
  Step-Counts (fail p) l c = ground arith
  Step-Counts (time_out p q) l c = ground arith
  Step-Counts (close_again i p) l c = c
  Step-Counts tick l c = c

  -- In every state that the program reaches, whatever the goroutines do at the same time, `active`
  -- is the number of connections that Accept has returned and on which Close has not been called,
  -- and of the one that Accept is about to return; each connection counts once, however often it
  -- is closed. Fewer than 2 ^ 32 - 1 connections must have been accepted.
  pub Steps-Counts : {s : State} → Steps timeout May start s → IsSmall s → Counts s
  Steps-Counts here l = refl
  Steps-Counts (next r st) l =
      let small = smaller st l in Step-Counts st small (Steps-Counts r small)
