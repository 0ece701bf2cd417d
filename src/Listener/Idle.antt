-- ===== src/Listener/Idle.antt =====
-- srvfb.go, listener: when the idle timeout stops the server.
use srvfb.Base.{
  ℕ, zero, suc, ◌+◌, ◌≤◌, ◌<◌, ◌≡◌, refl, ◌≢◌, inl, inr, none, some, List, [], ◌∷◌, arith,
  Option-cases,
}
use srvfb.Listener.{
  arming, waiting, stopped, ConnState, opened, closing, closed, State, start, Step, lock, load_zero,
  load_busy, arm, accept, count, disarm, retry, fail, time_out, close_last, close_other, close_arm,
  close_again, tick, Steps, here, next, is_opened, is_closing, total, open_conns, closing_conns,
}
use native.Mathlib.Decide.{dec_lt}
use srvfb.Listener.Counting.{
  IsSmall, smaller, Counts, Steps-Counts, total-set, total-append, opened-le-length,
}

-- No Close is between its decrement and its SetDeadline.
abbrev pub NoneClosing : List ConnState → Type 0
NoneClosing cs = total is_closing cs ≡ 0

-- While Accept waits, a deadline is set unless a connection is in use or is just being closed.
abbrev WillStop : State → Type 0
WillStop s = s.acceptor ≡ waiting → s.deadline ≡ none → open_conns s ≡ 0 → closing_conns s ≡ 0 → ⊥

module _ {timeout : ℕ} {May : List ConnState → Type 0} where
  Step-WillStop :
      {s t : State} → Step timeout May s t → IsSmall s → Counts s → WillStop s → WillStop t
  Step-WillStop (lock p) l c v = λ a d o z. ground arith
  Step-WillStop (load_zero p q) l c v = λ a d o z. ground arith
  Step-WillStop (load_busy p q) l c v = λ a d o z. ground arith
  Step-WillStop (arm p) l c v = λ a d o z. ground arith
  Step-WillStop (accept p q) l c v = λ a d o z. ground arith
  Step-WillStop (count p) l c v = λ a d o z. ground arith
  Step-WillStop (disarm p m) l c v = λ a d o z. ground arith
  Step-WillStop (retry p) l c v = λ a d o z. ground arith
  Step-WillStop (fail p) l c v = λ a d o z. ground arith
  Step-WillStop (time_out p q) l c v = λ a d o z. ground arith
  Step-WillStop {s} (close_last i p q) l c v =
      λ a d o z. ground (arith, total-set is_closing s.conns i closing p)
  Step-WillStop {s} (close_other i p q) l c v =
      λ a d o z. ground (arith, total-set is_opened s.conns i closed p, opened-le-length s.conns)
  Step-WillStop (close_arm i p) l c v = λ a d o z. ground arith
  Step-WillStop (close_again i p) l c v = v
  Step-WillStop tick l c v = v

  Steps-WillStop : {s : State} → Steps timeout May start s → IsSmall s → WillStop s
  Steps-WillStop here l = λ a d o z. cc
  Steps-WillStop (next r st) l =
      let small = smaller st l in
      Step-WillStop st small (Steps-Counts r small) (Steps-WillStop r small)

-- No deadline lies further ahead than the timeout.
abbrev IsNear : ℕ → State → Type 0
IsNear timeout s = (d : ℕ) → s.deadline ≡ some d → d ≤ s.now + timeout

module _ {timeout : ℕ} {May : List ConnState → Type 0} where
  Step-IsNear : {s t : State} → Step timeout May s t → IsNear timeout s → IsNear timeout t
  Step-IsNear (lock p) v d e = ground (arith, v d)
  Step-IsNear (load_zero p q) v d e = ground (arith, v d)
  Step-IsNear (load_busy p q) v d e = ground (arith, v d)
  Step-IsNear (arm p) v d e = ground arith
  Step-IsNear (accept p q) v d e = ground (arith, v d)
  Step-IsNear (count p) v d e = ground (arith, v d)
  Step-IsNear (disarm p m) v d e = cc
  Step-IsNear (retry p) v d e = ground (arith, v d)
  Step-IsNear (fail p) v d e = ground (arith, v d)
  Step-IsNear (time_out p q) v d e = ground (arith, v d)
  Step-IsNear (close_last i p q) v d e = ground (arith, v d)
  Step-IsNear (close_other i p q) v d e = ground (arith, v d)
  Step-IsNear (close_arm i p) v d e = ground arith
  Step-IsNear (close_again i p) v d e = ground (arith, v d)
  Step-IsNear tick v d e = ground (arith, v d)

  Steps-IsNear : {s : State} → Steps timeout May start s → IsNear timeout s
  Steps-IsNear here d e = cc
  Steps-IsNear (next r st) d e = Step-IsNear st (Steps-IsNear r) d e

  pub join : {s t u : State} → Steps timeout May s t → Steps timeout May t u → Steps timeout May s u
  join r here = r
  join r (next q st) = next (join r q) st

  before : {s t u : State} → Step timeout May s t → Steps timeout May t u → Steps timeout May s u
  before st here = next here st
  before st (next r last) = next (before st r) last

  -- The clock runs up to the deadline, and Accept returns errIdle.
  pub run_out :
      (n : ℕ) (s : State) (d : ℕ)
      → s.acceptor ≡ waiting
      → s.deadline ≡ some d
      → d ≤ s.now + n
      → (t : State) × Steps timeout May s t
        × (t.acceptor ≡ stopped)
        × (t.now ≤ s.now + n)
        × (t.conns ≡ s.conns)
  run_out zero s d w e l = (
    record s { acceptor = stopped },
    next here (time_out w (rw e (omega arith))),
    refl,
    omega arith,
    refl,
  )
  run_out (suc n) s d w e l =
      let (t, r, q, b, c) = run_out n (record s { now = s.now + 1 }) d w e (omega arith) in
      (t, before tick r, q, omega (arith, b), c)

  -- A run in which nothing but the clock makes a step.
  abbrev pub IsClock : {s t : State} → Steps timeout May s t → Type 0
  IsClock here = Unit {0}
  IsClock (next r tick) = IsClock r
  IsClock (next r st) = ⊥

  run-IsClock :
      (s : State) (n k : ℕ)
      → s.now + n ≡ k
      → (r : Steps timeout May s (record s { now = k })) × IsClock r
  run-IsClock s zero k e = let e' : s.now ≡ k = omega arith in rw (← e') (here, tt)
  run-IsClock s (suc n) k e =
      let (r, c) = run-IsClock s n (s.now + n) refl in
      let e' : s.now + n + 1 ≡ k = omega arith in rw (← e') (next r tick, c)

  -- The server does not linger: in every state that it reaches in which Accept waits, no connection
  -- is in use and none is just being closed, a deadline is set, no further ahead than the timeout;
  -- and steps of the clock alone, as many as the timeout has ticks, lead to a state in which Accept's
  -- next step is to return errIdle.
  pub idle_stops :
      {s : State}
      → Steps timeout May start s
      → IsSmall s
      → s.acceptor ≡ waiting
      → open_conns s ≡ 0
      → closing_conns s ≡ 0
      → let later = record s { now = s.now + timeout } in
        (d : ℕ) × (s.deadline ≡ some d)
        × (d ≤ s.now + timeout)
        × ((r : Steps timeout May s later) × IsClock r)
        × Step timeout May later (record later { acceptor = stopped })
  idle_stops {s} r l w o z = elim (Option-cases s.deadline) [
    | inl e ↦ absurd (Steps-WillStop r l w e o z)
    | inr (d, e) ↦
        let near = Steps-IsNear r d e in
        (d, e, near, run-IsClock s timeout (s.now + timeout) refl, time_out w (rw e near))
  ]

-- While a connection is in use there is no deadline, nor will one be set before it is closed.
abbrev Spares : State → Type 0
Spares s =
    0 < open_conns s
    → (s.deadline ≡ none) × (closing_conns s ≡ 0) × (s.acceptor ≢ arming) × (s.acceptor ≢ stopped)

module _ {timeout : ℕ} where
  Step-Spares :
      {s t : State} → Step timeout NoneClosing s t → IsSmall s → Counts s → Spares s → Spares t
  Step-Spares (lock p) l c v h = ground (arith, v h)
  Step-Spares (load_zero p q) l c v h = ground (arith, v h)
  Step-Spares (load_busy p q) l c v h = ground (arith, v h)
  Step-Spares (arm p) l c v h = ground (arith, v h)
  Step-Spares (accept p q) l c v h = ground (arith, v h)
  Step-Spares (count p) l c v h = ground (arith, v h)
  Step-Spares {s} (disarm p m) l c v h =
      ground (arith, total-append is_closing s.conns (opened ∷ []))
  Step-Spares (retry p) l c v h = ground (arith, v h)
  Step-Spares (fail p) l c v h = ground (arith, v h)
  Step-Spares (time_out p q) l c v h = ground (arith, v h)
  Step-Spares {s} (close_last i p q) l c v h =
      ground (arith, total-set is_opened s.conns i closing p, opened-le-length s.conns)
  Step-Spares {s} (close_other i p q) l c v h =
      let o = total-set is_opened s.conns i closed p in
      ground (arith, total-set is_closing s.conns i closed p, v (omega (arith, o)))
  Step-Spares {s} (close_arm i p) l c v h =
      let o = total-set is_opened s.conns i closed p in
      ground (arith, total-set is_closing s.conns i closed p, v (omega (arith, o)))
  Step-Spares (close_again i p) l c v h = v h
  Step-Spares tick l c v h = v h

  Steps-Spares : {s : State} → Steps timeout NoneClosing start s → IsSmall s → Spares s
  Steps-Spares here l h = absurd (omega arith)
  Steps-Spares (next r st) l h =
      let small = smaller st l in
      Step-Spares st small (Steps-Counts r small) (Steps-Spares r small) h

  -- In runs in which Accept hands out no connection while another goroutine is inside Close,
  -- between its decrement and its SetDeadline, the listener stops only if no connection is in use.
  pub stops_idle :
      {s : State}
      → Steps timeout NoneClosing start s
      → IsSmall s
      → s.acceptor ≡ stopped
      → open_conns s ≡ 0
  stops_idle {s} r l e = elim (dec_lt 0 (open_conns s)) [
    | yes h ↦ absurd ((Steps-Spares r l h).3 e)
    | no h ↦ omega arith
  ]
