-- ===== src/Listener/Race.antt =====
-- srvfb.go, listener: Accept and Close are not atomic, and a server in use can stop.
use srvfb.Base.{ℕ, ◌+◌, ◌<◌, ◌≡◌, refl, ap, none, some, [], ◌∷◌, arith}
use srvfb.Listener.{
  outside, waiting, stopped, opened, closing, closed, State, start, lock, load_zero, load_busy, arm,
  accept, count, disarm, close_last, close_arm, Steps, here, next, Always, is_opened, total,
  open_conns,
}
use srvfb.Listener.Idle.{run_out, join}

-- A connection comes and is closed; between the decrement and the SetDeadline of its Close, Accept
-- hands out a second one; Close then sets the deadline all the same, and Accept waits again.
abbrev overtaken : ℕ → State
overtaken timeout = record {
  now = 0;
  active = 1;
  deadline = some (0 + timeout);
  acceptor = waiting;
  conns = closed ∷ opened ∷ [];
}

module _ (timeout : ℕ) (pos : 0 < timeout) where
  abbrev Run : State → Type 0
  Run = Steps timeout Always start

  one_open :
      Run (record { now = 0; active = 1; deadline = none; acceptor = outside; conns = opened ∷ [] })
  one_open =
      next
        (next
          (next (next (next (next here (lock refl)) (load_zero refl refl)) (arm refl))
            (accept refl (λ h. omega arith)))
          (count refl))
        (disarm refl tt)

  -- The second connection is handed out while the first is being closed.
  both : Run (record {
    now = 0;
    active = 1;
    deadline = none;
    acceptor = outside;
    conns = closing ∷ opened ∷ [];
  })
  both =
      next
        (next
          (next
            (next (next (next one_open (lock refl)) (load_busy refl (omega arith)))
              (close_last 0 refl refl))
            (accept refl (λ h. h)))
          (count refl))
        (disarm refl tt)

  Steps-overtaken : Run (overtaken timeout)
  Steps-overtaken =
      next (next (next both (close_arm 0 refl)) (lock refl)) (load_busy refl (omega arith))

  -- With any timeout the program has a run that ends with errIdle while a connection that Accept
  -- has returned is in use: Close and Accept do not guard the counter and the deadline together.
  pub race_stops :
      (t : State) × Steps timeout Always start t × (t.acceptor ≡ stopped) × (open_conns t ≡ 1)
  race_stops =
      let (t, r, q, b, c) =
        run_out timeout (overtaken timeout) (0 + timeout) refl refl (omega arith) in
      (t, join Steps-overtaken r, q, ap (total is_opened) c)
