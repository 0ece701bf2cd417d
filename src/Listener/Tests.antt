-- ===== src/Listener/Tests.antt =====
-- srvfb.go, listener: the theorems at concrete runs.
use srvfb.Base.{ℕ, ◌+◌, ◌≤◌, ◌≡◌, refl, none, some, List, [], ◌∷◌, arith}
use srvfb.Listener.{
  outside, waiting, stopped, ConnState, opened, closed, State, start, Step, lock, load_zero,
  load_busy, arm, accept, count, disarm, time_out, close_last, close_arm, tick, Steps, here, next,
  Always, open_conns,
}
use srvfb.Listener.Counting.{Steps-Counts}
use srvfb.Listener.Idle.{IsClock, NoneClosing, idle_stops, stops_idle}
use srvfb.Listener.Race.{race_stops}

-- One connection has come, with a timeout of 60.
abbrev served : State
served = record { now = 0; active = 1; deadline = none; acceptor = outside; conns = opened ∷ [] }

Steps-served : {May : List ConnState → Type 0} → May [] → Steps 60 May start served
Steps-served m =
    next
      (next
        (next (next (next (next here (lock refl)) (load_zero refl refl)) (arm refl))
          (accept refl (λ h. omega arith)))
        (count refl))
      (disarm refl m)

Steps-Counts_example : ◌≡◌ {A = ℕ} 1 (1 + 0)
Steps-Counts_example = Steps-Counts {s = served} (Steps-served {May = Always} tt) (omega arith)

Steps-armed :
    {May : List ConnState → Type 0}
    → Steps 60 May start (record start { acceptor = waiting; deadline = some 60 })
Steps-armed = next (next (next here (lock refl)) (load_zero refl refl)) (arm refl)

idle_stops_example :
    let s : State = record start { acceptor = waiting; deadline = some 60 } in
    let later : State = record s { now = 0 + 60 } in
    (d : ℕ) × (s.deadline ≡ some d)
    × (d ≤ 0 + 60)
    × ((r : Steps 60 Always s later) × IsClock r)
    × Step 60 Always later (record later { acceptor = stopped })
idle_stops_example = idle_stops Steps-armed (omega arith) refl refl refl

-- The connection is closed, and a tick later the timeout of 1 has passed.
abbrev one_served : State
one_served = record {
  now = 1;
  active = 0;
  deadline = some 1;
  acceptor = stopped;
  conns = closed ∷ [];
}

Steps-stopped : Steps 1 NoneClosing start one_served
Steps-stopped =
    next
      (next
        (next
          (next
            (next
              (next
                (next
                  (next
                    (next (next (next (next here (lock refl)) (load_zero refl refl)) (arm refl))
                      (accept refl (λ h. omega arith)))
                    (count refl))
                  (disarm refl refl))
                (lock refl))
              (load_busy refl (omega arith)))
            (close_last 0 refl refl))
          (close_arm 0 refl))
        tick)
      (time_out refl (omega arith))

stops_idle_example : open_conns one_served ≡ 0
stops_idle_example = stops_idle Steps-stopped (omega arith) refl

race_stops_example :
    (t : State) × Steps 60 Always start t × (t.acceptor ≡ stopped) × (open_conns t ≡ 1)
race_stops_example = race_stops 60 (omega arith)
