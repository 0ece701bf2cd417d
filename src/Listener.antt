-- ===== src/Listener.antt =====
-- srvfb.go, listener and conn: an idle timeout for a TCP listener. Accept and Close run at the same
-- time in different goroutines; each access to shared state is one step, and the steps of all
-- goroutines interleave in any order.
pub mod Counting
pub mod Idle
pub mod Race
mod Tests
use srvfb.Base.{
  ℕ, zero, suc, ◌+◌, ◌-◌, ◌*◌, ◌/◌, ◌%◌, ◌^◌, ◌≤◌, ◌<◌, min, bit_and, bit_or, bit_xor, ◌≡◌, refl,
  sym, ap, ap₂, ◌∙◌, ◌≡⟨◌⟩◌, ◌∎, ◌≢◌, ◌↔◌, ◌⊎◌, inl, inr, Bool, true, false, not, ◌&&◌, ◌||◌,
  Option, none, some, List, [], ◌∷◌, ◌++◌, map, append-nil, append_assoc, arith, ltb, leb, ◌==◌,
  if◌then◌else◌, ltb→lt, lt→ltb, leb→le, le→leb, ==_iff, tests, Bool-cases, Option-cases, length,
  get_elem?, set, length-append, length-set, get_elem?-set_self, get_elem?-set_ne, get_or, take,
  drop, replicate, take-append-drop, length-take, length-drop, length-replicate, length-map,
}

-- Where the goroutine that calls Accept stands. http.Serve calls it again after each return with a
-- connection or with a temporary error, and returns with any other error; `acceptMu` keeps all
-- others out.
pub data Acceptor : Type 0 where
  outside : Acceptor
  locked : Acceptor  -- holds `acceptMu`, before the load of `active`
  arming : Acceptor  -- `active` was 0, before SetDeadline
  waiting : Acceptor  -- in l.TCPListener.Accept()
  accepted : Acceptor  -- has a connection, before `active` is incremented
  counted : Acceptor  -- before SetDeadline(time.Time{})
  stopped : Acceptor  -- has returned errIdle
  failed : Acceptor  -- has returned another error, which is not temporary

-- Where the once-only function of a connection's Close stands.
pub data ConnState : Type 0 where
  opened : ConnState  -- Close has not been called
  closing : ConnState  -- has decremented `active` to 0, before SetDeadline
  closed : ConnState

-- `deadline` is that of the TCP listener: none is the zero time, which never passes.
pub record State : Type 0 where
  pub now : ℕ
  pub active : ℕ  -- uint32
  pub deadline : Option ℕ
  pub acceptor : Acceptor
  pub conns : List ConnState

-- `c` connections are returned by Accept in turn; index i is that of the i-th.
abbrev pub start : State
start = record { now = 0; active = 0; deadline = none; acceptor = outside; conns = [] }

-- atomic.AddUint32(&active, 1) and atomic.AddUint32(&active, ^uint32(0))
abbrev pub increment : ℕ → ℕ
increment n = (n + 1) % 2 ^ 32

abbrev pub decrement : ℕ → ℕ
decrement n = (n + (2 ^ 32 - 1)) % 2 ^ 32

abbrev pub HasPassed : ℕ → Option ℕ → Type 0
HasPassed now none = ⊥
HasPassed now (some d) = d ≤ now

-- One step of one goroutine, or of the clock. `May` restricts, where a theorem says so, in which
-- states of the connections a new connection is handed out; the program has no such restriction.
pub data Step (timeout : ℕ) (May : List ConnState → Type 0) (s : State) : State → Type 0 where
  lock : s.acceptor ≡ outside → Step timeout May s (record s { acceptor = locked })
  load_zero :
      s.acceptor ≡ locked → s.active ≡ 0 → Step timeout May s (record s { acceptor = arming })
  load_busy :
      s.acceptor ≡ locked → s.active ≢ 0 → Step timeout May s (record s { acceptor = waiting })
  arm :
      s.acceptor ≡ arming
      → Step timeout May s (record s { acceptor = waiting; deadline = some (s.now + timeout) })
  accept :
      s.acceptor ≡ waiting
      → ¬ (HasPassed s.now s.deadline)
      → Step timeout May s (record s { acceptor = accepted })
  count :
      s.acceptor ≡ accepted
      → Step timeout May s (record s { acceptor = counted; active = increment s.active })
  disarm :
      s.acceptor ≡ counted
      → May s.conns
      → Step timeout May s
          (record s { acceptor = outside; deadline = none; conns = s.conns ++ (opened ∷ []) })
  retry : s.acceptor ≡ waiting → Step timeout May s (record s { acceptor = outside })
  fail : s.acceptor ≡ waiting → Step timeout May s (record s { acceptor = failed })
  time_out :
      s.acceptor ≡ waiting
      → HasPassed s.now s.deadline
      → Step timeout May s (record s { acceptor = stopped })
  close_last :
      (i : ℕ)
      → get_elem? s.conns i ≡ some opened
      → decrement s.active ≡ 0
      → Step timeout May s (record s { active = decrement s.active; conns = set s.conns i closing })
  close_other :
      (i : ℕ)
      → get_elem? s.conns i ≡ some opened
      → decrement s.active ≢ 0
      → Step timeout May s (record s { active = decrement s.active; conns = set s.conns i closed })
  close_arm :
      (i : ℕ)
      → get_elem? s.conns i ≡ some closing
      → Step timeout May s
          (record s { deadline = some (s.now + timeout); conns = set s.conns i closed })
  close_again : (i : ℕ) → get_elem? s.conns i ≡ some closed → Step timeout May s s
  tick : Step timeout May s (record s { now = s.now + 1 })

pub data Steps (timeout : ℕ) (May : List ConnState → Type 0) (s : State) : State → Type 0 where
  here : Steps timeout May s s
  next : {t u : State} → Steps timeout May s t → Step timeout May t u → Steps timeout May s u

-- The program's own runs.
abbrev pub Always : List ConnState → Type 0
Always cs = Unit {0}

abbrev pub is_opened : ConnState → ℕ
is_opened opened = 1
is_opened _ = 0

abbrev pub is_closing : ConnState → ℕ
is_closing closing = 1
is_closing _ = 0

abbrev pub total : (ConnState → ℕ) → List ConnState → ℕ
total w [] = 0
total w (c ∷ cs) = w c + total w cs

-- Connections that Accept has returned and on which Close has not been called.
abbrev pub open_conns : State → ℕ
open_conns s = total is_opened s.conns

abbrev pub closing_conns : State → ℕ
closing_conns s = total is_closing s.conns

-- The connection that Accept has counted and not yet returned.
abbrev pub pending : Acceptor → ℕ
pending counted = 1
pending _ = 0
