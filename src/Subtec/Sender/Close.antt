-- ===== src/Subtec/Sender/Close.antt =====
-- The handshake of `closeSenderTask` with the thread of `senderTask`, of
-- subtec/libsubtec/PacketSender.cpp: the flag `running`, the condition variable and the join. The flag
-- is set and the variable notified without the mutex that the thread holds.
use middleware_player_interf.Common.{Bool, true, false, ◌≡◌, ◌≢◌}
use mathlib.Core.Path.{subst}

-- The thread: before `running = true`, in the wait, in the loop over the queue, at the test of
-- `running`, and at its end.
data Worker : Type 0 where
  starting waiting draining testing ended : Worker

-- The caller of `closeSenderTask`: before it, behind the test of `running`, behind the assignment,
-- in the join, and behind it.
data Closer : Type 0 where
  before tested told joining closed : Closer

record Threads : Type 0 where
  pub running : Bool
  pub worker : Worker
  pub closer : Closer

-- `notify_all` wakes a thread that waits, and is lost on any other.
unfoldable notify : Worker → Worker
notify waiting = draining
notify w = w

-- One step of either thread; `notified` is the `SendPacket` of another thread.
data Step : Threads → Threads → Type 0 where
  start :
      {b : Bool} {c : Closer}
      → Step
          (record { running = b; worker = starting; closer = c })
          (record { running = true; worker = waiting; closer = c })
  drained :
      {b : Bool} {c : Closer}
      → Step
          (record { running = b; worker = draining; closer = c })
          (record { running = b; worker = testing; closer = c })
  again :
      {c : Closer}
      → Step
          (record { running = true; worker = testing; closer = c })
          (record { running = true; worker = starting; closer = c })
  stop :
      {c : Closer}
      → Step
          (record { running = false; worker = testing; closer = c })
          (record { running = false; worker = ended; closer = c })
  notified :
      {b : Bool} {w : Worker} {c : Closer}
      → Step
          (record { running = b; worker = w; closer = c })
          (record { running = b; worker = notify w; closer = c })
  skip :
      {w : Worker}
      → Step
          (record { running = false; worker = w; closer = before })
          (record { running = false; worker = w; closer = closed })
  test :
      {w : Worker}
      → Step
          (record { running = true; worker = w; closer = before })
          (record { running = true; worker = w; closer = tested })
  tell :
      {b : Bool} {w : Worker}
      → Step
          (record { running = b; worker = w; closer = tested })
          (record { running = false; worker = w; closer = told })
  notify_all :
      {b : Bool} {w : Worker}
      → Step
          (record { running = b; worker = w; closer = told })
          (record { running = b; worker = notify w; closer = joining })
  join :
      {b : Bool}
      → Step
          (record { running = b; worker = ended; closer = joining })
          (record { running = b; worker = ended; closer = closed })

data Run : Threads → Threads → Type 0 where
  done : {s : Threads} → Run s s
  then : {s t u : Threads} → Step s t → Run t u → Run s u

abbrev IsAlive : Worker → Type 0
IsAlive ended = ⊥
IsAlive _ = Unit

abbrev IsRaised : Bool → Type 0
IsRaised true = Unit
IsRaised false = ⊥

abbrev IsJoining : Closer → Type 0
IsJoining joining = Unit
IsJoining _ = ⊥

-- The worker has set `running` again after the closer cleared it.
abbrev Lost : Threads → Type 0
Lost s = IsRaised s.running × IsAlive s.worker × IsJoining s.closer

notify-IsAlive : (w : Worker) → IsAlive w → IsAlive (notify w)
unfolding notify
notify-IsAlive starting h = tt
notify-IsAlive waiting h = tt
notify-IsAlive draining h = tt
notify-IsAlive testing h = tt
notify-IsAlive ended h = h

Step-Lost : {s t : Threads} → Step s t → Lost s → Lost t
Step-Lost start (r, w, c) = (tt, tt, c)
Step-Lost drained (r, w, c) = (r, tt, c)
Step-Lost again (r, w, c) = (tt, tt, c)
Step-Lost stop (r, w, c) = absurd r
Step-Lost (notified {b} {w}) (r, a, c) = (r, notify-IsAlive w a, c)
Step-Lost skip (r, w, c) = absurd r
Step-Lost test (r, w, c) = absurd c
Step-Lost tell (r, w, c) = absurd c
Step-Lost notify_all (r, w, c) = absurd c
Step-Lost join (r, w, c) = absurd w

Run-Lost : {s t : Threads} → Run s t → Lost s → Lost t
Run-Lost done h = h
Run-Lost (then step rest) h = Run-Lost rest (Step-Lost step h)

-- The state in which `Init` has started the thread and a packet was sent.
abbrev busy : Threads
busy = record { running = true; worker = draining; closer = before }

abbrev hung : Threads
hung = record { running = true; worker = waiting; closer = joining }

ended-IsAlive : {w : Worker} → w ≡ ended → IsAlive w → ⊥
ended-IsAlive e h = subst (λ (v : Worker). IsAlive v) e h

closed-IsJoining : {c : Closer} → c ≡ closed → IsJoining c → ⊥
closed-IsJoining e h = subst (λ (v : Closer). IsJoining v) e h

-- The closer clears the flag and notifies between the test of the worker and its `running = true`.
Run-hung : Run busy hung
unfolding notify
Run-hung = then drained (then test (then again (then tell (then notify_all (then start done)))))

-- A thread that drains the queue while `closeSenderTask` is called can set `running` again behind the
-- notification: then no sequence of further steps, further packets included, ends the join.
Run-closed : Run busy hung × ((t : Threads) → Run hung t → (t.worker ≢ ended) × (t.closer ≢ closed))
Run-closed = (
  Run-hung,
  λ t run.
      let (set, alive, joined) = Run-Lost run (tt, tt, tt) in
      (λ e. ended-IsAlive e alive, λ e. closed-IsJoining e joined),
)
