-- ===== src/Aes/Threads/Joining.antt =====
-- A join of the license thread before that thread has signalled.
use middleware_player_interf.Common.{true, false, ◌≡◌, arith}
use middleware_player_interf.Aes.{DrmReturn, AesDec, is_acquired}
use middleware_player_interf.Aes.Threads.{
  Worker, fetching, fetched, Call, set_decrypt_info, release, decrypt_data, Caller, joining, Reply,
  System, Step, call, time_over, wake, resume, join, fetch, signal_result, cancel, restore, Run,
  here, next, proceed,
}

-- The thread has not come to its signal.
abbrev pub IsBusy : Worker → Type 0
IsBusy fetching = Unit
IsBusy (fetched ok) = Unit
IsBusy _ = ⊥

abbrev pub IsJoining : Caller → Type 0
IsJoining (joining c err) = Unit
IsJoining _ = ⊥

abbrev IsStuck : System → Type 0
IsStuck s = IsBusy s.license_thread × IsJoining s.caller

Step-IsStuck : {s t : System} → Step s t → IsStuck s → IsStuck t
Step-IsStuck (call r c result e) q = ground arith
Step-IsStuck (time_over c e) q = ground arith
Step-IsStuck (wake c e) q = ground arith
Step-IsStuck (resume r c late e) q = ground arith
Step-IsStuck (join r c err e f) q = ground arith
Step-IsStuck (fetch ok key e) q = (tt, q.1)
Step-IsStuck (signal_result ok e u) q = ground arith
Step-IsStuck (cancel u) q = ground arith
Step-IsStuck (restore u) q = ground arith

Run-IsStuck : {s t : System} → Run s t → IsStuck s → IsStuck t
Run-IsStuck here q = q
Run-IsStuck (next st r) q = Run-IsStuck r (Step-IsStuck st q)

-- The calls that join the thread; `SetDecryptInfo` does not where it has the key of its URL.
abbrev pub Joins : Call → AesDec → Type 0
Joins (set_decrypt_info info time) s = is_acquired s.state ≡ false
Joins release s = Unit
Joins (decrypt_data c bytes) s = ⊥

proceed-IsStuck :
    (r : Reply) (c : Call) (err : DrmReturn) (w : Worker) (s : AesDec)
    → Joins c s
    → s.thread_started ≡ true
    → IsBusy w
    → IsStuck (proceed r c err w s)
unfolding proceed
proceed-IsStuck r (set_decrypt_info info time) err w s j e b = ground arith
proceed-IsStuck r release err w s j e b = ground arith
proceed-IsStuck r (decrypt_data c bytes) err w s j e b = absurd j

-- Where `SetDecryptInfo` or `Release` comes behind its wait, or needs none (after a cancellation, say),
-- while the license thread has not signalled yet, and the key is not acquired: it joins the thread with
-- the mutex locked that the thread needs for its signal. Whatever the threads then do, the call stays
-- in the join, and the thread does not end.
pub proceed_hangs :
    (r : Reply) (c : Call) (err : DrmReturn) (w : Worker) (s : AesDec) (t : System)
    → Joins c s
    → s.thread_started ≡ true
    → IsBusy w
    → Run (proceed r c err w s) t
    → IsJoining t.caller × IsBusy t.license_thread
proceed_hangs r c err w s t j e b run =
    let (busy, stuck) = Run-IsStuck run (proceed-IsStuck r c err w s j e b) in (stuck, busy)
