-- ===== src/Aes/Threads/Started.antt =====
-- Whether the license thread is there to be joined.
use middleware_player_interf.Common.{Bool, true, false, ◌≡◌, refl, arith}
use middleware_player_interf.Aes.{
  DrmReturn, AesDec, init, signal, cancel_key_wait, restore_key_state,
}
use middleware_player_interf.Aes.Threads.{
  Worker, absent, Call, set_decrypt_info, release, decrypt_data, Caller, terminated, Reply, System,
  Step, call, time_over, wake, resume, join, fetch, signal_result, cancel, restore, Run, here, next,
  enter, proceed, start, joined, wait_result, notify_all, create_thread,
}

abbrev pub is_present : Worker → Bool
is_present absent = false
is_present _ = true

abbrev pub IsAlive : Caller → Type 0
IsAlive terminated = ⊥
IsAlive _ = Unit

-- The flag tells whether there is a thread, and the program has not ended.
pub record Inv (s : System) : Type 0 where
  pub agrees : s.dec.thread_started ≡ is_present s.license_thread
  pub alive : IsAlive s.caller

create_thread-Inv :
    (r : Reply) (err : DrmReturn) (s : AesDec)
    → s.thread_started ≡ false
    → Inv (create_thread r err absent s)
unfolding create_thread
create_thread-Inv r err s e = ground arith

proceed-Inv :
    (r : Reply) (c : Call) (err : DrmReturn) (w : Worker) (s : AesDec)
    → s.thread_started ≡ is_present w
    → Inv (proceed r c err w s)
unfolding proceed
proceed-Inv r (set_decrypt_info info time) err absent s e = ground arith
proceed-Inv r (set_decrypt_info info time) err w s e = ground arith
proceed-Inv r release err w s e = ground arith
proceed-Inv r (decrypt_data c bytes) err w s e = ground arith

enter-Inv :
    (r : Reply) (c : Call) (w : Worker) (s : AesDec)
    → s.thread_started ≡ is_present w
    → Inv (enter r c w s)
unfolding enter
enter-Inv r (set_decrypt_info info time) w s e =
    let t = record s { acquire_key_wait_time = time } in
    ground (arith, proceed-Inv r (set_decrypt_info info time) DrmReturn.error w t e)
enter-Inv r release w s e = ground (arith, proceed-Inv r release DrmReturn.error w s e)
enter-Inv r (decrypt_data c bytes) w s e =
    ground (arith, proceed-Inv r (decrypt_data c bytes) DrmReturn.error w s e)

Step-Inv : {s t : System} → Step s t → Inv s → Inv t
Step-Inv {s} (call r c result e) v = enter-Inv r c s.license_thread s.dec v.agrees
Step-Inv (time_over c e) v = ground arith
Step-Inv (wake c e) v = ground arith
Step-Inv {s} (resume r c late e) v =
    proceed-Inv r c (wait_result late) s.license_thread s.dec v.agrees
Step-Inv {s} (join r (set_decrypt_info info time) err e f) v =
    unfold joined in create_thread-Inv r err (record s.dec { thread_started = false }) refl
Step-Inv (join r release err e f) v = unfold joined in ground arith
Step-Inv (join r (decrypt_data c bytes) err e f) v = unfold joined in ground arith
Step-Inv (fetch ok key e) v = ground arith
Step-Inv (signal_result ok e u) v = unfold signal notify_all in ground arith
Step-Inv (cancel u) v = unfold cancel_key_wait notify_all in ground arith
Step-Inv (restore u) v = unfold restore_key_state in ground arith

-- Whatever the caller, the license thread and others do, and in whatever order: the flag
-- `licenseAcquisitionThreadStarted` tells whether there is a thread to join, and no thread is assigned
-- over one that is joinable, which would end the program.
pub thread_started_agrees : {t : System} → Run start t → Inv t
thread_started_agrees r = keeps r (unfold init in ground arith)
  where
    keeps : {s u : System} → Run s u → Inv s → Inv u
    keeps here v = v
    keeps (next st rest) v = keeps rest (Step-Inv st v)
