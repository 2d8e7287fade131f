-- ===== src/Scheduler/Quiet.antt =====
-- A suspended scheduler with an empty queue stays so.
use middleware_player_interf.Common.{◌≡◌, true, List, [], All, arith}
use middleware_player_interf.Scheduler.{
  control, Scheduler, push_task, remove_all_tasks, erase_id, remove_task, set_lock_out,
}
use middleware_player_interf.Scheduler.Interleaving.{
  Label, Step, schedule, remove, remove_all, start, stop, join, lock, unlock, close, reopen, poll,
  leave, enter, take, finish, Run, here, next, Inv, Step-Inv, owner-of_holding,
}

module _ {A : Type 0} where
  -- A caller holds the execution lock, scheduling is locked out, and the queue is empty.
  pub record IsQuiet (s : Scheduler A) : Type 0 where
    pub suspended : s.ex_owner ≡ control
    pub locked_out : s.lock_out ≡ true
    pub emptied : s.task_queue ≡ []

  -- Every step but the two halves of `ResumeScheduler` (and `EnableScheduleTask`).
  abbrev pub Keeps : Label A → Type 0
  Keeps Label.unlock = ⊥
  Keeps Label.reopen = ⊥
  Keeps _ = Unit

  Step-IsQuiet :
      {s t : Scheduler A} {l : Label A} → Step s l t → Keeps l → Inv s → IsQuiet s → IsQuiet t
  Step-IsQuiet (schedule w) k v q = unfold push_task in ground arith
  Step-IsQuiet (remove id) k v q = unfold remove_task erase_id in ground arith
  Step-IsQuiet remove_all k v q = unfold remove_all_tasks in ground arith
  Step-IsQuiet (start h) k v q = ground arith
  Step-IsQuiet stop k v q = ground arith
  Step-IsQuiet (join h) k v q = ground arith
  Step-IsQuiet (lock h) k v q = cc
  Step-IsQuiet (unlock h) k v q = absurd k
  Step-IsQuiet close k v q = unfold set_lock_out in ground arith
  Step-IsQuiet reopen k v q = absurd k
  Step-IsQuiet (poll h r n) k v q = ground arith
  Step-IsQuiet (leave h r) k v q = ground arith
  Step-IsQuiet (enter h o) k v q = cc
  Step-IsQuiet {s} (take h) k v q = absurd (cc (owner-of_holding s v (ground arith)))
  Step-IsQuiet {s} (finish t h) k v q = absurd (cc (owner-of_holding s v (ground arith)))

  pub Run-IsQuiet :
      {s t : Scheduler A} {ls : List (Label A)}
      → Run s ls t
      → All Keeps ls
      → Inv s
      → IsQuiet s
      → IsQuiet t
  Run-IsQuiet here k v q = q
  Run-IsQuiet (next st r) k v q = Run-IsQuiet r k.1 (Step-Inv st v) (Step-IsQuiet st k.0 v q)
