-- ===== src/Scheduler/Control.antt =====
-- Suspending, stopping and what the worker may still do afterwards.
use middleware_player_interf.Common.{
  ◌≡◌, ◌≢◌, refl, true, false, List, [], ◌∷◌, All, arith, ◌⊎◌, inl, inr, Bool-cases,
}
use mathlib.Core.Path.{subst, sym}
use middleware_player_interf.Scheduler.{
  Owner, Task, free, worker, control, Place, absent, looping, acquiring, holding, exited, executing,
  Scheduler, done, throws, init, remove_all_tasks, set_lock_out, suspend_scheduler,
  enable_schedule_task, stop_scheduler, join_thread, run_front, take_front, release,
}
use middleware_player_interf.Scheduler.Interleaving.{
  Label, Step, lock, close, leave, enter, take, Run, here, next, Inv, Run-Inv, init-Inv, Step-Inv,
  holds_lock, no_task_in_Inv,
}
use middleware_player_interf.Scheduler.Quiet.{Keeps, Run-IsQuiet}

Owner-cases : (o : Owner) → (o ≡ free) ⊎ ((o ≡ control) ⊎ (o ≡ worker))
Owner-cases free = inl refl
Owner-cases control = inr (inl refl)
Owner-cases worker = inr (inr refl)

module _ {A : Type 0} where
  suspend_lem :
      (s t : Scheduler A)
      → suspend_scheduler s ≡ done t
      → (s.ex_owner ≡ free) × (t ≡ record s { ex_owner = control; lock_out = true })
  unfolding suspend_scheduler
  suspend_lem s t e = ground arith

  suspend-Inv : (s t : Scheduler A) → suspend_scheduler s ≡ done t → Inv s → Inv t
  suspend-Inv s t e v =
      let (o, p) = suspend_lem s t e in
      rw p (unfold set_lock_out in Step-Inv close (Step-Inv (lock o) v))

  -- `SuspendScheduler` followed by `RemoveAllTasks`, in any state that can be reached: from then on
  -- the queue stays empty and no task runs, whatever happens but `ResumeScheduler` and
  -- `EnableScheduleTask`.
  pub suspend_then_clear :
      {s t u : Scheduler A} {ls ms : List (Label A)}
      → Run init ls s
      → suspend_scheduler s ≡ done t
      → Run (remove_all_tasks t) ms u
      → All Keeps ms
      → (u.task_queue ≡ []) × ((x : Task A) → u.place ≢ executing x)
  suspend_then_clear {s} {t} r e r' k =
      let (o, p) = suspend_lem s t e in
      let v : Inv (remove_all_tasks t) =
        Step-Inv Step.remove_all (suspend-Inv s t e (Run-Inv r init-Inv)) in
      let q = Run-IsQuiet r' k v (unfold remove_all_tasks in ground arith) in
      (q.emptied, no_task_in_Inv (Run-Inv r' v) q.suspended)

  -- `EnableScheduleTask` on a suspended scheduler leaves `mExLock` locked but `mLockOut` false, and
  -- `StopScheduler` then locks it once more: it throws, from every state.
  pub stop_after_enable_throws :
      (s t : Scheduler A)
      → suspend_scheduler s ≡ done t
      → stop_scheduler (enable_schedule_task t) ≡ throws
  unfolding stop_scheduler enable_schedule_task suspend_scheduler
  stop_after_enable_throws s t e = ground arith

  -- The states in which the lock-out tells who holds the execution lock.
  pub data Agrees (s : Scheduler A) : Type 0 where
    suspended : s.ex_owner ≡ control → s.lock_out ≡ true → Agrees s
    active : s.ex_owner ≡ free → s.lock_out ≡ false → Agrees s

  pub record IsStopped (s t : Scheduler A) : Type 0 where
    pub stopped : stop_scheduler s ≡ done t
    pub not_running : t.scheduler_running ≡ false
    pub emptied : t.task_queue ≡ []
    pub unlocked : t.ex_owner ≡ free
    pub accepting : t.lock_out ≡ false
    pub same_place : t.place ≡ s.place

  stop-IsStopped : (s : Scheduler A) → Agrees s → (t : Scheduler A) × IsStopped s t
  unfolding stop_scheduler
  stop-IsStopped s (suspended o l) = (
    record s { scheduler_running = false; task_queue = []; ex_owner = free; lock_out = false },
    record {
      stopped = ground arith;
      not_running = refl;
      emptied = refl;
      unlocked = refl;
      accepting = refl;
      same_place = refl;
    },
  )
  stop-IsStopped s (active o l) = (
    record s { scheduler_running = false; task_queue = []; ex_owner = free; lock_out = false },
    record {
      stopped = ground arith;
      not_running = refl;
      emptied = refl;
      unlocked = refl;
      accepting = refl;
      same_place = refl;
    },
  )

  -- A worker in its loop leaves it, over the execution lock if it was on its way to that.
  leaves :
      (t : Scheduler A) (p : Place A)
      → t.place ≡ p
      → holds_lock p ≡ false
      → p ≢ absent
      → t.scheduler_running ≡ false
      → t.task_queue ≡ []
      → t.ex_owner ≡ free
      → (ls : List (Label A)) × (u : Scheduler A) × Run t ls u × (u.place ≡ exited)
  leaves t absent e h n r q o = absurd (n refl)
  leaves t looping e h n r q o =
      (Label.leave ∷ [], record t { place = exited }, next (leave e r) here, refl)
  leaves t acquiring e h n r q o =
      let inside : Scheduler A = record t { ex_owner = worker; place = holding } in
      let back : Scheduler A = record t { task_queue = []; ex_owner = free; place = looping } in
      let left : Scheduler A = record back { place = exited } in
      let released : take_front inside ≡ back = unfold take_front run_front release in rw q refl in
      (
        Label.enter ∷ Label.take ∷ Label.leave ∷ [],
        left,
        next (enter e o) (
            next (take refl) (
              subst (λ w. Run w (Label.leave ∷ []) left) (sym released)
                (next (leave refl r) here))),
        refl,
      )
  leaves t holding e h n r q o = absurd (cc)
  leaves t exited e h n r q o = ([], t, here, e)
  leaves t (executing x) e h n r q o = absurd (cc)

  -- The others: `EnableScheduleTask` has been called on a suspended one, or the lock is not held and the
  -- lock-out is set.
  pub data Disagrees (s : Scheduler A) : Type 0 where
    reopened : s.ex_owner ≡ control → s.lock_out ≡ false → Disagrees s
    unheld : s.ex_owner ≡ free → s.lock_out ≡ true → Disagrees s

  agreement :
      (s : Scheduler A)
      → s.ex_owner ≢ worker
      → Agrees s ⊎ (Disagrees s × (stop_scheduler s ≡ throws))
  unfolding stop_scheduler
  agreement s w = elim (Owner-cases s.ex_owner) [
    | inl o ↦ elim (Bool-cases s.lock_out) [
      | inl l ↦ inr (unheld o l, ground arith)
      | inr l ↦ inl (active o l)
    ]
    | inr (inl o) ↦ elim (Bool-cases s.lock_out) [
      | inl l ↦ inl (suspended o l)
      | inr l ↦ inr (reopened o l, ground arith)
    ]
    | inr (inr o) ↦ absurd (w o)
  ]

  -- The stop of a scheduler: it returns (`IsStopped`), and there are steps by which the worker ends, so that
  -- `join` returns as well.
  abbrev pub Stops : Scheduler A → Type 0
  Stops s =
      (t : Scheduler A) × IsStopped s t
      × ((ls : List (Label A)) × (u : Scheduler A) × Run t ls u
          × (join_thread u ≡ done (record u { place = absent })))

  agreed-Stops :
      (s : Scheduler A) → Agrees s → holds_lock s.place ≡ false → s.place ≢ absent → Stops s
  agreed-Stops s a h n =
      let (t, x) = stop-IsStopped s a in
      let (ls, u, run, gone) =
        leaves t s.place x.same_place h n x.not_running x.emptied x.unlocked in
      (t, x, (ls, u, run, (unfold join_thread in rw (gone, join_thread) refl)))

  -- `StopScheduler` in any state that callers and worker can reach in which the thread is there and runs no
  -- task. Either the lock-out is set exactly where the control side holds the execution lock (suspended
  -- by `SuspendScheduler`, or neither), and the call returns with an empty queue, the execution lock free
  -- and the lock-out off, and there are steps by which the worker, once it looks at its condition, leaves
  -- its loop, after which `join` returns. Or they differ, as after `EnableScheduleTask` on a suspended
  -- scheduler, and the call throws.
  pub stop_scheduler_returns :
      {s : Scheduler A} {ls : List (Label A)}
      → Run init ls s
      → holds_lock s.place ≡ false
      → s.place ≢ absent
      → (Agrees s × Stops s) ⊎ (Disagrees s × (stop_scheduler s ≡ throws))
  stop_scheduler_returns {s} r h n =
      let v : Inv s = Run-Inv r init-Inv in
      let idle : s.ex_owner ≢ worker = λ e. absurd (ground (arith, v.lock_place)) in
      elim (agreement s idle) [ inl a ↦ inl (a, agreed-Stops s a h n) | inr d ↦ inr d ]
