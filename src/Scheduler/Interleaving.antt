-- ===== src/Scheduler/Interleaving.antt =====
-- Callers of the class and its worker thread in any order: a step for each critical section.
use middleware_player_interf.Common.{
  ℕ, ◌<◌, ◌≡◌, ◌≢◌, refl, Bool, true, false, List, [], ◌∷◌, All, All-append, arith, Bool-cases, inl,
  inr, ◌==◌,
}
use middleware_player_interf.Scheduler.{
  id_max, Task, Owner, free, worker, control, Place, absent, looping, acquiring, holding, exited,
  executing, Scheduler, init, next_id, push_task, remove_all_tasks, erase_id, remove_task,
  set_lock_out, release, run_front, take_front,
}

-- `schedule` is the part of `ScheduleTask` behind its test, which another thread may have outrun.
pub data Label (A : Type 0) : Type 0 where
  schedule : A → Label A
  remove : ℕ → Label A
  remove_all start stop join lock unlock close reopen poll leave enter take finish : Label A

abbrev pub is_worker : Owner → Bool
is_worker worker = true
is_worker _ = false

abbrev pub IsTaskId : ℕ → Type 0
IsTaskId id = (0 < id) × (id < id_max)

-- The counter stays within the identifiers, also where it starts again.
pub next_id-IsTaskId : (id : ℕ) → IsTaskId id → IsTaskId (next_id id)
unfolding next_id
next_id-IsTaskId id h = ground arith

module _ {A : Type 0} where
  pub data Step (s : Scheduler A) : Label A → Scheduler A → Type 0 where
    schedule : (w : A) → Step s (Label.schedule w) (push_task s w).0
    remove : (id : ℕ) → Step s (Label.remove id) (remove_task s id).0
    remove_all : Step s Label.remove_all (remove_all_tasks s)
    start :
        s.place ≡ absent
        → Step s Label.start (record s { place = looping; scheduler_running = true })
    stop : Step s Label.stop (record s { scheduler_running = false })
    join : s.place ≡ exited → Step s Label.join (record s { place = absent })
    lock : s.ex_owner ≡ free → Step s Label.lock (record s { ex_owner = control })
    unlock : s.ex_owner ≡ control → Step s Label.unlock (record s { ex_owner = free })
    close : Step s Label.close (set_lock_out true s)
    reopen : Step s Label.reopen (set_lock_out false s)
    poll :
        s.place ≡ looping
        → s.scheduler_running ≡ true
        → s.task_queue ≢ []
        → Step s Label.poll (record s { place = acquiring })
    leave :
        s.place ≡ looping
        → s.scheduler_running ≡ false
        → Step s Label.leave (record s { place = exited })
    enter :
        s.place ≡ acquiring
        → s.ex_owner ≡ free
        → Step s Label.enter (record s { ex_owner = worker; place = holding })
    take : s.place ≡ holding → Step s Label.take (take_front s)
    finish : (t : Task A) → s.place ≡ executing t → Step s Label.finish (release s)

  pub data Run : Scheduler A → List (Label A) → Scheduler A → Type 0 where
    here : {s : Scheduler A} → Run s [] s
    next :
        {s t u : Scheduler A} {l : Label A} {ls : List (Label A)}
        → Step s l t
        → Run t ls u
        → Run s (l ∷ ls) u

  abbrev pub holds_lock : Place A → Bool
  holds_lock holding = true
  holds_lock (executing t) = true
  holds_lock _ = false

  abbrev pub Runs : Place A → ℕ → Type 0
  Runs (executing t) id = t.id ≡ id
  Runs _ id = Unit

  -- The worker's place agrees with the owner of the execution lock, the identifiers are in range, and
  -- the task that runs is the current one.
  pub record Inv (s : Scheduler A) : Type 0 where
    pub lock_place : holds_lock s.place ≡ is_worker s.ex_owner
    pub next_range : IsTaskId s.next_task_id
    pub queue_range : All (λ t. IsTaskId t.id) s.task_queue
    pub current : Runs s.place s.current_task_id

  pub init-Inv : Inv (init {A = A})
  unfolding init
  init-Inv = record { lock_place = refl; next_range = omega arith; queue_range = tt; current = tt }

  erase_id-All :
      (P : Task A → Type 0) (id : ℕ) (ts : List (Task A)) → All P ts → All P (erase_id id ts).0
  unfolding erase_id
  erase_id-All P id [] h = tt
  erase_id-All P id (t ∷ ts) h = elim (Bool-cases (t.id == id)) [
    | inl e ↦ rw e h.1
    | inr e ↦ rw e (h.0, erase_id-All P id ts h.1)
  ]

  push_task-Inv : (s : Scheduler A) (w : A) → Inv s → Inv (push_task s w).0
  unfolding push_task
  push_task-Inv s w v = elim (Bool-cases s.lock_out) [
    | inl e ↦ simp e v
    | inr e ↦ simp e (record {
      lock_place = v.lock_place;
      next_range = next_id-IsTaskId s.next_task_id v.next_range;
      queue_range = All-append (λ t. IsTaskId t.id) s.task_queue _ v.queue_range (v.next_range, tt);
      current = v.current;
    })
  ]

  remove_task-Inv : (s : Scheduler A) (id : ℕ) → Inv s → Inv (remove_task s id).0
  unfolding remove_task
  remove_task-Inv s id v =
      ground (arith, erase_id-All (λ t. IsTaskId t.id) id s.task_queue v.queue_range)

  run_front-Inv :
      (s : Scheduler A) (ts : List (Task A))
      → Inv s
      → s.ex_owner ≡ worker
      → All (λ t. IsTaskId t.id) ts
      → s.task_queue ≡ ts
      → Inv (run_front s ts)
  unfolding run_front
  run_front-Inv s [] v o h e = record {
    lock_place = refl;
    next_range = v.next_range;
    queue_range = v.queue_range;
    current = tt;
  }
  run_front-Inv s (t ∷ ts) v o h e = ground arith

  pub owner-of_holding : (s : Scheduler A) → Inv s → holds_lock s.place ≡ true → s.ex_owner ≡ worker
  owner-of_holding s v h = ground arith

  pub Step-Inv : {s t : Scheduler A} {l : Label A} → Step s l t → Inv s → Inv t
  Step-Inv {s} (schedule w) v = push_task-Inv s w v
  Step-Inv {s} (remove id) v = remove_task-Inv s id v
  Step-Inv remove_all v = unfold remove_all_tasks in ground arith
  Step-Inv (start h) v = ground arith
  Step-Inv stop v = ground arith
  Step-Inv (join h) v = ground arith
  Step-Inv (lock h) v = ground arith
  Step-Inv (unlock h) v = ground arith
  Step-Inv close v = unfold set_lock_out in ground arith
  Step-Inv reopen v = unfold set_lock_out in ground arith
  Step-Inv (poll h r q) v = ground arith
  Step-Inv (leave h r) v = ground arith
  Step-Inv (enter h o) v = ground arith
  Step-Inv {s} (take h) v =
      unfold take_front in
      run_front-Inv s s.task_queue v (owner-of_holding s v (ground arith)) v.queue_range refl
  Step-Inv {s} (finish t h) v = unfold release in ground arith

  pub Run-Inv : {s t : Scheduler A} {ls : List (Label A)} → Run s ls t → Inv s → Inv t
  Run-Inv here v = v
  Run-Inv (next st r) v = Run-Inv r (Step-Inv st v)

  pub no_task_in_Inv :
      {s : Scheduler A} → Inv s → s.ex_owner ≡ control → (t : Task A) → s.place ≢ executing t
  no_task_in_Inv v o t e = ground arith

  -- From the first state on, whatever the callers and the worker do and in whatever order: no task
  -- runs, and the worker takes none, while a caller holds the execution lock.
  pub no_task_while_suspended :
      {s : Scheduler A} {ls : List (Label A)}
      → Run init ls s
      → s.ex_owner ≡ control
      → (holds_lock s.place ≡ false) × ((t : Task A) → s.place ≢ executing t)
  no_task_while_suspended {s} r o =
      let v = Run-Inv r init-Inv in
      let idle : holds_lock s.place ≡ false = ground arith in (idle, λ t e. ground arith)
