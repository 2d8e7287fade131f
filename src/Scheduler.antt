-- ===== src/Scheduler.antt =====
-- PlayerScheduler.h and PlayerScheduler.cpp: the queue of tasks, its identifiers, and the locks.
-- The two mutexes become atomic steps: what the source does under `mQMutex` is one function here, and
-- `ex_owner` says who holds `mExMutex`. `A` stands for the function and the data of a task.
pub mod Ids
pub mod Removal
pub mod Interleaving
pub mod Quiet
pub mod Control
mod Tests
use middleware_player_interf.Common.{
  ℕ, ◌+◌, ◌-◌, ◌^◌, Bool, true, false, not, ◌&&◌, List, [], ◌∷◌, ◌++◌, leb, ◌==◌, if◌then◌else◌,
}

-- INT_MAX, PLAYER_SCHEDULER_ID_DEFAULT and PLAYER_TASK_ID_INVALID
abbrev pub id_max : ℕ
id_max = 2 ^ 31 - 1

abbrev pub id_default : ℕ
id_default = 1

abbrev pub id_invalid : ℕ
id_invalid = 0

pub record Task (A : Type 0) : Type 0 where
  pub id : ℕ
  pub work : A

-- Who holds `mExMutex`: nobody, the worker's `lock_guard`, or `mExLock`.
pub data Owner : Type 0 where
  free worker control : Owner

-- Where `ExecuteAsyncTask` stands: not running, at the test of the loop (or waiting on `mQCond`), past
-- `queueLock.unlock()`, with the execution lock, in the task, or past the loop.
pub data Place (A : Type 0) : Type 0 where
  absent looping acquiring holding exited : Place A
  executing : Task A → Place A

pub record Scheduler (A : Type 0) : Type 0 where
  pub task_queue : List (Task A)
  pub scheduler_running : Bool
  pub ex_owner : Owner
  pub next_task_id : ℕ
  pub current_task_id : ℕ
  pub lock_out : Bool
  pub place : Place A

-- What a call of the class may do: return, wait for a mutex, throw `std::system_error` (locking a
-- `unique_lock` that is owned, unlocking one that is not), or end the program (a thread assigned over
-- a joinable one).
pub data Outcome (A : Type 0) : Type 0 where
  done : Scheduler A → Outcome A
  blocks throws terminates : Outcome A

infixl 5 ◌>>=◌
abbrev pub ◌>>=◌ : {A : Type 0} → Outcome A → (Scheduler A → Outcome A) → Outcome A
done s >>= f = f s
blocks >>= f = blocks
throws >>= f = throws
terminates >>= f = terminates

-- `mNextTaskId++` with the upper limit check
pub next_id : ℕ → ℕ
next_id id = if leb id_max (id + 1) then id_default else id + 1

module _ {A : Type 0} where
  pub init : Scheduler A
  init = record {
    task_queue = [];
    scheduler_running = false;
    ex_owner = free;
    next_task_id = id_default;
    current_task_id = id_invalid;
    lock_out = false;
    place = absent;
  }

  -- `StartScheduler`
  pub start_scheduler : Scheduler A → Outcome A
  start_scheduler s = elim s.place [
    | absent ↦ done (record s { place = looping; scheduler_running = true })
    | _ ↦ terminates
  ]

  -- The part of `ScheduleTask` under `mQMutex`.
  pub push_task : Scheduler A → A → Scheduler A × ℕ
  unfolding next_id
  push_task s w = if s.lock_out then (s, id_invalid) else (
    record s {
      next_task_id = next_id s.next_task_id;
      task_queue = s.task_queue ++ (record { id = s.next_task_id; work = w } ∷ []);
    },
    s.next_task_id,
  )

  pub schedule_task : Scheduler A → A → Scheduler A × ℕ
  unfolding push_task
  schedule_task s w = if s.scheduler_running then push_task s w else (s, id_invalid)

  pub remove_all_tasks : Scheduler A → Scheduler A
  remove_all_tasks s = record s { task_queue = [] }

  -- The loop of `RemoveTask`: the first task with the identifier, and whether there was one.
  pub erase_id : ℕ → List (Task A) → List (Task A) × Bool
  erase_id id [] = ([], false)
  erase_id id (t ∷ ts) =
      let (rest, found) = erase_id id ts in if t.id == id then (ts, true) else (t ∷ rest, found)

  pub remove_task : Scheduler A → ℕ → Scheduler A × Bool
  unfolding erase_id
  remove_task s id =
      if not (id == id_invalid) && not (s.current_task_id == id)
      then (record s { task_queue = (erase_id id s.task_queue).0 }, (erase_id id s.task_queue).1)
      else (s, false)

  -- `mExLock.lock()` and `mExLock.unlock()`
  pub lock_ex : Scheduler A → Outcome A
  lock_ex s = elim s.ex_owner [
    | free ↦ done (record s { ex_owner = control })
    | worker ↦ blocks
    | control ↦ throws
  ]

  pub unlock_ex : Scheduler A → Outcome A
  unlock_ex s = elim s.ex_owner [
    | free ↦ throws
    | worker ↦ throws
    | control ↦ done (record s { ex_owner = free })
  ]

  pub set_lock_out : Bool → Scheduler A → Scheduler A
  set_lock_out b s = record s { lock_out = b }

  pub suspend_scheduler : Scheduler A → Outcome A
  unfolding lock_ex set_lock_out
  suspend_scheduler s = do t ← lock_ex s; done (set_lock_out true t)

  pub resume_scheduler : Scheduler A → Outcome A
  unfolding unlock_ex set_lock_out
  resume_scheduler s = do t ← unlock_ex s; done (set_lock_out false t)

  pub enable_schedule_task : Scheduler A → Scheduler A
  unfolding set_lock_out
  enable_schedule_task s = set_lock_out false s

  -- The calls of `StopScheduler` up to the notification; the worker's thread ends after them.
  pub stop_scheduler : Scheduler A → Outcome A
  unfolding suspend_scheduler resume_scheduler remove_all_tasks
  stop_scheduler s = do
    let stopped = record s { scheduler_running = false }
    t ← (if stopped.lock_out then done stopped else suspend_scheduler stopped)
    resume_scheduler (remove_all_tasks t)

  -- The destructor.
  pub destroy_scheduler : Scheduler A → Outcome A
  unfolding stop_scheduler
  destroy_scheduler s =
      let stopped = stop_scheduler s in if s.scheduler_running then stopped else done s

  -- `join` returns once the worker has left its loop, and makes the thread assignable again.
  pub join_thread : Scheduler A → Outcome A
  join_thread s = elim s.place [
    | exited ↦ done (record s { place = absent })
    | absent ↦ done s
    | _ ↦ blocks
  ]

  -- The worker, from each place to the next. `none` at the test: it waits on `mQCond`.
  pub release : Scheduler A → Scheduler A
  release s = record s { ex_owner = free; place = looping }

  pub run_front : Scheduler A → List (Task A) → Scheduler A
  unfolding release
  run_front s [] = release s
  run_front s (t ∷ ts) =
      if t.id == id_invalid
      then release (record s { task_queue = ts })
      else record s { task_queue = ts; current_task_id = t.id; place = executing t }

  -- Under both locks: the front of the queue, which may have been emptied meanwhile.
  pub take_front : Scheduler A → Scheduler A
  unfolding run_front
  take_front s = run_front s s.task_queue
