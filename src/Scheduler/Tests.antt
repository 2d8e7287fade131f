-- ===== src/Scheduler/Tests.antt =====
-- The theorems on the scheduler at concrete runs.
use middleware_player_interf.Common.{
  ℕ, ◌<◌, ◌≡◌, ◌≢◌, ◌⊎◌, refl, true, false, List, [], ◌∷◌, All, arith,
}
use middleware_player_interf.Scheduler.{
  Task, worker, control, looping, holding, executing, Scheduler, done, throws, stop_scheduler, init,
  next_id, push_task, remove_task, erase_id, remove_all_tasks, suspend_scheduler, lock_ex,
  set_lock_out, take_front, run_front,
}
use middleware_player_interf.Scheduler.Interleaving.{
  Label, schedule, start, lock, poll, enter, take, Run, here, next, holds_lock,
  no_task_while_suspended,
}
use middleware_player_interf.Scheduler.Ids.{tasks_start_in_order}
use middleware_player_interf.Scheduler.Removal.{removed_task_never_runs}
use middleware_player_interf.Scheduler.Control.{
  suspend_then_clear, Agrees, Disagrees, Stops, stop_scheduler_returns,
}

abbrev begin : Scheduler ℕ
begin = init

abbrev suspended : Scheduler ℕ
suspended = record init { ex_owner = control }

no_task_while_suspended_example :
    (holds_lock suspended.place ≡ false) × ((t : Task ℕ) → suspended.place ≢ executing t)
unfolding init
no_task_while_suspended_example = no_task_while_suspended (next (lock refl) here) refl

abbrev locked_out : Scheduler ℕ
locked_out = record init { ex_owner = control; lock_out = true }

suspend_init : suspend_scheduler begin ≡ done locked_out
unfolding suspend_scheduler lock_ex set_lock_out init
suspend_init = refl

suspend_then_clear_example :
    ((push_task (remove_all_tasks locked_out) 7).0.task_queue ≡ [])
    × ((x : Task ℕ) → (push_task (remove_all_tasks locked_out) 7).0.place ≢ executing x)
suspend_then_clear_example = suspend_then_clear here suspend_init (next (schedule 7) here) (tt, tt)

-- A scheduler whose worker has just started.
abbrev started : Scheduler ℕ
started = record init { place = looping; scheduler_running = true }

stop_scheduler_returns_example :
    (Agrees started × Stops started) ⊎ (Disagrees started × (stop_scheduler started ≡ throws))
unfolding init
stop_scheduler_returns_example =
    stop_scheduler_returns (next (start refl) here) refl (λ e. ground arith)

-- One task is scheduled, and the worker comes up to it.
abbrev labels : List (Label ℕ)
labels = Label.schedule 7 ∷ Label.start ∷ Label.poll ∷ Label.enter ∷ []

abbrev first : Task ℕ
first = record { id = 1; work = 7 }

abbrev ready : Scheduler ℕ
ready = record {
  task_queue = first ∷ [];
  scheduler_running = true;
  ex_owner = worker;
  next_task_id = 2;
  current_task_id = 0;
  lock_out = false;
  place = holding;
}

ready-Run : Run begin labels ready
unfolding init push_task next_id
ready-Run =
    next (schedule 7)
      (next (start refl) (next (poll refl refl (λ e. ground arith)) (next (enter refl refl) here)))

take_first : (take_front ready).place ≡ executing first
unfolding take_front run_front
take_first = refl

tasks_start_in_order_example :
    (ready.task_queue ≡ first ∷ (take_front ready).task_queue)
    × (0 < 1)
    × ((take_front ready).current_task_id ≡ 1)
    × All (λ y. 1 < y.id) (take_front ready).task_queue
tasks_start_in_order_example =
    tasks_start_in_order first ready-Run (omega arith) (take refl) take_first

-- The second of two tasks is removed, and the first one runs.
abbrev second : Task ℕ
second = record { id = 2; work = 8 }

abbrev two_tasks : Scheduler ℕ
two_tasks = record init { task_queue = first ∷ second ∷ []; next_task_id = 3 }

two_tasks-Run : Run begin (Label.schedule 7 ∷ Label.schedule 8 ∷ []) two_tasks
unfolding init push_task next_id
two_tasks-Run = next (schedule 7) (next (schedule 8) here)

remove_second : (remove_task two_tasks 2).1 ≡ true
unfolding remove_task erase_id init
remove_second = refl

abbrev running : Scheduler ℕ
running = record {
  task_queue = [];
  scheduler_running = true;
  ex_owner = worker;
  next_task_id = 3;
  current_task_id = 1;
  lock_out = false;
  place = executing first;
}

running-Run :
    Run
      (remove_task two_tasks 2).0
      (Label.start ∷ Label.poll ∷ Label.enter ∷ Label.take ∷ [])
      running
unfolding remove_task erase_id init take_front run_front
running-Run =
    next (start refl)
      (next (poll refl refl (λ e. ground arith)) (next (enter refl refl) (next (take refl) here)))

removed_task_never_runs_example : first.id ≢ 2
removed_task_never_runs_example =
    removed_task_never_runs 2 first two_tasks-Run remove_second running-Run (omega arith) refl
