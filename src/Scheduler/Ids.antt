-- ===== src/Scheduler/Ids.antt =====
-- What the identifiers promise until the counter starts again: the order of the queue.
use middleware_player_interf.Common.{
  ℕ, ◌+◌, ◌<◌, ◌≤◌, ◌≡◌, refl, List, [], ◌∷◌, ◌++◌, All, arith, Bool-cases, inl, inr, ◌==◌, length,
  not, ◌&&◌,
}
use middleware_player_interf.Scheduler.{
  id_max, id_invalid, Task, executing, Scheduler, init, next_id, push_task, remove_all_tasks,
  erase_id, remove_task, set_lock_out, release, run_front, take_front,
}
use middleware_player_interf.Scheduler.Interleaving.{
  Label, Step, schedule, remove, remove_all, start, stop, join, lock, unlock, close, reopen, poll,
  leave, enter, take, finish, Run, here, next,
}

module _ {A : Type 0} where
  -- The identifiers rise along the queue, above one number and below another.
  abbrev pub Rising : ℕ → List (Task A) → ℕ → Type 0
  Rising lo [] hi = lo < hi
  Rising lo (t ∷ ts) hi = (lo < t.id) × Rising t.id ts hi

  abbrev pub IsOrdered : Scheduler A → Type 0
  IsOrdered s = Rising s.current_task_id s.task_queue s.next_task_id

  Rising-append :
      (lo : ℕ) (ts : List (Task A)) (t : Task A)
      → Rising lo ts t.id
      → Rising lo (ts ++ (t ∷ [])) (t.id + 1)
  Rising-append lo [] t h = (h, omega arith)
  Rising-append lo (x ∷ ts) t h = (h.0, Rising-append x.id ts t h.1)

  pub Rising-lt : (lo hi : ℕ) (ts : List (Task A)) → Rising lo ts hi → lo < hi
  Rising-lt lo hi [] h = h
  Rising-lt lo hi (t ∷ ts) h = omega (arith, Rising-lt t.id hi ts h.1)

  Rising-lower :
      (lo lo' hi : ℕ) (ts : List (Task A)) → lo' ≤ lo → Rising lo ts hi → Rising lo' ts hi
  Rising-lower lo lo' hi [] k h = omega arith
  Rising-lower lo lo' hi (t ∷ ts) k h = (omega arith, h.1)

  erase_id-Rising :
      (id lo hi : ℕ) (ts : List (Task A)) → Rising lo ts hi → Rising lo (erase_id id ts).0 hi
  unfolding erase_id
  erase_id-Rising id lo hi [] h = h
  erase_id-Rising id lo hi (t ∷ ts) h = elim (Bool-cases (t.id == id)) [
    | inl e ↦ rw e (Rising-lower t.id lo hi ts (omega arith) h.1)
    | inr e ↦ rw e (h.0, erase_id-Rising id t.id hi ts h.1)
  ]

  pub Rising-above : (lo hi : ℕ) (ts : List (Task A)) → Rising lo ts hi → All (λ t. lo < t.id) ts
  Rising-above lo hi [] h = tt
  Rising-above lo hi (t ∷ ts) h =
      (h.0, Rising-above lo hi ts (Rising-lower t.id lo hi ts (omega arith) h.1))

  push_task-IsOrdered :
      (s : Scheduler A) (w : A)
      → s.next_task_id + 1 < id_max
      → IsOrdered s
      → IsOrdered (push_task s w).0
        × ((push_task s w).0.next_task_id ≤ s.next_task_id + 1)
        × ((push_task s w).0.current_task_id ≡ s.current_task_id)
  unfolding push_task
  push_task-IsOrdered s w k o = elim (Bool-cases s.lock_out) [
    | inl e ↦ simp e (o, omega arith, refl)
    | inr e ↦
        let up : next_id s.next_task_id ≡ s.next_task_id + 1 = unfold next_id in ground arith in
        simp (e, up)
          (
            Rising-append s.current_task_id s.task_queue (record { id = s.next_task_id; work = w })
                o,
            omega arith,
            refl,
          )
  ]

  -- What a step keeps: the order, a counter that rises by one at most, and a current task that only
  -- moves on.
  abbrev pub Advances : Scheduler A → Scheduler A → Type 0
  Advances s t =
      IsOrdered t × (t.next_task_id ≤ s.next_task_id + 1) × (s.current_task_id ≤ t.current_task_id)

  run_front-Advances :
      (s : Scheduler A) (ts : List (Task A))
      → s.task_queue ≡ ts
      → Rising s.current_task_id ts s.next_task_id
      → Advances s (run_front s ts)
  unfolding run_front release
  run_front-Advances s [] e o = (rw e o, omega arith, omega arith)
  run_front-Advances s (t ∷ ts) e o = elim (Bool-cases (t.id == id_invalid)) [
    | inl z ↦ rw z (
      Rising-lower t.id s.current_task_id s.next_task_id ts (omega arith) o.1,
      omega arith,
      omega arith,
    )
    | inr z ↦ rw z (o.1, omega arith, omega arith)
  ]

  remove_task-Advances : (s : Scheduler A) (id : ℕ) → IsOrdered s → Advances s (remove_task s id).0
  unfolding remove_task
  remove_task-Advances s id o =
      elim (Bool-cases (not (id == id_invalid) && not (s.current_task_id == id))) [
        | inl e ↦ simp e (
          erase_id-Rising id s.current_task_id s.next_task_id s.task_queue o,
          omega arith,
          omega arith,
        )
        | inr e ↦ simp e (o, omega arith, omega arith)
      ]

  pub Step-Advances :
      {s t : Scheduler A} {l : Label A}
      → Step s l t
      → s.next_task_id + 1 < id_max
      → IsOrdered s
      → Advances s t
  Step-Advances {s} (schedule w) k o =
      let (p, q, r) = push_task-IsOrdered s w k o in (p, q, omega arith)
  Step-Advances {s} (remove id) k o = remove_task-Advances s id o
  Step-Advances {s} remove_all k o =
      unfold remove_all_tasks in
      (Rising-lt s.current_task_id s.next_task_id s.task_queue o, omega arith, omega arith)
  Step-Advances (start h) k o = (o, omega arith, omega arith)
  Step-Advances stop k o = (o, omega arith, omega arith)
  Step-Advances (join h) k o = (o, omega arith, omega arith)
  Step-Advances (lock h) k o = (o, omega arith, omega arith)
  Step-Advances (unlock h) k o = (o, omega arith, omega arith)
  Step-Advances close k o = unfold set_lock_out in (o, omega arith, omega arith)
  Step-Advances reopen k o = unfold set_lock_out in (o, omega arith, omega arith)
  Step-Advances (poll h r q) k o = (o, omega arith, omega arith)
  Step-Advances (leave h r) k o = (o, omega arith, omega arith)
  Step-Advances (enter h e) k o = (o, omega arith, omega arith)
  Step-Advances {s} (take h) k o = unfold take_front in run_front-Advances s s.task_queue refl o
  Step-Advances (finish t h) k o = unfold release in (o, omega arith, omega arith)

  pub Run-IsOrdered :
      {s t : Scheduler A} {ls : List (Label A)}
      → Run s ls t
      → s.next_task_id + length ls < id_max
      → IsOrdered s
      → IsOrdered t
        × (t.next_task_id ≤ s.next_task_id + length ls)
        × (s.current_task_id ≤ t.current_task_id)
  Run-IsOrdered here k o = (o, omega arith, omega arith)
  Run-IsOrdered {ls = l ∷ ls} (next st r) k o =
      let (p, q, m) = Step-Advances st (omega arith) o in
      let (p', q', m') = Run-IsOrdered {ls = ls} r (omega arith) p in (p', omega arith, omega arith)

  run_front-executing :
      (s : Scheduler A) (ts : List (Task A)) (x : Task A)
      → Rising s.current_task_id ts s.next_task_id
      → (run_front s ts).place ≡ executing x
      → (ts ≡ x ∷ (run_front s ts).task_queue)
        × (s.current_task_id < x.id)
        × ((run_front s ts).current_task_id ≡ x.id)
        × All (λ y. x.id < y.id) (run_front s ts).task_queue
  unfolding run_front release
  run_front-executing s [] x o e = absurd (cc)
  run_front-executing s (t ∷ ts) x o e = elim (Bool-cases (t.id == id_invalid)) [
    | inl z ↦ absurd (ground arith)
    | inr z ↦
        let started : executing t ≡ executing x = ground arith in
        let same : t ≡ x = cc in
        rw (← same) (simp z (refl, o.0, refl, Rising-above t.id s.next_task_id ts o.1))
  ]

  -- In the first 2 ^ 31 - 3 critical sections: where the worker starts a task, this task was at the
  -- front of the queue, its identifier is above those of all tasks that were started before, and those
  -- behind it in the queue have larger ones.
  pub tasks_start_in_order :
      {s t : Scheduler A} {ls : List (Label A)} (x : Task A)
      → Run init ls s
      → length ls + 2 < id_max
      → Step s Label.take t
      → t.place ≡ executing x
      → (s.task_queue ≡ x ∷ t.task_queue)
        × (s.current_task_id < x.id)
        × (t.current_task_id ≡ x.id)
        × All (λ y. x.id < y.id) t.task_queue
  tasks_start_in_order {s} {ls = ls} x r k (take h) e =
      let (o, n, m) =
        Run-IsOrdered {ls = ls} r (unfold init in omega arith) (unfold init in omega arith) in
      unfold take_front in run_front-executing s s.task_queue x o (unfold take_front in e)
