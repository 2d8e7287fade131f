-- ===== src/Scheduler/Removal.antt =====
-- What the identifiers promise until the counter starts again: a task that was removed never runs.
use middleware_player_interf.Common.{
  ℕ, ◌+◌, ◌<◌, ◌≡◌, ◌≢◌, refl, true, List, [], ◌∷◌, All, All-append, arith, Bool-cases, inl, inr,
  ◌==◌, length, not, ◌&&◌, All-map,
}
use mathlib.Core.Path.{subst, sym, ◌∙◌}
use middleware_player_interf.Scheduler.{
  id_max, id_invalid, Task, executing, Scheduler, Place, init, next_id, push_task, remove_all_tasks,
  erase_id, remove_task, set_lock_out, release, run_front, take_front,
}
use middleware_player_interf.Scheduler.Interleaving.{
  Label, Step, schedule, remove, remove_all, start, stop, join, lock, unlock, close, reopen, poll,
  leave, enter, take, finish, Run, here, next, Runs, Run-Inv, Step-Inv, init-Inv,
}
use middleware_player_interf.Scheduler.Ids.{
  Rising, IsOrdered, Rising-lt, Rising-above, Step-Advances, Run-IsOrdered,
}

module _ {A : Type 0} where
  -- A task that is gone: its identifier was given out, and it is neither current nor in the queue.
  pub record IsGone (id : ℕ) (s : Scheduler A) : Type 0 where
    pub given_out : id < s.next_task_id
    pub not_current : s.current_task_id ≢ id
    pub not_queued : All (λ t. t.id ≢ id) s.task_queue

  push_task-IsGone :
      (id : ℕ) (s : Scheduler A) (w : A)
      → s.next_task_id + 1 < id_max
      → IsGone id s
      → IsGone id (push_task s w).0
  unfolding push_task
  push_task-IsGone id s w k g = elim (Bool-cases s.lock_out) [
    | inl e ↦ simp e g
    | inr e ↦
        let up : next_id s.next_task_id ≡ s.next_task_id + 1 = unfold next_id in ground arith in
        let fresh : s.next_task_id ≢ id = omega (arith, g.given_out) in
        let given : id < s.next_task_id + 1 = omega (arith, g.given_out) in
        simp (e, up)
          (record {
            given_out = given;
            not_current = g.not_current;
            not_queued = All-append (λ t. t.id ≢ id) s.task_queue _ g.not_queued (fresh, tt);
          })
  ]

  run_front-IsGone :
      (id : ℕ) (s : Scheduler A) (ts : List (Task A))
      → s.task_queue ≡ ts
      → All (λ t. t.id ≢ id) ts
      → IsGone id s
      → IsGone id (run_front s ts)
  unfolding run_front release
  run_front-IsGone id s [] e a g = record {
    given_out = g.given_out;
    not_current = g.not_current;
    not_queued = g.not_queued;
  }
  run_front-IsGone id s (t ∷ ts) e a g = elim (Bool-cases (t.id == id_invalid)) [
    | inl z ↦
        rw z (record { given_out = g.given_out; not_current = g.not_current; not_queued = a.1 })
    | inr z ↦ rw z (record { given_out = g.given_out; not_current = a.0; not_queued = a.1 })
  ]

  erase_id-keeps :
      (P : Task A → Type 0) (id : ℕ) (ts : List (Task A)) → All P ts → All P (erase_id id ts).0
  unfolding erase_id
  erase_id-keeps P id [] h = tt
  erase_id-keeps P id (t ∷ ts) h = elim (Bool-cases (t.id == id)) [
    | inl e ↦ rw e h.1
    | inr e ↦ rw e (h.0, erase_id-keeps P id ts h.1)
  ]

  remove_task-IsGone :
      (id other : ℕ) (s : Scheduler A) → IsGone id s → IsGone id (remove_task s other).0
  unfolding remove_task
  remove_task-IsGone id other s g =
      elim (Bool-cases (not (other == id_invalid) && not (s.current_task_id == other))) [
        | inl e ↦ simp e (record {
          given_out = g.given_out;
          not_current = g.not_current;
          not_queued = erase_id-keeps (λ t. t.id ≢ id) other s.task_queue g.not_queued;
        })
        | inr e ↦ simp e g
      ]

  -- A step that leaves the counter, the current task and the queue alone.
  same_ids :
      {s t : Scheduler A} {id : ℕ}
      → s.next_task_id ≡ t.next_task_id
      → s.current_task_id ≡ t.current_task_id
      → s.task_queue ≡ t.task_queue
      → IsGone id s
      → IsGone id t
  same_ids p q r g = record {
    given_out = rw (sym p) g.given_out;
    not_current = rw (sym q) g.not_current;
    not_queued = rw (sym r) g.not_queued;
  }

  Step-IsGone :
      {s t : Scheduler A} {l : Label A} (id : ℕ)
      → Step s l t
      → s.next_task_id + 1 < id_max
      → IsGone id s
      → IsGone id t
  Step-IsGone {s} id (schedule w) k g = push_task-IsGone id s w k g
  Step-IsGone {s} id (remove other) k g = remove_task-IsGone id other s g
  Step-IsGone id remove_all k g =
      unfold remove_all_tasks in
      record { given_out = g.given_out; not_current = g.not_current; not_queued = tt }
  Step-IsGone id (start h) k g = same_ids refl refl refl g
  Step-IsGone id stop k g = same_ids refl refl refl g
  Step-IsGone id (join h) k g = same_ids refl refl refl g
  Step-IsGone id (lock h) k g = same_ids refl refl refl g
  Step-IsGone id (unlock h) k g = same_ids refl refl refl g
  Step-IsGone id close k g = unfold set_lock_out in same_ids refl refl refl g
  Step-IsGone id reopen k g = unfold set_lock_out in same_ids refl refl refl g
  Step-IsGone id (poll h r q) k g = same_ids refl refl refl g
  Step-IsGone id (leave h r) k g = same_ids refl refl refl g
  Step-IsGone id (enter h e) k g = same_ids refl refl refl g
  Step-IsGone id (finish t h) k g = unfold release in same_ids refl refl refl g
  Step-IsGone {s} id (take h) k g =
      unfold take_front in run_front-IsGone id s s.task_queue refl g.not_queued g

  erase_id-IsGone :
      (id lo hi : ℕ) (ts : List (Task A))
      → Rising lo ts hi
      → (erase_id id ts).1 ≡ true
      → (id < hi) × All (λ t. t.id ≢ id) (erase_id id ts).0
  unfolding erase_id
  erase_id-IsGone id lo hi [] h e = cc
  erase_id-IsGone id lo hi (t ∷ ts) h e = elim (Bool-cases (t.id == id)) [
    | inl z ↦
        let same : t.id ≡ id = ground arith in
        rw z (
          omega (arith, Rising-lt t.id hi ts h.1),
          subst (λ k. All (λ y. y.id ≢ k) ts) same
              (All-map (λ y. t.id < y.id) (λ y. y.id ≢ t.id) (λ y l. omega arith) ts
                (Rising-above t.id hi ts h.1)),
        )
    | inr z ↦
        let (below, none_left) = erase_id-IsGone id t.id hi ts h.1 (simp z at e) in
        rw z (below, ((ground arith), none_left))
  ]

  Run-IsGone :
      {s t : Scheduler A} {ls : List (Label A)} (id : ℕ)
      → Run s ls t
      → s.next_task_id + length ls < id_max
      → IsOrdered s
      → IsGone id s
      → IsGone id t
  Run-IsGone id here k o g = g
  Run-IsGone {ls = l ∷ ls} id (next st r) k o g =
      let (p, q, m) = Step-Advances st (omega arith) o in
      Run-IsGone {ls = ls} id r (omega arith) p (Step-IsGone id st (omega arith) g)

  remove_task-removed :
      (id : ℕ) (s : Scheduler A)
      → IsOrdered s
      → (remove_task s id).1 ≡ true
      → IsGone id (remove_task s id).0
  unfolding remove_task
  remove_task-removed id s o h =
      elim (Bool-cases (not (id == id_invalid) && not (s.current_task_id == id))) [
        | inl e ↦
            let (below, none_left) =
              erase_id-IsGone id s.current_task_id s.next_task_id s.task_queue o (simp e at h) in
            simp e
              (record { given_out = below; not_current = ground arith; not_queued = none_left })
        | inr e ↦ absurd (cc (simp e at h))
      ]

  current-Runs : (p : Place A) {x : Task A} {id : ℕ} → p ≡ executing x → Runs p id → x.id ≡ id
  current-Runs p e r = ground arith

  -- In the first 2 ^ 31 - 3 critical sections: a task that `RemoveTask` reports as removed never runs
  -- afterwards.
  pub removed_task_never_runs :
      {s u : Scheduler A} {ls ms : List (Label A)} (id : ℕ) (x : Task A)
      → Run init ls s
      → (remove_task s id).1 ≡ true
      → Run (remove_task s id).0 ms u
      → length ls + length ms + 2 < id_max
      → u.place ≡ executing x
      → x.id ≢ id
  removed_task_never_runs {s} {u} {ls} {ms} id x r e r' k running =
      let (o, n, m) =
        Run-IsOrdered {ls = ls} r (unfold init in omega arith) (unfold init in omega arith) in
      let v = Run-Inv r' (Step-Inv (remove id) (Run-Inv r init-Inv)) in
      let (p, q, w) = Step-Advances {s = s} (remove id) (unfold init in omega arith) o in
      let g =
        Run-IsGone {ls = ms} id r' (unfold init in omega arith) p (remove_task-removed id s o e) in
      let current : x.id ≡ u.current_task_id = current-Runs u.place running v.current in
      λ same. g.not_current (sym current ∙ same)
