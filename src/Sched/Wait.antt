-- ===== src/Sched/Wait.antt =====
-- task_suspend, task_resume and task_term against Spec: the running task leaves the running queue,
-- or a waiter comes back.
use neux_os.Prelude.{
  ℕ, ◌≡◌, refl, ◌≢◌, sym, ap, ◌∙◌, subst, Bool-cases, false, inl, inr, List, [], ◌∷◌, ◌++◌, arith,
  ◌<◌, ◌^◌, ◌==◌, ==_ne, ==_refl, if◌then◌else◌, length,
}
use neux_os.Prelude.Outcome.{done}
use neux_os.Links.{null}
use neux_os.Links.Chain.{has, first_or, Ring, Ring-frame}
use neux_os.Links.Refine.{rest, list_add_tail-Ring, list_dequeue-Ring}
use neux_os.Links.Run.{list_dequeue_empty}
use neux_os.Sched.{
  Heads, Kernel, TaskState, member, container_of, task_of, running_offset, task_suspend,
  task_resume, sys_exit,
}
use neux_os.Sched.Queue.{member-container_of}
use neux_os.Sched.Spec
use neux_os.Sched.Spec.{Queues}
use neux_os.Sched.Valid.{
  IsValid, Untouched, Untouched-trans, count, count-append, count_one, has_of_count,
  Apart-of_counts, keep-IsValid, hook-now, now_some, now_small, task_of-first,
}
use neux_os.Sched.Switch.{count_next, Keeps-next}

container_of-inj :
    (a b : ℕ)
    → a < 2 ^ 32
    → b < 2 ^ 32
    → container_of running_offset a ≡ container_of running_offset b
    → a ≡ b
container_of-inj a b ha hb e =
    sym (member-container_of running_offset a (omega arith) ha)
    ∙ ap (member running_offset) e
    ∙ member-container_of running_offset b (omega arith) hb

-- The states after the running task's has been set.
abbrev pub set_at : (ℕ → TaskState) → ℕ → TaskState → ℕ → TaskState
set_at f task s t = if t == task then s else f t

module _ {heads : Heads} {queue loop : ℕ} {k : Kernel} {q : Queues}
    (v : IsValid heads queue loop k q) (ne : q.now ≢ loop) where
  not_now : (a : ℕ) → a < 2 ^ 32 → a ≢ q.now → (container_of running_offset a == k.current) ≡ false
  not_now a small other =
      ==_ne (container_of running_offset a) k.current
        λ e. other (container_of-inj a q.now small (now_small v) (e ∙ v.current))

  -- Once the running task has another state, the choice of the next task is still of a task in the
  -- state TASK_STATE_RUNNING.
  runs_without :
      (s : TaskState) (a : ℕ)
      → 0 < count a (first_or loop q.ready ∷ rest q.ready)
      → set_at k.state k.current s (container_of running_offset a) ≡ TaskState.running
  runs_without s a h = elim (Bool-cases (a == loop)) [
    | inl same ↦
        let e : a ≡ loop = ground arith in
        rw (e, not_now loop v.loop_small (λ e. ne (sym e))) v.loop_runs
    | inr other ↦
        let seen : 0 < count a q.ready =
          omega (arith, count_next a loop q.ready, count_one a loop other) in
        let away : a ≢ q.now = λ e. ground (arith, v.once a, e) in
        rw (not_now a (v.small a (omega arith)) away) (v.runs a (omega arith))
  ]

  loop_runs_without :
      (s : TaskState)
      → set_at k.state k.current s (container_of running_offset loop) ≡ TaskState.running
  loop_runs_without s = rw (not_now loop v.loop_small (λ e. ne (sym e))) v.loop_runs

  waiting_free : has q.now (queue ∷ q.waiting) ≡ false
  waiting_free = has_of_count q.now (queue ∷ q.waiting) (ground (arith, v.once q.now))

  dead_free : has q.now (heads.term_queue ∷ q.dead) ≡ false
  dead_free = has_of_count q.now (heads.term_queue ∷ q.dead) (ground (arith, v.once q.now))

  -- `task_suspend` of a task other than the kernel loop ends, with more rounds than there are
  -- waiters, and does what Spec.suspend says. No links are written but those of the queues.
  pub task_suspend_refines :
      (fuel : ℕ)
      → length q.waiting < fuel
      → (k' : Kernel) × (task_suspend heads fuel queue k ≡ done tt k')
        × IsValid heads queue loop k' (Spec.suspend loop q)
        × Untouched heads queue q k.links k'.links
  unfolding task_suspend
  task_suspend_refines fuel fit =
      let (m, e, r, same) = list_add_tail-Ring fuel q.now v.waiting waiting_free (now_some v) fit in
      let mine = q.now ∷ queue ∷ q.waiting in
      let ready =
        Ring-frame mine same
          (Apart-of_counts (heads.running_queue ∷ q.ready) mine λ a. omega (arith, v.once a))
          v.ready in
      let (m', e', r', same') = list_dequeue-Ring q.ready ready in
      let run = heads.running_queue ∷ q.ready in
      let dead =
        Ring-frame run same'
          (Apart-of_counts (heads.term_queue ∷ q.dead) run λ a. omega (arith, v.once a))
          (Ring-frame mine same
            (Apart-of_counts (heads.term_queue ∷ q.dead) mine λ a. omega (arith, v.once a))
            v.dead) in
      let k' = record k {
        links = m';
        current = task_of k (first_or null q.ready);
        state = set_at k.state k.current TaskState.wait;
      } in
      (
        k',
        rw (hook-now v, e, e'),
        keep-IsValid v (Spec.suspend loop q)
            (Keeps-next loop q (Spec.suspend loop q) ne
              (λ a. omega (arith, count-append a q.waiting (q.now ∷ []))))
            k' (task_of-first v) refl r'
            (Ring-frame run same'
              (Apart-of_counts (queue ∷ q.waiting ++ q.now ∷ []) run
                λ a. omega (arith, v.once a, count-append a q.waiting (q.now ∷ [])))
              r)
            dead (ground (arith, v.loop_free, count-append loop q.waiting (q.now ∷ []), ne))
            (runs_without TaskState.wait) (loop_runs_without TaskState.wait),
        Untouched-trans heads queue q mine run same same' (λ a. omega arith) (λ a. omega arith),
      )

  -- `sys_exit` of a task other than the kernel loop ends, with more rounds than there are ended
  -- tasks, and does what Spec.exit says: the task is queued to be destroyed, and another goes on.
  pub sys_exit_refines :
      (fuel : ℕ)
      → length q.dead < fuel
      → (k' : Kernel) × (sys_exit heads fuel k ≡ done tt k')
        × IsValid heads queue loop k' (Spec.exit loop q)
        × Untouched heads queue q k.links k'.links
  unfolding sys_exit
  sys_exit_refines fuel fit =
      let (m, e, r, same) = list_add_tail-Ring fuel q.now v.dead dead_free (now_some v) fit in
      let mine = q.now ∷ heads.term_queue ∷ q.dead in
      let ready =
        Ring-frame mine same
          (Apart-of_counts (heads.running_queue ∷ q.ready) mine λ a. omega (arith, v.once a))
          v.ready in
      let (m', e', r', same') = list_dequeue-Ring q.ready ready in
      let run = heads.running_queue ∷ q.ready in
      let waiting =
        Ring-frame run same' (Apart-of_counts (queue ∷ q.waiting) run λ a. omega (arith, v.once a))
          (Ring-frame mine same
            (Apart-of_counts (queue ∷ q.waiting) mine λ a. omega (arith, v.once a)) v.waiting) in
      let k' = record k {
        links = m';
        current = task_of k (first_or null q.ready);
        state = set_at k.state k.current TaskState.term;
      } in
      (
        k',
        rw (==_refl k.current, hook-now v, e, ==_refl k.current, e', ==_refl k.current),
        keep-IsValid v (Spec.exit loop q)
            (Keeps-next loop q (Spec.exit loop q) ne
              (λ a. omega (arith, count-append a q.dead (q.now ∷ []))))
            k' (task_of-first v) refl r' waiting
            (Ring-frame run same'
              (Apart-of_counts (heads.term_queue ∷ q.dead ++ q.now ∷ []) run
                λ a. omega (arith, v.once a, count-append a q.dead (q.now ∷ [])))
              r)
            (ground (arith, v.loop_free, count-append loop q.dead (q.now ∷ []), ne))
            (runs_without TaskState.term) (loop_runs_without TaskState.term),
        Untouched-trans heads queue q mine run same same' (λ a. omega arith) (λ a. omega arith),
      )

module _ {heads : Heads} {queue loop : ℕ} {k : Kernel} {q : Queues}
    (v : IsValid heads queue loop k q) (fuel : ℕ) (fit : length q.ready < fuel) where
  resume_waiter :
      (w : ℕ) (ws : List ℕ)
      → q.waiting ≡ w ∷ ws
      → (k' : Kernel) × (task_resume heads fuel queue k ≡ done tt k')
        × IsValid heads queue loop k' (Spec.wake (w ∷ ws) q)
        × Untouched heads queue q k.links k'.links
  unfolding task_resume
  resume_waiter w ws eq =
      let counted = λ (a : ℕ). ap (count a) eq in
      let (m, e, r, same) = list_dequeue-Ring (w ∷ ws) (subst (Ring k.links queue) eq v.waiting) in
      let mine = queue ∷ w ∷ ws in
      let ready =
        Ring-frame mine same
          (Apart-of_counts (heads.running_queue ∷ q.ready) mine
            λ a. omega (arith, v.once a, counted a))
          v.ready in
      let free : has q.now (heads.running_queue ∷ q.ready) ≡ false =
        has_of_count q.now (heads.running_queue ∷ q.ready) (ground (arith, v.once q.now)) in
      let (m', e', r', same') = list_add_tail-Ring fuel q.now ready free (now_some v) fit in
      let run = q.now ∷ heads.running_queue ∷ q.ready in
      let w_ok : (w == null) ≡ false = ground (arith, v.non_null, counted null) in
      let k' = record k {
        links = m';
        current = container_of running_offset w;
        state = set_at k.state (container_of running_offset w) TaskState.running;
      } in
      let q' = Spec.wake (w ∷ ws) q in
      (
        k',
        rw (e, w_ok, hook-now v, e'),
        keep-IsValid v q' (inl λ a. omega (arith, counted a, count-append a q.ready (q.now ∷ [])))
            k' refl refl r'
            (Ring-frame run same'
              (Apart-of_counts (queue ∷ ws) run λ a. omega (arith, v.once a, counted a)) r)
            (Ring-frame run same'
              (Apart-of_counts (heads.term_queue ∷ q.dead) run λ a. omega (arith, v.once a))
              (Ring-frame mine same
                (Apart-of_counts (heads.term_queue ∷ q.dead) mine
                  λ a. omega (arith, v.once a, counted a))
                v.dead))
            (omega (arith, v.loop_free, counted loop))
            (λ a h. ground (arith, v.runs a, count-append a q.ready (q.now ∷ [])))
            (ground (arith, v.loop_runs)),
        Untouched-trans heads queue q mine run same same' (λ a. omega (arith, counted a))
            (λ a. omega arith),
      )

  resume_none :
      q.waiting ≡ []
      → (k' : Kernel) × (task_resume heads fuel queue k ≡ done tt k')
        × IsValid heads queue loop k' q
        × Untouched heads queue q k.links k'.links
  unfolding task_resume
  resume_none eq =
      let e = list_dequeue_empty (subst (Ring k.links queue) eq v.waiting) in
      (k, rw e, v, λ a z. (refl, refl))

  -- `task_resume` of the wait queue ends, with more rounds than there are ready tasks, and does
  -- what Spec.resume says: the first waiter runs at once, and with no waiter nothing changes.
  pub task_resume_refines :
      (k' : Kernel) × (task_resume heads fuel queue k ≡ done tt k')
      × IsValid heads queue loop k' (Spec.resume q)
      × Untouched heads queue q k.links k'.links
  task_resume_refines = go q.waiting refl
    where
      go :
          (xs : List ℕ)
          → q.waiting ≡ xs
          → (k' : Kernel) × (task_resume heads fuel queue k ≡ done tt k')
            × IsValid heads queue loop k' (Spec.wake xs q)
            × Untouched heads queue q k.links k'.links
      go [] eq = resume_none eq
      go (w ∷ ws) eq = resume_waiter w ws eq
