-- ===== src/Sched/Switch.antt =====
-- yield and task_term against Spec: the running task gives up the processor.
use neux_os.Prelude.{
  ℕ, ◌≡◌, refl, ◌≢◌, ap, ◌∙◌, Bool-cases, false, inl, inr, List, [], ◌∷◌, arith, ◌<◌, ◌≤◌, ◌+◌,
  ◌==◌, length,
}
use neux_os.Prelude.Outcome.{done}
use neux_os.Links.{null}
use neux_os.Links.Chain.{has, Apart, first_or, SameOutside, Ring-frame}
use neux_os.Links.Refine.{rest, list_add_tail-Ring, list_dequeue-Ring}
use neux_os.Sched.{Heads, Kernel, TaskState, container_of, task_of, running_offset, yield}
use neux_os.Sched.Queue.{has-rest, length-rest, SameOutside-trans, member-container_of}
use neux_os.Sched.Spec
use neux_os.Sched.Spec.{Queues}
use neux_os.Sched.Valid.{
  IsValid, Keeps, Untouched, Untouched-trans, tasks, count, count-append, count_one, has_of_count,
  Apart-of_counts, keep-IsValid, hook-now, now_some, now_small, task_of-first,
}

pub count_next :
    (a loop : ℕ) (xs : List ℕ)
    → count a (first_or loop xs ∷ rest xs) ≤ count a xs + count a (loop ∷ [])
count_next a loop [] = omega arith
count_next a loop (x ∷ xs) = omega arith

pub count-rest : (a : ℕ) (xs : List ℕ) → count a (rest xs) ≤ count a xs
count-rest a [] = omega arith
count-rest a (x ∷ xs) = omega arith

-- When the next task is chosen, the tasks are kept.
pub Keeps-next :
    (loop : ℕ) (q q' : Queues)
    → q.now ≢ loop
    → ((a : ℕ)
        → tasks a q'
          ≡ count a (first_or loop q.ready ∷ rest q.ready)
            + count a (q.now ∷ [])
            + count a q.waiting
            + count a q.dead)
    → Keeps loop q q'
Keeps-next loop q q' ne eq = go q.ready refl
  where
    go : (xs : List ℕ) → q.ready ≡ xs → Keeps loop q q'
    go [] e = inr (ne, e, λ a. omega (arith, eq a, count_next a loop q.ready))
    go (x ∷ xs) e = inl λ a. omega (arith, rw e at (eq a), ap (count a) e)

-- Whatever runs or is ready after the choice did so before, or is the kernel loop.
pub runs-next :
    {heads : Heads} {queue loop : ℕ} {k : Kernel} {q : Queues}
    → IsValid heads queue loop k q
    → (a : ℕ) → 0 < count a (first_or loop q.ready ∷ rest q.ready) + count a (q.now ∷ [])
    → k.state (container_of running_offset a) ≡ TaskState.running
runs-next {loop} {k} {q} v a h = elim (Bool-cases (a == loop)) [
  | inl same ↦ let e : a ≡ loop = ground arith in rw e v.loop_runs
  | inr other ↦ v.runs a (omega (arith, count_next a loop q.ready, count_one a loop other))
]

module _ {heads : Heads} {queue loop : ℕ} {k : Kernel} {q : Queues}
    (v : IsValid heads queue loop k q) where
  -- Neither of the other two queues shares a node with the running queue and the running task.
  pub waiting-Apart : Apart (queue ∷ q.waiting) (q.now ∷ heads.running_queue ∷ q.ready)
  waiting-Apart =
      Apart-of_counts (queue ∷ q.waiting) (q.now ∷ heads.running_queue ∷ q.ready)
        λ a. omega (arith, v.once a)

  pub dead-Apart : Apart (heads.term_queue ∷ q.dead) (q.now ∷ heads.running_queue ∷ q.ready)
  dead-Apart =
      Apart-of_counts (heads.term_queue ∷ q.dead) (q.now ∷ heads.running_queue ∷ q.ready)
        λ a. omega (arith, v.once a)

  pub now_free : has q.now (heads.running_queue ∷ rest q.ready) ≡ false
  now_free =
      has_of_count q.now (heads.running_queue ∷ rest q.ready)
        (ground (arith, v.once q.now, count-rest q.now q.ready))

  pub now_runs : k.state k.current ≡ TaskState.running
  now_runs = ap k.state v.current ∙ v.runs q.now (ground arith)

  -- The comparison `current != kernel_loop_task` is one of hooks.
  pub is_loop : (k.current == k.kernel_loop_task) ≡ (q.now == loop)
  is_loop = ground (
    arith,
    v.current,
    v.kernel_loop,
    member-container_of running_offset q.now (omega arith) (now_small v),
    member-container_of running_offset loop (omega arith) v.loop_small,
  )

  -- `yield` of a task other than the kernel loop ends, with more rounds than there are ready tasks,
  -- and does what Spec.yield says, to the queues and to the running task. No other links are written.
  pub yield_refines :
      (fuel : ℕ)
      → q.now ≢ loop
      → length q.ready < fuel
      → (k' : Kernel) × (yield heads fuel k ≡ done tt k')
        × IsValid heads queue loop k' (Spec.yield loop q)
        × Untouched heads queue q k.links k'.links
  unfolding yield
  yield_refines fuel ne fit =
      let (m, e, r, same) = list_dequeue-Ring q.ready v.ready in
      let (m', e', r', same') =
        list_add_tail-Ring fuel q.now r now_free (now_some v) (length-rest q.ready fuel fit) in
      let all = q.now ∷ heads.running_queue ∷ q.ready in
      let outside : SameOutside all k.links m' =
        SameOutside-trans (heads.running_queue ∷ q.ready)
          (q.now ∷ heads.running_queue ∷ rest q.ready) all same same' (λ a h. ground arith)
          (λ a h. ground (arith, has-rest a q.ready)) in
      let k' = record k { links = m'; current = task_of k (first_or null q.ready) } in
      (
        k',
        rw (e, now_runs, hook-now v, e'),
        keep-IsValid v (Spec.yield loop q)
            (Keeps-next loop q (Spec.yield loop q) ne
              (λ a. omega (arith, count-append a (rest q.ready) (q.now ∷ []))))
            k' (task_of-first v) refl r' (Ring-frame all outside waiting-Apart v.waiting)
            (Ring-frame all outside dead-Apart v.dead) (omega (arith, v.loop_free))
            (λ a h. runs-next v a (omega (arith, h, count-append a (rest q.ready) (q.now ∷ []))))
            v.loop_runs,
        Untouched-trans heads queue q (heads.running_queue ∷ q.ready)
            (q.now ∷ heads.running_queue ∷ rest q.ready) same same' (λ a. omega arith)
            (λ a. omega (arith, count-rest a q.ready)),
      )
