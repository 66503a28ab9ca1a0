-- ===== src/Sched/Events.antt =====
-- The scheduler under any sequence of calls and ticks.
use neux_os.Prelude.{
  ℕ, ◌≡◌, refl, ◌≢◌, ap, Bool-cases, inl, inr, List, [], ◌∷◌, ◌++◌, arith, ◌<◌, ◌≤◌, ◌+◌, ◌==◌,
  if◌then◌else◌, length, length-append,
}
use neux_os.Prelude.Outcome.{done, M, pure, ◌>>=◌, ◌>>◌, get}
use neux_os.Links.Refine.{rest}
use neux_os.Sched.{Heads, Kernel, yield, task_suspend, task_resume, sys_exit, task_sched}
use neux_os.Sched.Spec
use neux_os.Sched.Spec.{Queues}
use neux_os.Sched.Valid.{IsValid, Keeps, count, count-append}
use neux_os.Sched.Switch.{Keeps-next, is_loop, yield_refines}
use neux_os.Sched.Wait.{task_suspend_refines, sys_exit_refines, task_resume_refines}
use neux_os.Sched.Listed.{IsListed, IsListed-keep}
use neux_os.Sched.Tick.{task_sched_refines}

-- A call by the running task, or an interrupt: a wake-up of the wait queue's first task, or a tick.
pub data Event : Type 0 where
  yields suspends exits resumes ticks : Event

module _ (heads : Heads) (fuel queue : ℕ) where
  -- `kernel_loop` makes no calls: it only halts until the next interrupt.
  call : M Kernel (Unit {0}) → M Kernel (Unit {0})
  call op = do k ← get; if k.current == k.kernel_loop_task then pure tt else op

  pub act : Event → M Kernel (Unit {0})
  unfolding call
  act yields = call (yield heads fuel)
  act suspends = call (task_suspend heads fuel queue)
  act exits = call (sys_exit heads fuel)
  act resumes = task_resume heads fuel queue
  act ticks = task_sched heads fuel

  pub run : List Event → M Kernel (Unit {0})
  unfolding act
  run [] = pure tt
  run (e ∷ es) = do act e; run es

-- What the queues should be after an event, and after a sequence of them.
abbrev pub spec_act : ℕ → Event → Queues → Queues
spec_act loop yields q = if q.now == loop then q else Spec.yield loop q
spec_act loop suspends q = if q.now == loop then q else Spec.suspend loop q
spec_act loop exits q = if q.now == loop then q else Spec.exit loop q
spec_act loop resumes q = Spec.resume q
spec_act loop ticks q = Spec.tick loop q

abbrev pub spec_run : ℕ → List Event → Queues → Queues
spec_run loop [] q = q
spec_run loop (e ∷ es) q = spec_run loop es (spec_act loop e q)

abbrev size : Queues → ℕ
size q = length q.ready + length q.waiting + length q.dead

record Runs (heads : Heads) (queue loop : ℕ) (k : Kernel) (q : Queues) : Type 0 where
  listed : List ℕ
  valid : IsValid heads queue loop k q
  all : IsListed heads queue loop k q listed

length-rest_le : (xs : List ℕ) → length (rest xs) ≤ length xs
length-rest_le [] = omega arith
length-rest_le (x ∷ xs) = omega arith

size-yield : (loop : ℕ) (q : Queues) → size (Spec.yield loop q) ≤ size q + 1
size-yield loop q =
    omega (arith, length-append {0} (rest q.ready) (q.now ∷ []), length-rest_le q.ready)

size-suspend : (loop : ℕ) (q : Queues) → size (Spec.suspend loop q) ≤ size q + 1
size-suspend loop q =
    omega (arith, length-append {0} q.waiting (q.now ∷ []), length-rest_le q.ready)

size-exit : (loop : ℕ) (q : Queues) → size (Spec.exit loop q) ≤ size q + 1
size-exit loop q = omega (arith, length-append {0} q.dead (q.now ∷ []), length-rest_le q.ready)

size-wake :
    (xs : List ℕ) (q : Queues) → length xs ≡ length q.waiting → size (Spec.wake xs q) ≤ size q + 1
size-wake [] q h = omega arith
size-wake (x ∷ xs) q h = omega (arith, length-append {0} q.ready (q.now ∷ []))

size-tick : (loop : ℕ) (q : Queues) → size (Spec.tick loop q) ≤ size q + 1
size-tick loop q = elim (Bool-cases (q.now == loop)) [
  | inl same ↦ rw same (omega (arith, length-rest_le q.ready))
  | inr other ↦ rw other (
      omega (arith, length-rest_le (q.ready ++ q.now ∷ []), length-append {0} q.ready (q.now ∷ [])))
]

Keeps-wake : (loop : ℕ) (q : Queues) (xs : List ℕ) → q.waiting ≡ xs → Keeps loop q (Spec.wake xs q)
Keeps-wake loop q [] e = inl λ a. omega arith
Keeps-wake loop q (w ∷ ws) e =
    inl λ a. omega (arith, ap (count a) e, count-append a q.ready (q.now ∷ []))

module _ {heads : Heads} {queue loop : ℕ} {k : Kernel} {q : Queues} {listed : List ℕ}
    (v : IsValid heads queue loop k q) (l : IsListed heads queue loop k q listed) (fuel : ℕ)
    (fit : size q < fuel) where
  -- A call runs if the kernel loop does not.
  call_runs :
      (op : M Kernel (Unit {0})) (q' : Queues)
      → (q.now ≢ loop
          → (k' : Kernel) × (op k ≡ done tt k')
            × IsValid heads queue loop k' q'
            × IsListed heads queue loop k' q' listed)
      → (k' : Kernel) × (call heads fuel queue op k ≡ done tt k')
        × IsValid heads queue loop k' (if q.now == loop then q else q')
        × IsListed heads queue loop k' (if q.now == loop then q else q') listed
  unfolding call
  call_runs op q' run = elim (Bool-cases (q.now == loop)) [
    | inl same ↦ (k, rw (is_loop v, same), rw same v, rw same l)
    | inr other ↦
        let (k', e, v', l') = run (λ eq. ground (arith, eq)) in
        (k', rw (is_loop v, other, e), rw other v', rw other l')
  ]

  call_yield :
      q.now ≢ loop
      → (k' : Kernel) × (yield heads fuel k ≡ done tt k')
        × IsValid heads queue loop k' (Spec.yield loop q)
        × IsListed heads queue loop k' (Spec.yield loop q) listed
  call_yield ne =
      let (k', e, v', same) = yield_refines v fuel ne (omega arith) in
      let keeps =
        Keeps-next loop q (Spec.yield loop q) ne
          (λ a. omega (arith, count-append a (rest q.ready) (q.now ∷ []))) in
      (k', e, v', IsListed-keep v l (Spec.yield loop q) k' keeps same)

  call_suspend :
      q.now ≢ loop
      → (k' : Kernel) × (task_suspend heads fuel queue k ≡ done tt k')
        × IsValid heads queue loop k' (Spec.suspend loop q)
        × IsListed heads queue loop k' (Spec.suspend loop q) listed
  call_suspend ne =
      let (k', e, v', same) = task_suspend_refines v ne fuel (omega arith) in
      let keeps =
        Keeps-next loop q (Spec.suspend loop q) ne
          (λ a. omega (arith, count-append a q.waiting (q.now ∷ []))) in
      (k', e, v', IsListed-keep v l (Spec.suspend loop q) k' keeps same)

  call_exit :
      q.now ≢ loop
      → (k' : Kernel) × (sys_exit heads fuel k ≡ done tt k')
        × IsValid heads queue loop k' (Spec.exit loop q)
        × IsListed heads queue loop k' (Spec.exit loop q) listed
  call_exit ne =
      let (k', e, v', same) = sys_exit_refines v ne fuel (omega arith) in
      let keeps =
        Keeps-next loop q (Spec.exit loop q) ne
          (λ a. omega (arith, count-append a q.dead (q.now ∷ []))) in
      (k', e, v', IsListed-keep v l (Spec.exit loop q) k' keeps same)

  act_refines :
      (event : Event)
      → (k' : Kernel) × (listed' : List ℕ) × (act heads fuel queue event k ≡ done tt k')
        × IsValid heads queue loop k' (spec_act loop event q)
        × IsListed heads queue loop k' (spec_act loop event q) listed'
        × (size (spec_act loop event q) ≤ size q + 1)
  unfolding act
  act_refines yields =
      let (k', e, v', l') = call_runs (yield heads fuel) (Spec.yield loop q) call_yield in
      (k', listed, e, v', l', ground (arith, size-yield loop q))
  act_refines suspends =
      let (k', e, v', l') =
        call_runs (task_suspend heads fuel queue) (Spec.suspend loop q) call_suspend in
      (k', listed, e, v', l', ground (arith, size-suspend loop q))
  act_refines exits =
      let (k', e, v', l') = call_runs (sys_exit heads fuel) (Spec.exit loop q) call_exit in
      (k', listed, e, v', l', ground (arith, size-exit loop q))
  act_refines resumes =
      let (k', e, v', same) = task_resume_refines v fuel (omega arith) in
      (
        k',
        listed,
        e,
        v',
        IsListed-keep v l (Spec.resume q) k' (Keeps-wake loop q q.waiting refl) same,
        size-wake q.waiting q refl,
      )
  act_refines ticks =
      let (k', e, v', l', gone) = task_sched_refines v l fuel (omega arith) in
      (k', _, e, v', l', size-tick loop q)

-- From a well-formed state, with more rounds than there are queued tasks and events together, any
-- sequence of calls, wake-ups and ticks ends without a fault. The state is then well formed again,
-- and its queues and running task are those that Spec gives for the sequence.
pub run_refines :
    (events : List Event) (fuel : ℕ) {heads : Heads} {queue loop : ℕ} {k : Kernel} {q : Queues}
    {listed : List ℕ}
    → IsValid heads queue loop k q
    → IsListed heads queue loop k q listed
    → length q.ready + length q.waiting + length q.dead + length events < fuel
    → (k' : Kernel) × (listed' : List ℕ) × (run heads fuel queue events k ≡ done tt k')
      × IsValid heads queue loop k' (spec_run loop events q)
      × IsListed heads queue loop k' (spec_run loop events q) listed'
unfolding run
run_refines [] fuel {k} {listed} v l fit = (k, listed, refl, v, l)
run_refines (event ∷ events) fuel {loop} {q} v l fit =
    let (k', listed', e, v', l', grown) = act_refines v l fuel (omega arith) event in
    let (k'', listed'', e', v'', l'') = run_refines events fuel v' l' (omega arith) in
    (k'', listed'', rw (e, e'), v'', l'')
