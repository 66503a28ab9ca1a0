-- ===== src/Sched/Tick.antt =====
-- task_sched against Spec: the clock's switch, and the end of terminated tasks.
use neux_os.Prelude.{
  ℕ, ◌≡◌, refl, sym, ◌∙◌, Bool-cases, true, false, inl, inr, List, [], ◌∷◌, ◌++◌, arith, ◌<◌, ◌≤◌,
  ◌+◌, ◌^◌, ◌==◌, ==_iff, subst, length,
}
use neux_os.Prelude.Outcome.{done, M, ◌>>=◌, ◌>>◌}
use neux_os.Links.{Links, null, list_dequeue}
use neux_os.Links.Chain.{has, first_or, Ring, Ring-frame}
use neux_os.Links.Refine.{rest, list_add_tail-Ring, list_dequeue-Ring}
use neux_os.Sched.{
  Heads, Kernel, TaskState, container_of, task_of, running_offset, task_sched, reap, on_links,
  set_current,
}
use neux_os.Sched.Spec
use neux_os.Sched.Spec.{Queues}
use neux_os.Sched.Valid.{
  IsValid, Keeps, tasks, count, count-append, count_one, has_of_count, count_of_has,
  Apart-of_counts, keep-IsValid, hook-now, now_some, task_of-first_or, keep_small, queues,
}
use neux_os.Sched.Switch.{is_loop, count_next, count-rest, now_runs}
use neux_os.Sched.Reap.{entry, unlisted, Listed, destroy_all, reap-done}
use neux_os.Sched.Listed.{IsListed, Keeps-apart, Keeps-each, stays, Listed-of_each, count-unlisted}

-- What task_sched does after the running task has been queued again.
abbrev switch_and_reap : Heads → ℕ → M Kernel (Unit {0})
switch_and_reap heads fuel = do
  node ← on_links (list_dequeue heads.running_queue)
  set_current node
  reap heads fuel fuel

switch_and_reap-done :
    (heads : Heads) (fuel : ℕ) (k : Kernel) (ready dead listed : List ℕ)
    → Ring k.links heads.running_queue ready
    → Ring k.links heads.term_queue dead
    → Ring k.links heads.task_list listed
    → ((a : ℕ)
        → count a (heads.running_queue ∷ ready)
            + count a (heads.term_queue ∷ dead)
            + count a (heads.task_list ∷ listed)
          ≤ 1)
    → Listed dead listed
    → length dead < fuel
    → (m' : Links) × (switch_and_reap heads fuel k
        ≡ done tt (record k {
          links = m';
          current = task_of k (first_or null ready);
          destroyed = destroy_all dead k.destroyed;
        }))
      × Ring m' heads.running_queue (rest ready)
      × Ring m' heads.term_queue []
      × Ring m' heads.task_list (unlisted dead listed)
      × ((a : ℕ)
          → count a (heads.running_queue ∷ ready)
              + count a (heads.term_queue ∷ dead)
              + count a (heads.task_list ∷ listed)
            ≡ 0
          → (m'.next a ≡ k.links.next a) × (m'.prev a ≡ k.links.prev a))
switch_and_reap-done heads fuel k ready dead listed r d l apart in_list fit =
    let (m, e, r', same) = list_dequeue-Ring ready r in
    let run = heads.running_queue ∷ ready in
    let ended = heads.term_queue ∷ dead in
    let all = heads.task_list ∷ listed in
    let d' = Ring-frame run same (Apart-of_counts ended run λ a. omega (arith, apart a)) d in
    let l' = Ring-frame run same (Apart-of_counts all run λ a. omega (arith, apart a)) l in
    let k' = record k { links = m; current = task_of k (first_or null ready) } in
    let (m', e', d'', l'', same') =
      reap-done heads fuel fuel k' dead listed d' l' (λ a. omega (arith, apart a)) in_list fit
        fit in
    (
      m',
      rw (e, e'),
      Ring-frame (ended ++ all) same'
          (Apart-of_counts (heads.running_queue ∷ rest ready) (ended ++ all)
            λ a. omega (arith, apart a, count-rest a ready, count-append a ended all))
          r',
      d'',
      l'',
      λ a z.
          let one = same a (has_of_count a run (omega arith)) in
          let two =
            same' a (has_of_count a (ended ++ all) (omega (arith, z, count-append a ended all))) in
          (two.0 ∙ one.0, two.1 ∙ one.1),
    )

count_next_append :
    (a loop : ℕ) (xs : List ℕ) (n : ℕ)
    → count a (first_or loop (xs ++ n ∷ []) ∷ rest (xs ++ n ∷ [])) ≡ count a xs + count a (n ∷ [])
count_next_append a loop [] n = omega arith
count_next_append a loop (x ∷ xs) n = omega (arith, count-append a xs (n ∷ []))

module _ {heads : Heads} {queue loop : ℕ} {k : Kernel} {q : Queues} {listed : List ℕ}
    (v : IsValid heads queue loop k q) (l : IsListed heads queue loop k q listed) (fuel : ℕ)
    (fit : length q.ready + length q.dead < fuel) where
  dead_listed : Listed q.dead listed
  dead_listed =
      Listed-of_each q.dead listed (λ a. omega (arith, v.once a)) (λ a h. v.small a (omega arith))
        (λ a h. l.each a (omega arith))

  -- The queues once the next task has been chosen from `r` and the dead are gone.
  abbrev finish : List ℕ → Queues
  finish r = queues (first_or loop r) (rest r) q.waiting []

  -- The second half of task_sched, from the queues as the first half leaves them.
  module _ (m : Links) (r : List ℕ) (le : (a : ℕ) → count a r ≤ count a (q.now ∷ q.ready))
      (keeps : Keeps loop q (finish r)) (ready : Ring m heads.running_queue r)
      (waiting : Ring m queue q.waiting) (dead : Ring m heads.term_queue q.dead)
      (all : Ring m heads.task_list listed) where
    not_dead : (a : ℕ) → 0 < tasks a (finish r) → count a q.dead ≡ 0
    not_dead a h = elim (Bool-cases (a == loop)) [
      | inl same ↦
          subst (λ b. count b q.dead ≡ 0) (sym ((==_iff a loop).0 same))
            (omega (arith, v.loop_free))
      | inr other ↦ omega (arith, h, v.once a, le a, count_next a loop r, count_one a loop other)
    ]

    kept :
        (b : ℕ)
        → b < 2 ^ 32
        → count b q.dead ≡ 0
        → 0 < count (entry b) listed
        → 0 < count (entry b) (unlisted q.dead listed)
    kept b small out h = stays b q.dead listed small out (λ a p. v.small a (omega arith)) h

    runs_after :
        (a : ℕ)
        → 0 < count a ((finish r).now ∷ (finish r).ready)
        → k.state (container_of running_offset a) ≡ TaskState.running
    runs_after a h = elim (Bool-cases (a == loop)) [
      | inl same ↦
          subst (λ b. k.state (container_of running_offset b) ≡ TaskState.running)
            (sym ((==_iff a loop).0 same)) v.loop_runs
      | inr other ↦ v.runs a (omega (arith, h, le a, count_next a loop r, count_one a loop other))
    ]

    tick_from :
        (k' : Kernel) × (switch_and_reap heads fuel (record k { links = m }) ≡ done tt k')
        × IsValid heads queue loop k' (finish r)
        × IsListed heads queue loop k' (finish r) (unlisted q.dead listed)
        × (k'.destroyed ≡ destroy_all q.dead k.destroyed)
    tick_from =
        let (m', e, ready', dead', all', same) =
          switch_and_reap-done heads fuel (record k { links = m }) r q.dead listed ready dead all
            (λ a. omega (arith, v.once a, l.apart a, le a)) dead_listed (omega arith) in
        let run = heads.running_queue ∷ r in
        let ended = heads.term_queue ∷ q.dead in
        let listing = heads.task_list ∷ listed in
        let mine = run ++ (ended ++ listing) in
        let k' = record k {
          links = m';
          current = task_of k (first_or null r);
          destroyed = destroy_all q.dead k.destroyed;
        } in
        (
          k',
          e,
          keep-IsValid v (finish r) keeps k'
              (task_of-first_or v r (omega (arith, le null, v.non_null))) refl ready'
              (Ring-frame mine
                (λ a o. same a (
                  omega (
                    arith,
                    count_of_has a mine o,
                    count-append a run (ended ++ listing),
                    count-append a ended listing,
                  )))
                (Apart-of_counts (queue ∷ q.waiting) mine λ a. omega (
                  arith,
                  v.once a,
                  l.apart a,
                  le a,
                  count-append a run (ended ++ listing),
                  count-append a ended listing,
                ))
                waiting)
              dead' (omega (arith, v.loop_free)) runs_after v.loop_runs,
          record {
            ring = all';
            apart = λ a.
                omega (arith, Keeps-apart v l (finish r) keeps a, count-unlisted a q.dead listed);
            each = λ a h.
                kept a (keep_small v (finish r) keeps a h) (not_dead a h)
                  (Keeps-each v l (finish r) keeps a h);
            loop_each = kept loop v.loop_small (omega (arith, v.loop_free)) l.loop_each;
            loop_apart = omega (arith, l.loop_apart, count-unlisted loop q.dead listed);
          },
          refl,
        )

  -- With the kernel loop running, the ready tasks are as they were.
  tick_loop :
      (q.now == loop) ≡ true
      → (k' : Kernel) × (task_sched heads fuel k ≡ done tt k')
        × IsValid heads queue loop k' (finish q.ready)
        × IsListed heads queue loop k' (finish q.ready) (unlisted q.dead listed)
        × (k'.destroyed ≡ destroy_all q.dead k.destroyed)
  unfolding task_sched
  tick_loop same =
      let (k', e, v', l', gone) =
        tick_from k.links q.ready (λ a. omega arith)
          (inl λ a. ground (arith, count_next a loop q.ready)) v.ready v.waiting v.dead l.ring in
      (k', rw (is_loop v, same, e), v', l', gone)

  -- Another running task is put behind the ready ones first.
  tick_task :
      (q.now == loop) ≡ false
      → (k' : Kernel) × (task_sched heads fuel k ≡ done tt k')
        × IsValid heads queue loop k' (finish (q.ready ++ q.now ∷ []))
        × IsListed heads queue loop k' (finish (q.ready ++ q.now ∷ [])) (unlisted q.dead listed)
        × (k'.destroyed ≡ destroy_all q.dead k.destroyed)
  unfolding task_sched
  tick_task other =
      let free : has q.now (heads.running_queue ∷ q.ready) ≡ false =
        has_of_count q.now (heads.running_queue ∷ q.ready) (ground (arith, v.once q.now)) in
      let (m, e, ready, same) =
        list_add_tail-Ring fuel q.now v.ready free (now_some v) (omega arith) in
      let run = q.now ∷ heads.running_queue ∷ q.ready in
      let r = q.ready ++ q.now ∷ [] in
      let (k', e', v', l', gone) =
        tick_from m r (λ a. omega (arith, count-append a q.ready (q.now ∷ [])))
          (inl λ a. omega (arith, count_next_append a loop q.ready q.now)) ready
          (Ring-frame run same
            (Apart-of_counts (queue ∷ q.waiting) run λ a. omega (arith, v.once a)) v.waiting)
          (Ring-frame run same
            (Apart-of_counts (heads.term_queue ∷ q.dead) run λ a. omega (arith, v.once a)) v.dead)
          (Ring-frame run same
            (Apart-of_counts (heads.task_list ∷ listed) run λ a. omega (arith, l.apart a))
            l.ring) in
      (k', rw (is_loop v, other, now_runs v, hook-now v, e, e'), v', l', gone)

  -- `task_sched` ends, with more rounds than there are ready and ended tasks, and does what
  -- Spec.tick says. Every ended task has been destroyed, in the order in which they ended, and is
  -- no longer on the list of all tasks; the others still are.
  pub task_sched_refines :
      (k' : Kernel) × (task_sched heads fuel k ≡ done tt k')
      × IsValid heads queue loop k' (Spec.tick loop q)
      × IsListed heads queue loop k' (Spec.tick loop q) (unlisted q.dead listed)
      × (k'.destroyed ≡ destroy_all q.dead k.destroyed)
  task_sched_refines = elim (Bool-cases (q.now == loop)) [
    | inl same ↦ rw same (tick_loop same)
    | inr other ↦ rw other (tick_task other)
  ]
