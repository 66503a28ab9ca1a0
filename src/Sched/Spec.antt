-- ===== src/Sched/Spec.antt =====
-- What the queues of kernel/sched.c promise: a round-robin scheduler over lists. A task is named by
-- the hook by which it is queued.
use neux_os.Prelude.{ℕ, List, [], ◌∷◌, ◌++◌, ◌==◌, if◌then◌else◌}
use neux_os.Links.Chain.{first_or}
use neux_os.Links.Refine.{rest}

pub record Queues : Type 0 where
  pub now : ℕ
  pub ready : List ℕ
  pub waiting : List ℕ
  pub dead : List ℕ

-- `loop` is the kernel loop, which runs when no task is ready.
module _ (loop : ℕ) where
  -- The first ready task goes on.
  abbrev pub next : Queues → Queues
  next q = record q { now = first_or loop q.ready; ready = rest q.ready }

  abbrev pub yield : Queues → Queues
  yield q = let q' = next q in record q' { ready = q'.ready ++ q.now ∷ [] }

  abbrev pub suspend : Queues → Queues
  suspend q = record (next q) { waiting = q.waiting ++ q.now ∷ [] }

  abbrev pub exit : Queues → Queues
  exit q = record (next q) { dead = q.dead ++ q.now ∷ [] }

  -- The loop is not queued again, and the dead are cleared away.
  abbrev pub tick : Queues → Queues
  tick q =
      next
        (record q { ready = if q.now == loop then q.ready else q.ready ++ q.now ∷ []; dead = [] })

-- The first waiter goes on at once, and the running task is ready.
abbrev pub wake : List ℕ → Queues → Queues
wake [] q = q
wake (w ∷ ws) q = record q { now = w; ready = q.ready ++ q.now ∷ []; waiting = ws }

abbrev pub resume : Queues → Queues
resume q = wake q.waiting q
