-- ===== src/Sched/Valid.antt =====
-- The invariant that ties the pointers of kernel/sched.c to the queues of Spec.
use neux_os.Prelude.{
  ℕ, ◌≡◌, refl, ◌≢◌, false, ◌∙◌, ◌⊎◌, inl, inr, Bool-cases, List, [], ◌∷◌, ◌++◌, arith, ◌<◌, ◌≤◌,
  ◌+◌, ◌^◌, ◌==◌, if◌then◌else◌,
}
use neux_os.Links.{Links, null}
use neux_os.Links.Chain.{has, first_or, Ring, Apart, SameOutside}
use neux_os.Sched.{Heads, Kernel, TaskState, task_of, member, container_of, running_offset}
use neux_os.Sched.Queue.{member-container_of}
use neux_os.Sched.Spec.{Queues}

abbrev pub count : ℕ → List ℕ → ℕ
count a [] = 0
count a (x ∷ xs) = (if a == x then 1 else 0) + count a xs

pub count-append :
    (task : ℕ) (front back : List ℕ)
    → count task (front ++ back) ≡ count task front + count task back
count-append task [] back = omega arith
count-append task (first ∷ front) back = omega (arith, count-append task front back)

pub has_of_count : (a : ℕ) (xs : List ℕ) → count a xs ≡ 0 → has a xs ≡ false
has_of_count a [] h = refl
has_of_count a (x ∷ xs) h = ground (arith, has_of_count a xs)

pub count_of_has : (a : ℕ) (xs : List ℕ) → has a xs ≡ false → count a xs ≡ 0
count_of_has a [] h = refl
count_of_has a (x ∷ xs) h = ground (arith, count_of_has a xs)

pub Apart-of_counts : (xs ys : List ℕ) → ((a : ℕ) → count a xs + count a ys ≤ 1) → Apart xs ys
Apart-of_counts [] ys h = tt
Apart-of_counts (x ∷ xs) ys h =
    (has_of_count x ys (ground (arith, h x)), Apart-of_counts xs ys (λ a. omega (arith, h a)))

-- The tasks of the model, and the list heads with them.
abbrev pub tasks : ℕ → Queues → ℕ
tasks a q = count a (q.now ∷ q.ready) + count a q.waiting + count a q.dead

abbrev pub nodes : ℕ → Heads → ℕ → Queues → ℕ
nodes a heads queue q = count a (heads.running_queue ∷ queue ∷ heads.term_queue ∷ []) + tasks a q

-- Only the links of the three queues and of their tasks may differ.
abbrev pub Untouched : Heads → ℕ → Queues → Links → Links → Type 0
Untouched heads queue q m m' =
    (a : ℕ) → nodes a heads queue q ≡ 0 → (m'.next a ≡ m.next a) × (m'.prev a ≡ m.prev a)

pub Untouched-trans :
    (heads : Heads) (queue : ℕ) (q : Queues) (xs ys : List ℕ) {l m n : Links}
    → SameOutside xs l m
    → SameOutside ys m n
    → ((a : ℕ) → count a xs ≤ nodes a heads queue q)
    → ((a : ℕ) → count a ys ≤ nodes a heads queue q)
    → Untouched heads queue q l n
Untouched-trans heads queue q xs ys f g hx hy a z =
    let one = f a (has_of_count a xs (omega (arith, hx a))) in
    let two = g a (has_of_count a ys (omega (arith, hy a))) in (two.0 ∙ one.0, two.1 ∙ one.1)

-- The links form the three queues; no node is in two places; the running task and the ready ones
-- are in the state TASK_STATE_RUNNING; and the kernel loop does not wait and has not ended. `queue`
-- is the head of a wait queue.
pub record IsValid (heads : Heads) (queue loop : ℕ) (k : Kernel) (q : Queues) : Type 0 where
  pub current : k.current ≡ container_of running_offset q.now
  pub kernel_loop : k.kernel_loop_task ≡ container_of running_offset loop
  pub ready : Ring k.links heads.running_queue q.ready
  pub waiting : Ring k.links queue q.waiting
  pub dead : Ring k.links heads.term_queue q.dead
  pub once : (a : ℕ) → nodes a heads queue q ≤ 1
  pub non_null : nodes null heads queue q ≡ 0
  pub small : (a : ℕ) → 0 < tasks a q → a < 2 ^ 32
  pub loop_small : loop < 2 ^ 32
  pub loop_some : loop ≢ null
  pub loop_free :
      count loop (heads.running_queue ∷ queue ∷ heads.term_queue ∷ [])
        + count loop q.waiting
        + count loop q.dead
      ≡ 0
  pub runs :
      (a : ℕ)
      → 0 < count a (q.now ∷ q.ready)
      → k.state (container_of running_offset a) ≡ TaskState.running
  pub loop_runs : k.state (container_of running_offset loop) ≡ TaskState.running

module _ {heads : Heads} {queue loop : ℕ} {k : Kernel} {q : Queues}
    (v : IsValid heads queue loop k q) where
  pub now_small : q.now < 2 ^ 32
  now_small = v.small q.now (ground arith)

  pub hook-now : member running_offset k.current ≡ q.now
  hook-now = rw v.current (member-container_of running_offset q.now (omega arith) now_small)

  pub now_some : q.now ≢ null
  now_some = ground (arith, v.non_null)

pub count_one : (a b : ℕ) → (a == b) ≡ false → count a (b ∷ []) ≡ 0
count_one a b h = ground arith

abbrev pub queues : (now : ℕ) (ready waiting dead : List ℕ) → Queues
queues now ready waiting dead = record { now = now; ready = ready; waiting = waiting; dead = dead }

-- Where `q'` has no more tasks than `q`, but for the kernel loop when it runs in `q'` and not in
-- `q`, no node of `q'` is in two places.
module _ {heads : Heads} {queue loop : ℕ} {k : Kernel} {q : Queues}
    (v : IsValid heads queue loop k q) (q' : Queues) where
  pub once_of_le : ((a : ℕ) → tasks a q' ≤ tasks a q) → (a : ℕ) → nodes a heads queue q' ≤ 1
  once_of_le le a = omega (arith, v.once a, le a)

  pub once_of_loop :
      q.now ≢ loop
      → q.ready ≡ []
      → ((a : ℕ) → tasks a q' ≤ tasks a q + count a (loop ∷ []))
      → (a : ℕ) → nodes a heads queue q' ≤ 1
  once_of_loop ne e le a = elim (Bool-cases (a == loop)) [
    | inl same ↦
        let eq : a ≡ loop = ground arith in
        let room : tasks loop q ≡ 0 = ground (arith, v.loop_free) in
        rw eq (ground (arith, v.loop_free, le loop))
    | inr other ↦ omega (arith, v.once a, le a, count_one a loop other)
  ]

-- The tasks of `q'` are those of `q`, and perhaps the kernel loop, if it now runs for want of a
-- ready task.
abbrev pub Keeps : ℕ → Queues → Queues → Type 0
Keeps loop q q' =
    ((a : ℕ) → tasks a q' ≤ tasks a q)
    ⊎ ((q.now ≢ loop) × (q.ready ≡ []) × ((a : ℕ) → tasks a q' ≤ tasks a q + count a (loop ∷ [])))

module _ {heads : Heads} {queue loop : ℕ} {k : Kernel} {q : Queues}
    (v : IsValid heads queue loop k q) (q' : Queues) (keeps : Keeps loop q q') where
  pub keep_once : (a : ℕ) → nodes a heads queue q' ≤ 1
  keep_once a = elim keeps [
    | inl le ↦ once_of_le v q' le a
    | inr (ne, e, le) ↦ once_of_loop v q' ne e le a
  ]

  pub keep_le : (a : ℕ) → tasks a q' ≤ tasks a q + count a (loop ∷ [])
  keep_le a = elim keeps [ inl le ↦ omega (arith, le a) | inr (ne, e, le) ↦ le a ]

  pub keep_non_null : nodes null heads queue q' ≡ 0
  keep_non_null =
      omega (arith, v.non_null, keep_le null, count_one null loop (ground (arith, v.loop_some)))

  pub keep_small : (a : ℕ) → 0 < tasks a q' → a < 2 ^ 32
  keep_small a h = elim (Bool-cases (a == loop)) [
    | inl same ↦ ground (arith, v.loop_small)
    | inr other ↦ v.small a (omega (arith, keep_le a, count_one a loop other))
  ]

  pub keep-IsValid :
      (k' : Kernel)
      → k'.current ≡ container_of running_offset q'.now
      → k'.kernel_loop_task ≡ k.kernel_loop_task
      → Ring k'.links heads.running_queue q'.ready
      → Ring k'.links queue q'.waiting
      → Ring k'.links heads.term_queue q'.dead
      → count loop q'.waiting + count loop q'.dead ≡ 0
      → ((a : ℕ)
          → 0 < count a (q'.now ∷ q'.ready)
          → k'.state (container_of running_offset a) ≡ TaskState.running)
      → k'.state (container_of running_offset loop) ≡ TaskState.running
      → IsValid heads queue loop k' q'
  keep-IsValid k' current same ready waiting dead free runs loop_runs = record {
    current = current;
    kernel_loop = same ∙ v.kernel_loop;
    ready = ready;
    waiting = waiting;
    dead = dead;
    once = keep_once;
    non_null = keep_non_null;
    small = keep_small;
    loop_small = v.loop_small;
    loop_some = v.loop_some;
    loop_free = omega (arith, v.loop_free);
    runs = runs;
    loop_runs = loop_runs;
  }

-- The choice of the next task, from any queue without a null node.
pub task_of-first_or :
    {heads : Heads} {queue loop : ℕ} {k : Kernel} {q : Queues}
    → IsValid heads queue loop k q
    → (xs : List ℕ) → count null xs ≡ 0
    → task_of k (first_or null xs) ≡ container_of running_offset (first_or loop xs)
task_of-first_or v [] h = v.kernel_loop
task_of-first_or v (x ∷ xs) h = let x_ok : (x == null) ≡ false = ground arith in rw x_ok

pub task_of-first :
    {heads : Heads} {queue loop : ℕ} {k : Kernel} {q : Queues}
    → IsValid heads queue loop k q
    → task_of k (first_or null q.ready) ≡ container_of running_offset (first_or loop q.ready)
task_of-first {q} v = task_of-first_or v q.ready (omega (arith, v.non_null))
