-- ===== src/Sched.antt =====
-- kernel/sched.c, kernel/task.h and kernel/clock.c: the tasks' queues, the switch from task to task,
-- and the clock tick. A `struct task` is its byte address.
pub mod Queue
pub mod Spec
pub mod Valid
pub mod Switch
pub mod Wait
pub mod Reap
pub mod Listed
pub mod Tick
pub mod Events
pub mod Fair
pub mod Clock
mod Tests
use neux_os.Prelude.{
  ℕ, zero, suc, ◌+◌, ◌-◌, ◌*◌, ◌%◌, ◌^◌, List, ◌∷◌, Bool, true, false, ◌==◌, ltb, if◌then◌else◌,
  not, ◌&&◌,
}
use neux_os.Prelude.Outcome.{M, Outcome, done, page_fault, looping, pure, get, modify, ◌>>=◌, ◌>>◌}
use neux_os.Links
use neux_os.Links.{
  Links, null, update, list_add_tail, list_del, list_dequeue, list_count, load_next,
}

-- TASK_STATE_INIT, TASK_STATE_RUNNING, TASK_STATE_TERM and TASK_STATE_WAIT
pub data TaskState : Type 0 where
  init running term wait : TaskState

abbrev pub is_running : TaskState → Bool
is_running running = true
is_running _ = false

-- Offsets in `struct task`, which is packed: `tss` takes 104 bytes, and NR_TASK_FILES is 256.
abbrev pub delay_offset : ℕ
delay_offset = 124

abbrev pub files_offset : ℕ
files_offset = 128

abbrev pub list_offset : ℕ
list_offset = 1152

abbrev pub running_offset : ℕ
running_offset = 1160

-- Pointer arithmetic: `&task->member` and `container_of(ptr, struct task, member)`.
abbrev pub member : ℕ → ℕ → ℕ
member offset task = (task + offset) % 2 ^ 32

abbrev pub container_of : ℕ → ℕ → ℕ
container_of offset ptr = (ptr + 2 ^ 32 - offset) % 2 ^ 32

-- The static list heads of sched.c and clock.c.
pub record Heads : Type 0 where
  pub task_list : ℕ
  pub running_queue : ℕ
  pub term_queue : ℕ
  pub delay_queue : ℕ

-- `word` holds the 32-bit members of the tasks that the clock reads, by address. `destroyed` lists
-- the tasks handed to `destroy_task`, the last one first.
pub record Kernel : Type 0 where
  pub links : Links
  pub current : ℕ
  pub kernel_loop_task : ℕ
  pub state : ℕ → TaskState
  pub pid : ℕ → ℕ
  pub task_id : ℕ
  pub word : ℕ → ℕ
  pub jeffies : ℕ
  pub destroyed : List ℕ

abbrev pub lift : {A : Type 0} → Outcome Links A → Kernel → Outcome Kernel A
lift (done a m) k = done a (record k { links = m })
lift page_fault k = page_fault
lift looping k = looping

abbrev pub on_links : {A : Type 0} → M Links A → M Kernel A
on_links op k = lift (op k.links) k

abbrev pub set_state : ℕ → TaskState → M Kernel (Unit {0})
set_state task s = modify λ k. record k { state = λ t. if t == task then s else k.state t }

abbrev pub task_of : Kernel → ℕ → ℕ
task_of k node = if node == null then k.kernel_loop_task else container_of running_offset node

-- current = node == NULL ? kernel_loop_task : container_of(node, struct task, running)
abbrev pub set_current : ℕ → M Kernel (Unit {0})
set_current node = modify λ k. record k { current = task_of k node }

-- Each list loop is given `fuel` rounds.
module _ (heads : Heads) (fuel : ℕ) where
  abbrev pub enqueue : (queue node : ℕ) → M Kernel (Unit {0})
  enqueue queue node = on_links (list_add_tail fuel queue node)

  unfoldable pub task_start : ℕ → M Kernel ℕ
  task_start task = do
    k ← get
    let id = k.task_id
    modify
        λ k. record k { pid = λ t. if t == task then id else k.pid t; task_id = (id + 1) % 2 ^ 32 }
    set_state task running
    enqueue heads.task_list (member list_offset task)
    enqueue heads.running_queue (member running_offset task)
    pure id

  -- The switch itself, `ljmp`, is where the chosen task goes on.
  unfoldable pub yield : M Kernel (Unit {0})
  yield = do
    k ← get
    let onboard = k.current
    node ← on_links (list_dequeue heads.running_queue)
    set_current node
    k ← get
    if is_running (k.state onboard)
        then enqueue heads.running_queue (member running_offset onboard)
        else pure tt

  unfoldable pub task_term : ℕ → M Kernel (Unit {0})
  unfolding yield
  task_term task = do
    set_state task term
    k ← get
    if task == k.current then pure tt else on_links (list_del (member running_offset task))
    enqueue heads.term_queue (member running_offset task)
    k ← get
    if task == k.current then yield else pure tt

  unfoldable pub do_term_task : ℕ → M Kernel (Unit {0})
  do_term_task task = do
    on_links (list_del (member list_offset task))
    modify λ k. record k { destroyed = task ∷ k.destroyed }

  unfoldable pub task_suspend : ℕ → M Kernel (Unit {0})
  task_suspend queue = do
    k ← get
    set_state k.current wait
    enqueue queue (member running_offset k.current)
    node ← on_links (list_dequeue heads.running_queue)
    set_current node

  unfoldable pub wake : ℕ → M Kernel (Unit {0})
  wake node = if node == null then pure tt else do
    let task = container_of running_offset node
    set_state task running
    k ← get
    enqueue heads.running_queue (member running_offset k.current)
    modify λ k. record k { current = task }

  unfoldable pub task_resume : ℕ → M Kernel (Unit {0})
  unfolding wake
  task_resume queue = do node ← on_links (list_dequeue queue); wake node

  -- while (LIST_COUNT(&term_queue) > 0) { … }
  unfoldable pub reap : ℕ → M Kernel (Unit {0})
  unfolding do_term_task
  reap zero = λ _. looping
  reap (suc rounds) = do
    count ← on_links (list_count fuel heads.term_queue)
    if ltb 0 count
        then (do
          node ← on_links (list_dequeue heads.term_queue)
          do_term_task (container_of running_offset node)
          reap rounds)
        else pure tt

  unfoldable pub task_sched : M Kernel (Unit {0})
  unfolding reap
  task_sched = do
    k ← get
    if not (k.current == k.kernel_loop_task) && is_running (k.state k.current)
        then enqueue heads.running_queue (member running_offset k.current)
        else pure tt
    node ← on_links (list_dequeue heads.running_queue)
    set_current node
    reap fuel

  unfoldable pub sys_exit : M Kernel (Unit {0})
  unfolding task_term
  sys_exit = do k ← get; task_term k.current

  -- MICROSEC / PIT_HZ
  abbrev pub tick_us : ℕ
  tick_us = 1000

  -- LIST_ENTRY_FOREACH(&delay_queue, list, task) { … }: `task` is what `container_of` makes of the
  -- node and the member `list`. The result says whether a task was resumed.
  unfoldable pub delay_loop : (rounds task : ℕ) → M Kernel Bool
  unfolding task_resume
  delay_loop zero task = λ _. looping
  delay_loop (suc rounds) task =
      if member list_offset task == heads.delay_queue then pure false else do
        k ← get
        let delay = member delay_offset task
        if ltb (k.word delay) tick_us
            then (do
              modify λ k. record k { word = update k.word delay 0 }
              task_resume heads.delay_queue
              pure true)
            else (do
              modify λ k. record k { word = update k.word delay (k.word delay - tick_us) }
              next ← on_links (load_next (member list_offset task))
              delay_loop rounds (container_of list_offset next))

  unfoldable pub clock_handler : M Kernel (Unit {0})
  unfolding delay_loop task_sched
  clock_handler = do
    modify λ k. record k { jeffies = (k.jeffies + 1) % 2 ^ 32 }
    first ← on_links (load_next heads.delay_queue)
    resumed ← delay_loop fuel (container_of list_offset first)
    if resumed then pure tt else task_sched

  unfoldable pub sys_delay : ℕ → M Kernel (Unit {0})
  unfolding task_suspend
  sys_delay us = do
    modify λ k. record k { word = update k.word (member delay_offset k.current) us }
    task_suspend heads.delay_queue
