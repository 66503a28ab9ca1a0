-- ===== src/Sched/Tests.antt =====
-- The scheduler's theorems at a small system: a shell runs, an editor and a server are ready, one
-- task waits for the disk, and one has ended.
use neux_os.Prelude.{ℕ, ◌≡◌, refl, [], List, ◌∷◌, arith, ◌==◌, if◌then◌else◌}
use neux_os.Prelude.Outcome.{done}
use neux_os.Links.{Links}
use neux_os.Links.Chain.{Ring}
use neux_os.Sched.{Heads, Kernel, TaskState, task_sched, clock_handler}
use neux_os.Sched.Spec.{Queues}
use neux_os.Sched.Valid.{IsValid, queues}
use neux_os.Sched.Listed.{IsListed}
use neux_os.Sched.Events.{
  Event, yields, suspends, exits, resumes, ticks, run, spec_run, run_refines,
}
use neux_os.Sched.Fair.{turns, turns-current}
use neux_os.Sched.Clock.{aged, clock_handler-stdout}

abbrev heads : Heads
heads = record { task_list = 16; running_queue = 32; term_queue = 48; delay_queue = 64 }

abbrev disk : ℕ
disk = 80

-- The hooks by which the tasks at 10000, 20000, … are queued; their entries are 8 bytes before.
abbrev shell : ℕ
shell = 11160

abbrev editor : ℕ
editor = 21160

abbrev server : ℕ
server = 31160

abbrev reader : ℕ
reader = 41160

abbrev ended : ℕ
ended = 51160

abbrev loop : ℕ
loop = 61160

abbrev small : Queues
small = queues shell (editor ∷ server ∷ []) (reader ∷ []) (ended ∷ [])

abbrev entries : List ℕ
entries = 11152 ∷ 21152 ∷ 31152 ∷ 41152 ∷ 51152 ∷ 61152 ∷ []

-- links as an association list
abbrev from_list : List (ℕ × ℕ) → ℕ → ℕ
from_list [] a = 0
from_list ((p, v) ∷ m) a = if a == p then v else from_list m a

abbrev links : Links
links = record {
  next = from_list (
      (32, 21160)
      ∷ (21160, 31160)
      ∷ (31160, 32)
      ∷ (80, 41160)
      ∷ (41160, 80)
      ∷ (48, 51160)
      ∷ (51160, 48)
      ∷ (16, 11152)
      ∷ (11152, 21152)
      ∷ (21152, 31152)
      ∷ (31152, 41152)
      ∷ (41152, 51152)
      ∷ (51152, 61152)
      ∷ (61152, 16)
      ∷ (64, 64)
      ∷ []);
  prev = from_list (
      (32, 31160)
      ∷ (21160, 32)
      ∷ (31160, 21160)
      ∷ (80, 41160)
      ∷ (41160, 80)
      ∷ (48, 51160)
      ∷ (51160, 48)
      ∷ (16, 61152)
      ∷ (11152, 16)
      ∷ (21152, 11152)
      ∷ (31152, 21152)
      ∷ (41152, 31152)
      ∷ (51152, 41152)
      ∷ (61152, 51152)
      ∷ (64, 64)
      ∷ []);
}

abbrev kernel : Kernel
kernel = record {
  links = links;
  current = 10000;
  kernel_loop_task = 60000;
  state = λ t.
      if t == 40000
      then TaskState.wait
      else if t == 50000
      then TaskState.term
      else TaskState.running;
  pid = λ t. 0;
  task_id = 6;
  word = λ a. 3000;
  jeffies = 7;
  destroyed = [];
}

kernel-IsValid : IsValid heads disk loop kernel small
kernel-IsValid = record {
  current = refl;
  kernel_loop = refl;
  ready = record {
    forward = ground arith;
    backward = ground arith;
    distinct = ground arith;
    non_null = refl;
  };
  waiting = record {
    forward = ground arith;
    backward = ground arith;
    distinct = ground arith;
    non_null = refl;
  };
  dead = record {
    forward = ground arith;
    backward = ground arith;
    distinct = ground arith;
    non_null = refl;
  };
  once = λ a. ground arith;
  non_null = refl;
  small = λ a h. ground arith;
  loop_small = omega arith;
  loop_some = omega arith;
  loop_free = refl;
  runs = λ a h. ground arith;
  loop_runs = refl;
}

kernel-IsListed : IsListed heads disk loop kernel small entries
kernel-IsListed = record {
  ring = record {
    forward = ground arith;
    backward = ground arith;
    distinct = ground arith;
    non_null = refl;
  };
  apart = λ a. ground arith;
  each = λ a h. ground arith;
  loop_each = omega arith;
  loop_apart = refl;
}

abbrev day : List Event
day = yields ∷ suspends ∷ ticks ∷ resumes ∷ exits ∷ []

run_refines_example :
    (k' : Kernel) × (listed' : List ℕ) × (run heads 10 disk day kernel ≡ done tt k')
    × IsValid heads disk loop k' (spec_run loop day small)
    × IsListed heads disk loop k' (spec_run loop day small) listed'
run_refines_example = run_refines day 10 kernel-IsValid kernel-IsListed (omega arith)

-- The server runs after two calls.
turns-current_example :
    (k' : Kernel) × (run heads 7 disk (turns 2) kernel ≡ done tt k') × (k'.current ≡ 30000)
turns-current_example =
    turns-current 1 7 kernel-IsValid kernel-IsListed refl (omega arith) (omega arith)

-- The reader alone is asleep.
abbrev asleep : Kernel
asleep = record kernel {
  links = record links {
    next = λ a. if a == 64 then reader else if a == reader then 64 else links.next a;
    prev = λ a. if a == 64 then reader else if a == reader then 64 else links.prev a;
  };
}

asleep-Ring : Ring asleep.links 64 (reader ∷ [])
asleep-Ring = record {
  forward = ground arith;
  backward = ground arith;
  distinct = ground arith;
  non_null = refl;
}

clock_handler-stdout_example :
    clock_handler heads 2 asleep
    ≡ task_sched heads 2 (record asleep { word = aged (reader ∷ []) asleep.word; jeffies = 8 })
clock_handler-stdout_example =
    clock_handler-stdout heads asleep (reader ∷ []) 2 asleep-Ring (omega arith) (omega arith, tt)
      (omega arith, tt) (omega arith)
