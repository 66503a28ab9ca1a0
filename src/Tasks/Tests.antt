-- ===== src/Tasks/Tests.antt =====
-- Tasks in a concrete kernel.
use neux_os.Prelude.{
  ℕ, ◌<◌, ◌≡◌, ◌⊎◌, inl, inr, true, none, some, [], ◌∷◌, Bool-cases, ◌==◌, if◌then◌else◌, arith,
}
use neux_os.Files.{Files}
use neux_os.Files.Open.{all_found}
use neux_os.Descriptors.{gdt_size, no_descriptor}
use neux_os.Descriptors.Install.{is_taken}
use neux_os.Paging.{no_entry}
use neux_os.Sched.{init, running}
use neux_os.Tasks.{Task, Frame, System, Room, user, destroy_task}
use neux_os.Tasks.Create.{Places, first_tss, zero_task, create_utask}
use neux_os.Tasks.Born.{IsStandard, create_utask-IsStandard}

abbrev places : Places
places = record { kernel_pg_addr = 0x100000; utask_bootloader = 0xc0105000; text = 0 }

-- Every file has two references.
abbrev files : Files
files = record {
  at = λ p. record { rc = 2; off = 0; dent = 4096 };
  table = λ i. 0;
  released = [];
  closed = [];
  freed = [];
}

-- The kernel's five descriptors are in use.
abbrev kernel : System
kernel = record {
  files = files;
  gdt = record { gdt = λ _. no_descriptor; bitmap = λ i. if i == 0 then 31 else 0 };
  paging = record { users = λ i. 255; entries = λ t i. no_entry };
  frames = λ p. record { eip = 0; cs = 0; eflags = 0; esp = 0; ss = 0 };
  kfreed = [];
}

kernel_bytes : (i : ℕ) → kernel.gdt.bitmap i < 256
kernel_bytes i = elim (Bool-cases (i == 0)) [
  | inl e ↦ rw e (omega arith)
  | inr ne ↦ rw ne (omega arith)
]

abbrev room : Room
room = record { memory = 0xc0201000; stack = 0xc0202000; directory = 0xc0208000 }

-- A user's task with three descriptors, two of them for the same file.
abbrev shell : Task
shell = record (zero_task user 0x5000 (first_tss places user 0xc0200000 0x300000)) {
  state = running;
  tss_sel = 40;
  exe = 0x6000;
  files = λ i. if i == 0 then 0x7000 else if i == 1 then 0x8000 else if i == 2 then 0x8000 else 0;
}

abbrev frame : Frame
frame = record {
  gs = 0;
  fs = 0;
  es = 0x23;
  ds = 0x23;
  edi = 0;
  esi = 0;
  ebp = 0xbffff000;
  ebx = 7;
  edx = 0;
  ecx = 0;
  cpu = record { eip = 0x8048100; cs = 0x1b; eflags = 0x3200; esp = 0xbfffe000; ss = 0x23 };
}

-- The error output is not given.
create_utask-IsStandard_example :
    ((s' : System) × (create_utask places room
          (all_found 0x4000 0x9000)
          (47 ∷ 97 ∷ [])
          0x7000
          0x8000
          0
          kernel
        ≡ (none, s'))
      × (s'.gdt ≡ kernel.gdt)
      × ((s'.files.at 0x9000).rc ≡ 1)
      × ((j : ℕ) → j < gdt_size → is_taken kernel.gdt j ≡ true))
    ⊎ ((t : Task) × (s' : System) × (create_utask places room
            (all_found 0x4000 0x9000)
            (47 ∷ 97 ∷ [])
            0x7000
            0x8000
            0
            kernel
          ≡ (some t, s'))
        × ((t.type ≡ user) × (t.state ≡ init) × (t.cwd ≡ 0x9000) × (t.tss.eip ≡ 0xc0105000))
        × IsStandard 0x7000 0x8000 0 t.files
        × ((p : ℕ) → (s'.files.at p).rc ≡ (if p == 0x9000 then 1 else 2))
        × ((j : ℕ)
            → is_taken (destroy_task (λ _. true) 0xc0201000 (record t { exe = 0x6000 }) s').1.gdt j
              ≡ is_taken kernel.gdt j))
create_utask-IsStandard_example =
    create_utask-IsStandard places room 0x4000 0x9000 (47 ∷ 97 ∷ []) 0x7000 0x8000 0 kernel
      (λ _. true) 0x6000 (λ e. omega (arith, e), λ e. omega (arith, e)) (λ e. omega (arith, e))
      (λ e. omega (arith, e)) (λ e. omega (arith, e)) kernel_bytes
