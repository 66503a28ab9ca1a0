-- ===== src/Tasks/Born.antt =====
-- What a new task has, and what is left of it when it is destroyed.
use neux_os.Prelude.{
  ℕ, ◌*◌, ◌<◌, ◌≤◌, ◌≡◌, ◌≢◌, refl, ap, ◌∙◌, Bool, true, false, Option, ◌⊎◌, inl, inr, none, some,
  ◌==◌, ==_ne, ==_refl, if◌then◌else◌, arith, List, length,
}
use neux_os.Links.{null, update}
use neux_os.Files.{Files, Found, minus_one, vfs_open}
use neux_os.Files.Open.{all_found}
use neux_os.Descriptors.{Gdt, gdt_size, install_tss}
use neux_os.Descriptors.Install.{is_taken, install_tss-uninstall}
use neux_os.Sched.{init}
use neux_os.Tasks.{Task, TaskType, user, System, Room, create_task_stack0, tss_at, destroy_task}
use neux_os.Tasks.Create.{
  Places, is_user, first_cr3, first_tss, init_tss, zero_task, drop_task, start_task, create_task,
  create_utask, set_standard, standard_files, utask_esp,
}
use neux_os.Tasks.Clone.{destroy_task-uninstalled}

-- Memory for the task and its stack.
abbrev pub HasStack : Room → Type 0
HasStack room = (room.memory ≢ 0) × (create_task_stack0 room.stack ≢ 0)

abbrev pub new_file : (dent memory : ℕ) → Files → Files
new_file dent memory s = record s {
  at = update s.at memory (record { rc = 1; off = 0; dent = dent });
}

pub vfs_open-found :
    (dent memory : ℕ) (s : Files)
    → dent ≢ 0
    → memory ≢ 0
    → vfs_open (all_found dent memory) s ≡ (memory, minus_one, new_file dent memory s)
unfolding vfs_open
vfs_open-found dent memory s some_dent some_memory =
    rw (vfs_open, ==_ne dent 0 some_dent, ==_ne memory 0 some_memory) refl

create_task-start :
    (places : Places) (room : Room) (dent memory : ℕ) (type : TaskType) (s : System)
    → HasStack room
    → dent ≢ 0
    → memory ≢ 0
    → create_task places room (all_found dent memory) type s
      ≡ start_task places room type memory (record s { files = new_file dent memory s.files })
unfolding create_task
create_task-start places room dent memory type s (some_room, _) some_dent some_memory =
    let opened = vfs_open-found dent memory s.files some_dent some_memory in
    rw
      (
        create_task,
        ap (λ r. r.0) opened,
        ap (λ r. r.2) opened,
        ==_ne room.memory 0 some_room,
        ==_ne memory 0 some_memory,
      )
      refl

-- The kernel with the directory of the task.
abbrev with_tables : Places → Room → TaskType → System → System
with_tables places room type s = record s { paging = (first_cr3 places room type s.paging).1 }

module _ (places : Places) (room : Room) (stack0 : ℕ) (task : Task) (s : System) where
  init_tss-installed :
      (sel : ℕ) (gdt : Gdt)
      → install_tss (tss_at room.memory) (if is_user task.type then 0x60 else 0) s.gdt
        ≡ (some sel, gdt)
      → init_tss places room stack0 task s ≡ (
        some (record task {
          tss = first_tss places task.type stack0 (first_cr3 places room task.type s.paging).0;
          tss_sel = sel;
        }),
        record (with_tables places room task.type s) { gdt = gdt },
      )
  unfolding init_tss
  init_tss-installed sel gdt e = rw (init_tss, ap (λ r. r.0) e, ap (λ r. r.1) e) refl

  init_tss-full :
      install_tss (tss_at room.memory) (if is_user task.type then 0x60 else 0) s.gdt ≡ (none, s.gdt)
      → init_tss places room stack0 task s ≡ (none, with_tables places room task.type s)
  unfolding init_tss
  init_tss-full e = rw (init_tss, ap (λ r. r.0) e, ap (λ r. r.1) e) refl

module _ (places : Places) (room : Room) (type : TaskType) (cwd : ℕ) (s : System)
    (has_stack : HasStack room) where
  abbrev blank : Task
  blank = zero_task type cwd (first_tss places type 0 0)

  start_task-some :
      (t : Task) (s' : System)
      → init_tss places room (create_task_stack0 room.stack) blank s ≡ (some t, s')
      → start_task places room type cwd s ≡ (some t, s')
  unfolding start_task
  start_task-some t s' e =
      rw
        (
          start_task,
          ==_ne (create_task_stack0 room.stack) 0 has_stack.1,
          ap (λ r. r.0) e,
          ap (λ r. r.1) e,
        )
        refl

  start_task-none :
      (s' : System)
      → init_tss places room (create_task_stack0 room.stack) blank s ≡ (none, s')
      → start_task places room type cwd s
        ≡ (none, drop_task (create_task_stack0 room.stack) room.memory s')
  unfolding start_task
  start_task-none s' e =
      rw
        (
          start_task,
          ==_ne (create_task_stack0 room.stack) 0 has_stack.1,
          ap (λ r. r.0) e,
          ap (λ r. r.1) e,
        )
        refl

set_standard-create :
    (places : Places) (room : Room) (found : Found) (exe : List ℕ) (stdin stdout stderr : ℕ)
    (s s' : System) (t : Option Task)
    → create_task places room found user s ≡ (t, s')
    → create_utask places room found exe stdin stdout stderr s
      ≡ set_standard (length exe) stdin stdout stderr (t, s')
unfolding create_utask
set_standard-create places room found exe stdin stdout stderr s s' t e =
    ap (set_standard (length exe) stdin stdout stderr) e

-- The descriptors 0, 1 and 2, and no other; the error output is the output if none is given.
abbrev pub IsStandard : (stdin stdout stderr : ℕ) → (ℕ → ℕ) → Type 0
IsStandard stdin stdout stderr files =
    (files 0 ≡ stdin)
    × (files 1 ≡ stdout)
    × (files 2 ≡ (if stderr == 0 then stdout else stderr))
    × ((j : ℕ) → 3 ≤ j → files j ≡ 0)

standard_files-IsStandard :
    (stdin stdout stderr : ℕ)
    → IsStandard stdin stdout stderr (standard_files stdin stdout stderr (λ _. null))
standard_files-IsStandard stdin stdout stderr = (refl, refl, refl, others)
  where
    others : (j : ℕ) → 3 ≤ j → standard_files stdin stdout stderr (λ _. null) j ≡ 0
    others j h =
        rw
          (==_ne j 2 (λ e. omega arith), ==_ne j 1 (λ e. omega arith), ==_ne j 0 (λ e. omega arith))
          refl

-- With memory for the task and its stack, for a working directory that is found and has memory for its
-- file: if no descriptor is left, create_utask gives NULL, and the file of the working directory stays
-- open with one reference. Otherwise the task starts in utask_bootloader, has the file of the working
-- directory and the standard files, to which it adds no references. Destroying it once it has
-- its executable, `file`, frees the descriptor that it took.
pub create_utask-IsStandard :
    (places : Places) (room : Room) (dent memory : ℕ) (exe : List ℕ) (stdin stdout stderr : ℕ)
    (s : System) (has_close : ℕ → Bool) (file : ℕ)
    → HasStack room
    → file ≢ 0
    → dent ≢ 0
    → memory ≢ 0
    → ((i : ℕ) → s.gdt.bitmap i < 256)
    → ((s' : System) × (create_utask places room (all_found dent memory) exe stdin stdout stderr s
          ≡ (none, s'))
        × (s'.gdt ≡ s.gdt)
        × ((s'.files.at memory).rc ≡ 1)
        × ((j : ℕ) → j < gdt_size → is_taken s.gdt j ≡ true))
      ⊎ ((t : Task) × (s' : System) × (create_utask places room
              (all_found dent memory)
              exe
              stdin
              stdout
              stderr
              s
            ≡ (some t, s'))
          × ((t.type ≡ user)
              × (t.state ≡ init)
              × (t.cwd ≡ memory)
              × (t.tss.eip ≡ places.utask_bootloader))
          × IsStandard stdin stdout stderr t.files
          × ((p : ℕ) → (s'.files.at p).rc ≡ (if p == memory then 1 else (s.files.at p).rc))
          × ((j : ℕ)
              → is_taken (destroy_task has_close room.memory (record t { exe = file }) s').1.gdt j
                ≡ is_taken s.gdt j))
create_utask-IsStandard places room dent memory exe stdin stdout stderr s has_close file has_stack
      loaded some_dent some_memory bytes =
    let stack0 = create_task_stack0 room.stack in
    let s0 : System = record s { files = new_file dent memory s.files } in
    let s1 = with_tables places room user s0 in
    let blank = zero_task user memory (first_tss places user 0 0) in
    let start = create_task-start places room dent memory user s has_stack some_dent some_memory in
    elim (install_tss-uninstall (tss_at room.memory) 0x60 s.gdt (omega arith) bytes) [
      | inl (full, used) ↦
          let none_left = init_tss-full places room stack0 blank s0 full in
          let s2 = drop_task stack0 room.memory s1 in
          let created = start ∙ start_task-none places room user memory s0 has_stack s1 none_left in
          inl (
            s2,
            set_standard-create places room (all_found dent memory) exe stdin stdout stderr s s2
                none created,
            refl,
            opened memory,
            used,
          )
      | inr (i, gdt, installed, _, _, _, _, _, _, (gdt', uninstalled, same)) ↦
          let t : Task = record blank {
            tss = first_tss places user stack0 (first_cr3 places room user s0.paging).0;
            tss_sel = i * 8;
          } in
          let s2 : System = record s1 { gdt = gdt } in
          let installed' = init_tss-installed places room stack0 blank s0 (i * 8) gdt installed in
          let created =
            start ∙ start_task-some places room user memory s0 has_stack t s2 installed' in
          let t' : Task = record t {
            tss = record t.tss { esp = utask_esp stack0 (length exe) };
            files = standard_files stdin stdout stderr t.files;
          } in
          let destroyed =
            (destroy_task-uninstalled has_close room.memory gdt' (record t' { exe = file }) s2
              uninstalled).1 in
          inr (
            t',
            s2,
            set_standard-create places room (all_found dent memory) exe stdin stdout stderr s s2
                (some t) created,
            (refl, refl, refl, refl),
            standard_files-IsStandard stdin stdout stderr,
            λ p. counted (p == memory) p,
            λ j. ap (λ g. is_taken g j) destroyed ∙ same j,
          )
    ]
  where
    counted :
        (b : Bool) (p : ℕ)
        → (if b then record { rc = 1; off = 0; dent = dent } else s.files.at p).rc
          ≡ (if b then 1 else (s.files.at p).rc)
    counted true p = refl
    counted false p = refl

    opened : (p : ℕ) → (update s.files.at p (record { rc = 1; off = 0; dent = dent }) p).rc ≡ 1
    opened p = rw (==_refl p) refl
