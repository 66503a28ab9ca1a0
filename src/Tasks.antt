-- ===== src/Tasks.antt =====
-- kernel/task.c: how tasks are made, cloned and destroyed.
pub mod Create
pub mod Born
pub mod Count
pub mod Clone
pub mod Chdir
mod Tests
use neux_os.Prelude.{
  ℕ, zero, suc, ◌+◌, ◌-◌, ◌%◌, ◌^◌, Bool, true, false, not, Option, none, some, List, [], ◌∷◌, ◌++◌,
  ◌==◌, if◌then◌else◌,
}
use neux_os.Links.{null, update}
use neux_os.Sched.{TaskState}
use neux_os.Files.{Files, nr_task_files, vfs_close}
use neux_os.Descriptors.{Gdt, install_tss, uninstall_tss}
use neux_os.Paging.{Paging, clone_page_table, free_page_table}

-- STACK0_SIZE
abbrev pub stack0_size : ℕ
stack0_size = 10240

-- TASK_T_KERN and TASK_T_USER
pub data TaskType : Type 0 where
  kern user : TaskType

-- `struct tss`, but for `ldt`, which no code names.
pub record Tss : Type 0 where
  pub prev : ℕ
  pub esp0 : ℕ
  pub ss0 : ℕ
  pub esp1 : ℕ
  pub ss1 : ℕ
  pub esp2 : ℕ
  pub ss2 : ℕ
  pub cr3 : ℕ
  pub eip : ℕ
  pub eflags : ℕ
  pub eax : ℕ
  pub ecx : ℕ
  pub edx : ℕ
  pub ebx : ℕ
  pub esp : ℕ
  pub ebp : ℕ
  pub esi : ℕ
  pub edi : ℕ
  pub es : ℕ
  pub cs : ℕ
  pub ss : ℕ
  pub ds : ℕ
  pub fs : ℕ
  pub gs : ℕ
  pub attrs : ℕ
  pub io : ℕ

-- `struct task` with `exe` of `struct utask` and `name` of `struct ktask`; not the lists.
pub record Task : Type 0 where
  pub pid : ℕ
  pub tss_sel : ℕ
  pub type : TaskType
  pub state : TaskState
  pub cwd : ℕ
  pub tss : Tss
  pub ticks : ℕ
  pub delay : ℕ
  pub files : ℕ → ℕ
  pub exe : ℕ
  pub name : List ℕ

-- `struct cpu_int_stack_frame`, and `struct interrupt_stack_frame` but for `_esp` and `eax`, which are
-- not read.
pub record CpuFrame : Type 0 where
  pub eip : ℕ
  pub cs : ℕ
  pub eflags : ℕ
  pub esp : ℕ
  pub ss : ℕ

pub record Frame : Type 0 where
  pub gs : ℕ
  pub fs : ℕ
  pub es : ℕ
  pub ds : ℕ
  pub edi : ℕ
  pub esi : ℕ
  pub ebp : ℕ
  pub ebx : ℕ
  pub edx : ℕ
  pub ecx : ℕ
  pub cpu : CpuFrame

-- The open files, the descriptors, the page tables, what is stored on stacks for irq_iret, and the
-- calls of kfree, each with its argument.
pub record System : Type 0 where
  pub files : Files
  pub gdt : Gdt
  pub paging : Paging
  pub frames : ℕ → CpuFrame
  pub kfreed : List ℕ

-- What kmalloc and kmemalign return for the task, its stack and its directory, NULL among it.
pub record Room : Type 0 where
  pub memory : ℕ
  pub stack : ℕ
  pub directory : ℕ

abbrev pub call_kfree : ℕ → System → System
call_kfree address s = record s { kfreed = s.kfreed ++ address ∷ [] }

-- The end of the stack, or NULL.
abbrev pub create_task_stack0 : (stack : ℕ) → ℕ
create_task_stack0 stack = if stack == null then null else (stack + stack0_size) % 2 ^ 32

-- Where setup_task_state puts the frame for irq_iret.
abbrev pub jframe_at : ℕ → ℕ
jframe_at s0 = (s0 + (2 ^ 32 - 20)) % 2 ^ 32

-- setup_task_state behind the test for NULL; `frame` is what the stack of the task has at its top.
abbrev pub clone_tss : (irq_iret s0 : ℕ) → Frame → Tss → Tss
clone_tss irq_iret s0 frame tss = record tss {
  gs = frame.gs;
  fs = frame.fs;
  es = frame.es;
  ds = frame.ds;
  edi = frame.edi;
  esi = frame.esi;
  ebp = frame.ebp;
  esp = jframe_at s0;
  esp0 = s0;
  ebx = frame.ebx;
  edx = frame.edx;
  ecx = frame.ecx;
  eax = 0;
  eip = irq_iret;
}

-- pfile->rc++
abbrev pub obtain_file : ℕ → Files → Files
obtain_file pfile s = record s {
  at = update s.at pfile (record (s.at pfile) { rc = ((s.at pfile).rc + 1) % 2 ^ 16 });
}

-- The loop of clone_utask.
unfoldable pub obtain_files : (rounds i : ℕ) → (ℕ → ℕ) → Files → Files
obtain_files zero i files s = s
obtain_files (suc rounds) i files s =
    obtain_files rounds (i + 1) files (if files i == null then s else obtain_file (files i) s)

-- The counts that clone_utask raises; `cwd` and `exe` are taken not to be NULL, here and in
-- drop_files, and the code does not test them.
unfoldable pub share_files : Task → Files → Files
unfolding obtain_files
share_files task s =
    let s = obtain_file task.cwd s in
    let s = obtain_file task.cwd s in
    obtain_file task.exe (obtain_files nr_task_files 0 task.files s)

-- The error path; free_page_table and kfree take NULL.
abbrev pub drop_clone : (dir esp0 cloned : ℕ) → System → System
drop_clone dir esp0 cloned s =
    call_kfree cloned (call_kfree esp0 (record s { paging = free_page_table dir s.paging }))

-- Behind the offset of `tss` in `struct task`.
abbrev pub tss_at : ℕ → ℕ
tss_at task = (task + 12) % 2 ^ 32

-- clone_utask from install_tss on, with the clone's directory.
unfoldable pub clone_install : (cloned : ℕ) → Task → System → Option Task × System
unfolding share_files
clone_install cloned task s =
    let (sel, gdt) = install_tss (tss_at cloned) 0x60 s.gdt in
    let s : System = record s { gdt = gdt } in
    elim sel [
      | none ↦ (none, drop_clone task.tss.cr3 task.tss.esp0 cloned s)
      | some sel ↦ (
        some (record task { tss_sel = sel; ticks = 0; delay = 0 }),
        record s { files = share_files task s.files },
      )
    ]

-- clone_utask from clone_page_table on; `cr3` is the one of the task.
unfoldable pub clone_tables : Room → (cr3 : ℕ) → Task → System → Option Task × System
unfolding clone_install
clone_tables room cr3 task s =
    let (dir, paging) = clone_page_table cr3 room.directory s.paging in
    let s : System = record s { paging = paging } in
    let task : Task = record task { tss = record task.tss { cr3 = dir } } in
    if dir == null
    then (none, drop_clone null task.tss.esp0 room.memory s)
    else clone_install room.memory task s

-- The clone, or NULL.
unfoldable pub clone_utask : Room → (irq_iret : ℕ) → Frame → Task → System → Option Task × System
unfolding clone_tables
clone_utask room irq_iret frame task s =
    let s0 = create_task_stack0 room.stack in
    if room.memory == null
    then (none, s)
    else if s0 == null
    then (none, drop_clone null 0 room.memory s)
    else clone_tables room task.tss.cr3 (record task { tss = clone_tss irq_iret s0 frame task.tss })
        (record s { frames = update s.frames (jframe_at s0) frame.cpu })

-- The loop of destroy_task; `has_close` is whether the file system of a file has the operation.
unfoldable pub close_files : (has_close : ℕ → Bool) → (rounds i : ℕ) → (ℕ → ℕ) → Files → Files
close_files has_close zero i files s = s
close_files has_close (suc rounds) i files s =
    close_files has_close rounds (i + 1) files
      (if files i == null then s else (vfs_close (has_close (files i)) (files i) s).1)

-- The files that destroy_task closes.
unfoldable pub drop_files : (has_close : ℕ → Bool) → Task → Files → Files
unfolding close_files
drop_files has_close task s =
    let s : Files = elim task.type [
      | kern ↦ s
      | user ↦ (vfs_close (has_close task.exe) task.exe s).1
    ] in
    let s = close_files has_close nr_task_files 0 task.files s in
    (vfs_close (has_close task.cwd) task.cwd s).1

-- Whether it returns 0; `address` is the one of the task.
unfoldable pub destroy_task : (has_close : ℕ → Bool) → (address : ℕ) → Task → System → Bool × System
unfolding drop_files
destroy_task has_close address task s =
    let (ok, gdt) = uninstall_tss task.tss_sel s.gdt in
    let s : System = record s { gdt = gdt } in
    let stack = (task.tss.esp0 + (2 ^ 32 - stack0_size)) % 2 ^ 32 in
    if not ok
    then (false, s)
    else let s = call_kfree stack s in
      (true, call_kfree address (record s { files = drop_files has_close task s.files }))
