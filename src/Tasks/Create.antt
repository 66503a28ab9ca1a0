-- ===== src/Tasks/Create.antt =====
-- New tasks of the kernel and of users.
use neux_os.Prelude.{
  ℕ, ◌+◌, ◌-◌, ◌%◌, ◌^◌, Bool, true, false, Option, none, some, List, [], ◌==◌, leb, if◌then◌else◌,
}
use neux_os.Prelude.{length}
use neux_os.Links.{null, update}
use neux_os.Files.{Found, vfs_open}
use neux_os.Descriptors.{install_tss}
use neux_os.Paging.{Paging, alloc_page_table}
use neux_os.Sched.{init}
use neux_os.Tasks.{
  Task, TaskType, kern, user, Tss, System, Room, call_kfree, create_task_stack0, tss_at,
}

-- CONFIG_KERNEL_PG_ADDR, utask_bootloader and the text of a task of the kernel.
pub record Places : Type 0 where
  pub kernel_pg_addr : ℕ
  pub utask_bootloader : ℕ
  pub text : ℕ

abbrev pub is_user : TaskType → Bool
is_user kern = false
is_user user = true

-- The directory, and the state of the tables.
unfoldable pub first_cr3 : Places → Room → TaskType → Paging → ℕ × Paging
first_cr3 places room kern s = (places.kernel_pg_addr, s)
first_cr3 places room user s = alloc_page_table places.kernel_pg_addr room.directory s

-- What init_tss writes; SELECTOR_KERNEL_CS is 0x08, SELECTOR_KERNEL_DS is 0x10, and INITIAL_EFLAGS is
-- 0x3200.
abbrev pub first_tss : Places → TaskType → (stack0 cr3 : ℕ) → Tss
first_tss places type stack0 cr3 = record {
  prev = 0;
  esp0 = stack0;
  ss0 = if is_user type then 0x10 else 0;
  esp1 = 0;
  ss1 = 0;
  esp2 = 0;
  ss2 = 0;
  cr3 = cr3;
  eip = if is_user type then places.utask_bootloader else places.text;
  eflags = 0x3200;
  eax = 0;
  ecx = 0;
  edx = 0;
  ebx = 0;
  ebp = stack0;
  esp = stack0;
  esi = 0;
  edi = 0;
  es = 0x10;
  cs = 0x08;
  ss = 0x10;
  ds = 0x10;
  fs = 0;
  gs = 0;
  attrs = 0;
  io = 0;
}

-- The selector of the task state; `none` is an error.
unfoldable pub init_tss : Places → Room → (stack0 : ℕ) → Task → System → Option Task × System
init_tss places room stack0 task s =
    let (cr3, paging) = first_cr3 places room task.type s.paging in
    let priv = if is_user task.type then 0x60 else 0 in
    let (sel, gdt) = install_tss (tss_at room.memory) priv s.gdt in
    let s : System = record s { paging = paging; gdt = gdt } in
    elim sel [
      | none ↦ (none, s)
      | some sel ↦
          (some (record task { tss = first_tss places task.type stack0 cr3; tss_sel = sel }), s)
    ]

-- The task behind the memset, with what _create_task sets first; the task state is set by init_tss.
abbrev pub zero_task : TaskType → (cwd : ℕ) → Tss → Task
zero_task type cwd tss = record {
  pid = 0;
  tss_sel = 0;
  type = type;
  state = init;
  cwd = cwd;
  tss = tss;
  ticks = 0;
  delay = 0;
  files = λ _. null;
  exe = null;
  name = [];
}

-- The error path.
abbrev pub drop_task : (s0 task : ℕ) → System → System
drop_task s0 task s = call_kfree task (call_kfree s0 s)

-- _create_task from init_tss on.
unfoldable pub start_task : Places → Room → TaskType → (cwd : ℕ) → System → Option Task × System
start_task places room type cwd s =
    let s0 = create_task_stack0 room.stack in
    if s0 == null
    then (none, drop_task null room.memory s)
    else let task = zero_task type cwd (first_tss places type 0 0) in
      let (result, s) = init_tss places room s0 task s in
      elim result [ none ↦ (none, drop_task s0 room.memory s) | some task ↦ (some task, s) ]

-- _create_task; `found` is what vfs_open finds for the working directory.
unfoldable pub create_task : Places → Room → Found → TaskType → System → Option Task × System
create_task places room found type s =
    let (cwd, errno, files) = vfs_open found s.files in
    if room.memory == null
    then (none, drop_task null null s)
    else if cwd == null
    then (none, drop_task null room.memory (record s { files = files }))
    else start_task places room type cwd (record s { files = files })

-- strcpy of the name, where there is a task.
abbrev pub set_name : List ℕ → Option Task × System → Option Task × System
set_name exe (none, s) = (none, s)
set_name exe (some task, s) = (some (record task { name = exe }), s)

-- MAX_PATH_LEN is 255.
unfoldable pub create_ktask : Places → Room → Found → (exe : List ℕ) → System → Option Task × System
create_ktask places room found exe s =
    if leb 255 (length exe) then (none, s) else set_name exe (create_task places room found kern s)

-- The stack pointer behind what is put on the stack for utask_bootloader: room for a frame of 20
-- bytes, the path, its address, and the address to return to.
abbrev pub utask_esp : (esp exe_length : ℕ) → ℕ
utask_esp esp exe_length = (esp + (2 ^ 32 - (20 + (exe_length + 1) + 4 + 4) % 2 ^ 32)) % 2 ^ 32

abbrev pub standard_files : (stdin stdout stderr : ℕ) → (ℕ → ℕ) → ℕ → ℕ
standard_files stdin stdout stderr files =
    update (update (update files 0 stdin) 1 stdout) 2 (if stderr == null then stdout else stderr)

abbrev pub set_standard :
    (exe_length stdin stdout stderr : ℕ) → Option Task × System → Option Task × System
set_standard exe_length stdin stdout stderr (none, s) = (none, s)
set_standard exe_length stdin stdout stderr (some task, s) = (
  some (record task {
    tss = record task.tss { esp = utask_esp task.tss.esp exe_length };
    files = standard_files stdin stdout stderr task.files;
  }),
  s,
)

-- Without the bytes that are put on the stack.
unfoldable pub create_utask :
    Places
    → Room
    → Found
    → (exe : List ℕ) → (stdin stdout stderr : ℕ) → System
    → Option Task × System
create_utask places room found exe stdin stdout stderr s =
    set_standard (length exe) stdin stdout stderr (create_task places room found user s)
