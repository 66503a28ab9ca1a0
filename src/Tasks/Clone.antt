-- ===== src/Tasks/Clone.antt =====
-- The references of a cloned task, and what is left of them when it is destroyed.
use neux_os.Prelude.{ℕ, ◌+◌, ◌%◌, ◌^◌, ◌≡◌, ◌≢◌, refl, ap, Bool, true, ◌==◌}
use neux_os.Links.{update}
use neux_os.Mm.Align.{phy_addr}
use neux_os.Descriptors.{Gdt, uninstall_tss}
use neux_os.Descriptors.Install.{is_taken}
use neux_os.Paging.{Paging, clone_page_table}
use neux_os.Tasks.{
  Task, Tss, Frame, System, Room, create_task_stack0, jframe_at, clone_tss, drop_files,
  destroy_task,
}
use neux_os.Tasks.Count.{count, one_if}

-- The clone as clone_install gets it, and the kernel with its directory.
abbrev prepared : Room → (irq_iret : ℕ) → Frame → Task → Task
prepared room irq_iret frame task = record task {
  tss = record (clone_tss irq_iret (create_task_stack0 room.stack) frame task.tss) {
    cr3 = phy_addr room.directory;
  };
}

abbrev prepare : Room → Frame → Task → System → System
prepare room frame task s = record s {
  frames = update s.frames (jframe_at (create_task_stack0 room.stack)) frame.cpu;
  paging = (clone_page_table task.tss.cr3 room.directory s.paging).1;
}

-- Memory for the task, its stack and its directory.
abbrev pub HasRoom : Room → Type 0
HasRoom room =
    (room.memory ≢ 0)
    × (create_task_stack0 room.stack ≢ 0)
    × (room.directory ≢ 0)
    × (phy_addr room.directory ≢ 0)

abbrev with_selector : (sel : ℕ) → Task → Task
with_selector sel task = record task { tss_sel = sel; ticks = 0; delay = 0 }

pub destroy_task-uninstalled :
    (has_close : ℕ → Bool) (address : ℕ) (gdt : Gdt) (task : Task) (s : System)
    → uninstall_tss task.tss_sel s.gdt ≡ (true, gdt)
    → ((destroy_task has_close address task s).0 ≡ true)
      × ((destroy_task has_close address task s).1.gdt ≡ gdt)
      × ((destroy_task has_close address task s).1.files ≡ drop_files has_close task s.files)
unfolding destroy_task
destroy_task-uninstalled has_close address gdt task s e =
    rw (destroy_task, ap (λ r. r.0) e, ap (λ r. r.1) e) (refl, refl, refl)

-- What is left when the clone `t` at `address` in the kernel `s'` is destroyed.
abbrev pub IsDropped : (has_close : ℕ → Bool) (address : ℕ) (t : Task) (s s' : System) → Type 0
IsDropped has_close address t s s' =
    ((destroy_task has_close address t s').0 ≡ true)
    × ((p : ℕ)
        → count (destroy_task has_close address t s').1.files p
          ≡ (count s.files p + one_if (p == t.cwd)) % 2 ^ 16)
    × ((j : ℕ) → is_taken (destroy_task has_close address t s').1.gdt j ≡ is_taken s.gdt j)

-- The registers that the frame of an interrupted task has, with 0 in eax, and the rest of what the
-- clone is started from: irq_iret as the instruction, and the stack and the directory of its own.
abbrev pub StartsAs : Room → (irq_iret : ℕ) → Frame → Tss → Type 0
StartsAs room irq_iret frame tss =
    (tss.gs ≡ frame.gs)
    × (tss.fs ≡ frame.fs)
    × (tss.es ≡ frame.es)
    × (tss.ds ≡ frame.ds)
    × (tss.edi ≡ frame.edi)
    × (tss.esi ≡ frame.esi)
    × (tss.ebp ≡ frame.ebp)
    × (tss.ebx ≡ frame.ebx)
    × (tss.edx ≡ frame.edx)
    × (tss.ecx ≡ frame.ecx)
    × (tss.eax ≡ 0)
    × (tss.eip ≡ irq_iret)
    × (tss.esp0 ≡ create_task_stack0 room.stack)
    × (tss.cr3 ≡ phy_addr room.directory)
