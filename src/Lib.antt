-- ===== src/Lib.antt =====
-- NeuxOS: the kernel's lists and locks, its scheduler, clock and tasks, its memory and page
-- tables, its descriptors and interrupts, its devices, terminals and keyboard, its files and disk,
-- its boot loader, its string library, and its shell.
--
-- NeuxOS is a small kernel for 32-bit x86. Its tasks, timers and waiters hang on circular doubly
-- linked lists (lib/list.h); the scheduler (kernel/sched.c) moves tasks between such lists, the
-- clock (kernel/clock.c) calls it at every tick, and the memory manager hands out page frames
-- (mm/page.c) and, in them, blocks of the kernel heap (mm/kmalloc.c), whose blocks are again on a
-- ring.
--
-- Parts and files:
--
--   * Prelude: names of the libraries and the Boolean tests; Prelude/Lists, Prelude/Bits and
--     Prelude/Tests: lemmas; Prelude/Outcome: the results of code that works on a state: done with
--     a value and a state, a page fault, or out of rounds.
--   * Links: lib/list.h and lib/queue.h. A `struct list_head` is its address, the state is the two
--     links of each address, and every `->` is an access that faults at NULL. Links/Chain says
--     when the links are a ring through a list of nodes, Links/Append, Links/Remove and Links/Run
--     hold the steps, Links/Refine what each macro does to that list.
--   * Sched: kernel/sched.c, kernel/task.h and kernel/clock.c. A `struct task` is its address; its
--     hooks are at the offsets of the packed structure. `Kernel` holds the links, the states,
--     `current`, and the tasks handed to destroy_task. Sched/Spec is the scheduler over lists;
--     Sched/Valid is the invariant that ties the two; Sched/Switch, Sched/Wait, Sched/Reap,
--     Sched/Listed and Sched/Tick refine the operations one by one; Sched/Events takes them in any
--     order; Sched/Fair is about turns; Sched/Clock about the tick's loop over the sleepers.
--   * Buffer: the wrap-around array that the terminals and the keyboard share. Tty: kernel/tty.c,
--     the terminals with their input buffers (Tty/Input) and keys (Tty/Keypress). Keyboard:
--     drivers/keyboard, with its buffer (Keyboard/Codes: interrupts between reads and in the
--     middle of them), the keys and the table of keyboard.h and keymap.h (Keyboard/Key,
--     Keyboard/Keymap), and keyboard_read (Keyboard/Read), which gets the bytes as a list;
--     Keyboard/Held and Keyboard/Typing are about the modifiers and the letters, Keyboard/Consume
--     about the bytes it takes, and Keyboard/Leds puts in the waits for the controller when a lock
--     key sets the lamps. Monitor: drivers/monitor/monitor.c, the text screens in the video
--     memory, with Monitor/Bounds for where they write.
--   * Tasks: kernel/task.c, with Tasks/Create for new tasks, Tasks/Count for the references to
--     files, Tasks/Clone for clone_utask and destroy_task, Tasks/Born for what a new task has, and
--     Tasks/Chdir for the working directory. Its state puts together the open files, the
--     descriptors and the page tables. Descriptors: kernel/descriptor.c, with Descriptors/Fields
--     for what a descriptor says and Descriptors/Install for the ones in use. Interrupts:
--     kernel/interrupt.c, drivers/i8259a/i8259a.c and kernel/syscall.c, with Interrupts/Gates for
--     the interrupt table and Interrupts/Masks for the controllers. Paging: mm/mm.c and
--     mm/page_fault.c, with Paging/Walk for the processor's walk, Paging/Link and Paging/Map for a
--     page fault and Paging/Clone for the directory of a clone.
--   * Loader: boot/hd/loader.c, with Loader/Segments for the memory that the kernel takes and
--     Loader/Tables for the first page tables. Devices: dev/dev.c, with Devices/Registry for the
--     devices, Devices/Nodes for their file system and Devices/Listing for sys_getdents of fs/fs.c
--     over it. Locks: kernel/lock.c, with Locks/Exclusion for when it keeps tasks out.
--   * Strings: lib/string; a string is the list of its characters, and a result pointer is the
--     suffix that it points to. Strings/Compare and Strings/Span hold what the functions find.
--     Paths: lib/c/basename.c and lib/c/dirname.c, with Paths/Split for what they give. Printf:
--     lib/stdio/printf.c, the numbers; Printf/Format: vsprintf; Printf/Read and Printf/Signed read
--     numbers back, and Printf/Directive is about a directive in its format string.
--   * Disk: drivers/harddisk/harddisk.c, with Disk/Sectors for the bytes that a read gives. Ext2:
--     fs/ext2/ext2.c over that drive, with Ext2/Block for a block of a file and Ext2/File for
--     whole files and Ext2/Dir for the search in a directory. Files: fs/file.c and fs/fs.c, the
--     open files and the descriptors of a task, with Files/Open for opening and closing. Dentry:
--     fs/dentry.c, the tree of directory entries with its counts, and vfs_lookup of fs/fs.c, with
--     Dentry/Cached and Dentry/Path for paths through it. Bitmap: lib/bitmap.c, with Bitmap/Free
--     for the indices in use.
--   * Shell: app/nxsh.c, a byte at a time; Shell/Line is about its line editor, Shell/Bounds about
--     its buffers (a use of an unset token, or of an argument that printf is not given, ends the
--     model), Shell/Words about its words and Shell/Recall about its history.
--   * Mm/Align: ALIGN_FLOOR, ALIGN_CEIL and is_power_of_2 of lib/misc.h and the address macros of
--     kernel/memory.h and arch/x86/x86.h, on 32-bit words. Mm/Page: mm/page.c. Mm/Kmalloc:
--     mm/kmalloc.c, with Mm/Search about its search for a gap.
--
-- Loops: a loop over a ring runs on rounds that the caller bounds, and `looping` or `none` says
-- that they ran out. The theorems ask for more rounds than the ring has nodes (for a sequence of
-- events, than there are queued tasks and events together) and then give a result, so the rounds
-- are never what ends a loop. A display scrolls at most 40 rows to reach its cursor. The waits for
-- the keyboard's controller have as many rounds as it takes to answer at most, which the theorem
-- asks for. The search in a directory has a round for each byte of a block, and no block has more
-- entries. The search for a gap is given two rounds more than twice the pages it may cross.
--
-- Constants that the build takes from Kconfig have its defaults: CONFIG_KERNEL_VM_OFFSET is
-- 0xc0000000, CONFIG_KERNEL_PG_ADDR is 0x100000, CONFIG_KERNEL_RES_PAGES is 1, CONFIG_HD_SECT_SZ
-- is 512 and CONFIG_EXT2_BS is 1024. Arithmetic on uint32_t and uint8_t is written with its
-- wrap-around.
--
-- What the code gets from elsewhere is an argument: whether kmalloc has memory or what it returns,
-- the words of the drive, the operations of a file system or of a device, what is in the
-- keyboard's buffer, the headers of the kernel's file, the addresses of entries in assembly.
--
-- Interrupts: an operation of the scheduler is taken to run as a whole, as `yield` does with
-- interrupts off and as the handlers of interrupts do; a task switch is the change of `current`.
-- In any order of calls, only a task other than the kernel loop makes calls; ticks and wake-ups
-- come at any time. For the scheduler, destroy_task is recorded and taken to leave the queues
-- alone; what it does to files and descriptors is in Tasks.
--
-- Not modelled: assembly, port I/O, the loading of programs, output and logging, and the parts of
-- the repository that are not named above: the mounting of file systems, the listing of ext2
-- directories, how the loader reads the kernel's file, and the applications but the shell.
pub mod Prelude
pub mod Links
pub mod Sched
pub mod Mm
pub mod Buffer
pub mod Monitor
pub mod Tty
pub mod Keyboard
pub mod Strings
pub mod Printf
pub mod Bitmap
pub mod Dentry
pub mod Descriptors
pub mod Devices
pub mod Disk
pub mod Ext2
pub mod Files
pub mod Interrupts
pub mod Loader
pub mod Locks
pub mod Paging
pub mod Paths
pub mod Shell
pub mod Tasks
