-- ===== src/Mm.antt =====
-- mm/page.c and mm/kmalloc.c: page frames counted by their users, and the kernel heap.
pub mod Align
pub mod Page
pub mod Kmalloc
pub mod Search
mod Tests
