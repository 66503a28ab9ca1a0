-- ===== src/Paging.antt =====
-- mm/mm.c and mm/page_fault.c: the tables that map the addresses of a task to pages.
pub mod Walk
pub mod Link
pub mod Map
pub mod Clone
mod Tests
use Prim.Native.Nat.{bit_and}
use neux_os.Prelude.{
  ℕ, zero, suc, ◌+◌, ◌*◌, ◌/◌, ◌%◌, ◌^◌, Bool, true, false, not, ◌||◌, ◌==◌, ltb, leb,
  if◌then◌else◌,
}
use neux_os.Links.{update, null}
use neux_os.Mm.Align.{word, page_shift, page_size, vm_offset, phy_addr}
use neux_os.Mm.Page.{
  Users, PageFlag, no_page, frame, alloc_page, obtain_page, free_page, page_users,
}

-- `struct page_entry`; `rest` are the bits that the code never names.
pub record PageEntry : Type 0 where
  pub present : Bool
  pub rw : Bool
  pub us : Bool
  pub rest : ℕ
  pub index : ℕ

-- The entries of each table by its physical address, at which virt_addr reaches it.
abbrev pub Entries : Type 0
Entries = ℕ → ℕ → PageEntry

pub record Paging : Type 0 where
  pub users : Users
  pub entries : Entries

-- PAGE_ENTRY_COUNT
abbrev pub page_entry_count : ℕ
page_entry_count = 1024

abbrev pub put_entry : (table i : ℕ) → PageEntry → Entries → Entries
put_entry table i e entries = update entries table (update (entries table) i e)

-- An entry of zeros.
abbrev pub no_entry : PageEntry
no_entry = record { present = false; rw = false; us = false; rest = 0; index = 0 }

-- What map_page does if the directory's entry `i` is not present; `false` is "alloc page error".
unfoldable pub link_table : (user : Bool) → (cr3 i : ℕ) → Paging → Bool × Paging
link_table user cr3 i s =
    let (tpage, users) = alloc_page PageFlag.normal s.users in
    if tpage == no_page
    then (false, record s { users = users })
    else let entries = update s.entries tpage (λ _. no_entry) in
      (
        true,
        record {
          users = users;
          entries =
              put_entry cr3 i
                (record (entries cr3 i) {
                  rw = true;
                  us = user;
                  index = frame tpage;
                  present = true;
                })
                entries;
        },
      )

-- What map_page does with the table of the directory's entry.
unfoldable pub map_in : (user : Bool) → (cr3 cr2 page : ℕ) → Entries → Entries
map_in user cr3 cr2 page entries =
    let table = (entries cr3 (cr2 / 2 ^ 22)).index * 2 ^ 12 in
    let i = bit_and (cr2 / 2 ^ 12) 0x3ff in
    put_entry table i
      (record (entries table i) { index = frame page; rw = true; us = user; present = true })
      entries

-- `true` is NULL, no error; `user` is whether the current task is one of a user.
unfoldable pub map_page : (user : Bool) → (cr3 cr2 : ℕ) → Paging → Bool × Paging
map_page user cr3 cr2 s =
    let (page, users) = alloc_page PageFlag.normal s.users in
    let s : Paging = record s { users = users } in
    if page == no_page
    then (false, s)
    else if (s.entries cr3 (cr2 / 2 ^ 22)).present
    then (true, record s { entries = map_in user cr3 cr2 page s.entries })
    else let (linked, s) = link_table user cr3 (cr2 / 2 ^ 22) s in
      if linked
      then (true, record s { entries = map_in user cr3 cr2 page s.entries })
      else (false, record s { users = free_page page s.users })

-- Whether the task goes on; if not, it is terminated.
unfoldable pub page_fault_handler : (user : Bool) → (err_code cr2 cr3 : ℕ) → Paging → Bool × Paging
page_fault_handler user err_code cr2 cr3 s =
    if ltb cr2 page_size
    then (false, s)
    else if not (bit_and err_code 1 == 0)
    then (false, s)
    else if leb vm_offset cr2
    then (false, s)
    else map_page user cr3 cr2 s

-- `memory` is what kmemalign returns, NULL among it; kernel_pg_addr is CONFIG_KERNEL_PG_ADDR. The
-- result is a physical address, or NULL.
unfoldable pub alloc_page_table : (kernel_pg_addr memory : ℕ) → Paging → ℕ × Paging
alloc_page_table kernel_pg_addr memory s =
    if memory == null
    then (null, s)
    else let dir = phy_addr memory in
      let entries = update s.entries dir (s.entries kernel_pg_addr) in
      (
        dir,
        record s { entries = put_entry dir 0 (record (entries dir 0) { present = false }) entries },
      )

-- The test of the loops: an entry that is not present, or of the kernel's addresses.
abbrev pub skips : PageEntry → ℕ → Bool
skips e i = not e.present || leb vm_offset (i * 2 ^ 22 % word)

-- A round of the loop of clone_page_table.
abbrev pub share_table : (cloned i : ℕ) → Paging → Paging
share_table cloned i s = if skips (s.entries cloned i) i then s else record {
  users = (obtain_page ((s.entries cloned i).index * 2 ^ 12) s.users).1;
  entries = put_entry cloned i (record (s.entries cloned i) { rw = false }) s.entries;
}

unfoldable pub share_tables : (rounds i cloned : ℕ) → Paging → Paging
share_tables zero i cloned s = s
share_tables (suc rounds) i cloned s = share_tables rounds (i + 1) cloned (share_table cloned i s)

unfoldable pub clone_page_table : (dir memory : ℕ) → Paging → ℕ × Paging
clone_page_table dir memory s =
    if memory == null
    then (null, s)
    else let cloned = phy_addr memory in
      (
        cloned,
        share_tables page_entry_count 0 cloned
            (record s { entries = update s.entries cloned (s.entries dir) }),
      )

-- free_page of what an entry stands for, which is then cleared if its page has no users.
abbrev pub free_entry : (table i : ℕ) → Paging → Paging
free_entry table i s =
    let page = (s.entries table i).index * 2 ^ 12 in
    let users = free_page page s.users in
    if page_users users page == 0
    then record {
      users = users;
      entries = put_entry table i (record (s.entries table i) { present = false }) s.entries;
    }
    else record s { users = users }

-- The inner loop of free_page_table.
unfoldable pub free_pages : (rounds j table : ℕ) → Paging → Paging
free_pages zero j table s = s
free_pages (suc rounds) j table s =
    free_pages rounds (j + 1) table
      (if (s.entries table j).present then free_entry table j s else s)

-- The outer loop. The frame of the directory itself is kfree's.
unfoldable pub free_tables : (rounds i dir : ℕ) → Paging → Paging
free_tables zero i dir s = s
free_tables (suc rounds) i dir s = free_tables rounds (i + 1) dir (
    if skips (s.entries dir i) i
    then s
    else free_entry dir i (free_pages page_entry_count 0 ((s.entries dir i).index * 2 ^ 12) s))

-- All but the call of kfree.
unfoldable pub free_page_table : (dir : ℕ) → Paging → Paging
free_page_table dir s = if dir == null then s else free_tables page_entry_count 0 dir s
