-- ===== src/Loader.antt =====
-- boot/hd/loader.c: the kernel's segments in memory, and the first page tables.
pub mod Segments
pub mod Tables
mod Tests
use neux_os.Prelude.{
  ℕ, zero, suc, ◌+◌, ◌-◌, ◌*◌, ◌/◌, ◌%◌, ◌^◌, Bool, true, false, not, ◌&&◌, Option, none, some,
  List, [], ◌∷◌, ◌==◌, ltb, leb, if◌then◌else◌,
}
use neux_os.Links.{update}
use neux_os.Mm.Align.{word, page_size, vm_offset, phy_addr, align_ceil}
use neux_os.Mm.Page.{Ards, mem_type_avl, frame}
use neux_os.Paging.{PageEntry, Entries, no_entry, put_entry, page_entry_count}

-- The loop of kernel_file_addr, which goes from the last range of the memory map to the first: the
-- ranges come in that order. `none` is loader_panic.
unfoldable pub kernel_file_addr : (filesz : ℕ) → List Ards → Option ℕ
kernel_file_addr filesz [] = none
kernel_file_addr filesz (r ∷ rs) =
    let rest = kernel_file_addr filesz rs in
    if (r.type == mem_type_avl) && leb filesz r.len_low
    then some ((r.base_addr_low + r.len_low + (word - filesz)) % word)
    else rest

-- What the loader reads of a program header and of a section header.
pub record Phdr : Type 0 where
  pub p_type : ℕ
  pub p_offset : ℕ
  pub p_vaddr : ℕ
  pub p_filesz : ℕ
  pub p_memsz : ℕ

pub record Shdr : Type 0 where
  pub sh_type : ℕ
  pub sh_addr : ℕ
  pub sh_size : ℕ

-- The bytes of the memory, and kernel_start and kernel_end of the shared data.
pub record Loaded : Type 0 where
  pub memory : ℕ → ℕ
  pub kernel_start : ℕ
  pub kernel_end : ℕ

-- memcpy and memset, where source and target do not overlap.
abbrev pub copy : (target source count : ℕ) → (ℕ → ℕ) → ℕ → ℕ
copy target source count memory a =
    if leb target a && ltb a (target + count) then memory (source + (a - target)) else memory a

abbrev pub fill_zero : (target count : ℕ) → (ℕ → ℕ) → ℕ → ℕ
fill_zero target count memory a = if leb target a && ltb a (target + count) then 0 else memory a

-- The two tests that follow each segment.
abbrev pub widen : (addr size : ℕ) → Loaded → Loaded
widen addr size s = record s {
  kernel_start = if ltb addr s.kernel_start then addr else s.kernel_start;
  kernel_end =
      if ltb s.kernel_end ((addr + size) % word) then (addr + size) % word else s.kernel_end;
}

-- PT_LOAD and SHT_NOBITS
abbrev pub pt_load : ℕ
pt_load = 1

abbrev pub sht_nobits : ℕ
sht_nobits = 8

abbrev pub is_loaded : Phdr → Bool
is_loaded ph = (ph.p_type == pt_load) && (ltb 0 ph.p_filesz && leb vm_offset ph.p_vaddr)

abbrev pub is_bss : Shdr → Bool
is_bss sh = (sh.sh_type == sht_nobits) && leb vm_offset sh.sh_addr

unfoldable pub load_segment : (kernel_file : ℕ) → Phdr → Loaded → Loaded
load_segment kernel_file ph s =
    if is_loaded ph
    then widen (phy_addr ph.p_vaddr) ph.p_memsz (record s {
      memory = copy (phy_addr ph.p_vaddr) (kernel_file + ph.p_offset) ph.p_filesz s.memory;
    })
    else s

unfoldable pub load_segments : (kernel_file : ℕ) → List Phdr → Loaded → Loaded
load_segments kernel_file [] s = s
load_segments kernel_file (ph ∷ phs) s =
    load_segments kernel_file phs (load_segment kernel_file ph s)

unfoldable pub clear_bss : Shdr → Loaded → Loaded
clear_bss sh s =
    if is_bss sh
    then widen (phy_addr sh.sh_addr) sh.sh_size
        (record s { memory = fill_zero (phy_addr sh.sh_addr) sh.sh_size s.memory })
    else s

unfoldable pub clear_sections : List Shdr → Loaded → Loaded
clear_sections [] s = s
clear_sections (sh ∷ shs) s = clear_sections shs (clear_bss sh s)

-- load_kernel_elf behind the test of the magic number, with the headers of the file.
unfoldable pub load_kernel_elf :
    (kernel_file kernel_size : ℕ) → List Phdr → List Shdr → (ℕ → ℕ) → Loaded
load_kernel_elf kernel_file kernel_size phs shs memory =
    let s : Loaded = record { memory = memory; kernel_start = 0xffffffff; kernel_end = 0 } in
    let s = clear_sections shs (load_segments kernel_file phs s) in
    record s { memory = fill_zero kernel_file kernel_size s.memory }

-- CONFIG_KERNEL_PG_ADDR, the default of Kconfig
abbrev pub kernel_pg_addr : ℕ
kernel_pg_addr = 0x100000

-- An entry that is present and leads to the frame `index`.
abbrev pub set_page : (write : Bool) → (index : ℕ) → PageEntry → PageEntry
set_page write index e = record e { present = true; rw = write; index = index }

-- The inner loop of setup_page, and with `false` the last one.
unfoldable pub fill_table : (write : Bool) → (rounds j pgtbl page : ℕ) → Entries → Entries
fill_table write zero j pgtbl page entries = entries
fill_table write (suc rounds) j pgtbl page entries =
    fill_table write rounds (j + 1) pgtbl (page + 1)
      (put_entry pgtbl j (set_page write page (entries pgtbl j)) entries)

-- A round of the outer loop.
unfoldable pub add_table : (i pgtbl page : ℕ) → Entries → Entries
add_table i pgtbl page entries =
    let entries =
      put_entry kernel_pg_addr i (set_page true (frame pgtbl) (entries kernel_pg_addr i)) entries in
    fill_table true page_entry_count 0 pgtbl page (update entries pgtbl (λ _. no_entry))

-- The outer loop.
unfoldable pub add_tables : (rounds i pgtbl page : ℕ) → Entries → Entries
add_tables zero i pgtbl page entries = entries
add_tables (suc rounds) i pgtbl page entries =
    add_tables rounds (i + 1) (pgtbl + page_size) (page + page_entry_count)
      (add_table i pgtbl page entries)

-- setup_page, behind the outer loop.
unfoldable pub add_low : (pgtbl : ℕ) → Entries → Entries
add_low pgtbl entries =
    let entries =
      put_entry kernel_pg_addr 0 (set_page false (pgtbl / page_size) (entries kernel_pg_addr 0))
        entries in
    fill_table false 256 0 pgtbl 0 (update entries pgtbl (λ _. no_entry))

-- All but the switch to paging.
unfoldable pub setup_page : (kernel_end : ℕ) → Entries → Entries
setup_page kernel_end entries =
    let entries = update entries kernel_pg_addr (λ _. no_entry) in
    let entries =
      add_tables (page_entry_count - vm_offset / 2 ^ 22) (vm_offset / 2 ^ 22)
        (kernel_pg_addr + page_size) 0 entries in
    add_low (align_ceil kernel_end page_size) entries
