-- ===== src/Loader/Tables.antt =====
-- Where the loader's tables map an address.
use neux_os.Prelude.{
  ℕ, zero, suc, ◌+◌, ◌-◌, ◌*◌, ◌/◌, ◌%◌, ◌^◌, ◌<◌, ◌≤◌, ◌≡◌, ◌≢◌, refl, sym, ap, ◌∙◌, Bool, true,
  false, Bool-cases, ◌⊎◌, inl, inr, some, ◌==◌, ==_ne, ==_refl, if◌then◌else◌, arith,
}
use neux_os.Links.{update}
use neux_os.Mm.Align.{page_size, vm_offset, align_ceil, align_ceil-pow}
use neux_os.Mm.Page.{frame}
use neux_os.Paging.{Entries, no_entry, put_entry, page_entry_count}
use neux_os.Paging.Walk.{target, in_table, walk}
use neux_os.Loader.{
  kernel_pg_addr, set_page, fill_table, add_table, add_tables, add_low, setup_page,
}

fill_table-other :
    (write : Bool) (rounds j pgtbl page t : ℕ) (entries : Entries)
    → t ≢ pgtbl
    → fill_table write rounds j pgtbl page entries t ≡ entries t
unfolding fill_table
fill_table-other write zero j pgtbl page t entries ne = refl
fill_table-other write (suc rounds) j pgtbl page t entries ne =
    fill_table-other write rounds (j + 1) pgtbl (page + 1) t
      (put_entry pgtbl j (set_page write page (entries pgtbl j)) entries) ne
    ∙ rw (==_ne t pgtbl ne) refl

-- The entries in front of the loop's, and its own.
fill_table-below :
    (write : Bool) (rounds j pgtbl page m : ℕ) (entries : Entries)
    → m < j
    → fill_table write rounds j pgtbl page entries pgtbl m ≡ entries pgtbl m
unfolding fill_table
fill_table-below write zero j pgtbl page m entries h = refl
fill_table-below write (suc rounds) j pgtbl page m entries h =
    fill_table-below write rounds (j + 1) pgtbl (page + 1) m
      (put_entry pgtbl j (set_page write page (entries pgtbl j)) entries) (omega arith)
    ∙ rw (==_refl pgtbl, ==_ne m j (λ e. omega arith)) refl

fill_table-target :
    (write : Bool) (rounds j pgtbl page m : ℕ) (entries : Entries)
    → j ≤ m
    → m < j + rounds
    → target (fill_table write rounds j pgtbl page entries pgtbl m)
      ≡ some ((page + (m - j)) * 2 ^ 12)
unfolding fill_table
fill_table-target write zero j pgtbl page m entries low high = absurd (omega arith)
fill_table-target write (suc rounds) j pgtbl page m entries low high = elim (Bool-cases (m == j)) [
  | inl e ↦
      let same : j ≡ m = ground (arith, e) in
      let at : page ≡ page + (m - j) = omega arith in
      ap target (
        fill_table-below write rounds (j + 1) pgtbl (page + 1) m
          (put_entry pgtbl j (set_page write page (entries pgtbl j)) entries) (omega arith))
      ∙ ap (λ k. target (put_entry pgtbl k (set_page write page (entries pgtbl k)) entries pgtbl m))
          same
      ∙ rw (==_refl pgtbl, ==_refl m) (ap (λ (p : ℕ). some (p * 2 ^ 12)) at)
  | inr ne ↦
      let at : page + 1 + (m - (j + 1)) ≡ page + (m - j) = ground (arith, ne) in
      fill_table-target write rounds (j + 1) pgtbl (page + 1) m
        (put_entry pgtbl j (set_page write page (entries pgtbl j)) entries) (ground (arith, ne))
        (omega arith)
      ∙ ap (λ (p : ℕ). some (p * 2 ^ 12)) at
]

-- What a round of the outer loop leaves in the directory, in its table and in the others.
add_table-directory :
    (i pgtbl page m : ℕ) (entries : Entries)
    → pgtbl ≢ kernel_pg_addr
    → add_table i pgtbl page entries kernel_pg_addr m ≡ (
        if m == i
        then set_page true (frame pgtbl) (entries kernel_pg_addr i)
        else entries kernel_pg_addr m)
unfolding add_table
add_table-directory i pgtbl page m entries ne =
    let row =
      put_entry kernel_pg_addr i (set_page true (frame pgtbl) (entries kernel_pg_addr i)) entries in
    ap (λ f. f m)
      (fill_table-other true page_entry_count 0 pgtbl page kernel_pg_addr
        (update row pgtbl (λ _. no_entry)) (λ e. ne (sym e)))
    ∙ rw (==_ne kernel_pg_addr pgtbl (λ e. ne (sym e))) refl

add_table-target :
    (i pgtbl page m : ℕ) (entries : Entries)
    → m < page_entry_count
    → target (add_table i pgtbl page entries pgtbl m) ≡ some ((page + m) * 2 ^ 12)
unfolding add_table
add_table-target i pgtbl page m entries h =
    let row =
      put_entry kernel_pg_addr i (set_page true (frame pgtbl) (entries kernel_pg_addr i)) entries in
    let at : page + (m - 0) ≡ page + m = omega arith in
    fill_table-target true page_entry_count 0 pgtbl page m (update row pgtbl (λ _. no_entry))
      (omega arith) (omega arith)
    ∙ ap (λ (p : ℕ). some (p * 2 ^ 12)) at

add_table-other :
    (i pgtbl page t : ℕ) (entries : Entries)
    → t ≢ pgtbl
    → t ≢ kernel_pg_addr
    → add_table i pgtbl page entries t ≡ entries t
unfolding add_table
add_table-other i pgtbl page t entries ne apart =
    let row =
      put_entry kernel_pg_addr i (set_page true (frame pgtbl) (entries kernel_pg_addr i)) entries in
    fill_table-other true page_entry_count 0 pgtbl page t (update row pgtbl (λ _. no_entry)) ne
    ∙ rw (==_ne t pgtbl ne, ==_ne t kernel_pg_addr apart) refl

-- The outer loop: the directory's entries in front of its own, its own, and its tables.
add_tables-below :
    (rounds i pgtbl page m : ℕ) (entries : Entries)
    → kernel_pg_addr < pgtbl
    → m < i
    → add_tables rounds i pgtbl page entries kernel_pg_addr m ≡ entries kernel_pg_addr m
unfolding add_tables
add_tables-below zero i pgtbl page m entries above h = refl
add_tables-below (suc rounds) i pgtbl page m entries above h =
    add_tables-below rounds (i + 1) (pgtbl + page_size) (page + page_entry_count) m
      (add_table i pgtbl page entries) (omega arith) (omega arith)
    ∙ add_table-directory i pgtbl page m entries (λ e. omega (arith, e))
    ∙ rw (==_ne m i (λ e. omega (arith, e))) refl

add_tables-entry :
    (rounds i pgtbl page m : ℕ) (entries : Entries)
    → kernel_pg_addr < pgtbl
    → pgtbl % 2 ^ 12 ≡ 0
    → i ≤ m
    → m < i + rounds
    → target (add_tables rounds i pgtbl page entries kernel_pg_addr m)
      ≡ some (pgtbl + (m - i) * 2 ^ 12)
unfolding add_tables
add_tables-entry zero i pgtbl page m entries above whole low high = absurd (omega arith)
add_tables-entry (suc rounds) i pgtbl page m entries above whole low high =
    elim (Bool-cases (m == i)) [
      | inl e ↦
          let first : frame pgtbl * 2 ^ 12 ≡ pgtbl + (m - i) * 2 ^ 12 = ground (arith, e, whole) in
          ap target (
            add_tables-below rounds (i + 1) (pgtbl + page_size) (page + page_entry_count) m
              (add_table i pgtbl page entries) (omega arith) (ground (arith, e)))
          ∙ ap target (add_table-directory i pgtbl page m entries (λ e. omega (arith, e)))
          ∙ rw e (ap some first)
      | inr ne ↦
          let at : pgtbl + page_size + (m - (i + 1)) * 2 ^ 12 ≡ pgtbl + (m - i) * 2 ^ 12 =
            ground (arith, ne) in
          add_tables-entry rounds (i + 1) (pgtbl + page_size) (page + page_entry_count) m
            (add_table i pgtbl page entries) (omega arith) (omega arith) (ground (arith, ne))
            (omega arith)
          ∙ ap some at
    ]

-- The tables behind those of the loop, and in front of them.
add_tables-other :
    (rounds i pgtbl page t : ℕ) (entries : Entries)
    → kernel_pg_addr < pgtbl
    → t ≢ kernel_pg_addr
    → t < pgtbl
    → add_tables rounds i pgtbl page entries t ≡ entries t
unfolding add_tables
add_tables-other zero i pgtbl page t entries above apart low = refl
add_tables-other (suc rounds) i pgtbl page t entries above apart low =
    add_tables-other rounds (i + 1) (pgtbl + page_size) (page + page_entry_count) t
      (add_table i pgtbl page entries) (omega arith) apart (omega arith)
    ∙ add_table-other i pgtbl page t entries (λ e. omega (arith, e)) apart

add_tables-target :
    (rounds i pgtbl page k m : ℕ) (entries : Entries)
    → kernel_pg_addr < pgtbl
    → k < rounds
    → m < page_entry_count
    → target (add_tables rounds i pgtbl page entries (pgtbl + k * 2 ^ 12) m)
      ≡ some ((page + k * 2 ^ 10 + m) * 2 ^ 12)
unfolding add_tables
add_tables-target zero i pgtbl page k m entries above h inside = absurd (omega arith)
add_tables-target (suc rounds) i pgtbl page zero m entries above h inside =
    let table : pgtbl + 0 * 2 ^ 12 ≡ pgtbl = omega arith in
    let at : page + m ≡ page + 0 * 2 ^ 10 + m = omega arith in
    ap
      (λ t. target (
        add_tables rounds (i + 1) (pgtbl + page_size) (page + page_entry_count)
          (add_table i pgtbl page entries) t m))
      table
    ∙ ap (λ f. target (f m))
        (add_tables-other rounds (i + 1) (pgtbl + page_size) (page + page_entry_count) pgtbl
          (add_table i pgtbl page entries) (omega arith) (λ e. omega (arith, e)) (omega arith))
    ∙ add_table-target i pgtbl page m entries inside
    ∙ ap (λ (p : ℕ). some (p * 2 ^ 12)) at
add_tables-target (suc rounds) i pgtbl page (suc k) m entries above h inside =
    let table : pgtbl + suc k * 2 ^ 12 ≡ pgtbl + page_size + k * 2 ^ 12 = omega arith in
    let at : page + page_entry_count + k * 2 ^ 10 + m ≡ page + suc k * 2 ^ 10 + m = omega arith in
    ap
      (λ t. target (
        add_tables rounds (i + 1) (pgtbl + page_size) (page + page_entry_count)
          (add_table i pgtbl page entries) t m))
      table
    ∙ add_tables-target rounds (i + 1) (pgtbl + page_size) (page + page_entry_count) k m
        (add_table i pgtbl page entries) (omega arith) (omega arith) inside
    ∙ ap (λ (p : ℕ). some (p * 2 ^ 12)) at

add_low-directory :
    (pgtbl m : ℕ) (entries : Entries)
    → pgtbl ≢ kernel_pg_addr
    → add_low pgtbl entries kernel_pg_addr m ≡ (
        if m == 0
        then set_page false (pgtbl / page_size) (entries kernel_pg_addr 0)
        else entries kernel_pg_addr m)
unfolding add_low
add_low-directory pgtbl m entries ne =
    let row =
      put_entry kernel_pg_addr 0 (set_page false (pgtbl / page_size) (entries kernel_pg_addr 0))
        entries in
    ap (λ f. f m)
      (fill_table-other false 256 0 pgtbl 0 kernel_pg_addr (update row pgtbl (λ _. no_entry))
        (λ e. ne (sym e)))
    ∙ rw (==_ne kernel_pg_addr pgtbl (λ e. ne (sym e))) refl

add_low-other :
    (pgtbl t : ℕ) (entries : Entries)
    → t ≢ pgtbl
    → t ≢ kernel_pg_addr
    → add_low pgtbl entries t ≡ entries t
unfolding add_low
add_low-other pgtbl t entries ne apart =
    let row =
      put_entry kernel_pg_addr 0 (set_page false (pgtbl / page_size) (entries kernel_pg_addr 0))
        entries in
    fill_table-other false 256 0 pgtbl 0 t (update row pgtbl (λ _. no_entry)) ne
    ∙ rw (==_ne t pgtbl ne, ==_ne t kernel_pg_addr apart) refl

add_low-target :
    (pgtbl m : ℕ) (entries : Entries)
    → m < 256
    → target (add_low pgtbl entries pgtbl m) ≡ some (m * 2 ^ 12)
unfolding add_low
add_low-target pgtbl m entries h =
    let row =
      put_entry kernel_pg_addr 0 (set_page false (pgtbl / page_size) (entries kernel_pg_addr 0))
        entries in
    let at : 0 + (m - 0) ≡ m = omega arith in
    fill_table-target false 256 0 pgtbl 0 m (update row pgtbl (λ _. no_entry)) (omega arith)
      (omega arith)
    ∙ ap (λ (p : ℕ). some (p * 2 ^ 12)) at

-- The tables of the kernel's addresses, which are 256 behind the directory.
abbrev first_table : ℕ
first_table = kernel_pg_addr + page_size

kernel_tables : Entries → Entries
kernel_tables entries =
    add_tables 256 768 first_table 0 (update entries kernel_pg_addr (λ _. no_entry))

module _ (low addr : ℕ) (entries : Entries) where
  low-walk :
      low ≢ kernel_pg_addr
      → low % 2 ^ 12 ≡ 0
      → addr < 2 ^ 20
      → walk (add_low low entries) kernel_pg_addr addr ≡ some (addr / 2 ^ 12 * 2 ^ 12)
  low-walk ne whole h =
      let first : addr / 2 ^ 22 ≡ 0 = omega arith in
      let table : low / page_size * 2 ^ 12 ≡ low = omega (arith, whole) in
      let page : addr / 2 ^ 12 % 2 ^ 10 ≡ addr / 2 ^ 12 = omega arith in
      ap (λ m. in_table (add_low low entries) (target (add_low low entries kernel_pg_addr m)) addr)
        first
      ∙ ap (λ e. in_table (add_low low entries) (target e) addr)
          (add_low-directory low 0 entries ne)
      ∙ ap (λ t. target (add_low low entries t (addr / 2 ^ 12 % 2 ^ 10))) table
      ∙ add_low-target low (addr / 2 ^ 12 % 2 ^ 10) entries (omega arith)
      ∙ ap (λ (p : ℕ). some (p * 2 ^ 12)) page

  kernel-walk :
      (low < kernel_pg_addr) ⊎ (first_table + 256 * page_size ≤ low)
      → vm_offset ≤ addr
      → addr < 2 ^ 32
      → walk (add_low low (kernel_tables entries)) kernel_pg_addr addr
        ≡ some ((addr - vm_offset) / 2 ^ 12 * 2 ^ 12)
  unfolding kernel_tables
  kernel-walk apart above small =
      let k = addr / 2 ^ 22 - 768 in
      let table = first_table + k * 2 ^ 12 in
      let tables = kernel_tables entries in
      let other : table ≢ low = outside k apart (omega arith) in
      let row : (addr / 2 ^ 22 == 0) ≡ false = ==_ne (addr / 2 ^ 22) 0 (λ e. omega (arith, e)) in
      let page : (0 + k * 2 ^ 10 + addr / 2 ^ 12 % 2 ^ 10) * 2 ^ 12
          ≡ (addr - vm_offset) / 2 ^ 12 * 2 ^ 12 =
        omega arith in
      let directory : add_low low tables kernel_pg_addr (addr / 2 ^ 22)
          ≡ tables kernel_pg_addr (addr / 2 ^ 22) =
        add_low-directory low (addr / 2 ^ 22) tables (apart_root apart) ∙ rw row refl in
      ap (λ e. in_table (add_low low tables) (target e) addr) directory
      ∙ ap (λ o. in_table (add_low low tables) o addr)
          (add_tables-entry 256 768 first_table 0 (addr / 2 ^ 22)
            (update entries kernel_pg_addr (λ _. no_entry)) (omega arith) refl (omega arith)
            (omega arith))
      ∙ ap (λ f. target (f (addr / 2 ^ 12 % 2 ^ 10)))
          (add_low-other low table tables other (λ e. omega (arith, e)))
      ∙ add_tables-target 256 768 first_table 0 k (addr / 2 ^ 12 % 2 ^ 10)
          (update entries kernel_pg_addr (λ _. no_entry)) (omega arith) (omega arith) (omega arith)
      ∙ ap some page
    where
      outside :
          (k : ℕ)
          → (low < kernel_pg_addr) ⊎ (first_table + 256 * page_size ≤ low)
          → k < 256
          → first_table + k * 2 ^ 12 ≢ low
      outside k (inl below) h e = omega (arith, e)
      outside k (inr above) h e = omega (arith, e)

      apart_root :
          (low < kernel_pg_addr) ⊎ (first_table + 256 * page_size ≤ low) → low ≢ kernel_pg_addr
      apart_root (inl below) e = omega (arith, e)
      apart_root (inr above) e = omega (arith, e)

-- If the kernel's end leaves room below 4 GB for a page, and the page above it is not one of the 257 of
-- the directory and the kernel's tables, setup_page maps each address of the kernel to the one that
-- is CONFIG_KERNEL_VM_OFFSET below, and each address of the first megabyte to itself.
pub setup_page-walk :
    (kernel_end : ℕ) (entries : Entries)
    → kernel_end + 2 ^ 12 < 2 ^ 32
    → (align_ceil kernel_end page_size < kernel_pg_addr)
      ⊎ (kernel_pg_addr + 257 * page_size ≤ align_ceil kernel_end page_size)
    → ((addr : ℕ)
        → vm_offset ≤ addr
        → addr < 2 ^ 32
        → walk (setup_page kernel_end entries) kernel_pg_addr addr
          ≡ some ((addr - vm_offset) / 2 ^ 12 * 2 ^ 12))
      × ((addr : ℕ)
          → addr < 2 ^ 20
          → walk (setup_page kernel_end entries) kernel_pg_addr addr
            ≡ some (addr / 2 ^ 12 * 2 ^ 12))
unfolding setup_page kernel_tables
setup_page-walk kernel_end entries fits apart =
    let low = align_ceil kernel_end page_size in
    let (_, _, whole) = align_ceil-pow kernel_end 12 (omega arith) fits in
    (
      λ addr above small. kernel-walk low addr entries (elsewhere low apart) above small,
      λ addr h. low-walk low addr (kernel_tables entries) (not_root low apart) whole h,
    )
  where
    elsewhere :
        (low : ℕ)
        → (low < kernel_pg_addr) ⊎ (kernel_pg_addr + 257 * page_size ≤ low)
        → (low < kernel_pg_addr) ⊎ (first_table + 256 * page_size ≤ low)
    elsewhere low (inl below) = inl below
    elsewhere low (inr above) = inr (omega arith)

    not_root :
        (low : ℕ)
        → (low < kernel_pg_addr) ⊎ (kernel_pg_addr + 257 * page_size ≤ low)
        → low ≢ kernel_pg_addr
    not_root low (inl below) e = omega (arith, e)
    not_root low (inr above) e = omega (arith, e)
