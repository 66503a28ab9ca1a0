-- ===== src/Mm/Page.antt =====
-- mm/page.c: the count of users of every page frame, 0xff for a frame that is not available.
pub mod Laws
use neux_os.Prelude.{
  ℕ, zero, suc, ◌+◌, ◌-◌, ◌*◌, ◌/◌, ◌%◌, ◌^◌, Bool, true, false, not, ◌||◌, Option, none, some,
  List, [], ◌∷◌, ◌==◌, ltb, if◌then◌else◌,
}
use neux_os.Mm.Align.{word, page_shift, page_size, align_ceil}

-- MAX_PAGES_COUNT
abbrev pub max_pages_count : ℕ
max_pages_count = 2 ^ 20

abbrev pub no_page : ℕ
no_page = 0xffff_ffff

-- PGF_NORMAL and PGF_HIGHMEM
pub data PageFlag : Type 0 where
  normal highmem : PageFlag

-- `_page_users`
abbrev pub Users : Type 0
Users = ℕ → ℕ

-- page >> PAGE_SHIFT
abbrev pub frame : ℕ → ℕ
frame page = page / 2 ^ 12

abbrev pub set_users : Users → ℕ → ℕ → Users
set_users u i n j = if j == i then n else u j

unfoldable pub page_users : Users → ℕ → ℕ
page_users u page = u (frame page)

-- The loop of alloc_page, from `i` on with `left` frames to go.
unfoldable pub alloc_from : (left i : ℕ) → Users → ℕ × Users
alloc_from zero i u = (no_page, u)
alloc_from (suc left) i u =
    let rest = alloc_from left (i + 1) u in
    if not (u i == 0) then rest else (i * 2 ^ 12 % word, set_users u i ((u i + 1) % 256))

unfoldable pub alloc_page : PageFlag → Users → ℕ × Users
alloc_page PageFlag.highmem u = (no_page, u)
alloc_page PageFlag.normal u = alloc_from max_pages_count 0 u

unfoldable pub obtain_page : ℕ → Users → ℕ × Users
obtain_page page u = (page, set_users u (frame page) ((u (frame page) + 1) % 256))

unfoldable pub free_page : ℕ → Users → Users
free_page page u = set_users u (frame page) ((u (frame page) + 255) % 256)

-- `struct ARDS`, a range of the BIOS's memory map
pub record Ards : Type 0 where
  pub base_addr_low : ℕ
  pub len_low : ℕ
  pub type : ℕ

-- MEM_TYPE_AVL
abbrev pub mem_type_avl : ℕ
mem_type_avl = 1

-- CONFIG_KERNEL_RES_PAGES, the default of Kconfig
abbrev pub kernel_res_pages : ℕ
kernel_res_pages = 1

-- Below this address the kernel lives.
abbrev pub kernel_limit : ℕ → ℕ
kernel_limit kernel_end = (align_ceil kernel_end page_size + kernel_res_pages * page_size) % word

-- for (j …; j < cnt; j++): the frames `frame`, `frame + 1`, … of a range.
unfoldable pub clear_frames : (cnt frame limit : ℕ) → Users → Users
clear_frames zero f limit u = u
clear_frames (suc cnt) f limit u =
    clear_frames cnt (f + 1) limit (if ltb (f * 2 ^ 12 % word) limit then u else set_users u f 0)

-- A range of the map: skipped, or its frames made available.
unfoldable pub clear_range : ℕ → Ards → Users → Users
unfolding clear_frames
clear_range limit r u =
    if not (r.type == mem_type_avl)
    then u
    else if not (r.base_addr_low % page_size == 0)
    then u
    else clear_frames (frame r.len_low) (frame r.base_addr_low) limit u

unfoldable pub clear_ranges : ℕ → List Ards → Users → Users
unfolding clear_range
clear_ranges limit [] u = u
clear_ranges limit (r ∷ rs) u = clear_ranges limit rs (clear_range limit r u)

-- memset(_page_users, 0xff, MAX_PAGES_COUNT), then the ranges of the map.
unfoldable pub init_page : (kernel_end : ℕ) → List Ards → Users
unfolding clear_ranges
init_page kernel_end ards = clear_ranges (kernel_limit kernel_end) ards (λ i. 0xff)
