-- ===== src/Mm/Tests.antt =====
-- Page frames and the heap at concrete states.
use neux_os.Prelude.{
  ◌*◌, ◌≢◌, ℕ, ◌≡◌, refl, ◌+◌, ◌%◌, ◌≤◌, ◌<◌, ◌⊎◌, inr, [], ◌∷◌, some, ◌==◌, if◌then◌else◌, arith,
}
use neux_os.Prelude.Outcome.{Outcome, done}
use neux_os.Mm.Page.{
  Users, Ards, max_pages_count, no_page, page_users, init_page, alloc_page, PageFlag,
}
use neux_os.Mm.Page.Laws.{TakesFirst, alloc_page-first, init_page-at}
use neux_os.Mm.Kmalloc.{Heap, kmemalign, search_interspace, find_room}
use neux_os.Mm.Align.{align_floor, align_ceil, is_power_of_2}
use neux_os.Mm.Search.{search_interspace-InGap}

-- The frames 256 and 512 are in use.
abbrev users : Users
users i = if i == 256 then 1 else if i == 512 then 1 else 0

abbrev first : ℕ
first = 0xc010_0000

abbrev last : ℕ
last = 0xc020_0000

abbrev empty_heap : Heap
empty_heap = record {
  heap = first;
  size = λ b. 0;
  prev = λ b. if b == first then last else first;
  next = λ b. if b == first then last else first;
  users = users;
}

abbrev map_entry : Ards
map_entry = record { base_addr_low = 0x100000; len_low = 0x400000; type = 1 }

alloc_page-first_example :
    ((j : ℕ) × ((alloc_page PageFlag.normal users).0 ≡ j * 4096)
      × TakesFirst users (alloc_page PageFlag.normal users).1 0 j)
    ⊎ (((alloc_page PageFlag.normal users).0 ≡ no_page)
        × ((alloc_page PageFlag.normal users).1 ≡ users)
        × ((j : ℕ) → 0 ≤ j → j < max_pages_count → users j ≢ 0))
alloc_page-first_example = alloc_page-first users

-- The kernel ends at 2 MB, so that the frame at 3 MB is free.
init_page-at_example : init_page 0x200000 (map_entry ∷ []) 768 ≡ 0
unfolding align_ceil
init_page-at_example = init_page-at 0x200000 (map_entry ∷ []) 768 (omega arith)

search_interspace-InGap_example :
    (r : ℕ) × (search_interspace 800000 empty_heap first 5000 64 ≡ some r)
    × ((r ≡ 0)
        ⊎ ((first + 12 ≤ r) × (r + 12 + 5000 ≤ last) × (((r + 12) % 64 ≡ 0) ⊎ (r % 4096 ≡ 0))))
unfolding page_users
search_interspace-InGap_example =
    search_interspace-InGap 800000 empty_heap first 5000 64 6 (inr refl) (omega arith) (omega arith)
      (omega arith) refl (omega arith) (omega arith)

-- A page that another task has taken after the first block: the page table that is asked for at a
-- page boundary is given 12 bytes behind one.
abbrev fragmented : Heap
fragmented = record empty_heap { users = λ i. if i == 257 then 1 else users i }

abbrev result : {A B : Type 0} → A → Outcome B A → A
result a (done b s) = b
result a _ = a

misaligned : result 0 (kmemalign 30 4096 4096 fragmented) % 4096 ≡ 12
unfolding kmemalign find_room search_interspace is_power_of_2 align_floor align_ceil page_users
misaligned = refl
