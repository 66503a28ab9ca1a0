-- ===== src/Mm/Kmalloc.antt =====
-- mm/kmalloc.c: the heap's blocks on a ring in address order, each with its header before its data.
use neux_os.Prelude.{
  ℕ, zero, suc, ◌+◌, ◌-◌, ◌%◌, Bool, not, ◌&&◌, ◌||◌, Option, none, some, ◌==◌, ltb, leb,
  if◌then◌else◌,
}
use neux_os.Prelude.Outcome.{M, looping, done}
use neux_os.Links.{update}
use neux_os.Mm.Align.{word, page_size, vm_offset, align_ceil, page_of, phy_addr, is_power_of_2}
use neux_os.Mm.Page.{Users, page_users, obtain_page, free_page}

-- The fields of every `struct heap_block`, by its address; `heap`; and the users of the pages.
pub record Heap : Type 0 where
  pub heap : ℕ
  pub size : ℕ → ℕ
  pub prev : ℕ → ℕ
  pub next : ℕ → ℕ
  pub users : Users

-- sizeof(struct heap_block), which is also offsetof(struct heap_block, data)
abbrev pub header : ℕ
header = 12

-- BLOCK_END(block)
abbrev pub block_end : Heap → ℕ → ℕ
block_end h block = (block + header + h.size block) % word

-- IN_SAME_PAGE(a1, a2)
abbrev pub in_same_page : ℕ → ℕ → Bool
in_same_page a b = page_of a == page_of b

-- A page is in use if its frame has users.
abbrev pub in_use : Users → ℕ → Bool
in_use users addr = not (page_users users (phy_addr addr) == 0)

abbrev pub min32 : ℕ → ℕ → ℕ
min32 a b = if ltb a b then a else b

-- The inner loop after RESET: the first page from `saddr` on that is free, or the page of `next`.
unfoldable pub skip_used : ℕ → Users → (next saddr : ℕ) → Option ℕ
skip_used zero users next saddr = none
skip_used (suc fuel) users next saddr =
    let more = skip_used fuel users next ((saddr + page_size) % word) in
    if not (in_same_page saddr next) && in_use users saddr then more else some saddr

-- The outer loop. `some 0` is NULL; `none` means that the fuel ran out.
unfoldable pub search : ℕ → Users → (size next saddr eaddr : ℕ) → Option ℕ
search zero users size next saddr eaddr = none
search (suc fuel) users size next saddr eaddr =
    let further = search fuel users size next saddr ((eaddr + page_size) % word) in
    let reset : Option ℕ = elim (skip_used (suc fuel) users next eaddr) [
      | none ↦ none
      | some s ↦
          let e = if in_same_page s next then next else (s + page_size) % word in
          let again = search fuel users size next s e in if ltb e vm_offset then some 0 else again
    ] in
    if ltb eaddr saddr
    then some 0
    else if leb ((header + size) % word) (eaddr - saddr)
    then some saddr
    else if in_same_page saddr next
    then some 0
    else if not (in_use users eaddr)
    then further
    else reset

unfoldable pub search_interspace : ℕ → Heap → (block size align : ℕ) → Option ℕ
unfolding search skip_used
search_interspace fuel h block size align =
    let next = h.next block in
    let place =
      align_ceil ((block_end h block + header) % word) (if align == 0 then 1 else align) in
    let saddr = (place + word - header) % word in
    let eaddr = min32 ((page_of saddr + page_size) % word) next in
    search fuel h.users size next saddr eaddr

-- The walk over the blocks: the block behind which there is room, and the new block.
unfoldable pub find_room : ℕ → Heap → (block size align new_block : ℕ) → Option (ℕ × ℕ)
unfolding search_interspace
find_room zero h block size align new_block = none
find_room (suc fuel) h block size align new_block =
    let here : Option (ℕ × ℕ) = elim (search_interspace (suc fuel) h block size align) [
      | none ↦ none
      | some found ↦
          let on = find_room fuel h (h.next block) size align 0 in
          if found == 0 then on else some (block, found)
    ] in
    if h.next block == h.heap then some (block, new_block) else here

-- for (i = from; i < to; i += PAGE_SIZE) over the pages of a block
unfoldable pub each_page : ℕ → (ℕ → Users → Users) → (from to : ℕ) → Users → Option Users
each_page zero op from to u = none
each_page (suc fuel) op from to u =
    let rest = each_page fuel op ((from + page_size) % word) to (op (phy_addr from) u) in
    if ltb from to then rest else some u

-- The links and the size of a new block behind `block`.
unfoldable pub insert_block : Heap → (block new_block size : ℕ) → Heap
insert_block h block new_block size =
    let after = h.next block in
    record h {
      size = update h.size new_block size;
      prev = update (update h.prev new_block block) after new_block;
      next = update (update h.next new_block after) block new_block;
    }

-- The pages of a block: from its own to the one that its end reaches into.
unfoldable pub obtain_pages : ℕ → Heap → ℕ → Option Heap
unfolding each_page
obtain_pages fuel h block =
    elim (each_page fuel (λ page u. (obtain_page page u).1) (page_of block)
      (align_ceil (block_end h block) page_size) h.users) [
        | none ↦ none
        | some u ↦ some (record h { users = u })
      ]

unfoldable pub kmemalign : ℕ → (alignment size : ℕ) → M Heap ℕ
unfolding find_room insert_block obtain_pages
kmemalign fuel alignment size h =
    if (size == 0) || not (alignment == 0) && not (is_power_of_2 alignment)
    then done 0 h
    else elim (find_room fuel h h.heap size alignment 0) [
      | none ↦ looping
      | some (block, new_block) ↦
          if new_block == 0
          then done 0 h
          else elim (obtain_pages fuel (insert_block h block new_block size) new_block) [
            | none ↦ looping
            | some h' ↦ done ((new_block + header) % word) h'
          ]
    ]

unfoldable pub kmalloc : ℕ → ℕ → M Heap ℕ
unfolding kmemalign
kmalloc fuel size = kmemalign fuel 0 size

unfoldable pub remove_block : Heap → ℕ → Heap
remove_block h block =
    let before = h.prev block in
    let next = update h.next before (h.next block) in
    let after = next block in
    let prev = update h.prev after (h.prev block) in
    record h { prev = update prev block 0; next = update next block 0 }

unfoldable pub kfree : ℕ → ℕ → M Heap (Unit {0})
unfolding each_page remove_block
kfree fuel ptr h =
    if ptr == 0
    then done tt h
    else let block = (ptr + word - header) % word in
      elim (each_page fuel free_page (page_of block) (align_ceil (block_end h block) page_size)
        h.users) [ none ↦ looping | some u ↦ done tt (remove_block (record h { users = u }) block) ]
