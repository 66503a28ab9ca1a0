-- ===== src/Paging/Tests.antt =====
-- Paging at concrete tables.
use neux_os.Prelude.{
  ℕ, ◌+◌, ◌%◌, ◌<◌, ◌≡◌, ◌≢◌, ◌⊎◌, inl, inr, sym, ap, ◌∙◌, true, false, Bool-cases, none, some,
  ◌==◌, ltb, if◌then◌else◌, arith,
}
use neux_os.Paging.{
  PageEntry, Paging, no_entry, page_entry_count, skips, map_page, page_fault_handler,
  clone_page_table,
}
use neux_os.Paging.Walk.{target, walk, IsSpace}
use neux_os.Paging.Map.{IsMapped, map_page-walk, page_fault_handler-kernel}
use neux_os.Paging.Clone.{references, clone_page_table-shares}

-- The kernel has the first 512 frames, the directory 0x100000 among them; nothing is mapped.
abbrev fresh : Paging
fresh = record { users = λ i. if ltb i 512 then 255 else 0; entries = λ t i. no_entry }

fresh-IsSpace : IsSpace fresh.users fresh.entries 0x100000
fresh-IsSpace = record {
  root = λ e. omega (arith, e);
  used = λ i t h. absurd (grind (arith, h));
  apart = λ i t h. absurd (grind (arith, h));
  distinct = λ i j t h. absurd (grind (arith, h));
}

map_page-walk_example :
    ((s' : Paging) × (map_page true 0x100000 0x8048123 fresh ≡ (false, s'))
      × ((addr : ℕ) → walk s'.entries 0x100000 addr ≡ none)
      × ((m : ℕ) → s'.users m ≡ fresh.users m))
    ⊎ ((j : ℕ) × (s' : Paging) × (map_page true 0x100000 0x8048123 fresh ≡ (true, s'))
        × IsMapped 0x100000 0x8048123 j fresh s')
map_page-walk_example = map_page-walk true 0x100000 0x8048123 fresh fresh-IsSpace

-- A write of a user to an address that has no page.
page_fault_handler-kernel_example :
    walk (page_fault_handler true 6 0x8048123 0x100000 fresh).1.entries 0x100000 0xc0100000 ≡ none
page_fault_handler-kernel_example =
    page_fault_handler-kernel true 6 0x8048123 0x100000 0xc0100000 fresh fresh-IsSpace
      (inr (omega arith))

-- The directory 0x100000 has one table, in the frame 700.
abbrev entry : PageEntry
entry = record { present = true; rw = true; us = true; rest = 0; index = 700 }

abbrev one_table : Paging
one_table = record {
  users = λ i. if ltb i 512 then 255 else if i == 700 then 1 else 0;
  entries = λ t i. if t == 0x100000 then if i == 32 then entry else no_entry else no_entry;
}

one_table-apart : (i t : ℕ) → target (one_table.entries 0x100000 i) ≡ some t → t ≢ 0x400000
one_table-apart i t h e = elim (Bool-cases (i == 32)) [
  | inl at ↦
      let number : some 2867200 ≡ some t =
        sym (ap (λ b. target (if b then entry else no_entry)) at) ∙ h in
      let same = ap {B = ℕ} (λ o. elim o [ none ↦ 0 | some n ↦ n ]) number in
      absurd (omega (arith, same, e))
  | inr other ↦
      let nothing : none ≡ some t =
        sym (ap (λ b. target (if b then entry else no_entry)) other) ∙ h in
      absurd (grind (arith, nothing))
]

clone_page_table-shares_example :
    (s' : Paging) × (clone_page_table 0x100000 0xc0400000 one_table ≡ (0x400000, s'))
    × ((addr : ℕ) → walk s'.entries 0x400000 addr ≡ walk one_table.entries 0x100000 addr)
    × ((addr : ℕ) → walk s'.entries 0x100000 addr ≡ walk one_table.entries 0x100000 addr)
    × (s'.entries 0x100000 ≡ one_table.entries 0x100000)
    × ((m : ℕ)
        → m < page_entry_count
        → skips (one_table.entries 0x100000 m) m ≡ false
        → (s'.entries 0x400000 m).rw ≡ false)
    × ((p : ℕ)
        → s'.users p
          ≡ (one_table.users p + references page_entry_count 0 (one_table.entries 0x100000) p)
            % 256)
clone_page_table-shares_example =
    clone_page_table-shares 0x100000 0xc0400000 one_table (λ e. omega (arith, e))
      (λ e. omega (arith, e)) one_table-apart bytes
  where
    bytes : (p : ℕ) → one_table.users p < 256
    bytes p = ground arith
