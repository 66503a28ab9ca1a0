-- ===== src/Paging/Map.antt =====
-- A page fault as one more page in the map of a task's addresses.
use Prim.Native.Nat.{bit_and}
use neux_os.Prelude.{
  not, ltb, leb, ℕ, ◌*◌, ◌/◌, ◌^◌, ◌<◌, ◌≤◌, ◌≡◌, ◌≢◌, refl, sym, ap, ◌∙◌, Bool, true, false,
  Bool-cases, ◌⊎◌, inl, inr, none, some, ◌==◌, ==_ne, arith,
}
use neux_os.Mm.Align.{page_size, vm_offset}
use neux_os.Mm.Page.{Users, PageFlag, no_page, frame, alloc_page, free_page}
use neux_os.Mm.Page.Laws.{TakesFirst, alloc_page-first}
use neux_os.Paging.{Entries, Paging, link_table, map_in, map_page, page_fault_handler}
use neux_os.Paging.Walk.{target, table_of, walk, IsSpace, map_in-walk}
use neux_os.Paging.Link.{
  IsSpace-users, linked_table, with_table-IsSpace, with_table-walk, new_entry,
}

IsSpace-directory :
    (u : Users) (entries entries' : Entries) (cr3 : ℕ)
    → ((i : ℕ) → entries' cr3 i ≡ entries cr3 i)
    → IsSpace u entries cr3
    → IsSpace u entries' cr3
IsSpace-directory u entries entries' cr3 kept space = record {
  root = space.root;
  used = λ i t h. space.used i t (sym (ap target (kept i)) ∙ h);
  apart = λ i t h. space.apart i t (sym (ap target (kept i)) ∙ h);
  distinct = λ i j t hi hj.
      space.distinct i j t (sym (ap target (kept i)) ∙ hi) (sym (ap target (kept j)) ∙ hj);
}

is_page : (j : ℕ) → j < 2 ^ 20 → (j * 4096 == no_page) ≡ false
is_page j h = ==_ne (j * 4096) no_page (λ e. omega (arith, e))

abbrev next_users : Users → Users
next_users users = (alloc_page PageFlag.normal users).1

abbrev with_users : Users → Paging → Paging
with_users users s = record s { users = users }

-- The branches of map_page.
module _ (user : Bool) (cr3 cr2 : ℕ) (s : Paging) where
  abbrev users' : Users
  users' = (alloc_page PageFlag.normal s.users).1

  branch_full :
      (alloc_page PageFlag.normal s.users).0 ≡ no_page
      → map_page user cr3 cr2 s ≡ (false, with_users users' s)
  unfolding map_page
  branch_full e = rw (map_page, e) refl

  module _ (j : ℕ) (e : (alloc_page PageFlag.normal s.users).0 ≡ j * 4096)
      (small : j < 2 ^ 20) where
    branch_present :
        (s.entries cr3 (cr2 / 2 ^ 22)).present ≡ true
        → map_page user cr3 cr2 s
          ≡ (true, record s { users = users'; entries = map_in user cr3 cr2 (j * 4096) s.entries })
    unfolding map_page
    branch_present present = rw (map_page, e, is_page j small, present) refl

    branch_linked :
        (s' : Paging)
        → (s.entries cr3 (cr2 / 2 ^ 22)).present ≡ false
        → link_table user cr3 (cr2 / 2 ^ 22) (with_users users' s) ≡ (true, s')
        → map_page user cr3 cr2 s
          ≡ (true, record s' { entries = map_in user cr3 cr2 (j * 4096) s'.entries })
    unfolding map_page
    branch_linked s' absent link =
        rw (map_page, e, is_page j small, absent, ap (λ r. r.0) link, ap (λ r. r.1) link) refl

    branch_unlinked :
        (s' : Paging)
        → (s.entries cr3 (cr2 / 2 ^ 22)).present ≡ false
        → link_table user cr3 (cr2 / 2 ^ 22) (with_users users' s) ≡ (false, s')
        → map_page user cr3 cr2 s ≡ (false, with_users (free_page (j * 4096) s'.users) s')
    unfolding map_page
    branch_unlinked s' absent link =
        rw (map_page, e, is_page j small, absent, ap (λ r. r.0) link, ap (λ r. r.1) link) refl

module _ (user : Bool) (cr3 i : ℕ) (s : Paging) where
  link_full :
      (alloc_page PageFlag.normal s.users).0 ≡ no_page
      → link_table user cr3 i s ≡ (false, with_users (alloc_page PageFlag.normal s.users).1 s)
  unfolding link_table
  link_full e = rw (link_table, e) refl

  link_linked :
      (j : ℕ)
      → (alloc_page PageFlag.normal s.users).0 ≡ j * 4096
      → j < 2 ^ 20
      → link_table user cr3 i s ≡ (
        true,
        record {
          users = (alloc_page PageFlag.normal s.users).1;
          entries = linked_table user cr3 i j s.entries;
        },
      )
  unfolding link_table
  link_linked j e small = rw (link_table, e, is_page j small) refl

-- What a page fault leaves of the map: the address has the page `j`, which had no users, and every
-- address of another page is where it was.
abbrev pub IsMapped : (cr3 cr2 j : ℕ) → (s s' : Paging) → Type 0
IsMapped cr3 cr2 j s s' =
    (s.users j ≡ 0)
    × (s'.users j ≡ 1)
    × (walk s'.entries cr3 cr2 ≡ some (j * 4096))
    × ((addr : ℕ)
        → addr / 2 ^ 12 ≢ cr2 / 2 ^ 12
        → walk s'.entries cr3 addr ≡ walk s.entries cr3 addr)
    × IsSpace s'.users s'.entries cr3

more_users :
    (u u' : Users) (j : ℕ) → u j ≡ 0 → ((m : ℕ) → m ≢ j → u' m ≡ u m) → (m : ℕ) → u m ≢ 0 → u' m ≢ 0
more_users u u' j free others m used e =
    let other : m ≢ j = λ same. used (ap u same ∙ free) in used (sym (others m other) ∙ e)

-- The last step, in a space that has the table.
map_in-IsMapped :
    (user : Bool) (cr3 cr2 j t : ℕ) (s : Paging) (users : Users) (entries : Entries)
    → s.users j ≡ 0
    → users j ≡ 1
    → IsSpace users entries cr3
    → table_of entries cr3 cr2 ≡ some t
    → ((addr : ℕ) → walk entries cr3 addr ≡ walk s.entries cr3 addr)
    → IsMapped cr3 cr2 j s
        (record { users = users; entries = map_in user cr3 cr2 (j * 4096) entries })
map_in-IsMapped user cr3 cr2 j t s users entries free taken space table same =
    let (here, others, kept) = map_in-walk user cr3 cr2 j t users entries space table in
    (
      free,
      taken,
      here,
      λ addr ne. others addr ne ∙ same addr,
      IsSpace-directory users entries (map_in user cr3 cr2 (j * 4096) entries) cr3 kept space,
    )

give_back :
    (u u' : Users) (j : ℕ)
    → u j ≡ 0
    → u' j ≡ 1
    → ((m : ℕ) → m ≢ j → u' m ≡ u m)
    → (m : ℕ) → free_page (j * 4096) u' m ≡ u m
unfolding free_page
give_back u u' j free taken others m =
    let whole : frame (j * 4096) ≡ j = omega arith in
    elim (Bool-cases (m == j)) [
      | inl e ↦
          let same : m ≡ j = ground (arith, e) in
          rw (free_page, whole, e, taken) (sym (ap u same ∙ free))
      | inr ne ↦
          let other : m ≢ j = ground (arith, ne) in rw (free_page, whole, ne) (others m other)
    ]

-- map_page, if the directory's entry is not present.
map_page-linked :
    (user : Bool) (cr3 cr2 j : ℕ) (s : Paging)
    → IsSpace s.users s.entries cr3
    → (alloc_page PageFlag.normal s.users).0 ≡ j * 4096
    → TakesFirst s.users (next_users s.users) 0 j
    → (s.entries cr3 (cr2 / 2 ^ 22)).present ≡ false
    → ((s' : Paging) × (map_page user cr3 cr2 s ≡ (false, s'))
        × ((addr : ℕ) → walk s'.entries cr3 addr ≡ walk s.entries cr3 addr)
        × ((m : ℕ) → s'.users m ≡ s.users m))
      ⊎ ((j : ℕ) × (s' : Paging) × (map_page user cr3 cr2 s ≡ (true, s')) × IsMapped cr3 cr2 j s s')
map_page-linked user cr3 cr2 j s space page first absent =
    let i = cr2 / 2 ^ 22 in
    let u1 = next_users s.users in
    let u2 = next_users u1 in
    let s1 = with_users u1 s in
    elim (alloc_page-first u1) [
      | inr (full, same, _) ↦ inl (
        with_users (free_page (j * 4096) u2) s,
        branch_unlinked user cr3 cr2 s j page first.bound (with_users u2 s1) absent
            (link_full user cr3 i s1 full),
        λ addr. refl,
        λ m.
            ap (λ u. free_page (j * 4096) u m) same
            ∙ give_back s.users u1 j first.was_free first.taken first.others m,
      )
      | inl (k, page', second) ↦
          let more = more_users s.users u1 j first.was_free first.others in
          let space1 = IsSpace-users s.users u1 s.entries cr3 more space in
          let none_yet : target (s.entries cr3 i) ≡ none = rw absent refl in
          let entries = linked_table user cr3 i k s.entries in
          let s2 : Paging = record { users = u2; entries = entries } in
          let apart : j ≢ k =
            λ e. absurd (omega (arith, sym first.taken ∙ ap u1 e ∙ second.was_free)) in
          inr (
            j,
            record { users = u2; entries = map_in user cr3 cr2 (j * 4096) entries },
            branch_linked user cr3 cr2 s j page first.bound s2 absent
                (link_linked user cr3 i s1 k page' second.bound),
            map_in-IsMapped user cr3 cr2 j (k * 2 ^ 12) s u2 entries first.was_free
                (second.others j apart ∙ first.taken)
                (with_table-IsSpace user cr3 i k u1 u2 s.entries second.was_free second.taken
                  second.others space1 none_yet)
                (new_entry user cr3 i k u1 u2 s.entries second.was_free second.taken second.others
                  space1 none_yet)
                (with_table-walk user cr3 i k u1 u2 s.entries second.was_free second.taken
                  second.others space1 none_yet),
          )
    ]

-- For a task whose directory and tables are in use and all different: if no frame is left for the
-- page, or none for a table that is missing, map_page reports the error, and every address is mapped as
-- before and every count of users is as it was. Otherwise the address is then mapped to a page that
-- had no users and has one, every address of another page is mapped as before, and the directory and
-- the tables are in use and all different again.
pub map_page-walk :
    (user : Bool) (cr3 cr2 : ℕ) (s : Paging)
    → IsSpace s.users s.entries cr3
    → ((s' : Paging) × (map_page user cr3 cr2 s ≡ (false, s'))
        × ((addr : ℕ) → walk s'.entries cr3 addr ≡ walk s.entries cr3 addr)
        × ((m : ℕ) → s'.users m ≡ s.users m))
      ⊎ ((j : ℕ) × (s' : Paging) × (map_page user cr3 cr2 s ≡ (true, s')) × IsMapped cr3 cr2 j s s')
map_page-walk user cr3 cr2 s space = elim (alloc_page-first s.users) [
  | inr (full, same, _) ↦ inl (
    with_users (users' user cr3 cr2 s) s,
    branch_full user cr3 cr2 s full,
    λ addr. refl,
    λ m. ap (λ u. u m) same,
  )
  | inl (j, page, first) ↦ elim (Bool-cases (s.entries cr3 (cr2 / 2 ^ 22)).present) [
    | inl present ↦
        let u1 = next_users s.users in
        let more = more_users s.users u1 j first.was_free first.others in
        let space' = IsSpace-users s.users u1 s.entries cr3 more space in
        inr (
          j,
          record { users = u1; entries = map_in user cr3 cr2 (j * 4096) s.entries },
          branch_present user cr3 cr2 s j page first.bound present,
          map_in-IsMapped user cr3 cr2 j ((s.entries cr3 (cr2 / 2 ^ 22)).index * 2 ^ 12) s u1
              s.entries first.was_free first.taken space' (rw present refl) (λ addr. refl),
        )
    | inr absent ↦ map_page-linked user cr3 cr2 j s space page first absent
  ]
]

-- A page fault, whatever its code and its address and whether the task goes on, leaves the first page
-- and the kernel's addresses mapped as they were, if the directory and the tables of the task are in
-- use and all different.
pub page_fault_handler-kernel :
    (user : Bool) (err_code cr2 cr3 addr : ℕ) (s : Paging)
    → IsSpace s.users s.entries cr3
    → (addr < page_size) ⊎ (vm_offset ≤ addr)
    → walk (page_fault_handler user err_code cr2 cr3 s).1.entries cr3 addr ≡ walk s.entries cr3 addr
unfolding page_fault_handler
page_fault_handler-kernel user err_code cr2 cr3 addr s space kernel =
    elim (Bool-cases (ltb cr2 page_size)) [
      | inl low ↦ rw (page_fault_handler, low) refl
      | inr above ↦ elim (Bool-cases (not (bit_and err_code 1 == 0))) [
        | inl denied ↦ rw (page_fault_handler, above, denied) refl
        | inr missing ↦ elim (Bool-cases (leb vm_offset cr2)) [
          | inl high ↦ rw (page_fault_handler, above, missing, high) refl
          | inr user_space ↦
              let apart = other_page cr2 addr above user_space kernel in
              rw (page_fault_handler, above, missing, user_space) (after_map apart)
        ]
      ]
    ]
  where
    other_page :
        (cr2 addr : ℕ)
        → ltb cr2 page_size ≡ false
        → leb vm_offset cr2 ≡ false
        → (addr < page_size) ⊎ (vm_offset ≤ addr)
        → addr / 2 ^ 12 ≢ cr2 / 2 ^ 12
    other_page cr2 addr above below (inl first) e = ground arith
    other_page cr2 addr above below (inr high) e = ground arith

    after_map :
        addr / 2 ^ 12 ≢ cr2 / 2 ^ 12
        → walk (map_page user cr3 cr2 s).1.entries cr3 addr ≡ walk s.entries cr3 addr
    after_map apart = elim (map_page-walk user cr3 cr2 s space) [
      | inl (s', e, same, _) ↦ ap (λ r. walk r.1.entries cr3 addr) e ∙ same addr
      | inr (j, s', e, m) ↦ ap (λ r. walk r.1.entries cr3 addr) e ∙ m.3 addr apart
    ]
