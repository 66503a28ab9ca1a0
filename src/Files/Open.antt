-- ===== src/Files/Open.antt =====
-- The descriptors as a table of files.
use neux_os.Prelude.{
  ℕ, zero, suc, ◌+◌, ◌<◌, ◌≤◌, ◌≡◌, ◌≢◌, refl, ap, sym, ◌∙◌, ◌⊎◌, inl, inr, Bool, true, false,
  Bool-cases, List, [], ◌∷◌, ◌++◌, none, some, ◌==◌, ==_ne, ==_refl, if◌then◌else◌, arith,
}
use mathlib.Core.List.{append-nil}
use neux_os.Links.{null, update}
use neux_os.Files.{
  FileError, error, value, enoent, eperm, enomem, emfile, Files, Found, release_dentry, vfs_open,
  vfs_close, free_fd, open_at, sys_open, sys_close,
}

-- The descriptor `fd` is the first one that is free.
record IsFirst (table : ℕ → ℕ) (i fd : ℕ) : Type 0 where
  above : i ≤ fd
  free : table fd ≡ 0
  taken : (j : ℕ) → i ≤ j → j < fd → table j ≢ 0

free_fd-cases :
    (rounds i : ℕ) (table : ℕ → ℕ)
    → ((free_fd rounds i table ≡ none) × ((j : ℕ) → i ≤ j → j < i + rounds → table j ≢ 0))
      ⊎ ((fd : ℕ) × (free_fd rounds i table ≡ some fd) × (fd < i + rounds) × IsFirst table i fd)
unfolding free_fd
free_fd-cases zero i table = inl (refl, λ j low high. absurd (omega arith))
free_fd-cases (suc rounds) i table = elim (Bool-cases (table i == null)) [
  | inl free ↦ inr (
    i,
    rw free refl,
    omega arith,
    record {
      above = omega arith;
      free = ground (arith, free);
      taken = λ j low high. absurd (omega arith);
    },
  )
  | inr used ↦ elim (free_fd-cases rounds (i + 1) table) [
    | inl (full, taken) ↦ inl (
      rw used full,
      λ j low high. taken_from i table j used (λ above. taken j above (omega arith)) low,
    )
    | inr (fd, found, inside, first) ↦ inr (
      fd,
      rw used found,
      omega arith,
      record {
        above = omega (arith, first.above);
        free = first.free;
        taken = λ j low high. taken_from i table j used (λ above. first.taken j above high) low;
      },
    )
  ]
]
  where
    taken_from :
        (i : ℕ) (table : ℕ → ℕ) (j : ℕ)
        → (table i == null) ≡ false
        → (i + 1 ≤ j → table j ≢ 0)
        → i ≤ j
        → table j ≢ 0
    taken_from i table j used later low = elim (Bool-cases (j == i)) [
      | inl e ↦ λ h. ground (arith, e, used, h, ap table (same_place j i e))
      | inr ne ↦ later (ground (arith, ne))
    ]
      where
        same_place : (j i : ℕ) → (j == i) ≡ true → j ≡ i
        same_place j i e = ground arith

-- vfs_lookup found the entry `dent`, under a mount, and kmalloc gives `memory`.
abbrev pub all_found : (dent memory : ℕ) → Found
all_found dent memory = record { dent = dent; mounted = true; memory = memory }

abbrev opened : (dent memory fd : ℕ) → Files → Files
opened dent memory fd s = record s {
  at = update s.at memory (record { rc = 1; off = 0; dent = dent });
  table = update s.table fd memory;
}

open_at-opened :
    (dent memory fd : ℕ) (s : Files)
    → dent ≢ 0
    → memory ≢ 0
    → open_at (all_found dent memory) fd s ≡ (value fd, opened dent memory fd s)
unfolding open_at vfs_open
open_at-opened dent memory fd s some_dent some_memory =
    let found = ==_ne dent 0 some_dent in
    let room = ==_ne memory 0 some_memory in rw (open_at, vfs_open, found, room, room) refl

abbrev closed_again : (dent memory fd : ℕ) → Files → Files
closed_again dent memory fd s = record s {
  at =
      update (update s.at memory (record { rc = 1; off = 0; dent = dent })) memory
        (record { rc = 0; off = 0; dent = dent });
  table = update (update s.table fd memory) fd null;
  released = s.released ++ dent ∷ [];
  closed = s.closed ++ memory ∷ [];
  freed = s.freed ++ memory ∷ [];
}

close-opened :
    (dent memory fd : ℕ) (s : Files)
    → dent ≢ 0
    → memory ≢ 0
    → sys_close true fd (opened dent memory fd s) ≡ (value 0, closed_again dent memory fd s)
unfolding sys_close vfs_close
close-opened dent memory fd s some_dent some_memory =
    let found = ==_ne dent 0 some_dent in
    let here = ==_refl fd in
    let room = ==_ne memory 0 some_memory in
    let place = ==_refl memory in rw (sys_close, here, room, vfs_close, place, found) refl

clear_free : (table : ℕ → ℕ) (fd j : ℕ) → table fd ≡ 0 → update table fd null j ≡ table j
clear_free table fd j free = elim (Bool-cases (j == fd)) [
  | inl e ↦ let place : fd ≡ j = ground (arith, e) in rw e (sym free ∙ ap table place)
  | inr ne ↦ rw ne refl
]

closed_again-table :
    (table : ℕ → ℕ) (memory fd j : ℕ)
    → table fd ≡ 0
    → update (update table fd memory) fd null j ≡ table j
closed_again-table table memory fd j free = elim (Bool-cases (j == fd)) [
  | inl e ↦ let place : fd ≡ j = ground (arith, e) in rw e (sym free ∙ ap table place)
  | inr ne ↦ rw ne refl
]

-- With a path that is found, under a mount, and with memory for a file, sys_open gives -EMFILE and
-- changes nothing if no descriptor is free. Otherwise it puts the file at the first free descriptor
-- and at no other, and sys_close of that descriptor gives the old table, and releases the entry and
-- the memory, each once.
pub sys_open-close :
    (dent memory : ℕ) (s : Files)
    → dent ≢ 0
    → memory ≢ 0
    → ((sys_open (all_found dent memory) s ≡ (error emfile, s))
        × ((j : ℕ) → j < 256 → s.table j ≢ 0))
      ⊎ ((fd : ℕ) × (s' : Files) × (sys_open (all_found dent memory) s ≡ (value fd, s'))
          × (fd < 256)
          × (s.table fd ≡ 0)
          × ((j : ℕ) → j < fd → s.table j ≢ 0)
          × ((j : ℕ) → s'.table j ≡ (if j == fd then memory else s.table j))
          × ((s'' : Files) × (sys_close true fd s' ≡ (value 0, s''))
              × ((j : ℕ) → s''.table j ≡ s.table j)
              × (s''.released ≡ s.released ++ dent ∷ [])
              × (s''.freed ≡ s.freed ++ memory ∷ [])))
unfolding sys_open
sys_open-close dent memory s some_dent some_memory = elim (free_fd-cases 256 0 s.table) [
  | inl (full, taken) ↦ inl (rw (sys_open, full) refl, λ j h. taken j (omega arith) (omega arith))
  | inr (fd, found, inside, first) ↦ inr (
    fd,
    opened dent memory fd s,
    rw (sys_open, found) (open_at-opened dent memory fd s some_dent some_memory),
    omega arith,
    first.free,
    λ j h. first.taken j (omega arith) h,
    λ j. refl,
    (
      closed_again dent memory fd s,
      close-opened dent memory fd s some_dent some_memory,
      λ j. closed_again-table s.table memory fd j first.free,
      refl,
      refl,
    ),
  )
]

-- What vfs_open misses: the entry, its mount, or memory.
abbrev pub Misses : Found → Type 0
Misses found = (found.dent ≡ 0) ⊎ ((found.mounted ≡ false) ⊎ (found.memory ≡ 0))

-- The entry, if there is one.
abbrev pub entry_of : ℕ → List ℕ
entry_of dent = if dent == 0 then [] else dent ∷ []

release_dentry-entry_of :
    (dent : ℕ) (s : Files)
    → ((release_dentry dent s).released ≡ s.released ++ entry_of dent)
      × ((release_dentry dent s).table ≡ s.table)
release_dentry-entry_of dent s = elim (Bool-cases (dent == 0)) [
  | inl e ↦ rw e (sym (append-nil s.released), refl)
  | inr ne ↦ rw ne (refl, refl)
]

vfs_open-Misses :
    (dent memory : ℕ) (mounted : Bool) (s : Files)
    → Misses (record { dent = dent; mounted = mounted; memory = memory })
    → (e : FileError) × (vfs_open (record { dent = dent; mounted = mounted; memory = memory }) s
        ≡ (null, e, release_dentry dent s))
unfolding vfs_open
vfs_open-Misses dent memory false s m = elim (Bool-cases (dent == 0)) [
  | inl e ↦ (enoent, rw (vfs_open, e) refl)
  | inr ne ↦ (eperm, rw (vfs_open, ne) refl)
]
vfs_open-Misses dent memory true s m = elim (Bool-cases (dent == 0)) [
  | inl e ↦ (enoent, rw (vfs_open, e) refl)
  | inr ne ↦
      let no_memory : (memory == 0) ≡ true = elim m [
        | inl e ↦ absurd (ground (arith, e, ne))
        | inr (inl e) ↦ absurd (ground (arith, e))
        | inr (inr e) ↦ ground (arith, e)
      ] in
      (enomem, rw (vfs_open, ne, no_memory) refl)
]

-- If the entry, its mount or the memory is missing, sys_open gives an error and leaves every
-- descriptor as it is. It changes nothing if no descriptor is free, and otherwise has released the
-- entry once, if there is one.
pub sys_open_error :
    (dent memory : ℕ) (mounted : Bool) (s : Files)
    → Misses (record { dent = dent; mounted = mounted; memory = memory })
    → (e : FileError) × (s' : Files) × (sys_open
          (record { dent = dent; mounted = mounted; memory = memory })
          s
        ≡ (error e, s'))
      × ((j : ℕ) → s'.table j ≡ s.table j)
      × (((s' ≡ s) × ((j : ℕ) → j < 256 → s.table j ≢ 0))
          ⊎ (s'.released ≡ s.released ++ entry_of dent))
unfolding sys_open open_at
sys_open_error dent memory mounted s m = elim (free_fd-cases 256 0 s.table) [
  | inl (full, taken) ↦ (
    emfile,
    s,
    rw (sys_open, full) refl,
    λ j. refl,
    inl (refl, λ j h. taken j (omega arith) (omega arith)),
  )
  | inr (fd, found, inside, first) ↦
      let (e, missed) = vfs_open-Misses dent memory mounted s m in
      let (entry, table) = release_dentry-entry_of dent s in
      let none_opened = ap (λ r. r.0) missed in
      let errno = ap (λ r. r.1) missed in
      let after = ap (λ r. r.2) missed in
      (
        e,
        record (release_dentry dent s) { table = update (release_dentry dent s).table fd null },
        rw (sys_open, found, open_at, none_opened, errno, after) refl,
        λ j. ap (λ t. update t fd null j) table ∙ clear_free s.table fd j first.free,
        inr entry,
      )
]
