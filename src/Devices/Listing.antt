-- ===== src/Devices/Listing.antt =====
-- fs/fs.c, sys_getdents, over the nodes of the device file system.
use neux_os.Prelude.{
  ℕ, zero, suc, ◌+◌, ◌*◌, ◌/◌, ◌%◌, ◌^◌, ◌<◌, ◌≤◌, ◌≡◌, refl, ap, ◌∙◌, Bool, true, false, none,
  some, List, [], ◌∷◌, arith,
}
use neux_os.Prelude.{length, take, drop}
use neux_os.Devices.{DevInode, Devfs, Dirent, Cursor, sizeof_dev_inode, rest_of, devfs_f_readdir}

-- The loop of sys_getdents: the entries that it stores, whether it goes to its end, and the file.
-- vfs_readdir is the call of the file system's operation, here of devfs.
unfoldable pub getdents : (rounds : ℕ) → Devfs → Cursor → List Dirent × Bool × Cursor
getdents zero s c = ([], true, c)
getdents (suc rounds) s c =
    let (entry, c) = devfs_f_readdir s c in
    let (entries, all, c') = getdents rounds s c in
    elim entry [ none ↦ ([], false, c) | some e ↦ (e ∷ entries, all, c') ]

-- The number of bytes that sys_getdents returns, for a directory that is open, with what it stores; the
-- same number is added to *basep.
unfoldable pub sys_getdents : (sizeof_dirent nbytes : ℕ) → Devfs → Cursor → ℕ × List Dirent × Cursor
sys_getdents sizeof_dirent nbytes s c =
    let n = nbytes / sizeof_dirent in
    let (entries, all, c') = getdents n s c in
    elim all [ true ↦ (n * sizeof_dirent, entries, c') | false ↦ (0, entries, c') ]

-- What devfs_f_readdir says of a node.
abbrev pub dirent_of : (ℕ → DevInode) → ℕ → Dirent
dirent_of at n = record { d_ino = (at n).ino; d_reclen = sizeof_dev_inode; d_name = (at n).name }

abbrev pub dirents : (ℕ → DevInode) → List ℕ → List Dirent
dirents at [] = []
dirents at (n ∷ ns) = dirent_of at n ∷ dirents at ns

readdir-node :
    (s : Devfs) (c : Cursor) (n : ℕ) (ns : List ℕ)
    → rest_of s.nodes c.buf ≡ n ∷ ns
    → devfs_f_readdir s c ≡ (
      some (dirent_of s.at n),
      record { buf = some ns; off = (c.off + sizeof_dev_inode) % 2 ^ 32 },
    )
unfolding devfs_f_readdir
readdir-node s c n ns e = rw (devfs_f_readdir, e) refl

readdir-end :
    (s : Devfs) (c : Cursor)
    → rest_of s.nodes c.buf ≡ []
    → devfs_f_readdir s c ≡ (none, record c { buf = some [] })
unfolding devfs_f_readdir
readdir-end s c e = rw (devfs_f_readdir, e) refl

-- What the loop gives from a place in the list on.
record IsListing (rounds : ℕ) (s : Devfs) (ns : List ℕ) (r : List Dirent × Bool × Cursor)
    : Type 0 where
  entries : r.0 ≡ dirents s.at (take rounds ns)
  whole : (rounds ≤ length ns → r.1 ≡ true) × (length ns < rounds → r.1 ≡ false)
  rest : rest_of s.nodes r.2.buf ≡ drop rounds ns

getdents-IsListing :
    (rounds : ℕ) (s : Devfs) (c : Cursor) (ns : List ℕ)
    → rest_of s.nodes c.buf ≡ ns
    → IsListing rounds s ns (getdents rounds s c)
unfolding getdents
getdents-IsListing zero s c ns e = record {
  entries = refl;
  whole = (λ h. refl, λ h. absurd (omega arith));
  rest = e;
}
getdents-IsListing (suc rounds) s c [] e =
    let stop = readdir-end s c e in
    rw (getdents, ap (λ r. r.0) stop, ap (λ r. r.1) stop)
      (record { entries = refl; whole = (λ h. absurd (omega arith), λ h. refl); rest = refl })
getdents-IsListing (suc rounds) s c (n ∷ ns) e =
    let step = readdir-node s c n ns e in
    let c' : Cursor = record { buf = some ns; off = (c.off + sizeof_dev_inode) % 2 ^ 32 } in
    let later = getdents-IsListing rounds s c' ns refl in
    rw (getdents, ap (λ r. r.0) step, ap (λ r. r.1) step)
      (record {
        entries = ap (λ es. dirent_of s.at n ∷ es) later.entries;
        whole = (λ h. later.whole.0 (omega arith), λ h. later.whole.1 (omega arith));
        rest = later.rest;
      })

finish :
    (total : ℕ) (all : Bool) (entries : List Dirent) (c : Cursor)
    → ((elim all as (λ _. ℕ × List Dirent × Cursor) [
      | true ↦ (total, entries, c)
      | false ↦ (0, entries, c)
    ]).1
        ≡ entries)
      × ((elim all as (λ _. ℕ × List Dirent × Cursor) [
        | true ↦ (total, entries, c)
        | false ↦ (0, entries, c)
      ]).2
          ≡ c)
finish total true entries c = (refl, refl)
finish total false entries c = (refl, refl)

-- sys_getdents of the device file system, with a buffer for n entries, stores the next n nodes that are
-- left, or all if there are fewer, and goes on behind them. It returns the size of n entries if n nodes
-- were left, and 0 if not, although it has stored those that were.
pub sys_getdents-take :
    (sizeof_dirent nbytes : ℕ) (s : Devfs) (c : Cursor)
    → 0 < sizeof_dirent
    → ((sys_getdents sizeof_dirent nbytes s c).1
        ≡ dirents s.at (take (nbytes / sizeof_dirent) (rest_of s.nodes c.buf)))
      × (rest_of s.nodes (sys_getdents sizeof_dirent nbytes s c).2.buf
          ≡ drop (nbytes / sizeof_dirent) (rest_of s.nodes c.buf))
      × (nbytes / sizeof_dirent ≤ length (rest_of s.nodes c.buf)
          → (sys_getdents sizeof_dirent nbytes s c).0 ≡ nbytes / sizeof_dirent * sizeof_dirent)
      × (length (rest_of s.nodes c.buf) < nbytes / sizeof_dirent
          → (sys_getdents sizeof_dirent nbytes s c).0 ≡ 0)
unfolding sys_getdents
sys_getdents-take sizeof_dirent nbytes s c some_size =
    let n = nbytes / sizeof_dirent in
    let r = getdents n s c in
    let listing = getdents-IsListing n s c (rest_of s.nodes c.buf) refl in
    let (entries, cursor) = finish (n * sizeof_dirent) r.1 r.0 r.2 in
    (
      entries ∙ listing.entries,
      ap (λ k. rest_of s.nodes k.buf) cursor ∙ listing.rest,
      λ h. rw (sys_getdents, listing.whole.0 h) refl,
      λ h. rw (sys_getdents, listing.whole.1 h) refl,
    )
