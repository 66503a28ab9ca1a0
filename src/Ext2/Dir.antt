-- ===== src/Ext2/Dir.antt =====
-- fs/ext2/ext2.c, search_in_dir: the entries of a directory's block.
use neux_os.Prelude.{
  ℕ, zero, suc, ◌+◌, ◌<◌, ◌≤◌, ◌≡◌, refl, Bool, true, false, not, ◌&&◌, ◌||◌, inl, inr, List, [],
  ◌∷◌, ◌==◌, ==_ne, ltb, if◌then◌else◌, arith,
}
use neux_os.Prelude.{length, get_or, drop}
use neux_os.Strings.{strlen, strncmp}
use neux_os.Disk.{fail, got}
use neux_os.Ext2.{Inode, Volume, ext2_bs, le16, le32, read_inode, block_iter_init, block_read_iter}

-- `struct ext2_dir_entry` without its type; `name` goes on behind its length.
pub record DirEntry : Type 0 where
  pub inode : ℕ
  pub rec_len : ℕ
  pub name_len : ℕ
  pub name : List ℕ

abbrev pub dir_entry_at : List ℕ → ℕ → DirEntry
dir_entry_at buf off = record {
  inode = le32 buf off;
  rec_len = le16 buf (off + 4);
  name_len = get_or buf (off + 6) 0;
  name = drop (off + 8) buf;
}

abbrev pub has_name : List ℕ → DirEntry → Bool
has_name name e = (e.name_len == strlen name) && strncmp e.name name (strlen name) == 0

-- The inner loop, which gives the place where it ends.
unfoldable pub skip_entries : (rounds off : ℕ) → (buf name : List ℕ) → ℕ
skip_entries zero off buf name = off
skip_entries (suc rounds) off buf name =
    let e = dir_entry_at buf off in
    let rest = skip_entries rounds (off + e.rec_len) buf name in
    if ltb off ext2_bs && (not (e.inode == 0) && not (has_name name e)) then rest else off

-- What a block gives, with a round for each byte; 0 is that there is no such entry.
unfoldable pub search_in_block : (buf name : List ℕ) → ℕ
search_in_block buf name =
    let off = skip_entries ext2_bs 0 buf name in
    let e = dir_entry_at buf off in if (off == ext2_bs) || e.inode == 0 then 0 else e.inode

-- The outer loop ends with its first round.
unfoldable pub search_in_dir : (dir_ino : ℕ) → (name : List ℕ) → Volume → ℕ
search_in_dir dir_ino name v = elim (read_inode dir_ino v) [
  | inl e ↦ 0
  | inr inode ↦ elim (block_read_iter ext2_bs v (block_iter_init inode)).0 [
    | fail e ↦ 0
    | got bytes ↦ if length bytes == 0 then 0 else search_in_block bytes name
  ]
]

-- The block has these entries from `off` on, and the last one ends at its end.
pub data HasEntries (buf : List ℕ) : (off : ℕ) → List DirEntry → Type 0 where
  ends : HasEntries buf ext2_bs []
  entry :
      (off : ℕ) (es : List DirEntry)
      → off < ext2_bs
      → 0 < (dir_entry_at buf off).rec_len
      → HasEntries buf (off + (dir_entry_at buf off).rec_len) es
      → HasEntries buf off (dir_entry_at buf off ∷ es)

-- The number of the first entry of the name, if no entry in front of it is unused.
abbrev pub first_named : (name : List ℕ) → List DirEntry → ℕ
first_named name [] = 0
first_named name (e ∷ es) =
    let rest = first_named name es in
    if e.inode == 0 then 0 else if has_name name e then e.inode else rest

-- There are no more entries than bytes.
HasEntries-length :
    (buf : List ℕ) (off : ℕ) (es : List DirEntry)
    → HasEntries buf off es
    → off + length es ≤ ext2_bs
HasEntries-length buf _ _ ends = omega arith
HasEntries-length buf _ _ (entry off es inside pos more) =
    omega (arith, HasEntries-length buf (off + (dir_entry_at buf off).rec_len) es more)

abbrev result_at : (off : ℕ) → (buf : List ℕ) → ℕ
result_at off buf =
    if (off == ext2_bs) || (dir_entry_at buf off).inode == 0
    then 0
    else (dir_entry_at buf off).inode

-- The loop stops at an entry that is unused or has the name.
choose :
    (unused named inside : Bool) (off rest inode later : ℕ) (result : ℕ → ℕ)
    → inside ≡ true
    → result off ≡ (if unused then 0 else inode)
    → result rest ≡ later
    → result (if inside && (not unused && not named) then rest else off)
      ≡ (if unused then 0 else if named then inode else later)
choose unused named false off rest inode later result in_block here behind =
    absurd (grind (arith, in_block))
choose true named true off rest inode later result in_block here behind = here
choose false true true off rest inode later result in_block here behind = here
choose false false true off rest inode later result in_block here behind = behind

skip_entries-named :
    (rounds off : ℕ) (buf name : List ℕ) (es : List DirEntry)
    → HasEntries buf off es
    → length es ≤ rounds
    → result_at (skip_entries rounds off buf name) buf ≡ first_named name es
unfolding skip_entries
skip_entries-named zero _ buf name _ ends fit = refl
skip_entries-named (suc rounds) _ buf name _ ends fit = refl
skip_entries-named zero _ buf name _ (entry off es inside pos more) fit = absurd (omega arith)
skip_entries-named (suc rounds) _ buf name _ (entry off es inside pos more) fit =
    let e = dir_entry_at buf off in
    choose (e.inode == 0) (has_name name e) (ltb off ext2_bs) off
      (skip_entries rounds (off + e.rec_len) buf name) e.inode (first_named name es)
      (λ k. result_at k buf) (ground arith)
      (let here : (off == ext2_bs) ≡ false = ==_ne off ext2_bs (λ at. omega (arith, at)) in
        rw here refl)
      (skip_entries-named rounds (off + e.rec_len) buf name es more (omega arith))

-- For a directory whose inode and first block can be read, with entries that follow each other to the
-- end of the block, none of them of length 0: search_in_dir gives the number of the first entry of the
-- name, and 0 if there is none, or if an unused entry comes first. What is in other blocks of the
-- directory plays no part.
pub search_in_dir-first_named :
    (dir_ino : ℕ) (name : List ℕ) (v : Volume) (inode : Inode) (bytes : List ℕ) (es : List DirEntry)
    → read_inode dir_ino v ≡ inr inode
    → (block_read_iter ext2_bs v (block_iter_init inode)).0 ≡ got bytes
    → 0 < length bytes
    → HasEntries bytes 0 es
    → search_in_dir dir_ino name v ≡ first_named name es
unfolding search_in_dir search_in_block
search_in_dir-first_named dir_ino name v inode bytes es found read some_bytes entries =
    let enough = HasEntries-length bytes 0 es entries in
    let full : (length bytes == 0) ≡ false = ground arith in
    rw (search_in_dir, found, read, full)
      (skip_entries-named ext2_bs 0 bytes name es entries (omega (arith, enough)))
