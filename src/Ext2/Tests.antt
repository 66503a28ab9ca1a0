-- ===== src/Ext2/Tests.antt =====
-- A file at a concrete volume.
use neux_os.Prelude.{take, ℕ, suc, ltb, Bool, if◌then◌else◌, ◌+◌, ◌≡◌, refl, true, some, arith}
use neux_os.Strings.{strncmp, strncmp_loop}
use neux_os.Prelude.{◌<◌, length, inr, List, [], ◌∷◌, ◌==◌}
use neux_os.Disk.{Got, fail, got, hd_read}
use neux_os.Ext2.{ext2_bs, inode_at, read_block, read_inode, block_read_iter, block_iter_init}
use neux_os.Ext2.Dir.{
  HasEntries, ends, entry, dir_entry_at, first_named, search_in_dir, search_in_block, skip_entries,
  search_in_dir-first_named,
}
use neux_os.Disk.Sectors.{answering}
use neux_os.Ext2.{Inode, Volume, ext2_f_read}
use neux_os.Ext2.Block.{contents}
use neux_os.Ext2.File.{ext2_f_read-contents}

-- Each sector holds its number.
abbrev numbered : ℕ → ℕ → ℕ
numbered sector i = sector

abbrev volume : Volume
volume = record {
  part_lba = 63;
  first_data_block = 1;
  inodes_per_group = 8;
  inode_table = λ g. 5;
  drive = answering numbered true;
  memory = true;
}

abbrev file : Inode
file = record { mode = 0x81a4; size = 1500; block = λ i. suc (19 + i) }

first_blocks : (direct : Bool) (x y : ℕ) → direct ≡ true → (if direct then suc x else y) ≡ 0 → ⊥
first_blocks direct x y d e = absurd (ground arith)

ext2_f_read-contents_example :
    ext2_f_read 3 1500 volume file ≡ some (got (take 1500 (contents 2 0 volume file)))
ext2_f_read-contents_example =
    ext2_f_read-contents volume numbered true file 2 1500 (record { drive = refl; memory = refl })
      (omega arith)
      (record {
        blocks = λ i h e. absurd (first_blocks (ltb i 12) (19 + i) _ (ground arith) e);
        table = λ h. absurd (omega arith);
      })
      (omega arith)

-- The root's inode is the second of block 5, its directory is block 7, and "a" has the number 11.
abbrev words : ℕ → ℕ → ℕ
words sector i =
    if sector == 73
    then if i == 84 then 7 else 0
    else if sector == 77
    then if i == 0
      then 11
      else if i == 2
      then 1024
      else if i == 3
      then 513
      else if i == 4
      then 97
      else 0
    else 0

abbrev root : Volume
root = record {
  part_lba = 63;
  first_data_block = 1;
  inodes_per_group = 8;
  inode_table = λ g. 5;
  drive = answering words true;
  memory = true;
}

abbrev bytes_of : Got → List ℕ
bytes_of (fail e) = []
bytes_of (got bytes) = bytes

abbrev root_inode : Inode
root_inode = inode_at (bytes_of (read_block 5 1 ext2_bs root)) 1

abbrev root_bytes : List ℕ
root_bytes = bytes_of (block_read_iter ext2_bs root (block_iter_init root_inode)).0

root_found : read_inode 2 root ≡ inr root_inode
unfolding read_inode read_block hd_read
root_found = refl

root_read : (block_read_iter ext2_bs root (block_iter_init root_inode)).0 ≡ got root_bytes
unfolding read_block hd_read block_read_iter
root_read = refl

root_entries : HasEntries root_bytes 0 (dir_entry_at root_bytes 0 ∷ [])
unfolding read_block hd_read block_read_iter
root_entries = entry 0 [] (omega arith) (omega arith) ends

root_length : 0 < length root_bytes
unfolding read_block hd_read block_read_iter
root_length = omega arith

search_in_dir-first_named_example :
    search_in_dir 2 (97 ∷ []) root ≡ first_named (97 ∷ []) (dir_entry_at root_bytes 0 ∷ [])
search_in_dir-first_named_example =
    search_in_dir-first_named 2 (97 ∷ []) root root_inode root_bytes
      (dir_entry_at root_bytes 0 ∷ []) root_found root_read root_length root_entries

-- It is found.
found_number : search_in_dir 2 (97 ∷ []) root ≡ 11
unfolding search_in_dir read_inode read_block hd_read block_read_iter search_in_block skip_entries
    strncmp strncmp_loop
found_number = refl
