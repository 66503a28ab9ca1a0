-- ===== src/Ext2.antt =====
-- fs/ext2/ext2.c: reading inodes, the blocks of a file, files and directories.
pub mod Block
pub mod File
pub mod Dir
mod Tests
use neux_os.Prelude.{
  ℕ, zero, suc, ◌+◌, ◌-◌, ◌*◌, ◌/◌, ◌%◌, ◌^◌, ◌⊎◌, inl, inr, Bool, true, false, not, ◌&&◌, ◌||◌,
  Option, none, some, List, [], ◌∷◌, ◌++◌, length, get_or, ◌==◌, ltb, leb, if◌then◌else◌,
}
use neux_os.Disk.{Errno, einval, enomem, Got, fail, got, Drive, hd_sect_sz, hd_read}

-- CONFIG_EXT2_BS and INO_CNT_PB
abbrev pub ext2_bs : ℕ
ext2_bs = 1024

abbrev pub ino_cnt_pb : ℕ
ino_cnt_pb = ext2_bs / 4

-- EXT2_B_L1_IDX, EXT2_B_L2_IDX and EXT2_B_L3_IDX
abbrev pub ext2_b_l1_idx : ℕ
ext2_b_l1_idx = 12

abbrev pub ext2_b_l2_idx : ℕ
ext2_b_l2_idx = 13

abbrev pub ext2_b_l3_idx : ℕ
ext2_b_l3_idx = 14

-- The fields of `struct ext2_inode` that are used, and its size.
pub record Inode : Type 0 where
  pub mode : ℕ
  pub size : ℕ
  pub block : ℕ → ℕ

abbrev pub inode_bytes : ℕ
inode_bytes = 128

-- part_lba, the fields of s_block and b_groups that are used, the drive, and whether kmalloc has
-- memory.
pub record Volume : Type 0 where
  pub part_lba : ℕ
  pub first_data_block : ℕ
  pub inodes_per_group : ℕ
  pub inode_table : ℕ → ℕ
  pub drive : Drive
  pub memory : Bool

-- The little-endian numbers at a place.
abbrev pub le16 : List ℕ → ℕ → ℕ
le16 bytes i = get_or bytes i 0 + 256 * get_or bytes (i + 1) 0

abbrev pub le32 : List ℕ → ℕ → ℕ
le32 bytes i = le16 bytes i + 65536 * le16 bytes (i + 2)

unfoldable pub read_block : (block count size : ℕ) → Volume → Got
read_block block count size v =
    hd_read ((v.part_lba + ext2_bs / hd_sect_sz * block) % 2 ^ 32) (count * ext2_bs / hd_sect_sz)
      size v.drive

-- The `i`th inode of a block.
abbrev pub inode_at : List ℕ → ℕ → Inode
inode_at bytes i = record {
  mode = le16 bytes (i * inode_bytes);
  size = le32 bytes (i * inode_bytes + 4);
  block = λ k. le32 bytes (i * inode_bytes + 40 + 4 * k);
}

unfoldable pub read_inode : ℕ → Volume → Errno ⊎ Inode
unfolding read_block
read_inode ino v =
    let ino = (ino + (2 ^ 32 - v.first_data_block)) % 2 ^ 32 in
    let group = ino / v.inodes_per_group in
    let ino = ino % v.inodes_per_group in
    let per_block = ext2_bs / inode_bytes in
    elim (read_block (v.inode_table group + ino / per_block) 1 ext2_bs v) [
      | fail e ↦ inl e
      | got bytes ↦ inr (inode_at bytes (ino % per_block))
    ]

-- `struct block_iter`; the tables are the blocks that were read into them.
pub record BlockIter : Type 0 where
  pub inode : Inode
  pub index : ℕ
  pub l1 : Option (List ℕ)
  pub l2 : Option (List ℕ)
  pub l3 : Option (List ℕ)
  pub l1i : ℕ
  pub l2i : ℕ
  pub l3i : ℕ

abbrev pub block_iter_init : Inode → BlockIter
block_iter_init inode = record {
  inode = inode;
  index = 0;
  l1 = none;
  l2 = none;
  l3 = none;
  l1i = 0;
  l2i = 0;
  l3i = 0;
}

-- With a buffer or without.
unfoldable pub read_table : Bool → ℕ → Volume → Errno ⊎ List ℕ
unfolding read_block
read_table false idx_ino v = inl enomem
read_table true idx_ino v = elim (read_block idx_ino 1 ext2_bs v) [
  | fail e ↦ inl e
  | got bytes ↦ inr bytes
]

-- The table of a level: the one that is there, or the block `idx_ino`.
unfoldable pub load_table : (cached idx_ino : ℕ) → Option (List ℕ) → Volume → Errno ⊎ List ℕ
unfolding read_table
load_table cached idx_ino none v = read_table v.memory idx_ino v
load_table cached idx_ino (some bytes) v =
    if cached == idx_ino then inr bytes else read_table true idx_ino v

unfoldable pub block_iter_l1 : (idx_ino offset count : ℕ) → Volume → BlockIter → Got × BlockIter
unfolding load_table read_block
block_iter_l1 idx_ino offset count v it =
    if idx_ino == 0 then (got [], it) else elim (load_table it.l1i idx_ino it.l1 v) [
      | inl e ↦ (fail e, it)
      | inr table ↦
          let it : BlockIter = record it { l1 = some table } in
          let entry = le32 table (4 * offset) in
          if entry == 0 then (got [], it) else (read_block entry 1 count v, it)
    ]

unfoldable pub block_iter_l2 : (idx_ino offset count : ℕ) → Volume → BlockIter → Got × BlockIter
unfolding load_table block_iter_l1
block_iter_l2 idx_ino offset count v it =
    if idx_ino == 0 then (got [], it) else elim (load_table it.l2i idx_ino it.l2 v) [
      | inl e ↦ (fail e, it)
      | inr table ↦
          block_iter_l1 (offset / ino_cnt_pb) (offset % ino_cnt_pb) count v
            (record it { l2 = some table })
    ]

unfoldable pub block_iter_l3 : (idx_ino offset count : ℕ) → Volume → BlockIter → Got × BlockIter
unfolding load_table block_iter_l2
block_iter_l3 idx_ino offset count v it =
    if idx_ino == 0 then (got [], it) else elim (load_table it.l3i idx_ino it.l3 v) [
      | inl e ↦ (fail e, it)
      | inr table ↦
          block_iter_l2 (offset / (ino_cnt_pb * ino_cnt_pb)) (offset % (ino_cnt_pb * ino_cnt_pb))
            count v (record it { l3 = some table })
    ]

abbrev pub next : Got × BlockIter → Got × BlockIter
next (res, it) = (res, record it { index = it.index + 1 })

unfoldable pub block_read_iter : ℕ → Volume → BlockIter → Got × BlockIter
unfolding read_block block_iter_l1 block_iter_l2 block_iter_l3
block_read_iter count v it =
    let block = it.inode.block in
    let square = ino_cnt_pb * ino_cnt_pb in
    let l1 = ext2_b_l1_idx in
    if ltb it.index l1
    then if block it.index == 0
      then (got [], it)
      else next (read_block (block it.index) 1 count v, it)
    else if ltb it.index (l1 + ino_cnt_pb)
    then next (block_iter_l1 (block l1) (it.index - l1) count v it)
    else if ltb it.index (l1 + square)
    then next (block_iter_l2 (block ext2_b_l2_idx) (it.index - (l1 + ino_cnt_pb)) count v it)
    else if ltb it.index (l1 + square * ino_cnt_pb)
    then next (block_iter_l3 (block ext2_b_l3_idx) (it.index - (l1 + square)) count v it)
    else (fail einval, it)

abbrev pub in_front : List ℕ → Option Got → Option Got
in_front bytes none = none
in_front bytes (some (fail e)) = some (fail e)
in_front bytes (some (got more)) = some (got (bytes ++ more))

-- The loop of ext2_f_read; `none` is a loop that has not ended.
unfoldable pub read_blocks : (rounds offset count : ℕ) → Volume → BlockIter → Option Got
read_blocks zero offset count v it = none
read_blocks (suc rounds) offset count v it =
    let (res, it) = block_read_iter (count - offset) v it in
    elim res [
      | fail e ↦ some (fail e)
      | got bytes ↦
          let more = read_blocks rounds (offset + length bytes) count v it in
          if length bytes == 0 then some (got []) else in_front bytes more
    ]

unfoldable pub ext2_f_read : (rounds count : ℕ) → Volume → Inode → Option Got
unfolding read_blocks
ext2_f_read rounds count v inode = read_blocks rounds 0 count v (block_iter_init inode)
