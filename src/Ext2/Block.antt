-- ===== src/Ext2/Block.antt =====
-- One block of a file, as the iterator reads it.
use neux_os.Prelude.{
  take, ℕ, zero, suc, ◌+◌, ◌-◌, ◌*◌, ◌%◌, ◌^◌, ◌<◌, ◌≡◌, ◌≢◌, refl, ap, sym, subst, ◌∙◌, inl, inr,
  Bool, true, false, Bool-cases, Option, none, some, List, [], ◌++◌, length, length-append, ◌==◌,
  ==_ne, ltb, if◌then◌else◌, arith,
}
use neux_os.Disk.{got, Drive, hd_read}
use neux_os.Disk.Sectors.{
  take-all, sector_bytes, sectors_bytes, length-sector_bytes, answering, hd_read-take,
}
use neux_os.Ext2.{
  Inode, Volume, le32, read_block, BlockIter, read_table, load_table, block_iter_l1,
  block_read_iter,
}

-- The 1024 bytes of a block of the volume, on a drive whose addresses have 28 bits.
abbrev pub block_bytes : Volume → ℕ → List ℕ
block_bytes v b = sectors_bytes 2 ((v.part_lba + 2 * b) % 2 ^ 32 % 2 ^ 28) v.drive

-- The block that holds the `i`th 1024 bytes of a file: a direct one, or one of the first table.
abbrev pub file_block : Volume → Inode → ℕ → ℕ
file_block v inode i =
    if ltb i 12 then inode.block i else le32 (block_bytes v (inode.block 12)) (4 * (i - 12))

abbrev pub contents : (blocks i : ℕ) → Volume → Inode → List ℕ
contents zero i v inode = []
contents (suc blocks) i v inode =
    block_bytes v (file_block v inode i) ++ contents blocks (i + 1) v inode

-- A volume whose drive answers, while kmalloc has memory.
pub record Works (v : Volume) (words : ℕ → ℕ → ℕ) (interrupts : Bool) : Type 0 where
  pub drive : v.drive ≡ answering words interrupts
  pub memory : v.memory ≡ true

-- No block of the file before `n`, and no table for them, is a hole.
pub record IsMapped (v : Volume) (inode : Inode) (n : ℕ) : Type 0 where
  pub blocks : (i : ℕ) → i < n → file_block v inode i ≢ 0
  pub table : 12 < n → inode.block 12 ≢ 0

pub length-block_bytes : (v : Volume) (b : ℕ) → length (block_bytes v b) ≡ 1024
length-block_bytes v b =
    let s = (v.part_lba + 2 * b) % 2 ^ 32 % 2 ^ 28 in
    let first = sector_bytes (v.drive.words s) in
    let second = sector_bytes (v.drive.words (s + 1)) in
    omega (
      arith,
      length-append first (second ++ []),
      length-append second [],
      length-sector_bytes (v.drive.words s),
      length-sector_bytes (v.drive.words (s + 1)),
    )

pub read_block-take :
    (v : Volume) (words : ℕ → ℕ → ℕ) (on : Bool) (b size : ℕ)
    → Works v words on
    → size < 2 ^ 32 - 1
    → read_block b 1 size v ≡ got (take size (block_bytes v b))
unfolding read_block
read_block-take v words on b size w small =
    let s = (v.part_lba + 2 * b) % 2 ^ 32 in
    ap (λ (d : Drive). hd_read s 2 size d) w.drive
    ∙ hd_read-take s 2 size words on (omega arith) (omega arith) small
    ∙ ap (λ (d : Drive). got (take size (sectors_bytes 2 (s % 2 ^ 28) d))) (sym w.drive)

read_table-block :
    (v : Volume) (words : ℕ → ℕ → ℕ) (on : Bool) (b : ℕ)
    → Works v words on
    → read_table true b v ≡ inr (block_bytes v b)
unfolding read_table
read_table-block v words on b w =
    let whole = take-all 1024 (block_bytes v b) (omega (arith, length-block_bytes v b)) in
    rw (read_table, read_block-take v words on b 1024 w (omega arith), whole) refl

pub load_table-block :
    (v : Volume) (words : ℕ → ℕ → ℕ) (on : Bool) (b : ℕ) (old : Option (List ℕ))
    → Works v words on
    → b ≢ 0
    → load_table 0 b old v ≡ inr (block_bytes v b)
unfolding load_table
load_table-block v words on b none w h =
    ap (λ m. read_table m b v) w.memory ∙ read_table-block v words on b w
load_table-block v words on b (some bytes) w h =
    let other : (0 == b) ≡ false = ground (arith, h) in rw other (read_table-block v words on b w)

block_iter_l1-block :
    (v : Volume) (words : ℕ → ℕ → ℕ) (on : Bool) (b offset size : ℕ) (it : BlockIter)
    → Works v words on
    → size < 2 ^ 32 - 1
    → b ≢ 0
    → it.l1i ≡ 0
    → le32 (block_bytes v b) (4 * offset) ≢ 0
    → block_iter_l1 b offset size v it ≡ (
      got (take size (block_bytes v (le32 (block_bytes v b) (4 * offset)))),
      record it { l1 = some (block_bytes v b) },
    )
unfolding block_iter_l1
block_iter_l1-block v words on b offset size it w small some_table fresh some_block =
    let idx = ==_ne b 0 some_table in
    let entry = ==_ne _ 0 some_block in
    let loaded : load_table it.l1i b it.l1 v ≡ inr (block_bytes v b) =
      ap (λ c. load_table c b it.l1 v) fresh ∙ load_table-block v words on b it.l1 w some_table in
    rw
      (
        block_iter_l1,
        idx,
        loaded,
        entry,
        read_block-take v words on (le32 (block_bytes v b) (4 * offset)) size w small,
      )
      refl

-- The iterator at the `i`th block, with what it has in its first table.
abbrev pub placed : Inode → ℕ → Option (List ℕ) → BlockIter
placed inode i table = record {
  inode = inode;
  index = i;
  l1 = table;
  l2 = none;
  l3 = none;
  l1i = 0;
  l2i = 0;
  l3i = 0;
}

module _ (v : Volume) (words : ℕ → ℕ → ℕ) (on : Bool) (w : Works v words on) (inode : Inode) where
  pub block_read_iter-block :
      (i n size : ℕ) (table : Option (List ℕ))
      → i < n
      → i < 268
      → IsMapped v inode n
      → size < 2 ^ 32 - 1
      → (table' : Option (List ℕ)) × (block_read_iter size v (placed inode i table)
          ≡ (got (take size (block_bytes v (file_block v inode i))), placed inode (i + 1) table'))
  unfolding block_read_iter
  block_read_iter-block i n size table h top mapped small = elim (Bool-cases (ltb i 12)) [
    | inl direct ↦
        let some_block : (inode.block i == 0) ≡ false =
          ==_ne _ 0 (subst (λ b. b ≢ 0) (rw direct refl) (mapped.blocks i h)) in
        (
          table,
          rw
              (
                block_read_iter,
                direct,
                some_block,
                read_block-take v words on (inode.block i) size w small,
              )
              refl,
        )
    | inr behind ↦
        let b = inode.block 12 in
        let in_table : ltb i 268 ≡ true = ground arith in
        let some_block : le32 (block_bytes v b) (4 * (i - 12)) ≢ 0 =
          subst (λ b. b ≢ 0) (rw behind refl) (mapped.blocks i h) in
        let one =
          block_iter_l1-block v words on b (i - 12) size (placed inode i table) w small
            (mapped.table (ground arith)) refl some_block in
        (some (block_bytes v b), rw (block_read_iter, behind, in_table, one) refl)
  ]

  pub block_read_iter-nothing :
      (i : ℕ) (table : Option (List ℕ))
      → i < 268
      → (block_read_iter 0 v (placed inode i table)).0 ≡ got []
  unfolding block_read_iter block_iter_l1
  block_read_iter-nothing i table top = elim (Bool-cases (ltb i 12)) [
    | inl direct ↦ elim (Bool-cases (inode.block i == 0)) [
      | inl hole ↦ rw (block_read_iter, direct, hole) refl
      | inr some_block ↦
          rw
            (
              block_read_iter,
              direct,
              some_block,
              read_block-take v words on (inode.block i) 0 w (omega arith),
            )
            refl
    ]
    | inr behind ↦
        let b = inode.block 12 in
        let in_table : ltb i 268 ≡ true = ground arith in
        elim (Bool-cases (b == 0)) [
          | inl hole ↦ rw (block_read_iter, behind, in_table, block_iter_l1, hole) refl
          | inr some_table ↦
              let loaded = load_table-block v words on b table w (ground arith) in
              let entry = le32 (block_bytes v b) (4 * (i - 12)) in
              elim (Bool-cases (entry == 0)) [
                | inl nothing ↦
                    rw
                      (
                        block_read_iter, behind, in_table, block_iter_l1, some_table, loaded,
                        nothing,
                      )
                      refl
                | inr some_block ↦
                    rw
                      (
                        block_read_iter,
                        behind,
                        in_table,
                        block_iter_l1,
                        some_table,
                        loaded,
                        some_block,
                        read_block-take v words on entry 0 w (omega arith),
                      )
                      refl
              ]
        ]
  ]
