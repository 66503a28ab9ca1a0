-- ===== src/Ext2/File.antt =====
-- Files read whole.
use neux_os.Prelude.{
  take, ℕ, zero, suc, ◌+◌, ◌-◌, ◌*◌, ◌^◌, ◌<◌, ◌≤◌, ◌≡◌, refl, ap, sym, subst, ◌∙◌, inl, inr, Bool,
  false, Bool-cases, Option, none, some, List, [], ◌∷◌, ◌++◌, length, ◌==◌, arith,
}
use neux_os.Disk.{got}
use neux_os.Disk.Sectors.{take-append, take_left, length-take_le}
use neux_os.Ext2.{Inode, Volume, BlockIter, block_read_iter, in_front, read_blocks, ext2_f_read}
use neux_os.Ext2.Block.{
  block_bytes, file_block, contents, Works, IsMapped, length-block_bytes, placed,
  block_read_iter-block, block_read_iter-nothing,
}

read_blocks_end :
    (rounds offset count : ℕ) (v : Volume) (it : BlockIter)
    → (block_read_iter (count - offset) v it).0 ≡ got []
    → read_blocks (suc rounds) offset count v it ≡ some (got [])
unfolding read_blocks
read_blocks_end rounds offset count v it e = rw (read_blocks, e) refl

read_blocks_step :
    (rounds offset count : ℕ) (v : Volume) (it it' : BlockIter) (bytes : List ℕ)
    → block_read_iter (count - offset) v it ≡ (got bytes, it')
    → 0 < length bytes
    → read_blocks (suc rounds) offset count v it
      ≡ in_front bytes (read_blocks rounds (offset + length bytes) count v it')
unfolding read_blocks
read_blocks_step rounds offset count v it it' bytes e h =
    let some_bytes : (length bytes == 0) ≡ false = ground arith in
    let res = ap (λ r. r.0) e in
    let after = ap (λ r. r.1) e in rw (read_blocks, res, some_bytes, after) refl

take_some : (k : ℕ) (xs : List ℕ) → 0 < k → 0 < length xs → 0 < length (take k xs)
take_some zero xs h some_bytes = absurd (omega arith)
take_some (suc k) [] h some_bytes = absurd (omega arith)
take_some (suc k) (x ∷ xs) h some_bytes = omega arith

module _ (v : Volume) (words : ℕ → ℕ → ℕ) (on : Bool) (w : Works v words on) (inode : Inode) where
  read_blocks-contents :
      (m i offset count : ℕ) (table : Option (List ℕ))
      → i + m ≤ 267
      → offset ≤ count
      → count - offset ≤ 1024 * m
      → count < 2 ^ 32 - 1
      → IsMapped v inode (i + m)
      → read_blocks (suc m) offset count v (placed inode i table)
        ≡ some (got (take (count - offset) (contents m i v inode)))
  read_blocks-contents zero i offset count table top le fits small mapped =
      let ended : count - offset ≡ 0 = omega arith in
      read_blocks_end zero offset count v (placed inode i table) (
        ap (λ k. (block_read_iter k v (placed inode i table)).0) ended
        ∙ block_read_iter-nothing v words on w inode i table (omega arith))
      ∙ ap (λ k. some (got (take {A = ℕ} k []))) (sym ended)
  read_blocks-contents (suc m) i offset count table top le fits small mapped =
      let k = count - offset in
      let block = block_bytes v (file_block v inode i) in
      let size = length-block_bytes v (file_block v inode i) in
      let (table', read) =
        block_read_iter-block v words on w inode i (i + suc m) k table (omega arith) (omega arith)
          mapped (omega arith) in
      elim (Bool-cases (k == 0)) [
        | inl ended ↦
            let none_left : k ≡ 0 = ground (arith, ended) in
            read_blocks_end (suc m) offset count v (placed inode i table)
              (ap (λ r. r.0) read ∙ ap (λ n. got (take n block)) none_left)
            ∙ ap (λ n. some (got (take n (contents (suc m) i v inode)))) (sym none_left)
        | inr more ↦
            let some_left : 0 < k = ground (arith, more) in
            let taken = take_left k block in
            let short = length-take_le k block in
            let left : count - (offset + length (take k block)) ≡ k - length block =
              omega (arith, taken) in
            let place : i + 1 + m ≡ i + suc m = omega arith in
            let later =
              read_blocks-contents m (i + 1) (offset + length (take k block)) count table'
                (omega arith) (omega (arith, short)) (omega (arith, left, size)) small
                (subst (λ n. IsMapped v inode n) (sym place) mapped) in
            read_blocks_step (suc m) offset count v (placed inode i table)
              (placed inode (i + 1) table') (take k block) read
              (take_some k block some_left (omega (arith, size)))
            ∙ ap (in_front (take k block)) later
            ∙ ap (λ n. some (got (take k block ++ take n (contents m (i + 1) v inode)))) left
            ∙ ap (λ xs. some (got xs)) (sym (take-append k block (contents m (i + 1) v inode)))
      ]

-- A read of a file of which no block is a hole gives the bytes of its blocks in their order, as many
-- as are asked for: up to 267 blocks, which are the direct ones and those of the first table but the
-- last. One round more than there are blocks is enough.
pub ext2_f_read-contents :
    (v : Volume) (words : ℕ → ℕ → ℕ) (interrupts : Bool) (inode : Inode) (n count : ℕ)
    → Works v words interrupts
    → n ≤ 267
    → IsMapped v inode n
    → count ≤ 1024 * n
    → ext2_f_read (suc n) count v inode ≡ some (got (take count (contents n 0 v inode)))
unfolding ext2_f_read
ext2_f_read-contents v words interrupts inode n count w top mapped fits =
    let none_before : 0 + n ≡ n = omega arith in
    let all : count - 0 ≡ count = omega arith in
    read_blocks-contents v words interrupts w inode n 0 0 count none (omega arith) (omega arith)
      (omega arith) (omega arith) (subst (λ k. IsMapped v inode k) (sym none_before) mapped)
    ∙ ap (λ k. some (got (take k (contents n 0 v inode)))) all
