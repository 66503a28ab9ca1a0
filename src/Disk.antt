-- ===== src/Disk.antt =====
-- drivers/harddisk/harddisk.c: reading sectors.
pub mod Sectors
mod Tests
use neux_os.Prelude.{
  ℕ, zero, suc, ◌+◌, ◌-◌, ◌*◌, ◌/◌, ◌%◌, ◌^◌, Bool, not, List, [], ◌∷◌, ◌++◌, length, ◌==◌, ltb,
  if◌then◌else◌,
}

pub data Errno : Type 0 where
  einval etimedout enomem : Errno

-- The bytes that a call has put into its buffer, or the error whose negative it gives.
pub data Got : Type 0 where
  fail : Errno → Got
  got : List ℕ → Got

-- What the hardware does: the words of each sector, whether the drive stops being busy and has data
-- within HD_TIMEOUT looks, and whether the caller has interrupts on.
pub record Drive : Type 0 where
  pub words : ℕ → ℕ → ℕ
  pub idle : Bool
  pub ready : Bool
  pub interrupts : Bool

-- CONFIG_HD_SECT_SZ
abbrev pub hd_sect_sz : ℕ
hd_sect_sz = 512

-- The loop of read_one_sector, from the `i`th word on, with `n` bytes stored.
unfoldable pub read_words : (rounds i n size : ℕ) → (ℕ → ℕ) → List ℕ
read_words zero i n size words = []
read_words (suc rounds) i n size words =
    let last = n == (size + (2 ^ 32 - 1)) % 2 ^ 32 in
    let fits = ltb n size in
    let bytes =
      if last
      then words i % 256 ∷ []
      else if fits
      then words i % 256 ∷ words i / 256 % 256 ∷ []
      else [] in
    let rest = read_words rounds (i + 1) (n + length bytes) size words in bytes ++ rest

unfoldable pub read_one_sector : (ℕ → ℕ) → ℕ → List ℕ
unfolding read_words
read_one_sector words size = read_words (hd_sect_sz / 2) 0 0 size words

-- The loop of do_read_sync, with `offset` bytes read.
unfoldable pub read_sync : (count sector offset size : ℕ) → Drive → List ℕ
unfolding read_one_sector
read_sync zero sector offset size d = []
read_sync (suc count) sector offset size d =
    let bytes = read_one_sector (d.words sector) (size - offset) in
    let rest = read_sync count (sector + 1) (offset + length bytes) size d in
    if ltb offset size then bytes ++ rest else []

unfoldable pub do_read_sync : (count sector size : ℕ) → Drive → Got
unfolding read_sync
do_read_sync count sector size d =
    if d.ready then got (read_sync count sector 0 size d) else fail etimedout

-- The loop of do_read_async; the interrupt of each sector wakes it.
unfoldable pub read_async : (count sector offset size : ℕ) → Drive → List ℕ
unfolding read_one_sector
read_async zero sector offset size d = []
read_async (suc count) sector offset size d =
    let bytes = read_one_sector (d.words sector) (size - offset) in
    let rest = read_async count (sector + 1) (offset + length bytes) size d in bytes ++ rest

-- `sector` has 28 bits, and `count` is a uint8_t.
unfoldable pub hd_read : (sector count size : ℕ) → Drive → Got
unfolding do_read_sync read_async
hd_read sector count size d =
    let n = count % 256 in
    let lba = sector % 2 ^ 28 in
    if n == 0
    then fail einval
    else if not d.idle
    then fail etimedout
    else if d.interrupts
    then got (read_async n lba 0 size d)
    else do_read_sync n lba size d
