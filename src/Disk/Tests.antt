-- ===== src/Disk/Tests.antt =====
-- The drive at concrete sectors.
use neux_os.Prelude.{take, ℕ, ◌+◌, ◌≡◌, true, arith}
use neux_os.Disk.{got, hd_read}
use neux_os.Disk.Sectors.{sectors_bytes, answering, hd_read-take}

abbrev counted : ℕ → ℕ → ℕ
counted sector i = sector + i

-- An odd number of bytes, over the end of the first sector.
hd_read-take_example :
    hd_read 7 2 515 (answering counted true)
    ≡ got (take 515 (sectors_bytes 2 7 (answering counted true)))
hd_read-take_example = hd_read-take 7 2 515 counted true (omega arith) (omega arith) (omega arith)
