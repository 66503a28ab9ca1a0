-- ===== src/Devices/Tests.antt =====
-- Devices and nodes at a concrete system.
use neux_os.Prelude.{
  ℕ, ◌<◌, ◌≤◌, ◌≡◌, ◌≢◌, ◌⊎◌, refl, true, Bool-cases, inl, inr, none, some, [], ◌∷◌, ◌==◌,
  if◌then◌else◌, arith,
}
use neux_os.Strings.{strcmp}
use neux_os.Bitmap.Free.{is_used}
use neux_os.Devices.{
  Dev, Devfs, error, value, eexist, enfile, overflow, cdev, dev_lookup, dev_add, dev_del,
  devfs_i_lookup, devfs_mknod, devfs_f_transfer,
}
use neux_os.Devices.Registry.{IsRegistry, dev_add-dev_del}
use neux_os.Devices.{Cursor, rest_of}
use neux_os.Devices.Listing.{dirent_of, sys_getdents, sys_getdents-take}
use neux_os.Devices.Nodes.{NoneHas, devfs_mknod-lookup}

abbrev tty0 : Dev
tty0 = record { self = 0xc0300000; rc = 1; dno = 256; type = cdev }

abbrev tty1 : Dev
tty1 = record { self = 0xc0300100; rc = 1; dno = 257; type = cdev }

dev_add-dev_del_example :
    ((e : Dev) × (dev_lookup 257 (tty0 ∷ []) ≡ some e)
      × (dev_add tty1 (tty0 ∷ []) ≡ (error eexist, tty0 ∷ [])))
    ⊎ ((dev_lookup 257 (tty0 ∷ []) ≡ none)
        × (dev_add tty1 (tty0 ∷ []) ≡ (value 0, tty0 ∷ tty1 ∷ []))
        × IsRegistry (tty0 ∷ tty1 ∷ [])
        × ((n : ℕ)
            → dev_lookup n (tty0 ∷ tty1 ∷ [])
              ≡ (if 257 == n then some tty1 else dev_lookup n (tty0 ∷ [])))
        × (dev_del 257 (tty0 ∷ tty1 ∷ []) ≡ (some tty1, tty0 ∷ [])))
dev_add-dev_del_example = dev_add-dev_del tty1 (tty0 ∷ []) (tt, tt) ((λ e. omega (arith, e)), tt)

-- The root has the number 0; "tty0" has the number 1.
abbrev devfs : Devfs
devfs = record {
  at = λ n. record { name = 116 ∷ 116 ∷ 121 ∷ 48 ∷ []; dno = 256; ino = 1 };
  nodes = 0xc0400000 ∷ [];
  bitmap = record { size = 1024; bits = λ i. if i == 0 then 3 else 0 };
  size = 56;
}

abbrev cursor : Cursor
cursor = record { buf = none; off = 0 }

devfs_bytes : (i : ℕ) → devfs.bitmap.bits i < 256
devfs_bytes i = elim (Bool-cases (i == 0)) [
  | inl e ↦ rw e (omega arith)
  | inr ne ↦ rw ne (omega arith)
]

-- "tty1"
devfs_mknod-lookup_example :
    ((devfs_mknod 0xc0400100 (116 ∷ 116 ∷ 121 ∷ 49 ∷ []) 257 devfs ≡ (error enfile, devfs))
      × ((j : ℕ) → j < 1024 → is_used devfs.bitmap j ≡ true))
    ⊎ ((s' : Devfs) × (devfs_mknod 0xc0400100 (116 ∷ 116 ∷ 121 ∷ 49 ∷ []) 257 devfs ≡ (value 0, s'))
        × (devfs_i_lookup (116 ∷ 116 ∷ 121 ∷ 49 ∷ []) s'.at s'.nodes ≡ some 0xc0400100)
        × NoneHas (s'.at 0xc0400100).ino devfs.at devfs.nodes
        × ((n : ℕ) → n ≢ 0xc0400100 → s'.at n ≡ devfs.at n)
        × (devfs_f_transfer (λ d. value 5) 0xc0400100 s'.at (tty0 ∷ tty1 ∷ []) ≡ value 5))
unfolding devfs_i_lookup strcmp dev_lookup
devfs_mknod-lookup_example =
    devfs_mknod-lookup 0xc0400100 (116 ∷ 116 ∷ 121 ∷ 49 ∷ []) 257 devfs (λ d. value 5) tty1
      (tty0 ∷ tty1 ∷ []) (omega arith) (λ e. omega (arith, e)) (omega arith) (omega arith)
      devfs_bytes (((λ e. omega (arith, e)), refl), tt) refl refl refl

-- A name of 16 characters does not fit.
sixteen :
    (devfs_mknod 0xc0400100
      (97 ∷ 97 ∷ 97 ∷ 97 ∷ 97 ∷ 97 ∷ 97 ∷ 97 ∷ 97 ∷ 97 ∷ 97 ∷ 97 ∷ 97 ∷ 97 ∷ 97 ∷ 97 ∷ [])
      257
      devfs).0
    ≡ error overflow
unfolding devfs_mknod
sixteen = refl

-- A buffer for two entries, with one node.
sys_getdents-take_example :
    ((sys_getdents 28 56 devfs cursor).1 ≡ dirent_of devfs.at 0xc0400000 ∷ [])
    × (rest_of devfs.nodes (sys_getdents 28 56 devfs cursor).2.buf ≡ [])
    × (2 ≤ 1 → (sys_getdents 28 56 devfs cursor).0 ≡ 56)
    × (1 < 2 → (sys_getdents 28 56 devfs cursor).0 ≡ 0)
sys_getdents-take_example = sys_getdents-take 28 56 devfs cursor (omega arith)
