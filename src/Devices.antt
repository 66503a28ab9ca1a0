-- ===== src/Devices.antt =====
-- dev/dev.c: the devices by their numbers, and the file system of their nodes.
pub mod Registry
pub mod Nodes
pub mod Listing
mod Tests
use neux_os.Prelude.{
  ℕ, zero, suc, ◌+◌, ◌%◌, ◌^◌, Bool, true, false, not, Option, none, some, List, [], ◌∷◌, ◌++◌,
  ◌==◌, ltb, if◌then◌else◌,
}
use neux_os.Prelude.{length, drop}
use neux_os.Links.{null, update}
use neux_os.Strings.{strlen, strcmp}
use neux_os.Dentry.{dname_max_len}
use neux_os.Bitmap.{Bitmap, bitmap_init, bitmap_get, bitmap_put}

-- DEV_T_CDEV and DEV_T_BLK
pub data DevType : Type 0 where
  cdev blk : DevType

-- `struct dev` with its address `self`, without its links and the data of its driver.
pub record Dev : Type 0 where
  pub self : ℕ
  pub rc : ℕ
  pub dno : ℕ
  pub type : DevType

-- The errors; `driver` is one that a device gives. `overflow` stands for a copy of a name that writes
-- behind its array: what the code does from there on is not defined, and the model ends.
pub data DevError : Type 0 where
  eexist enoent enodev enotsup enfile enomem eof overflow : DevError
  driver : ℕ → DevError

pub data DevRet : Type 0 where
  error : DevError → DevRet
  value : ℕ → DevRet

-- On the list `dev_list`.
unfoldable pub dev_lookup : (dno : ℕ) → List Dev → Option Dev
dev_lookup dno [] = none
dev_lookup dno (d ∷ ds) = let rest = dev_lookup dno ds in if d.dno == dno then some d else rest

-- LIST_ADD puts the node at the end.
unfoldable pub dev_add : Dev → List Dev → DevRet × List Dev
dev_add d ds = elim (dev_lookup d.dno ds) [
  | some _ ↦ (error eexist, ds)
  | none ↦ (value 0, ds ++ d ∷ [])
]

-- LIST_DEL of the device at an address.
unfoldable pub unlink : (self : ℕ) → List Dev → List Dev
unlink self [] = []
unlink self (d ∷ ds) = let rest = unlink self ds in if d.self == self then ds else d ∷ rest

-- The device, or NULL.
unfoldable pub dev_del : (dno : ℕ) → List Dev → Option Dev × List Dev
dev_del dno ds = elim (dev_lookup dno ds) [
  | none ↦ (none, ds)
  | some d ↦ (some d, unlink d.self ds)
]

-- Whether strcpy of a name, with its NUL, stays in an array of DNAME_MAX_LEN bytes.
abbrev pub fits : (name : List ℕ) → Bool
fits name = ltb (strlen name) dname_max_len

-- `struct dev_inode`, of which devfs_i_create sets `name` and `ino`. `name` is the string in its array
-- of DNAME_MAX_LEN bytes.
pub record DevInode : Type 0 where
  pub name : List ℕ
  pub dno : ℕ
  pub ino : ℕ

-- The nodes by address, inode_list, inode_bitmap, and the size of the directory.
pub record Devfs : Type 0 where
  pub at : ℕ → DevInode
  pub nodes : List ℕ
  pub bitmap : Bitmap
  pub size : ℕ

-- sizeof(struct dev_inode)
abbrev pub sizeof_dev_inode : ℕ
sizeof_dev_inode = 56

-- `memory` is what kmalloc returns.
unfoldable pub devfs_i_create : (memory : ℕ) → (name : List ℕ) → Devfs → DevRet × Devfs
devfs_i_create memory name s =
    let (ino, bitmap) = bitmap_get s.bitmap in
    elim ino [
      | none ↦ (error enfile, record s { bitmap = bitmap })
      | some ino ↦
          if memory == null
          then (error enomem, record s { bitmap = bitmap_put ino bitmap })
          else if not (fits name)
          then (error overflow, record s { bitmap = bitmap })
          else (
            value 0,
            record {
              at = update s.at memory (record (s.at memory) { name = name; ino = ino });
              nodes = s.nodes ++ memory ∷ [];
              bitmap = bitmap;
              size = (s.size + sizeof_dev_inode) % 2 ^ 32;
            },
          )
    ]

-- The node, or -ENOENT.
unfoldable pub devfs_i_lookup : (name : List ℕ) → (ℕ → DevInode) → List ℕ → Option ℕ
devfs_i_lookup name at [] = none
devfs_i_lookup name at (n ∷ ns) =
    let rest = devfs_i_lookup name at ns in if strcmp (at n).name name == 0 then some n else rest

-- devfs_mknod with the last part of the path, which it copies into the array of an entry of its own,
-- in a directory that vfs_lookup finds.
unfoldable pub devfs_mknod : (memory : ℕ) → (name : List ℕ) → (dno : ℕ) → Devfs → DevRet × Devfs
devfs_mknod memory name dno s =
    let (ret, s') = devfs_i_create memory name s in
    if not (fits name) then (error overflow, s) else elim ret [
      | error e ↦ (error e, s')
      | value _ ↦
          (value 0, record s' { at = update s'.at memory (record (s'.at memory) { dno = dno }) })
    ]

-- devfs_f_read and devfs_f_write of the file of a node; `result` is what the device's operation
-- returns.
unfoldable pub devfs_f_transfer :
    (result : Dev → DevRet) → (node : ℕ) → (ℕ → DevInode) → List Dev → DevRet
devfs_f_transfer result node at ds = elim (dev_lookup (at node).dno ds) [
  | none ↦ error enodev
  | some d ↦ elim d.type [ cdev ↦ result d | blk ↦ error enotsup ]
]

-- `struct dirent`, as devfs_f_readdir fills it, and `buf` and `off` of the file: the node at which the
-- list goes on, with `[]` for its head and `none` for NULL.
pub record Dirent : Type 0 where
  pub d_ino : ℕ
  pub d_reclen : ℕ
  pub d_name : List ℕ

pub record Cursor : Type 0 where
  pub buf : Option (List ℕ)
  pub off : ℕ

-- The rest of the list, from the head if there is no cursor yet.
abbrev pub rest_of : List ℕ → Option (List ℕ) → List ℕ
rest_of nodes none = nodes
rest_of nodes (some ns) = ns

-- `none` is -EOF.
unfoldable pub devfs_f_readdir : Devfs → Cursor → Option Dirent × Cursor
devfs_f_readdir s c = elim (rest_of s.nodes c.buf) [
  | [] ↦ (none, record c { buf = some [] })
  | n ∷ ns ↦ (
    some (record { d_ino = (s.at n).ino; d_reclen = sizeof_dev_inode; d_name = (s.at n).name }),
    record { buf = some ns; off = (c.off + sizeof_dev_inode) % 2 ^ 32 },
  )
]

-- dev_init, of a device whose number and type are set.
abbrev pub dev_init : Dev → Dev
dev_init d = record d { rc = 1 }

-- The bitmap of devfs_setup, in which 0 is taken for the root.
unfoldable pub first_bitmap : Bitmap → Bitmap
first_bitmap memory = (bitmap_get (bitmap_init 1024 memory)).1
