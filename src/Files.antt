-- ===== src/Files.antt =====
-- fs/file.c and fs/fs.c: open files, and the descriptors of the running task.
pub mod Open
mod Tests
use neux_os.Prelude.{
  ℕ, zero, suc, ◌+◌, ◌-◌, ◌%◌, ◌^◌, Bool, not, List, [], ◌∷◌, ◌++◌, Option, none, some, ◌==◌, ltb,
  leb, if◌then◌else◌,
}
use neux_os.Links.{null, update}

-- NR_TASK_FILES
abbrev pub nr_task_files : ℕ
nr_task_files = 256

-- The errors; `minus_one` is a plain -1, and `driver` one that a file system gives.
pub data FileError : Type 0 where
  einval ebadfd emfile enotsup enoent eperm enomem minus_one : FileError
  driver : ℕ → FileError

-- What a call returns: a negated error, or a number.
pub data Ret : Type 0 where
  error : FileError → Ret
  value : ℕ → Ret

-- `struct file`
pub record File : Type 0 where
  pub rc : ℕ
  pub off : ℕ
  pub dent : ℕ

-- The files by address, current->files, and the calls of dentry_release, of the operation close and
-- of kfree, each with its argument.
pub record Files : Type 0 where
  pub at : ℕ → File
  pub table : ℕ → ℕ
  pub released : List ℕ
  pub closed : List ℕ
  pub freed : List ℕ

-- What vfs_lookup and kmalloc return, NULL among it, and whether a mount is found for the entry.
pub record Found : Type 0 where
  pub dent : ℕ
  pub mounted : Bool
  pub memory : ℕ

-- dentry_release, which does nothing for NULL.
abbrev pub release_dentry : ℕ → Files → Files
release_dentry dent s = if dent == null then s else record s { released = s.released ++ dent ∷ [] }

-- The file, or NULL; errno counts only with NULL.
unfoldable pub vfs_open : Found → Files → ℕ × FileError × Files
vfs_open found s =
    if found.dent == null
    then (null, enoent, release_dentry found.dent s)
    else if not found.mounted
    then (null, eperm, release_dentry found.dent s)
    else if found.memory == null
    then (null, enomem, release_dentry found.dent s)
    else (
      found.memory,
      minus_one,
      record s { at = update s.at found.memory (record { rc = 1; off = 0; dent = found.dent }) },
    )

-- `has_close` is whether the file system has the operation.
unfoldable pub vfs_close : (has_close : Bool) → ℕ → Files → Ret × Files
vfs_close has_close pfile s =
    let file = s.at pfile in
    let rc = (file.rc + (2 ^ 16 - 1)) % 2 ^ 16 in
    let s : Files = record s { at = update s.at pfile (record file { rc = rc }) } in
    if not (rc == 0)
    then (value 0, s)
    else let s = release_dentry file.dent s in
      if not has_close
      then (error enotsup, s)
      else (value 0, record s { closed = s.closed ++ pfile ∷ []; freed = s.freed ++ pfile ∷ [] })

-- vfs_read and vfs_write; `result` is what the operation returns, if there is one.
unfoldable pub vfs_transfer : (result : Option Ret) → ℕ → Files → Ret × Files
vfs_transfer none pfile s = (error enotsup, s)
vfs_transfer (some (error e)) pfile s = (error e, s)
vfs_transfer (some (value n)) pfile s =
    let file = s.at pfile in
    (value n, record s { at = update s.at pfile (record file { off = (file.off + n) % 2 ^ 32 }) })

-- sys_read and sys_write; `fd` is not negative.
unfoldable pub sys_transfer : (result : Option Ret) → ℕ → Files → Ret × Files
unfolding vfs_transfer
sys_transfer result fd s =
    if leb nr_task_files fd
    then (error einval, s)
    else if s.table fd == null
    then (error ebadfd, s)
    else vfs_transfer result (s.table fd) s

-- The loop of sys_open.
unfoldable pub free_fd : (rounds i : ℕ) → (ℕ → ℕ) → Option ℕ
free_fd zero i table = none
free_fd (suc rounds) i table =
    let later = free_fd rounds (i + 1) table in if table i == null then some i else later

unfoldable pub open_at : Found → ℕ → Files → Ret × Files
unfolding vfs_open
open_at found fd s =
    let (pfile, errno, s) = vfs_open found s in
    let s : Files = record s { table = update s.table fd pfile } in
    if pfile == null then (error errno, s) else (value fd, s)

unfoldable pub sys_open : Found → Files → Ret × Files
unfolding free_fd open_at
sys_open found s = elim (free_fd nr_task_files 0 s.table) [
  | none ↦ (error emfile, s)
  | some fd ↦ open_at found fd s
]

-- After vfs_close: the descriptor is cleared if that has returned 0.
abbrev pub clear_fd : ℕ → Ret × Files → Ret × Files
clear_fd fd (error e, s) = (error e, s)
clear_fd fd (value zero, s) = (value 0, record s { table = update s.table fd null })
clear_fd fd (value (suc n), s) = (value (suc n), s)

-- `fd` is a descriptor of the table; sys_close does not test that.
unfoldable pub sys_close : (has_close : Bool) → ℕ → Files → Ret × Files
unfolding vfs_close
sys_close has_close fd s =
    if s.table fd == null
    then (error minus_one, s)
    else clear_fd fd (vfs_close has_close (s.table fd) s)
