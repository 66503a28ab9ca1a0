-- ===== src/Tasks/Chdir.antt =====
-- The working directory of a task.
use neux_os.Prelude.{
  ℕ, ◌+◌, ◌*◌, ◌%◌, ◌^◌, ◌<◌, ◌≡◌, ◌≢◌, refl, ap, ◌∙◌, Bool, true, false, ◌==◌, ==_ne, leb, not,
  if◌then◌else◌, arith, List, length,
}
use neux_os.Links.{null}
use neux_os.Files.{FileError, Files, Found, vfs_open, vfs_close}
use neux_os.Files.Open.{all_found}
use neux_os.Tasks.{Task}
use neux_os.Tasks.Born.{new_file, vfs_open-found}
use neux_os.Tasks.Count.{count, one_if, AllSmall, vfs_close-count}

-- 0, -ENAMETOOLONG, the errno of vfs_open, and -ENOTDIR
pub data Chdir : Type 0 where
  changed name_too_long not_dir : Chdir
  not_opened : FileError → Chdir

-- `found` is what vfs_open finds for the path, `is_dir` whether its inode has S_IFDIR, and `has_close`
-- whether the file system of a file has the operation.
unfoldable pub task_chdir :
    (has_close : ℕ → Bool)
    → Found
    → (is_dir : Bool) → (path : List ℕ) → Task
    → Files
    → Chdir × Task × Files
task_chdir has_close found is_dir path task s =
    let (dir, errno, opened) = vfs_open found s in
    if leb 255 (length path)
    then (name_too_long, task, s)
    else if dir == null
    then (not_opened errno, task, opened)
    else if not is_dir
    then (not_dir, task, (vfs_close (has_close dir) dir opened).1)
    else (changed, record task { cwd = dir }, (vfs_close (has_close task.cwd) task.cwd opened).1)

-- The counts with a new file that has one reference, and one reference less to the file `q`.
abbrev pub closed_count : (memory q : ℕ) → Files → ℕ → ℕ
closed_count memory q s p =
    ((if p == memory then 1 else count s p) + 65535 * one_if (p == q)) % 2 ^ 16

close-count :
    (has_close : Bool) (dent memory q p : ℕ) (s : Files)
    → AllSmall s
    → count (vfs_close has_close q (new_file dent memory s)).1 p ≡ closed_count memory q s p
close-count has_close dent memory q p s small =
    let opened = new_count (p == memory) in
    vfs_close-count has_close q p (new_file dent memory s) (bound (p == memory) opened)
    ∙ ap (λ (c : ℕ). (c + 65535 * one_if (p == q)) % 2 ^ 16) opened
  where
    new_count :
        (b : Bool)
        → (if b then record { rc = 1; off = 0; dent = dent } else s.at p).rc
          ≡ (if b then 1 else count s p)
    new_count true = refl
    new_count false = refl

    bound :
        (b : Bool)
        → (if b then record { rc = 1; off = 0; dent = dent } else s.at p).rc
          ≡ (if b then 1 else count s p)
        → (if b then record { rc = 1; off = 0; dent = dent } else s.at p).rc < 2 ^ 16
    bound true e = omega arith
    bound false e = small p

-- With a path of fewer than 255 characters that is found and has memory for its file, for counts of 16
-- bits: if it is no directory, the task keeps its working directory, and the new file has lost its
-- one reference. Otherwise the new file is the working directory and has one reference, and the old
-- one has one less. No other count changes.
pub task_chdir-count :
    (has_close : ℕ → Bool) (dent memory : ℕ) (is_dir : Bool) (path : List ℕ) (task : Task)
    (s : Files)
    → length path < 255
    → dent ≢ 0
    → memory ≢ 0
    → AllSmall s
    → (s' : Files) × (task_chdir has_close (all_found dent memory) is_dir path task s
        ≡ (if is_dir then (changed, record task { cwd = memory }, s') else (not_dir, task, s')))
      × ((p : ℕ) → count s' p ≡ closed_count memory (if is_dir then task.cwd else memory) s p)
unfolding task_chdir
task_chdir-count has_close dent memory true path task s short some_dent some_memory small =
    let opened = vfs_open-found dent memory s some_dent some_memory in
    let fits : leb 255 (length path) ≡ false = ground arith in
    (
      (vfs_close (has_close task.cwd) task.cwd (new_file dent memory s)).1,
      rw (task_chdir, fits, ap (λ r. r.0) opened, ap (λ r. r.2) opened, ==_ne memory 0 some_memory)
          refl,
      λ p. close-count (has_close task.cwd) dent memory task.cwd p s small,
    )
task_chdir-count has_close dent memory false path task s short some_dent some_memory small =
    let opened = vfs_open-found dent memory s some_dent some_memory in
    let fits : leb 255 (length path) ≡ false = ground arith in
    (
      (vfs_close (has_close memory) memory (new_file dent memory s)).1,
      rw (task_chdir, fits, ap (λ r. r.0) opened, ap (λ r. r.2) opened, ==_ne memory 0 some_memory)
          refl,
      λ p. close-count (has_close memory) dent memory memory p s small,
    )
