-- ===== src/Tasks/Count.antt =====
-- How many references to a file a task has, and what the loops over its files do to the counts.
use neux_os.Prelude.{
  ℕ, zero, suc, ◌+◌, ◌*◌, ◌%◌, ◌^◌, ◌<◌, ◌≡◌, refl, ap, ◌∙◌, Bool, true, false, not, ◌&&◌,
  Bool-cases, inl, inr, ◌==◌, if◌then◌else◌, arith,
}
use neux_os.Links.{null, update}
use neux_os.Files.{File, Files, nr_task_files, vfs_close}
use neux_os.Tasks.{Task, obtain_file, obtain_files, share_files, close_files, drop_files, user}

abbrev pub count : Files → ℕ → ℕ
count s p = (s.at p).rc

abbrev pub one_if : Bool → ℕ
one_if b = if b then 1 else 0

-- How many of the descriptors from `i` on have the file.
unfoldable pub descriptors_of : (rounds i : ℕ) → (ℕ → ℕ) → (p : ℕ) → ℕ
descriptors_of zero i files p = 0
descriptors_of (suc rounds) i files p =
    one_if (not (files i == null) && p == files i) + descriptors_of rounds (i + 1) files p

rc_at :
    (at : ℕ → File) (q p : ℕ) (f : File)
    → (update at q f p).rc ≡ (if p == q then f.rc else (at p).rc)
rc_at at q p f = go (p == q)
  where
    go : (b : Bool) → (if b then f else at p).rc ≡ (if b then f.rc else (at p).rc)
    go true = refl
    go false = refl

-- A count that is changed by `n`, modulo 2 ^ 16.
changed :
    (at : ℕ → File) (n q p : ℕ)
    → (at p).rc < 2 ^ 16
    → (if p == q then ((at q).rc + n) % 2 ^ 16 else (at p).rc)
      ≡ ((at p).rc + n * one_if (p == q)) % 2 ^ 16
changed at n q p small = elim (Bool-cases (p == q)) [
  | inl e ↦
      let same : q ≡ p = ground (arith, e) in
      rw e (ap (λ k. ((at k).rc + n) % 2 ^ 16) same ∙ omega arith)
  | inr ne ↦ rw ne (omega arith)
]

obtain_file-count :
    (q p : ℕ) (s : Files)
    → count s p < 2 ^ 16
    → count (obtain_file q s) p ≡ (count s p + one_if (p == q)) % 2 ^ 16
obtain_file-count q p s small =
    let step =
      rc_at s.at q p (record (s.at q) { rc = ((s.at q).rc + 1) % 2 ^ 16 })
      ∙ changed s.at 1 q p small in
    omega (arith, step)

vfs_close-at :
    (has_close : Bool) (q : ℕ) (s : Files)
    → (vfs_close has_close q s).1.at
      ≡ update s.at q (record (s.at q) { rc = ((s.at q).rc + 65535) % 2 ^ 16 })
unfolding vfs_close
vfs_close-at has_close q s =
    let rc = ((s.at q).rc + 65535) % 2 ^ 16 in
    elim (Bool-cases (rc == 0)) [
      | inr more ↦ rw (vfs_close, more) refl
      | inl last ↦ elim (Bool-cases ((s.at q).dent == null)) [
        | inl no_dent ↦ elim (Bool-cases has_close) [
          | inl has ↦ rw (vfs_close, last, no_dent, has) refl
          | inr lacks ↦ rw (vfs_close, last, no_dent, lacks) refl
        ]
        | inr dent ↦ elim (Bool-cases has_close) [
          | inl has ↦ rw (vfs_close, last, dent, has) refl
          | inr lacks ↦ rw (vfs_close, last, dent, lacks) refl
        ]
      ]
    ]

pub vfs_close-count :
    (has_close : Bool) (q p : ℕ) (s : Files)
    → count s p < 2 ^ 16
    → count (vfs_close has_close q s).1 p ≡ (count s p + 65535 * one_if (p == q)) % 2 ^ 16
vfs_close-count has_close q p s small =
    ap (λ at. (at p).rc) (vfs_close-at has_close q s)
    ∙ rc_at s.at q p (record (s.at q) { rc = ((s.at q).rc + 65535) % 2 ^ 16 })
    ∙ changed s.at 65535 q p small

abbrev pub AllSmall : Files → Type 0
AllSmall s = (p : ℕ) → count s p < 2 ^ 16

obtain_file-small : (q : ℕ) (s : Files) → AllSmall s → AllSmall (obtain_file q s)
obtain_file-small q s small p = omega (arith, obtain_file-count q p s (small p))

vfs_close-small :
    (has_close : Bool) (q : ℕ) (s : Files) → AllSmall s → AllSmall (vfs_close has_close q s).1
vfs_close-small has_close q s small p = omega (arith, vfs_close-count has_close q p s (small p))

-- A round of the loop of clone_utask, and of the one of destroy_task.
abbrev obtain_one : ℕ → Files → Files
obtain_one q s = if q == null then s else obtain_file q s

abbrev close_one : (ℕ → Bool) → ℕ → Files → Files
close_one has_close q s = if q == null then s else (vfs_close (has_close q) q s).1

obtain_one-count :
    (q p : ℕ) (s : Files)
    → AllSmall s
    → count (obtain_one q s) p ≡ (count s p + one_if (not (q == null) && p == q)) % 2 ^ 16
obtain_one-count q p s small = elim (Bool-cases (q == null)) [
  | inl e ↦ rw e (omega (arith, small p))
  | inr ne ↦ rw ne (obtain_file-count q p s (small p))
]

close_one-count :
    (has_close : ℕ → Bool) (q p : ℕ) (s : Files)
    → AllSmall s
    → count (close_one has_close q s) p
      ≡ (count s p + 65535 * one_if (not (q == null) && p == q)) % 2 ^ 16
close_one-count has_close q p s small = elim (Bool-cases (q == null)) [
  | inl e ↦ rw e (omega (arith, small p))
  | inr ne ↦ rw ne (vfs_close-count (has_close q) q p s (small p))
]

obtain_files-count :
    (rounds i : ℕ) (files : ℕ → ℕ) (p : ℕ) (s : Files)
    → AllSmall s
    → count (obtain_files rounds i files s) p
      ≡ (count s p + descriptors_of rounds i files p) % 2 ^ 16
unfolding obtain_files descriptors_of
obtain_files-count zero i files p s small = omega (arith, small p)
obtain_files-count (suc rounds) i files p s small =
    let one = obtain_one-count (files i) p s small in
    let next : AllSmall (obtain_one (files i) s) =
      λ q. omega (arith, obtain_one-count (files i) q s small) in
    omega (arith, one, obtain_files-count rounds (i + 1) files p (obtain_one (files i) s) next)

close_files-count :
    (has_close : ℕ → Bool) (rounds i : ℕ) (files : ℕ → ℕ) (p : ℕ) (s : Files)
    → AllSmall s
    → count (close_files has_close rounds i files s) p
      ≡ (count s p + 65535 * descriptors_of rounds i files p) % 2 ^ 16
unfolding close_files descriptors_of
close_files-count has_close zero i files p s small = omega (arith, small p)
close_files-count has_close (suc rounds) i files p s small =
    let one = close_one-count has_close (files i) p s small in
    let next : AllSmall (close_one has_close (files i) s) =
      λ q. omega (arith, close_one-count has_close (files i) q s small) in
    omega (
      arith,
      one,
      close_files-count has_close rounds (i + 1) files p (close_one has_close (files i) s) next,
    )

-- The references of a user's task without the one of its working directory.
abbrev pub references : Task → ℕ → ℕ
references task p = one_if (p == task.exe) + descriptors_of nr_task_files 0 task.files p

below : (c n : ℕ) → c ≡ n % 2 ^ 16 → c < 2 ^ 16
below c n e = omega (arith, e)

in_sum :
    (c0 c1 c2 c3 c4 cwd files exe : ℕ)
    → c1 ≡ (c0 + cwd) % 2 ^ 16
    → c2 ≡ (c1 + cwd) % 2 ^ 16
    → c3 ≡ (c2 + files) % 2 ^ 16
    → c4 ≡ (c3 + exe) % 2 ^ 16
    → c4 ≡ (c0 + (exe + files) + 2 * cwd) % 2 ^ 16
in_sum c0 c1 c2 c3 c4 cwd files exe e1 e2 e3 e4 = omega arith

out_sum :
    (c0 c1 c2 c3 cwd files exe : ℕ)
    → c1 ≡ (c0 + 65535 * exe) % 2 ^ 16
    → c2 ≡ (c1 + 65535 * files) % 2 ^ 16
    → c3 ≡ (c2 + 65535 * cwd) % 2 ^ 16
    → c3 ≡ (c0 + 65535 * (exe + files + cwd)) % 2 ^ 16
out_sum c0 c1 c2 c3 cwd files exe e1 e2 e3 = omega arith

pub share_files-count :
    (task : Task) (p : ℕ) (s : Files)
    → AllSmall s
    → count (share_files task s) p
      ≡ (count s p + references task p + 2 * one_if (p == task.cwd)) % 2 ^ 16
unfolding share_files
share_files-count task p s small =
    let s1 = obtain_file task.cwd s in
    let s2 = obtain_file task.cwd s1 in
    let s3 = obtain_files nr_task_files 0 task.files s2 in
    let small1 = obtain_file-small task.cwd s small in
    let small2 = obtain_file-small task.cwd s1 small1 in
    let loop = λ (q : ℕ). obtain_files-count nr_task_files 0 task.files q s2 small2 in
    in_sum (count s p) (count s1 p) (count s2 p) (count s3 p) (count (obtain_file task.exe s3) p)
      (one_if (p == task.cwd)) (descriptors_of nr_task_files 0 task.files p)
      (one_if (p == task.exe)) (obtain_file-count task.cwd p s (small p))
      (obtain_file-count task.cwd p s1 (small1 p)) (loop p)
      (obtain_file-count task.exe p s3 (below _ _ (loop p)))

pub drop_files-count :
    (has_close : ℕ → Bool) (task : Task) (p : ℕ) (s : Files)
    → task.type ≡ user
    → AllSmall s
    → count (drop_files has_close task s) p
      ≡ (count s p + 65535 * (references task p + one_if (p == task.cwd))) % 2 ^ 16
unfolding drop_files
drop_files-count has_close task p s is_user small =
    let s1 = (vfs_close (has_close task.exe) task.exe s).1 in
    let s2 = close_files has_close nr_task_files 0 task.files s1 in
    let small1 = vfs_close-small (has_close task.exe) task.exe s small in
    let loop = λ (q : ℕ). close_files-count has_close nr_task_files 0 task.files q s1 small1 in
    rw (drop_files, is_user)
      (out_sum (count s p) (count s1 p) (count s2 p)
        (count (vfs_close (has_close task.cwd) task.cwd s2).1 p) (one_if (p == task.cwd))
        (descriptors_of nr_task_files 0 task.files p) (one_if (p == task.exe))
        (vfs_close-count (has_close task.exe) task.exe p s (small p)) (loop p)
        (vfs_close-count (has_close task.cwd) task.cwd p s2 (below _ _ (loop p))))
