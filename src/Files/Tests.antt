-- ===== src/Files/Tests.antt =====
-- Descriptors at a concrete task.
use neux_os.Prelude.{
  ℕ, ◌<◌, ◌≡◌, ◌≢◌, ◌⊎◌, refl, inr, true, [], ◌∷◌, ◌==◌, ltb, if◌then◌else◌, arith,
}
use neux_os.Files.{FileError, emfile, error, value, Files, sys_open, sys_close}
use neux_os.Files.Open.{all_found, sys_open-close, sys_open_error}

-- The standard input and output are open.
abbrev task : Files
task = record {
  at = λ p. record { rc = 2; off = 0; dent = 4096 };
  table = λ i. if ltb i 2 then 8192 else 0;
  released = [];
  closed = [];
  freed = [];
}

sys_open-close_example :
    ((sys_open (all_found 5000 6000) task ≡ (error emfile, task))
      × ((j : ℕ) → j < 256 → task.table j ≢ 0))
    ⊎ ((fd : ℕ) × (s' : Files) × (sys_open (all_found 5000 6000) task ≡ (value fd, s'))
        × (fd < 256)
        × (task.table fd ≡ 0)
        × ((j : ℕ) → j < fd → task.table j ≢ 0)
        × ((j : ℕ) → s'.table j ≡ (if j == fd then 6000 else task.table j))
        × ((s'' : Files) × (sys_close true fd s' ≡ (value 0, s''))
            × ((j : ℕ) → s''.table j ≡ task.table j)
            × (s''.released ≡ 5000 ∷ [])
            × (s''.freed ≡ 6000 ∷ [])))
sys_open-close_example = sys_open-close 5000 6000 task (λ e. omega arith) (λ e. omega arith)

-- No memory.
sys_open_error_example :
    (e : FileError) × (s' : Files) × (sys_open
        (record { dent = 5000; mounted = true; memory = 0 })
        task
      ≡ (error e, s'))
    × ((j : ℕ) → s'.table j ≡ task.table j)
    × (((s' ≡ task) × ((j : ℕ) → j < 256 → task.table j ≢ 0)) ⊎ (s'.released ≡ 5000 ∷ []))
sys_open_error_example = sys_open_error 5000 0 true task (inr (inr refl))
