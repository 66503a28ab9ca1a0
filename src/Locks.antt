-- ===== src/Locks.antt =====
-- kernel/lock.c: the lock as a counter, with tasks that may be interrupted between its steps.
pub mod Exclusion
mod Tests
use neux_os.Prelude.{ℕ, ◌+◌, ◌-◌, ◌%◌, ◌^◌, ◌<◌, ◌≡◌, Bool, true, false, ltb}
use neux_os.Links.{update}

-- Where a task is: outside, behind the loop of simplock_obtain, or behind its end.
pub data Phase : Type 0 where
  outside passed holding : Phase

-- `owners`, and where each task is.
pub record Lock : Type 0 where
  pub owners : ℕ
  pub phase : ℕ → Phase

-- simplock_init
abbrev pub simplock_init : Lock
simplock_init = record { owners = 0; phase = λ _. outside }

-- The condition of the loop.
abbrev pub waits : Lock → Bool
waits s = ltb 0 s.owners

-- The loop ends; owners++; simplock_release.
abbrev pub pass : ℕ → Lock → Lock
pass t s = record s { phase = update s.phase t passed }

abbrev pub count_up : ℕ → Lock → Lock
count_up t s = record { owners = (s.owners + 1) % 2 ^ 32; phase = update s.phase t holding }

abbrev pub simplock_release : ℕ → Lock → Lock
simplock_release t s = record {
  owners = (s.owners + (2 ^ 32 - 1)) % 2 ^ 32;
  phase = update s.phase t outside;
}

-- One step of the task `t`. A round of the loop that goes on leaves everything as it is.
pub data Step : (t : ℕ) → Lock → Lock → Type 0 where
  rounds : (t : ℕ) (s : Lock) → s.phase t ≡ outside → waits s ≡ true → Step t s s
  passes : (t : ℕ) (s : Lock) → s.phase t ≡ outside → waits s ≡ false → Step t s (pass t s)
  counts : (t : ℕ) (s : Lock) → s.phase t ≡ passed → Step t s (count_up t s)
  releases : (t : ℕ) (s : Lock) → s.phase t ≡ holding → Step t s (simplock_release t s)

-- The states that steps of any tasks, in any order, lead to.
pub data Reached : Lock → Type 0 where
  begins : Reached simplock_init
  goes_on : (t : ℕ) (s s' : Lock) → Reached s → Step t s s' → Reached s'

-- simplock_obtain without an interrupt behind its loop.
abbrev pub simplock_obtain : ℕ → Lock → Lock
simplock_obtain t s = count_up t (pass t s)

-- The states that tasks lead to if none is interrupted there.
pub data Undisturbed : Lock → Type 0 where
  starts : Undisturbed simplock_init
  obtains :
      (t : ℕ) (s : Lock)
      → Undisturbed s
      → s.phase t ≡ outside
      → waits s ≡ false
      → Undisturbed (simplock_obtain t s)
  frees :
      (t : ℕ) (s : Lock) → Undisturbed s → s.phase t ≡ holding → Undisturbed (simplock_release t s)
