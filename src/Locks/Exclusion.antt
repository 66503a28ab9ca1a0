-- ===== src/Locks/Exclusion.antt =====
-- When the lock keeps all tasks but one out.
use neux_os.Prelude.{
  ℕ, ◌≡◌, ◌≢◌, refl, sym, ap, ◌∙◌, Bool, true, false, Bool-cases, ◌⊎◌, inl, inr, ◌==◌, ==_ne,
  ==_refl, arith,
}
use neux_os.Links.{update}
use neux_os.Locks.{
  Phase, Lock, outside, passed, holding, waits, pass, count_up, simplock_init, simplock_obtain,
  simplock_release, Step, passes, counts, Reached, begins, goes_on, Undisturbed, starts, obtains,
  frees,
}

-- No task holds the lock, or one does and no other is on its way.
abbrev pub IsExclusive : Lock → Type 0
IsExclusive s =
    ((s.owners ≡ 0) × ((u : ℕ) → s.phase u ≡ outside))
    ⊎ ((t : ℕ) × (s.owners ≡ 1) × (s.phase t ≡ holding) × ((u : ℕ) → u ≢ t → s.phase u ≡ outside))

update-same : (t : ℕ) (p : Phase) (phase : ℕ → Phase) → update phase t p t ≡ p
update-same t p phase = rw (==_refl t) refl

update-other : (t u : ℕ) (p : Phase) (phase : ℕ → Phase) → u ≢ t → update phase t p u ≡ phase u
update-other t u p phase ne = rw (==_ne u t ne) refl

is_holding : Phase → Bool
is_holding holding = true
is_holding outside = false
is_holding passed = false

not_both : (p : Phase) → p ≡ holding → p ≡ outside → ⊥
unfolding is_holding
not_both p h o = grind (arith, ap is_holding (sym h ∙ o))

-- From a free lock one task gets it.
obtain-IsExclusive :
    (t : ℕ) (s : Lock) → waits s ≡ false → IsExclusive s → IsExclusive (simplock_obtain t s)
obtain-IsExclusive t s free (inl (none, all)) = inr (
  t,
  omega (arith, none),
  update-same t holding (update s.phase t passed),
  λ u ne.
      update-other t u holding (update s.phase t passed) ne
      ∙ update-other t u passed s.phase ne
      ∙ all u,
)
obtain-IsExclusive t s free (inr (u, one, _, _)) = absurd (ground (arith, free, one))

-- The task that has it gives it back.
release-IsExclusive :
    (t : ℕ) (s : Lock) → s.phase t ≡ holding → IsExclusive s → IsExclusive (simplock_release t s)
release-IsExclusive t s has (inl (none, all)) = absurd (not_both (s.phase t) has (all t))
release-IsExclusive t s has (inr (u, one, _, others)) = inl (
  omega (arith, one),
  λ v. elim (Bool-cases (v == t)) [
    | inl e ↦ rw e refl
    | inr ne ↦
        let apart : v ≢ t = ground (arith, ne) in
        let same : t ≡ u = owner (Bool-cases (t == u)) in
        update-other t v outside s.phase apart ∙ others v (λ e. apart (e ∙ sym same))
  ],
)
  where
    owner : ((t == u) ≡ true) ⊎ ((t == u) ≡ false) → t ≡ u
    owner (inl e) = ground (arith, e)
    owner (inr ne) =
        let apart : t ≢ u = ground (arith, ne) in absurd (not_both (s.phase t) has (others t apart))

-- If no task is interrupted between the end of the loop of simplock_obtain and the count, then at any
-- time no task holds the lock and it counts none, or one task holds it, it counts one, and no other
-- task is behind the loop; each such state is one that single steps lead to.
pub Undisturbed-IsExclusive : (s : Lock) → Undisturbed s → IsExclusive s × Reached s
Undisturbed-IsExclusive _ starts = (inl (refl, λ u. refl), begins)
Undisturbed-IsExclusive _ (obtains t s before out free) =
    let (exclusive, reached) = Undisturbed-IsExclusive s before in
    let through = goes_on t s (pass t s) reached (passes t s out free) in
    (
      obtain-IsExclusive t s free exclusive,
      goes_on t (pass t s) (simplock_obtain t s) through
          (counts t (pass t s) (update-same t passed s.phase)),
    )
Undisturbed-IsExclusive _ (frees t s before has) =
    let (exclusive, reached) = Undisturbed-IsExclusive s before in
    (
      release-IsExclusive t s has exclusive,
      goes_on t s (simplock_release t s) reached (Step.releases t s has),
    )

-- With an interrupt there, two tasks can hold the lock.
pub Reached-two : (s : Lock) × Reached s × (s.phase 1 ≡ holding) × (s.phase 2 ≡ holding)
Reached-two =
    let s1 = pass 1 simplock_init in
    let s2 = pass 2 s1 in
    let s3 = count_up 1 s2 in
    let s4 = count_up 2 s3 in
    let r1 = goes_on 1 simplock_init s1 begins (passes 1 simplock_init refl refl) in
    let r2 = goes_on 2 s1 s2 r1 (passes 2 s1 refl refl) in
    let r3 = goes_on 1 s2 s3 r2 (counts 1 s2 refl) in
    (s4, goes_on 2 s3 s4 r3 (counts 2 s3 refl), refl, refl)
