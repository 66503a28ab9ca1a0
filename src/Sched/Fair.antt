-- ===== src/Sched/Fair.antt =====
-- No starvation: every ready task gets its turn.
use neux_os.Prelude.{
  ℕ, zero, suc, ◌≡◌, refl, false, ap, ◌∙◌, List, [], ◌∷◌, ◌++◌, arith, ◌<◌, ◌+◌, ◌==◌, length,
  length-append, get_or,
}
use neux_os.Prelude.Outcome.{done}
use neux_os.Sched.{Heads, Kernel, container_of, running_offset}
use neux_os.Sched.Spec.{Queues}
use neux_os.Sched.Valid.{IsValid, count, count-append, queues}
use neux_os.Sched.Listed.{IsListed}
use neux_os.Sched.Events.{Event, yields, run, spec_act, spec_run, run_refines}

abbrev pub turns : ℕ → List Event
turns zero = []
turns (suc n) = yields ∷ turns n

length-turns : (n : ℕ) → length (turns n) ≡ n
length-turns zero = refl
length-turns (suc n) = ap suc (length-turns n)

get_or-append : (xs ys : List ℕ) (i d : ℕ) → i < length xs → get_or (xs ++ ys) i d ≡ get_or xs i d
get_or-append [] ys i d h = absurd (omega arith)
get_or-append (x ∷ xs) ys zero d h = refl
get_or-append (x ∷ xs) ys (suc i) d h = get_or-append xs ys i d (omega arith)

spec_turns :
    (loop i now : ℕ) (ready waiting dead : List ℕ)
    → count loop (now ∷ ready) ≡ 0
    → i < length ready
    → (spec_run loop (turns (suc i)) (queues now ready waiting dead)).now ≡ get_or ready i loop
spec_turns loop i now [] waiting dead out h = absurd (omega arith)
spec_turns loop zero now (x ∷ ready) waiting dead out h =
    let other : (now == loop) ≡ false = ground arith in rw other
spec_turns loop (suc i) now (x ∷ ready) waiting dead out h =
    let other : (now == loop) ≡ false = ground arith in
    let q' = queues x (ready ++ now ∷ []) waiting dead in
    let turn : spec_act loop yields (queues now (x ∷ ready) waiting dead) ≡ q' = rw other in
    ap (λ q. (spec_run loop (turns (suc i)) q).now) turn
    ∙ spec_turns loop i x (ready ++ now ∷ []) waiting dead
        (ground (arith, count-append loop ready (now ∷ [])))
        (omega (arith, length-append {0} ready (now ∷ [])))
    ∙ get_or-append ready (now ∷ []) i loop (omega arith)

-- Where neither the running task nor a ready one is the kernel loop, the ready task at any place of
-- the queue runs after as many calls of `yield` as it has tasks before it, and one more.
pub turns-current :
    (i fuel : ℕ) {heads : Heads} {queue loop : ℕ} {k : Kernel} {q : Queues} {listed : List ℕ}
    → IsValid heads queue loop k q
    → IsListed heads queue loop k q listed
    → count loop (q.now ∷ q.ready) ≡ 0
    → i < length q.ready
    → length q.ready + length q.waiting + length q.dead + suc i < fuel
    → (k' : Kernel) × (run heads fuel queue (turns (suc i)) k ≡ done tt k')
      × (k'.current ≡ container_of running_offset (get_or q.ready i loop))
turns-current i fuel {loop} {q} v l out h fit =
    let (k', listed', e, v', l') =
      run_refines (turns (suc i)) fuel v l (omega (arith, length-turns i)) in
    (
      k',
      e,
      v'.current
          ∙ ap (container_of running_offset)
              (spec_turns loop i q.now q.ready q.waiting q.dead out h),
    )
