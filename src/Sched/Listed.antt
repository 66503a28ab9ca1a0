-- ===== src/Sched/Listed.antt =====
-- The list of all tasks beside the queues.
use neux_os.Prelude.{
  ℕ, ◌≡◌, refl, ◌≢◌, sym, ◌∙◌, Bool-cases, inl, inr, List, [], ◌∷◌, ◌++◌, arith, ◌<◌, ◌≤◌, ◌+◌, ◌^◌,
  ◌==◌, ==_iff, subst,
}
use neux_os.Links.Chain.{Ring, Ring-frame}
use neux_os.Sched.{Heads, Kernel}
use neux_os.Sched.Spec.{Queues}
use neux_os.Sched.Valid.{
  IsValid, Keeps, Untouched, keep_once, keep_le, tasks, nodes, count, count_one, count-append,
  count_of_has, Apart-of_counts,
}
use neux_os.Sched.Reap.{entry, remove, unlisted, Listed, count-remove}

-- `listed` holds the entries of all tasks, and of the kernel loop, beside the nodes of the queues.
pub record IsListed (heads : Heads) (queue loop : ℕ) (k : Kernel) (q : Queues) (listed : List ℕ)
    : Type 0 where
  pub ring : Ring k.links heads.task_list listed
  pub apart : (a : ℕ) → nodes a heads queue q + count a (heads.task_list ∷ listed) ≤ 1
  pub each : (a : ℕ) → 0 < tasks a q → 0 < count (entry a) listed
  pub loop_each : 0 < count (entry loop) listed
  pub loop_apart : count loop (heads.task_list ∷ listed) ≡ 0

entry-inj : (a b : ℕ) → a < 2 ^ 32 → b < 2 ^ 32 → entry a ≡ entry b → a ≡ b
entry-inj a b ha hb e = ground arith

pub count-remove_ne : (b a : ℕ) (xs : List ℕ) → a ≢ b → count b (remove a xs) ≡ count b xs
count-remove_ne b a [] h = refl
count-remove_ne b a (x ∷ xs) h = ground (arith, count-remove_ne b a xs h)

-- What is listed and not taken out stays listed.
pub stays :
    (b : ℕ) (dead listed : List ℕ)
    → b < 2 ^ 32
    → count b dead ≡ 0
    → ((a : ℕ) → 0 < count a dead → a < 2 ^ 32)
    → 0 < count (entry b) listed
    → 0 < count (entry b) (unlisted dead listed)
stays b [] listed hb out small h = h
stays b (d ∷ dead) listed hb out small h =
    let other : entry d ≢ entry b =
      λ e. ground (arith, entry-inj d b (small d (ground arith)) hb e) in
    stays b dead (remove (entry d) listed) hb (ground arith) (λ a p. small a (omega arith))
      (omega (arith, count-remove_ne (entry b) (entry d) listed other))

pub Listed-of_each :
    (dead listed : List ℕ)
    → ((a : ℕ) → count a dead ≤ 1)
    → ((a : ℕ) → 0 < count a dead → a < 2 ^ 32)
    → ((a : ℕ) → 0 < count a dead → 0 < count (entry a) listed)
    → Listed dead listed
Listed-of_each [] listed once small each = tt
Listed-of_each (d ∷ dead) listed once small each = (
  each d (ground arith),
  Listed-of_each dead (remove (entry d) listed) (λ a. omega (arith, once a))
      (λ a h. small a (omega arith))
      (λ a h.
        stays a (d ∷ []) listed (small a (omega arith)) (ground (arith, once a))
          (λ b p. small b (omega arith)) (each a (omega arith))),
)

pub count-unlisted :
    (a : ℕ) (dead listed : List ℕ) → count a (unlisted dead listed) ≤ count a listed
count-unlisted a [] listed = omega arith
count-unlisted a (d ∷ dead) listed =
    omega (arith, count-unlisted a dead (remove (entry d) listed), count-remove a (entry d) listed)

-- All nodes of the three queues.
abbrev pub all_nodes : Heads → ℕ → Queues → List ℕ
all_nodes heads queue q =
    heads.running_queue ∷ queue ∷ heads.term_queue ∷ q.now ∷ q.ready ++ (q.waiting ++ q.dead)

pub count-all_nodes :
    (a : ℕ) (heads : Heads) (queue : ℕ) (q : Queues)
    → count a (all_nodes heads queue q) ≡ nodes a heads queue q
count-all_nodes a heads queue q =
    omega (arith, count-append a q.ready (q.waiting ++ q.dead), count-append a q.waiting q.dead)

pub Keeps-apart :
    {heads : Heads} {queue loop : ℕ} {k : Kernel} {q : Queues} {listed : List ℕ}
    → IsValid heads queue loop k q
    → IsListed heads queue loop k q listed
    → (q' : Queues) → Keeps loop q q'
    → (a : ℕ) → nodes a heads queue q' + count a (heads.task_list ∷ listed) ≤ 1
Keeps-apart {heads} {queue} {loop} {q} {listed} v l q' keeps a = elim (Bool-cases (a == loop)) [
  | inl same ↦
      subst (λ b. nodes b heads queue q' + count b (heads.task_list ∷ listed) ≤ 1)
        (sym ((==_iff a loop).0 same)) (omega (arith, l.loop_apart, keep_once v q' keeps loop))
  | inr other ↦ omega (arith, l.apart a, keep_le v q' keeps a, count_one a loop other)
]

pub Keeps-each :
    {heads : Heads} {queue loop : ℕ} {k : Kernel} {q : Queues} {listed : List ℕ}
    → IsValid heads queue loop k q
    → IsListed heads queue loop k q listed
    → (q' : Queues) → Keeps loop q q'
    → (a : ℕ) → 0 < tasks a q'
    → 0 < count (entry a) listed
Keeps-each {loop} {listed} v l q' keeps a h = elim (Bool-cases (a == loop)) [
  | inl same ↦ subst (λ b. 0 < count (entry b) listed) (sym ((==_iff a loop).0 same)) l.loop_each
  | inr other ↦ l.each a (omega (arith, keep_le v q' keeps a, count_one a loop other))
]

-- An operation that writes only the queues' links and keeps the tasks keeps the list of all tasks.
pub IsListed-keep :
    {heads : Heads} {queue loop : ℕ} {k : Kernel} {q : Queues} {listed : List ℕ}
    → IsValid heads queue loop k q
    → IsListed heads queue loop k q listed
    → (q' : Queues) (k' : Kernel) → Keeps loop q q'
    → Untouched heads queue q k.links k'.links
    → IsListed heads queue loop k' q' listed
IsListed-keep {heads} {queue} {q} {listed} v l q' k' keeps same = record {
  ring =
      Ring-frame (all_nodes heads queue q)
        (λ a o.
          same a
            (sym (count-all_nodes a heads queue q) ∙ count_of_has a (all_nodes heads queue q) o))
        (Apart-of_counts (heads.task_list ∷ listed) (all_nodes heads queue q)
          λ a. omega (arith, l.apart a, count-all_nodes a heads queue q))
        l.ring;
  apart = Keeps-apart v l q' keeps;
  each = Keeps-each v l q' keeps;
  loop_each = l.loop_each;
  loop_apart = l.loop_apart;
}
