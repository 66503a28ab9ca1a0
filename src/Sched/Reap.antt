-- ===== src/Sched/Reap.antt =====
-- The loop of task_sched that destroys the tasks of the terminated queue.
use neux_os.Prelude.{
  ℕ, zero, suc, ◌≡◌, refl, sym, ap, ◌∙◌, subst, Bool-cases, inl, inr, false, ◌||◌, List, [], ◌∷◌,
  ◌++◌, arith, ◌<◌, ◌≤◌, ◌+◌, ◌==◌, if◌then◌else◌, length, lt→ltb,
}
use neux_os.Prelude.Outcome.{done}
use neux_os.Links.{Links, list_del, list_dequeue, list_count}
use neux_os.Links.Chain.{has, Ring, SameOutside, Ring-frame, has-append}
use neux_os.Links.Refine.{list_del-Ring, list_dequeue-Ring, list_count-length}
use neux_os.Sched.{Heads, Kernel, member, container_of, running_offset, list_offset, reap}
use neux_os.Sched.Queue.{SameOutside-refl}
use neux_os.Sched.Valid.{count, Apart-of_counts}

-- The hook by which a task is on the list of all tasks, from the hook by which it is queued.
abbrev pub entry : ℕ → ℕ
entry h = member list_offset (container_of running_offset h)

abbrev pub remove : ℕ → List ℕ → List ℕ
remove a [] = []
remove a (x ∷ xs) = if a == x then xs else x ∷ remove a xs

-- The list of all tasks without those that are queued.
abbrev pub unlisted : List ℕ → List ℕ → List ℕ
unlisted [] listed = listed
unlisted (h ∷ hs) listed = unlisted hs (remove (entry h) listed)

-- Each is listed when its turn comes.
abbrev pub Listed : List ℕ → List ℕ → Type 0
Listed [] listed = Unit
Listed (h ∷ hs) listed = (0 < count (entry h) listed) × Listed hs (remove (entry h) listed)

abbrev pub destroy_all : List ℕ → List ℕ → List ℕ
destroy_all [] gone = gone
destroy_all (h ∷ hs) gone = destroy_all hs (container_of running_offset h ∷ gone)

split_at :
    (a : ℕ) (xs : List ℕ)
    → 0 < count a xs
    → (ys : List ℕ) × (zs : List ℕ) × (xs ≡ ys ++ a ∷ zs) × (remove a xs ≡ ys ++ zs)
split_at a [] h = absurd (omega arith)
split_at a (x ∷ xs) h = elim (Bool-cases (a == x)) [
  | inl same ↦ ([], xs, ground arith, rw same)
  | inr other ↦
      let (ys, zs, p, r) = split_at a xs (ground arith) in
      (x ∷ ys, zs, ap (◌∷◌ x) p, rw other (ap (◌∷◌ x) r))
]

pub has-remove : (b a : ℕ) (xs : List ℕ) → has b xs ≡ false → has b (remove a xs) ≡ false
has-remove b a [] h = refl
has-remove b a (x ∷ xs) h = ground (arith, has-remove b a xs)

pub count-remove : (b a : ℕ) (xs : List ℕ) → count b (remove a xs) ≤ count b xs
count-remove b a [] = omega arith
count-remove b a (x ∷ xs) = ground (arith, count-remove b a xs)

-- LIST_DEL of a listed entry, whichever place it has.
list_del-remove :
    {m : Links} {head : ℕ} (a : ℕ) (xs : List ℕ)
    → Ring m head xs
    → 0 < count a xs
    → (m' : Links) × (list_del a m ≡ done tt m')
      × Ring m' head (remove a xs)
      × SameOutside (head ∷ xs) m m'
list_del-remove {m} {head} a xs r h =
    let (ys, zs, p, e) = split_at a xs h in
    let (m', run, ring, _, _, same) = list_del-Ring ys a zs (subst (Ring m head) p r) in
    (
      m',
      run,
      subst (Ring m' head) (sym e) ring,
      subst (λ l. SameOutside (head ∷ l) m m') (sym p) same,
    )

-- What the two removals of a round and the later rounds write.
outside_round :
    (tq tl h : ℕ) (hs listed : List ℕ) (a : ℕ) {l m m' m'' : Links}
    → SameOutside (tq ∷ h ∷ hs) l m
    → SameOutside (tl ∷ listed) m m'
    → SameOutside (tq ∷ hs ++ tl ∷ remove a listed) m' m''
    → SameOutside (tq ∷ (h ∷ hs) ++ tl ∷ listed) l m''
outside_round tq tl h hs listed a same same' same'' b out =
    let split : has b ((h ∷ hs) ++ tl ∷ listed) ≡ (has b (h ∷ hs) || has b (tl ∷ listed)) =
      has-append b (h ∷ hs) (tl ∷ listed) in
    let one = same b (ground arith) in
    let two = same' b (ground arith) in
    let three =
      same'' b (ground (arith, has-append b hs (tl ∷ remove a listed), has-remove b a listed)) in
    (three.0 ∙ two.0 ∙ one.0, three.1 ∙ two.1 ∙ one.1)

-- One round of the loop.
reap_step :
    (heads : Heads) (fuel rounds : ℕ) (k : Kernel) (h n : ℕ) (m m' : Links)
    → list_count fuel heads.term_queue k.links ≡ done (suc n) k.links
    → list_dequeue heads.term_queue k.links ≡ done h m
    → list_del (entry h) m ≡ done tt m'
    → reap heads fuel (suc rounds) k
      ≡ reap heads fuel rounds
          (record k { links = m'; destroyed = container_of running_offset h ∷ k.destroyed })
unfolding reap
reap_step heads fuel rounds k h n m m' counted taken deleted =
    rw (counted, lt→ltb 0 (suc n) (omega arith), taken, deleted)

-- With a round for each ended task and one more, the loop ends. The terminated queue is then empty,
-- its tasks have been destroyed in order, and they are no longer on the list of all tasks.
pub reap-done :
    (heads : Heads) (fuel rounds : ℕ) (k : Kernel) (dead listed : List ℕ)
    → Ring k.links heads.term_queue dead
    → Ring k.links heads.task_list listed
    → ((a : ℕ) → count a (heads.term_queue ∷ dead) + count a (heads.task_list ∷ listed) ≤ 1)
    → Listed dead listed
    → length dead < fuel
    → length dead < rounds
    → (m' : Links) × (reap heads fuel rounds k
        ≡ done tt (record k { links = m'; destroyed = destroy_all dead k.destroyed }))
      × Ring m' heads.term_queue []
      × Ring m' heads.task_list (unlisted dead listed)
      × SameOutside (heads.term_queue ∷ dead ++ heads.task_list ∷ listed) k.links m'
unfolding reap
reap-done heads fuel zero k dead listed r l apart in_list fit enough = absurd (omega arith)
reap-done heads fuel (suc rounds) k [] listed r l apart in_list fit enough = (
  k.links,
  rw (list_count-length fuel r fit),
  r,
  l,
  SameOutside-refl k.links (heads.term_queue ∷ heads.task_list ∷ listed),
)
reap-done heads fuel (suc rounds) k (h ∷ hs) listed r l apart in_list fit enough =
    let (m, e, r', same) = list_dequeue-Ring (h ∷ hs) r in
    let queue = heads.term_queue ∷ h ∷ hs in
    let all = heads.task_list ∷ listed in
    let l' = Ring-frame queue same (Apart-of_counts all queue λ a. omega (arith, apart a)) l in
    let (m', e', l'', same') = list_del-remove (entry h) listed l' in_list.0 in
    let r'' =
      Ring-frame all same' (Apart-of_counts (heads.term_queue ∷ hs) all λ a. omega (arith, apart a))
        r' in
    let task = container_of running_offset h in
    let k' = record k { links = m'; destroyed = task ∷ k.destroyed } in
    let (m'', e'', r''', l''', same'') =
      reap-done heads fuel rounds k' hs (remove (entry h) listed) r'' l''
        (λ a. omega (arith, apart a, count-remove a (entry h) listed)) in_list.1 (omega arith)
        (omega arith) in
    (
      m'',
      reap_step heads fuel rounds k h (length hs) m m' (list_count-length fuel r fit) e e' ∙ e'',
      r''',
      l''',
      outside_round heads.term_queue heads.task_list h hs listed (entry h) same same' same'',
    )
