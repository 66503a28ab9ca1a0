-- ===== src/Links/Refine.antt =====
-- lib/list.h against lists: what each macro does to a ring of nodes.
use neux_os.Prelude.{
  ℕ, zero, suc, ◌≡◌, refl, ◌≢◌, false, List, [], ◌∷◌, ◌++◌, arith, ◌<◌, ◌+◌, ◌==◌, length, ==_ne,
  ==_refl,
}
use neux_os.Prelude.Outcome.{done}
use neux_os.Links.{
  Links, null, update, load_next, store_next, store_prev, list_head_init, list_add_tail, list_del,
  list_dequeue, count_from, list_count,
}
use neux_os.Links.Chain.{has, last_or, first_or, Forward, Ring, SameOutside}
use neux_os.Links.Append.{added, Ring-added, SameOutside-added}
use neux_os.Links.Remove.{removed, Ring-removed, SameOutside-removed}
use neux_os.Links.Run.{list_add_tail-done, list_del-done, list_dequeue_empty, list_dequeue-done}

abbrev pub rest : {A : Type 0} → List A → List A
rest [] = []
rest (x ∷ xs) = xs

-- LIST_HEAD_INIT makes an empty list of any head that is not null, and writes only there.
list_head_init-Ring :
    (m : Links) (head : ℕ)
    → head ≢ null
    → (m' : Links) × (list_head_init head m ≡ done tt m')
      × Ring m' head []
      × SameOutside (head ∷ []) m m'
unfolding list_head_init store_prev store_next
list_head_init-Ring m head ne =
    let head_ok : (head == null) ≡ false = ==_ne head null ne in
    (
      record { prev = update m.prev head head; next = update m.next head head },
      simp head_ok,
      record {
        forward = ground arith;
        backward = ground arith;
        distinct = (refl, tt);
        non_null = ground arith;
      },
      λ a out. ground arith,
    )

-- LIST_ADD_TAIL of a node that is not in the list, with more rounds than the list has nodes, ends
-- without a fault. The list then holds the node last, and no other links are written.
pub list_add_tail-Ring :
    {m : Links} {head : ℕ} {xs : List ℕ} (fuel n : ℕ)
    → Ring m head xs
    → has n (head ∷ xs) ≡ false
    → n ≢ null
    → length xs < fuel
    → (m' : Links) × (list_add_tail fuel head n m ≡ done tt m')
      × Ring m' head (xs ++ n ∷ [])
      × SameOutside (n ∷ head ∷ xs) m m'
list_add_tail-Ring {m} {head} {xs} fuel n r out ne fit = (
  added m head (last_or head xs) n,
  list_add_tail-done fuel n r out ne fit,
  Ring-added n r out ne,
  SameOutside-added n r,
)

-- LIST_DEL of a node of the list ends without a fault. The list then holds the others in their
-- order, the node's links are null, and no links outside the list are written.
pub list_del-Ring :
    {m : Links} {head : ℕ} (ys : List ℕ) (n : ℕ) (zs : List ℕ)
    → Ring m head (ys ++ n ∷ zs)
    → (m' : Links) × (list_del n m ≡ done tt m')
      × Ring m' head (ys ++ zs)
      × (m'.next n ≡ null)
      × (m'.prev n ≡ null)
      × SameOutside (head ∷ ys ++ n ∷ zs) m m'
list_del-Ring {m} {head} ys n zs r = (
  removed m (last_or head ys) n (first_or head zs),
  list_del-done ys n zs r,
  Ring-removed ys n zs r,
  ground arith,
  ground arith,
  SameOutside-removed ys n zs r,
)

-- LIST_DEQUEUE ends without a fault. It returns the first node, or null of an empty list; the list
-- then holds the nodes after the first, and no links outside the list are written.
pub list_dequeue-Ring :
    {m : Links} {head : ℕ} (xs : List ℕ)
    → Ring m head xs
    → (m' : Links) × (list_dequeue head m ≡ done (first_or null xs) m')
      × Ring m' head (rest xs)
      × SameOutside (head ∷ xs) m m'
list_dequeue-Ring {m} [] r = (m, list_dequeue_empty r, r, λ a out. (refl, refl))
list_dequeue-Ring {m} {head} (x ∷ xs) r = (
  removed m head x (first_or head xs),
  list_dequeue-done r,
  Ring-removed [] x xs r,
  SameOutside-removed [] x xs r,
)

count_from-done :
    (m : Links) (fuel head p : ℕ) (xs : List ℕ) (n : ℕ)
    → length xs < fuel
    → has head xs ≡ false
    → has null (p ∷ xs) ≡ false
    → Forward m.next p xs head
    → count_from fuel head p n m ≡ done (n + length xs) m
unfolding count_from load_next
count_from-done m zero head p xs n fit out some c = absurd (omega arith)
count_from-done m (suc fuel) head p [] n fit out some c =
    let p_ok : (p == null) ≡ false = ground arith in
    let eq : n + 0 ≡ n = omega arith in simp (p_ok, c, ==_refl, eq)
count_from-done m (suc fuel) head p (x ∷ xs) n fit out some c =
    let p_ok : (p == null) ≡ false = ground arith in
    let x_head : (x == head) ≡ false = ground arith in
    let eq : n + 1 + length xs ≡ n + suc (length xs) = omega arith in
    rw (p_ok, c.0, x_head, ← eq)
      (count_from-done m fuel head x xs (n + 1) (omega arith) (ground arith) (ground arith) c.1)

-- LIST_COUNT, with more rounds than the list has nodes, returns their number and writes nothing.
pub list_count-length :
    {m : Links} {head : ℕ} {xs : List ℕ} (fuel : ℕ)
    → Ring m head xs
    → length xs < fuel
    → list_count fuel head m ≡ done (length xs) m
unfolding list_count
list_count-length {m} {head} {xs} fuel r fit =
    let eq : 0 + length xs ≡ length xs = omega arith in
    rw (← eq) (count_from-done m fuel head head xs 0 fit r.distinct.0 r.non_null r.forward)
