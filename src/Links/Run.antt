-- ===== src/Links/Run.antt =====
-- The macros on a ring: each ends without a fault, and the ring then holds the list that it should.
use neux_os.Prelude.{
  ℕ, zero, suc, ◌≡◌, sym, ◌≢◌, false, List, [], ◌∷◌, ◌++◌, arith, ◌==◌, ◌<◌, length, ==_ne, ==_refl,
}
use neux_os.Prelude.Outcome.{done}
use neux_os.Links.{
  Links, null, load_next, load_prev, store_next, store_prev, find_last, list_add_tail, list_del,
  unlink_first, list_del_head, list_dequeue,
}
use neux_os.Links.Chain.{has, Distinct, last_or, first_or, Forward, Ring, has-append, has-last_or}
use neux_os.Links.Append.{added}
use neux_os.Links.Remove.{removed, Forward-at, Backward-at, has-first_or}

find_last-done :
    (m : Links) (fuel head p : ℕ) (xs : List ℕ)
    → length xs < fuel
    → has head xs ≡ false
    → has null (p ∷ xs) ≡ false
    → Forward m.next p xs head
    → find_last fuel head p m ≡ done (last_or p xs) m
unfolding find_last load_next
find_last-done m zero head p xs fit out some c = absurd (omega arith)
find_last-done m (suc fuel) head p [] fit out some c =
    let pne : (p == null) ≡ false = ground arith in rw (pne, c, ==_refl head)
find_last-done m (suc fuel) head p (x ∷ xs) fit out some c =
    let pne : (p == null) ≡ false = ground arith in
    let xne : (x == head) ≡ false = ground arith in
    rw (pne, c.0, xne)
      (find_last-done m fuel head x xs (omega arith) (ground arith) (ground arith) c.1)

pub list_add_tail-done :
    {m : Links} {head : ℕ} {xs : List ℕ} (fuel n : ℕ)
    → Ring m head xs
    → has n (head ∷ xs) ≡ false
    → n ≢ null
    → length xs < fuel
    → list_add_tail fuel head n m ≡ done tt (added m head (last_or head xs) n)
unfolding list_add_tail store_next store_prev
list_add_tail-done {m} {head} {xs} fuel n r out ne fit =
    let head_ok : (head == null) ≡ false = ground (arith, r.non_null) in
    let last_ok : (last_or head xs == null) ≡ false =
      ==_ne _ null (λ e. has-last_or null head xs r.non_null (sym e)) in
    let n_ok : (n == null) ≡ false = ==_ne n null ne in
    rw (find_last-done m fuel head head xs fit r.distinct.0 r.non_null r.forward)
      (simp (last_ok, n_ok, head_ok))

-- The six stores of LIST_DEL and of LIST_DEL_HEAD, once the neighbours are known.
module _ (m : Links) (p n q : ℕ) (n_ok : (n == null) ≡ false) (p_ok : (p == null) ≡ false)
    (q_ok : (q == null) ≡ false) (np : (n == p) ≡ false) (nq : (n == q) ≡ false)
    (before : m.prev n ≡ p) (after : m.next n ≡ q) where
  list_del_stores : list_del n m ≡ done tt (removed m p n q)
  unfolding list_del load_next load_prev store_next store_prev
  list_del_stores = simp (n_ok, p_ok, q_ok, np, before, after)

  unlink_first_stores : unlink_first n m ≡ done tt (removed m p n q)
  unfolding unlink_first load_next load_prev store_next store_prev
  unlink_first_stores = simp (n_ok, p_ok, q_ok, nq, before, after)

-- What the stores need, from the ring.
module _ {m : Links} {head : ℕ} (ys : List ℕ) (n : ℕ) (zs : List ℕ)
    (r : Ring m head (ys ++ n ∷ zs)) where
  node_ok : (n == null) ≡ false
  node_ok = ground (arith, r.non_null, has-append null ys (n ∷ zs))

  before_ok : (last_or head ys == null) ≡ false
  before_ok = ==_ne _ null λ e.
      has-last_or null head ys (ground (arith, r.non_null, has-append null ys (n ∷ zs))) (sym e)

  after_ok : (first_or head zs == null) ≡ false
  after_ok = ==_ne _ null λ e.
      has-first_or null head zs (ground (arith, r.non_null, has-append null ys (n ∷ zs))) (sym e)

  node_head : n ≢ head
  node_head = ground (arith, r.distinct.0, has-append head ys (n ∷ zs))

  pub not_before : (n == last_or head ys) ≡ false
  not_before = ==_ne _ _ (has-last_or n head ys (out ys (r.distinct.1)))
    where
      out : (ws : List ℕ) → Distinct (ws ++ n ∷ zs) → has n (head ∷ ws) ≡ false
      out [] d = ground (arith, node_head)
      out (w ∷ ws) d = ground (arith, out ws d.1, has-append w ws (n ∷ zs))

  pub not_after : (n == first_or head zs) ≡ false
  not_after = ==_ne _ _ (has-first_or n head zs (out ys (r.distinct.1)))
    where
      out : (ws : List ℕ) → Distinct (ws ++ n ∷ zs) → has n (head ∷ zs) ≡ false
      out [] d = ground (arith, node_head)
      out (w ∷ ws) d = out ws d.1

  pub list_del-done : list_del n m ≡ done tt (removed m (last_or head ys) n (first_or head zs))
  list_del-done =
      list_del_stores m (last_or head ys) n (first_or head zs) node_ok before_ok after_ok not_before
        not_after (Backward-at m.prev head ys n zs head r.backward)
        (Forward-at m.next head ys n zs head r.forward)

  pub unlink_first-done :
      unlink_first n m ≡ done tt (removed m (last_or head ys) n (first_or head zs))
  unlink_first-done =
      unlink_first_stores m (last_or head ys) n (first_or head zs) node_ok before_ok after_ok
        not_before not_after (Backward-at m.prev head ys n zs head r.backward)
        (Forward-at m.next head ys n zs head r.forward)

pub list_dequeue_empty : {m : Links} {head : ℕ} → Ring m head [] → list_dequeue head m ≡ done null m
unfolding list_dequeue list_del_head load_next
list_dequeue_empty {m} {head} r =
    let head_ok : (head == null) ≡ false = ground (arith, r.non_null) in
    simp (head_ok, r.forward, ==_refl)

pub list_dequeue-done :
    {m : Links} {head n : ℕ} {zs : List ℕ}
    → Ring m head (n ∷ zs)
    → list_dequeue head m ≡ done n (removed m head n (first_or head zs))
unfolding list_dequeue list_del_head load_next
list_dequeue-done {m} {head} {n} {zs} r =
    let head_ok : (head == null) ≡ false = ground (arith, r.non_null) in
    let n_head : (n == head) ≡ false = ==_ne n head (node_head [] n zs r) in
    simp (head_ok, r.forward.0, n_head, unlink_first-done [] n zs r)
