-- ===== src/Links/Append.antt =====
-- The links after LIST_ADD_TAIL.
use neux_os.Prelude.{ℕ, ◌≡◌, refl, ◌≢◌, false, List, [], ◌∷◌, ◌++◌, arith}
use neux_os.Links.{Links, null, update}
use neux_os.Links.Chain.{
  has, Distinct, last_or, Forward, Backward, Ring, SameOutside, has-append, has-last_or,
}

-- `node` linked in between `last` and `head`
abbrev pub added : Links → (head last node : ℕ) → Links
added m head last node = record {
  next = update (update m.next last node) node head;
  prev = update (update m.prev node last) head node;
}

Forward-added :
    (f : ℕ → ℕ) (p : ℕ) (xs : List ℕ) (q n h : ℕ)
    → Distinct (p ∷ xs)
    → has n (p ∷ xs) ≡ false
    → Forward f p xs q
    → Forward (update (update f (last_or p xs) n) n h) p (xs ++ n ∷ []) h
Forward-added f p [] q n h d out c = (ground arith, ground arith)
Forward-added f p (x ∷ xs) q n h d out c =
    (ground (arith, has-last_or p x xs), Forward-added f x xs q n h d.1 (ground arith) c.1)

Backward-added :
    (f : ℕ → ℕ) (p : ℕ) (xs : List ℕ) (q n : ℕ)
    → has q xs ≡ false
    → has n (q ∷ xs) ≡ false
    → Backward f p xs q
    → Backward (update (update f n (last_or p xs)) q n) p (xs ++ n ∷ []) q
Backward-added f p [] q n d out c = (ground arith, ground arith)
Backward-added f p (x ∷ xs) q n d out c =
    (ground arith, Backward-added f x xs q n (ground arith) (ground arith) c.1)

Distinct-append : (xs : List ℕ) (n : ℕ) → Distinct xs → has n xs ≡ false → Distinct (xs ++ n ∷ [])
Distinct-append [] n d out = (refl, tt)
Distinct-append (x ∷ xs) n d out =
    (ground (arith, has-append x xs (n ∷ [])), Distinct-append xs n d.1 (ground arith))

module _ {m : Links} {head : ℕ} {xs : List ℕ} (n : ℕ) (r : Ring m head xs) where
  pub Ring-added :
      has n (head ∷ xs) ≡ false
      → n ≢ null
      → Ring (added m head (last_or head xs) n) head (xs ++ n ∷ [])
  Ring-added out ne = record {
    forward = Forward-added m.next head xs head n head r.distinct out r.forward;
    backward = Backward-added m.prev head xs head n r.distinct.0 out r.backward;
    distinct = Distinct-append (head ∷ xs) n r.distinct out;
    non_null = ground (arith, r.non_null, has-append null xs (n ∷ []));
  }

  pub SameOutside-added : SameOutside (n ∷ head ∷ xs) m (added m head (last_or head xs) n)
  SameOutside-added a out = ground (arith, has-last_or a head xs)
