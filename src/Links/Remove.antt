-- ===== src/Links/Remove.antt =====
-- The links after LIST_DEL and LIST_DEL_HEAD.
use neux_os.Prelude.{ℕ, ◌≡◌, ◌≢◌, false, List, [], ◌∷◌, ◌++◌, arith}
use neux_os.Links.{Links, null, update}
use neux_os.Links.Chain.{
  has, Distinct, Apart, last_or, first_or, Forward, Backward, Ring, SameOutside, has-append,
  has-last_or, Forward-frame, Backward-frame,
}

-- `node` taken out from between `before` and `after`, its own links cleared
abbrev pub removed : Links → (before node after : ℕ) → Links
removed m before node after = record {
  next = update (update m.next before after) node null;
  prev = update (update m.prev after before) node null;
}

Apart-pair : (a b : ℕ) (xs : List ℕ) → has a xs ≡ false → has b xs ≡ false → Apart xs (a ∷ b ∷ [])
Apart-pair a b [] ha hb = tt
Apart-pair a b (x ∷ xs) ha hb = (ground arith, Apart-pair a b xs (ground arith) (ground arith))

pub has-first_or : (a q : ℕ) (xs : List ℕ) → has a (q ∷ xs) ≡ false → a ≢ first_or q xs
has-first_or a q [] h = ground arith
has-first_or a q (x ∷ xs) h = ground arith

pub Forward-at :
    (f : ℕ → ℕ) (p : ℕ) (ys : List ℕ) (n : ℕ) (zs : List ℕ) (q : ℕ)
    → Forward f p (ys ++ n ∷ zs) q
    → f n ≡ first_or q zs
Forward-at f p [] n [] q c = c.1
Forward-at f p [] n (z ∷ zs) q c = c.1.0
Forward-at f p (y ∷ ys) n zs q c = Forward-at f y ys n zs q c.1

pub Backward-at :
    (f : ℕ → ℕ) (p : ℕ) (ys : List ℕ) (n : ℕ) (zs : List ℕ) (q : ℕ)
    → Backward f p (ys ++ n ∷ zs) q
    → f n ≡ last_or p ys
Backward-at f p [] n zs q c = c.0
Backward-at f p (y ∷ ys) n zs q c = Backward-at f y ys n zs q c.1

Forward-removed :
    (f : ℕ → ℕ) (p : ℕ) (ys : List ℕ) (n : ℕ) (zs : List ℕ) (q : ℕ)
    → Distinct (p ∷ ys ++ n ∷ zs)
    → Forward f p (ys ++ n ∷ zs) q
    → Forward (update (update f (last_or p ys) (first_or q zs)) n null) p (ys ++ zs) q
Forward-removed f p [] n [] q d c = ground arith
Forward-removed f p [] n (z ∷ zs) q d c = (
  ground arith,
  Forward-frame f (update (update f p z) n null) (n ∷ p ∷ []) z zs q (λ a h. ground arith)
      (Apart-pair n p (z ∷ zs) d.1.0 (ground arith)) c.1.1,
)
Forward-removed f p (y ∷ ys) n zs q d c = (
  ground (arith, has-last_or p y ys, has-append p (y ∷ ys) (n ∷ zs)),
  Forward-removed f y ys n zs q d.1 c.1,
)

Backward-removed :
    (f : ℕ → ℕ) (p : ℕ) (ys : List ℕ) (n : ℕ) (zs : List ℕ) (q : ℕ)
    → Distinct (ys ++ n ∷ zs)
    → has q (ys ++ n ∷ zs) ≡ false
    → Backward f p (ys ++ n ∷ zs) q
    → Backward (update (update f (first_or q zs) (last_or p ys)) n null) p (ys ++ zs) q
Backward-removed f p [] n [] q d out c = ground arith
Backward-removed f p [] n (z ∷ zs) q d out c = (
  ground arith,
  Backward-frame f (update (update f z p) n null) (n ∷ z ∷ []) z zs q (λ a h. ground arith)
      (Apart-pair n z (q ∷ zs) (ground arith) (ground arith)) c.1.1,
)
Backward-removed f p (y ∷ ys) n zs q d out c = (
  ground (arith, has-first_or y q zs, has-append y ys (n ∷ zs)),
  Backward-removed f y ys n zs q d.1 (ground arith) c.1,
)

pub has-remove :
    (a : ℕ) (ys : List ℕ) (n : ℕ) (zs : List ℕ)
    → has a (ys ++ n ∷ zs) ≡ false
    → has a (ys ++ zs) ≡ false
has-remove a ys n zs h = ground (arith, has-append a ys (n ∷ zs), has-append a ys zs)

Distinct-remove :
    (ys : List ℕ) (n : ℕ) (zs : List ℕ) → Distinct (ys ++ n ∷ zs) → Distinct (ys ++ zs)
Distinct-remove [] n zs d = d.1
Distinct-remove (y ∷ ys) n zs d = (has-remove y ys n zs d.0, Distinct-remove ys n zs d.1)

module _ {m : Links} {head : ℕ} (ys : List ℕ) (n : ℕ) (zs : List ℕ)
    (r : Ring m head (ys ++ n ∷ zs)) where
  pub Ring-removed : Ring (removed m (last_or head ys) n (first_or head zs)) head (ys ++ zs)
  Ring-removed = record {
    forward = Forward-removed m.next head ys n zs head r.distinct r.forward;
    backward = Backward-removed m.prev head ys n zs head r.distinct.1 r.distinct.0 r.backward;
    distinct = Distinct-remove (head ∷ ys) n zs r.distinct;
    non_null = has-remove null (head ∷ ys) n zs r.non_null;
  }

  pub SameOutside-removed :
      SameOutside (head ∷ ys ++ n ∷ zs) m (removed m (last_or head ys) n (first_or head zs))
  SameOutside-removed a out =
      ground (arith, has-append a ys (n ∷ zs), has-last_or a head ys, has-first_or a head zs)
