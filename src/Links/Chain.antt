-- ===== src/Links/Chain.antt =====
-- What it is for links to form a ring through a list of nodes.
use neux_os.Prelude.{ℕ, ◌≡◌, refl, ◌≢◌, Bool, false, ◌||◌, List, [], ◌∷◌, ◌++◌, arith, ◌==◌}
use neux_os.Links.{Links, null}

abbrev pub has : ℕ → List ℕ → Bool
has a [] = false
has a (x ∷ xs) = (a == x) || has a xs

abbrev pub Distinct : List ℕ → Type 0
Distinct [] = Unit
Distinct (x ∷ xs) = (has x xs ≡ false) × Distinct xs

-- No node of the first list is in the second.
abbrev pub Apart : List ℕ → List ℕ → Type 0
Apart [] ys = Unit
Apart (x ∷ xs) ys = (has x ys ≡ false) × Apart xs ys

abbrev pub last_or : ℕ → List ℕ → ℕ
last_or p [] = p
last_or p (x ∷ xs) = last_or x xs

abbrev pub first_or : ℕ → List ℕ → ℕ
first_or q [] = q
first_or q (x ∷ xs) = x

-- From `p` the function leads through the nodes to `q`.
abbrev pub Forward : (ℕ → ℕ) → ℕ → List ℕ → ℕ → Type 0
Forward next p [] q = next p ≡ q
Forward next p (x ∷ xs) q = (next p ≡ x) × Forward next x xs q

-- From `q` it leads through the nodes, last first, to `p`.
abbrev pub Backward : (ℕ → ℕ) → ℕ → List ℕ → ℕ → Type 0
Backward prev p [] q = prev q ≡ p
Backward prev p (x ∷ xs) q = (prev x ≡ p) × Backward prev x xs q

-- The list with this head holds these nodes, in this order.
pub record Ring (m : Links) (head : ℕ) (xs : List ℕ) : Type 0 where
  pub forward : Forward m.next head xs head
  pub backward : Backward m.prev head xs head
  pub distinct : Distinct (head ∷ xs)
  pub non_null : has null (head ∷ xs) ≡ false

-- Only the links of these nodes may differ.
abbrev pub SameOutside : List ℕ → Links → Links → Type 0
SameOutside zs m m' = (a : ℕ) → has a zs ≡ false → (m'.next a ≡ m.next a) × (m'.prev a ≡ m.prev a)

pub has-append : (a : ℕ) (xs ys : List ℕ) → has a (xs ++ ys) ≡ (has a xs || has a ys)
has-append a [] ys = refl
has-append a (x ∷ xs) ys = ground (arith, has-append a xs ys)

pub has-last_or : (a p : ℕ) (xs : List ℕ) → has a (p ∷ xs) ≡ false → a ≢ last_or p xs
has-last_or a p [] h = ground arith
has-last_or a p (x ∷ xs) h = has-last_or a x xs (ground arith)

pub Forward-frame :
    (f g : ℕ → ℕ) (zs : List ℕ) (p : ℕ) (xs : List ℕ) (q : ℕ)
    → ((a : ℕ) → has a zs ≡ false → g a ≡ f a)
    → Apart (p ∷ xs) zs
    → Forward f p xs q
    → Forward g p xs q
Forward-frame f g zs p [] q same out h = ground (arith, same p)
Forward-frame f g zs p (x ∷ xs) q same out h =
    (ground (arith, same p), Forward-frame f g zs x xs q same out.1 h.1)

pub Backward-frame :
    (f g : ℕ → ℕ) (zs : List ℕ) (p : ℕ) (xs : List ℕ) (q : ℕ)
    → ((a : ℕ) → has a zs ≡ false → g a ≡ f a)
    → Apart (q ∷ xs) zs
    → Backward f p xs q
    → Backward g p xs q
Backward-frame f g zs p [] q same out h = ground (arith, same q)
Backward-frame f g zs p (x ∷ xs) q same out h =
    (ground (arith, same x), Backward-frame f g zs x xs q same (out.0, out.1.1) h.1)

-- A change elsewhere leaves a ring as it was.
pub Ring-frame :
    {m m' : Links} {head : ℕ} {xs : List ℕ} (zs : List ℕ)
    → SameOutside zs m m'
    → Apart (head ∷ xs) zs
    → Ring m head xs
    → Ring m' head xs
Ring-frame {m} {m'} {head} {xs} zs same out r = record {
  forward = Forward-frame m.next m'.next zs head xs head (λ a h. (same a h).0) out r.forward;
  backward = Backward-frame m.prev m'.prev zs head xs head (λ a h. (same a h).1) out r.backward;
  distinct = r.distinct;
  non_null = r.non_null;
}
