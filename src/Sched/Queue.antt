-- ===== src/Sched/Queue.antt =====
-- What the switch functions need of the lists: which links they may write, and what stays outside.
use neux_os.Prelude.{ℕ, ◌≡◌, refl, ◌∙◌, false, List, [], ◌∷◌, arith, ◌<◌, ◌^◌, length}
use neux_os.Links.{Links}
use neux_os.Links.Chain.{has, SameOutside}
use neux_os.Links.Refine.{rest}
use neux_os.Sched.{member, container_of}

pub has-rest : (a : ℕ) (xs : List ℕ) → has a xs ≡ false → has a (rest xs) ≡ false
has-rest a [] h = refl
has-rest a (x ∷ xs) h = ground arith

pub length-rest : (xs : List ℕ) (n : ℕ) → length xs < n → length (rest xs) < n
length-rest [] n h = h
length-rest (x ∷ xs) n h = omega arith

-- Two runs of writes one after the other.
pub SameOutside-trans :
    {l m n : Links} (xs ys zs : List ℕ)
    → SameOutside xs l m
    → SameOutside ys m n
    → ((a : ℕ) → has a zs ≡ false → has a xs ≡ false)
    → ((a : ℕ) → has a zs ≡ false → has a ys ≡ false)
    → SameOutside zs l n
SameOutside-trans xs ys zs f g hx hy a out =
    let p = f a (hx a out) in let q = g a (hy a out) in (q.0 ∙ p.0, q.1 ∙ p.1)

pub SameOutside-refl : (m : Links) (zs : List ℕ) → SameOutside zs m m
SameOutside-refl m zs a out = (refl, refl)

-- A task whose hook is at a 32-bit address is found again from its hook, and the other way round.
pub container_of-member :
    (offset task : ℕ)
    → offset < 2 ^ 32
    → task < 2 ^ 32
    → container_of offset (member offset task) ≡ task
container_of-member offset task ho ht = ground arith

pub member-container_of :
    (offset node : ℕ)
    → offset < 2 ^ 32
    → node < 2 ^ 32
    → member offset (container_of offset node) ≡ node
member-container_of offset node ho hn = ground arith
