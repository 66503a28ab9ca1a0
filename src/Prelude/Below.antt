-- ===== src/Prelude/Below.antt =====
-- Tests of all numbers below a bound.
use Prim.Native.Nat.{ℕ, zero, suc, ◌<◌}
use mathlib.Core.Path.{◌≡◌, sym, ap, ◌∙◌}
use mathlib.Core.Logic.{inl, inr}
use mathlib.Core.Bool.{Bool, true, false, not, ◌&&◌}
use native.Mathlib.Omega.{arith}
use neux_os.Prelude.Tests.{◌==◌, Bool-cases}

pub both : (a b : Bool) → (a && b) ≡ true → (a ≡ true) × (b ≡ true)
both a b h = (ground arith, ground arith)

abbrev pub same : Bool → Bool → Bool
same true b = b
same false b = not b

pub same_eq : (a b : Bool) → same a b ≡ true → a ≡ b
same_eq true b h = sym h
same_eq false b h = ground arith

abbrev pub all_below : ℕ → (ℕ → Bool) → Bool
all_below zero p = true
all_below (suc n) p = p n && all_below n p

pub all_below-at : (n : ℕ) (p : ℕ → Bool) (i : ℕ) → all_below n p ≡ true → i < n → p i ≡ true
all_below-at zero p i h lt = absurd (omega arith)
all_below-at (suc n) p i h lt =
    let (now, later) = both (p n) (all_below n p) h in
    elim (Bool-cases (i == n)) [
      | inl e ↦ ap p (ground (arith, e)) ∙ now
      | inr ne ↦ all_below-at n p i later (ground arith)
    ]
