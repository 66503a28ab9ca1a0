-- ===== src/Interrupts/Masks.antt =====
-- The lines that the controllers pass on.
use Prim.Native.Nat.{bit_and}
use neux_os.Prelude.{
  ℕ, ◌-◌, ◌^◌, ◌<◌, ◌≤◌, ◌≡◌, refl, Bool, true, false, not, ◌&&◌, Bool-cases, inl, inr, ◌==◌, ltb,
  if◌then◌else◌, arith,
}
use neux_os.Prelude.Below.{both, same, same_eq, all_below, all_below-at}
use neux_os.Interrupts.{Controllers, enable_irq_n, disable_irq_n}

-- A line of the vector is masked.
abbrev masked_bit : ℕ → ℕ → Bool
masked_bit mask bit = not (bit_and mask (2 ^ bit) == 0)

abbrev pub masked : Controllers → ℕ → Bool
masked c vector =
    if ltb (vector - 0x20) 8
    then masked_bit c.master (vector - 0x20)
    else masked_bit c.slave (vector - 0x28)

abbrev mask_laws : ℕ → ℕ → ℕ → Bool
mask_laws m k j =
    same (masked_bit (bit_and m (255 - 2 ^ k)) j) (if j == k then false else masked_bit m j)
    && same (masked_bit (bit_and m (2 ^ k)) j) (if j == k then masked_bit m j else false)

mask_laws_hold : all_below 256 (λ m. all_below 8 (λ k. all_below 8 (λ j. mask_laws m k j))) ≡ true
mask_laws_hold = refl

mask_laws-at :
    (m k j : ℕ)
    → m < 256
    → k < 8
    → j < 8
    → (masked_bit (bit_and m (255 - 2 ^ k)) j ≡ (if j == k then false else masked_bit m j))
      × (masked_bit (bit_and m (2 ^ k)) j ≡ (if j == k then masked_bit m j else false))
mask_laws-at m k j hm hk hj =
    let of_mask =
      all_below-at 256 (λ m. all_below 8 (λ k. all_below 8 (λ j. mask_laws m k j))) m mask_laws_hold
        hm in
    let of_bit = all_below-at 8 (λ k. all_below 8 (λ j. mask_laws m k j)) k of_mask hk in
    let law = all_below-at 8 (λ j. mask_laws m k j) j of_bit hj in
    let (clear, keep) = both _ _ law in (same_eq _ _ clear, same_eq _ _ keep)

-- Of the lines of the two controllers, whose masks are bytes, enable_irq_n passes on the one of its
-- vector and leaves every other as it was. disable_irq_n leaves the one of its vector as it was, and
-- passes on every other line of the same controller.
pub enable_irq_n-masked :
    (vector line : ℕ) (c : Controllers)
    → 0x20 ≤ vector
    → vector < 0x30
    → 0x20 ≤ line
    → line < 0x30
    → c.master < 256
    → c.slave < 256
    → (masked (enable_irq_n vector c) line ≡ (if line == vector then false else masked c line))
      × (masked (disable_irq_n vector c) line ≡ (
          if line == vector
          then masked c line
          else if same (ltb (line - 0x20) 8) (ltb (vector - 0x20) 8)
          then false
          else masked c line))
unfolding enable_irq_n disable_irq_n
enable_irq_n-masked vector line c lv hv ll hl hm hs = elim (Bool-cases (ltb (vector - 0x20) 8)) [
  | inl mv ↦ elim (Bool-cases (ltb (line - 0x20) 8)) [
    | inl ml ↦
        let bit : (line == vector) ≡ (line - 0x20 == vector - 0x20) = ground arith in
        let laws =
          mask_laws-at c.master (vector - 0x20) (line - 0x20) hm (ground arith) (ground arith) in
        rw (enable_irq_n, disable_irq_n, mv, ml, bit) laws
    | inr sl ↦
        let apart : (line == vector) ≡ false = ground arith in
        rw (enable_irq_n, disable_irq_n, mv, sl, apart) (refl, refl)
  ]
  | inr sv ↦ elim (Bool-cases (ltb (line - 0x20) 8)) [
    | inl ml ↦
        let apart : (line == vector) ≡ false = ground arith in
        rw (enable_irq_n, disable_irq_n, sv, ml, apart) (refl, refl)
    | inr sl ↦
        let bit : (line == vector) ≡ (line - 0x28 == vector - 0x28) = ground arith in
        let laws =
          mask_laws-at c.slave (vector - 0x28) (line - 0x28) hs (ground arith) (ground arith) in
        rw (enable_irq_n, disable_irq_n, sv, sl, bit) laws
  ]
]
