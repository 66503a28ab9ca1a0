-- ===== src/Bitmap/Free.antt =====
-- The bitmap as the set of the indices that are in use.
use Prim.Native.Nat.{bit_and, bit_or}
use neux_os.Prelude.{
  ℕ, zero, suc, ◌+◌, ◌-◌, ◌/◌, ◌%◌, ◌^◌, ◌<◌, ◌≤◌, ◌≡◌, refl, ap, sym, ◌∙◌, ◌⊎◌, inl, inr, Bool,
  true, false, not, ◌&&◌, Bool-cases, none, some, ◌==◌, ltb, ltb→lt, if◌then◌else◌, arith,
}
use neux_os.Prelude.Below.{both, same, same_eq, all_below, all_below-at}
use neux_os.Bitmap.{Bitmap, bitmap_set, bitmap_clr, bitmap_bit, first_free, bitmap_get, bitmap_put}

abbrev bit_set : ℕ → ℕ → Bool
bit_set x j = not (bit_and x (2 ^ j) == 0)

abbrev bit_laws : ℕ → ℕ → ℕ → Bool
bit_laws x k j =
    ltb (bit_or x (2 ^ k)) 256
    && (same (bit_set (bit_or x (2 ^ k)) j) (if j == k then true else bit_set x j)
        && same (bit_set (bit_and x (255 - 2 ^ k)) j) (if j == k then false else bit_set x j))

bit_laws_hold : all_below 256 (λ x. all_below 8 (λ k. all_below 8 (λ j. bit_laws x k j))) ≡ true
bit_laws_hold = refl

abbrev pub is_used : Bitmap → ℕ → Bool
is_used bp i = not (bitmap_bit bp.bits i == 0)

abbrev pub AllBytes : Bitmap → Type 0
AllBytes bp = (i : ℕ) → bp.bits i < 256

laws_at :
    (x k j : ℕ)
    → x < 256
    → k < 8
    → j < 8
    → (bit_or x (2 ^ k) < 256)
      × (bit_set (bit_or x (2 ^ k)) j ≡ (if j == k then true else bit_set x j))
      × (bit_set (bit_and x (255 - 2 ^ k)) j ≡ (if j == k then false else bit_set x j))
laws_at x k j hx hk hj =
    let of_byte =
      all_below-at 256 (λ x. all_below 8 (λ k. all_below 8 (λ j. bit_laws x k j))) x bit_laws_hold
        hx in
    let of_bit = all_below-at 8 (λ k. all_below 8 (λ j. bit_laws x k j)) k of_byte hk in
    let law = all_below-at 8 (λ j. bit_laws x k j) j of_bit hj in
    let (byte, others) = both _ _ law in
    let (set, clear) = both _ _ others in (ltb→lt _ _ byte, same_eq _ _ set, same_eq _ _ clear)

pub set-is_used :
    (bits : ℕ → ℕ) (i j : ℕ)
    → bits (i / 8) < 256
    → not (bitmap_bit (bitmap_set bits i) j == 0)
      ≡ (if j == i then true else not (bitmap_bit bits j == 0))
set-is_used bits i j h = elim (Bool-cases (j / 8 == i / 8)) [
  | inl byte ↦
      let index : j / 8 ≡ i / 8 = ground (arith, byte) in
      let (low, set, clear) =
        laws_at (bits (i / 8)) (i % 8) (j % 8) h (omega arith) (omega arith) in
      let bit : (j == i) ≡ (j % 8 == i % 8) = ground (arith, byte) in rw (byte, bit, index) set
  | inr other ↦ let apart : (j == i) ≡ false = ground (arith, other) in rw (other, apart) refl
]

pub clr-is_used :
    (bits : ℕ → ℕ) (i j : ℕ)
    → bits (i / 8) < 256
    → not (bitmap_bit (bitmap_clr bits i) j == 0)
      ≡ (if j == i then false else not (bitmap_bit bits j == 0))
clr-is_used bits i j h = elim (Bool-cases (j / 8 == i / 8)) [
  | inl byte ↦
      let index : j / 8 ≡ i / 8 = ground (arith, byte) in
      let (low, set, clear) =
        laws_at (bits (i / 8)) (i % 8) (j % 8) h (omega arith) (omega arith) in
      let bit : (j == i) ≡ (j % 8 == i % 8) = ground (arith, byte) in rw (byte, bit, index) clear
  | inr other ↦ let apart : (j == i) ≡ false = ground (arith, other) in rw (other, apart) refl
]

pub record IsFirst (bp : Bitmap) (i f : ℕ) : Type 0 where
  pub above : i ≤ f
  pub inside : f ≤ bp.size
  pub used : (j : ℕ) → i ≤ j → j < f → is_used bp j ≡ true
  pub free : f < bp.size → is_used bp f ≡ false

pub first_free-IsFirst :
    (rounds i : ℕ) (bp : Bitmap) → i + rounds ≡ bp.size → IsFirst bp i (first_free rounds i bp)
unfolding first_free
first_free-IsFirst zero i bp e = record {
  above = omega arith;
  inside = omega arith;
  used = λ j low high. absurd (omega arith);
  free = λ h. absurd (omega arith);
}
first_free-IsFirst (suc rounds) i bp e =
    let room : ltb i bp.size ≡ true = ground arith in
    elim (Bool-cases (bitmap_bit bp.bits i == 0)) [
      | inl free ↦
          rw (first_free, room, free)
            (record {
              above = omega arith;
              inside = omega arith;
              used = λ j low high. absurd (omega arith);
              free = λ h. rw free refl;
            })
      | inr taken ↦
          let later = first_free-IsFirst rounds (i + 1) bp (omega arith) in
          rw (first_free, room, taken)
            (record {
              above = omega (arith, later.above);
              inside = later.inside;
              used = λ j low high. elim (Bool-cases (j == i)) [
                | inl e ↦ ap (is_used bp) (ground (arith, e)) ∙ ap not taken
                | inr ne ↦ later.used j (ground (arith, ne)) high
              ];
              free = later.free;
            })
    ]

-- An index that is taken and given back.
pub clr-set-is_used :
    (bits : ℕ → ℕ) (i j : ℕ)
    → bits (i / 8) < 256
    → not (bitmap_bit bits i == 0) ≡ false
    → not (bitmap_bit (bitmap_clr (bitmap_set bits i) i) j == 0) ≡ not (bitmap_bit bits j == 0)
clr-set-is_used bits i j bytes free =
    let (low, set, clear) =
      laws_at (bits (i / 8)) (i % 8) (i % 8) bytes (omega arith) (omega arith) in
    let byte : bitmap_set bits i (i / 8) < 256 = ground (arith, low) in
    clr-is_used (bitmap_set bits i) i j byte
    ∙ ap (λ b. if j == i then false else b) (set-is_used bits i j bytes)
    ∙ back
  where
    back :
        (if j == i then false else if j == i then true else not (bitmap_bit bits j == 0))
        ≡ not (bitmap_bit bits j == 0)
    back = elim (Bool-cases (j == i)) [
      | inl e ↦ rw e (
          let same : j ≡ i = ground (arith, e) in
          sym (ap (λ k. not (bitmap_bit bits k == 0)) same ∙ free))
      | inr ne ↦ rw ne refl
    ]

put-is_used :
    (bp : Bitmap) (i j : ℕ)
    → AllBytes bp
    → i < bp.size
    → bp.size < 2 ^ 31
    → is_used bp i ≡ false
    → is_used (bitmap_put i (record bp { bits = bitmap_set bp.bits i })) j ≡ is_used bp j
unfolding bitmap_put
put-is_used bp i j bytes inside small free =
    let kept : ltb ((bp.size + (2 ^ 32 - 1)) % 2 ^ 32) i ≡ false = ground arith in
    rw kept (clr-set-is_used bp.bits i j (bytes (i / 8)) free)

-- With bits that are all in use, a bitmap gives none and stays as it is. Otherwise it gives the first
-- index that is not in use, and takes that one and no other; putting it back restores every bit.
pub bitmap_get-first :
    (bp : Bitmap)
    → 0 < bp.size
    → bp.size < 2 ^ 31
    → AllBytes bp
    → ((bitmap_get bp ≡ (none, bp)) × ((j : ℕ) → j < bp.size → is_used bp j ≡ true))
      ⊎ ((i : ℕ) × (bp' : Bitmap) × (bitmap_get bp ≡ (some i, bp'))
          × (i < bp.size)
          × (is_used bp i ≡ false)
          × ((j : ℕ) → j < i → is_used bp j ≡ true)
          × ((j : ℕ) → is_used bp' j ≡ (if j == i then true else is_used bp j))
          × ((j : ℕ) → is_used (bitmap_put i bp') j ≡ is_used bp j))
unfolding bitmap_get
bitmap_get-first bp pos small bytes =
    let i = first_free bp.size 0 bp in
    let first = first_free-IsFirst bp.size 0 bp (omega arith) in
    elim (Bool-cases (i == bp.size)) [
      | inl full ↦
          let none_left : ltb ((bp.size + (2 ^ 32 - 1)) % 2 ^ 32) i ≡ true = ground (arith, full) in
          inl (
            rw (bitmap_get, none_left) refl,
            λ j h. first.used j (omega arith) (ground (arith, full)),
          )
      | inr room ↦
          let inside : i < bp.size = ground (arith, room, first.inside) in
          let found : ltb ((bp.size + (2 ^ 32 - 1)) % 2 ^ 32) i ≡ false = ground arith in
          inr (
            i,
            record bp { bits = bitmap_set bp.bits i },
            rw (bitmap_get, found) refl,
            inside,
            first.free inside,
            λ j h. first.used j (omega arith) h,
            λ j. set-is_used bp.bits i j (bytes (i / 8)),
            λ j. put-is_used bp i j bytes inside small (first.free inside),
          )
    ]
