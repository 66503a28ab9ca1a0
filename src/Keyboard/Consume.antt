-- ===== src/Keyboard/Consume.antt =====
-- The bytes that one call of keyboard_read takes.
use neux_os.Prelude.{
  ℕ, suc, ◌≤◌, ◌≡◌, ◌≢◌, refl, ap, Bool, true, false, Option, some, List, [], ◌∷◌, ◌++◌, length,
  Bool-cases, inl, inr, ◌==◌, ==_ne, arith,
}
use neux_os.Keyboard.Read.{
  Locks, dropped, code, keyrow, key_at, set_lock, pad, add_flags, press, expect, or_code, behind_e0,
  read_scan, keyboard_read,
}

-- `o` is a result that comes from the first bytes of `codes`, `least` to `most` of them.
abbrev pub Takes {ℓ} : {A : Type ℓ} → (least most : ℕ) → List ℕ → Option (A × List ℕ) → Type ℓ
Takes {A} least most codes o =
    (a : A) × (used : List ℕ) × (left : List ℕ) × (o ≡ some (a, left))
    × (codes ≡ used ++ left)
    × (least ≤ length used)
    × (length used ≤ most)

expect-Takes :
    (es codes : List ℕ) → length es ≤ length codes → Takes 0 (length es) codes (expect es codes)
unfolding expect
expect-Takes [] codes h = (true, [], codes, refl, refl, omega arith, omega arith)
expect-Takes (e ∷ es) [] h = absurd (omega arith)
expect-Takes (e ∷ es) (c ∷ codes) h =
    let (ok, used, left, done, split, low, high) = expect-Takes es codes (omega arith) in
    elim (Bool-cases (c == e)) [
      | inl same ↦
          (ok, c ∷ used, left, rw same done, ap (λ xs. c ∷ xs) split, omega arith, omega arith)
      | inr other ↦ (false, c ∷ [], codes, rw other refl, refl, omega arith, omega arith)
    ]

or_code-Takes :
    (c : ℕ) (e0 : Bool) (n : ℕ) (codes : List ℕ) (o : Option (Bool × List ℕ))
    → Takes 0 n codes o
    → Takes 1 (suc n) (c ∷ codes) (or_code c e0 o)
or_code-Takes c e0 n codes o (true, used, left, done, split, low, high) =
    (dropped, c ∷ used, left, rw done refl, ap (λ xs. c ∷ xs) split, omega arith, omega arith)
or_code-Takes c e0 n codes o (false, used, left, done, split, low, high) =
    (code c e0, c ∷ used, left, rw done refl, ap (λ xs. c ∷ xs) split, omega arith, omega arith)

Takes-le :
    {A : Type 0} {least most more : ℕ} {codes : List ℕ} {o : Option (A × List ℕ)}
    → most ≤ more
    → Takes least most codes o
    → Takes least more codes o
Takes-le h (a, used, left, done, split, low, high) = (a, used, left, done, split, low, omega arith)

behind_e0-Takes : (codes : List ℕ) → 5 ≤ length codes → Takes 1 5 codes (behind_e0 codes)
unfolding behind_e0
behind_e0-Takes [] h = absurd (omega arith)
behind_e0-Takes (d ∷ codes) h = elim (Bool-cases (d == 0x2a)) [
  | inl down ↦
      rw (behind_e0, down)
        (Takes-le (omega arith)
          (or_code-Takes d true 2 codes _ (expect-Takes (0xe0 ∷ 0x37 ∷ []) codes (omega arith))))
  | inr c1 ↦ elim (Bool-cases (d == 0xb7)) [
    | inl up ↦
        rw (behind_e0, c1, up)
          (Takes-le (omega arith)
            (or_code-Takes d true 2 codes _ (expect-Takes (0xe0 ∷ 0xaa ∷ []) codes (omega arith))))
    | inr c2 ↦
        rw (behind_e0, c1, c2) (code d true, d ∷ [], codes, refl, refl, omega arith, omega arith)
  ]
]

read_scan-Takes : (codes : List ℕ) → 6 ≤ length codes → Takes 1 6 codes (read_scan codes)
unfolding read_scan
read_scan-Takes [] h = absurd (omega arith)
read_scan-Takes (c ∷ codes) h = elim (Bool-cases (c == 0xe1)) [
  | inl pause ↦
      rw (read_scan, pause)
        (or_code-Takes c false 5 codes _
          (expect-Takes (0x1d ∷ 0x45 ∷ 0xe1 ∷ 0x9d ∷ 0xc5 ∷ []) codes (omega arith)))
  | inr c1 ↦ elim (Bool-cases (c == 0xe0)) [
    | inl extended ↦
        let (a, used, left, done, split, low, high) = behind_e0-Takes codes (omega arith) in
        rw (read_scan, c1, extended)
          (a, c ∷ used, left, done, ap (λ xs. c ∷ xs) split, omega arith, omega arith)
    | inr c2 ↦
        rw (read_scan, c1, c2) (code c false, c ∷ [], codes, refl, refl, omega arith, omega arith)
  ]
]

-- With six bytes that wait, what a call reads of them ends, and takes one to six. The waits of set_leds
-- are not in this.
pub keyboard_read-Takes :
    (codes : List ℕ) (k : Locks)
    → 6 ≤ length codes
    → (key : Option ℕ) × (k' : Locks) × (used : List ℕ) × (left : List ℕ) × (keyboard_read codes k
        ≡ some (key, k', left))
      × (codes ≡ used ++ left)
      × (1 ≤ length used)
      × (length used ≤ 6)
unfolding keyboard_read
keyboard_read-Takes codes k h =
    let (scan, used, left, done, split, low, high) = read_scan-Takes codes h in
    (
      (press scan k).0,
      (press scan k).1,
      used,
      left,
      rw (keyboard_read, done) refl,
      split,
      low,
      high,
    )

-- Of 0xe0 0x2a 0xe0, as a keyboard sends it before an arrow while num lock is on, and a byte that is
-- not 0x37, the handler gets the key 0 with the flags, and that byte is lost.
pub keyboard_read_lost :
    (c : ℕ) (rest : List ℕ) (k : Locks)
    → c ≢ 0x37
    → keyboard_read (0xe0 ∷ 0x2a ∷ 0xe0 ∷ c ∷ rest) k ≡ some (some (add_flags k 0), k, rest)
unfolding keyboard_read read_scan behind_e0 expect press key_at keyrow set_lock pad
keyboard_read_lost c rest k h = let other = ==_ne c 0x37 h in rw (keyboard_read, other) refl
