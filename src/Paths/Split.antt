-- ===== src/Paths/Split.antt =====
-- What dirname and basename give of a path.
use neux_os.Prelude.{
  take, drop, ℕ, zero, suc, ◌+◌, ◌-◌, ◌<◌, ◌≡◌, ◌≢◌, refl, ap, sym, ◌∙◌, ◌⊎◌, inl, inr, true, false,
  Bool-cases, List, [], ◌∷◌, ◌++◌, none, some, length, ◌==◌, ==_ne, arith,
}
use neux_os.Strings.Span.{AllOutside}
use neux_os.Paths.{behind_sep, base_of, char_at, last_sep, basename, dirname}

char_at-end : (path : List ℕ) → char_at path (length path) ≡ 0
char_at-end [] = refl
char_at-end (c ∷ path) = char_at-end path

-- The last separator before `n`.
record IsLast (path : List ℕ) (n i : ℕ) : Type 0 where
  inside : i < n
  sep : char_at path i ≡ 47
  after : (j : ℕ) → i < j → j < n → char_at path j ≢ 47

last_sep-cases :
    (n : ℕ) (path : List ℕ)
    → ((last_sep n path ≡ none) × ((j : ℕ) → j < n → char_at path j ≢ 47))
      ⊎ ((i : ℕ) × (last_sep n path ≡ some i) × IsLast path n i)
unfolding last_sep
last_sep-cases zero path = inl (refl, λ j h. absurd (omega arith))
last_sep-cases (suc n) path = elim (Bool-cases (char_at path n == 47)) [
  | inl here ↦ inr (
    n,
    rw here refl,
    record {
      inside = omega arith;
      sep = ground (arith, here);
      after = λ j low high. absurd (omega arith);
    },
  )
  | inr away ↦ elim (last_sep-cases n path) [
    | inl (nowhere, none_before) ↦
        inl (rw away nowhere, λ j h. next j n path away (none_before j) h)
    | inr (i, found, last) ↦ inr (
      i,
      rw away found,
      record {
        inside = omega (arith, last.inside);
        sep = last.sep;
        after = λ j low high. next j n path away (last.after j low) high;
      },
    )
  ]
]
  where
    next :
        (j n : ℕ) (path : List ℕ)
        → (char_at path n == 47) ≡ false
        → (j < n → char_at path j ≢ 47)
        → j < suc n
        → char_at path j ≢ 47
    next j n path away before h = elim (Bool-cases (j == n)) [
      | inl e ↦ λ sep. ground (arith, away, sep, ap (char_at path) (same_place j n e))
      | inr ne ↦ before (ground (arith, ne))
    ]
      where
        same_place : (j n : ℕ) → (j == n) ≡ true → j ≡ n
        same_place j n e = ground arith

split_at :
    (i : ℕ) (path : List ℕ)
    → i < length path
    → take i path ++ char_at path i ∷ drop (suc i) path ≡ path
split_at i [] h = absurd (omega arith)
split_at zero (c ∷ path) h = refl
split_at (suc i) (c ∷ path) h = ap (λ s. c ∷ s) (split_at i path (omega arith))

outside_sep :
    (path : List ℕ) → ((j : ℕ) → j < length path → char_at path j ≢ 47) → AllOutside (47 ∷ []) path
outside_sep [] h = tt
outside_sep (c ∷ path) h =
    let other = ==_ne c 47 (h 0 (omega arith)) in
    (rw other refl, outside_sep path (λ j low. h (suc j) (omega arith)))

char_at-drop : (i j : ℕ) (path : List ℕ) → char_at (drop i path) j ≡ char_at path (i + j)
char_at-drop zero j path = ap (char_at path) (omega arith)
char_at-drop (suc i) j [] = refl
char_at-drop (suc i) j (c ∷ path) =
    let place : suc (i + j) ≡ suc i + j = omega arith in
    char_at-drop i j path ∙ ap (char_at (c ∷ path)) place

length-drop : (i : ℕ) (path : List ℕ) → length (drop i path) ≡ length path - i
length-drop zero path = omega arith
length-drop (suc i) [] = omega arith
length-drop (suc i) (c ∷ path) = omega (arith, length-drop i path)

basename-behind_sep : (path : List ℕ) → basename path ≡ behind_sep (suc (length path)) path
unfolding basename
basename-behind_sep path =
    let nul : (char_at path (length path) == 47) ≡ false = ground (arith, char_at-end path) in
    ap (λ b. base_of b (length path) path) nul

sep_inside : (path : List ℕ) (i : ℕ) → IsLast path (suc (length path)) i → i < length path
sep_inside path i last = elim (Bool-cases (i == length path)) [
  | inl e ↦ absurd (nul_is_sep i (length path) (ground (arith, e)) last.sep)
  | inr ne ↦ ground (arith, ne, last.inside)
]
  where
    nul_is_sep : (i n : ℕ) → i ≡ length path → char_at path i ≡ 47 → ⊥
    nul_is_sep i n e sep = absurd (omega (arith, sep, ap (char_at path) e, char_at-end path))

-- dirname and basename take a path apart at its last separator: what they give has it between them,
-- and there is none in the second part. A path without a separator has the directory ".".
pub dirname-basename :
    (path : List ℕ)
    → (AllOutside (47 ∷ []) path × (dirname path ≡ 46 ∷ []) × (basename path ≡ path))
      ⊎ ((dirname path ++ 47 ∷ basename path ≡ path) × AllOutside (47 ∷ []) (basename path))
unfolding dirname behind_sep
dirname-basename path = elim (last_sep-cases (suc (length path)) path) [
  | inl (nowhere, none_before) ↦ inl (
    outside_sep path (λ j h. none_before j (omega arith)),
    rw (dirname, nowhere) refl,
    rw (basename-behind_sep path, behind_sep, nowhere) refl,
  )
  | inr (i, found, last) ↦
      let inside = sep_inside path i last in
      inr (
        rw (dirname, basename-behind_sep path, behind_sep, found)
            (ap (λ c. take i path ++ c ∷ drop (suc i) path) (sym last.sep)
              ∙ split_at i path inside),
        rw (basename-behind_sep path, behind_sep, found)
            (outside_sep (drop (suc i) path) (λ j h sep.
              last.after (suc i + j) (omega arith) (omega (arith, h, length-drop (suc i) path))
                (sym (char_at-drop (suc i) j path) ∙ sep))),
      )
]
