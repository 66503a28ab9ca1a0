-- ===== src/Strings/Compare.antt =====
-- Comparison of strings.
use neux_os.Prelude.{
  ℕ, suc, ◌-◌, ◌<◌, ◌≡◌, refl, ap, ◌∙◌, List, [], ◌∷◌, ◌++◌, length, true, false, not, ◌&&◌,
  Bool-cases, inl, inr, ◌↔◌, ◌==◌, arith,
}
use neux_os.Strings.{char_diff, char_at, strcmp, strncmp_loop, strncmp, startswith}

-- The characters of a string: bytes that are not NUL.
abbrev pub IsString : List ℕ → Type 0
IsString [] = Unit
IsString (c ∷ s) = ((0 < c) × (c < 256)) × IsString s

pub char_diff-zero : (c d : ℕ) → c < 256 → d < 256 → char_diff c d ≡ 0 → c ≡ d
char_diff-zero c d hc hd e = ground arith

abbrev rest_of : List ℕ → List ℕ
rest_of [] = []
rest_of (c ∷ s) = s

-- strcmp returns 0 exactly for equal strings.
strcmp-zero : (a b : List ℕ) → IsString a → IsString b → (strcmp a b ≡ 0) ↔ (a ≡ b)
unfolding strcmp
strcmp-zero [] [] ha hb = (λ e. refl, λ e. refl)
strcmp-zero [] (d ∷ b) ha hb =
    (λ e. absurd (ground (arith, e, hb.0)), λ e. absurd (omega (arith, ap length e)))
strcmp-zero (c ∷ a) [] ha hb =
    (λ e. absurd (ground (arith, e, ha.0)), λ e. absurd (omega (arith, ap length e)))
strcmp-zero (c ∷ a) (d ∷ b) ha hb =
    let tails = strcmp-zero a b ha.1 hb.1 in
    elim (Bool-cases (c == d)) [
      | inl same ↦
          let eq : c ≡ d = ground arith in
          rw same
            (λ e. ap (λ n. n ∷ a) eq ∙ ap (λ t. d ∷ t) (tails.0 e), λ e. tails.1 (ap rest_of e))
      | inr other ↦ rw other (
        λ e. absurd (ground (arith, char_diff-zero c d ha.0.1 hb.0.1 e)),
        λ e. absurd (ground (arith, ap char_at e)),
      )
    ]

abbrev pub HasPrefix : List ℕ → List ℕ → Type 0
HasPrefix a b = (rest : List ℕ) × (a ≡ b ++ rest)

append_of_length : (b a : List ℕ) → length b ≡ 0 → a ≡ b ++ a
append_of_length [] a e = refl
append_of_length (d ∷ b) a e = absurd (omega arith)

HasPrefix-loop :
    (n : ℕ) (a b : List ℕ)
    → IsString a
    → IsString b
    → length b ≡ n
    → 0 < n
    → (strncmp_loop n a b ≡ 0) ↔ HasPrefix a b
unfolding strncmp_loop
HasPrefix-loop n a [] ha hb e pos = absurd (omega arith)
HasPrefix-loop n [] (d ∷ b) ha hb e pos =
    (λ z. absurd (ground (arith, z, hb.0)), λ h. absurd (omega (arith, ap length h.1)))
HasPrefix-loop n (c ∷ a) (d ∷ b) ha hb e pos = elim (Bool-cases (c == d)) [
  | inr other ↦
      let stop : (not (n == 1) && c == d) ≡ false = ground arith in
      rw stop (
        λ z. absurd (ground (arith, char_diff-zero c d ha.0.1 hb.0.1 z)),
        λ h. absurd (ground (arith, ap char_at h.1)),
      )
  | inl same ↦
      let eq : c ≡ d = ground arith in
      elim (Bool-cases (n == 1)) [
        | inl last ↦
            let stop : (not (n == 1) && c == d) ≡ false = ground arith in
            rw stop (
              λ z. (a, ap (λ n. n ∷ a) eq ∙ ap (λ t. d ∷ t) (append_of_length b a (ground arith))),
              λ h. ground (arith, eq, ha.0.1),
            )
        | inr more ↦
            let go : (not (n == 1) && c == d) ≡ true = ground arith in
            let tails = HasPrefix-loop (n - 1) a b ha.1 hb.1 (omega arith) (ground arith) in
            rw go (
              λ z. let (r, t) = tails.0 z in (r, ap (λ n. n ∷ a) eq ∙ ap (λ t. d ∷ t) t),
              λ h. tails.1 (h.0, ap rest_of h.1),
            )
      ]
]

-- startswith(a, b) holds exactly if some string behind b gives a.
pub startswith-HasPrefix :
    (a b : List ℕ) → IsString a → IsString b → (startswith a b ≡ true) ↔ HasPrefix a b
unfolding startswith strncmp
startswith-HasPrefix a [] ha hb = (λ e. (a, refl), λ e. refl)
startswith-HasPrefix a (d ∷ b) ha hb =
    let loop = HasPrefix-loop (suc (length b)) a (d ∷ b) ha hb refl (omega arith) in
    let some_chars : (suc (length b) == 0) ≡ false = ground arith in
    rw some_chars (λ e. loop.0 (ground (arith, e)), λ h. ground (arith, loop.1 h))
