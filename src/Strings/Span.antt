-- ===== src/Strings/Span.antt =====
-- Spans of strings, and their separation into tokens.
use neux_os.Prelude.{
  ℕ, suc, ◌≡◌, refl, ap, ◌∙◌, List, [], ◌∷◌, ◌++◌, length, length-append, true, false, Bool-cases,
  inl, inr, ◌⊎◌, ◌==◌, arith, none, some,
}
use neux_os.Strings.{among, strcspn, strpbrk, cut, strsep}

-- None of the characters is in the set.
abbrev pub AllOutside : List ℕ → List ℕ → Type 0
AllOutside set [] = Unit
AllOutside set (c ∷ s) = (among c set ≡ false) × AllOutside set s

-- The string is a part outside the set, and a first character in the set with what follows it.
pub record IsSplit (set s before : List ℕ) (c : ℕ) (after : List ℕ) : Type 0 where
  pub whole : s ≡ before ++ c ∷ after
  pub outside : AllOutside set before
  pub inside : among c set ≡ true

pub cut-append : (xs ys : List ℕ) (c : ℕ) → cut (xs ++ c ∷ ys) (c ∷ ys) ≡ xs
cut-append [] ys c =
    let same : (suc (length ys) == suc (length ys)) ≡ true = ground arith in rw same
cut-append (x ∷ xs) ys c =
    let longer : (suc (length (xs ++ c ∷ ys)) == suc (length ys)) ≡ false =
      ground (arith, length-append xs (c ∷ ys)) in
    rw longer (ap (λ t. x ∷ t) (cut-append xs ys c))

strpbrk-IsSplit :
    (s set : List ℕ)
    → ((strpbrk s set ≡ none) × (strcspn s set ≡ length s) × AllOutside set s)
      ⊎ ((before : List ℕ) × (c : ℕ) × (after : List ℕ) × (strpbrk s set ≡ some (c ∷ after))
          × (strcspn s set ≡ length before)
          × IsSplit set s before c after)
unfolding strpbrk strcspn
strpbrk-IsSplit [] set = inl (refl, refl, tt)
strpbrk-IsSplit (x ∷ s) set = elim (Bool-cases (among x set)) [
  | inl here ↦
      inr
        ([], x, s, rw here refl, rw here refl, record { whole = refl; outside = tt; inside = here })
  | inr away ↦ elim (strpbrk-IsSplit s set) [
    | inl (e, n, all) ↦ inl (rw (away, e), rw (away, n), (away, all))
    | inr (before, c, after, e, n, p) ↦ inr (
      x ∷ before,
      c,
      after,
      rw (away, e),
      rw (away, n),
      record { whole = ap (λ t. x ∷ t) p.whole; outside = (away, p.outside); inside = p.inside },
    )
  ]
]

-- strsep returns the part of the string before its first delimiter, and leaves the part behind it
-- for the next call; a string without a delimiter is returned whole, and NULL is left. strcspn is
-- the length of what strsep returns.
pub strsep-IsSplit :
    (s delim : List ℕ)
    → ((strsep (some s) delim ≡ (some s, none)) × (strcspn s delim ≡ length s) × AllOutside delim s)
      ⊎ ((before : List ℕ) × (c : ℕ) × (after : List ℕ) × (strsep (some s) delim
            ≡ (some before, some after))
          × (strcspn s delim ≡ length before)
          × IsSplit delim s before c after)
unfolding strsep
strsep-IsSplit s delim = elim (strpbrk-IsSplit s delim) [
  | inl (e, n, all) ↦ inl (rw (strsep, e), n, all)
  | inr (before, c, after, e, n, p) ↦
      let left : cut s (c ∷ after) ≡ before =
        ap (λ t. cut t (c ∷ after)) p.whole ∙ cut-append before after c in
      inr (before, c, after, rw (strsep, e, left), n, p)
]
