-- ===== src/Shell/Words.antt =====
-- The words of a command line.
use neux_os.Prelude.{
  ℕ, zero, suc, ◌+◌, ◌*◌, ◌≤◌, ◌<◌, ◌≡◌, refl, ap, sym, ◌∙◌, Bool, Bool-cases, List, [], ◌∷◌, ◌++◌,
  length, length-append, true, false, none, some, inl, inr, ◌==◌, if◌then◌else◌, arith,
}
use mathlib.Core.List.{append-nil, append_assoc}
use neux_os.Strings.{strlen, strsep}
use neux_os.Strings.Span.{AllOutside, strsep-IsSplit}
use neux_os.Shell.{tokens}

-- The words of a text behind a word that has begun.
abbrev pub flush : List ℕ → List (List ℕ) → List (List ℕ)
flush [] ws = ws
flush (c ∷ word) ws = (c ∷ word) ∷ ws

abbrev pub words_from : List ℕ → List ℕ → List (List ℕ)
words_from word [] = flush word []
words_from word (c ∷ s) =
    let next = flush word (words_from [] s) in
    let longer = words_from (word ++ c ∷ []) s in if c == 32 then next else longer

abbrev pub words : List ℕ → List (List ℕ)
words s = words_from [] s

words_from-append :
    (word xs s : List ℕ)
    → AllOutside (32 ∷ []) xs
    → words_from word (xs ++ s) ≡ words_from (word ++ xs) s
words_from-append word [] s h = ap (λ w. words_from w s) (sym (append-nil word))
words_from-append word (x ∷ xs) s h =
    let letter : (x == 32) ≡ false = ground (arith, h.0) in
    rw letter (words_from-append (word ++ x ∷ []) xs s h.1)
    ∙ ap (λ w. words_from w s) (append_assoc word (x ∷ []) xs)

one_or_two : (b : Bool) → (if b then 1 else 2) ≤ 2
one_or_two true = omega arith
one_or_two false = omega arith

-- Each word but the last has a space behind it.
words_from-count :
    (word s : List ℕ)
    → 2 * length (words_from word s) ≤ length s + (if strlen word == 0 then 1 else 2)
words_from-count [] [] = omega arith
words_from-count (c ∷ word) [] =
    let long : (suc (length word) == 0) ≡ false = ground arith in rw long (omega arith)
words_from-count [] (d ∷ s) = elim (Bool-cases (d == 32)) [
  | inl space ↦ rw space (omega (arith, words_from-count [] s))
  | inr letter ↦ rw letter (omega (arith, words_from-count (d ∷ []) s))
]
words_from-count (c ∷ word) (d ∷ s) =
    let long : (suc (length word) == 0) ≡ false = ground arith in
    elim (Bool-cases (d == 32)) [
      | inl space ↦ rw (long, space) (omega (arith, words_from-count [] s))
      | inr letter ↦
          rw (long, letter)
            (omega (
              arith,
              words_from-count (c ∷ word ++ d ∷ []) s,
              one_or_two (strlen (c ∷ word ++ d ∷ []) == 0),
            ))
    ]

pub words-count : (s : List ℕ) → 2 * length (words s) ≤ length s + 1
words-count s = words_from-count [] s

tokens-none : (rounds : ℕ) → tokens rounds none ≡ []
unfolding tokens strsep
tokens-none zero = refl
tokens-none (suc rounds) = refl

flush-token :
    (t : List ℕ) (ws : List (List ℕ)) → (if strlen t == 0 then ws else t ∷ ws) ≡ flush t ws
flush-token [] ws = refl
flush-token (c ∷ t) ws = let long : (suc (length t) == 0) ≡ false = ground arith in rw long

-- The loop of `input_proc` over `strsep`, with more rounds than there are characters, finds the
-- words of the line: the longest parts without a space, in their order.
pub tokens-words : (rounds : ℕ) (s : List ℕ) → length s < rounds → tokens rounds (some s) ≡ words s
unfolding tokens
tokens-words zero s h = absurd (omega arith)
tokens-words (suc rounds) s h = elim (strsep-IsSplit s (32 ∷ [])) [
  | inl (e, n, all) ↦
      let left : (strsep (some s) (32 ∷ [])).0 ≡ some s = ap (λ r. r.0) e in
      let right : (strsep (some s) (32 ∷ [])).1 ≡ none = ap (λ r. r.1) e in
      rw (tokens, left, right, tokens-none rounds)
        (flush-token s [] ∙ sym (words_from-append [] s [] all) ∙ ap words (append-nil s))
  | inr (before, c, after, e, n, p) ↦
      let space : c ≡ 32 = ground (arith, p.inside) in
      let shorter : length s ≡ length before + suc (length after) =
        ap length p.whole ∙ length-append before (c ∷ after) in
      let later = tokens-words rounds after (omega arith) in
      let is_space : (c == 32) ≡ true = ground arith in
      let left : (strsep (some s) (32 ∷ [])).0 ≡ some before = ap (λ r. r.0) e in
      let right : (strsep (some s) (32 ∷ [])).1 ≡ some after = ap (λ r. r.1) e in
      rw (tokens, left, right, later)
        (flush-token before (words after)
          ∙ sym (
              ap words p.whole
              ∙ words_from-append [] before (c ∷ after) p.outside
              ∙ rw is_space refl))
]
