-- ===== src/Strings.antt =====
-- lib/string and lib/c: strings. A `const char *` is the list of the characters from it to the
-- terminating NUL, which is not in the list; the pointer one further on is the tail.
pub mod Compare
pub mod Span
mod Tests
use neux_os.Prelude.{
  ℕ, zero, suc, ◌+◌, ◌-◌, ◌*◌, ◌%◌, ◌^◌, List, [], ◌∷◌, ◌++◌, length, Bool, true, false, not, ◌&&◌,
  ◌||◌, Option, none, some, ◌==◌, ltb, if◌then◌else◌,
}

-- A `char` as a 32-bit integer: it is signed.
abbrev pub int_of_char : ℕ → ℕ
int_of_char c = if ltb c 128 then c else c + 2 ^ 32 - 256

-- *s1 - *s2
abbrev pub char_diff : ℕ → ℕ → ℕ
char_diff c d = (int_of_char c + 2 ^ 32 - int_of_char d) % 2 ^ 32

-- `*s`
abbrev pub char_at : List ℕ → ℕ
char_at [] = 0
char_at (c ∷ s) = c

abbrev pub strlen : List ℕ → ℕ
strlen s = length s

-- The test `s1 == s2` on the pointers only saves the loop.
unfoldable pub strcmp : List ℕ → List ℕ → ℕ
strcmp [] s2 = char_diff 0 (char_at s2)
strcmp (c ∷ s1) [] = char_diff c 0
strcmp (c ∷ s1) (d ∷ s2) = let rest = strcmp s1 s2 in if c == d then rest else char_diff c d

-- The loop of strncmp, for n > 0.
unfoldable pub strncmp_loop : (n : ℕ) → List ℕ → List ℕ → ℕ
strncmp_loop n [] s2 = char_diff 0 (char_at s2)
strncmp_loop n (c ∷ s1) [] = char_diff c 0
strncmp_loop n (c ∷ s1) (d ∷ s2) =
    let rest = strncmp_loop (n - 1) s1 s2 in if not (n == 1) && c == d then rest else char_diff c d

unfoldable pub strncmp : List ℕ → List ℕ → ℕ → ℕ
unfolding strncmp_loop
strncmp s1 s2 n = if n == 0 then 0 else strncmp_loop n s1 s2

unfoldable pub startswith : List ℕ → List ℕ → Bool
unfolding strncmp
startswith a b = strncmp a b (strlen b) == 0

-- The suffix that starts with the needle; `none` is NULL.
unfoldable pub strstr : List ℕ → List ℕ → Option (List ℕ)
unfolding strncmp
strstr [] needle = none
strstr (c ∷ s) needle =
    let rest = strstr s needle in
    if strncmp (c ∷ s) needle (strlen needle) == 0 then some (c ∷ s) else rest

-- The inner loops of strcspn, strspn and strpbrk: does the set have the character?
abbrev pub among : ℕ → List ℕ → Bool
among c [] = false
among c (r ∷ rs) = if c == r then true else among c rs

unfoldable pub strcspn : List ℕ → List ℕ → ℕ
strcspn [] reject = 0
strcspn (c ∷ s) reject = let rest = strcspn s reject in if among c reject then 0 else suc rest

unfoldable pub strspn : List ℕ → List ℕ → ℕ
strspn [] accept = 0
strspn (c ∷ s) accept = let rest = strspn s accept in if among c accept then suc rest else 0

-- The suffix from the first of the characters on.
unfoldable pub strpbrk : List ℕ → List ℕ → Option (List ℕ)
strpbrk [] accept = none
strpbrk (c ∷ s) accept =
    let rest = strpbrk s accept in if among c accept then some (c ∷ s) else rest

-- The part of `s` before its suffix `p`, once the first character of `p` is NUL.
abbrev pub cut : (s p : List ℕ) → List ℕ
cut [] p = []
cut (c ∷ s) p = if length (c ∷ s) == length p then [] else c ∷ cut s p

-- strsep: the token, and what *sp is afterwards; `none` is NULL.
unfoldable pub strsep : Option (List ℕ) → List ℕ → Option (List ℕ) × Option (List ℕ)
unfolding strpbrk
strsep none delim = (none, none)
strsep (some s) delim = elim (strpbrk s delim) [
  | none ↦ (some s, none)
  | some [] ↦ (some s, none)
  | some (c ∷ p) ↦ (some (cut s (c ∷ p)), some p)
]

-- strncpy: the bytes that it writes from `dest` on.
unfoldable pub strncpy : List ℕ → ℕ → List ℕ
strncpy src zero = []
strncpy [] (suc count) = 0 ∷ strncpy [] count
strncpy (c ∷ src) (suc count) = c ∷ strncpy src count

-- strcpy: the same.
unfoldable pub strcpy : List ℕ → List ℕ
strcpy [] = 0 ∷ []
strcpy (c ∷ src) = c ∷ strcpy src
