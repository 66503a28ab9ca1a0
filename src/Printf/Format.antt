-- ===== src/Printf/Format.antt =====
-- lib/stdio/printf.c: vsprintf, the directives of a format string.
use neux_os.Prelude.{
  ℕ, ◌+◌, ◌-◌, ◌*◌, ◌%◌, ◌^◌, List, [], ◌∷◌, ◌++◌, length, Bool, true, false, not, ◌&&◌, Option,
  none, some, ◌==◌, ltb, if◌then◌else◌,
}
use neux_os.Printf.{intlen, digits, pad, vsprintf_d, vsprintf_u, vsprintf_x}

unfoldable pub vsprintf_p : (arg : ℕ) (left zero_pad : Bool) (min_len : ℕ) → List ℕ
vsprintf_p arg left zero_pad min_len =
    let len = intlen arg 16 in
    let number = digits 16 false len arg [] in
    let t = min_len - len - 2 in
    if left
    then 48 ∷ 120 ∷ (number ++ pad t 32)
    else if zero_pad
    then 48 ∷ 120 ∷ (pad t 48 ++ number)
    else pad t 32 ++ (48 ∷ 120 ∷ number)

unfoldable pub vsprintf_s : (arg : List ℕ) (left : Bool) (min_len : ℕ) → List ℕ
vsprintf_s arg left min_len =
    if left then arg ++ pad (min_len - length arg) 32 else pad (min_len - length arg) 32 ++ arg

-- What va_arg takes next: a 32-bit word, or the characters that a `const char *` points to.
pub data Arg : Type 0 where
  word_arg : ℕ → Arg
  string_arg : List ℕ → Arg

-- Between directives, or inside one, with what its flags and digits have set so far.
pub data Mode : Type 0 where
  plain : Mode
  directive : (left zero_pad : Bool) (min_len : ℕ) → Mode

abbrev pub written : List ℕ → Option (List ℕ) → Option (List ℕ)
written s none = none
written s (some rest) = some (s ++ rest)

-- A directive that takes a word; a missing or different argument is undefined.
abbrev pub with_word : List Arg → (ℕ → List ℕ) → (List Arg → Option (List ℕ)) → Option (List ℕ)
with_word (word_arg n ∷ args) show rest = written (show n) (rest args)
with_word _ show rest = none

abbrev pub with_string :
    List Arg → (List ℕ → List ℕ) → (List Arg → Option (List ℕ)) → Option (List ℕ)
with_string (string_arg s ∷ args) show rest = written (show s) (rest args)
with_string _ show rest = none

-- The switch on a character inside a directive; `go` goes on behind that character.
abbrev pub directive_char :
    (c : ℕ) (left zero_pad : Bool) (min_len : ℕ) (args : List Arg)
    (go : Mode → List Arg → Option (List ℕ))
    → Option (List ℕ)
directive_char c left zero_pad min_len args go =
    if c == 45
    then go (directive true zero_pad min_len) args
    else if c == 48 && min_len == 0 && not left && not zero_pad
    then go (directive left true min_len) args
    else if not (ltb c 48) && ltb c 58
    then go (directive left zero_pad ((min_len * 10 + (c - 48)) % 2 ^ 16)) args
    else if c == 99
    then with_word args (λ n. n % 256 ∷ []) (go plain)
    else if c == 100
    then with_word args (λ n. vsprintf_d n left zero_pad min_len) (go plain)
    else if c == 117
    then with_word args (λ n. vsprintf_u n left zero_pad min_len) (go plain)
    else if c == 120
    then with_word args (λ n. vsprintf_x n false left zero_pad min_len) (go plain)
    else if c == 88
    then with_word args (λ n. vsprintf_x n true left zero_pad min_len) (go plain)
    else if c == 115
    then with_string args (λ s. vsprintf_s s left min_len) (go plain)
    else if c == 112
    then with_word args (λ n. vsprintf_p n left zero_pad min_len) (go plain)
    else written (c ∷ []) (go (directive left zero_pad min_len) args)

-- The rest of the format string, from its current character on.
unfoldable pub format : List ℕ → Mode → List Arg → Option (List ℕ)
format [] mode args = some []
format (c ∷ fmt) plain args =
    if c == 37
    then format fmt (directive false false 0) args
    else written (c ∷ []) (format fmt plain args)
format (c ∷ fmt) (directive left zero_pad min_len) args =
    directive_char c left zero_pad min_len args (format fmt)

-- What vsprintf writes before the NUL; `none` is undefined, as an argument is missing.
unfoldable pub vsprintf : List ℕ → List Arg → Option (List ℕ)
vsprintf fmt args = format fmt plain args
