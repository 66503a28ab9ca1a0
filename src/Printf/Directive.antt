-- ===== src/Printf/Directive.antt =====
-- What a format string of vsprintf stands for.
use neux_os.Prelude.{
  ℕ, ◌+◌, ◌-◌, ◌*◌, ◌%◌, ◌^◌, ◌<◌, ◌≤◌, ◌≡◌, refl, ap, sym, ◌∙◌, List, [], ◌∷◌, ◌++◌, true, false,
  not, ◌&&◌, Option, none, some, ◌==◌, arith,
}
use neux_os.Printf.{vsprintf_d}
use neux_os.Printf.Read.{value, is_digit}
use neux_os.Printf.Format.{Arg, word_arg, plain, directive, format, vsprintf, written}

-- Text without a directive.
abbrev pub AllText : List ℕ → Type 0
AllText [] = Unit
AllText (c ∷ s) = ((c == 37) ≡ false) × AllText s

abbrev pub AllDigits : List ℕ → Type 0
AllDigits [] = Unit
AllDigits (c ∷ s) = (is_digit c ≡ true) × AllDigits s

written-append :
    (s : List ℕ) (c : ℕ) (o : Option (List ℕ)) → written (c ∷ []) (written s o) ≡ written (c ∷ s) o
written-append s c none = refl
written-append s c (some rest) = refl

written_nothing : (o : Option (List ℕ)) → o ≡ written [] o
written_nothing none = refl
written_nothing (some rest) = refl

format-text :
    (text fmt : List ℕ) (args : List Arg)
    → AllText text
    → format (text ++ fmt) plain args ≡ written text (format fmt plain args)
unfolding format
format-text [] fmt args h = written_nothing (format fmt plain args)
format-text (c ∷ text) fmt args h =
    rw (h.0, format-text text fmt args h.1) (written-append text c (format fmt plain args))

value_le : (n : ℕ) (s : List ℕ) → AllDigits s → n ≤ value n s
value_le n [] h = omega arith
value_le n (c ∷ s) h = rw h.0 (omega (arith, value_le (n * 10 + (c - 48)) s h.1))

format-width :
    (n : ℕ) (width fmt : List ℕ) (args : List Arg)
    → AllDigits width
    → 0 < n
    → value n width < 2 ^ 16
    → format (width ++ fmt) (directive false false n) args
      ≡ format fmt (directive false false (value n width)) args
unfolding format
format-width n [] fmt args h pos fit = refl
format-width n (c ∷ width) fmt args h pos fit =
    let minus : (c == 45) ≡ false = ground (arith, h.0) in
    let flag : (c == 48 && n == 0 && not false && not false) ≡ false = ground arith in
    let in_full : value n (c ∷ width) ≡ value (n * 10 + (c - 48)) width = rw h.0 refl in
    let bound = value_le (n * 10 + (c - 48)) width h.1 in
    let small : (n * 10 + (c - 48)) % 2 ^ 16 ≡ n * 10 + (c - 48) =
      omega (arith, in_full, bound, fit) in
    rw (minus, flag, h.0, small)
      (format-width (n * 10 + (c - 48)) width fmt args h.1 (omega arith)
        (omega (arith, in_full, fit)))

-- Text, then the directive %d with a minimal width written in digits: the text is copied, the next
-- argument is written in that width, and the rest of the format string goes on with the other
-- arguments.
pub vsprintf-text_number :
    (text fmt rest width : List ℕ) (d n : ℕ) (args : List Arg)
    → AllText text
    → 48 < d
    → AllDigits (d ∷ width)
    → value 0 (d ∷ width) < 2 ^ 16
    → vsprintf fmt args ≡ some rest
    → vsprintf (text ++ 37 ∷ d ∷ (width ++ 100 ∷ fmt)) (word_arg n ∷ args)
      ≡ some (text ++ (vsprintf_d n false false (value 0 (d ∷ width)) ++ rest))
unfolding vsprintf format
vsprintf-text_number text fmt rest width d n args h pos hd fit e =
    let minus : (d == 45) ≡ false = ground arith in
    let flag : (d == 48) ≡ false = ground arith in
    let first : 0 * 10 + (d - 48) ≡ d - 48 = omega arith in
    let in_full : value 0 (d ∷ width) ≡ value (d - 48) width =
      rw hd.0 (ap (λ m. value m width) first) in
    let bound = value_le (d - 48) width hd.1 in
    let small : (0 * 10 + (d - 48)) % 2 ^ 16 ≡ d - 48 = omega (arith, in_full, bound, fit) in
    let behind = 100 ∷ fmt in
    let number : format (d ∷ (width ++ behind)) (directive false false 0) (word_arg n ∷ args)
        ≡ some (vsprintf_d n false false (value (d - 48) width) ++ rest) =
      rw (minus, flag, hd.0, small)
        (format-width (d - 48) width behind (word_arg n ∷ args) hd.1 (omega arith)
            (omega (arith, in_full, fit))
          ∙ ap (written (vsprintf_d n false false (value (d - 48) width))) e) in
    format-text text (37 ∷ d ∷ (width ++ behind)) (word_arg n ∷ args) h
    ∙ ap (written text) number
    ∙ ap (λ v. some (text ++ (vsprintf_d n false false v ++ rest))) (sym in_full)
