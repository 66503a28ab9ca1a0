-- ===== src/Printf/Signed.antt =====
-- Signed numbers read back.
use neux_os.Prelude.{
  ℕ, zero, suc, ◌+◌, ◌-◌, ◌/◌, ◌%◌, ◌^◌, ◌<◌, ◌≤◌, ◌≡◌, ap, sym, subst, ◌∙◌, List, [], ◌∷◌, ◌++◌,
  Bool, true, false, Bool-cases, inl, inr, if◌then◌else◌, arith,
}
use mathlib.Core.List.{append-nil}
use neux_os.Printf.{intlen, digits, pad, negative, vsprintf_d}
use neux_os.Printf.Read.{
  value, signed_value, read_signed, number, value-zeros, digits-append, intlen-suc, skip-zeros,
  skip-spaces, skip-number, skip-number_only, value-number, value-number_spaces,
}

signed-digits :
    (len n : ℕ) (after : List ℕ)
    → signed_value after ≡ value 0 after
    → signed_value (digits 10 false len n after) ≡ value 0 (digits 10 false len n after)
unfolding digits
signed-digits zero n after h = h
signed-digits (suc len) n after h = signed-digits len (n / 10) _ (ground arith)

signed-number : (n : ℕ) (s : List ℕ) → signed_value (number n ++ s) ≡ value 0 (number n ++ s)
unfolding digits
signed-number n s =
    let (k, e) = intlen-suc 10 n in
    let first : (after : List ℕ)
        → signed_value (digits 10 false (suc k) n after)
          ≡ value 0 (digits 10 false (suc k) n after) =
      λ after. signed-digits k (n / 10) _ (ground arith) in
    subst
      (λ len.
        signed_value (digits 10 false len n [] ++ s) ≡ value 0 (digits 10 false len n [] ++ s))
      (sym e)
      (ap signed_value (digits-append (suc k) n [] s)
        ∙ first s
        ∙ sym (ap (value 0) (digits-append (suc k) n [] s)))

signed-zeros :
    (t : ℕ) (s : List ℕ) → signed_value s ≡ value 0 s → signed_value (pad t 48 ++ s) ≡ value 0 s
signed-zeros zero s h = h
signed-zeros (suc t) s h = value-zeros t s

signed-number_only : (n : ℕ) → n < 2 ^ 32 → signed_value (number n) ≡ n
signed-number_only n h =
    ap signed_value (sym (append-nil (number n)))
    ∙ signed-number n []
    ∙ ap (value 0) (append-nil (number n))
    ∙ value-number n h

read_positive :
    (arg : ℕ) (left zero_pad : Bool) (min_len : ℕ)
    → arg < 2 ^ 31
    → read_signed (vsprintf_d arg left zero_pad min_len) ≡ arg
unfolding vsprintf_d
read_positive arg left zero_pad min_len h =
    let t = min_len - intlen arg 10 - 0 in
    let plus : negative arg ≡ false = ground arith in
    rw plus
      (elim left
        as (λ b.
          read_signed (
            if b
            then number arg ++ pad t 32
            else if zero_pad
            then pad t 48 ++ number arg
            else pad t 32 ++ number arg)
          ≡ arg) [
            | true ↦
                ap signed_value (skip-number arg (pad t 32))
                ∙ signed-number arg (pad t 32)
                ∙ value-number_spaces arg t (omega arith)
            | false ↦
                elim zero_pad
                  as (λ b.
                    read_signed (if b then pad t 48 ++ number arg else pad t 32 ++ number arg)
                    ≡ arg) [
                      | true ↦
                          ap signed_value (skip-zeros t (number arg) (skip-number_only arg))
                          ∙ signed-zeros t (number arg) (
                              signed-number_only arg (omega arith)
                              ∙ sym (value-number arg (omega arith)))
                          ∙ value-number arg (omega arith)
                      | false ↦
                          ap signed_value (skip-spaces t (number arg) ∙ skip-number_only arg)
                          ∙ signed-number_only arg (omega arith)
                    ]
          ])

read_negative :
    (arg : ℕ) (left zero_pad : Bool) (min_len : ℕ)
    → 2 ^ 31 ≤ arg
    → arg < 2 ^ 32
    → read_signed (vsprintf_d arg left zero_pad min_len) ≡ arg
unfolding vsprintf_d
read_negative arg left zero_pad min_len low high =
    let minus : negative arg ≡ true = ground arith in
    let m = (2 ^ 32 - 1 - arg + 1) % 2 ^ 32 in
    let t = min_len - intlen m 10 - 1 in
    let back : (2 ^ 32 - m) % 2 ^ 32 ≡ arg = omega arith in
    let finish = λ (n : ℕ) (e : n ≡ m). ap (λ x. (2 ^ 32 - x) % 2 ^ 32) e ∙ back in
    rw minus
      (elim left
        as (λ b.
          read_signed (
            if b
            then 45 ∷ (number m ++ pad t 32)
            else if zero_pad
            then 45 ∷ (pad t 48 ++ number m)
            else pad t 32 ++ (45 ∷ number m))
          ≡ arg) [
            | true ↦ finish _ (value-number_spaces m t (omega arith))
            | false ↦
                elim zero_pad
                  as (λ b.
                    read_signed
                      (if b then 45 ∷ (pad t 48 ++ number m) else pad t 32 ++ (45 ∷ number m))
                    ≡ arg) [
                      | true ↦ finish _ (value-zeros t (number m) ∙ value-number m (omega arith))
                      | false ↦
                          ap signed_value (skip-spaces t (45 ∷ number m))
                          ∙ finish _ (value-number m (omega arith))
                    ]
          ])

-- What the directive %d writes of an `int`, in any of its layouts, reads back as that `int`.
pub vsprintf_d-read_signed :
    (arg : ℕ) (left zero_pad : Bool) (min_len : ℕ)
    → arg < 2 ^ 32
    → read_signed (vsprintf_d arg left zero_pad min_len) ≡ arg
vsprintf_d-read_signed arg left zero_pad min_len h = elim (Bool-cases (negative arg)) [
  | inl minus ↦ read_negative arg left zero_pad min_len (ground arith) h
  | inr plus ↦ read_positive arg left zero_pad min_len (ground arith)
]
