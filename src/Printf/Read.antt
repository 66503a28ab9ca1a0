-- ===== src/Printf/Read.antt =====
-- Numbers read back.
use neux_os.Prelude.{
  ℕ, zero, suc, ◌+◌, ◌-◌, ◌*◌, ◌/◌, ◌%◌, ◌^◌, ◌<◌, ◌≡◌, refl, ap, sym, subst, ◌∙◌, List, [], ◌∷◌,
  ◌++◌, Bool, true, false, not, ◌&&◌, Bool-cases, inl, inr, ◌==◌, ltb, if◌then◌else◌, arith,
}
use mathlib.Core.List.{append-nil}
use neux_os.Printf.{intlen_loop, intlen, digits, pad, vsprintf_u}

abbrev pub is_digit : ℕ → Bool
is_digit c = not (ltb c 48) && ltb c 58

-- The decimal number that the string starts with.
abbrev pub value : ℕ → List ℕ → ℕ
value n [] = n
value n (c ∷ s) = if is_digit c then value (n * 10 + (c - 48)) s else n

abbrev pub skip : List ℕ → List ℕ
skip [] = []
skip (c ∷ s) = if c == 32 then skip s else c ∷ s

abbrev pub read_unsigned : List ℕ → ℕ
read_unsigned s = value 0 (skip s)

abbrev pub signed_value : List ℕ → ℕ
signed_value [] = 0
signed_value (c ∷ s) = if c == 45 then (2 ^ 32 - value 0 s) % 2 ^ 32 else value 0 (c ∷ s)

-- An `int` as its 32-bit word.
abbrev pub read_signed : List ℕ → ℕ
read_signed s = signed_value (skip s)

-- 10 to this power
abbrev ten_to : ℕ → ℕ
ten_to zero = 1
ten_to (suc n) = 10 * ten_to n

intlen-ten_to : (rounds n : ℕ) → n < ten_to rounds → n < ten_to (intlen_loop rounds n 10)
unfolding intlen_loop
intlen-ten_to zero n h = omega arith
intlen-ten_to (suc rounds) n h = elim (Bool-cases (n / 10 == 0)) [
  | inl short ↦ rw short (ground arith)
  | inr long ↦ rw long (omega (arith, intlen-ten_to rounds (n / 10) (omega arith)))
]

value-digits :
    (len n : ℕ) (after : List ℕ)
    → n < ten_to len
    → value 0 (digits 10 false len n after) ≡ value n after
unfolding digits
value-digits zero n after h = let z : n ≡ 0 = omega arith in rw z refl
value-digits (suc len) n after h =
    let small : ltb 9 (n % 10) ≡ false = ground arith in
    let is : is_digit (n % 10 + 48) ≡ true = ground arith in
    let sum : n / 10 * 10 + (n % 10 + 48 - 48) ≡ n = omega arith in
    value-digits len (n / 10) _ (omega arith) ∙ rw (small, is, sum) refl

pub digits-append :
    (len n : ℕ) (after s : List ℕ)
    → digits 10 false len n after ++ s ≡ digits 10 false len n (after ++ s)
unfolding digits
digits-append zero n after s = refl
digits-append (suc len) n after s = digits-append len (n / 10) _ s

pub skip-digits :
    (len n : ℕ) (after : List ℕ)
    → skip after ≡ after
    → skip (digits 10 false len n after) ≡ digits 10 false len n after
unfolding digits
skip-digits zero n after h = h
skip-digits (suc len) n after h = skip-digits len (n / 10) _ (ground arith)

value-spaces : (n t : ℕ) → value n (pad t 32) ≡ n
value-spaces n zero = refl
value-spaces n (suc t) = refl

pub value-zeros : (t : ℕ) (s : List ℕ) → value 0 (pad t 48 ++ s) ≡ value 0 s
value-zeros zero s = refl
value-zeros (suc t) s = value-zeros t s

pub skip-spaces : (t : ℕ) (s : List ℕ) → skip (pad t 32 ++ s) ≡ skip s
skip-spaces zero s = refl
skip-spaces (suc t) s = skip-spaces t s

pub skip-zeros : (t : ℕ) (s : List ℕ) → skip s ≡ s → skip (pad t 48 ++ s) ≡ pad t 48 ++ s
skip-zeros zero s h = h
skip-zeros (suc t) s h = refl

-- The digits of a number.
abbrev pub number : ℕ → List ℕ
number n = digits 10 false (intlen n 10) n []

pub value-number : (n : ℕ) → n < 2 ^ 32 → value 0 (number n) ≡ n
value-number n h = value-digits (intlen n 10) n [] (intlen-ten_to 10 n (omega arith))

pub value-number_spaces : (n t : ℕ) → n < 2 ^ 32 → value 0 (number n ++ pad t 32) ≡ n
value-number_spaces n t h =
    ap (value 0) (digits-append (intlen n 10) n [] (pad t 32))
    ∙ value-digits (intlen n 10) n (pad t 32) (intlen-ten_to 10 n (omega arith))
    ∙ value-spaces n t

pub intlen-suc : (rounds n : ℕ) → (k : ℕ) × (intlen_loop rounds n 10 ≡ suc k)
unfolding intlen_loop
intlen-suc zero n = (0, refl)
intlen-suc (suc rounds) n = elim (Bool-cases (n / 10 == 0)) [
  | inl short ↦ (0, rw short refl)
  | inr long ↦ (intlen_loop rounds (n / 10) 10, rw long refl)
]

-- A number starts with a digit, whatever follows it.
pub skip-number : (n : ℕ) (s : List ℕ) → skip (number n ++ s) ≡ number n ++ s
unfolding digits
skip-number n s =
    let (k, e) = intlen-suc 10 n in
    let first : (after : List ℕ)
        → skip (digits 10 false (suc k) n after) ≡ digits 10 false (suc k) n after =
      λ after. skip-digits k (n / 10) _ (ground arith) in
    subst (λ len. skip (digits 10 false len n [] ++ s) ≡ digits 10 false len n [] ++ s) (sym e)
      (ap skip (digits-append (suc k) n [] s) ∙ first s ∙ sym (digits-append (suc k) n [] s))

pub skip-number_only : (n : ℕ) → skip (number n) ≡ number n
skip-number_only n =
    ap skip (sym (append-nil (number n))) ∙ skip-number n [] ∙ append-nil (number n)

-- What the directive %u writes of a 32-bit number, in any of its layouts, reads back as that number.
pub vsprintf_u-read_unsigned :
    (arg : ℕ) (left zero_pad : Bool) (min_len : ℕ)
    → arg < 2 ^ 32
    → read_unsigned (vsprintf_u arg left zero_pad min_len) ≡ arg
unfolding vsprintf_u
vsprintf_u-read_unsigned arg true zero_pad min_len h =
    let t = min_len - intlen arg 10 in
    ap (value 0) (skip-number arg (pad t 32)) ∙ value-number_spaces arg t h
vsprintf_u-read_unsigned arg false true min_len h =
    let t = min_len - intlen arg 10 in
    ap (value 0) (skip-zeros t (number arg) (skip-number_only arg))
    ∙ value-zeros t (number arg)
    ∙ value-number arg h
vsprintf_u-read_unsigned arg false false min_len h =
    let t = min_len - intlen arg 10 in
    ap (value 0) (skip-spaces t (number arg) ∙ skip-number_only arg) ∙ value-number arg h
