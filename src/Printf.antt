-- ===== src/Printf.antt =====
-- lib/stdio/printf.c: how numbers are written. The result of each function is what it writes from
-- `pbuf` on; its length is what the function returns.
pub mod Read
pub mod Signed
pub mod Format
pub mod Directive
mod Tests
use neux_os.Prelude.{
  ℕ, zero, suc, ◌+◌, ◌-◌, ◌*◌, ◌/◌, ◌%◌, ◌^◌, List, [], ◌∷◌, ◌++◌, Bool, true, false, not, ◌&&◌,
  ◌==◌, ltb, if◌then◌else◌,
}

-- intlen(n, radix); ten rounds are enough for 32 bits.
unfoldable pub intlen_loop : (rounds n radix : ℕ) → ℕ
intlen_loop zero n radix = 1
intlen_loop (suc rounds) n radix =
    let more = intlen_loop rounds (n / radix) radix in if n / radix == 0 then 1 else suc more

abbrev pub intlen : (n radix : ℕ) → ℕ
intlen n radix = intlen_loop 10 n radix

-- The digit of a remainder.
abbrev pub digit : (capital : Bool) (rem : ℕ) → ℕ
digit capital rem = if ltb 9 rem then rem - 10 + (if capital then 65 else 97) else rem + 48

-- for (i = len; i > 0; i--): the digits, written from the last one on in front of `after`.
unfoldable pub digits : (radix : ℕ) (capital : Bool) (len n : ℕ) → (after : List ℕ) → List ℕ
digits radix capital zero n after = after
digits radix capital (suc len) n after =
    digits radix capital len (n / radix) (digit capital (n % radix) ∷ after)

abbrev pub pad : ℕ → ℕ → List ℕ
pad zero c = []
pad (suc n) c = c ∷ pad n c

unfoldable pub vsprintf_u : (arg : ℕ) (left zero_pad : Bool) (min_len : ℕ) → List ℕ
unfolding digits intlen_loop
vsprintf_u arg left zero_pad min_len =
    let len = intlen arg 10 in
    let number = digits 10 false len arg [] in
    if left
    then number ++ pad (min_len - len) 32
    else pad (min_len - len) (if zero_pad then 48 else 32) ++ number

unfoldable pub vsprintf_x : (arg : ℕ) (capital left zero_pad : Bool) (min_len : ℕ) → List ℕ
unfolding digits intlen_loop
vsprintf_x arg capital left zero_pad min_len =
    let len = intlen arg 16 in
    let number = digits 16 capital len arg [] in
    if left
    then number ++ pad (min_len - len) 32
    else pad (min_len - len) (if zero_pad then 48 else 32) ++ number

-- `arg` is an `int` as its 32-bit word.
abbrev pub negative : ℕ → Bool
negative arg = not (ltb arg (2 ^ 31))

abbrev pub magnitude : ℕ → ℕ
magnitude arg = if negative arg then (2 ^ 32 - 1 - arg + 1) % 2 ^ 32 else arg

unfoldable pub vsprintf_d : (arg : ℕ) (left zero_pad : Bool) (min_len : ℕ) → List ℕ
unfolding digits intlen_loop
vsprintf_d arg left zero_pad min_len =
    let len = intlen (magnitude arg) 10 in
    let number = digits 10 false len (magnitude arg) [] in
    let t = min_len - len - (if negative arg then 1 else 0) in
    let sign : List ℕ = if negative arg then 45 ∷ [] else [] in
    if left
    then sign ++ (number ++ pad t 32)
    else if zero_pad
    then sign ++ (pad t 48 ++ number)
    else pad t 32 ++ (sign ++ number)
