-- ===== src/Prelude/Bits.antt =====
-- `&` on machine words: its digits, masks of high and of low bits, and the test for a power of two.
use Prim.Native.Nat.{
  ℕ, zero, suc, ◌+◌, ◌-◌, ◌*◌, ◌/◌, ◌%◌, ◌^◌, ◌≤◌, ◌<◌, min, bit_and, digits, bit_and-bitwise,
}
use mathlib.Core.Path.{◌≡◌, refl, sym, ◌∙◌, ap}
use native.Mathlib.Nat.{pow-suc, div-div-eq-div-mul, mod-eq-sub-div-mul}
use native.Mathlib.Decide.{ℕ_discrete, dec_lt}
use native.Mathlib.Omega.{arith}

-- What the native operation stands for, with any bound on its rounds that is large enough.
abbrev rounds_and : ℕ → ℕ → ℕ → ℕ
rounds_and fuel a b = digits (λ _. zero) min fuel a b

rounds_and-zero : (fuel b : ℕ) → rounds_and fuel 0 b ≡ 0
rounds_and-zero zero b = refl
rounds_and-zero (suc fuel) b = refl

rounds_and-enough : (f g a b : ℕ) → a ≤ f → a ≤ g → rounds_and f a b ≡ rounds_and g a b
rounds_and-enough f g zero b hf hg = rounds_and-zero f b ∙ sym (rounds_and-zero g b)
rounds_and-enough zero g (suc a) b hf hg = absurd (omega arith)
rounds_and-enough (suc f) zero (suc a) b hf hg = absurd (omega arith)
rounds_and-enough (suc f) (suc g) (suc a) b hf hg =
    let half = suc a / 2 in
    omega (arith, rounds_and-enough f g half (b / 2) (omega arith) (omega arith))

pub bit_and-zero_left : (b : ℕ) → bit_and 0 b ≡ 0
bit_and-zero_left b = bit_and-bitwise 0 b

-- The lowest digit, and the others.
pub bit_and-digit : (a b : ℕ) → bit_and a b ≡ 2 * bit_and (a / 2) (b / 2) + min (a % 2) (b % 2)
bit_and-digit zero b = omega (arith, bit_and-zero_left b, bit_and-zero_left (b / 2))
bit_and-digit (suc a) b =
    let half = suc a / 2 in
    omega (
      arith,
      bit_and-bitwise (suc a) b,
      bit_and-bitwise half (b / 2),
      rounds_and-enough a half half (b / 2) (omega arith) (omega arith),
    )

pub pow-pos : (k : ℕ) → 0 < 2 ^ k
pow-pos zero = omega arith
pow-pos (suc k) = omega (arith, pow-suc 2 k, pow-pos k)

pub pow_mono : (k w : ℕ) → k ≤ w → 2 ^ k ≤ 2 ^ w
pow_mono zero w h = omega (arith, pow-pos w)
pow_mono (suc k) zero h = absurd (omega arith)
pow_mono (suc k) (suc w) h = omega (arith, pow-suc 2 k, pow-suc 2 w, pow_mono k w (omega arith))

div-pow_suc : (x k : ℕ) → x / 2 ^ suc k ≡ x / 2 / 2 ^ k
div-pow_suc x k =
    rw (div-div-eq-div-mul x 2 (2 ^ k)) (ap (λ (t : ℕ). x / t) (omega (arith, pow-suc 2 k)))

-- The mask of the w - k bits above the lowest k clears those k.
pub bit_and-mask : (w k x : ℕ) → k ≤ w → x < 2 ^ w → bit_and x (2 ^ w - 2 ^ k) ≡ x / 2 ^ k * 2 ^ k
bit_and-mask zero zero zero hk hx = bit_and-zero_left 0
bit_and-mask zero zero (suc x) hk hx = absurd (omega arith)
bit_and-mask zero (suc k) x hk hx = absurd (omega arith)
bit_and-mask (suc w) zero x hk hx =
    let m = 2 ^ suc w - 2 ^ zero in
    let half : m / 2 ≡ 2 ^ w - 2 ^ zero = omega (arith, pow-suc 2 w, pow-pos w) in
    let odd : m % 2 ≡ 1 = omega (arith, pow-suc 2 w, pow-pos w) in
    omega (
      arith,
      bit_and-digit x m,
      ap (bit_and (x / 2)) half,
      odd,
      bit_and-mask w zero (x / 2) (omega arith) (omega (arith, pow-suc 2 w)),
    )
bit_and-mask (suc w) (suc k) x hk hx =
    let m = 2 ^ suc w - 2 ^ suc k in
    let half : m / 2 ≡ 2 ^ w - 2 ^ k = omega (arith, pow-suc 2 w, pow-suc 2 k) in
    let even : m % 2 ≡ 0 = omega (arith, pow-suc 2 w, pow-suc 2 k, pow_mono k w (omega arith)) in
    omega (
      arith,
      bit_and-digit x m,
      ap (bit_and (x / 2)) half,
      even,
      bit_and-mask w k (x / 2) (omega arith) (omega (arith, pow-suc 2 w)),
      ap (λ (t : ℕ). t * 2 ^ k) (div-pow_suc x k),
      ap (λ (t : ℕ). x / 2 ^ suc k * t) (pow-suc 2 k),
    )

bit_and-zero_right : (fuel x : ℕ) → x ≤ fuel → bit_and x 0 ≡ 0
bit_and-zero_right fuel zero h = bit_and-zero_left 0
bit_and-zero_right zero (suc x) h = absurd (omega arith)
bit_and-zero_right (suc fuel) (suc x) h =
    omega (arith, bit_and-digit (suc x) 0, bit_and-zero_right fuel (suc x / 2) (omega arith))

bit_and-low_div : (k x : ℕ) → bit_and x (2 ^ k - 1) + x / 2 ^ k * 2 ^ k ≡ x
bit_and-low_div zero x = omega (arith, bit_and-zero_right x x (omega arith))
bit_and-low_div (suc k) x =
    let m = 2 ^ suc k - 1 in
    let half : m / 2 ≡ 2 ^ k - 1 = omega (arith, pow-suc 2 k, pow-pos k) in
    let odd : m % 2 ≡ 1 = omega (arith, pow-suc 2 k, pow-pos k) in
    omega (
      arith,
      bit_and-digit x m,
      ap (bit_and (x / 2)) half,
      odd,
      bit_and-low_div k (x / 2),
      ap (λ (t : ℕ). t * 2 ^ suc k) (div-pow_suc x k),
      ap (λ (t : ℕ). x / 2 / 2 ^ k * t) (pow-suc 2 k),
    )

-- The mask of the lowest k bits.
pub bit_and-low : (k x : ℕ) → bit_and x (2 ^ k - 1) ≡ x % 2 ^ k
bit_and-low k x = omega (arith, bit_and-low_div k x, mod-eq-sub-div-mul x (2 ^ k))

bit_and-self_le : (fuel a : ℕ) → a ≤ fuel → bit_and a a ≡ a
bit_and-self_le fuel zero h = bit_and-zero_left 0
bit_and-self_le zero (suc a) h = absurd (omega arith)
bit_and-self_le (suc fuel) (suc a) h =
    omega (arith, bit_and-digit (suc a) (suc a), bit_and-self_le fuel (suc a / 2) (omega arith))

-- A number that shares no bit with its predecessor is a power of two.
pub power_of_bit_and :
    (fuel n : ℕ) → 0 < n → n ≤ fuel → bit_and n (n - 1) ≡ 0 → (k : ℕ) × (n ≡ 2 ^ k)
power_of_bit_and zero n pos le h = absurd (omega arith)
power_of_bit_and (suc fuel) n pos le h = elim (ℕ_discrete (n % 2) 0) [
  | yes even ↦
      let less : (n - 1) / 2 ≡ n / 2 - 1 = omega arith in
      let (k, e) =
        power_of_bit_and fuel (n / 2) (omega arith) (omega arith)
          (omega (arith, bit_and-digit n (n - 1), ap (bit_and (n / 2)) less)) in
      (suc k, omega (arith, pow-suc 2 k))
  | no odd ↦
      let same : (n - 1) / 2 ≡ n / 2 = omega arith in
      (
        0,
        omega (
          arith,
          bit_and-digit n (n - 1),
          ap (bit_and (n / 2)) same,
          bit_and-self_le (n / 2) (n / 2) (omega arith),
        ),
      )
]

pub pow-lt_exp : (k w : ℕ) → 2 ^ k < 2 ^ w → k < w
pow-lt_exp k w h = elim (dec_lt k w) [
  | yes p ↦ p
  | no p ↦ absurd (omega (arith, pow_mono w k (omega arith)))
]
