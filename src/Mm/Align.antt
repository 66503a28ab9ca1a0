-- ===== src/Mm/Align.antt =====
-- The address macros of lib/misc.h, kernel/memory.h and arch/x86/x86.h.
use Prim.Native.Nat.{bit_and}
use neux_os.Prelude.{
  ℕ, ◌+◌, ◌-◌, ◌*◌, ◌/◌, ◌%◌, ◌^◌, ◌≤◌, ◌<◌, ◌≡◌, ◌∙◌, ap, Bool, true, not, ◌&&◌, ◌==◌, arith,
}
use native.Mathlib.Nat.{lt-div-mul-add, div-mul-le_self, mul-mod_left}
use neux_os.Prelude.Bits.{bit_and-mask, pow-pos, pow_mono, pow-lt_exp, power_of_bit_and}

abbrev pub word : ℕ
word = 2 ^ 32

-- PAGE_SHIFT and PAGE_SIZE
abbrev pub page_shift : ℕ
page_shift = 12

abbrev pub page_size : ℕ
page_size = 2 ^ 12

-- CONFIG_KERNEL_VM_OFFSET, the default of Kconfig
abbrev pub vm_offset : ℕ
vm_offset = 0xc000_0000

-- ~(align - 1) as a 32-bit word; ~x is 2 ^ 32 - 1 - x.
abbrev pub align_mask : ℕ → ℕ
align_mask align = word - 1 - (align + word - 1) % word

-- ALIGN_FLOOR(n, align)
unfoldable pub align_floor : ℕ → ℕ → ℕ
align_floor n align = bit_and n (align_mask align)

-- ALIGN_CEIL(n, align)
unfoldable pub align_ceil : ℕ → ℕ → ℕ
unfolding align_floor
align_ceil n align = align_floor ((n + (align + word - 1)) % word) align

-- (n & PAGE_MASK)
abbrev pub page_of : ℕ → ℕ
page_of n = align_floor n page_size

-- phy_addr(addr)
abbrev pub phy_addr : ℕ → ℕ
phy_addr addr = (addr + word - vm_offset) % word

-- virt_addr(addr)
abbrev pub virt_addr : ℕ → ℕ
virt_addr addr = (addr + vm_offset) % word

-- is_power_of_2(n)
unfoldable pub is_power_of_2 : ℕ → Bool
is_power_of_2 n = not (n == 0) && bit_and n ((n + word - 1) % word) == 0

-- The test accepts only powers of two below 2 ^ 32.
is_power_of_2-pow : (n : ℕ) → n < word → is_power_of_2 n ≡ true → (k : ℕ) × (n ≡ 2 ^ k) × (k < 32)
unfolding is_power_of_2
is_power_of_2-pow n small h =
    let some : 0 < n = ground arith in
    let less : (n + word - 1) % word ≡ n - 1 = omega arith in
    let (k, e) = power_of_bit_and n n some (omega arith) (ground (arith, ap (bit_and n) less)) in
    (k, e, pow-lt_exp k 32 (omega arith))

-- For a power of two the mask rounds down to a multiple.
pub align_floor-pow : (n k : ℕ) → n < word → k < 32 → align_floor n (2 ^ k) ≡ n / 2 ^ k * 2 ^ k
unfolding align_floor
align_floor-pow n k small hk =
    let top : 2 ^ k ≤ 2 ^ 31 = pow_mono k 31 (omega arith) in
    let mask : align_mask (2 ^ k) ≡ 2 ^ 32 - 2 ^ k = omega (arith, pow-pos k, top) in
    ap (bit_and n) mask ∙ bit_and-mask 32 k n (omega arith) small

pub page_of-floor : (n : ℕ) → n < word → page_of n ≡ n / 4096 * 4096
page_of-floor n small = align_floor-pow n 12 small (omega arith)

-- Rounding up to a power of two gives the next multiple, if that is below 2 ^ 32.
pub align_ceil-pow :
    (n k : ℕ)
    → k < 32
    → n + 2 ^ k < word
    → (n ≤ align_ceil n (2 ^ k))
      × (align_ceil n (2 ^ k) < n + 2 ^ k)
      × (align_ceil n (2 ^ k) % 2 ^ k ≡ 0)
unfolding align_ceil
align_ceil-pow n k hk fit =
    let a = 2 ^ k in
    let pos = pow-pos k in
    let m = (n + (a + word - 1)) % word in
    let sum : m ≡ n + a - 1 = omega arith in
    let floor = align_floor-pow m k (omega arith) hk in
    (
      omega (arith, floor, lt-div-mul-add {a = m} pos),
      omega (arith, floor, div-mul-le_self m a),
      rw floor (mul-mod_left (m / a) a),
    )
