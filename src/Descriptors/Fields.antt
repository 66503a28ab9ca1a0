-- ===== src/Descriptors/Fields.antt =====
-- What the fields of a descriptor say.
use Prim.Native.Nat.{bit_and, bit_or}
use neux_os.Prelude.{ℕ, ◌+◌, ◌*◌, ◌/◌, ◌%◌, ◌^◌, ◌<◌, ◌≡◌, refl, ap, ◌∙◌, true, ◌==◌, arith}
use neux_os.Prelude.Below.{all_below, all_below-at}
use neux_os.Prelude.Bits.{bit_and-low}
use neux_os.Descriptors.{Descriptor, descriptor_of}

-- The base, the limit and the attributes, as the processor puts them together.
abbrev pub base_of : Descriptor → ℕ
base_of d = d.base_low + d.base_mid * 2 ^ 16 + d.base_high * 2 ^ 24

abbrev pub limit_of : Descriptor → ℕ
limit_of d = d.limit_low + d.limit_high_attr2 % 16 * 2 ^ 16

abbrev pub attributes_of : Descriptor → ℕ
attributes_of d = d.attr1 + d.limit_high_attr2 / 16 * 2 ^ 12

nibbles_hold :
    all_below 256 (λ a. all_below 16 (λ l. bit_or (bit_and a 0xf0) l == a / 16 * 16 + l)) ≡ true
nibbles_hold = refl

nibbles : (a l : ℕ) → a < 256 → l < 16 → bit_or (bit_and a 0xf0) l ≡ a / 16 * 16 + l
nibbles a l ha hl =
    let of_byte =
      all_below-at 256 (λ a. all_below 16 (λ l. bit_or (bit_and a 0xf0) l == a / 16 * 16 + l)) a
        nibbles_hold ha in
    let law = all_below-at 16 (λ l. bit_or (bit_and a 0xf0) l == a / 16 * 16 + l) l of_byte hl in
    ground (arith, law)

-- A descriptor that is made from a base of 32 bits, a limit of 20 bits and attributes of 16 bits of
-- which bits 8 to 11 are clear says this base, this limit and these attributes.
pub descriptor_of-fields :
    (addr limit attr_type : ℕ)
    → addr < 2 ^ 32
    → limit < 2 ^ 20
    → attr_type < 2 ^ 16
    → attr_type / 2 ^ 8 % 16 ≡ 0
    → (base_of (descriptor_of addr limit attr_type) ≡ addr)
      × (limit_of (descriptor_of addr limit attr_type) ≡ limit)
      × (attributes_of (descriptor_of addr limit attr_type) ≡ attr_type)
descriptor_of-fields addr limit attr_type ha hl ht free =
    let byte = nibbles (attr_type / 2 ^ 8) (limit / 2 ^ 16) (omega arith) (omega arith) in
    let high = bit_and-low 4 (limit / 2 ^ 16) in
    let same : bit_and (limit / 2 ^ 16) 0xf ≡ limit / 2 ^ 16 = omega (arith, high) in
    let both = ap (λ (l : ℕ). bit_or (bit_and (attr_type / 2 ^ 8) 0xf0) l) same ∙ byte in
    (
      omega (arith, bit_and-low 16 addr, bit_and-low 8 (addr / 2 ^ 16)),
      omega (arith, bit_and-low 16 limit, both),
      omega (arith, bit_and-low 8 attr_type, both),
    )
