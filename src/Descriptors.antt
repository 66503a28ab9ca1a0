-- ===== src/Descriptors.antt =====
-- kernel/descriptor.c: the global descriptor table, and the indices of it that are in use.
pub mod Fields
pub mod Install
mod Tests
use Prim.Native.Nat.{bit_and, bit_or}
use neux_os.Prelude.{
  ℕ, ◌+◌, ◌-◌, ◌*◌, ◌/◌, ◌%◌, ◌^◌, Bool, true, false, Option, none, some, ltb, if◌then◌else◌,
}
use neux_os.Links.{update}
use neux_os.Bitmap.{bitmap_set, bitmap_clr, first_free}

-- GDT_SIZE
abbrev pub gdt_size : ℕ
gdt_size = 8192

-- `struct descriptor`
pub record Descriptor : Type 0 where
  pub limit_low : ℕ
  pub base_low : ℕ
  pub base_mid : ℕ
  pub attr1 : ℕ
  pub limit_high_attr2 : ℕ
  pub base_high : ℕ

-- The table, and the bytes of the bitmap.
pub record Gdt : Type 0 where
  pub gdt : ℕ → Descriptor
  pub bitmap : ℕ → ℕ

-- `none` is -1. The loop is that of bitmap_get.
unfoldable pub index_alloc : (ℕ → ℕ) → Option ℕ × (ℕ → ℕ)
index_alloc bitmap =
    let i = first_free gdt_size 0 (record { size = gdt_size; bits = bitmap }) in
    if ltb (gdt_size - 1) i then (none, bitmap) else (some i, bitmap_set bitmap i)

abbrev pub index_free : ℕ → (ℕ → ℕ) → ℕ → ℕ
index_free index bitmap = if ltb (gdt_size - 1) index then bitmap else bitmap_clr bitmap index

abbrev pub descriptor_of : (addr limit attr_type : ℕ) → Descriptor
descriptor_of addr limit attr_type = record {
  base_low = bit_and addr 0xffff;
  base_mid = bit_and (addr / 2 ^ 16) 0xff;
  base_high = addr / 2 ^ 24;
  limit_low = bit_and limit 0xffff;
  limit_high_attr2 = bit_or (bit_and (attr_type / 2 ^ 8) 0xf0) (bit_and (limit / 2 ^ 16) 0xf);
  attr1 = bit_and attr_type 0xff;
}

abbrev pub install_desc : (index addr limit attr_type : ℕ) → Gdt → Gdt
install_desc index addr limit attr_type s = record s {
  gdt = update s.gdt index (descriptor_of addr limit attr_type);
}

-- A descriptor of zeros.
abbrev pub no_descriptor : Descriptor
no_descriptor = record {
  limit_low = 0;
  base_low = 0;
  base_mid = 0;
  attr1 = 0;
  limit_high_attr2 = 0;
  base_high = 0;
}

abbrev pub uninstall_desc : ℕ → Gdt → Gdt
uninstall_desc index s = record s {
  gdt = update s.gdt index no_descriptor;
  bitmap = index_free index s.bitmap;
}

-- install_desc and BITMAP_SET for a selector.
abbrev pub install_segment : (selector limit attr_type : ℕ) → Gdt → Gdt
install_segment selector limit attr_type s =
    let s = install_desc (selector / 8) 0 limit attr_type s in
    record s { bitmap = bitmap_set s.bitmap (selector / 8) }

-- DA_CR, DA_DRW and DA_C, DA_32, DA_LIMIT_4K and DA_DPL3
abbrev pub da_cr : ℕ
da_cr = 0x9a

abbrev pub da_drw : ℕ
da_drw = 0x92

abbrev pub da_c : ℕ
da_c = 0x98

abbrev pub da_32 : ℕ
da_32 = 0x4000

abbrev pub da_limit_4k : ℕ
da_limit_4k = 0x8000

abbrev pub da_dpl3 : ℕ
da_dpl3 = 0x60

-- All but the load of the register.
unfoldable pub descriptor_setup : Gdt → Gdt
descriptor_setup s =
    let s : Gdt = record { gdt = λ _. no_descriptor; bitmap = λ _. 0 } in
    let s = install_segment 0 0 0 s in
    let s = install_segment 0x08 0xfffff (bit_or (bit_or da_cr da_32) da_limit_4k) s in
    let s = install_segment 0x10 0xfffff (bit_or (bit_or da_drw da_32) da_limit_4k) s in
    let s =
      install_segment 0x1b 0xfffff (bit_or (bit_or (bit_or da_c da_dpl3) da_limit_4k) da_32) s in
    install_segment 0x23 0xfffff (bit_or (bit_or (bit_or da_drw da_dpl3) da_limit_4k) da_32) s

-- DA_386TSS, and the size of a `struct tss`
abbrev pub da_386tss : ℕ
da_386tss = 0x89

abbrev pub sizeof_tss : ℕ
sizeof_tss = 104

-- The selector; `none` is -1.
unfoldable pub install_tss : (tss priv : ℕ) → Gdt → Option ℕ × Gdt
install_tss tss priv s =
    let priv : ℕ = 0 in
    let (index, bitmap) = index_alloc s.bitmap in
    let s : Gdt = record s { bitmap = bitmap } in
    elim index [
      | none ↦ (none, s)
      | some i ↦ (
        some (bit_or (i * 8) (priv / 32)),
        install_desc i tss (sizeof_tss - 1) (bit_or da_386tss priv) s,
      )
    ]

-- Whether it returns 0; if not, it returns -1.
unfoldable pub uninstall_tss : (sel : ℕ) → Gdt → Bool × Gdt
uninstall_tss sel s =
    let index = sel / 8 in
    if ltb (gdt_size - 1) index then (false, s) else (true, uninstall_desc index s)

abbrev pub get_descriptor : (sel : ℕ) → Gdt → Option Descriptor
get_descriptor sel s = if ltb (gdt_size - 1) (sel / 8) then none else some (s.gdt (sel / 8))
