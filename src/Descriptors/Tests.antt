-- ===== src/Descriptors/Tests.antt =====
-- Descriptors at concrete tables.
use neux_os.Prelude.{
  ℕ, ◌*◌, ◌^◌, ◌<◌, ◌≡◌, ◌≢◌, ◌⊎◌, inl, inr, true, false, none, some, Bool-cases, ◌==◌,
  if◌then◌else◌, arith,
}
use neux_os.Descriptors.{Gdt, gdt_size, no_descriptor, install_tss, uninstall_tss}
use neux_os.Descriptors.Fields.{base_of, limit_of, attributes_of}
use neux_os.Descriptors.Install.{is_taken, install_tss-uninstall}

-- The kernel's five descriptors are in use.
abbrev table : Gdt
table = record { gdt = λ _. no_descriptor; bitmap = λ i. if i == 0 then 31 else 0 }

table_bytes : (i : ℕ) → table.bitmap i < 256
table_bytes i = elim (Bool-cases (i == 0)) [
  | inl e ↦ rw e (omega arith)
  | inr ne ↦ rw ne (omega arith)
]

install_tss-uninstall_example :
    ((install_tss 0xc0200000 0x60 table ≡ (none, table))
      × ((j : ℕ) → j < gdt_size → is_taken table j ≡ true))
    ⊎ ((i : ℕ) × (s' : Gdt) × (install_tss 0xc0200000 0x60 table ≡ (some (i * 8), s'))
        × (i * 8 < 2 ^ 16)
        × (is_taken table i ≡ false)
        × ((j : ℕ) → j < i → is_taken table j ≡ true)
        × ((base_of (s'.gdt i) ≡ 0xc0200000)
            × (limit_of (s'.gdt i) ≡ 103)
            × (attributes_of (s'.gdt i) ≡ 0x89))
        × ((j : ℕ) → j ≢ i → s'.gdt j ≡ no_descriptor)
        × ((j : ℕ) → is_taken s' j ≡ (if j == i then true else is_taken table j))
        × ((s'' : Gdt) × (uninstall_tss (i * 8) s' ≡ (true, s''))
            × ((j : ℕ) → is_taken s'' j ≡ is_taken table j)))
install_tss-uninstall_example =
    install_tss-uninstall 0xc0200000 0x60 table (omega arith) table_bytes
