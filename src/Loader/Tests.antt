-- ===== src/Loader/Tests.antt =====
-- The loader with a concrete kernel.
use neux_os.Prelude.{ℕ, ◌-◌, ◌*◌, ◌/◌, ◌^◌, ◌<◌, ◌≤◌, ◌≡◌, ◌⊎◌, inr, [], ◌∷◌, some, arith}
use neux_os.Mm.Align.{vm_offset, align_ceil}
use neux_os.Paging.{no_entry}
use neux_os.Paging.Walk.{walk}
use neux_os.Loader.{Phdr, Shdr, setup_page, kernel_pg_addr, load_kernel_elf}
use neux_os.Loader.Segments.{AllLoaded, PhdrIn, AllBss, ShdrIn, Outside, load_kernel_elf-InRange}
use neux_os.Loader.Tables.{setup_page-walk}

setup_page-walk_example :
    ((addr : ℕ)
      → vm_offset ≤ addr
      → addr < 2 ^ 32
      → walk (setup_page 0x250123 (λ t i. no_entry)) kernel_pg_addr addr
        ≡ some ((addr - vm_offset) / 2 ^ 12 * 2 ^ 12))
    × ((addr : ℕ)
        → addr < 2 ^ 20
        → walk (setup_page 0x250123 (λ t i. no_entry)) kernel_pg_addr addr
          ≡ some (addr / 2 ^ 12 * 2 ^ 12))
unfolding align_ceil
setup_page-walk_example =
    setup_page-walk 0x250123 (λ t i. no_entry) (omega arith) (inr (omega arith))

-- A segment of code, and one for the stack, which has no bytes in the file.
abbrev code : Phdr
code = record {
  p_type = 1;
  p_offset = 0x1000;
  p_vaddr = 0xc0201000;
  p_filesz = 0x8000;
  p_memsz = 0x9000;
}

abbrev stack : Phdr
stack = record { p_type = 0x6474_e551; p_offset = 0; p_vaddr = 0; p_filesz = 0; p_memsz = 0 }

abbrev bss : Shdr
bss = record { sh_type = 8; sh_addr = 0xc0209000; sh_size = 0x2000 }

load_kernel_elf-InRange_example :
    AllLoaded
      (PhdrIn (load_kernel_elf 0x1f00000 0xa000 (code ∷ stack ∷ []) (bss ∷ []) (λ a. 7)))
      (code ∷ stack ∷ [])
    × AllBss
        (ShdrIn (load_kernel_elf 0x1f00000 0xa000 (code ∷ stack ∷ []) (bss ∷ []) (λ a. 7)))
        (bss ∷ [])
    × ((a : ℕ)
        → Outside (load_kernel_elf 0x1f00000 0xa000 (code ∷ stack ∷ []) (bss ∷ []) (λ a. 7)) a
        → (a < 0x1f00000) ⊎ (0x1f0a000 ≤ a)
        → (load_kernel_elf 0x1f00000 0xa000 (code ∷ stack ∷ []) (bss ∷ []) (λ a. 7)).memory a ≡ 7)
load_kernel_elf-InRange_example =
    load_kernel_elf-InRange 0x1f00000 0xa000 (code ∷ stack ∷ []) (bss ∷ []) (λ a. 7)
      (λ h. (omega arith, omega arith), (λ h. (omega arith, omega arith), tt))
      (λ h. omega arith, tt)
