-- ===== src/Interrupts.antt =====
-- kernel/interrupt.c and drivers/i8259a/i8259a.c: the interrupt descriptor table, the handlers of the
-- hardware's interrupts, and the masks of the two controllers.
pub mod Gates
pub mod Masks
mod Tests
use Prim.Native.Nat.{bit_and, bit_or}
use neux_os.Prelude.{ℕ, ◌+◌, ◌-◌, ◌*◌, ◌/◌, ◌^◌, Bool, List, [], ◌∷◌, ltb, if◌then◌else◌}
use neux_os.Links.{update}

-- `struct gate`
pub record Gate : Type 0 where
  pub offset_low : ℕ
  pub selector : ℕ
  pub dcount : ℕ
  pub attr : ℕ
  pub offset_high : ℕ

-- The entries, which are in assembly.
pub data Entry : Type 0 where
  ex_divide_error ex_single_step ex_nmi ex_breakpoint ex_overflow ex_bounds_check ex_inval_opcode
        ex_copr_not_available ex_double_fault ex_copr_seg_overrun ex_inval_tss
        ex_segment_not_present ex_stack_exception ex_general_protection ex_page_fault ex_copr_error
        ex_syscall hwint00 hwint01 hwint03 hwint04 hwint05 hwint06 hwint07 hwint08 hwint12 hwint13
        hwint14 hwint15 :
      Entry

-- DA_386IGate and DA_386CGate; PRIVILEGE_KRNL and PRIVILEGE_USER; SELECTOR_KERNEL_CS
abbrev pub da_386_igate : ℕ
da_386_igate = 0x8e

abbrev pub da_386_cgate : ℕ
da_386_cgate = 0x8c

abbrev pub privilege_krnl : ℕ
privilege_krnl = 0

abbrev pub privilege_user : ℕ
privilege_user = 3

abbrev pub selector_kernel_cs : ℕ
selector_kernel_cs = 0x08

abbrev pub gate_of : (desc_type handler privilege : ℕ) → Gate
gate_of desc_type handler privilege = record {
  selector = selector_kernel_cs;
  dcount = 0;
  attr = bit_or desc_type (privilege * 2 ^ 5);
  offset_high = bit_and (handler / 2 ^ 16) 0xffff;
  offset_low = bit_and handler 0xffff;
}

abbrev pub init_int_desc : (vector desc_type handler privilege : ℕ) → (ℕ → Gate) → ℕ → Gate
init_int_desc vector desc_type handler privilege idt =
    update idt vector (gate_of desc_type handler privilege)

-- The arguments of a call of init_int_desc.
pub record Row : Type 0 where
  pub vector : ℕ
  pub desc_type : ℕ
  pub handler : Entry
  pub privilege : ℕ

abbrev pub igate : (vector : ℕ) → Entry → (privilege : ℕ) → Row
igate vector handler privilege = record {
  vector = vector;
  desc_type = da_386_igate;
  handler = handler;
  privilege = privilege;
}

abbrev pub cgate : (vector : ℕ) → Entry → (privilege : ℕ) → Row
cgate vector handler privilege = record {
  vector = vector;
  desc_type = da_386_cgate;
  handler = handler;
  privilege = privilege;
}

-- The calls of irq_setup.
abbrev pub gates : List Row
gates =
    igate 0x0 ex_divide_error privilege_krnl
    ∷ igate 0x1 ex_single_step privilege_krnl
    ∷ igate 0x2 ex_nmi privilege_krnl
    ∷ igate 0x3 ex_breakpoint privilege_user
    ∷ igate 0x4 ex_overflow privilege_user
    ∷ igate 0x5 ex_bounds_check privilege_krnl
    ∷ igate 0x6 ex_inval_opcode privilege_krnl
    ∷ igate 0x7 ex_copr_not_available privilege_krnl
    ∷ igate 0x8 ex_double_fault privilege_krnl
    ∷ igate 0x9 ex_copr_seg_overrun privilege_krnl
    ∷ igate 0xa ex_inval_tss privilege_krnl
    ∷ igate 0xb ex_segment_not_present privilege_krnl
    ∷ igate 0xc ex_stack_exception privilege_krnl
    ∷ igate 0xd ex_general_protection privilege_krnl
    ∷ igate 0xe ex_page_fault privilege_krnl
    ∷ igate 0x10 ex_copr_error privilege_krnl
    ∷ igate 0x70 ex_syscall privilege_user
    ∷ igate 0x20 hwint00 privilege_krnl
    ∷ igate 0x21 hwint01 privilege_krnl
    ∷ igate 0x23 hwint03 privilege_krnl
    ∷ igate 0x24 hwint04 privilege_krnl
    ∷ igate 0x25 hwint05 privilege_krnl
    ∷ igate 0x26 hwint06 privilege_krnl
    ∷ igate 0x27 hwint07 privilege_krnl
    ∷ igate 0x28 hwint08 privilege_krnl
    ∷ igate 0x2c hwint12 privilege_krnl
    ∷ igate 0x2d hwint13 privilege_krnl
    ∷ igate 0x2e hwint14 privilege_krnl
    ∷ cgate 0x2f hwint15 privilege_krnl
    ∷ []

abbrev pub init_gates : (address : Entry → ℕ) → List Row → (ℕ → Gate) → ℕ → Gate
init_gates address [] idt = idt
init_gates address (r ∷ rs) idt =
    init_gates address rs (init_int_desc r.vector r.desc_type (address r.handler) r.privilege idt)

-- irq_setup, of the interrupt descriptor table.
unfoldable pub irq_setup : (address : Entry → ℕ) → (ℕ → Gate) → ℕ → Gate
irq_setup address idt = init_gates address gates idt

-- IRQ_COUNT
abbrev pub irq_count : ℕ
irq_count = 0x2e - 0x20 + 1

-- Only for a vector from INT_VECTOR_IRQ0 on; neither the code nor this tests the index.
abbrev pub irq_register_handler : (vector h : ℕ) → (ℕ → ℕ) → ℕ → ℕ
irq_register_handler vector h irq_handlers = update irq_handlers (vector - 0x20) h

-- The masks of the master and the slave, as in_byte reads them.
pub record Controllers : Type 0 where
  pub master : ℕ
  pub slave : ℕ

-- What setup_8259a leaves in the masks.
abbrev pub setup_8259a : Controllers
setup_8259a = record { master = 0xff; slave = 0xff }

unfoldable pub enable_irq_n : (vector : ℕ) → Controllers → Controllers
enable_irq_n vector c =
    if ltb (vector - 0x20) 8
    then record c { master = bit_and c.master (255 - 2 ^ (vector - 0x20)) }
    else record c { slave = bit_and c.slave (255 - 2 ^ (vector - 0x28)) }

unfoldable pub disable_irq_n : (vector : ℕ) → Controllers → Controllers
disable_irq_n vector c =
    if ltb (vector - 0x20) 8
    then record c { master = bit_and c.master (2 ^ (vector - 0x20)) }
    else record c { slave = bit_and c.slave (2 ^ (vector - 0x28)) }

-- syscall_handler_table, of syscall_register in kernel/syscall.c; `irq` is not negative.
abbrev pub syscall_max : ℕ
syscall_max = 12

abbrev pub syscall_register : (irq handler : ℕ) → (ℕ → ℕ) → ℕ → ℕ
syscall_register irq handler table = if ltb syscall_max irq then table else update table irq handler
