-- ===== src/Interrupts/Gates.antt =====
-- Which gates user code may call, and where each gate leads.
use neux_os.Prelude.{ℕ, ◌+◌, ◌*◌, ◌/◌, ◌^◌, ◌<◌, ◌≡◌, refl, Bool, true, ◌||◌, ◌==◌, arith}
use neux_os.Prelude.Below.{same, same_eq, all_below, all_below-at}
use neux_os.Prelude.Bits.{bit_and-low}
use neux_os.Interrupts.{
  Gate, Entry, gate_of, irq_setup, init_gates, gates, ex_divide_error, ex_single_step, ex_nmi,
  ex_breakpoint, ex_overflow, ex_bounds_check, ex_inval_opcode, ex_copr_not_available,
  ex_double_fault, ex_copr_seg_overrun, ex_inval_tss, ex_segment_not_present, ex_stack_exception,
  ex_general_protection, ex_page_fault, ex_copr_error, ex_syscall, hwint00, hwint01, hwint03,
  hwint04, hwint05, hwint06, hwint07, hwint08, hwint12, hwint13, hwint14, hwint15,
}

-- The gate is present, and open to privilege 3.
abbrev pub user_may : Gate → Bool
user_may g = (g.attr / 2 ^ 5 == 7)

abbrev pub offset_of : Gate → ℕ
offset_of g = g.offset_low + g.offset_high * 2 ^ 16

abbrev pub no_gates : ℕ → Gate
no_gates v = record { offset_low = 0; selector = 0; dcount = 0; attr = 0; offset_high = 0 }

-- The vector of each entry, by the processor's manual, and for the controllers from 0x20 on.
abbrev pub vector_of : Entry → ℕ
vector_of ex_divide_error = 0x0
vector_of ex_single_step = 0x1
vector_of ex_nmi = 0x2
vector_of ex_breakpoint = 0x3
vector_of ex_overflow = 0x4
vector_of ex_bounds_check = 0x5
vector_of ex_inval_opcode = 0x6
vector_of ex_copr_not_available = 0x7
vector_of ex_double_fault = 0x8
vector_of ex_copr_seg_overrun = 0x9
vector_of ex_inval_tss = 0xa
vector_of ex_segment_not_present = 0xb
vector_of ex_stack_exception = 0xc
vector_of ex_general_protection = 0xd
vector_of ex_page_fault = 0xe
vector_of ex_copr_error = 0x10
vector_of ex_syscall = 0x70
vector_of hwint00 = 0x20
vector_of hwint01 = 0x21
vector_of hwint03 = 0x23
vector_of hwint04 = 0x24
vector_of hwint05 = 0x25
vector_of hwint06 = 0x26
vector_of hwint07 = 0x27
vector_of hwint08 = 0x28
vector_of hwint12 = 0x2c
vector_of hwint13 = 0x2d
vector_of hwint14 = 0x2e
vector_of hwint15 = 0x2f

offset_of-gate_of :
    (desc_type handler privilege : ℕ)
    → handler < 2 ^ 32
    → offset_of (gate_of desc_type handler privilege) ≡ handler
offset_of-gate_of desc_type handler privilege h =
    omega (arith, bit_and-low 16 handler, bit_and-low 16 (handler / 2 ^ 16))

abbrev user_gates : (Entry → ℕ) → Bool
user_gates address =
    all_below 256
      (λ v. same (user_may (init_gates address gates no_gates v)) (v == 3 || v == 4 || v == 0x70))

user_gates_hold : (address : Entry → ℕ) → user_gates address ≡ true
user_gates_hold address = refl

entry_at :
    (address : Entry → ℕ)
    → ((e : Entry) → address e < 2 ^ 32)
    → (e : Entry) → offset_of (init_gates address gates no_gates (vector_of e)) ≡ address e
entry_at address h ex_divide_error =
    offset_of-gate_of 0x8e (address ex_divide_error) 0 (h ex_divide_error)
entry_at address h ex_single_step =
    offset_of-gate_of 0x8e (address ex_single_step) 0 (h ex_single_step)
entry_at address h ex_nmi = offset_of-gate_of 0x8e (address ex_nmi) 0 (h ex_nmi)
entry_at address h ex_breakpoint =
    offset_of-gate_of 0x8e (address ex_breakpoint) 3 (h ex_breakpoint)
entry_at address h ex_overflow = offset_of-gate_of 0x8e (address ex_overflow) 3 (h ex_overflow)
entry_at address h ex_bounds_check =
    offset_of-gate_of 0x8e (address ex_bounds_check) 0 (h ex_bounds_check)
entry_at address h ex_inval_opcode =
    offset_of-gate_of 0x8e (address ex_inval_opcode) 0 (h ex_inval_opcode)
entry_at address h ex_copr_not_available =
    offset_of-gate_of 0x8e (address ex_copr_not_available) 0 (h ex_copr_not_available)
entry_at address h ex_double_fault =
    offset_of-gate_of 0x8e (address ex_double_fault) 0 (h ex_double_fault)
entry_at address h ex_copr_seg_overrun =
    offset_of-gate_of 0x8e (address ex_copr_seg_overrun) 0 (h ex_copr_seg_overrun)
entry_at address h ex_inval_tss = offset_of-gate_of 0x8e (address ex_inval_tss) 0 (h ex_inval_tss)
entry_at address h ex_segment_not_present =
    offset_of-gate_of 0x8e (address ex_segment_not_present) 0 (h ex_segment_not_present)
entry_at address h ex_stack_exception =
    offset_of-gate_of 0x8e (address ex_stack_exception) 0 (h ex_stack_exception)
entry_at address h ex_general_protection =
    offset_of-gate_of 0x8e (address ex_general_protection) 0 (h ex_general_protection)
entry_at address h ex_page_fault =
    offset_of-gate_of 0x8e (address ex_page_fault) 0 (h ex_page_fault)
entry_at address h ex_copr_error =
    offset_of-gate_of 0x8e (address ex_copr_error) 0 (h ex_copr_error)
entry_at address h ex_syscall = offset_of-gate_of 0x8e (address ex_syscall) 3 (h ex_syscall)
entry_at address h hwint00 = offset_of-gate_of 0x8e (address hwint00) 0 (h hwint00)
entry_at address h hwint01 = offset_of-gate_of 0x8e (address hwint01) 0 (h hwint01)
entry_at address h hwint03 = offset_of-gate_of 0x8e (address hwint03) 0 (h hwint03)
entry_at address h hwint04 = offset_of-gate_of 0x8e (address hwint04) 0 (h hwint04)
entry_at address h hwint05 = offset_of-gate_of 0x8e (address hwint05) 0 (h hwint05)
entry_at address h hwint06 = offset_of-gate_of 0x8e (address hwint06) 0 (h hwint06)
entry_at address h hwint07 = offset_of-gate_of 0x8e (address hwint07) 0 (h hwint07)
entry_at address h hwint08 = offset_of-gate_of 0x8e (address hwint08) 0 (h hwint08)
entry_at address h hwint12 = offset_of-gate_of 0x8e (address hwint12) 0 (h hwint12)
entry_at address h hwint13 = offset_of-gate_of 0x8e (address hwint13) 0 (h hwint13)
entry_at address h hwint14 = offset_of-gate_of 0x8e (address hwint14) 0 (h hwint14)
entry_at address h hwint15 = offset_of-gate_of 0x8c (address hwint15) 0 (h hwint15)

-- With entries at addresses of 32 bits, irq_setup of an empty table makes each entry the one of its
-- vector, and user code may raise the vectors of a breakpoint, of an overflow and of the system calls,
-- and no other of the 256.
pub irq_setup-user_may :
    (address : Entry → ℕ)
    → ((e : Entry) → address e < 2 ^ 32)
    → ((e : Entry) → offset_of (irq_setup address no_gates (vector_of e)) ≡ address e)
      × ((v : ℕ)
          → v < 256
          → user_may (irq_setup address no_gates v) ≡ (v == 3 || v == 4 || v == 0x70))
unfolding irq_setup
irq_setup-user_may address h = (
  entry_at address h,
  λ v lt. same_eq _ _ (
      all_below-at 256
        (λ v. same (user_may (init_gates address gates no_gates v)) (v == 3 || v == 4 || v == 0x70))
        v (user_gates_hold address) lt),
)
