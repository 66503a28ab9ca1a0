-- ===== src/Interrupts/Tests.antt =====
-- The interrupts at concrete entries and masks.
use neux_os.Prelude.{ℕ, ◌<◌, ◌≡◌, ◌||◌, true, false, ◌==◌, arith}
use neux_os.Interrupts.{Entry, irq_setup, setup_8259a, enable_irq_n, disable_irq_n}
use neux_os.Interrupts.Gates.{vector_of, offset_of, user_may, no_gates, irq_setup-user_may}
use neux_os.Interrupts.Masks.{masked, enable_irq_n-masked}

-- One handler for all.
abbrev address : Entry → ℕ
address e = 0x101000

irq_setup-user_may_example :
    ((e : Entry) → offset_of (irq_setup address no_gates (vector_of e)) ≡ address e)
    × ((v : ℕ)
        → v < 256
        → user_may (irq_setup address no_gates v) ≡ (v == 3 || v == 4 || v == 0x70))
irq_setup-user_may_example = irq_setup-user_may address (λ e. omega arith)

-- The keyboard, and the clock, which stays masked when the keyboard is enabled and does not when
-- the keyboard is disabled.
enable_irq_n-masked_example :
    (masked (enable_irq_n 0x21 setup_8259a) 0x20 ≡ true)
    × (masked (disable_irq_n 0x21 setup_8259a) 0x20 ≡ false)
enable_irq_n-masked_example =
    enable_irq_n-masked 0x21 0x20 setup_8259a (omega arith) (omega arith) (omega arith)
      (omega arith) (omega arith) (omega arith)
