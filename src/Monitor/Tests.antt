-- ===== src/Monitor/Tests.antt =====
-- Monitors at concrete states.
use neux_os.Prelude.{ℕ, ◌<◌, ◌≤◌, ◌⊎◌, ◌≡◌, refl, true, false, Option, some, none, arith}
use neux_os.Monitor.{Monitor, Video, monitor_putchar, type_char}
use neux_os.Monitor.Bounds.{IsPlaced, Spares, Shows, monitor_putchar-IsPlaced}

-- The second terminal, at the last cell of its part, and with an old display.
abbrev second : Monitor
second = record {
  start = 5120;
  limit = 5120;
  screen = 80;
  cursor = 5119;
  color = 7;
  foreground = true;
}

abbrev blank : Video
blank = record { cells = λ q. 0x720; start = 5200; cursor = 10239 }

abbrev placed : IsPlaced second
placed = record { limit = refl; cursor = omega arith; start = omega arith }

monitor_putchar-IsPlaced_example :
    (m' : Monitor) × (v' : Video) × (monitor_putchar 40 second 65 blank ≡ some (m', v'))
    × IsPlaced m'
    × (m'.start ≡ 5120)
    × Spares second blank v'
    × (second.foreground ≡ true
        → Shows m' v' × (m'.screen ≤ 3200) × ((5119 < 80) ⊎ (m'.screen ≤ m'.cursor)))
    × (second.foreground ≡ false → (v'.start ≡ blank.start) × (v'.cursor ≡ blank.cursor))
monitor_putchar-IsPlaced_example =
    monitor_putchar-IsPlaced 40 second 65 blank placed (λ e. absurd (omega arith)) (omega arith)
      (λ h. (refl, omega arith))

-- A backspace at the first cell clears the cell before the part, which is another terminal's.
backspace_at_start : (type_char (record second { cursor = 0 }) 8 blank).1.cells 5119 ≡ 0x700
unfolding type_char
backspace_at_start = refl

abbrev cursor_of : Option (Monitor × Video) → ℕ
cursor_of none = 0
cursor_of (some (m, v)) = m.cursor

backspace_at_start_cursor :
    cursor_of (monitor_putchar 2 (record second { cursor = 0; foreground = false }) 8 blank) ≡ 65535
unfolding monitor_putchar
backspace_at_start_cursor = refl
