-- ===== src/Keyboard/Tests.antt =====
-- The keyboard's buffer at concrete events.
use neux_os.Prelude.{◌%◌, ◌≡◌, ◌==◌, if◌then◌else◌, refl, true, false, some, List, [], ◌∷◌, arith}
use neux_os.Keyboard.Read.{Locks, no_locks}
use neux_os.Keyboard.Held.{Modifier, is_down}
use neux_os.Keyboard.Typing.{Stroke, read_keys, holds, read_keys-holds}
use neux_os.Keyboard.Leds.{Controller}
use neux_os.Keyboard.{KeyboardBuf, keyboard_setup}
use neux_os.Keyboard.Codes.{KeyEvent, interrupt, reads, Waiting, handle, handle_refines}

abbrev unset : KeyboardBuf
unset = record { cells = λ i. 0; count = 7; head = 3; tail = 4 }

-- Three keys, the last of them while the first is read.
abbrev events : List KeyEvent
events = reads [] [] [] ∷ interrupt 0x1e ∷ interrupt 0x30 ∷ reads [] (0x2e ∷ []) [] ∷ []

handle_refines_example :
    (b' : KeyboardBuf) × (handle events (keyboard_setup unset) ≡ (0x1e ∷ [], b'))
    × Waiting b' (0x30 ∷ 0x2e ∷ [])
handle_refines_example = handle_refines events unset (refl, (refl, tt))

-- A key between the load of the count and the store of the smaller one is stored, and not counted.
lost_code :
    (handle
      (interrupt 0x1e ∷ reads [] [] (0x30 ∷ []) ∷ reads [] [] [] ∷ [])
      (keyboard_setup unset)).0
    ≡ 0x1e ∷ []
unfolding handle keyboard_setup
lost_code = refl

abbrev locks : Locks
locks = no_locks []

-- Left shift, "a" pressed and released, and the right control key.
abbrev strokes : List Stroke
strokes = (0x2a, false) ∷ (0x1e, false) ∷ (0x9e, false) ∷ (0x1d, true) ∷ []

read_keys-holds_example :
    (k' : Locks) × (read_keys 4 (0x2a ∷ 0x1e ∷ 0x9e ∷ 0xe0 ∷ 0x1d ∷ []) locks ≡ some (k', []))
    × ((m : Modifier) → is_down m k' ≡ holds m strokes (is_down m locks))
read_keys-holds_example = read_keys-holds strokes [] locks (
  ((λ e. omega arith), (λ e. omega arith)),
  (
    ((λ e. omega arith), (λ e. omega arith)),
    (((λ e. omega arith), (λ e. omega arith)), (((λ e. omega arith), (λ e. omega arith)), tt)),
  ),
)

-- Each status byte but every third is a busy one, and every second byte is an acknowledgement.
abbrev slow : Controller
slow = record {
  status = λ i. if i % 3 == 0 then 0 else 2;
  data_byte = λ i. if i % 2 == 0 then 0x1e else 0xfa;
  status_reads = 1;
  data_reads = 0;
  written = [];
}
