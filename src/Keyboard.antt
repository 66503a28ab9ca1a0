-- ===== src/Keyboard.antt =====
-- drivers/keyboard/keyboard.c: the scan codes that wait between the interrupt and the reader.
pub mod Key
pub mod Keymap
pub mod Codes
pub mod Read
pub mod Held
pub mod Typing
pub mod Consume
pub mod Leds
mod Tests
use neux_os.Prelude.{ℕ, ◌+◌, ◌-◌, ◌%◌, Option, none, some, List, [], ◌∷◌, ◌==◌, ltb, if◌then◌else◌}
use neux_os.Links.{update}
use neux_os.Buffer.{wrap}

-- KEYBOARD_IN_BYTES
abbrev pub keyboard_in_bytes : ℕ
keyboard_in_bytes = 32

-- `struct keyboard_buf`; `head` and `tail` are offsets from its array, `cells`.
pub record KeyboardBuf : Type 0 where
  pub cells : ℕ → ℕ
  pub count : ℕ
  pub head : ℕ
  pub tail : ℕ

-- An interrupt, with the byte that the port gives.
unfoldable pub keyboard_handler : ℕ → KeyboardBuf → KeyboardBuf
keyboard_handler scan_code b =
    if ltb b.count keyboard_in_bytes
    then record b {
      cells = update b.cells b.head scan_code;
      head = wrap keyboard_in_bytes (b.head + 1);
      count = b.count + 1;
    }
    else b

-- Some interrupts, one after the other.
unfoldable pub handle_all : List ℕ → KeyboardBuf → KeyboardBuf
unfolding keyboard_handler
handle_all [] b = b
handle_all (code ∷ codes) b = handle_all codes (keyboard_handler code b)

-- `none` is the call of yield, after which the buffer is looked at again. The calls of disable_irq_n and
-- enable_irq_n change the masks of the controllers only (Interrupts), and do not hold the keyboard's
-- line back, so that interrupts come in the middle of a read: those of `before` behind the test,
-- those of `during` behind the move of the tail, and those of `within` between the load of the count
-- and the store of the smaller one. A read that yields has none.
unfoldable pub get_byte_from_kbuf :
    (before during within : List ℕ) → KeyboardBuf → Option (ℕ × KeyboardBuf)
unfolding handle_all
get_byte_from_kbuf before during within b =
    let b1 = handle_all before b in
    let b2 = handle_all during (record b1 { tail = wrap keyboard_in_bytes (b1.tail + 1) }) in
    let b3 = handle_all within b2 in
    if b.count == 0 then none else some (b1.cells b1.tail % 256, record b3 { count = b2.count - 1 })

-- keyboard_setup, for the buffer
unfoldable pub keyboard_setup : KeyboardBuf → KeyboardBuf
keyboard_setup b = record b { count = 0; head = 0; tail = 0 }
