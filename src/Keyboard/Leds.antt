-- ===== src/Keyboard/Leds.antt =====
-- drivers/keyboard/keyboard.c: the waits of set_leds for the keyboard's controller, and keyboard_read
-- with them.
use neux_os.Prelude.{
  ℕ, zero, suc, ◌+◌, ◌/◌, ◌%◌, ◌<◌, ◌≡◌, Bool, false, not, Option, none, some, List, [], ◌∷◌, ◌++◌,
  length, ◌==◌, if◌then◌else◌,
}
use neux_os.Keyboard.Key
use neux_os.Keyboard.Read.{Locks, leds_of, keyboard_read}

-- KB_ACK
abbrev pub kb_ack : ℕ
kb_ack = 0xfa

-- The bytes that successive reads of the two ports give, how many have been read, and what has been
-- written to the data port.
pub record Controller : Type 0 where
  pub status : ℕ → ℕ
  pub data_byte : ℕ → ℕ
  pub status_reads : ℕ
  pub data_reads : ℕ
  pub written : List ℕ

-- kb_stat & 0x02
abbrev pub is_busy : ℕ → Bool
is_busy kb_stat = kb_stat / 2 % 2 == 1

-- `none` is a loop that has not ended after that many rounds.
unfoldable pub keyboard_wait : (rounds : ℕ) → Controller → Option Controller
keyboard_wait zero c = none
keyboard_wait (suc rounds) c =
    let kb_stat = c.status c.status_reads in
    let c = record c { status_reads = c.status_reads + 1 } in
    let again = keyboard_wait rounds c in if is_busy kb_stat then again else some c

unfoldable pub keyboard_ack : (rounds : ℕ) → Controller → Option Controller
keyboard_ack zero c = none
keyboard_ack (suc rounds) c =
    let kb_read = c.data_byte c.data_reads in
    let c = record c { data_reads = c.data_reads + 1 } in
    let again = keyboard_ack rounds c in if not (kb_read == kb_ack) then again else some c

-- One half of set_leds: a byte is written when the controller is ready, and acknowledged.
unfoldable pub send_byte : (rounds byte : ℕ) → Controller → Option Controller
unfolding keyboard_wait keyboard_ack
send_byte rounds byte c = elim (keyboard_wait rounds c) [
  | none ↦ none
  | some c ↦ keyboard_ack rounds (record c { written = c.written ++ byte ∷ [] })
]

unfoldable pub set_leds : (rounds : ℕ) → Locks → Controller → Option Controller
unfolding send_byte
set_leds rounds k c = elim (send_byte rounds Key.led_code c) [
  | none ↦ none
  | some c ↦ send_byte rounds (leds_of k) c
]

-- keyboard_read on a controller. `sent` has become longer if it has called set_leds.
unfoldable pub keyboard_call :
    (rounds : ℕ) → List ℕ → Locks → Controller → Option (Option ℕ × Locks × List ℕ × Controller)
unfolding set_leds keyboard_read
keyboard_call rounds codes k c = elim (keyboard_read codes k) [
  | none ↦ none
  | some (key, k', left) ↦
      if length k'.sent == length k.sent
      then some (key, k', left, c)
      else elim (set_leds rounds k' c) [ none ↦ none | some c' ↦ some (key, k', left, c') ]
]

-- Among any `n` successive bytes of either port there is one that the driver waits for.
pub record Answers (n : ℕ) (c : Controller) : Type 0 where
  pub ready : (i : ℕ) → (j : ℕ) × (j < n) × (is_busy (c.status (i + j)) ≡ false)
  pub acks : (i : ℕ) → (j : ℕ) × (j < n) × (c.data_byte (i + j) ≡ kb_ack)
