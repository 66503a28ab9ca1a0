-- ===== src/Keyboard/Read.antt =====
-- drivers/keyboard/keyboard.c: keyboard_read, which turns scan codes into keys.
use Prim.Native.Nat.{bit_or}
use neux_os.Prelude.{
  ℕ, ◌+◌, ◌-◌, ◌%◌, Bool, true, false, not, ◌&&◌, ◌||◌, Option, none, some, List, [], ◌∷◌, ◌++◌,
  ◌==◌, ltb, leb, get_or, if◌then◌else◌,
}
use neux_os.Keyboard.Key
use neux_os.Keyboard.Keymap.{Row, keymap}

-- The `static int` variables; `sent` is what set_leds writes to the port.
pub record Locks : Type 0 where
  pub shift_l : Bool
  pub shift_r : Bool
  pub alt_l : Bool
  pub alt_r : Bool
  pub ctrl_l : Bool
  pub ctrl_r : Bool
  pub caps_lock : Bool
  pub num_lock : Bool
  pub scroll_lock : Bool
  pub sent : List ℕ

abbrev pub bit : Bool → ℕ → ℕ
bit b n = if b then n else 0

-- `leds` of set_leds
abbrev pub leds_of : Locks → ℕ
leds_of k = bit_or (bit_or (bit k.caps_lock 4) (bit k.num_lock 2)) (bit k.scroll_lock 1)

-- The two bytes that set_leds writes. Its waits for the controller are in Keyboard/Leds.
unfoldable pub send_leds : Locks → Locks
send_leds k = record k { sent = k.sent ++ Key.led_code ∷ leds_of k ∷ [] }

-- What the first bytes are: a pause or a print screen, which are dropped, or one scan code.
pub data Scan : Type 0 where
  dropped : Scan
  code : (scan_code : ℕ) (code_with_E0 : Bool) → Scan

-- Reads bytes while they are the expected ones; `none` waits for a byte.
unfoldable pub expect : (expected codes : List ℕ) → Option (Bool × List ℕ)
expect [] codes = some (true, codes)
expect (e ∷ es) [] = none
expect (e ∷ es) (c ∷ codes) =
    let more = expect es codes in if c == e then more else some (false, codes)

abbrev pub or_code : (scan_code : ℕ) (e0 : Bool) → Option (Bool × List ℕ) → Option (Scan × List ℕ)
or_code scan_code e0 none = none
or_code scan_code e0 (some (true, codes)) = some (dropped, codes)
or_code scan_code e0 (some (false, codes)) = some (code scan_code e0, codes)

unfoldable pub behind_e0 : List ℕ → Option (Scan × List ℕ)
unfolding expect
behind_e0 [] = none
behind_e0 (d ∷ codes) =
    if d == 0x2a
    then or_code d true (expect (0xe0 ∷ 0x37 ∷ []) codes)
    else if d == 0xb7
    then or_code d true (expect (0xe0 ∷ 0xaa ∷ []) codes)
    else some (code d true, codes)

unfoldable pub read_scan : List ℕ → Option (Scan × List ℕ)
unfolding expect behind_e0
read_scan [] = none
read_scan (c ∷ codes) =
    if c == 0xe1
    then or_code c false (expect (0x1d ∷ 0x45 ∷ 0xe1 ∷ 0x9d ∷ 0xc5 ∷ []) codes)
    else if c == 0xe0
    then behind_e0 codes
    else some (code c false, codes)

abbrev pub is_make : ℕ → Bool
is_make scan_code = ltb (scan_code % 256) Key.flag_break

unfoldable pub keyrow : ℕ → Row
keyrow scan_code = get_or keymap (scan_code % 128) (0, 0, 0)

unfoldable pub caps : Locks → Row → Bool
caps k row =
    let shift = k.shift_l || k.shift_r in
    if k.caps_lock && leb 97 row.0 && leb row.0 122 then not shift else shift

unfoldable pub key_at : Locks → ℕ → Bool → ℕ
unfolding keyrow caps
key_at k scan_code code_with_E0 =
    let row = keyrow scan_code in
    if code_with_E0 then row.2 else if caps k row then row.1 else row.0

-- The first switch of keyboard_read.
unfoldable pub set_lock : ℕ → Bool → Locks → Locks
unfolding send_leds
set_lock key make k =
    if key == Key.shift_l
    then record k { shift_l = make }
    else if key == Key.shift_r
    then record k { shift_r = make }
    else if key == Key.ctrl_l
    then record k { ctrl_l = make }
    else if key == Key.ctrl_r
    then record k { ctrl_r = make }
    else if key == Key.alt_l
    then record k { alt_l = make }
    else if key == Key.alt_r
    then record k { alt_r = make }
    else if make && key == Key.caps_lock
    then send_leds (record k { caps_lock = not k.caps_lock })
    else if make && key == Key.num_lock
    then send_leds (record k { num_lock = not k.num_lock })
    else if make && key == Key.scroll_lock
    then send_leds (record k { scroll_lock = not k.scroll_lock })
    else k

-- The innermost switch for the pad.
abbrev pub pad_arrow : ℕ → ℕ
pad_arrow key =
    if key == Key.pad_home
    then Key.home
    else if key == Key.pad_end
    then Key.end
    else if key == Key.pad_pageup
    then Key.pageup
    else if key == Key.pad_pagedown
    then Key.pagedown
    else if key == Key.pad_ins
    then Key.insert
    else if key == Key.pad_up
    then Key.up
    else if key == Key.pad_down
    then Key.down
    else if key == Key.pad_left
    then Key.left
    else if key == Key.pad_right
    then Key.right
    else if key == Key.pad_dot
    then Key.delete
    else key

unfoldable pub pad : Bool → ℕ → ℕ
pad num_lock key =
    if not (leb Key.pad_slash key && leb key Key.pad_9)
    then key
    else if key == Key.pad_slash
    then 47
    else if key == Key.pad_star
    then 42
    else if key == Key.pad_minus
    then 45
    else if key == Key.pad_plus
    then 43
    else if key == Key.pad_enter
    then Key.enter
    else if num_lock && leb Key.pad_0 key && leb key Key.pad_9
    then key - Key.pad_0 + 48
    else if num_lock && key == Key.pad_dot
    then 46
    else pad_arrow key

unfoldable pub add_flags : Locks → ℕ → ℕ
add_flags k key =
    let key = bit_or key (bit k.shift_l Key.flag_shift_l) in
    let key = bit_or key (bit k.shift_r Key.flag_shift_r) in
    let key = bit_or key (bit k.ctrl_l Key.flag_ctrl_l) in
    let key = bit_or key (bit k.ctrl_r Key.flag_ctrl_r) in
    let key = bit_or key (bit k.alt_l Key.flag_alt_l) in bit_or key (bit k.alt_r Key.flag_alt_r)

-- One call: the key for the handler, if it is called, and the bytes that are left.
unfoldable pub press : Scan → Locks → Option ℕ × Locks
unfolding key_at set_lock pad add_flags
press dropped k = (none, k)
press (code scan_code code_with_E0) k =
    let key = key_at k scan_code code_with_E0 in
    let k = set_lock key (is_make scan_code) k in
    if is_make scan_code then (some (add_flags k (pad k.num_lock key)), k) else (none, k)

unfoldable pub keyboard_read : List ℕ → Locks → Option (Option ℕ × Locks × List ℕ)
unfolding read_scan press
keyboard_read codes k = elim (read_scan codes) [
  | none ↦ none
  | some (scan, codes) ↦ let (key, k) = press scan k in some (key, k, codes)
]

-- keyboard_setup, for the keys
abbrev pub no_locks : List ℕ → Locks
unfolding send_leds
no_locks sent = send_leds (record {
  shift_l = false;
  shift_r = false;
  alt_l = false;
  alt_r = false;
  ctrl_l = false;
  ctrl_r = false;
  caps_lock = false;
  num_lock = true;
  scroll_lock = false;
  sent = sent;
})
