-- ===== src/Tty.antt =====
-- kernel/tty.c: the terminals, from the keyboard's keys through the input buffers to the reader.
pub mod Input
pub mod Keypress
mod Tests
use neux_os.Prelude.{
  ℕ, zero, suc, ◌+◌, ◌-◌, ◌*◌, ◌/◌, ◌%◌, ◌^◌, List, [], ◌∷◌, Bool, true, false, not, Option, none,
  some, ◌==◌, ◌&&◌, ◌||◌, ltb, if◌then◌else◌,
}
use neux_os.Links.{update}
use neux_os.Buffer.{wrap}
use neux_os.Keyboard.Key
use neux_os.Monitor.{Monitor, Video, monitor_scroll_up, monitor_scroll_down, monitor_switch}

-- TTY_BUF_SIZE
abbrev pub tty_buf_size : ℕ
tty_buf_size = 1024

-- `struct iobuf`; `head` and `tail` are offsets from its array, `cells`.
pub record Iobuf : Type 0 where
  pub cells : ℕ → ℕ
  pub count : ℕ
  pub head : ℕ
  pub tail : ℕ

unfoldable pub iobuf_init : Iobuf → Iobuf
iobuf_init b = record b { count = 0; head = 0; tail = 0 }

unfoldable pub iobuf_put : Iobuf → ℕ → Iobuf
iobuf_put b ch = record b {
  cells = update b.cells b.head ch;
  head = wrap tty_buf_size (b.head + 1);
  count = (b.count + 1) % 2 ^ 32;
}

-- `none` is -ENOENT.
unfoldable pub iobuf_get : Iobuf → Option (ℕ × Iobuf)
iobuf_get b =
    if b.count == 0
    then none
    else some
        (b.cells b.tail, record b { tail = wrap tty_buf_size (b.tail + 1); count = b.count - 1 })

-- The two bytes that start a control sequence.
unfoldable pub putctrl : Iobuf → Iobuf
unfolding iobuf_put
putctrl b = iobuf_put (iobuf_put b 0x1b) 0x5b

-- TTY0, TTY1, TTY2 and TTY_MAX; SCROLL_ROWS
abbrev pub tty_max : ℕ
tty_max = 2

abbrev pub scroll_rows : ℕ
scroll_rows = 15

-- `ttys`, `_tty_current` and the display
pub record Terminals : Type 0 where
  pub input : ℕ → Iobuf
  pub mon : ℕ → Monitor
  pub current : ℕ
  pub video : Video

abbrev pub set_input : Terminals → ℕ → Iobuf → Terminals
set_input t fd b = record t { input = λ i. if i == fd then b else t.input i }

abbrev pub set_mon : Terminals → ℕ → Monitor × Video → Terminals
set_mon t fd (m, v) = record t { mon = λ i. if i == fd then m else t.mon i; video = v }

unfoldable pub tty_switch : ℕ → Terminals → ℕ → Option Terminals
tty_switch fuel t fd = elim (monitor_switch fuel (t.mon t.current) (t.mon fd) t.video) [
  | none ↦ none
  | some (old, m, v) ↦
      some (record (set_mon (set_mon t t.current (old, v)) fd (m, v)) { current = fd })
]

-- for (int i = 0; i < SCROLL_ROWS; i++) op(&ttys[fd].mon);
abbrev pub repeat : ℕ → (Monitor → Video → Monitor × Video) → Monitor × Video → Monitor × Video
repeat zero op s = s
repeat (suc n) op (m, v) = repeat n op (op m v)

abbrev pub scroll : (Monitor → Video → Monitor × Video) → Terminals → ℕ → Terminals
scroll op t fd = set_mon t fd (repeat scroll_rows op (t.mon fd, t.video))

-- The cases of tty_in_proc's switch, on an extended key; the report of Shift-F5 is output only.
unfoldable pub extended_key : ℕ → Terminals → (fd key : ℕ) → Option Terminals
unfolding iobuf_put putctrl
extended_key fuel t fd key =
    let inp = t.input fd in
    if key == Key.enter
    then some (set_input t fd (iobuf_put inp 10))
    else if key == Key.backspace
    then some (set_input t fd (iobuf_put inp 8))
    else if key == Key.flag_shift_l + Key.pageup
    then some (scroll monitor_scroll_up t fd)
    else if key == Key.flag_shift_l + Key.pagedown
    then some (scroll monitor_scroll_down t fd)
    else if key == Key.flag_shift_l + Key.f1
    then tty_switch fuel t 0
    else if key == Key.flag_shift_l + Key.f2
    then tty_switch fuel t 1
    else if key == Key.flag_shift_l + Key.f3
    then tty_switch fuel t 2
    else if not (ltb key Key.up) && not (ltb Key.right key)
    then some (set_input t fd (iobuf_put (putctrl inp) (65 + (key - Key.up))))
    else some t

-- A key is 16 bits; only its low byte is kept.
unfoldable pub tty_in_proc : ℕ → Terminals → (fd key : ℕ) → Option Terminals
unfolding extended_key
tty_in_proc fuel t fd key =
    if ltb tty_max fd
    then some t
    else if not (key / Key.flag_ext % 2 == 0)
    then extended_key fuel t fd key
    else some (set_input t fd (iobuf_put (t.input fd) (key % 256)))

-- The loop of tty_dev_read with `left` bytes to go: the bytes read, up to where the input is empty.
unfoldable pub read_loop : (left : ℕ) → Iobuf → List ℕ × Iobuf
unfolding iobuf_get
read_loop zero b = ([], b)
read_loop (suc left) b = elim (iobuf_get b) [
  | none ↦ ([], b)
  | some (ch, b') ↦ let rest = read_loop left b' in (ch ∷ rest.0, rest.1)
]

-- `none` is the call of yield, after which the loop starts again.
unfoldable pub tty_dev_read : Terminals → (fd count : ℕ) → Option (List ℕ × Terminals)
unfolding read_loop
tty_dev_read t fd count =
    let (bytes, b) = read_loop count (t.input fd) in
    let empty : Bool = elim bytes [ [] ↦ true | (x ∷ xs) ↦ false ] in
    if not (count == 0) && empty then none else some (bytes, set_input t fd b)
