-- ===== src/Monitor.antt =====
-- drivers/monitor/monitor.c: the text screens that share the video memory. A cell of the memory is
-- its index from VIDEO_MEM_BASE.
pub mod Bounds
mod Tests
use neux_os.Prelude.{
  ℕ, zero, suc, ◌+◌, ◌-◌, ◌*◌, ◌%◌, ◌^◌, Bool, true, false, not, Option, none, some, ◌==◌, ◌&&◌,
  ltb, leb, if◌then◌else◌,
}
use neux_os.Prelude.Outcome.{Outcome, done, looping}
use neux_os.Links.{update}

-- CRT_BUF_SIZE, CRT_NR_COLUMNS, CRT_SIZE and DEFAULT_TEXT_COLOR
abbrev pub crt_buf_size : ℕ
crt_buf_size = 5 * 1024

abbrev pub crt_nr_columns : ℕ
crt_nr_columns = 80

abbrev pub crt_size : ℕ
crt_size = 80 * 25

abbrev pub default_text_color : ℕ
default_text_color = 7

-- `struct monitor`
pub record Monitor : Type 0 where
  pub start : ℕ
  pub limit : ℕ
  pub screen : ℕ
  pub cursor : ℕ
  pub color : ℕ
  pub foreground : Bool

-- The video memory, and the start and cursor registers of the controller.
pub record Video : Type 0 where
  pub cells : ℕ → ℕ
  pub start : ℕ
  pub cursor : ℕ

abbrev pub screen_detached : Monitor → Bool
screen_detached m = leb (m.screen + crt_size) m.cursor

-- _set_start and _set_cursor
abbrev pub set_start : ℕ → Video → Video
set_start offset v = record v { start = offset % 2 ^ 16 }

abbrev pub set_cursor : ℕ → Video → Video
set_cursor offset v = record v { cursor = offset % 2 ^ 16 }

-- _monitor_putchar
abbrev pub put_cell : (offset color c : ℕ) → Video → Video
put_cell offset color c v = record v {
  cells = update v.cells (offset % 2 ^ 16) (color * 2 ^ 8 % 2 ^ 16 + c % 2 ^ 8);
}

-- The cells of the display after shift(from, -n, limit): the memory from `from` on moves down by
-- `n`, and the `n` cells behind it are blank.
unfoldable pub shift_down : (from n limit : ℕ) → Video → Video
shift_down from n limit v =
    let to = from - n in
    let len = limit - n in
    record v {
      cells = λ q.
          if leb (to + len) q && ltb q (to + len + n)
          then default_text_color * 2 ^ 8
          else if leb to q && ltb q (to + len)
          then v.cells (q - to + from)
          else v.cells q;
    }

unfoldable pub monitor_scroll_up : Monitor → Video → Monitor × Video
monitor_scroll_up m v =
    if m.screen == 0
    then (m, v)
    else let screen = (m.screen + 2 ^ 16 - crt_nr_columns) % 2 ^ 16 in
      (record m { screen = screen }, set_start (m.start + screen) v)

unfoldable pub monitor_scroll_down : Monitor → Video → Monitor × Video
monitor_scroll_down m v =
    if ltb m.cursor (m.screen + crt_size)
    then (m, v)
    else let screen = (m.screen + crt_nr_columns) % 2 ^ 16 in
      (record m { screen = screen }, set_start (m.start + screen) v)

-- while (screen_detached(mon)) monitor_scroll_down(mon);
unfoldable pub attach : ℕ → Monitor → Video → Option (Monitor × Video)
unfolding monitor_scroll_down
attach zero m v = none
attach (suc fuel) m v =
    let (m', v') = monitor_scroll_down m v in
    let more = attach fuel m' v' in if screen_detached m then more else some (m, v)

-- The switch of monitor_putchar: the new cursor, and the cell written.
unfoldable pub type_char : Monitor → (c : ℕ) → Video → ℕ × Video
type_char m c v =
    if c == 10
    then (m.cursor + (crt_nr_columns - m.cursor % crt_nr_columns), v)
    else if c == 8
    then (let cursor = (m.cursor + 2 ^ 32 - 1) % 2 ^ 32 in
        (cursor, put_cell (m.start + cursor) default_text_color 0 v))
    else (m.cursor + 1, put_cell (m.start + m.cursor) m.color c v)

-- if (cursor == mon->limit) { … }
unfoldable pub scroll_text : Monitor → ℕ × Video → ℕ × Video
unfolding shift_down
scroll_text m (cursor, v) =
    if cursor == m.limit
    then (cursor - crt_nr_columns, shift_down (m.start + crt_nr_columns) crt_nr_columns m.limit v)
    else (cursor, v)

unfoldable pub monitor_putchar : ℕ → Monitor → (c : ℕ) → Video → Option (Monitor × Video)
unfolding type_char scroll_text attach
monitor_putchar fuel m c v =
    let (cursor, v) = scroll_text m (type_char m c v) in
    let m = record m { cursor = cursor % 2 ^ 16 } in
    if not m.foreground then some (m, v) else elim (attach fuel m v) [
      | none ↦ none
      | some (m, v) ↦ some (m, set_cursor (m.start + m.cursor) v)
    ]

unfoldable pub monitor_init : (index : ℕ) → Video → Monitor
monitor_init index v = record {
  start = index * crt_buf_size % 2 ^ 16;
  limit = crt_buf_size;
  screen = if index == 0 then v.start else 0;
  cursor = if index == 0 then v.cursor else 0;
  color = default_text_color;
  foreground = false;
}

-- monitor_switch, with `old` put in the background.
unfoldable pub monitor_switch : ℕ → (old mon : Monitor) → Video → Option (Monitor × Monitor × Video)
unfolding attach
monitor_switch fuel old mon v =
    let old = record old { foreground = false } in
    let mon = record mon { foreground = true } in
    let v = set_cursor (mon.start + mon.cursor) (set_start (mon.start + mon.screen) v) in
    elim (attach fuel mon v) [ none ↦ none | some (mon, v) ↦ some (old, mon, v) ]
