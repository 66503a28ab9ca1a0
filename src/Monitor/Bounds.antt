-- ===== src/Monitor/Bounds.antt =====
-- Where a monitor writes, and what it shows.
use neux_os.Prelude.{
  ℕ, zero, suc, ◌+◌, ◌*◌, ◌%◌, ◌^◌, ◌<◌, ◌≤◌, ◌≡◌, refl, sym, subst, ◌∙◌, true, false, some, ◌⊎◌,
  inl, inr, Bool-cases, ◌==◌, ltb, if◌then◌else◌, arith,
}
use native.Mathlib.Decide.{dec_lt}
use neux_os.Monitor.{
  Monitor, Video, crt_nr_columns, crt_size, set_start, set_cursor, shift_down, monitor_scroll_down,
  screen_detached, attach, type_char, scroll_text, monitor_putchar, monitor_switch,
}

-- The monitor's part of the memory, with the cursor in it.
pub record IsPlaced (m : Monitor) : Type 0 where
  pub limit : m.limit ≡ 5120
  pub cursor : m.cursor < 5120
  pub start : m.start + 5120 ≤ 65536

-- The cells outside the monitor's part are the same.
abbrev pub Spares : Monitor → Video → Video → Type 0
Spares m v v' = (q : ℕ) → (q < m.start) ⊎ (m.start + 5120 ≤ q) → v'.cells q ≡ v.cells q

-- The start register is at the display, the cursor is not below it, and the cursor register is at the
-- cursor.
abbrev pub Shows : Monitor → Video → Type 0
Shows m v =
    (v.start ≡ m.start + m.screen) × (m.cursor < m.screen + 2000) × (v.cursor ≡ m.start + m.cursor)

type_char-cursor :
    (m : Monitor) (c : ℕ) (v : Video)
    → IsPlaced m
    → (c ≡ 8 → 0 < m.cursor)
    → (type_char m c v).0 ≤ 5120
unfolding type_char
type_char-cursor m c v p back = elim (Bool-cases (c == 10)) [
  | inl newline ↦ rw newline (omega (arith, p.cursor))
  | inr other ↦ elim (Bool-cases (c == 8)) [
    | inl erase ↦
        let some : 0 < m.cursor = back (ground arith) in rw (other, erase) (omega (arith, p.cursor))
    | inr plain ↦ rw (other, plain) (omega (arith, p.cursor))
  ]
]

type_char-Spares :
    (m : Monitor) (c : ℕ) (v : Video)
    → IsPlaced m
    → (c ≡ 8 → 0 < m.cursor)
    → Spares m v (type_char m c v).1
unfolding type_char
type_char-Spares m c v p back q out = elim (Bool-cases (c == 10)) [
  | inl newline ↦ rw newline
  | inr other ↦ elim (Bool-cases (c == 8)) [
    | inl erase ↦
        let some : 0 < m.cursor = back (ground arith) in
        rw (other, erase) (ground (arith, p.cursor, p.start, out))
    | inr plain ↦ rw (other, plain) (ground (arith, p.cursor, p.start, out))
  ]
]

scroll_text-cursor :
    (m : Monitor) (n : ℕ) (v : Video) → IsPlaced m → n ≤ 5120 → (scroll_text m (n, v)).0 < 5120
unfolding scroll_text
scroll_text-cursor m n v p h = elim (Bool-cases (n == m.limit)) [
  | inl full ↦ rw full (omega arith)
  | inr room ↦ rw room (ground (arith, p.limit))
]

scroll_text-Spares :
    (m : Monitor) (n : ℕ) (v : Video) → IsPlaced m → Spares m v (scroll_text m (n, v)).1
unfolding scroll_text shift_down
scroll_text-Spares m n v p q out = elim (Bool-cases (n == m.limit)) [
  | inl full ↦ rw full (ground (arith, p.limit, p.start, out))
  | inr room ↦ rw room
]

abbrev SameRegisters : Video → Video → Type 0
SameRegisters v v' = (v'.start ≡ v.start) × (v'.cursor ≡ v.cursor)

SameRegisters-trans : (u v w : Video) → SameRegisters v w → SameRegisters u v → SameRegisters u w
SameRegisters-trans u v w f g = (f.0 ∙ g.0, f.1 ∙ g.1)

type_char-registers : (m : Monitor) (c : ℕ) (v : Video) → SameRegisters v (type_char m c v).1
unfolding type_char
type_char-registers m c v = elim (Bool-cases (c == 10)) [
  | inl newline ↦ rw newline (refl, refl)
  | inr other ↦ elim (Bool-cases (c == 8)) [
    | inl erase ↦ rw (other, erase) (refl, refl)
    | inr plain ↦ rw (other, plain) (refl, refl)
  ]
]

scroll_text-registers : (m : Monitor) (n : ℕ) (v : Video) → SameRegisters v (scroll_text m (n, v)).1
unfolding scroll_text shift_down
scroll_text-registers m n v = elim (Bool-cases (n == m.limit)) [
  | inl full ↦ rw full (refl, refl)
  | inr room ↦ rw room (refl, refl)
]

type_char-from :
    (m : Monitor) (c : ℕ) (v : Video)
    → IsPlaced m
    → m.screen + (if c == 8 then 1 else 0) ≤ m.cursor
    → m.screen ≤ (type_char m c v).0
unfolding type_char
type_char-from m c v p h = elim (Bool-cases (c == 10)) [
  | inl newline ↦ rw newline (ground (arith, h))
  | inr other ↦ elim (Bool-cases (c == 8)) [
    | inl erase ↦
        let below : m.screen + 1 ≤ m.cursor = ground (arith, h, erase) in
        rw (other, erase) (omega (arith, below, p.cursor))
    | inr plain ↦ rw (other, plain) (ground (arith, h))
  ]
]

scroll_text-from :
    (m : Monitor) (n : ℕ) (v : Video)
    → IsPlaced m
    → m.screen ≤ 3200
    → m.screen ≤ n
    → m.screen ≤ (scroll_text m (n, v)).0
unfolding scroll_text
scroll_text-from m n v p low h = elim (Bool-cases (n == m.limit)) [
  | inl full ↦ rw full (ground (arith, p.limit))
  | inr room ↦ rw room h
]

-- The loop ends with the cursor not below the display. It does not take the display past the cursor,
-- or past the last 24 lines of the part, and keeps the start register at it.
attach-shown :
    (fuel : ℕ) (m : Monitor) (v : Video)
    → IsPlaced m
    → 0 < fuel
    → m.cursor < m.screen + 1920 + 80 * fuel
    → (n start : ℕ) × (attach fuel m v ≡ some (record m { screen = n }, record v { start = start }))
      × (m.cursor < n + 2000)
      × (m.screen ≤ m.cursor → n ≤ m.cursor)
      × (m.screen ≤ 3200 → n ≤ 3200)
      × (m.screen ≤ 3200 → v.start ≡ m.start + m.screen → start ≡ m.start + n)
unfolding attach monitor_scroll_down
attach-shown zero m v p some_fuel h = absurd (omega arith)
attach-shown (suc fuel) m v p some_fuel h = elim (Bool-cases (screen_detached m)) [
  | inl away ↦
      let late : ltb m.cursor (m.screen + crt_size) ≡ false = ground (arith, away) in
      let next : (m.screen + crt_nr_columns) % 2 ^ 16 ≡ m.screen + 80 =
        ground (arith, away, p.cursor) in
      let (n, start, e, shown, from, last, at_display) =
        attach-shown fuel (record m { screen = (m.screen + crt_nr_columns) % 2 ^ 16 })
          (record v { start = (m.start + (m.screen + crt_nr_columns) % 2 ^ 16) % 2 ^ 16 })
          (record { limit = p.limit; cursor = p.cursor; start = p.start }) (ground (arith, away))
          (omega (arith, next)) in
      let low : m.screen + 80 ≤ 3200 = ground (arith, away, p.cursor) in
      let behind : m.screen + 80 ≤ m.cursor = ground (arith, away) in
      (
        n,
        start,
        rw (late, away) e,
        shown,
        λ _. from (omega (arith, next, behind)),
        λ _. last (omega (arith, next, low)),
        λ _ _. at_display (omega (arith, next, low)) (omega (arith, next, low, p.start)),
      )
  | inr shown ↦ (
    m.screen,
    v.start,
    rw shown,
    ground (arith, shown),
    λ h. h,
    λ h. h,
    λ _ at_display. at_display,
  )
]

-- A character typed at a monitor in its part of the memory, but a backspace at its first cell, ends
-- within 40 rounds of scrolling. It leaves the cursor in the part and every cell outside the part
-- as it was. A monitor in the background leaves both registers. If one in the foreground has its
-- display where the start register is, at the cell 3200 of its part or before, this is so again,
-- the cursor register is at the cursor, and the cursor is not below the display, and not above it
-- either unless it was above it before or the character is a backspace at the first cell of the
-- display.
pub monitor_putchar-IsPlaced :
    (fuel : ℕ) (m : Monitor) (c : ℕ) (v : Video)
    → IsPlaced m
    → (c ≡ 8 → 0 < m.cursor)
    → 40 ≤ fuel
    → (m.foreground ≡ true → (v.start ≡ m.start + m.screen) × (m.screen ≤ 3200))
    → (m' : Monitor) × (v' : Video) × (monitor_putchar fuel m c v ≡ some (m', v'))
      × IsPlaced m'
      × (m'.start ≡ m.start)
      × Spares m v v'
      × (m.foreground ≡ true
          → Shows m' v'
            × (m'.screen ≤ 3200)
            × ((m.cursor < m.screen + (if c == 8 then 1 else 0)) ⊎ (m'.screen ≤ m'.cursor)))
      × (m.foreground ≡ false → (v'.start ≡ v.start) × (v'.cursor ≡ v.cursor))
unfolding monitor_putchar
monitor_putchar-IsPlaced fuel m c v p back enough display =
    let typed = type_char m c v in
    let low = scroll_text-cursor m typed.0 typed.1 p (type_char-cursor m c v p back) in
    let s = scroll_text m typed in
    let narrow : s.0 % 2 ^ 16 ≡ s.0 = omega (arith, low) in
    let placed : IsPlaced (record m { cursor = s.0 % 2 ^ 16 }) = record {
      limit = p.limit;
      cursor = omega (arith, low);
      start = p.start;
    } in
    let spares : Spares m v s.1 =
      λ q out. scroll_text-Spares m typed.0 typed.1 p q out ∙ type_char-Spares m c v p back q out in
    elim (Bool-cases m.foreground) [
      | inr dark ↦ (
        record m { cursor = s.0 % 2 ^ 16 },
        s.1,
        rw dark,
        placed,
        refl,
        spares,
        λ h. absurd (ground (arith, dark)),
        λ h.
            SameRegisters-trans v typed.1 s.1 (scroll_text-registers m typed.0 typed.1)
              (type_char-registers m c v),
      )
      | inl lit ↦
          let (at_display, low_display) = display lit in
          let same =
            SameRegisters-trans v typed.1 s.1 (scroll_text-registers m typed.0 typed.1)
              (type_char-registers m c v) in
          let (n, start, e, shown, from, last, moved) =
            attach-shown fuel (record m { cursor = s.0 % 2 ^ 16 }) s.1 placed (omega arith)
              (omega (arith, low)) in
          (
            record m { cursor = s.0 % 2 ^ 16; screen = n },
            record s.1 { start = start; cursor = (m.start + s.0 % 2 ^ 16) % 2 ^ 16 },
            rw (e, lit),
            record { limit = p.limit; cursor = omega (arith, low); start = p.start },
            refl,
            spares,
            λ h. (
              (moved low_display (same.0 ∙ at_display), shown, omega (arith, low, p.start)),
              last low_display,
              elim (dec_lt m.cursor (m.screen + (if c == 8 then 1 else 0))) [
                | yes above ↦ inl above
                | no inside ↦
                    let kept =
                      scroll_text-from m typed.0 typed.1 p low_display
                        (type_char-from m c v p (omega (arith, inside))) in
                    inr (from (subst (λ k. m.screen ≤ k) (sym narrow) kept))
              ],
            ),
            λ h. absurd (ground (arith, lit)),
          )
    ]

-- Switching to a monitor in its part ends within 40 rounds of scrolling.
pub monitor_switch_ends :
    (fuel : ℕ) (old m : Monitor) (v : Video)
    → IsPlaced m
    → 40 ≤ fuel
    → (r : Monitor × Monitor × Video) × (monitor_switch fuel old m v ≡ some r)
unfolding monitor_switch
monitor_switch_ends fuel old m v p enough =
    let v' = set_cursor (m.start + m.cursor) (set_start (m.start + m.screen) v) in
    let (n, start, e, shown, _, _, _) =
      attach-shown fuel (record m { foreground = true }) v'
        (record { limit = p.limit; cursor = p.cursor; start = p.start }) (omega arith)
        (omega (arith, p.cursor)) in
    (
      (
        record old { foreground = false },
        record m { foreground = true; screen = n },
        record v' { start = start },
      ),
      rw (monitor_switch, e),
    )
