-- ===== src/Keyboard/Keymap.antt =====
-- drivers/keyboard/keymap.h: the keys of the scan codes.
use neux_os.Prelude.{ℕ, List, [], ◌∷◌}
use neux_os.Keyboard.Key

-- Plain, with shift, and behind 0xe0.
abbrev pub Row : Type 0
Row = ℕ × ℕ × ℕ

-- The rows from scan code 0 on; a character is its code.
abbrev pub keymap : List Row
keymap =
    (0, 0, 0)
    ∷ (Key.esc, Key.esc, 0)
    ∷ (49, 33, 0)
    ∷ (50, 64, 0)
    ∷ (51, 35, 0)
    ∷ (52, 36, 0)
    ∷ (53, 37, 0)
    ∷ (54, 94, 0)
    ∷ (55, 38, 0)
    ∷ (56, 42, 0)
    ∷ (57, 40, 0)
    ∷ (48, 41, 0)
    ∷ (45, 95, 0)
    ∷ (61, 43, 0)
    ∷ (Key.backspace, Key.backspace, 0)
    ∷ (Key.tab, Key.tab, 0)
    ∷ (113, 81, 0)
    ∷ (119, 87, 0)
    ∷ (101, 69, 0)
    ∷ (114, 82, 0)
    ∷ (116, 84, 0)
    ∷ (121, 89, 0)
    ∷ (117, 85, 0)
    ∷ (105, 73, 0)
    ∷ (111, 79, 0)
    ∷ (112, 80, 0)
    ∷ (91, 123, 0)
    ∷ (93, 125, 0)
    ∷ (Key.enter, Key.enter, Key.pad_enter)
    ∷ (Key.ctrl_l, Key.ctrl_l, Key.ctrl_r)
    ∷ (97, 65, 0)
    ∷ (115, 83, 0)
    ∷ (100, 68, 0)
    ∷ (102, 70, 0)
    ∷ (103, 71, 0)
    ∷ (104, 72, 0)
    ∷ (106, 74, 0)
    ∷ (107, 75, 0)
    ∷ (108, 76, 0)
    ∷ (59, 58, 0)
    ∷ (39, 34, 0)
    ∷ (96, 126, 0)
    ∷ (Key.shift_l, Key.shift_l, 0)
    ∷ (92, 124, 0)
    ∷ (122, 90, 0)
    ∷ (120, 88, 0)
    ∷ (99, 67, 0)
    ∷ (118, 86, 0)
    ∷ (98, 66, 0)
    ∷ (110, 78, 0)
    ∷ (109, 77, 0)
    ∷ (44, 60, 0)
    ∷ (46, 62, 0)
    ∷ (47, 63, Key.pad_slash)
    ∷ (Key.shift_r, Key.shift_r, 0)
    ∷ (42, 42, 0)
    ∷ (Key.alt_l, Key.alt_l, Key.alt_r)
    ∷ (32, 32, 0)
    ∷ (Key.caps_lock, Key.caps_lock, 0)
    ∷ (Key.f1, Key.f1, 0)
    ∷ (Key.f2, Key.f2, 0)
    ∷ (Key.f3, Key.f3, 0)
    ∷ (Key.f4, Key.f4, 0)
    ∷ (Key.f5, Key.f5, 0)
    ∷ (Key.f6, Key.f6, 0)
    ∷ (Key.f7, Key.f7, 0)
    ∷ (Key.f8, Key.f8, 0)
    ∷ (Key.f9, Key.f9, 0)
    ∷ (Key.f10, Key.f10, 0)
    ∷ (Key.num_lock, Key.num_lock, 0)
    ∷ (Key.scroll_lock, Key.scroll_lock, 0)
    ∷ (Key.pad_home, 55, Key.home)
    ∷ (Key.pad_up, 56, Key.up)
    ∷ (Key.pad_pageup, 57, Key.pageup)
    ∷ (Key.pad_minus, 45, 0)
    ∷ (Key.pad_left, 52, Key.left)
    ∷ (Key.pad_mid, 53, 0)
    ∷ (Key.pad_right, 54, Key.right)
    ∷ (Key.pad_plus, 43, 0)
    ∷ (Key.pad_end, 49, Key.end)
    ∷ (Key.pad_down, 50, Key.down)
    ∷ (Key.pad_pagedown, 51, Key.pagedown)
    ∷ (Key.pad_ins, 48, Key.insert)
    ∷ (Key.pad_dot, 46, Key.delete)
    ∷ (0, 0, 0)
    ∷ (0, 0, 0)
    ∷ (0, 0, 0)
    ∷ (Key.f11, Key.f11, 0)
    ∷ (Key.f12, Key.f12, 0)
    ∷ (0, 0, 0)
    ∷ (0, 0, 0)
    ∷ (0, 0, Key.gui_l)
    ∷ (0, 0, Key.gui_r)
    ∷ (0, 0, Key.apps)
    ∷ (0, 0, 0)
    ∷ (0, 0, 0)
    ∷ (0, 0, 0)
    ∷ (0, 0, 0)
    ∷ (0, 0, 0)
    ∷ (0, 0, 0)
    ∷ (0, 0, 0)
    ∷ (0, 0, 0)
    ∷ (0, 0, 0)
    ∷ (0, 0, 0)
    ∷ (0, 0, 0)
    ∷ (0, 0, 0)
    ∷ (0, 0, 0)
    ∷ (0, 0, 0)
    ∷ (0, 0, 0)
    ∷ (0, 0, 0)
    ∷ (0, 0, 0)
    ∷ (0, 0, 0)
    ∷ (0, 0, 0)
    ∷ (0, 0, 0)
    ∷ (0, 0, 0)
    ∷ (0, 0, 0)
    ∷ (0, 0, 0)
    ∷ (0, 0, 0)
    ∷ (0, 0, 0)
    ∷ (0, 0, 0)
    ∷ (0, 0, 0)
    ∷ (0, 0, 0)
    ∷ (0, 0, 0)
    ∷ (0, 0, 0)
    ∷ (0, 0, 0)
    ∷ (0, 0, 0)
    ∷ (0, 0, 0)
    ∷ (0, 0, 0)
    ∷ []
