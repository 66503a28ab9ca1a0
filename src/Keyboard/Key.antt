-- ===== src/Keyboard/Key.antt =====
-- drivers/keyboard/keyboard.h: the keys, and the flags that are put on them.
use neux_os.Prelude.{ℕ, ◌+◌}

abbrev pub flag_break : ℕ
flag_break = 0x0080

abbrev pub flag_ext : ℕ
flag_ext = 0x0100

abbrev pub flag_shift_l : ℕ
flag_shift_l = 0x0200

abbrev pub flag_shift_r : ℕ
flag_shift_r = 0x0400

abbrev pub flag_ctrl_l : ℕ
flag_ctrl_l = 0x0800

abbrev pub flag_ctrl_r : ℕ
flag_ctrl_r = 0x1000

abbrev pub flag_alt_l : ℕ
flag_alt_l = 0x2000

abbrev pub flag_alt_r : ℕ
flag_alt_r = 0x4000

abbrev pub flag_pad : ℕ
flag_pad = 0x8000

abbrev pub esc : ℕ
esc = 0x01 + flag_ext

abbrev pub tab : ℕ
tab = 0x02 + flag_ext

abbrev pub enter : ℕ
enter = 0x03 + flag_ext

abbrev pub backspace : ℕ
backspace = 0x04 + flag_ext

abbrev pub gui_l : ℕ
gui_l = 0x05 + flag_ext

abbrev pub gui_r : ℕ
gui_r = 0x06 + flag_ext

abbrev pub apps : ℕ
apps = 0x07 + flag_ext

abbrev pub shift_l : ℕ
shift_l = 0x08 + flag_ext

abbrev pub shift_r : ℕ
shift_r = 0x09 + flag_ext

abbrev pub ctrl_l : ℕ
ctrl_l = 0x0A + flag_ext

abbrev pub ctrl_r : ℕ
ctrl_r = 0x0B + flag_ext

abbrev pub alt_l : ℕ
alt_l = 0x0C + flag_ext

abbrev pub alt_r : ℕ
alt_r = 0x0D + flag_ext

abbrev pub caps_lock : ℕ
caps_lock = 0x0E + flag_ext

abbrev pub num_lock : ℕ
num_lock = 0x0F + flag_ext

abbrev pub scroll_lock : ℕ
scroll_lock = 0x10 + flag_ext

abbrev pub f1 : ℕ
f1 = 0x11 + flag_ext

abbrev pub f2 : ℕ
f2 = 0x12 + flag_ext

abbrev pub f3 : ℕ
f3 = 0x13 + flag_ext

abbrev pub f4 : ℕ
f4 = 0x14 + flag_ext

abbrev pub f5 : ℕ
f5 = 0x15 + flag_ext

abbrev pub f6 : ℕ
f6 = 0x16 + flag_ext

abbrev pub f7 : ℕ
f7 = 0x17 + flag_ext

abbrev pub f8 : ℕ
f8 = 0x18 + flag_ext

abbrev pub f9 : ℕ
f9 = 0x19 + flag_ext

abbrev pub f10 : ℕ
f10 = 0x1A + flag_ext

abbrev pub f11 : ℕ
f11 = 0x1B + flag_ext

abbrev pub f12 : ℕ
f12 = 0x1C + flag_ext

abbrev pub printscreen : ℕ
printscreen = 0x1D + flag_ext

abbrev pub pausebreak : ℕ
pausebreak = 0x1E + flag_ext

abbrev pub insert : ℕ
insert = 0x1F + flag_ext

abbrev pub delete : ℕ
delete = 0x20 + flag_ext

abbrev pub home : ℕ
home = 0x21 + flag_ext

abbrev pub end : ℕ
end = 0x22 + flag_ext

abbrev pub pageup : ℕ
pageup = 0x23 + flag_ext

abbrev pub pagedown : ℕ
pagedown = 0x24 + flag_ext

abbrev pub up : ℕ
up = 0x25 + flag_ext

abbrev pub down : ℕ
down = 0x26 + flag_ext

abbrev pub left : ℕ
left = 0x27 + flag_ext

abbrev pub right : ℕ
right = 0x28 + flag_ext

abbrev pub power : ℕ
power = 0x29 + flag_ext

abbrev pub sleep : ℕ
sleep = 0x2A + flag_ext

abbrev pub wake : ℕ
wake = 0x2B + flag_ext

abbrev pub pad_slash : ℕ
pad_slash = 0x2C + flag_ext

abbrev pub pad_star : ℕ
pad_star = 0x2D + flag_ext

abbrev pub pad_minus : ℕ
pad_minus = 0x2E + flag_ext

abbrev pub pad_plus : ℕ
pad_plus = 0x2F + flag_ext

abbrev pub pad_enter : ℕ
pad_enter = 0x30 + flag_ext

abbrev pub pad_dot : ℕ
pad_dot = 0x31 + flag_ext

abbrev pub pad_0 : ℕ
pad_0 = 0x32 + flag_ext

abbrev pub pad_1 : ℕ
pad_1 = 0x33 + flag_ext

abbrev pub pad_2 : ℕ
pad_2 = 0x34 + flag_ext

abbrev pub pad_3 : ℕ
pad_3 = 0x35 + flag_ext

abbrev pub pad_4 : ℕ
pad_4 = 0x36 + flag_ext

abbrev pub pad_5 : ℕ
pad_5 = 0x37 + flag_ext

abbrev pub pad_6 : ℕ
pad_6 = 0x38 + flag_ext

abbrev pub pad_7 : ℕ
pad_7 = 0x39 + flag_ext

abbrev pub pad_8 : ℕ
pad_8 = 0x3A + flag_ext

abbrev pub pad_9 : ℕ
pad_9 = 0x3B + flag_ext

abbrev pub pad_up : ℕ
pad_up = pad_8

abbrev pub pad_down : ℕ
pad_down = pad_2

abbrev pub pad_left : ℕ
pad_left = pad_4

abbrev pub pad_right : ℕ
pad_right = pad_6

abbrev pub pad_home : ℕ
pad_home = pad_7

abbrev pub pad_end : ℕ
pad_end = pad_1

abbrev pub pad_pageup : ℕ
pad_pageup = pad_9

abbrev pub pad_pagedown : ℕ
pad_pagedown = pad_3

abbrev pub pad_ins : ℕ
pad_ins = pad_0

abbrev pub pad_mid : ℕ
pad_mid = pad_5

abbrev pub pad_del : ℕ
pad_del = pad_dot

abbrev pub led_code : ℕ
led_code = 0xed
