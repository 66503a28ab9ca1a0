-- ===== src/Keyboard/Held.antt =====
-- The keyboard's modifiers against the keys that are held down.
use neux_os.Prelude.{
  ℕ, ◌%◌, ◌<◌, ◌≡◌, refl, Bool, true, false, ◌&&◌, ◌==◌, not, get_or, if◌then◌else◌, arith,
}
use neux_os.Prelude.Below.{same, all_below, all_below-at}
use neux_os.Keyboard.Key
use neux_os.Keyboard.Keymap.{Row, keymap}
use neux_os.Keyboard.Read.{Locks, keyrow, key_at, caps, send_leds, set_lock}

pub data Modifier : Type 0 where
  shift_l shift_r ctrl_l ctrl_r alt_l alt_r : Modifier

abbrev pub is_down : Modifier → Locks → Bool
is_down shift_l k = k.shift_l
is_down shift_r k = k.shift_r
is_down ctrl_l k = k.ctrl_l
is_down ctrl_r k = k.ctrl_r
is_down alt_l k = k.alt_l
is_down alt_r k = k.alt_r

abbrev pub key_of : Modifier → ℕ
key_of shift_l = Key.shift_l
key_of shift_r = Key.shift_r
key_of ctrl_l = Key.ctrl_l
key_of ctrl_r = Key.ctrl_r
key_of alt_l = Key.alt_l
key_of alt_r = Key.alt_r

-- The code of a modifier's key, and whether 0xe0 stands before it.
abbrev pub code_of : Modifier → ℕ × Bool
code_of shift_l = (0x2a, false)
code_of shift_r = (0x36, false)
code_of ctrl_l = (0x1d, false)
code_of ctrl_r = (0x1d, true)
code_of alt_l = (0x38, false)
code_of alt_r = (0x38, true)

pub set_lock-is_down :
    (m : Modifier) (key : ℕ) (make : Bool) (k : Locks)
    → is_down m (set_lock key make k) ≡ (if key == key_of m then make else is_down m k)
unfolding set_lock send_leds
set_lock-is_down shift_l key make k = ground arith
set_lock-is_down shift_r key make k = ground arith
set_lock-is_down ctrl_l key make k = ground arith
set_lock-is_down ctrl_r key make k = ground arith
set_lock-is_down alt_l key make k = ground arith
set_lock-is_down alt_r key make k = ground arith

all_same :
    (a b c d e f : Bool) → (same a b && (same c d && same e f)) ≡ true → (a ≡ b) × (c ≡ d) × (e ≡ f)
all_same a b c d e f h = (ground arith, ground arith, ground arith)

-- A row has a modifier's key in the columns of the modifier's code, and nowhere else.
abbrev row_agrees : Modifier → ℕ → Bool
row_agrees m i =
    let row = get_or keymap i (0, 0, 0) in
    let place = (code_of m).0 in
    let ext = (code_of m).1 in
    same (row.0 == key_of m) (i == place && not ext)
    && (same (row.1 == key_of m) (i == place && not ext)
        && same (row.2 == key_of m) (i == place && ext))

rows_agree : (m : Modifier) → all_below 128 (row_agrees m) ≡ true
rows_agree shift_l = refl
rows_agree shift_r = refl
rows_agree ctrl_l = refl
rows_agree ctrl_r = refl
rows_agree alt_l = refl
rows_agree alt_r = refl

pub keyrow_lem : (c : ℕ) → keyrow c ≡ get_or keymap (c % 128) (0, 0, 0)
unfolding keyrow
keyrow_lem c = refl

row-modifier :
    (m : Modifier) (row : Row) (i : ℕ)
    → row ≡ get_or keymap i (0, 0, 0)
    → i < 128
    → ((row.0 == key_of m) ≡ (i == (code_of m).0 && not (code_of m).1))
      × ((row.1 == key_of m) ≡ (i == (code_of m).0 && not (code_of m).1))
      × ((row.2 == key_of m) ≡ (i == (code_of m).0 && (code_of m).1))
row-modifier m row i e h =
    let agree = all_below-at 128 (row_agrees m) i (rows_agree m) h in
    rw e (all_same _ _ _ _ _ _ agree)

pub key_at-modifier :
    (m : Modifier) (k : Locks) (c : ℕ) (e0 : Bool)
    → (key_at k c e0 == key_of m) ≡ (c % 128 == (code_of m).0 && same (code_of m).1 e0)
unfolding key_at
key_at-modifier m k c e0 = modifier_in e0 (caps k (keyrow c))
  where
    modifier_in :
        (e0 shifted : Bool)
        → ((if e0 then (keyrow c).2 else if shifted then (keyrow c).1 else (keyrow c).0)
            == key_of m)
          ≡ (c % 128 == (code_of m).0 && same (code_of m).1 e0)
    modifier_in e0 shifted =
        let columns = row-modifier m (keyrow c) (c % 128) (keyrow_lem c) (omega arith) in
        ground (arith, columns.0, columns.1, columns.2)
