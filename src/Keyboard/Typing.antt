-- ===== src/Keyboard/Typing.antt =====
-- Calls of keyboard_read on the strokes of keys.
use neux_os.Prelude.{
  ℕ, zero, suc, ◌-◌, ◌%◌, ◌<◌, ◌≤◌, ◌≡◌, ◌≢◌, refl, ap, ◌∙◌, Bool, true, false, not, ◌&&◌, ◌||◌,
  Option, none, some, List, [], ◌∷◌, ◌++◌, length, Bool-cases, inl, inr, ◌==◌, ==_ne, leb, get_or,
  if◌then◌else◌, arith,
}
use neux_os.Keyboard.Keymap.{keymap}
use neux_os.Keyboard.Read.{
  Locks, code, is_make, keyrow, key_at, caps, set_lock, pad, add_flags, press, read_scan,
  keyboard_read,
}
use neux_os.Prelude.Below.{same, all_below, all_below-at}
use neux_os.Keyboard.Held.{Modifier, is_down, code_of, set_lock-is_down, key_at-modifier}

-- A scan code, and whether 0xe0 stands before it.
abbrev pub Stroke : Type 0
Stroke = ℕ × Bool

abbrev pub bytes : List Stroke → List ℕ
bytes [] = []
bytes ((c, true) ∷ ss) = 0xe0 ∷ c ∷ bytes ss
bytes ((c, false) ∷ ss) = c ∷ bytes ss

-- Not the beginning of a pause, a print screen, or another stroke.
abbrev pub AllStrokes : List Stroke → Type 0
AllStrokes [] = Unit
AllStrokes ((c, true) ∷ ss) = ((c ≢ 0x2a) × (c ≢ 0xb7)) × AllStrokes ss
AllStrokes ((c, false) ∷ ss) = ((c ≢ 0xe0) × (c ≢ 0xe1)) × AllStrokes ss

-- This many calls in a row, and what is left.
abbrev pub read_keys : ℕ → List ℕ → Locks → Option (Locks × List ℕ)
read_keys zero codes k = some (k, codes)
read_keys (suc calls) codes k = elim (keyboard_read codes k) [
  | none ↦ none
  | some (key, k', codes') ↦ read_keys calls codes' k'
]

-- The last stroke of the modifier's key says whether it is held down.
abbrev pub holds : Modifier → List Stroke → Bool → Bool
holds m [] down = down
holds m ((c, e0) ∷ ss) down =
    holds m ss (if c % 128 == (code_of m).0 && same (code_of m).1 e0 then is_make c else down)

press-set_lock :
    (c : ℕ) (e0 : Bool) (k : Locks)
    → (press (code c e0) k).1 ≡ set_lock (key_at k c e0) (is_make c) k
unfolding press
press-set_lock c e0 k = elim (Bool-cases (is_make c)) [
  | inl make ↦ rw make refl
  | inr break ↦ rw break refl
]

press-is_down :
    (m : Modifier) (c : ℕ) (e0 : Bool) (k : Locks)
    → is_down m (press (code c e0) k).1
      ≡ (if c % 128 == (code_of m).0 && same (code_of m).1 e0 then is_make c else is_down m k)
press-is_down m c e0 k =
    ap (is_down m) (press-set_lock c e0 k)
    ∙ set_lock-is_down m (key_at k c e0) (is_make c) k
    ∙ ap (λ b. if b then is_make c else is_down m k) (key_at-modifier m k c e0)

read-stroke :
    (c : ℕ) (e0 : Bool) (ss : List Stroke) (rest : List ℕ) (k : Locks)
    → AllStrokes ((c, e0) ∷ ss)
    → keyboard_read (bytes ((c, e0) ∷ ss) ++ rest) k
      ≡ some ((press (code c e0) k).0, (press (code c e0) k).1, bytes ss ++ rest)
unfolding keyboard_read read_scan
read-stroke c true ss rest k h =
    let down = ==_ne c 0x2a h.0.0 in
    let up = ==_ne c 0xb7 h.0.1 in rw (keyboard_read, read_scan, down, up) refl
read-stroke c false ss rest k h =
    let first = ==_ne c 0xe0 h.0.0 in
    let pause = ==_ne c 0xe1 h.0.1 in rw (keyboard_read, read_scan, pause, first) refl

AllStrokes-rest : (c : ℕ) (e0 : Bool) (ss : List Stroke) → AllStrokes ((c, e0) ∷ ss) → AllStrokes ss
AllStrokes-rest c true ss h = h.1
AllStrokes-rest c false ss h = h.1

-- Strokes read one by one leave each modifier down if the last stroke of its key was a press, and as
-- it was if there was none.
pub read_keys-holds :
    (ss : List Stroke) (rest : List ℕ) (k : Locks)
    → AllStrokes ss
    → (k' : Locks) × (read_keys (length ss) (bytes ss ++ rest) k ≡ some (k', rest))
      × ((m : Modifier) → is_down m k' ≡ holds m ss (is_down m k))
read_keys-holds [] rest k h = (k, refl, λ m. refl)
read_keys-holds ((c, e0) ∷ ss) rest k h =
    let k1 = (press (code c e0) k).1 in
    let (k', e, down) = read_keys-holds ss rest k1 (AllStrokes-rest c e0 ss h) in
    (
      k',
      rw (read_keys, read-stroke c e0 ss rest k h) e,
      λ m. down m ∙ ap (holds m ss) (press-is_down m c e0 k),
    )

abbrev pub differ : Bool → Bool → Bool
differ true b = not b
differ false b = b

-- A row of a letter has the capital behind it.
abbrev letter_row : ℕ → Bool
letter_row i =
    let row = get_or keymap i (0, 0, 0) in
    not (leb 97 row.0 && leb row.0 122) || row.1 == row.0 - 32

letter_rows : all_below 128 letter_row ≡ true
letter_rows = refl

letter_capital :
    (a b : ℕ) → (not (leb 97 a && leb a 122) || b == a - 32) ≡ true → 97 ≤ a → a ≤ 122 → b ≡ a - 32
letter_capital a b h low high = ground arith

keyrow-letter : (c : ℕ) → 97 ≤ (keyrow c).0 → (keyrow c).0 ≤ 122 → (keyrow c).1 ≡ (keyrow c).0 - 32
unfolding keyrow
keyrow-letter c low high =
    letter_capital (keyrow c).0 (keyrow c).1
      (all_below-at 128 letter_row (c % 128) letter_rows (omega arith)) low high

set_lock_character : (key : ℕ) (make : Bool) (k : Locks) → key < 256 → set_lock key make k ≡ k
unfolding set_lock
set_lock_character key make k h = ground arith

pad_character : (num_lock : Bool) (key : ℕ) → key < 256 → pad num_lock key ≡ key
unfolding pad
pad_character num_lock key h = ground arith

press-character :
    (c key : ℕ) (k : Locks)
    → c < 128
    → key < 256
    → key_at k c false ≡ key
    → press (code c false) k ≡ (some (add_flags k key), k)
unfolding press
press-character c key k make h e =
    let pressed : is_make c ≡ true = ground arith in
    rw (e, set_lock_character key (is_make c) k h, pressed, pad_character k.num_lock key h) refl

letter_column :
    (locked shift : Bool) (a b : ℕ)
    → b ≡ a - 32
    → 97 ≤ a
    → a ≤ 122
    → (if (if locked && leb 97 a && leb a 122 then not shift else shift) then b else a)
      ≡ (if differ locked shift then a - 32 else a)
letter_column true true a b e low high = ground arith
letter_column true false a b e low high = ground arith
letter_column false shift a b e low high = ground arith

key_at-letter :
    (c : ℕ) (k : Locks)
    → 97 ≤ (keyrow c).0
    → (keyrow c).0 ≤ 122
    → key_at k c false
      ≡ (if differ k.caps_lock (k.shift_l || k.shift_r) then (keyrow c).0 - 32 else (keyrow c).0)
unfolding key_at caps
key_at-letter c k low high =
    letter_column k.caps_lock (k.shift_l || k.shift_r) (keyrow c).0 (keyrow c).1
      (keyrow-letter c low high) low high

-- A pressed letter is handed over with the flags of the modifiers that are down. It is the capital if a
-- shift key is down or caps lock is on, and not both.
pub keyboard_read-letter :
    (c : ℕ) (rest : List ℕ) (k : Locks)
    → c < 128
    → 97 ≤ (keyrow c).0
    → (keyrow c).0 ≤ 122
    → keyboard_read (c ∷ rest) k
      ≡ some (
        some (
            add_flags k (
              if differ k.caps_lock (k.shift_l || k.shift_r)
              then (keyrow c).0 - 32
              else (keyrow c).0)),
        k,
        rest,
      )
keyboard_read-letter c rest k h low high =
    read-stroke c false [] rest k (((λ e. omega arith), (λ e. omega arith)), tt)
    ∙ ap (λ (r : Option ℕ × Locks). some (r.0, r.1, rest)) (press-letter)
  where
    press-letter : press (code c false) k ≡ (
      some (
          add_flags k (
            if differ k.caps_lock (k.shift_l || k.shift_r)
            then (keyrow c).0 - 32
            else (keyrow c).0)),
      k,
    )
    press-letter =
        let key =
          (if differ k.caps_lock (k.shift_l || k.shift_r)
            then (keyrow c).0 - 32
            else (keyrow c).0) in
        press-character c key k h (ground arith) (key_at-letter c k low high)
