-- ===== src/Bitmap.antt =====
-- lib/bitmap.c
pub mod Free
mod Tests
use Prim.Native.Nat.{bit_and, bit_or}
use neux_os.Prelude.{
  ℕ, zero, suc, ◌+◌, ◌-◌, ◌/◌, ◌%◌, ◌^◌, Bool, not, ◌&&◌, Option, none, some, ◌==◌, ltb,
  if◌then◌else◌,
}
use neux_os.Links.{update}

-- `struct bitmap`; `bits` are its bytes.
pub record Bitmap : Type 0 where
  pub size : ℕ
  pub bits : ℕ → ℕ

-- BITMAP_SET, BITMAP_CLR and BITMAP_GET
abbrev pub bitmap_set : (ℕ → ℕ) → ℕ → ℕ → ℕ
bitmap_set bits index = update bits (index / 8) (bit_or (bits (index / 8)) (2 ^ (index % 8)))

abbrev pub bitmap_clr : (ℕ → ℕ) → ℕ → ℕ → ℕ
bitmap_clr bits index = update bits (index / 8) (bit_and (bits (index / 8)) (255 - 2 ^ (index % 8)))

abbrev pub bitmap_bit : (ℕ → ℕ) → ℕ → ℕ
bitmap_bit bits index = bit_and (bits (index / 8)) (2 ^ (index % 8))

abbrev pub bitmap_msize : ℕ → ℕ
bitmap_msize bitsize = if not (bitsize % 8 == 0) then 0 else bitsize / 8

-- The loop of bitmap_init
abbrev pub clear_bytes : (rounds i : ℕ) → (ℕ → ℕ) → ℕ → ℕ
clear_bytes zero i bits = bits
clear_bytes (suc rounds) i bits = clear_bytes rounds (i + 1) (update bits i 0)

abbrev pub bitmap_init : ℕ → Bitmap → Bitmap
bitmap_init bitsize bp = record { size = bitsize; bits = clear_bytes (bitsize / 8) 0 bp.bits }

-- The loop of bitmap_get, which comes to its end in `size` rounds.
unfoldable pub first_free : (rounds i : ℕ) → Bitmap → ℕ
first_free zero i bp = i
first_free (suc rounds) i bp =
    let next = first_free rounds (i + 1) bp in
    if ltb i bp.size && not (bitmap_bit bp.bits i == 0) then next else i

-- `none` is -ENOMEM.
unfoldable pub bitmap_get : Bitmap → Option ℕ × Bitmap
unfolding first_free
bitmap_get bp =
    let i = first_free bp.size 0 bp in
    if ltb ((bp.size + (2 ^ 32 - 1)) % 2 ^ 32) i
    then (none, bp)
    else (some i, record bp { bits = bitmap_set bp.bits i })

unfoldable pub bitmap_put : ℕ → Bitmap → Bitmap
bitmap_put index bp =
    if ltb ((bp.size + (2 ^ 32 - 1)) % 2 ^ 32) index
    then bp
    else record bp { bits = bitmap_clr bp.bits index }
