-- ===== src/Bitmap/Tests.antt =====
-- A bitmap of 16 bits, of which the lowest nine are in use.
use neux_os.Prelude.{ℕ, ◌<◌, ◌≡◌, ◌⊎◌, true, false, none, some, ◌==◌, if◌then◌else◌, arith}
use neux_os.Bitmap.{Bitmap, bitmap_get, bitmap_put}
use neux_os.Bitmap.Free.{AllBytes, is_used, bitmap_get-first}

abbrev nine : Bitmap
nine = record { size = 16; bits = λ i. if i == 0 then 255 else 1 }

nine-AllBytes : AllBytes nine
nine-AllBytes i = ground arith

bitmap_get-first_example :
    ((bitmap_get nine ≡ (none, nine)) × ((j : ℕ) → j < 16 → is_used nine j ≡ true))
    ⊎ ((i : ℕ) × (bp' : Bitmap) × (bitmap_get nine ≡ (some i, bp'))
        × (i < 16)
        × (is_used nine i ≡ false)
        × ((j : ℕ) → j < i → is_used nine j ≡ true)
        × ((j : ℕ) → is_used bp' j ≡ (if j == i then true else is_used nine j))
        × ((j : ℕ) → is_used (bitmap_put i bp') j ≡ is_used nine j))
bitmap_get-first_example = bitmap_get-first nine (omega arith) (omega arith) nine-AllBytes
