-- ===== src/Buffer.antt =====
-- The wrap-around byte buffers of kernel/tty.c and drivers/keyboard/keyboard.c: a pointer into the
-- array is its offset, and returns to the start when it reaches the end.
use neux_os.Prelude.{
  ℕ, ◌+◌, ◌-◌, ◌<◌, ◌≤◌, ◌≡◌, List, [], ◌∷◌, ◌++◌, length, length-append, ◌==◌, ltb, if◌then◌else◌,
  arith,
}
use neux_os.Links.{update}

-- if (p == cells + size) p = cells;
abbrev pub wrap : (size p : ℕ) → ℕ
wrap size p = if p == size then 0 else p

-- The cells from `p` on hold these bytes, and `q` is the cell after them.
abbrev pub Along : {A : Type 0} → (size : ℕ) → (ℕ → A) → ℕ → List A → ℕ → Type 0
Along size cells p [] q = p ≡ q
Along size cells p (x ∷ xs) q = (cells p ≡ x) × Along size cells (wrap size (p + 1)) xs q

-- A buffer with this oldest cell and this free cell holds these bytes, the oldest first.
pub record Holds (size : ℕ) (cells : ℕ → ℕ) (count head tail : ℕ) (xs : List ℕ) : Type 0 where
  pub along : Along size cells tail xs head
  pub counted : count ≡ length xs
  pub fits : length xs ≤ size
  pub tail_in : tail < size

pub wrap-in : (size p : ℕ) → p < size → wrap size (p + 1) < size
wrap-in size p h = ground arith

-- Where the bytes end.
pub Along-end :
    {A : Type 0} (size : ℕ) (cells : ℕ → A) (p : ℕ) (xs : List A) (q : ℕ)
    → p < size
    → length xs ≤ size
    → Along size cells p xs q
    → q ≡ (if ltb (p + length xs) size then p + length xs else p + length xs - size)
Along-end size cells p [] q h fit a = ground arith
Along-end size cells p (x ∷ xs) q h fit a =
    ground
      (arith, Along-end size cells (wrap size (p + 1)) xs q (wrap-in size p h) (omega arith) a.1)

pub Holds-head_in :
    {size : ℕ} {cells : ℕ → ℕ} {count head tail : ℕ} {xs : List ℕ}
    → Holds size cells count head tail xs
    → head < size
Holds-head_in {size} {cells} {head} {tail} {xs} h =
    ground (arith, h.tail_in, h.fits, Along-end size cells tail xs head h.tail_in h.fits h.along)

-- A write to the free cell leaves the bytes, unless the buffer is full.
pub Along-update :
    {A : Type 0} (size : ℕ) (cells : ℕ → A) (p : ℕ) (xs : List A) (q : ℕ) (v : A)
    → p < size
    → length xs < size
    → Along size cells p xs q
    → Along size (update cells q v) p xs q
Along-update size cells p [] q v h fit a = a
Along-update size cells p (x ∷ xs) q v h fit a =
    let end = Along-end size cells p (x ∷ xs) q h (omega arith) a in
    (
      ground (arith, end, a.0),
      Along-update size cells (wrap size (p + 1)) xs q v (wrap-in size p h) (omega arith) a.1,
    )

pub Along-append :
    {A : Type 0} (size : ℕ) (cells : ℕ → A) (p : ℕ) (xs : List A) (q : ℕ) (v : A)
    → cells q ≡ v
    → Along size cells p xs q
    → Along size cells p (xs ++ v ∷ []) (wrap size (q + 1))
Along-append size cells p [] q v e a = ground arith
Along-append size cells p (x ∷ xs) q v e a =
    (a.0, Along-append size cells (wrap size (p + 1)) xs q v e a.1)

module _ {size : ℕ} {cells : ℕ → ℕ} {count head tail : ℕ} where
  pub Holds-put :
      {xs : List ℕ} (v : ℕ)
      → Holds size cells count head tail xs
      → length xs < size
      → Holds size (update cells head v) (count + 1) (wrap size (head + 1)) tail (xs ++ v ∷ [])
  Holds-put {xs} v h room = record {
    along =
        Along-append size (update cells head v) tail xs head v (ground arith)
          (Along-update size cells tail xs head v h.tail_in room h.along);
    counted = omega (arith, h.counted, length-append xs (v ∷ []));
    fits = omega (arith, length-append xs (v ∷ []));
    tail_in = h.tail_in;
  }

  pub Holds-take :
      {x : ℕ} {xs : List ℕ}
      → Holds size cells count head tail (x ∷ xs)
      → (cells tail ≡ x) × Holds size cells (count - 1) head (wrap size (tail + 1)) xs
  Holds-take {x} {xs} h = (
    h.along.0,
    record {
      along = h.along.1;
      counted = omega (arith, h.counted);
      fits = omega (arith, h.fits);
      tail_in = wrap-in size tail h.tail_in;
    },
  )
