-- ===== src/Tty/Input.antt =====
-- The input buffers as queues of bytes.
use neux_os.Prelude.{
  take, drop, ℕ, zero, suc, ◌+◌, ◌%◌, ◌^◌, ◌<◌, ◌≡◌, ◌≢◌, refl, false, ==_refl, List, [], ◌∷◌, ◌++◌,
  length, none, some, ◌==◌, arith,
}
use neux_os.Buffer.{Holds, Holds-put, Holds-take}
use neux_os.Tty.{Iobuf, Terminals, set_input, iobuf_put, iobuf_get, read_loop, tty_dev_read}

-- The buffer holds these bytes, the oldest first.
abbrev pub Queued : Iobuf → List ℕ → Type 0
Queued b xs = Holds 1024 b.cells b.count b.head b.tail xs

-- A byte put in a buffer that is not full comes after the others.
pub iobuf_put-Queued :
    (b : Iobuf) (xs : List ℕ) (ch : ℕ)
    → Queued b xs
    → length xs < 1024
    → Queued (iobuf_put b ch) (xs ++ ch ∷ [])
unfolding iobuf_put
iobuf_put-Queued b xs ch h room =
    let small : (b.count + 1) % 2 ^ 32 ≡ b.count + 1 = omega (arith, h.counted) in
    rw small (Holds-put ch h room)

iobuf_get_nothing : (b : Iobuf) → Queued b [] → iobuf_get b ≡ none
unfolding iobuf_get
iobuf_get_nothing b h = rw h.counted

iobuf_get-first :
    (b : Iobuf) (x : ℕ) (xs : List ℕ)
    → Queued b (x ∷ xs)
    → (b' : Iobuf) × (iobuf_get b ≡ some (x, b')) × Queued b' xs
unfolding iobuf_get
iobuf_get-first b x xs h =
    let taken = Holds-take h in
    let some_byte : (b.count == 0) ≡ false = ground (arith, h.counted) in
    (_, rw (some_byte, taken.0), taken.1)

read_loop-take :
    (n : ℕ) (b : Iobuf) (xs : List ℕ)
    → Queued b xs
    → (b' : Iobuf) × (read_loop n b ≡ (take n xs, b')) × Queued b' (drop n xs)
unfolding read_loop
read_loop-take zero b xs h = (b, refl, h)
read_loop-take (suc n) b [] h = (b, rw (read_loop, iobuf_get_nothing b h), h)
read_loop-take (suc n) b (x ∷ xs) h =
    let (b', e, h') = iobuf_get-first b x xs h in
    let (b'', e', h'') = read_loop-take n b' xs h' in (b'', rw (read_loop, e, e'), h'')

-- A read of `count` bytes from a terminal whose buffer holds some takes the oldest ones, as many as
-- there are up to `count`, leaves the others in their order, and leaves the other terminals'
-- buffers.
pub tty_dev_read-take :
    (t : Terminals) (fd count x : ℕ) (xs : List ℕ)
    → Queued (t.input fd) (x ∷ xs)
    → (t' : Terminals) × (tty_dev_read t fd count ≡ some (take count (x ∷ xs), t'))
      × Queued (t'.input fd) (drop count (x ∷ xs))
      × ((i : ℕ) → i ≢ fd → t'.input i ≡ t.input i)
unfolding tty_dev_read
tty_dev_read-take t fd zero x xs h =
    (set_input t fd (t.input fd), refl, rw (==_refl fd) h, λ i ne. ground (arith, ne))
tty_dev_read-take t fd (suc n) x xs h =
    let some_bytes : (suc n == 0) ≡ false = ground arith in
    let (b, e, h') = read_loop-take (suc n) (t.input fd) (x ∷ xs) h in
    (set_input t fd b, rw (e, some_bytes), rw (==_refl fd) h', λ i ne. ground (arith, ne))

-- A read of some bytes from an empty buffer returns nothing: it yields.
pub tty_dev_read_waits :
    (t : Terminals) (fd count : ℕ)
    → Queued (t.input fd) []
    → 0 < count
    → tty_dev_read t fd count ≡ none
unfolding tty_dev_read
tty_dev_read_waits t fd zero h pos = absurd (omega arith)
tty_dev_read_waits t fd (suc n) h pos =
    let (b, e, h') = read_loop-take (suc n) (t.input fd) [] h in
    let some_bytes : (suc n == 0) ≡ false = ground arith in rw (e, some_bytes)
