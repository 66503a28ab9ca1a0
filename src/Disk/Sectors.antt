-- ===== src/Disk/Sectors.antt =====
-- Sectors as lists of bytes.
use neux_os.Prelude.{
  take, ℕ, zero, suc, ◌+◌, ◌-◌, ◌*◌, ◌/◌, ◌%◌, ◌^◌, ◌<◌, ◌≤◌, ◌≡◌, refl, ap, sym, ◌∙◌, Bool, true,
  false, Bool-cases, inl, inr, List, [], ◌∷◌, ◌++◌, length, ◌==◌, ltb, if◌then◌else◌, arith,
}
use neux_os.Disk.{
  got, Drive, read_words, read_one_sector, read_sync, do_read_sync, read_async, hd_read,
}

-- The bytes of `rounds` words, the low byte first.
unfoldable pub word_bytes : (rounds i : ℕ) → (ℕ → ℕ) → List ℕ
word_bytes zero i words = []
word_bytes (suc rounds) i words =
    words i % 256 ∷ words i / 256 % 256 ∷ word_bytes rounds (i + 1) words

unfoldable pub sector_bytes : (ℕ → ℕ) → List ℕ
unfolding word_bytes
sector_bytes words = word_bytes 256 0 words

abbrev pub sectors_bytes : (count sector : ℕ) → Drive → List ℕ
sectors_bytes zero sector d = []
sectors_bytes (suc count) sector d =
    sector_bytes (d.words sector) ++ sectors_bytes count (sector + 1) d

pub length-word_bytes :
    (rounds i : ℕ) (words : ℕ → ℕ) → length (word_bytes rounds i words) ≡ 2 * rounds
unfolding word_bytes
length-word_bytes zero i words = refl
length-word_bytes (suc rounds) i words = omega (arith, length-word_bytes rounds (i + 1) words)

module _ {ℓ} {A : Type ℓ} where
  pub take-nothing : (n : ℕ) → take {A = A} n [] ≡ []
  take-nothing zero = refl
  take-nothing (suc n) = refl

  pub take-append :
      (n : ℕ) (xs ys : List A) → take n (xs ++ ys) ≡ take n xs ++ take (n - length xs) ys
  take-append zero [] ys = refl
  take-append (suc n) [] ys = let left : suc n - 0 ≡ suc n = omega arith in rw left refl
  take-append zero (x ∷ xs) ys = let none : 0 - suc (length xs) ≡ 0 = omega arith in rw none refl
  take-append (suc n) (x ∷ xs) ys =
      let left : n - length xs ≡ suc n - suc (length xs) = omega arith in
      ap (λ zs. x ∷ zs) (take-append n xs ys ∙ ap (λ k. take n xs ++ take k ys) left)

  pub length-take : (n : ℕ) (xs : List A) → n ≤ length xs → length (take n xs) ≡ n
  length-take zero xs h = refl
  length-take (suc n) [] h = absurd (omega arith)
  length-take (suc n) (x ∷ xs) h = omega (arith, length-take n xs (omega arith))

  pub take-all : (n : ℕ) (xs : List A) → length xs ≤ n → take n xs ≡ xs
  take-all zero [] h = refl
  take-all zero (x ∷ xs) h = absurd (omega arith)
  take-all (suc n) [] h = refl
  take-all (suc n) (x ∷ xs) h = ap (λ zs. x ∷ zs) (take-all n xs (omega arith))

read_words-done :
    (rounds i n size : ℕ) (words : ℕ → ℕ)
    → size < 2 ^ 32 - 1
    → size ≤ n
    → n < 2 ^ 32 - 1
    → read_words rounds i n size words ≡ []
unfolding read_words
read_words-done zero i n size words small h top = refl
read_words-done (suc rounds) i n size words small h top =
    let last : (n == (size + (2 ^ 32 - 1)) % 2 ^ 32) ≡ false = ground arith in
    let full : ltb n size ≡ false = ground arith in
    let place : n + 0 ≡ n = omega arith in
    rw (read_words, last, full, place) (read_words-done rounds (i + 1) n size words small h top)

-- n bytes have been stored.
read_words-take :
    (rounds i n size : ℕ) (words : ℕ → ℕ)
    → size < 2 ^ 32 - 1
    → n ≤ size
    → read_words rounds i n size words ≡ take (size - n) (word_bytes rounds i words)
unfolding read_words word_bytes
read_words-take zero i n size words small h = sym (take-nothing (size - n))
read_words-take (suc rounds) i n size words small h = elim (Bool-cases (ltb n size)) [
  | inl fits ↦ elim (Bool-cases (n + 1 == size)) [
    | inl one ↦
        let last : (n == (size + (2 ^ 32 - 1)) % 2 ^ 32) ≡ true = ground arith in
        let left : size - n ≡ 1 = ground (arith, one) in
        let full =
          read_words-done rounds (i + 1) (n + 1) size words small (ground (arith, one))
            (ground (arith, one)) in
        rw (read_words, last, full, left) refl
    | inr more ↦
        let last : (n == (size + (2 ^ 32 - 1)) % 2 ^ 32) ≡ false = ground (arith, more) in
        let left : size - n ≡ suc (suc (size - (n + 2))) = ground (arith, more) in
        let rest = read_words-take rounds (i + 1) (n + 2) size words small (ground (arith, more)) in
        rw (read_words, last, fits, rest, left) refl
  ]
  | inr full ↦
      let left : size - n ≡ 0 = ground arith in
      rw (read_words-done (suc rounds) i n size words small (ground arith) (ground arith), left)
        refl
]

pub read_one_sector-take :
    (words : ℕ → ℕ) (size : ℕ)
    → size < 2 ^ 32 - 1
    → read_one_sector words size ≡ take size (sector_bytes words)
unfolding read_one_sector sector_bytes
read_one_sector-take words size small =
    let all : size - 0 ≡ size = omega arith in
    read_words-take 256 0 0 size words small (omega arith)
    ∙ ap (λ n. take n (word_bytes 256 0 words)) all

pub length-sector_bytes : (words : ℕ → ℕ) → length (sector_bytes words) ≡ 512
unfolding sector_bytes
length-sector_bytes words = length-word_bytes 256 0 words

-- What is left of `k` bytes behind those of `xs`.
pub take_left : {A : Type 0} (k : ℕ) (xs : List A) → k - length (take k xs) ≡ k - length xs
take_left zero xs = omega arith
take_left (suc k) [] = omega arith
take_left (suc k) (x ∷ xs) = omega (arith, take_left k xs)

pub length-take_le : {A : Type 0} (k : ℕ) (xs : List A) → length (take k xs) ≤ k
length-take_le zero xs = omega arith
length-take_le (suc k) [] = omega arith
length-take_le (suc k) (x ∷ xs) = omega (arith, length-take_le k xs)

module _ (size : ℕ) (small : size < 2 ^ 32 - 1) (d : Drive) where
  -- The next sector, and then the others.
  next_sector :
      (count sector offset : ℕ) (rest : ℕ → List ℕ)
      → ((at : ℕ) → rest at ≡ take (size - at) (sectors_bytes count (sector + 1) d))
      → read_one_sector (d.words sector) (size - offset)
          ++ rest (offset + length (read_one_sector (d.words sector) (size - offset)))
        ≡ take (size - offset) (sectors_bytes (suc count) sector d)
  next_sector count sector offset rest later =
      let k = size - offset in
      let bytes = sector_bytes (d.words sector) in
      let left : size - (offset + length (take k bytes)) ≡ k - length bytes =
        omega (arith, take_left k bytes) in
      rw (read_one_sector-take (d.words sector) k (omega arith), later, left)
        (sym (take-append k bytes (sectors_bytes count (sector + 1) d)))

  read_sync-take :
      (count sector offset : ℕ)
      → read_sync count sector offset size d ≡ take (size - offset) (sectors_bytes count sector d)
  unfolding read_sync
  read_sync-take zero sector offset = sym (take-nothing (size - offset))
  read_sync-take (suc count) sector offset = elim (Bool-cases (ltb offset size)) [
    | inl more ↦
        rw (read_sync, more)
          (next_sector count sector offset (λ at. read_sync count (sector + 1) at size d)
            (read_sync-take count (sector + 1)))
    | inr full ↦ let left : size - offset ≡ 0 = ground arith in rw (read_sync, full, left) refl
  ]

  read_async-take :
      (count sector offset : ℕ)
      → read_async count sector offset size d ≡ take (size - offset) (sectors_bytes count sector d)
  unfolding read_async
  read_async-take zero sector offset = sym (take-nothing (size - offset))
  read_async-take (suc count) sector offset =
      next_sector count sector offset (λ at. read_async count (sector + 1) at size d)
        (read_async-take count (sector + 1))

-- A drive that answers in time.
abbrev pub answering : (ℕ → ℕ → ℕ) → Bool → Drive
answering words interrupts = record {
  words = words;
  idle = true;
  ready = true;
  interrupts = interrupts;
}

-- With or without interrupts, a drive that answers gives the first bytes of the sectors from the one
-- asked for (its number has 28 bits) on, as many as there is room for.
pub hd_read-take :
    (sector count size : ℕ) (words : ℕ → ℕ → ℕ) (interrupts : Bool)
    → 0 < count
    → count < 256
    → size < 2 ^ 32 - 1
    → hd_read sector count size (answering words interrupts)
      ≡ got (take size (sectors_bytes count (sector % 2 ^ 28) (answering words interrupts)))
unfolding hd_read do_read_sync
hd_read-take sector count size words interrupts some_sector byte small =
    let n : count % 256 ≡ count = omega arith in
    let asked : (count == 0) ≡ false = ground arith in
    let all : size - 0 ≡ size = omega arith in rw (n, asked) (by_interrupts interrupts)
  where
    by_interrupts :
        (on : Bool)
        → (if on
            then got (read_async count (sector % 2 ^ 28) 0 size (answering words on))
            else got (read_sync count (sector % 2 ^ 28) 0 size (answering words on)))
          ≡ got (take size (sectors_bytes count (sector % 2 ^ 28) (answering words on)))
    by_interrupts true = ap got (
        read_async-take size small (answering words true) count (sector % 2 ^ 28) 0
        ∙ ap (λ k. take k (sectors_bytes count (sector % 2 ^ 28) (answering words true)))
            (omega arith))
    by_interrupts false = ap got (
        read_sync-take size small (answering words false) count (sector % 2 ^ 28) 0
        ∙ ap (λ k. take k (sectors_bytes count (sector % 2 ^ 28) (answering words false)))
            (omega arith))
