-- ===== src/Mm/Search.antt =====
-- search_interspace: the room that it finds lies between two blocks.
use neux_os.Prelude.{
  ℕ, zero, suc, ◌≡◌, ◌≢◌, refl, sym, ap, ap₂, subst, ◌∙◌, ◌+◌, ◌-◌, ◌*◌, ◌/◌, ◌%◌, ◌^◌, ◌<◌, ◌≤◌,
  true, false, not, ◌&&◌, ◌⊎◌, inl, inr, Bool-cases, Option, some, ◌==◌, ltb, leb, if◌then◌else◌,
  arith,
}
use neux_os.Mm.Align.{
  word, page_size, vm_offset, align_ceil, page_of, page_of-floor, align_ceil-pow, phy_addr,
}
use neux_os.Prelude.Bits.{pow-pos}
use neux_os.Mm.Page.{Users, frame, page_users}
use neux_os.Mm.Kmalloc.{
  Heap, header, block_end, in_same_page, in_use, min32, skip_used, search, search_interspace,
}

-- Two addresses are in one page if they have the same frame number.
same_page : (a b : ℕ) → a < word → b < word → in_same_page a b ≡ (a / 4096 == b / 4096)
same_page a b ha hb = rw (page_of-floor a ha, page_of-floor b hb) (ground arith)

-- Pages in use are told apart from pages that are not.
other_page :
    (users : Users) (a b : ℕ)
    → a < word
    → b < word
    → in_use users a ≡ false
    → in_use users b ≡ true
    → a / 4096 ≢ b / 4096
unfolding page_users
other_page users a b ha hb free used e =
    let same : frame (phy_addr a) ≡ frame (phy_addr b) = omega arith in
    let eq = ap users same in ground arith

no_wrap : (s : ℕ) → s + 4096 < word → (s + page_size) % word ≡ s + 4096
no_wrap s h = omega arith

module _ (users : Users) (next : ℕ) (next_small : next < word) where
  -- The inner loop stops at a page up to that of `next`.
  skip_used-stops :
      (fuel s : ℕ)
      → s % 4096 ≡ 0
      → s ≤ next
      → (next - s) / 4096 < fuel
      → (r : ℕ) × (skip_used fuel users next s ≡ some r) × (s ≤ r) × (r ≤ next) × (r % 4096 ≡ 0)
  unfolding skip_used
  skip_used-stops zero s aligned le fit = absurd (omega arith)
  skip_used-stops (suc fuel) s aligned le fit =
      elim (Bool-cases (not (in_same_page s next) && in_use users s)) [
        | inl go ↦
            let apart : (s / 4096 == next / 4096) ≡ false =
              ground (arith, same_page s next (omega arith) next_small) in
            let room : s + 4096 ≤ next = ground arith in
            let wide = ap (skip_used fuel users next) (no_wrap s (omega arith)) in
            let (r, e, lo, hi, al) =
              skip_used-stops fuel (s + 4096) (omega arith) room (omega arith) in
            (r, rw go (wide ∙ e), omega arith, hi, al)
        | inr stop ↦ (s, rw stop, omega arith, le, aligned)
      ]

  module _ (size base start : ℕ) (size_small : size + 12 < word)
      (used : in_use users next ≡ true) where
    -- A place in the gap, at the start that was asked for or at a page.
    abbrev InGap : ℕ → Type 0
    InGap r = (base ≤ r) × (r + 12 + size ≤ next) × ((r ≡ start) ⊎ (r % 4096 ≡ 0))

    abbrev Found : Option ℕ → Type 0
    Found o = (r : ℕ) × (o ≡ some r) × ((r ≡ 0) ⊎ InGap r)

    fits : (r e : ℕ) → leb ((header + size) % word) (e - r) ≡ true → r ≤ e → r + 12 + size ≤ e
    fits r e h le = ground arith

    -- In the page of `next` the loop ends.
    search_last :
        (fuel s : ℕ)
        → s < word
        → base ≤ s
        → (s ≡ start) ⊎ (s % 4096 ≡ 0)
        → in_same_page s next ≡ true
        → 0 < fuel
        → Found (search fuel users size next s next)
    unfolding search
    search_last zero s hs lo at same fit = absurd (omega arith)
    search_last (suc fuel) s hs lo at same fit = elim (Bool-cases (ltb next s)) [
      | inl past ↦ (0, rw past, inl refl)
      | inr before ↦ elim (Bool-cases (leb ((header + size) % word) (next - s))) [
        | inl room ↦ (s, rw (before, room), inr (lo, fits s next room (ground arith), at))
        | inr tight ↦ (0, rw (before, tight, same), inl refl)
      ]
    ]

    -- What follows RESET, from the page `p` at which the inner loop stops.
    after_reset :
        (fuel p e : ℕ)
        → p < word
        → base ≤ p
        → p % 4096 ≡ 0
        → e ≤ p
        → p ≤ next
        → (next - e) / 4096 + 1 < suc fuel
        → (p < word
            → base ≤ p
            → (p ≡ start) ⊎ (p % 4096 ≡ 0)
            → p + 4096 ≤ next
            → ((p + 4096) % 4096 ≡ 0) ⊎ ((next < p) ⊎ (p / 4096 ≡ next / 4096))
            → (next - (p + 4096)) / 4096 + 1 < fuel
            → Found (search fuel users size next p (p + 4096)))
        → Found (
            let e' = if in_same_page p next then next else (p + page_size) % word in
            if ltb e' vm_offset then some 0 else search fuel users size next p e')
    after_reset fuel p e hp lo at from to fit more = elim (Bool-cases (in_same_page p next)) [
      | inl same ↦ rw same (elim (Bool-cases (ltb next vm_offset)) [
        | inl low ↦ rw low (0, refl, inl refl)
        | inr high ↦ rw high (search_last fuel p hp lo (inr at) same (omega arith))
      ])
      | inr away ↦
          let apart : p / 4096 ≢ next / 4096 = ground (arith, same_page p next hp next_small) in
          let room : p + 4096 ≤ next = omega arith in
          rw (away, no_wrap p (omega arith))
            (elim (Bool-cases (ltb (p + 4096) vm_offset)) [
              | inl low ↦ rw low (0, refl, inl refl)
              | inr high ↦ rw high (more hp lo (inr at) room (inl (omega arith)) (omega arith))
            ])
    ]

    search-InGap :
        (fuel s e : ℕ)
        → s < word
        → base ≤ s
        → (s ≡ start) ⊎ (s % 4096 ≡ 0)
        → e ≤ next
        → (e % 4096 ≡ 0) ⊎ ((next < s) ⊎ (s / 4096 ≡ next / 4096))
        → (next - e) / 4096 + 1 < fuel
        → Found (search fuel users size next s e)
    unfolding search
    search-InGap zero s e hs lo at le al fit = absurd (omega arith)
    search-InGap (suc fuel) s e hs lo at le al fit = elim (Bool-cases (ltb e s)) [
      | inl past ↦ (0, rw past, inl refl)
      | inr before ↦ elim (Bool-cases (leb ((header + size) % word) (e - s))) [
        | inl room ↦
            let inside = fits s e room (ground arith) in
            (s, rw (before, room), inr (lo, omega arith, at))
        | inr tight ↦ elim (Bool-cases (in_same_page s next)) [
          | inl same ↦ (0, rw (before, tight, same), inl refl)
          | inr away ↦
              let apart : s / 4096 ≢ next / 4096 = ground (arith, same_page s next hs next_small) in
              let aligned : e % 4096 ≡ 0 = ground arith in
              elim (Bool-cases (in_use users e)) [
                | inr free ↦
                    let other = other_page users e next (omega arith) next_small free used in
                    let room : e + 4096 ≤ next = omega arith in
                    let wide = ap (search fuel users size next s) (no_wrap e (omega arith)) in
                    let (r, eq, res) =
                      search-InGap fuel s (e + 4096) hs lo at room (inl (omega arith))
                        (omega arith) in
                    (r, rw (before, tight, away, free) (wide ∙ eq), res)
                | inl taken ↦
                    let (p, eq, from, to, at_page) =
                      skip_used-stops (suc fuel) e aligned le (omega arith) in
                    let (r, eq', res) =
                      after_reset fuel p e (omega arith) (ground arith) at_page from to
                        (omega arith) (search-InGap fuel p (p + 4096)) in
                    (r, rw (before, tight, away, taken, eq) eq', res)
              ]
        ]
      ]
    ]

aligned_or_page :
    (r e next size s k : ℕ)
    → (s + 12) % 2 ^ k ≡ 0
    → (r ≡ 0) ⊎ ((e ≤ r) × (r + 12 + size ≤ next) × ((r ≡ s) ⊎ (r % 4096 ≡ 0)))
    → (r ≡ 0) ⊎ ((e ≤ r) × (r + 12 + size ≤ next) × (((r + 12) % 2 ^ k ≡ 0) ⊎ (r % 4096 ≡ 0)))
aligned_or_page r e next size s k al (inl z) = inl z
aligned_or_page r e next size s k al (inr (lo, hi, inl same)) =
    inr (lo, hi, inl (subst (λ t. (t + 12) % 2 ^ k ≡ 0) (sym same) al))
aligned_or_page r e next size s k al (inr (lo, hi, inr page)) = inr (lo, hi, inr page)

power :
    (align k : ℕ)
    → ((align ≡ 0) × (k ≡ 0)) ⊎ (align ≡ 2 ^ k)
    → (if align == 0 then 1 else align) ≡ 2 ^ k
power align k (inl (z, kz)) = rw (z, kz)
power align k (inr e) = let some : (align == 0) ≡ false = ground (arith, pow-pos k) in rw some e

-- The first end is that of the page, or the next block's.
first_end :
    (s next : ℕ)
    → s < word
    → let e = min32 ((page_of s + page_size) % word) next in
      (e % 4096 ≡ 0) ⊎ ((next < s) ⊎ (s / 4096 ≡ next / 4096))
first_end s next hs =
    rw (page_of-floor s hs) (elim (Bool-cases (ltb ((s / 4096 * 4096 + page_size) % word) next)) [
      | inl page ↦ rw page (inl (omega arith))
      | inr block ↦ rw block (elim (Bool-cases (ltb next s)) [
        | inl past ↦ inr (inl (ground arith))
        | inr before ↦ elim (Bool-cases (s / 4096 == next / 4096)) [
          | inl same ↦ inr (inr (ground arith))
          | inr other ↦ inl (ground arith)
        ]
      ])
    ])

-- `search_interspace` after a block, for an alignment of zero or a power of two, where the page of
-- the next block is in use and no address overflows: with a round for each page up to that block
-- the search ends. It returns NULL, or a block whose header and data lie behind the end of the one
-- block and before the next, and that is aligned as asked for or starts at a page.
pub search_interspace-InGap :
    (fuel : ℕ) (h : Heap) (block size align k : ℕ)
    → ((align ≡ 0) × (k ≡ 0)) ⊎ (align ≡ 2 ^ k)
    → k < 32
    → size + 12 < word
    → h.next block < word
    → in_use h.users (h.next block) ≡ true
    → block_end h block + 12 + 2 ^ k < word
    → h.next block / 4096 + 1 < fuel
    → (r : ℕ) × (search_interspace fuel h block size align ≡ some r)
      × ((r ≡ 0)
          ⊎ ((block_end h block ≤ r)
              × (r + 12 + size ≤ h.next block)
              × (((r + 12) % 2 ^ k ≡ 0) ⊎ (r % 4096 ≡ 0))))
unfolding search_interspace
search_interspace-InGap fuel h block size align k which hk small next_small used room fit =
    let e = block_end h block in
    let next = h.next block in
    let a = if align == 0 then 1 else align in
    let a_pow : a ≡ 2 ^ k = power align k which in
    let n_eq : (e + header) % word ≡ e + 12 = omega (arith, pow-pos k) in
    let place = align_ceil ((e + header) % word) a in
    let place_eq : place ≡ align_ceil (e + 12) (2 ^ k) = ap₂ align_ceil n_eq a_pow in
    let (lo, hi, al) = align_ceil-pow (e + 12) k hk room in
    let s = (place + word - header) % word in
    let s_eq : s ≡ place - 12 = omega (arith, place_eq, lo, hi) in
    let (r, eq, found) =
      search-InGap h.users next next_small size e s small used fuel s
        (min32 ((page_of s + page_size) % word) next) (omega arith) (omega (arith, place_eq, lo))
        (inl refl) (ground arith) (first_end s next (omega arith)) (ground arith) in
    let s_plus : s + 12 ≡ align_ceil (e + 12) (2 ^ k) = omega (arith, place_eq, lo) in
    (r, eq, aligned_or_page r e next size s k (subst (λ t. t % 2 ^ k ≡ 0) (sym s_plus) al) found)
