-- ===== src/Mm/Page/Laws.antt =====
-- What the operations on page frames give.
use neux_os.Prelude.{
  ℕ, zero, suc, ◌≡◌, ◌≢◌, refl, ◌∙◌, ◌+◌, ◌*◌, ◌%◌, ◌<◌, ◌≤◌, Bool, false, not, ◌||◌, ◌&&◌, ◌⊎◌,
  inl, inr, Bool-cases, List, [], ◌∷◌, ◌==◌, ltb, if◌then◌else◌, arith,
}
use neux_os.Mm.Align.{word, page_size}
use neux_os.Mm.Page.{
  Users, PageFlag, Ards, max_pages_count, no_page, frame, mem_type_avl, kernel_limit, set_users,
  alloc_from, alloc_page, obtain_page, free_page, clear_frames, clear_range, clear_ranges,
  init_page,
}

-- The frame `i` was free and the first such, and has one user now; no other count has changed.
pub record TakesFirst (u u' : Users) (from i : ℕ) : Type 0 where
  pub bound : i < max_pages_count
  pub was_free : u i ≡ 0
  pub first : (j : ℕ) → from ≤ j → j < i → u j ≢ 0
  pub taken : u' i ≡ 1
  pub others : (j : ℕ) → j ≢ i → u' j ≡ u j

alloc_from-first :
    (left i : ℕ) (u : Users)
    → i + left ≡ max_pages_count
    → ((j : ℕ) × ((alloc_from left i u).0 ≡ j * 4096) × TakesFirst u (alloc_from left i u).1 i j)
      ⊎ (((alloc_from left i u).0 ≡ no_page)
          × ((alloc_from left i u).1 ≡ u)
          × ((j : ℕ) → i ≤ j → j < max_pages_count → u j ≢ 0))
unfolding alloc_from
alloc_from-first zero i u e = inr (refl, refl, λ j lo hi. absurd (omega arith))
alloc_from-first (suc left) i u e = elim (Bool-cases (u i == 0)) [
  | inl free ↦ inl (
    i,
    rw free (omega arith),
    rw free (record {
      bound = omega arith;
      was_free = ground arith;
      first = λ j lo hi. absurd (omega arith);
      taken = ground arith;
      others = λ j ne. ground arith;
    }),
  )
  | inr used ↦ rw used (elim (alloc_from-first left (i + 1) u (omega arith)) [
    | inl (j, eq, t) ↦ inl (
      j,
      eq,
      record {
        bound = t.bound;
        was_free = t.was_free;
        first = λ n lo hi. elim (Bool-cases (n == i)) [
          | inl same ↦ λ z. ground (arith, z)
          | inr other ↦ t.first n (ground arith) hi
        ];
        taken = t.taken;
        others = t.others;
      },
    )
    | inr (eq, same, all) ↦ inr (
      eq,
      same,
      λ n lo hi. elim (Bool-cases (n == i)) [
        | inl here ↦ λ z. ground (arith, z)
        | inr other ↦ all n (ground arith) hi
      ],
    )
  ])
]

-- `alloc_page(PGF_NORMAL)` returns the page of the first frame without a user, which then has one
-- user, and changes no other count. It returns 0xffffffff and changes nothing exactly if no frame
-- is free.
pub alloc_page-first :
    (u : Users)
    → ((j : ℕ) × ((alloc_page PageFlag.normal u).0 ≡ j * 4096)
        × TakesFirst u (alloc_page PageFlag.normal u).1 0 j)
      ⊎ (((alloc_page PageFlag.normal u).0 ≡ no_page)
          × ((alloc_page PageFlag.normal u).1 ≡ u)
          × ((j : ℕ) → 0 ≤ j → j < max_pages_count → u j ≢ 0))
unfolding alloc_page
alloc_page-first u = alloc_from-first max_pages_count 0 u refl

-- Taking a page and giving it back leaves every count as it was.
free_page-obtain_page :
    (page : ℕ) (u : Users)
    → u (frame page) < 256
    → (i : ℕ) → free_page page (obtain_page page u).1 i ≡ u i
unfolding free_page obtain_page
free_page-obtain_page page u small i = ground arith

-- The map's range offers this frame.
abbrev pub offers : Ards → ℕ → Bool
offers r i =
    (r.type == mem_type_avl)
    && (r.base_addr_low % page_size == 0)
    && not (ltb i (frame r.base_addr_low))
    && ltb i (frame r.base_addr_low + frame r.len_low)

abbrev pub offered : List Ards → ℕ → Bool
offered [] i = false
offered (r ∷ rs) i = offers r i || offered rs i

clear_one-at :
    (f limit : ℕ) (u : Users) (i : ℕ)
    → i < max_pages_count
    → (if ltb (f * 4096 % word) limit then u else set_users u f 0) i
      ≡ (if (i == f) && not (ltb (i * 4096) limit) then 0 else u i)
clear_one-at f limit u i h =
    let wide : i * 4096 % word ≡ i * 4096 = omega arith in
    elim (Bool-cases (ltb (f * 4096 % word) limit)) [
      | inl low ↦ rw low (ground arith)
      | inr high ↦ rw high (ground arith)
    ]

clear_frames-at :
    (cnt f limit : ℕ) (u : Users) (i : ℕ)
    → i < max_pages_count
    → clear_frames cnt f limit u i
      ≡ (if (not (ltb i f) && ltb i (f + cnt)) && not (ltb (i * 4096) limit) then 0 else u i)
unfolding clear_frames
clear_frames-at zero f limit u i h = ground arith
clear_frames-at (suc cnt) f limit u i h =
    let u' = if ltb (f * 4096 % word) limit then u else set_users u f 0 in
    clear_frames-at cnt (f + 1) limit u' i h ∙ ground (arith, clear_one-at f limit u i h)

clear_range-at :
    (limit : ℕ) (r : Ards) (u : Users) (i : ℕ)
    → i < max_pages_count
    → clear_range limit r u i ≡ (if offers r i && not (ltb (i * 4096) limit) then 0 else u i)
unfolding clear_range
clear_range-at limit r u i h = elim (Bool-cases (r.type == mem_type_avl)) [
  | inr other ↦ rw other
  | inl usable ↦ rw usable (elim (Bool-cases (r.base_addr_low % page_size == 0)) [
    | inr odd ↦ rw odd
    | inl even ↦ rw even (clear_frames-at (frame r.len_low) (frame r.base_addr_low) limit u i h)
  ])
]

clear_ranges-at :
    (limit : ℕ) (rs : List Ards) (u : Users) (i : ℕ)
    → i < max_pages_count
    → clear_ranges limit rs u i ≡ (if offered rs i && not (ltb (i * 4096) limit) then 0 else u i)
unfolding clear_ranges
clear_ranges-at limit [] u i h = refl
clear_ranges-at limit (r ∷ rs) u i h =
    clear_ranges-at limit rs (clear_range limit r u) i h ∙ merge _ _ (clear_range-at limit r u i h)
  where
    merge :
        (m n : ℕ)
        → m ≡ (if offers r i && not (ltb (i * 4096) limit) then 0 else n)
        → (if offered rs i && not (ltb (i * 4096) limit) then 0 else m)
          ≡ (if offered (r ∷ rs) i && not (ltb (i * 4096) limit) then 0 else n)
    merge m n e = elim (Bool-cases (offers r i)) [
      | inl here ↦ rw here (ground arith)
      | inr away ↦ ground arith
    ]

-- After `init_page` a frame has no user if an available range of the memory map that starts at a
-- page holds it and it lies above the kernel and its reserve; every other frame is not available.
pub init_page-at :
    (kernel_end : ℕ) (ards : List Ards) (i : ℕ)
    → i < max_pages_count
    → init_page kernel_end ards i
      ≡ (if offered ards i && not (ltb (i * 4096) (kernel_limit kernel_end)) then 0 else 255)
unfolding init_page
init_page-at kernel_end ards i h = clear_ranges-at (kernel_limit kernel_end) ards (λ j. 255) i h
