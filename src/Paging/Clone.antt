-- ===== src/Paging/Clone.antt =====
-- The directory of a cloned task.
use neux_os.Prelude.{
  ℕ, zero, suc, ◌+◌, ◌*◌, ◌/◌, ◌%◌, ◌^◌, ◌<◌, ◌≤◌, ◌≡◌, ◌≢◌, refl, sym, ap, ◌∙◌, Bool, true, false,
  not, ◌&&◌, Bool-cases, Option-cases, ◌⊎◌, inl, inr, some, ◌==◌, ==_ne, ==_refl, if◌then◌else◌,
  arith,
}
use neux_os.Links.{update}
use neux_os.Mm.Align.{phy_addr}
use neux_os.Mm.Page.{frame, obtain_page}
use neux_os.Paging.{
  PageEntry, Paging, page_entry_count, skips, share_table, share_tables, clone_page_table,
}
use neux_os.Paging.Walk.{target, table_of, in_table, walk}

-- An entry of a user's table in the frame `p`.
abbrev pub refers : PageEntry → (i p : ℕ) → Bool
refers e i p = not (skips e i) && e.index == p

-- How many of the entries from `i` on do so.
abbrev pub references : (rounds i : ℕ) → (ℕ → PageEntry) → (p : ℕ) → ℕ
references zero i row p = 0
references (suc rounds) i row p =
    (if refers (row i) i p then 1 else 0) + references rounds (i + 1) row p

references_ext :
    (rounds i : ℕ) (row row' : ℕ → PageEntry) (p : ℕ)
    → ((m : ℕ) → refers (row' m) m p ≡ refers (row m) m p)
    → references rounds i row' p ≡ references rounds i row p
references_ext zero i row row' p same = refl
references_ext (suc rounds) i row row' p same =
    ap (λ b. (if b then 1 else 0) + references rounds (i + 1) row' p) (same i)
    ∙ ap (λ (n : ℕ). (if refers (row i) i p then 1 else 0) + n)
        (references_ext rounds (i + 1) row row' p same)

-- One round.
share_table-at :
    (cloned i : ℕ) (s : Paging) (m : ℕ)
    → (share_table cloned i s).entries cloned m ≡ (
        if not (skips (s.entries cloned i) i) && m == i
        then record (s.entries cloned m) { rw = false }
        else s.entries cloned m)
share_table-at cloned i s m = elim (Bool-cases (skips (s.entries cloned i) i)) [
  | inl skipped ↦ rw skipped refl
  | inr shared ↦ elim (Bool-cases (m == i)) [
    | inl e ↦
        let same : m ≡ i = ground (arith, e) in
        rw (shared, ==_refl cloned, e)
          (ap (λ k. record (s.entries cloned k) { rw = false }) (sym same))
    | inr ne ↦ rw (shared, ==_refl cloned, ne) refl
  ]
]

share_table-other :
    (cloned i t : ℕ) (s : Paging) → t ≢ cloned → (share_table cloned i s).entries t ≡ s.entries t
share_table-other cloned i t s ne = elim (Bool-cases (skips (s.entries cloned i) i)) [
  | inl skipped ↦ rw skipped refl
  | inr shared ↦ rw (shared, ==_ne t cloned ne) refl
]

share_table-users :
    (cloned i p : ℕ) (s : Paging)
    → s.users p < 256
    → (share_table cloned i s).users p
      ≡ (s.users p + (if refers (s.entries cloned i) i p then 1 else 0)) % 256
unfolding obtain_page
share_table-users cloned i p s small = elim (Bool-cases (skips (s.entries cloned i) i)) [
  | inl skipped ↦ rw skipped (omega arith)
  | inr shared ↦
      let at : frame ((s.entries cloned i).index * 2 ^ 12) ≡ (s.entries cloned i).index =
        omega arith in
      rw (shared, obtain_page, at) (counted (s.entries cloned i).index)
]
  where
    counted :
        (n : ℕ)
        → (if p == n then (s.users n + 1) % 256 else s.users p)
          ≡ (s.users p + (if n == p then 1 else 0)) % 256
    counted n = elim (Bool-cases (p == n)) [
      | inl e ↦
          let same : p ≡ n = ground (arith, e) in
          let back : (n == p) ≡ true = ground (arith, e) in
          rw (e, back) (ap (λ k. (s.users k + 1) % 256) (sym same))
      | inr ne ↦ let back : (n == p) ≡ false = ground (arith, ne) in rw (ne, back) (omega arith)
    ]

-- What a round leaves of an entry for the later ones.
share_table-target :
    (cloned i : ℕ) (s : Paging) (m : ℕ)
    → target ((share_table cloned i s).entries cloned m) ≡ target (s.entries cloned m)
share_table-target cloned i s m =
    ap target (share_table-at cloned i s m)
    ∙ go (not (skips (s.entries cloned i) i) && m == i) (s.entries cloned m)
  where
    go : (b : Bool) (e : PageEntry) → target (if b then record e { rw = false } else e) ≡ target e
    go true e = refl
    go false e = refl

share_table-refers :
    (cloned i p : ℕ) (s : Paging) (m : ℕ)
    → refers ((share_table cloned i s).entries cloned m) m p ≡ refers (s.entries cloned m) m p
share_table-refers cloned i p s m =
    ap (λ e. refers e m p) (share_table-at cloned i s m)
    ∙ go (not (skips (s.entries cloned i) i) && m == i) (s.entries cloned m)
  where
    go :
        (b : Bool) (e : PageEntry)
        → refers (if b then record e { rw = false } else e) m p ≡ refers e m p
    go true e = refl
    go false e = refl

share_table-small :
    (cloned i p : ℕ) (s : Paging) → s.users p < 256 → (share_table cloned i s).users p < 256
share_table-small cloned i p s small = omega (arith, share_table-users cloned i p s small)

share_tables-other :
    (rounds i cloned t : ℕ) (s : Paging)
    → t ≢ cloned
    → (share_tables rounds i cloned s).entries t ≡ s.entries t
unfolding share_tables
share_tables-other zero i cloned t s ne = refl
share_tables-other (suc rounds) i cloned t s ne =
    share_tables-other rounds (i + 1) cloned t (share_table cloned i s) ne
    ∙ share_table-other cloned i t s ne

share_tables-target :
    (rounds i cloned : ℕ) (s : Paging) (m : ℕ)
    → target ((share_tables rounds i cloned s).entries cloned m) ≡ target (s.entries cloned m)
unfolding share_tables
share_tables-target zero i cloned s m = refl
share_tables-target (suc rounds) i cloned s m =
    share_tables-target rounds (i + 1) cloned (share_table cloned i s) m
    ∙ share_table-target cloned i s m

share_tables-users :
    (rounds i cloned p : ℕ) (s : Paging)
    → s.users p < 256
    → (share_tables rounds i cloned s).users p
      ≡ (s.users p + references rounds i (s.entries cloned) p) % 256
unfolding share_tables
share_tables-users zero i cloned p s small = omega arith
share_tables-users (suc rounds) i cloned p s small =
    let s' = share_table cloned i s in
    let later =
      share_tables-users rounds (i + 1) cloned p s' (share_table-small cloned i p s small) in
    let same =
      references_ext rounds (i + 1) (s.entries cloned) (s'.entries cloned) p
        (share_table-refers cloned i p s) in
    omega (arith, later, share_table-users cloned i p s small, same)

share_tables-read_only :
    (rounds i cloned m : ℕ) (s : Paging)
    → ((i ≤ m) × (m < i + rounds) × (skips (s.entries cloned m) m ≡ false))
      ⊎ ((s.entries cloned m).rw ≡ false)
    → ((share_tables rounds i cloned s).entries cloned m).rw ≡ false
unfolding share_tables
share_tables-read_only zero i cloned m s (inl (low, high, shared)) = absurd (omega arith)
share_tables-read_only zero i cloned m s (inr done) = done
share_tables-read_only (suc rounds) i cloned m s h =
    share_tables-read_only rounds (i + 1) cloned m (share_table cloned i s) (next h)
  where
    still :
        (b : Bool) (e : PageEntry)
        → e.rw ≡ false
        → (if b then record e { rw = false } else e).rw ≡ false
    still true e h = refl
    still false e h = h

    skips_same :
        (b : Bool) (e : PageEntry) → skips (if b then record e { rw = false } else e) m ≡ skips e m
    skips_same true e = refl
    skips_same false e = refl

    next :
        ((i ≤ m) × (m < i + suc rounds) × (skips (s.entries cloned m) m ≡ false))
          ⊎ ((s.entries cloned m).rw ≡ false)
        → ((i + 1 ≤ m)
            × (m < i + 1 + rounds)
            × (skips ((share_table cloned i s).entries cloned m) m ≡ false))
          ⊎ (((share_table cloned i s).entries cloned m).rw ≡ false)
    next (inr done) = inr (
        ap (λ e. e.rw) (share_table-at cloned i s m)
        ∙ still (not (skips (s.entries cloned i) i) && m == i) (s.entries cloned m) done)
    next (inl (low, high, shared)) = elim (Bool-cases (m == i)) [
      | inl e ↦
          let same : m ≡ i = ground (arith, e) in
          let here : skips (s.entries cloned i) i ≡ false =
            sym (ap (λ k. skips (s.entries cloned k) k) same) ∙ shared in
          inr (ap (λ e. e.rw) (share_table-at cloned i s m) ∙ rw (here, e) refl)
      | inr ne ↦ inl (
        ground (arith, ne),
        omega arith,
        ap (λ e. skips e m) (share_table-at cloned i s m)
            ∙ skips_same (not (skips (s.entries cloned i) i) && m == i) (s.entries cloned m)
            ∙ shared,
      )
    ]

-- The loop, from the copy of the directory on.
abbrev shared : (dir cloned : ℕ) → Paging → Paging
shared dir cloned s =
    share_tables page_entry_count 0 cloned
      (record s { entries = update s.entries cloned (s.entries dir) })

module _ (dir cloned : ℕ) (s : Paging) (apart : cloned ≢ dir)
    (tables : (i t : ℕ) → target (s.entries dir i) ≡ some t → t ≢ cloned) where
  copied : update s.entries cloned (s.entries dir) cloned ≡ s.entries dir
  copied = rw (==_refl cloned) refl

  shared-other : (t : ℕ) → t ≢ cloned → (shared dir cloned s).entries t ≡ s.entries t
  shared-other t ne =
      share_tables-other page_entry_count 0 cloned t
        (record s { entries = update s.entries cloned (s.entries dir) }) ne
      ∙ rw (==_ne t cloned ne) refl

  shared-walk :
      (root addr : ℕ)
      → target ((shared dir cloned s).entries root (addr / 2 ^ 22))
        ≡ target (s.entries dir (addr / 2 ^ 22))
      → walk (shared dir cloned s).entries root addr ≡ walk s.entries dir addr
  shared-walk root addr same =
      ap (λ o. in_table (shared dir cloned s).entries o addr) same
      ∙ elim (Option-cases (table_of s.entries dir addr)) [
        | inl e ↦
            ap (λ o. in_table (shared dir cloned s).entries o addr) e
            ∙ sym (ap (λ o. in_table s.entries o addr) e)
        | inr (t, e) ↦
            ap (λ o. in_table (shared dir cloned s).entries o addr) e
            ∙ ap (λ f. target (f (addr / 2 ^ 12 % 2 ^ 10)))
                (shared-other t (tables (addr / 2 ^ 22) t e))
            ∙ sym (ap (λ o. in_table s.entries o addr) e)
      ]

  shared-target :
      (m : ℕ) → target ((shared dir cloned s).entries cloned m) ≡ target (s.entries dir m)
  shared-target m =
      share_tables-target page_entry_count 0 cloned
        (record s { entries = update s.entries cloned (s.entries dir) }) m
      ∙ ap (λ f. target (f m)) copied

  shared-read_only :
      (m : ℕ)
      → m < page_entry_count
      → skips (s.entries dir m) m ≡ false
      → ((shared dir cloned s).entries cloned m).rw ≡ false
  shared-read_only m inside user =
      share_tables-read_only page_entry_count 0 cloned m
        (record s { entries = update s.entries cloned (s.entries dir) })
        (inl (omega arith, omega arith, ap (λ f. skips (f m) m) copied ∙ user))

  shared-users :
      (p : ℕ)
      → s.users p < 256
      → (shared dir cloned s).users p
        ≡ (s.users p + references page_entry_count 0 (s.entries dir) p) % 256
  shared-users p small =
      share_tables-users page_entry_count 0 cloned p
        (record s { entries = update s.entries cloned (s.entries dir) }) small
      ∙ ap (λ f. (s.users p + references page_entry_count 0 f p) % 256) copied

-- For a clone's directory that is not the one of the task nor a table of it, and counts of users
-- that are bytes: both directories map every address as before, the directory of the task is as it
-- was, the clone may not write through its entries of user tables, and each frame has one user more
-- for each such entry that points to it, modulo 256.
pub clone_page_table-shares :
    (dir memory : ℕ) (s : Paging)
    → memory ≢ 0
    → phy_addr memory ≢ dir
    → ((i t : ℕ) → target (s.entries dir i) ≡ some t → t ≢ phy_addr memory)
    → ((p : ℕ) → s.users p < 256)
    → (s' : Paging) × (clone_page_table dir memory s ≡ (phy_addr memory, s'))
      × ((addr : ℕ) → walk s'.entries (phy_addr memory) addr ≡ walk s.entries dir addr)
      × ((addr : ℕ) → walk s'.entries dir addr ≡ walk s.entries dir addr)
      × (s'.entries dir ≡ s.entries dir)
      × ((m : ℕ)
          → m < page_entry_count
          → skips (s.entries dir m) m ≡ false
          → (s'.entries (phy_addr memory) m).rw ≡ false)
      × ((p : ℕ) → s'.users p ≡ (s.users p + references page_entry_count 0 (s.entries dir) p) % 256)
unfolding clone_page_table
clone_page_table-shares dir memory s some_memory apart tables small =
    let cloned = phy_addr memory in
    (
      shared dir cloned s,
      rw (clone_page_table, ==_ne memory 0 some_memory) refl,
      λ addr.
          shared-walk dir cloned s apart tables cloned addr
            (shared-target dir cloned s apart tables (addr / 2 ^ 22)),
      λ addr. shared-walk dir cloned s apart tables dir addr (
          ap (λ f. target (f (addr / 2 ^ 22)))
            (shared-other dir cloned s apart tables dir (λ e. apart (sym e)))),
      shared-other dir cloned s apart tables dir (λ e. apart (sym e)),
      shared-read_only dir cloned s apart tables,
      λ p. shared-users dir cloned s apart tables p (small p),
    )
