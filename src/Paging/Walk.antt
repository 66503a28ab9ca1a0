-- ===== src/Paging/Walk.antt =====
-- The processor's walk through the tables, and what one entry more means for it.
use neux_os.Prelude.{
  ℕ, ◌*◌, ◌/◌, ◌%◌, ◌^◌, ◌≡◌, ◌≢◌, refl, sym, subst, ap, ◌∙◌, Bool, true, false, Bool-cases,
  Option-cases, inl, inr, Option, none, some, ◌==◌, ==_ne, ==_refl, if◌then◌else◌, arith,
}
use neux_os.Prelude.Bits.{bit_and-low}
use neux_os.Mm.Page.{Users, frame}
use neux_os.Paging.{PageEntry, Entries, put_entry, map_in}

-- The page or the table of an entry, if it is present.
abbrev pub target : PageEntry → Option ℕ
target e = if e.present then some (e.index * 2 ^ 12) else none

abbrev pub table_of : Entries → (cr3 addr : ℕ) → Option ℕ
table_of entries cr3 addr = target (entries cr3 (addr / 2 ^ 22))

abbrev pub in_table : Entries → Option ℕ → (addr : ℕ) → Option ℕ
in_table entries none addr = none
in_table entries (some table) addr = target (entries table (addr / 2 ^ 12 % 2 ^ 10))

-- The physical page that an address is mapped to.
abbrev pub walk : Entries → (cr3 addr : ℕ) → Option ℕ
walk entries cr3 addr = in_table entries (table_of entries cr3 addr) addr

-- The directory and its tables are in use, and they are all different.
pub record IsSpace (users : Users) (entries : Entries) (cr3 : ℕ) : Type 0 where
  pub root : users (frame cr3) ≢ 0
  pub used : (i t : ℕ) → target (entries cr3 i) ≡ some t → users (frame t) ≢ 0
  pub apart : (i t : ℕ) → target (entries cr3 i) ≡ some t → t ≢ cr3
  pub distinct :
      (i j t : ℕ) → target (entries cr3 i) ≡ some t → target (entries cr3 j) ≡ some t → i ≡ j

pub target-some :
    (e : PageEntry) (t : ℕ) → target e ≡ some t → (e.present ≡ true) × (e.index * 2 ^ 12 ≡ t)
target-some e t h = go e.present h
  where
    go :
        (b : Bool)
        → (if b then some (e.index * 2 ^ 12) else none) ≡ some t
        → (b ≡ true) × (e.index * 2 ^ 12 ≡ t)
    go true h = (refl, ap (λ o. elim o [ none ↦ 0 | some n ↦ n ]) h)
    go false h = absurd (grind (arith, h))

-- The entry that map_page writes.
abbrev pub mapped : (user : Bool) → (page : ℕ) → PageEntry → PageEntry
mapped user page e = record e { index = frame page; rw = true; us = user; present = true }

map_in-put :
    (user : Bool) (cr3 cr2 page t : ℕ) (entries : Entries)
    → table_of entries cr3 cr2 ≡ some t
    → map_in user cr3 cr2 page entries
      ≡ put_entry t
          (cr2 / 2 ^ 12 % 2 ^ 10)
          (mapped user page (entries t (cr2 / 2 ^ 12 % 2 ^ 10)))
          entries
unfolding map_in
map_in-put user cr3 cr2 page t entries h =
    let (present, at) = target-some (entries cr3 (cr2 / 2 ^ 22)) t h in
    let low = bit_and-low 10 (cr2 / 2 ^ 12) in rw (map_in, at, low) refl

put_entry-other :
    (table i other : ℕ) (e : PageEntry) (entries : Entries)
    → other ≢ table
    → put_entry table i e entries other ≡ entries other
put_entry-other table i other e entries ne = rw (==_ne other table ne) refl

put_entry-same :
    (table i j : ℕ) (e : PageEntry) (entries : Entries)
    → put_entry table i e entries table j ≡ (if j == i then e else entries table j)
put_entry-same table i j e entries = rw (==_refl table) refl

module _ (user : Bool) (cr3 cr2 j t : ℕ) (users : Users) (entries : Entries) where
  abbrev slot : ℕ
  slot = cr2 / 2 ^ 12 % 2 ^ 10

  abbrev after : Entries
  after = put_entry t slot (mapped user (j * 2 ^ 12) (entries t slot)) entries

  after-directory :
      IsSpace users entries cr3
      → table_of entries cr3 cr2 ≡ some t
      → (i : ℕ) → after cr3 i ≡ entries cr3 i
  after-directory space h i =
      let apart = space.apart (cr2 / 2 ^ 22) t h in
      ap (λ f. f i)
        (put_entry-other t slot cr3 (mapped user (j * 2 ^ 12) (entries t slot)) entries
          (λ e. apart (sym e)))

  after-page :
      ((i : ℕ) → after cr3 i ≡ entries cr3 i)
      → table_of entries cr3 cr2 ≡ some t
      → walk after cr3 cr2 ≡ some (j * 2 ^ 12)
  after-page kept h =
      ap (λ d. in_table after (target d) cr2) (kept (cr2 / 2 ^ 22))
      ∙ ap (λ o. in_table after o cr2) h
      ∙ ap target (put_entry-same t slot slot (mapped user (j * 2 ^ 12) (entries t slot)) entries)
      ∙ here
    where
      here :
          target
            (if slot == slot then mapped user (j * 2 ^ 12) (entries t slot) else entries t slot)
          ≡ some (j * 2 ^ 12)
      here =
          let whole : j * 2 ^ 12 / 2 ^ 12 * 2 ^ 12 ≡ j * 2 ^ 12 = omega arith in
          rw (==_refl slot) (ap some whole)

  after-others :
      IsSpace users entries cr3
      → ((i : ℕ) → after cr3 i ≡ entries cr3 i)
      → table_of entries cr3 cr2 ≡ some t
      → (addr : ℕ) → addr / 2 ^ 12 ≢ cr2 / 2 ^ 12
      → walk after cr3 addr ≡ walk entries cr3 addr
  after-others space kept h addr ne =
      ap (λ d. in_table after (target d) addr) (kept (addr / 2 ^ 22))
      ∙ (elim (Option-cases (table_of entries cr3 addr)) [
        | inl e ↦ rw e refl
        | inr (t', e) ↦
            ap (λ o. in_table after o addr) e
            ∙ ap target (in_other t' e)
            ∙ sym (ap (λ o. in_table entries o addr) e)
      ])
    where
      in_other :
          (t' : ℕ)
          → table_of entries cr3 addr ≡ some t'
          → after t' (addr / 2 ^ 12 % 2 ^ 10) ≡ entries t' (addr / 2 ^ 12 % 2 ^ 10)
      in_other t' e = elim (Bool-cases (t' == t)) [
        | inl same ↦
            let at : t' ≡ t = ground (arith, same) in
            let directory = space.distinct (addr / 2 ^ 22) (cr2 / 2 ^ 22) t (e ∙ ap some at) h in
            let apart : addr / 2 ^ 12 % 2 ^ 10 ≢ slot = λ eq. ne (omega (arith, directory, eq)) in
            rw (same, ==_ne (addr / 2 ^ 12 % 2 ^ 10) slot apart)
              (ap (λ (table : ℕ). entries table (addr / 2 ^ 12 % 2 ^ 10)) (sym at))
        | inr other ↦ rw other refl
      ]

pub map_in-walk :
    (user : Bool) (cr3 cr2 j t : ℕ) (users : Users) (entries : Entries)
    → IsSpace users entries cr3
    → table_of entries cr3 cr2 ≡ some t
    → (walk (map_in user cr3 cr2 (j * 2 ^ 12) entries) cr3 cr2 ≡ some (j * 2 ^ 12))
      × ((addr : ℕ)
          → addr / 2 ^ 12 ≢ cr2 / 2 ^ 12
          → walk (map_in user cr3 cr2 (j * 2 ^ 12) entries) cr3 addr ≡ walk entries cr3 addr)
      × ((i : ℕ) → map_in user cr3 cr2 (j * 2 ^ 12) entries cr3 i ≡ entries cr3 i)
map_in-walk user cr3 cr2 j t users entries space h =
    let kept = after-directory user cr3 cr2 j t users entries space h in
    subst
      (λ m.
        (walk m cr3 cr2 ≡ some (j * 2 ^ 12))
        × ((addr : ℕ) → addr / 2 ^ 12 ≢ cr2 / 2 ^ 12 → walk m cr3 addr ≡ walk entries cr3 addr)
        × ((i : ℕ) → m cr3 i ≡ entries cr3 i))
      (sym (map_in-put user cr3 cr2 (j * 2 ^ 12) t entries h))
      (
        after-page user cr3 cr2 j t users entries kept h,
        after-others user cr3 cr2 j t users entries space kept h,
        kept,
      )
