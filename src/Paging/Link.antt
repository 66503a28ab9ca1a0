-- ===== src/Paging/Link.antt =====
-- A new table in the directory.
use neux_os.Prelude.{
  ℕ, ◌*◌, ◌/◌, ◌%◌, ◌^◌, ◌≡◌, ◌≢◌, refl, sym, ap, ◌∙◌, Bool, true, Bool-cases, Option-cases, ◌⊎◌,
  inl, inr, none, some, ◌==◌, ==_ne, ==_refl, arith,
}
use neux_os.Links.{update}
use neux_os.Mm.Page.{Users, frame}
use neux_os.Paging.{PageEntry, Entries, no_entry, put_entry}
use neux_os.Paging.Walk.{target, table_of, in_table, walk, IsSpace}

pub IsSpace-users :
    (u u' : Users) (entries : Entries) (cr3 : ℕ)
    → ((m : ℕ) → u m ≢ 0 → u' m ≢ 0)
    → IsSpace u entries cr3
    → IsSpace u' entries cr3
IsSpace-users u u' entries cr3 more space = record {
  root = more (frame cr3) space.root;
  used = λ i t h. more (frame t) (space.used i t h);
  apart = space.apart;
  distinct = space.distinct;
}

-- The entry that map_page writes in the directory.
abbrev pub linked : (user : Bool) → (tpage : ℕ) → PageEntry → PageEntry
linked user tpage e = record e { rw = true; us = user; index = frame tpage; present = true }

-- The tables with an empty one at the page `j`, to which the directory's entry `i` points.
abbrev pub linked_table : (user : Bool) → (cr3 i j : ℕ) → Entries → Entries
linked_table user cr3 i j entries =
    let cleared = update entries (j * 2 ^ 12) (λ _. no_entry) in
    put_entry cr3 i (linked user (j * 2 ^ 12) (cleared cr3 i)) cleared

module _ (user : Bool) (cr3 i j : ℕ) (u u' : Users) (entries : Entries) (free : u j ≡ 0)
    (taken : u' j ≡ 1) (others : (m : ℕ) → m ≢ j → u' m ≡ u m) (space : IsSpace u entries cr3)
    (absent : target (entries cr3 i) ≡ none) where
  abbrev tpage : ℕ
  tpage = j * 2 ^ 12

  abbrev with_table : Entries
  with_table = linked_table user cr3 i j entries

  in_use_ne : (t : ℕ) → u (frame t) ≢ 0 → t ≢ tpage
  in_use_ne t used e = let number : frame t ≡ j = omega (arith, e) in used (ap u number ∙ free)

  stays_used : (m : ℕ) → u m ≢ 0 → u' m ≢ 0
  stays_used m used e =
      let other : m ≢ j = λ same. used (ap u same ∙ free) in used (sym (others m other) ∙ e)

  directory : (m : ℕ) → m ≢ i → with_table cr3 m ≡ entries cr3 m
  directory m ne =
      let root = ==_ne cr3 tpage (in_use_ne cr3 space.root) in
      rw (==_refl cr3, ==_ne m i ne, root) refl

  pub new_entry : target (with_table cr3 i) ≡ some tpage
  new_entry =
      let whole : tpage / 2 ^ 12 * 2 ^ 12 ≡ tpage = omega arith in
      rw (==_refl cr3, ==_refl i) (ap some whole)

  entry_cases :
      (m t : ℕ)
      → target (with_table cr3 m) ≡ some t
      → ((target (entries cr3 m) ≡ some t) × (m ≢ i)) ⊎ ((m ≡ i) × (t ≡ tpage))
  entry_cases m t h = elim (Bool-cases (m == i)) [
    | inl e ↦
        let same : m ≡ i = ground (arith, e) in
        let new = sym (ap (λ k. target (with_table cr3 k)) same ∙ new_entry) ∙ h in
        inr (same, sym (ap (λ o. elim o [ none ↦ 0 | some n ↦ n ]) new))
    | inr ne ↦
        let other : m ≢ i = ground (arith, ne) in
        inl (sym (ap target (directory m other)) ∙ h, other)
  ]

  pub with_table-IsSpace : IsSpace u' with_table cr3
  with_table-IsSpace = record {
    root = stays_used (frame cr3) space.root;
    used = λ m t h. elim (entry_cases m t h) [
      | inl (old, _) ↦ stays_used (frame t) (space.used m t old)
      | inr (_, e) ↦ λ none_left.
          let number : frame t ≡ j = omega (arith, e) in
          let one = sym taken ∙ sym (ap u' number) ∙ none_left in absurd (omega (arith, one))
    ];
    apart = λ m t h. elim (entry_cases m t h) [
      | inl (old, _) ↦ space.apart m t old
      | inr (_, e) ↦ λ same. in_use_ne cr3 space.root (sym same ∙ e)
    ];
    distinct = λ m n t hm hn. elim (entry_cases m t hm) [
      | inl (old, _) ↦ elim (entry_cases n t hn) [
        | inl (old', _) ↦ space.distinct m n t old old'
        | inr (_, e) ↦ absurd (in_use_ne t (space.used m t old) e)
      ]
      | inr (at, e) ↦ elim (entry_cases n t hn) [
        | inl (old', _) ↦ absurd (in_use_ne t (space.used n t old') e)
        | inr (at', _) ↦ at ∙ sym at'
      ]
    ];
  }

  pub with_table-walk : (addr : ℕ) → walk with_table cr3 addr ≡ walk entries cr3 addr
  with_table-walk addr = elim (Bool-cases (addr / 2 ^ 22 == i)) [
    | inl e ↦
        let same : addr / 2 ^ 22 ≡ i = ground (arith, e) in
        ap (λ m. in_table with_table (target (with_table cr3 m)) addr) same
        ∙ ap (λ o. in_table with_table o addr) new_entry
        ∙ empty
        ∙ sym (
            ap (λ m. in_table entries (target (entries cr3 m)) addr) same
            ∙ ap (λ o. in_table entries o addr) absent)
    | inr ne ↦
        let other : addr / 2 ^ 22 ≢ i = ground (arith, ne) in
        ap (λ d. in_table with_table (target d) addr) (directory (addr / 2 ^ 22) other)
        ∙ elim (Option-cases (table_of entries cr3 addr)) [
          | inl e ↦
              ap (λ o. in_table with_table o addr) e ∙ sym (ap (λ o. in_table entries o addr) e)
          | inr (t, e) ↦
              ap (λ o. in_table with_table o addr) e
              ∙ old_table t (addr / 2 ^ 12 % 2 ^ 10) (space.apart (addr / 2 ^ 22) t e)
                  (in_use_ne t (space.used (addr / 2 ^ 22) t e))
              ∙ sym (ap (λ o. in_table entries o addr) e)
        ]
  ]
    where
      empty : target (with_table tpage (addr / 2 ^ 12 % 2 ^ 10)) ≡ none
      empty =
          let other = ==_ne tpage cr3 (λ e. in_use_ne cr3 space.root (sym e)) in
          rw (other, ==_refl tpage) refl

      old_table : (t k : ℕ) → t ≢ cr3 → t ≢ tpage → target (with_table t k) ≡ target (entries t k)
      old_table t k apart new = rw (==_ne t cr3 apart, ==_ne t tpage new) refl
