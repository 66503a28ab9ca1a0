-- ===== src/Descriptors/Install.antt =====
-- The table as a set of descriptors in use, each with what it says.
use Prim.Native.Nat.{bit_or}
use neux_os.Prelude.{
  ℕ, ◌-◌, ◌*◌, ◌/◌, ◌^◌, ◌<◌, ◌≤◌, ◌≡◌, ◌≢◌, refl, sym, subst, ap, ◌⊎◌, inl, inr, Bool, true, false,
  not, Bool-cases, none, some, ◌==◌, ==_ne, ==_refl, ltb, if◌then◌else◌, arith,
}
use neux_os.Prelude.Below.{all_below, all_below-at}
use neux_os.Links.{update}
use neux_os.Bitmap.{bitmap_set, bitmap_bit, first_free}
use neux_os.Bitmap.Free.{set-is_used, clr-set-is_used, first_free-IsFirst}
use neux_os.Descriptors.{
  Gdt, gdt_size, index_alloc, descriptor_of, uninstall_desc, install_tss, uninstall_tss,
}
use neux_os.Descriptors.Fields.{base_of, limit_of, attributes_of, descriptor_of-fields}

abbrev pub is_taken : Gdt → ℕ → Bool
is_taken s i = not (bitmap_bit s.bitmap i == 0)

selectors_hold : all_below gdt_size (λ i. bit_or (i * 8) 0 == i * 8) ≡ true
selectors_hold = refl

selector : (i : ℕ) → i < gdt_size → bit_or (i * 8) 0 ≡ i * 8
selector i h =
    let law = all_below-at gdt_size (λ i. bit_or (i * 8) 0 == i * 8) i selectors_hold h in
    ground (arith, law)

abbrev installed : (i tss : ℕ) → Gdt → Gdt
installed i tss s = record s {
  gdt = update s.gdt i (descriptor_of tss 103 0x89);
  bitmap = bitmap_set s.bitmap i;
}

installed-uninstall :
    (i tss : ℕ) (s : Gdt)
    → i < gdt_size
    → uninstall_tss (i * 8) (installed i tss s) ≡ (true, uninstall_desc i (installed i tss s))
unfolding uninstall_tss
installed-uninstall i tss s h =
    let index : i * 8 / 8 ≡ i = omega arith in
    let inside : ltb (gdt_size - 1) i ≡ false = ground arith in
    rw (uninstall_tss, index, inside) refl

uninstall_desc-is_taken :
    (i j tss : ℕ) (s : Gdt)
    → i < gdt_size
    → s.bitmap (i / 8) < 256
    → is_taken s i ≡ false
    → is_taken (uninstall_desc i (installed i tss s)) j ≡ is_taken s j
uninstall_desc-is_taken i j tss s h byte free =
    let inside : ltb (gdt_size - 1) i ≡ false = ground arith in
    rw inside (clr-set-is_used s.bitmap i j byte free)

full_end : (i : ℕ) → (i == gdt_size) ≡ true → (ltb (gdt_size - 1) i ≡ true) × (i ≡ gdt_size)
full_end i h = let e : i ≡ gdt_size = ground (arith, h) in (ground (arith, e), e)

room_left :
    (i : ℕ)
    → i ≤ gdt_size
    → (i == gdt_size) ≡ false
    → (i < gdt_size) × (ltb (gdt_size - 1) i ≡ false)
room_left i le h = let lt : i < gdt_size = ground (arith, h) in (lt, ground (arith, lt))

abbrev first_index : (ℕ → ℕ) → ℕ
first_index bitmap = first_free gdt_size 0 (record { size = gdt_size; bits = bitmap })

alloc_full :
    (bitmap : ℕ → ℕ)
    → ltb (gdt_size - 1) (first_index bitmap) ≡ true
    → index_alloc bitmap ≡ (none, bitmap)
unfolding index_alloc
alloc_full bitmap h = rw (index_alloc, h) refl

alloc_found :
    (bitmap : ℕ → ℕ)
    → ltb (gdt_size - 1) (first_index bitmap) ≡ false
    → index_alloc bitmap ≡ (some (first_index bitmap), bitmap_set bitmap (first_index bitmap))
unfolding index_alloc
alloc_found bitmap h = rw (index_alloc, h) refl

-- For a task state at an address of 32 bits: if all 8192 descriptors are in use, install_tss gives -1
-- and changes nothing. Otherwise its selector has 16 bits and no bits for a privilege or a local
-- table, and stands for the first descriptor that is not in use. This one says the address, the limit
-- 103 and the attributes of a task state; every other is as it was, and no other is taken.
-- uninstall_tss of the selector gives 0, and the descriptors in use are those of before.
pub install_tss-uninstall :
    (tss priv : ℕ) (s : Gdt)
    → tss < 2 ^ 32
    → ((i : ℕ) → s.bitmap i < 256)
    → ((install_tss tss priv s ≡ (none, s)) × ((j : ℕ) → j < gdt_size → is_taken s j ≡ true))
      ⊎ ((i : ℕ) × (s' : Gdt) × (install_tss tss priv s ≡ (some (i * 8), s'))
          × (i * 8 < 2 ^ 16)
          × (is_taken s i ≡ false)
          × ((j : ℕ) → j < i → is_taken s j ≡ true)
          × ((base_of (s'.gdt i) ≡ tss)
              × (limit_of (s'.gdt i) ≡ 103)
              × (attributes_of (s'.gdt i) ≡ 0x89))
          × ((j : ℕ) → j ≢ i → s'.gdt j ≡ s.gdt j)
          × ((j : ℕ) → is_taken s' j ≡ (if j == i then true else is_taken s j))
          × ((s'' : Gdt) × (uninstall_tss (i * 8) s' ≡ (true, s''))
              × ((j : ℕ) → is_taken s'' j ≡ is_taken s j)))
unfolding install_tss
install_tss-uninstall tss priv s small bytes =
    let i = first_index s.bitmap in
    let first = first_free-IsFirst gdt_size 0 (record { size = gdt_size; bits = s.bitmap }) refl in
    elim (Bool-cases (i == gdt_size)) [
      | inl full ↦
          let (none_left, at_end) = full_end i full in
          inl (
            (let e = alloc_full s.bitmap none_left in
                rw (install_tss, ap (λ r. r.0) e, ap (λ r. r.1) e) refl),
            λ j h. first.used j (omega arith) (subst (λ n. j < n) (sym at_end) h),
          )
      | inr room ↦
          let (inside, found) = room_left i first.inside room in
          inr (
            i,
            installed i tss s,
            (let e = alloc_found s.bitmap found in
                rw (install_tss, ap (λ r. r.0) e, ap (λ r. r.1) e, selector i inside) refl),
            omega arith,
            first.free inside,
            λ j h. first.used j (omega arith) h,
            rw (==_refl i)
                (descriptor_of-fields tss 103 0x89 small (omega arith) (omega arith) refl),
            λ j ne. rw (==_ne j i ne) refl,
            λ j. set-is_used s.bitmap i j (bytes (i / 8)),
            (
              uninstall_desc i (installed i tss s),
              installed-uninstall i tss s inside,
              λ j. uninstall_desc-is_taken i j tss s inside (bytes (i / 8)) (first.free inside),
            ),
          )
    ]
