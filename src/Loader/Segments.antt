-- ===== src/Loader/Segments.antt =====
-- The range of the memory that the loader takes for the kernel.
use neux_os.Prelude.{
  ℕ, ◌+◌, ◌%◌, ◌<◌, ◌≤◌, ◌≡◌, refl, ◌∙◌, true, false, ◌&&◌, Bool-cases, ◌⊎◌, inl, inr, List, [],
  ◌∷◌, ltb, leb, if◌then◌else◌, arith,
}
use neux_os.Mm.Align.{word, phy_addr}
use neux_os.Loader.{
  Phdr, Shdr, Loaded, copy, fill_zero, widen, is_loaded, is_bss, load_segment, load_segments,
  clear_bss, clear_sections, load_kernel_elf,
}

-- The bytes that are not in the range.
abbrev pub Outside : Loaded → ℕ → Type 0
Outside s a = (a < s.kernel_start) ⊎ (s.kernel_end ≤ a)

-- The range of `s` is a part of that of `s'`, and outside the latter the memory is the same.
record Extends (s s' : Loaded) : Type 0 where
  starts : s'.kernel_start ≤ s.kernel_start
  ends : s.kernel_end ≤ s'.kernel_end
  kept : (a : ℕ) → Outside s' a → s'.memory a ≡ s.memory a

Extends-refl : (s : Loaded) → Extends s s
Extends-refl s = record { starts = omega arith; ends = omega arith; kept = λ a h. refl }

Outside-less :
    (s s' : Loaded)
    → s'.kernel_start ≤ s.kernel_start
    → s.kernel_end ≤ s'.kernel_end
    → (a : ℕ) → Outside s' a
    → Outside s a
Outside-less s s' starts ends a (inl below) = inl (omega arith)
Outside-less s s' starts ends a (inr above) = inr (omega arith)

Extends-trans : (s t u : Loaded) → Extends s t → Extends t u → Extends s u
Extends-trans s t u st tu = record {
  starts = omega (arith, st.starts, tu.starts);
  ends = omega (arith, st.ends, tu.ends);
  kept = λ a h. tu.kept a h ∙ st.kept a (Outside-less t u tu.starts tu.ends a h);
}

-- The range has the bytes from `addr` on.
abbrev pub InRange : (addr size : ℕ) → Loaded → Type 0
InRange addr size s = (s.kernel_start ≤ addr) × (addr + size ≤ s.kernel_end)

less_start :
    (addr start : ℕ)
    → ((if ltb addr start then addr else start) ≤ start)
      × ((if ltb addr start then addr else start) ≤ addr)
less_start addr start = ground arith

more_end :
    (end' end : ℕ)
    → (end ≤ (if ltb end end' then end' else end)) × (end' ≤ (if ltb end end' then end' else end))
more_end end' end = ground arith

widen-InRange :
    (addr size : ℕ) (memory : ℕ → ℕ) (s : Loaded)
    → addr + size < word
    → ((a : ℕ) → (a < addr) ⊎ (addr + size ≤ a) → memory a ≡ s.memory a)
    → Extends s (widen addr size (record s { memory = memory }))
      × InRange addr size (widen addr size (record s { memory = memory }))
widen-InRange addr size memory s fits same =
    let (start, first) = less_start addr s.kernel_start in
    let (end, last) = more_end ((addr + size) % word) s.kernel_end in
    let whole : (addr + size) % word ≡ addr + size = omega arith in
    (
      record { starts = start; ends = end; kept = λ a h. same a (apart a first last whole h) },
      (first, omega (arith, last, whole)),
    )
  where
    apart :
        (a : ℕ) {start end : ℕ}
        → start ≤ addr
        → (addr + size) % word ≤ end
        → (addr + size) % word ≡ addr + size
        → (a < start) ⊎ (end ≤ a)
        → (a < addr) ⊎ (addr + size ≤ a)
    apart a first last whole (inl below) = inl (omega arith)
    apart a first last whole (inr above) = inr (omega arith)

-- A program header that is loaded ends below 4 GB, and has no more bytes in the file than in memory.
abbrev pub PhdrFits : Phdr → Type 0
PhdrFits ph = (phy_addr ph.p_vaddr + ph.p_memsz < word) × (ph.p_filesz ≤ ph.p_memsz)

abbrev pub ShdrFits : Shdr → Type 0
ShdrFits sh = phy_addr sh.sh_addr + sh.sh_size < word

-- Every header that the loader takes has the property.
abbrev pub AllLoaded : (Phdr → Type 0) → List Phdr → Type 0
AllLoaded P [] = Unit {0}
AllLoaded P (ph ∷ phs) = (is_loaded ph ≡ true → P ph) × AllLoaded P phs

abbrev pub AllBss : (Shdr → Type 0) → List Shdr → Type 0
AllBss P [] = Unit {0}
AllBss P (sh ∷ shs) = (is_bss sh ≡ true → P sh) × AllBss P shs

abbrev pub PhdrIn : Loaded → Phdr → Type 0
PhdrIn s ph = InRange (phy_addr ph.p_vaddr) ph.p_memsz s

abbrev pub ShdrIn : Loaded → Shdr → Type 0
ShdrIn s sh = InRange (phy_addr sh.sh_addr) sh.sh_size s

copy-outside :
    (target source count size : ℕ) (memory : ℕ → ℕ) (a : ℕ)
    → count ≤ size
    → (a < target) ⊎ (target + size ≤ a)
    → copy target source count memory a ≡ memory a
copy-outside target source count size memory a less (inl below) =
    let out : (leb target a && ltb a (target + count)) ≡ false = ground arith in rw out refl
copy-outside target source count size memory a less (inr above) =
    let out : (leb target a && ltb a (target + count)) ≡ false = ground arith in rw out refl

fill_zero-outside :
    (target count : ℕ) (memory : ℕ → ℕ) (a : ℕ)
    → (a < target) ⊎ (target + count ≤ a)
    → fill_zero target count memory a ≡ memory a
fill_zero-outside target count memory a (inl below) =
    let out : (leb target a && ltb a (target + count)) ≡ false = ground arith in rw out refl
fill_zero-outside target count memory a (inr above) =
    let out : (leb target a && ltb a (target + count)) ≡ false = ground arith in rw out refl

load_segment-InRange :
    (kernel_file : ℕ) (ph : Phdr) (s : Loaded)
    → (is_loaded ph ≡ true → PhdrFits ph)
    → Extends s (load_segment kernel_file ph s)
      × (is_loaded ph ≡ true → PhdrIn (load_segment kernel_file ph s) ph)
unfolding load_segment
load_segment-InRange kernel_file ph s fits = elim (Bool-cases (is_loaded ph)) [
  | inr not_loaded ↦
      rw (load_segment, not_loaded) (Extends-refl s, λ h. absurd (grind (arith, h, not_loaded)))
  | inl loaded ↦
      let (small, less) = fits loaded in
      let addr = phy_addr ph.p_vaddr in
      let memory = copy addr (kernel_file + ph.p_offset) ph.p_filesz s.memory in
      let (extends, inside) = widen-InRange addr ph.p_memsz memory s small (λ a out.
        copy-outside addr (kernel_file + ph.p_offset) ph.p_filesz ph.p_memsz s.memory a less out) in
      rw (load_segment, loaded) (extends, λ h. inside)
]

clear_bss-InRange :
    (sh : Shdr) (s : Loaded)
    → (is_bss sh ≡ true → ShdrFits sh)
    → Extends s (clear_bss sh s) × (is_bss sh ≡ true → ShdrIn (clear_bss sh s) sh)
unfolding clear_bss
clear_bss-InRange sh s fits = elim (Bool-cases (is_bss sh)) [
  | inr not_bss ↦ rw (clear_bss, not_bss) (Extends-refl s, λ h. absurd (grind (arith, h, not_bss)))
  | inl bss ↦
      let addr = phy_addr sh.sh_addr in
      let (extends, inside) =
        widen-InRange addr sh.sh_size (fill_zero addr sh.sh_size s.memory) s (fits bss)
          (fill_zero-outside addr sh.sh_size s.memory) in
      rw (clear_bss, bss) (extends, λ h. inside)
]

InRange-Extends :
    (addr size : ℕ) (s s' : Loaded) → Extends s s' → InRange addr size s → InRange addr size s'
InRange-Extends addr size s s' extends (low, high) =
    (omega (arith, low, extends.starts), omega (arith, high, extends.ends))

load_segments-InRange :
    (kernel_file : ℕ) (phs : List Phdr) (s : Loaded)
    → AllLoaded PhdrFits phs
    → Extends s (load_segments kernel_file phs s)
      × AllLoaded (PhdrIn (load_segments kernel_file phs s)) phs
unfolding load_segments
load_segments-InRange kernel_file [] s fits = (Extends-refl s, tt)
load_segments-InRange kernel_file (ph ∷ phs) s (fits, more) =
    let next = load_segment kernel_file ph s in
    let last = load_segments kernel_file phs next in
    let (first, inside) = load_segment-InRange kernel_file ph s fits in
    let (later, others) = load_segments-InRange kernel_file phs next more in
    (
      Extends-trans s next last first later,
      (λ h. InRange-Extends (phy_addr ph.p_vaddr) ph.p_memsz next last later (inside h), others),
    )

clear_sections-InRange :
    (shs : List Shdr) (s : Loaded)
    → AllBss ShdrFits shs
    → Extends s (clear_sections shs s) × AllBss (ShdrIn (clear_sections shs s)) shs
unfolding clear_sections
clear_sections-InRange [] s fits = (Extends-refl s, tt)
clear_sections-InRange (sh ∷ shs) s (fits, more) =
    let next = clear_bss sh s in
    let last = clear_sections shs next in
    let (first, inside) = clear_bss-InRange sh s fits in
    let (later, others) = clear_sections-InRange shs next more in
    (
      Extends-trans s next last first later,
      (λ h. InRange-Extends (phy_addr sh.sh_addr) sh.sh_size next last later (inside h), others),
    )

AllLoaded-map :
    (P Q : Phdr → Type 0) (phs : List Phdr)
    → ((ph : Phdr) → P ph → Q ph)
    → AllLoaded P phs
    → AllLoaded Q phs
AllLoaded-map P Q [] f all = tt
AllLoaded-map P Q (ph ∷ phs) f (one, more) = (λ h. f ph (one h), AllLoaded-map P Q phs f more)

-- For headers that end below 4 GB, and segments that have no more bytes in the file than in memory:
-- each segment that is loaded and each section that is cleared lies between kernel_start and
-- kernel_end, and load_kernel_elf changes no byte but those in between and those of the file.
pub load_kernel_elf-InRange :
    (kernel_file kernel_size : ℕ) (phs : List Phdr) (shs : List Shdr) (memory : ℕ → ℕ)
    → AllLoaded PhdrFits phs
    → AllBss ShdrFits shs
    → AllLoaded (PhdrIn (load_kernel_elf kernel_file kernel_size phs shs memory)) phs
      × AllBss (ShdrIn (load_kernel_elf kernel_file kernel_size phs shs memory)) shs
      × ((a : ℕ)
          → Outside (load_kernel_elf kernel_file kernel_size phs shs memory) a
          → (a < kernel_file) ⊎ (kernel_file + kernel_size ≤ a)
          → (load_kernel_elf kernel_file kernel_size phs shs memory).memory a ≡ memory a)
unfolding load_kernel_elf
load_kernel_elf-InRange kernel_file kernel_size phs shs memory segments sections =
    let s0 : Loaded = record { memory = memory; kernel_start = 0xffffffff; kernel_end = 0 } in
    let s1 = load_segments kernel_file phs s0 in
    let s2 = clear_sections shs s1 in
    let (first, loaded) = load_segments-InRange kernel_file phs s0 segments in
    let (second, cleared) = clear_sections-InRange shs s1 sections in
    (
      AllLoaded-map (PhdrIn s1) (PhdrIn s2) phs
          (λ ph. InRange-Extends (phy_addr ph.p_vaddr) ph.p_memsz s1 s2 second) loaded,
      cleared,
      λ a out file.
          fill_zero-outside kernel_file kernel_size s2.memory a file
          ∙ (Extends-trans s0 s1 s2 first second).kept a out,
    )
