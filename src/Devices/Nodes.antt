-- ===== src/Devices/Nodes.antt =====
-- The nodes of the device file system, and the devices that they lead to.
use neux_os.Prelude.{
  ℕ, ◌+◌, ◌%◌, ◌^◌, ◌<◌, ◌≡◌, ◌≢◌, refl, sym, subst, ap, ◌∙◌, Bool, true, false, ◌⊎◌, inl, inr,
  none, some, List, [], ◌∷◌, ◌++◌, ◌==◌, ==_ne, ==_refl, if◌then◌else◌, arith,
}
use neux_os.Links.{update}
use neux_os.Strings.{strlen, strcmp}
use neux_os.Bitmap.{Bitmap, bitmap_get}
use neux_os.Bitmap.Free.{is_used, AllBytes, bitmap_get-first}
use neux_os.Devices.{
  Dev, DevInode, DevRet, Devfs, error, value, enfile, enotsup, cdev, blk, dev_lookup, fits,
  sizeof_dev_inode, devfs_i_create, devfs_i_lookup, devfs_mknod, devfs_f_transfer,
}

strcmp_refl : (a : List ℕ) → strcmp a a ≡ 0
unfolding strcmp
strcmp_refl [] = refl
strcmp_refl (c ∷ a) = rw (==_refl c) (strcmp_refl a)

-- The nodes are at other addresses than `memory`, and their numbers are in use.
abbrev pub AllNodes : (memory : ℕ) → Devfs → List ℕ → Type 0
AllNodes memory s [] = Unit {0}
AllNodes memory s (n ∷ ns) =
    ((n ≢ memory) × (is_used s.bitmap (s.at n).ino ≡ true)) × AllNodes memory s ns

-- No node has the number.
abbrev pub NoneHas : (ino : ℕ) → (ℕ → DevInode) → List ℕ → Type 0
NoneHas ino at [] = Unit {0}
NoneHas ino at (n ∷ ns) = ((at n).ino ≢ ino) × NoneHas ino at ns

AllNodes-NoneHas :
    (memory ino : ℕ) (s : Devfs) (ns : List ℕ)
    → is_used s.bitmap ino ≡ false
    → AllNodes memory s ns
    → NoneHas ino s.at ns
AllNodes-NoneHas memory ino s [] free all = tt
AllNodes-NoneHas memory ino s (n ∷ ns) free ((_, used), more) = (
  λ e. absurd (grind (arith, sym used ∙ ap (is_used s.bitmap) e ∙ free)),
  AllNodes-NoneHas memory ino s ns free more,
)

-- A new node at the end, whose name none of the others has.
lookup-new :
    (name : List ℕ) (memory : ℕ) (at at' : ℕ → DevInode) (s : Devfs) (ns : List ℕ)
    → AllNodes memory s ns
    → ((n : ℕ) → n ≢ memory → at' n ≡ at n)
    → (at' memory).name ≡ name
    → devfs_i_lookup name at ns ≡ none
    → devfs_i_lookup name at' (ns ++ memory ∷ []) ≡ some memory
unfolding devfs_i_lookup
lookup-new name memory at at' s [] all same new missing =
    let equal : strcmp (at' memory).name name ≡ 0 =
      ap (λ a. strcmp a name) new ∙ strcmp_refl name in
    rw equal refl
lookup-new name memory at at' s (n ∷ ns) ((ne, _), more) same new missing =
    ap
      (λ i. if strcmp i.name name == 0 then some n else devfs_i_lookup name at' (ns ++ memory ∷ []))
      (same n ne)
    ∙ go (strcmp (at n).name name == 0) (lookup-new name memory at at' s ns more same new) missing
  where
    go :
        (b : Bool)
        → (devfs_i_lookup name at ns ≡ none
            → devfs_i_lookup name at' (ns ++ memory ∷ []) ≡ some memory)
        → (if b then some n else devfs_i_lookup name at ns) ≡ none
        → (if b then some n else devfs_i_lookup name at' (ns ++ memory ∷ [])) ≡ some memory
    go true later h = absurd (grind (arith, h))
    go false later h = later h

-- The nodes after devfs_i_create, and after devfs_mknod.
abbrev named : (name : List ℕ) → (ino : ℕ) → (memory : ℕ) → (ℕ → DevInode) → ℕ → DevInode
named name ino memory at = update at memory (record (at memory) { name = name; ino = ino })

abbrev numbered : (dno : ℕ) → (memory : ℕ) → (ℕ → DevInode) → ℕ → DevInode
numbered dno memory at = update at memory (record (at memory) { dno = dno })

numbered-other :
    (name : List ℕ) (dno ino memory n : ℕ) (at : ℕ → DevInode)
    → n ≢ memory
    → numbered dno memory (named name ino memory at) n ≡ at n
numbered-other name dno ino memory n at ne = rw (==_ne n memory ne) refl

abbrev with_node : (name : List ℕ) → (ino memory : ℕ) → Bitmap → Devfs → Devfs
with_node name ino memory bitmap s = record {
  at = named name ino memory s.at;
  nodes = s.nodes ++ memory ∷ [];
  bitmap = bitmap;
  size = (s.size + sizeof_dev_inode) % 2 ^ 32;
}

module _ (memory : ℕ) (name : List ℕ) (dno : ℕ) (s : Devfs) where
  create_full :
      bitmap_get s.bitmap ≡ (none, s.bitmap) → devfs_i_create memory name s ≡ (error enfile, s)
  unfolding devfs_i_create
  create_full e = rw (devfs_i_create, ap (λ r. r.0) e, ap (λ r. r.1) e) refl

  create_node :
      (ino : ℕ) (bitmap : Bitmap)
      → fits name ≡ true
      → memory ≢ 0
      → bitmap_get s.bitmap ≡ (some ino, bitmap)
      → devfs_i_create memory name s ≡ (value 0, with_node name ino memory bitmap s)
  unfolding devfs_i_create
  create_node ino bitmap short some_memory e =
      rw (devfs_i_create, ap (λ r. r.0) e, ap (λ r. r.1) e, ==_ne memory 0 some_memory, short) refl

  mknod_full :
      fits name ≡ true
      → devfs_i_create memory name s ≡ (error enfile, s)
      → devfs_mknod memory name dno s ≡ (error enfile, s)
  unfolding devfs_mknod
  mknod_full short e = rw (devfs_mknod, short, ap (λ r. r.0) e, ap (λ r. r.1) e) refl

  mknod_node :
      (s' : Devfs)
      → fits name ≡ true
      → devfs_i_create memory name s ≡ (value 0, s')
      → devfs_mknod memory name dno s ≡ (value 0, record s' { at = numbered dno memory s'.at })
  unfolding devfs_mknod
  mknod_node s' short e = rw (devfs_mknod, short, ap (λ r. r.0) e, ap (λ r. r.1) e) refl

devfs_f_transfer-cdev :
    (node dno : ℕ) (result : Dev → DevRet) (d : Dev) (ds : List Dev) (at : ℕ → DevInode)
    → (at node).dno ≡ dno
    → dev_lookup dno ds ≡ some d
    → d.type ≡ cdev
    → devfs_f_transfer result node at ds ≡ result d
unfolding devfs_f_transfer
devfs_f_transfer-cdev node dno result d ds at number found is_cdev =
    rw (devfs_f_transfer, number, found)
      (ap (λ t. elim t [ cdev ↦ result d | blk ↦ error enotsup ]) is_cdev)

-- With memory for a node at a new address, a bitmap that has room for indices and whose bytes are
-- bytes, nodes whose numbers are in use, a name of fewer than 16 characters that no node has, and a
-- character device that is registered under `dno`: if all numbers are in use, devfs_mknod gives -ENFILE and changes nothing.
-- Otherwise the name leads to the new node, whose number no other node has, and reading or writing
-- its file calls the device; every other node is as it was.
pub devfs_mknod-lookup :
    (memory : ℕ) (name : List ℕ) (dno : ℕ) (s : Devfs) (result : Dev → DevRet) (d : Dev)
    (ds : List Dev)
    → strlen name < 16
    → memory ≢ 0
    → 0 < s.bitmap.size
    → s.bitmap.size < 2 ^ 31
    → AllBytes s.bitmap
    → AllNodes memory s s.nodes
    → devfs_i_lookup name s.at s.nodes ≡ none
    → dev_lookup dno ds ≡ some d
    → d.type ≡ cdev
    → ((devfs_mknod memory name dno s ≡ (error enfile, s))
        × ((j : ℕ) → j < s.bitmap.size → is_used s.bitmap j ≡ true))
      ⊎ ((s' : Devfs) × (devfs_mknod memory name dno s ≡ (value 0, s'))
          × (devfs_i_lookup name s'.at s'.nodes ≡ some memory)
          × NoneHas (s'.at memory).ino s.at s.nodes
          × ((n : ℕ) → n ≢ memory → s'.at n ≡ s.at n)
          × (devfs_f_transfer result memory s'.at ds ≡ result d))
devfs_mknod-lookup memory name dno s result d ds short some_memory pos small bytes nodes missing
      found is_cdev =
    let in_array : fits name ≡ true = ground arith in
    elim (bitmap_get-first s.bitmap pos small bytes) [
      | inl (full, used) ↦
          inl (mknod_full memory name dno s in_array (create_full memory name dno s full), used)
      | inr (ino, bitmap, got, _, free, _, _, _) ↦
          let s1 = with_node name ino memory bitmap s in
          let at' = numbered dno memory s1.at in
          let created = create_node memory name dno s ino bitmap in_array some_memory got in
          let new_name : (at' memory).name ≡ name = rw (==_refl memory) refl in
          let new_ino : (at' memory).ino ≡ ino = rw (==_refl memory) refl in
          let new_dno : (at' memory).dno ≡ dno = rw (==_refl memory) refl in
          let others = λ (n : ℕ) (ne : n ≢ memory). numbered-other name dno ino memory n s.at ne in
          inr (
            record s1 { at = at' },
            mknod_node memory name dno s s1 in_array created,
            lookup-new name memory s.at at' s s.nodes nodes others new_name missing,
            subst (λ i. NoneHas i s.at s.nodes) (sym new_ino)
                (AllNodes-NoneHas memory ino s s.nodes free nodes),
            others,
            devfs_f_transfer-cdev memory dno result d ds at' new_dno found is_cdev,
          )
    ]
